-- ===== src/Prelude/Text/Chars.antt =====
-- Tests on all the characters of a text, and what `strip`, `partition` and `in` do with them.
use Prim.Native.Nat.{ℕ}
use Prim.Native.Char.{Char, code}
use Prim.Native.String.{String}
use mathlib.Core.Path.{◌≡◌, refl}
use mathlib.Core.Bool.{Bool, true, false, not, ◌&&◌, ◌||◌}
use native.Mathlib.Omega.{arith}
use text.Mathlib.TextEquality.{eq_iff}
use xray_routing_panel.Prelude.Tests.{◌==◌}
use xray_routing_panel.Prelude.Text.{str_eq, is_space, lstrip, rstrip, strip, str_append, partition}

pub str_eq_refl : (s : String) → str_eq s s ≡ true
str_eq_refl s = ground (arith, eq_iff s s)

pub str_eq_sym : (s t : String) → str_eq s t ≡ str_eq t s
str_eq_sym s t = ground (arith, eq_iff s t, eq_iff t s)

abbrev pub all_chars : (ℕ → Bool) → String → Bool
all_chars p String.[] = true
all_chars p (String.◌∷◌ c s) = p (code c) && all_chars p s

-- `c in s`
abbrev pub has_char : ℕ → String → Bool
has_char a String.[] = false
has_char a (String.◌∷◌ c s) = code c == a || has_char a s

-- `s.startswith(c)`
abbrev pub starts_with : ℕ → String → Bool
starts_with a String.[] = false
starts_with a (String.◌∷◌ c s) = code c == a

-- no white space in it
abbrev pub is_solid : String → Bool
is_solid = all_chars (λ c. not (is_space c))

pub lstrip-solid : (s : String) → is_solid s ≡ true → lstrip s ≡ s
lstrip-solid String.[] h = refl
lstrip-solid (String.◌∷◌ c s) h = ground arith

pub rstrip-solid : (s : String) → is_solid s ≡ true → rstrip s ≡ s
rstrip-solid String.[] h = refl
rstrip-solid (String.◌∷◌ c s) h = ground (arith, rstrip-solid s)

pub strip-solid : (s : String) → is_solid s ≡ true → strip s ≡ s
unfolding strip
strip-solid s h = ground (arith, lstrip-solid s h, rstrip-solid s h)

module _ (p : ℕ → Bool) where
  pub all_chars-append :
      (s t : String)
      → all_chars p s ≡ true
      → all_chars p t ≡ true
      → all_chars p (str_append s t) ≡ true
  all_chars-append String.[] t h k = k
  all_chars-append (String.◌∷◌ c s) t h k = ground (arith, all_chars-append s t, h, k)

  pub all_chars-imp :
      (q : ℕ → Bool)
      → ((c : ℕ) → p c ≡ true → q c ≡ true)
      → (s : String) → all_chars p s ≡ true
      → all_chars q s ≡ true
  all_chars-imp q f String.[] h = refl
  all_chars-imp q f (String.◌∷◌ c s) h = ground (arith, f (code c), all_chars-imp q f s, h)

pub has_char-append :
    (a : ℕ) (s t : String) → has_char a (str_append s t) ≡ (has_char a s || has_char a t)
has_char-append a String.[] t = refl
has_char-append a (String.◌∷◌ c s) t = ground (arith, has_char-append a s t)

-- The first separator is the one after a text that has none.
pub partition-append :
    (a : Char) (s t : String)
    → has_char (code a) s ≡ false
    → partition (code a) (str_append s (String.◌∷◌ a t)) ≡ (s, t)
partition-append a String.[] t h = ground arith
partition-append a (String.◌∷◌ c s) t h = ground (arith, partition-append a s t, h)
