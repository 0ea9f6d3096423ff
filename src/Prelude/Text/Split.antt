-- ===== src/Prelude/Text/Split.antt =====
-- Splitting a text at each character that passes a test, and joining the pieces.
use Prim.Native.Char.{Char, code}
use Prim.Native.String.{String}
use Prim.Native.Nat.{ℕ}
use mathlib.Core.Path.{◌≡◌, refl}
use mathlib.Core.Bool.{Bool, true, false, not}
use mathlib.Core.List.{List, [], ◌∷◌}
use mathlib.Core.Logic.{inl, inr}
use native.Mathlib.Omega.{arith}
use xray_routing_panel.Prelude.Tests.{if◌then◌else◌, Bool-cases}
use xray_routing_panel.Prelude.Lists.{All}
use xray_routing_panel.Prelude.Text.{str_append}
use xray_routing_panel.Prelude.Text.Chars.{all_chars}

abbrev push_char : Char → List String → List String
push_char c [] = String.◌∷◌ c String.[] ∷ []
push_char c (s ∷ rest) = String.◌∷◌ c s ∷ rest

module _ (sep : ℕ → Bool) where
  -- `s.split(c)` for one separator; a run of separators gives empty pieces
  abbrev pub split_by : String → List String
  split_by String.[] = String.[] ∷ []
  split_by (String.◌∷◌ c s) =
      let rest = split_by s in if sep (code c) then String.[] ∷ rest else push_char c rest

  -- Without a separator in it.
  abbrev pub is_piece : String → Bool
  is_piece = all_chars (λ c. not (sep c))

  head_piece : (c : Char) (s : String) → is_piece (String.◌∷◌ c s) ≡ true → sep (code c) ≡ false
  head_piece c s h = ground (arith, h)

  push-All :
      (c : Char) (ps : List String)
      → sep (code c) ≡ false
      → All (λ p. is_piece p ≡ true) ps
      → All (λ p. is_piece p ≡ true) (push_char c ps)
  push-All c [] e h = (ground (arith, e), tt)
  push-All c (p ∷ ps) e h = (ground (arith, e, h.0), h.1)

  pub split_by-pieces : (s : String) → All (λ p. is_piece p ≡ true) (split_by s)
  split_by-pieces String.[] = (refl, tt)
  split_by-pieces (String.◌∷◌ c s) = elim (Bool-cases (sep (code c))) [
    | inl e ↦ rw e (refl, split_by-pieces s)
    | inr e ↦ rw e (push-All c (split_by s) e (split_by-pieces s))
  ]

  push-all_chars :
      (q : ℕ → Bool) (c : Char) (ps : List String)
      → q (code c) ≡ true
      → All (λ p. all_chars q p ≡ true) ps
      → All (λ p. all_chars q p ≡ true) (push_char c ps)
  push-all_chars q c [] e h = (ground (arith, e), tt)
  push-all_chars q c (p ∷ ps) e h = (ground (arith, e, h.0), h.1)

  -- What holds of each character holds of those of the pieces.
  pub split_by-all_chars :
      (q : ℕ → Bool) (s : String)
      → all_chars q s ≡ true
      → All (λ p. all_chars q p ≡ true) (split_by s)
  split_by-all_chars q String.[] h = (refl, tt)
  split_by-all_chars q (String.◌∷◌ c s) h = elim (Bool-cases (sep (code c))) [
    | inl e ↦ rw e (refl, split_by-all_chars q s (ground (arith, h)))
    | inr e ↦ rw e (
        push-all_chars q c (split_by s) (ground (arith, h))
          (split_by-all_chars q s (ground (arith, h))))
  ]

  pub split_by-piece : (s : String) → is_piece s ≡ true → split_by s ≡ s ∷ []
  split_by-piece String.[] h = refl
  split_by-piece (String.◌∷◌ c s) h =
      rw (head_piece c s h, split_by-piece s (ground (arith, h))) refl

  pub split_by-append :
      (s : String) (c : Char) (t : String)
      → is_piece s ≡ true
      → sep (code c) ≡ true
      → split_by (str_append s (String.◌∷◌ c t)) ≡ s ∷ split_by t
  split_by-append String.[] c t h k = rw k refl
  split_by-append (String.◌∷◌ d s) c t h k =
      rw (head_piece d s h, split_by-append s c t (ground (arith, h)) k) refl
