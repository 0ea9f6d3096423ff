-- ===== src/Prelude/Int/Decimal.antt =====
-- `str(n)` of an integer that is not negative, and reading it back.
use Prim.Native.Nat.{ℕ, zero, suc, ◌+◌, ◌*◌, ◌/◌, ◌%◌, ◌<◌}
use Prim.Native.Char.{Char, code}
use Prim.Native.String.{String}
use mathlib.Core.Path.{◌≡◌, refl, ap, ◌∙◌}
use mathlib.Core.Bool.{Bool, true, false, not, ◌&&◌}
use mathlib.Core.Logic.{inl, inr}
use mathlib.Core.Option
use mathlib.Core.Option.{Option, none, some}
use native.Mathlib.Omega.{arith}
use xray_routing_panel.Prelude.Tests.{ltb, leb, if◌then◌else◌, Bool-cases}
use xray_routing_panel.Prelude.Text.{is_space, is_empty}
use xray_routing_panel.Prelude.Text.Chars.{all_chars, is_solid, strip-solid, all_chars-imp}
use xray_routing_panel.Prelude.Int.{pos, digit_value, scan_digits, signed, python_int}

unfoldable digit_char : ℕ → Char
digit_char zero = "0"
digit_char (suc zero) = "1"
digit_char (suc (suc zero)) = "2"
digit_char (suc (suc (suc zero))) = "3"
digit_char (suc (suc (suc (suc zero)))) = "4"
digit_char (suc (suc (suc (suc (suc zero))))) = "5"
digit_char (suc (suc (suc (suc (suc (suc zero)))))) = "6"
digit_char (suc (suc (suc (suc (suc (suc (suc zero))))))) = "7"
digit_char (suc (suc (suc (suc (suc (suc (suc (suc zero)))))))) = "8"
digit_char (suc (suc (suc (suc (suc (suc (suc (suc (suc n))))))))) = "9"

-- The digits of `n` before a text; a number has fewer digits than units.
unfoldable show_onto : ℕ → ℕ → String → String
unfolding digit_char
show_onto zero n tail = tail
show_onto (suc fuel) n tail =
    let more = show_onto fuel (n / 10) (String.◌∷◌ (digit_char (n % 10)) tail) in
    if ltb n 10 then String.◌∷◌ (digit_char n) tail else more

-- `str(n)`
unfoldable pub decimal : ℕ → String
unfolding show_onto
decimal n = show_onto (suc n) n String.[]

digit_char-value : (d : ℕ) → d < 10 → digit_value (code (digit_char d)) ≡ some d
unfolding digit_char digit_value
digit_char-value zero h = refl
digit_char-value (suc zero) h = refl
digit_char-value (suc (suc zero)) h = refl
digit_char-value (suc (suc (suc zero))) h = refl
digit_char-value (suc (suc (suc (suc zero)))) h = refl
digit_char-value (suc (suc (suc (suc (suc zero))))) h = refl
digit_char-value (suc (suc (suc (suc (suc (suc zero)))))) h = refl
digit_char-value (suc (suc (suc (suc (suc (suc (suc zero))))))) h = refl
digit_char-value (suc (suc (suc (suc (suc (suc (suc (suc zero)))))))) h = refl
digit_char-value (suc (suc (suc (suc (suc (suc (suc (suc (suc n))))))))) h =
    ap some (omega (arith, h))

unfoldable pub is_digit : ℕ → Bool
is_digit c = leb b'0' c && leb c b'9'

digit_char-is_digit : (d : ℕ) → is_digit (code (digit_char d)) ≡ true
unfolding digit_char is_digit
digit_char-is_digit zero = refl
digit_char-is_digit (suc zero) = refl
digit_char-is_digit (suc (suc zero)) = refl
digit_char-is_digit (suc (suc (suc zero))) = refl
digit_char-is_digit (suc (suc (suc (suc zero)))) = refl
digit_char-is_digit (suc (suc (suc (suc (suc zero))))) = refl
digit_char-is_digit (suc (suc (suc (suc (suc (suc zero)))))) = refl
digit_char-is_digit (suc (suc (suc (suc (suc (suc (suc zero))))))) = refl
digit_char-is_digit (suc (suc (suc (suc (suc (suc (suc (suc zero)))))))) = refl
digit_char-is_digit (suc (suc (suc (suc (suc (suc (suc (suc (suc n))))))))) = refl

scan_digit :
    (seen : Bool) (acc d : ℕ) (tail : String)
    → d < 10
    → scan_digits seen acc (String.◌∷◌ (digit_char d) tail) ≡ scan_digits true (acc * 10 + d) tail
unfolding scan_digits
scan_digit seen acc d tail h = rw (scan_digits, digit_char-value d h) refl

scan-show_onto :
    (fuel n : ℕ) (seen : Bool) (tail : String)
    → n < fuel
    → scan_digits seen 0 (show_onto fuel n tail) ≡ scan_digits true n tail
unfolding show_onto
scan-show_onto zero n seen tail h = absurd (omega arith)
scan-show_onto (suc fuel) n seen tail h = elim (Bool-cases (ltb n 10)) [
  | inl e ↦
      rw e
        (scan_digit seen 0 n tail (ground arith) ∙ ap (λ m. scan_digits true m tail) (omega arith))
  | inr e ↦ rw e (
      scan-show_onto fuel (n / 10) seen _ (ground arith)
      ∙ scan_digit true (n / 10) (n % 10) tail (omega arith)
      ∙ ap (λ m. scan_digits true m tail) (omega arith))
]

show_onto-digits :
    (fuel n : ℕ) (tail : String)
    → all_chars is_digit tail ≡ true
    → all_chars is_digit (show_onto fuel n tail) ≡ true
unfolding show_onto
show_onto-digits zero n tail h = h
show_onto-digits (suc fuel) n tail h = elim (Bool-cases (ltb n 10)) [
  | inl e ↦ rw e (ground (arith, digit_char-is_digit n, h))
  | inr e ↦
      rw e (show_onto-digits fuel (n / 10) _ (ground (arith, digit_char-is_digit (n % 10), h)))
]

pub decimal-digits : (n : ℕ) → all_chars is_digit (decimal n) ≡ true
unfolding decimal
decimal-digits n = show_onto-digits (suc n) n String.[] refl

digit-not_space : (c : ℕ) → is_digit c ≡ true → not (is_space c) ≡ true
unfolding is_digit
digit-not_space c h = ground (arith, h)

-- No digit is white space.
pub decimal-IsSolid : (n : ℕ) → is_solid (decimal n) ≡ true
decimal-IsSolid n =
    all_chars-imp is_digit (λ c. not (is_space c)) digit-not_space (decimal n) (decimal-digits n)

show_onto-is_empty :
    (fuel n : ℕ) (tail : String) → n < fuel → is_empty (show_onto fuel n tail) ≡ false
unfolding show_onto
show_onto-is_empty zero n tail h = absurd (omega arith)
show_onto-is_empty (suc fuel) n tail h = elim (Bool-cases (ltb n 10)) [
  | inl e ↦ rw e refl
  | inr e ↦ rw e (show_onto-is_empty fuel (n / 10) _ (ground arith))
]

pub decimal-is_empty : (n : ℕ) → is_empty (decimal n) ≡ false
unfolding decimal
decimal-is_empty n = show_onto-is_empty (suc n) n String.[] (omega arith)

scan-decimal : (n : ℕ) → scan_digits false 0 (decimal n) ≡ some n
unfolding decimal scan_digits
scan-decimal n = scan-show_onto (suc n) n false String.[] (omega arith)

signed-digits :
    (s : String)
    → is_empty s ≡ false
    → all_chars is_digit s ≡ true
    → signed s ≡ Option.map pos (scan_digits false 0 s)
unfolding signed is_digit
signed-digits String.[] e h = absurd (ground arith)
signed-digits (String.◌∷◌ c s) e h = ground (arith, h)

-- A printed number is read back.
pub python_int-decimal : (n : ℕ) → python_int (decimal n) ≡ some (pos n)
unfolding python_int
python_int-decimal n =
    ap signed (strip-solid (decimal n) (decimal-IsSolid n))
    ∙ signed-digits (decimal n) (decimal-is_empty n) (decimal-digits n)
    ∙ ap (Option.map pos) (scan-decimal n)
