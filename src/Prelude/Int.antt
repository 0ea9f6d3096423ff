-- ===== src/Prelude/Int.antt =====
-- Python's integers over the native numbers, and `int()` of a text.
pub mod Decimal
use Prim.Native.Nat.{ℕ, suc, ◌+◌, ◌-◌, ◌*◌}
use Prim.Native.Char.{code}
use Prim.Native.String.{String}
use mathlib.Core.Bool.{Bool, true, false, ◌&&◌}
use mathlib.Core.Option
use mathlib.Core.Option.{Option, none, some}
use mathlib.Core.List.{List, [], ◌∷◌}
use xray_routing_panel.Prelude.Tests.{ltb, leb, ◌==◌, if◌then◌else◌}
use xray_routing_panel.Prelude.Text.{strip}

-- `negsuc n` is -(n + 1).
pub data ℤ : Type 0 where
  pos : ℕ → ℤ
  negsuc : ℕ → ℤ

abbrev pub neg : ℕ → ℤ
neg n = if n == 0 then pos 0 else negsuc (n - 1)

abbrev pub pos_part : ℤ → ℕ
pos_part (pos n) = n
pos_part (negsuc n) = 0

abbrev pub neg_part : ℤ → ℕ
neg_part (pos n) = 0
neg_part (negsuc n) = suc n

-- `n <= z`
abbrev pub nat_leb : ℕ → ℤ → Bool
nat_leb n z = leb (n + neg_part z) (pos_part z)

-- The first digit of each run of ten decimal digits in the Unicode tables.
abbrev digit_zeros : List ℕ
digit_zeros =
    0x30 ∷ 0x660 ∷ 0x6f0 ∷ 0x7c0 ∷ 0x966 ∷ 0x9e6 ∷ 0xa66 ∷ 0xae6 ∷ 0xb66 ∷ 0xbe6 ∷ 0xc66 ∷ 0xce6
    ∷ 0xd66 ∷ 0xde6 ∷ 0xe50 ∷ 0xed0 ∷ 0xf20 ∷ 0x1040 ∷ 0x1090 ∷ 0x17e0 ∷ 0x1810 ∷ 0x1946 ∷ 0x19d0
    ∷ 0x1a80 ∷ 0x1a90 ∷ 0x1b50 ∷ 0x1bb0 ∷ 0x1c40 ∷ 0x1c50 ∷ 0xa620 ∷ 0xa8d0 ∷ 0xa900 ∷ 0xa9d0
    ∷ 0xa9f0 ∷ 0xaa50 ∷ 0xabf0 ∷ 0xff10 ∷ 0x104a0 ∷ 0x10d30 ∷ 0x11066 ∷ 0x110f0 ∷ 0x11136 ∷ 0x111d0
    ∷ 0x112f0 ∷ 0x11450 ∷ 0x114d0 ∷ 0x11650 ∷ 0x116c0 ∷ 0x11730 ∷ 0x118e0 ∷ 0x11950 ∷ 0x11c50
    ∷ 0x11d50 ∷ 0x11da0 ∷ 0x16a60 ∷ 0x16ac0 ∷ 0x16b50 ∷ 0x1d7ce ∷ 0x1d7d8 ∷ 0x1d7e2 ∷ 0x1d7ec
    ∷ 0x1d7f6 ∷ 0x1e140 ∷ 0x1e2f0 ∷ 0x1e950 ∷ 0x1fbf0 ∷ []

digit_from : List ℕ → ℕ → Option ℕ
digit_from [] c = none
digit_from (z ∷ zs) c = if leb z c && ltb c (z + 10) then some (c - z) else digit_from zs c

unfoldable pub digit_value : ℕ → Option ℕ
unfolding digit_from
digit_value = digit_from digit_zeros

-- Digits, with single underscores between them; `seen` says that the last character was a digit.
scan_digits : Bool → ℕ → String → Option ℕ
scan_digits seen acc String.[] = if seen then some acc else none
scan_digits seen acc (String.◌∷◌ c s) =
    let gap = scan_digits false acc s in
    elim (digit_value (code c)) [
      | some d ↦ scan_digits true (acc * 10 + d) s
      | none ↦ if seen && code c == b'_' then gap else none
    ]

signed : String → Option ℤ
signed String.[] = none
signed (String.◌∷◌ c s) =
    if code c == b'-'
    then Option.map neg (scan_digits false 0 s)
    else if code c == b'+'
    then Option.map pos (scan_digits false 0 s)
    else Option.map pos (scan_digits false 0 (String.◌∷◌ c s))

-- `int(text)`; `none` is its `ValueError`
unfoldable pub python_int : String → Option ℤ
unfolding signed scan_digits digit_value strip
python_int s = signed (strip s)
