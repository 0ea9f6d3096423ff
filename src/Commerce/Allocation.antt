-- ===== src/Commerce/Allocation.antt =====
-- `allocate_auto_port_in_tx` of app/state/commerce.py: the first free port of the range on sale.
use xray_routing_panel.Prelude.{
  ℕ, zero, suc, ◌+◌, ◌-◌, ◌≤◌, ◌<◌, ◌≡◌, refl, sym, ◌∙◌, Bool-cases, inl, inr, Bool, true, false,
  ◌&&◌, Option, none, some, List, [], ◌∷◌, leb, ◌==◌, if◌then◌else◌, any, select, Result, ok, err,
  validation_error, arith,
}
use xray_routing_panel.Database.{Db}
use xray_routing_panel.Database.Tables.{Port}

-- The set `used`: the listening ports of the rows in the range.
unfoldable pub is_used : ℕ → ℕ → List Port → ℕ → Bool
is_used first last ports n =
    any (λ (p : Port). p.listen_port == n)
      (select (λ (p : Port). leb first p.listen_port && leb p.listen_port last) ports)

-- The loop over `range(first, last + 1)`: `k` ports from `n` on.
unfoldable pub first_free : (ℕ → Bool) → ℕ → ℕ → Result ℕ
first_free used n zero = err (validation_error "自动分配端口范围已耗尽，请扩容可售端口区间。")
first_free used n (suc k) = let rest = first_free used (n + 1) k in if used n then rest else ok n

-- `COMMERCE_AUTO_PORT_START` and `COMMERCE_AUTO_PORT_END`
pub record AutoPorts : Type 0 where
  pub first : Option ℕ
  pub last : Option ℕ

-- `allocate_auto_port_in_tx`
unfoldable pub allocate_auto_port : AutoPorts → Db → Result ℕ
unfolding is_used first_free
allocate_auto_port c db = elim c.first [
  | none ↦ err (validation_error "商业化自动分配端口范围未配置。")
  | some first ↦ elim c.last [
    | none ↦ err (validation_error "商业化自动分配端口范围未配置。")
    | some last ↦ first_free (is_used first last db.ports) first (last + 1 - first)
  ]
]

-- The port listens on `n`.
abbrev pub is_listening : ℕ → List Port → Bool
is_listening n ports = any (λ (p : Port). p.listen_port == n) ports

-- What an allocation from the range promises: the least port of the range on which nothing
-- listens, or, where it raises, that the whole range is taken.
abbrev pub IsLeastFree : (ℕ → Bool) → ℕ → ℕ → Result ℕ → Type 0
IsLeastFree used first last (ok n) =
    (first ≤ n) × (n ≤ last) × (used n ≡ false) × ((m : ℕ) → first ≤ m → m < n → used m ≡ true)
IsLeastFree used first last (err e) = (m : ℕ) → first ≤ m → m ≤ last → used m ≡ true

is_used-is_listening :
    (first last n : ℕ) (ports : List Port)
    → first ≤ n
    → n ≤ last
    → is_used first last ports n ≡ is_listening n ports
unfolding is_used
is_used-is_listening first last n [] lo hi = refl
is_used-is_listening first last n (p ∷ ps) lo hi =
    ground (arith, is_used-is_listening first last n ps lo hi)

module _ (used : ℕ → Bool) (last : ℕ) where
  weaken :
      (n : ℕ) (r : Result ℕ)
      → used n ≡ true
      → IsLeastFree used (n + 1) last r
      → IsLeastFree used n last r
  weaken n (ok m) e h = (
    omega (arith, h.0),
    h.1,
    h.2,
    λ i lo hi. elim (Bool-cases (i == n)) [
      | inl same ↦ ground (arith, e)
      | inr other ↦ h.3 i (ground arith) hi
    ],
  )
  weaken n (err _) e h = λ i lo hi. elim (Bool-cases (i == n)) [
    | inl same ↦ ground (arith, e)
    | inr other ↦ h i (ground arith) hi
  ]

  first_free_lem : (n k : ℕ) → n + k ≡ last + 1 → IsLeastFree used n last (first_free used n k)
  unfolding first_free
  first_free_lem n zero e = λ m lo hi. ground arith
  first_free_lem n (suc k) e = elim (Bool-cases (used n)) [
    | inl h ↦
        simp h (weaken n (first_free used (n + 1) k) h (first_free_lem (n + 1) k (omega arith)))
    | inr h ↦ simp h (omega arith, omega arith, refl, λ m lo hi. ground arith)
  ]

is_listening_of :
    (first last n : ℕ) (ports : List Port) (r : Bool)
    → first ≤ n
    → n ≤ last
    → is_used first last ports n ≡ r
    → is_listening n ports ≡ r
is_listening_of first last n ports r lo hi e =
    sym (is_used-is_listening first last n ports lo hi) ∙ e

from_used :
    (first last : ℕ) (ports : List Port) (r : Result ℕ)
    → IsLeastFree (is_used first last ports) first last r
    → IsLeastFree (λ n. is_listening n ports) first last r
from_used first last ports (ok n) h = (
  h.0,
  h.1,
  is_listening_of first last n ports false h.0 h.1 h.2,
  λ m lo below.
      is_listening_of first last m ports true lo (omega (arith, below, h.1)) (h.3 m lo below),
)
from_used first last ports (err e) h =
    λ m lo hi. is_listening_of first last m ports true lo hi (h m lo hi)

range_lem :
    (used : ℕ → Bool) (first last : ℕ)
    → IsLeastFree used first last (first_free used first (last + 1 - first))
unfolding first_free
range_lem used first last = elim (Bool-cases (leb first (last + 1))) [
  | inl h ↦ first_free_lem used last first (last + 1 - first) (ground arith)
  | inr h ↦ let empty : last + 1 - first ≡ 0 = ground arith in rw empty (λ m lo hi. ground arith)
]

-- Over a configured range, an allocation gives the least port of the range on which no row
-- listens, and raises only if a row listens on every port of it.
pub allocate_auto_port-IsLeastFree :
    (first last : ℕ) (db : Db)
    → IsLeastFree
        (λ n. is_listening n db.ports)
        first
        last
        (allocate_auto_port (record { first = some first; last = some last }) db)
unfolding allocate_auto_port
allocate_auto_port-IsLeastFree first last db =
    from_used first last db.ports
      (first_free (is_used first last db.ports) first (last + 1 - first))
      (range_lem (is_used first last db.ports) first last)
