-- ===== src/Reporter/Rules/Counters.antt =====
-- What the increase of a counter counts.
use xray_routing_panel.Prelude.{
  ℕ, ◌+◌, ◌≡◌, refl, inl, inr, List, [], ◌∷◌, arith, leb, if◌then◌else◌, Bool-cases,
}
use xray_routing_panel.Reporter.Rules.{increase_after, counter_increase_with_resets}

-- The last value of a list after `value`.
abbrev pub final : ℕ → List ℕ → ℕ
final value [] = value
final value (next ∷ rest) = final next rest

-- The sum of the values right before a reset.
abbrev pub lost : ℕ → List ℕ → ℕ
lost value [] = 0
lost value (next ∷ rest) = (if leb value next then 0 else value) + lost next rest

-- The number of steps down.
abbrev pub steps_down : ℕ → List ℕ → ℕ
steps_down value [] = 0
steps_down value (next ∷ rest) = (if leb value next then 0 else 1) + steps_down next rest

balance :
    (value : ℕ) (values : List ℕ)
    → (value + (increase_after value values).0 ≡ final value values + lost value values)
      × ((increase_after value values).1 ≡ steps_down value values)
balance value [] = (omega arith, refl)
balance value (next ∷ rest) =
    let (total, resets) = balance next rest in
    elim (Bool-cases (leb value next)) [
      | inl e ↦ rw e (ground (arith, total, e), ground (arith, resets))
      | inr e ↦ rw e (ground (arith, total), ground (arith, resets))
    ]

-- The values of a counter: the first with the increase is the last with the sum of the values right
-- before each reset, and the resets are the steps down. Without one the increase is the difference.
pub counter_increase-balance :
    (value : ℕ) (values : List ℕ)
    → (value + (counter_increase_with_resets (value ∷ values)).0
        ≡ final value values + lost value values)
      × ((counter_increase_with_resets (value ∷ values)).1 ≡ steps_down value values)
unfolding counter_increase_with_resets
counter_increase-balance = balance
