-- ===== src/Reporter/Rules.antt =====
-- The rules of components/xray_ops/rules.py: increases of counters, intervals of samples, and the
-- status of a node. Times are whole milliseconds. Counters are whole numbers, whose sums the floats of
-- the code hold exactly below 2 ^ 53.
pub mod Counters
pub mod Intervals
use xray_routing_panel.Prelude.{
  ℕ, zero, suc, ◌+◌, ◌-◌, ◌*◌, ◌/◌, max, min, Bool, true, false, not, ◌&&◌, ◌||◌, Option, none,
  some, List, [], ◌∷◌, ◌++◌, ◌==◌, ltb, leb, if◌then◌else◌, length, any, select,
}

-- `Interval`; `end` is a word of the notation
pub record Interval : Type 0 where
  pub start : ℕ
  pub finish : ℕ
  pub samples : ℕ

unfoldable pub overlaps : ℕ → Interval → Interval → Bool
overlaps padding a b = leb a.start (b.finish + padding) && leb (b.start - padding) a.finish

abbrev pub scrape_step : ℕ
scrape_step = 30000

-- The loop of `_counter_increase_with_resets` after the value `previous`.
abbrev pub increase_after : ℕ → List ℕ → ℕ × ℕ
increase_after previous [] = (0, 0)
increase_after previous (value ∷ values) =
    let (total, resets) = increase_after value values in
    if leb previous value then (total + (value - previous), resets) else (total + value, suc resets)

unfoldable pub counter_increase_with_resets : List ℕ → ℕ × ℕ
counter_increase_with_resets [] = (0, 0)
counter_increase_with_resets (value ∷ values) = increase_after value values

-- `_select_counter_window` on samples in the order of their times
abbrev pub Sample : Type 0
Sample = ℕ × ℕ

abbrev last_of : List Sample → List Sample
last_of [] = []
last_of (p ∷ []) = p ∷ []
last_of (p ∷ q ∷ ps) = last_of (q ∷ ps)

abbrev first_of : List Sample → List Sample
first_of [] = []
first_of (p ∷ ps) = p ∷ []

unfoldable pub select_counter_window : List Sample → ℕ → ℕ → List Sample
select_counter_window points start finish =
    last_of (select (λ p. ltb p.0 start) points)
    ++ select (λ p. leb start p.0 && leb p.0 finish) points
    ++ first_of (select (λ p. ltb finish p.0) points)

-- `_intervals`, on points with values of any type. With `min_samples` 0 the code would index an empty
-- `current`, and raises; its one caller asks for SERVICE_DOWN_MIN_SAMPLES, which is not 0.
module _ {V : Type 0} (predicate : V → Bool) (min_samples : ℕ) where
  -- `t - current[-1] <= 1.5 steps`; the newest time stands first
  abbrev pub continues : ℕ → List ℕ → Bool
  continues t [] = true
  continues t (newest ∷ older) = leb t (newest + 45000)

  abbrev pub oldest : ℕ → List ℕ → ℕ
  oldest t [] = t
  oldest t (s ∷ older) = oldest s older

  -- `if len(current) >= min_samples: result.append(…)`, before the rest of the results
  abbrev pub flush : List ℕ → List Interval → List Interval
  flush [] rest = rest
  flush (newest ∷ older) rest =
      if leb min_samples (suc (length older))
      then (record {
        start = oldest newest older;
        finish = newest + scrape_step;
        samples = suc (length older);
      })
        ∷ rest
      else rest

  -- the rest of the loop, with the times of `current`, the newest first
  unfoldable pub intervals_from : List ℕ → List (ℕ × V) → List Interval
  intervals_from current [] = flush current []
  intervals_from current ((t, v) ∷ points) =
      let extended = intervals_from (t ∷ current) points in
      let restarted = intervals_from (t ∷ []) points in
      let broken = intervals_from [] points in
      if predicate v && continues t current
      then extended
      else flush current (if predicate v then restarted else broken)

  unfoldable pub intervals : List (ℕ × V) → List Interval
  unfolding intervals_from
  intervals = intervals_from []

-- `STATUS_ORDER`
pub data ReportStatus : Type 0 where
  normal unknown suspected fault : ReportStatus

abbrev pub order_of : ReportStatus → ℕ
order_of normal = 0
order_of unknown = 1
order_of suspected = 2
order_of fault = 3

-- `max(…, key=…)`: the first of the greatest
abbrev greatest : ReportStatus → List ReportStatus → ReportStatus
greatest best [] = best
greatest best (s ∷ ss) =
    if ltb (order_of best) (order_of s) then greatest s ss else greatest best ss

unfoldable pub overall_status : ReportStatus → List ReportStatus → ReportStatus
overall_status = greatest

-- The status of `_classify`: `suspected` is never set.
unfoldable pub node_status : Bool → Bool → ReportStatus
node_status has_fault is_missing =
    if not has_fault && is_missing then unknown else if has_fault then fault else normal

pub data TrafficStatus : Type 0 where
  traffic_unknown no_observed_demand demand_observed : TrafficStatus

-- Fewer than nine in ten of the expected samples.
abbrev is_sparse : ℕ → ℕ → Bool
is_sparse stamps expected = ltb (10 * stamps) (9 * max 1 expected)

unfoldable pub traffic_status : ℕ → ℕ → ℕ → TrafficStatus
traffic_status stamps expected increases =
    if is_sparse stamps expected
    then traffic_unknown
    else if increases == 0
    then no_observed_demand
    else demand_observed
