-- ===== src/Reporter/Rules/Intervals.antt =====
-- `_intervals` against a description of the intervals as the long runs of points.
use xray_routing_panel.Prelude.{
  ℕ, suc, ◌+◌, ◌≡◌, refl, sym, ap, ◌∙◌, inl, inr, Bool, true, false, List, [], ◌∷◌, arith, leb,
  if◌then◌else◌, Bool-cases, length,
}
use xray_routing_panel.Reporter.Rules.{
  Interval, scrape_step, continues, oldest, flush, intervals_from, intervals,
}

-- A run of times, the oldest first, and the runs after it.
abbrev Runs : Type 0
Runs = List ℕ × List (List ℕ)

-- A time before a list of runs: it stands in the first run if that one begins at most 45 seconds later.
abbrev pub join_run : ℕ → Runs → Runs
join_run t ([], runs) = (t ∷ [], runs)
join_run t (s ∷ run, runs) =
    if leb s (t + 45000) then (t ∷ s ∷ run, runs) else (t ∷ [], (s ∷ run) ∷ runs)

-- The last time of a run.
abbrev pub newest_of : ℕ → List ℕ → ℕ
newest_of t [] = t
newest_of t (s ∷ run) = newest_of s run

module _ {V : Type 0} (predicate : V → Bool) (min_samples : ℕ) where
  -- The runs of points for which the predicate holds, in which no step is longer than 45 seconds. The
  -- first run is empty if the predicate does not hold for the first point.
  abbrev pub runs_of : List (ℕ × V) → Runs
  runs_of [] = ([], [])
  runs_of ((t, v) ∷ points) =
      let (run, runs) = runs_of points in
      if predicate v then join_run t (run, runs) else ([], run ∷ runs)

  -- An interval before the rest, if it has enough samples.
  abbrev pub reported : ℕ → ℕ → ℕ → List Interval → List Interval
  reported start finish samples rest =
      if leb min_samples samples
      then (record { start = start; finish = finish; samples = samples }) ∷ rest
      else rest

  -- A run with enough points as an interval, from its first time to a step after its last.
  abbrev pub interval_of : List ℕ → List Interval → List Interval
  interval_of [] rest = rest
  interval_of (t ∷ run) rest = reported t (newest_of t run + scrape_step) (suc (length run)) rest

  abbrev pub report : List (List ℕ) → List Interval
  report [] = []
  report (run ∷ runs) = interval_of run (report runs)

  abbrev pub long_runs : Runs → List Interval
  long_runs (run, runs) = report (run ∷ runs)

  -- The times of a run, put on those before it, the newest first.
  abbrev push : List ℕ → List ℕ → List ℕ
  push [] current = current
  push (t ∷ run) current = push run (t ∷ current)

  flush-push :
      (run : List ℕ) (n : ℕ) (older : List ℕ) (rest : List Interval)
      → flush predicate min_samples (push run (n ∷ older)) rest
        ≡ reported
            (oldest predicate min_samples n older)
            (newest_of n run + scrape_step)
            (suc (length older) + length run)
            rest
  flush-push [] n older rest =
      ap (λ k. reported (oldest predicate min_samples n older) (n + scrape_step) k rest)
        (omega arith)
  flush-push (t ∷ run) n older rest =
      flush-push run t (n ∷ older) rest
      ∙ ap
          (λ k.
            reported (oldest predicate min_samples n older) (newest_of t run + scrape_step) k rest)
          (omega arith)

  interval_of-flush :
      (run : List ℕ) (rest : List Interval)
      → interval_of run rest ≡ flush predicate min_samples (push run []) rest
  interval_of-flush [] rest = refl
  interval_of-flush (t ∷ run) rest = sym (
      flush-push run t [] rest
      ∙ ap (λ k. reported t (newest_of t run + scrape_step) k rest) (omega arith))

  -- What the loop reports from `current` and the runs of the points to come.
  abbrev combine : List ℕ → Runs → List Interval
  combine [] (run, runs) = flush predicate min_samples (push run []) (report runs)
  combine (n ∷ older) ([], runs) = flush predicate min_samples (n ∷ older) (report runs)
  combine (n ∷ older) (t ∷ run, runs) =
      if leb t (n + 45000)
      then flush predicate min_samples (push (t ∷ run) (n ∷ older)) (report runs)
      else flush predicate min_samples (n ∷ older)
          (flush predicate min_samples (push (t ∷ run) []) (report runs))

  -- A time that continues `current`.
  combine-extend :
      (t : ℕ) (current : List ℕ) (r : Runs)
      → continues predicate min_samples t current ≡ true
      → combine (t ∷ current) r ≡ combine current (join_run t r)
  combine-extend t [] ([], runs) h = refl
  combine-extend t [] (s ∷ run, runs) h = elim (Bool-cases (leb s (t + 45000))) [
    | inl e ↦ rw e refl
    | inr e ↦ rw (e, interval_of-flush (s ∷ run) (report runs)) refl
  ]
  combine-extend t (n ∷ older) ([], runs) h = rw h refl
  combine-extend t (n ∷ older) (s ∷ run, runs) h = elim (Bool-cases (leb s (t + 45000))) [
    | inl e ↦ rw (e, h) refl
    | inr e ↦ rw (e, h, interval_of-flush (s ∷ run) (report runs)) refl
  ]

  -- A time that does not.
  combine-restart :
      (t : ℕ) (current : List ℕ) (r : Runs)
      → continues predicate min_samples t current ≡ false
      → flush predicate min_samples current (combine (t ∷ []) r) ≡ combine current (join_run t r)
  combine-restart t [] r h = absurd (ground (arith, h))
  combine-restart t (n ∷ older) ([], runs) h = rw h refl
  combine-restart t (n ∷ older) (s ∷ run, runs) h = elim (Bool-cases (leb s (t + 45000))) [
    | inl e ↦ rw (e, h) refl
    | inr e ↦ rw (e, h, interval_of-flush (s ∷ run) (report runs)) refl
  ]

  -- A point for which the predicate fails.
  combine-break :
      (current : List ℕ) (run : List ℕ) (runs : List (List ℕ))
      → flush predicate min_samples current (combine [] (run, runs))
        ≡ combine current ([], run ∷ runs)
  combine-break [] run runs = sym (interval_of-flush run (report runs))
  combine-break (n ∷ older) run runs =
      ap (flush predicate min_samples (n ∷ older)) (sym (interval_of-flush run (report runs)))

  intervals_from-combine :
      (current : List ℕ) (points : List (ℕ × V))
      → intervals_from predicate min_samples current points ≡ combine current (runs_of points)
  unfolding intervals_from
  intervals_from-combine [] [] = refl
  intervals_from-combine (n ∷ older) [] = refl
  intervals_from-combine current ((t, v) ∷ points) = elim (Bool-cases (predicate v)) [
    | inr e ↦ rw e (
        ap (flush predicate min_samples current) (intervals_from-combine [] points)
        ∙ combine-break current (runs_of points).0 (runs_of points).1)
    | inl e ↦ rw e (elim (Bool-cases (continues predicate min_samples t current)) [
      | inl c ↦ rw c (
          intervals_from-combine (t ∷ current) points ∙ combine-extend t current (runs_of points) c)
      | inr c ↦ rw c (
          ap (flush predicate min_samples current) (intervals_from-combine (t ∷ []) points)
          ∙ combine-restart t current (runs_of points) c)
    ])
  ]

  -- The loop of `_intervals` gives exactly the long runs: the longest stretches of points for which
  -- the predicate holds, and of which each is at most 45 seconds after the one before, in order and
  -- with at least the required number of points, each from its first time to a step after its last.
  pub intervals-long_runs :
      (points : List (ℕ × V)) → intervals predicate min_samples points ≡ long_runs (runs_of points)
  unfolding intervals
  intervals-long_runs points =
      intervals_from-combine [] points
      ∙ sym (interval_of-flush (runs_of points).0 (report (runs_of points).1))
