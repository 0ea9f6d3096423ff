-- ===== src/Failover/Service/History.antt =====
-- The bounds and the order of `dns_failover_history`, app/state/dns_failover.py.
use xray_routing_panel.Prelude.{
  ℕ, zero, suc, ◌+◌, ◌≤◌, ◌<◌, ◌≡◌, refl, Bool, true, false, none, some, String, Option, List, [],
  ◌∷◌, arith, length, take, length-take-le, Result, strip, if◌then◌else◌, Bool-cases, inl, inr,
}
use xray_routing_panel.Failover.Config.{Config, Contents, status_configured, resolve_contents}
use xray_routing_panel.Failover.State.{Failover, Row, Entry, history_limit, push_entry}
use xray_routing_panel.Failover.Transition.{Transition, Reason}
use xray_routing_panel.Failover.Peak.{Target}
use xray_routing_panel.Failover.Service.{
  Answer, answered, refused, CheckReading, SwitchReading, switch_updated, switch_fetched,
  switch_dns_target, check_probe, follow, run_dns_failover_check, run_worker,
}

-- The ids fall from the newest entry on, and all are below `n`.
abbrev pub Falls : ℕ → List Entry → Type 0
Falls n [] = Unit
Falls n (e ∷ es) = (e.id < n) × Falls e.id es

-- Within the limit, newest first, and the next id is fresh.
pub record IsLogged (s : Failover) : Type 0 where
  pub within : length s.history ≤ history_limit
  pub ordered : Falls s.next_id s.history

Falls-take : (k n : ℕ) (es : List Entry) → Falls n es → Falls n (take k es)
Falls-take zero n es h = tt
Falls-take (suc k) n [] h = tt
Falls-take (suc k) n (e ∷ es) h = (h.0, Falls-take k e.id es h.1)

Falls-take_cons :
    (k n : ℕ) (e : Entry) (es : List Entry) → e.id < n → Falls e.id es → Falls n (take k (e ∷ es))
Falls-take_cons k n e es h hs = Falls-take k n (e ∷ es) (h, hs)

push_entry-IsLogged :
    (e : Entry) (s : Failover) → e.id ≡ s.next_id → IsLogged s → IsLogged (push_entry e s)
unfolding push_entry
push_entry-IsLogged e s i h = record {
  within = length-take-le history_limit (e ∷ s.history);
  ordered = Falls-take_cons history_limit (e.id + 1) e s.history (omega arith) (rw i h.ordered);
}

with_row-IsLogged : (row : Row) (s : Failover) → IsLogged s → IsLogged (record s { row = row })
with_row-IsLogged row s h = record { within = h.within; ordered = h.ordered }

ruleset logged = (push_entry-IsLogged, with_row-IsLogged)

switch_updated-IsLogged :
    (target : Target) (reason : Reason) (auto : Bool) (contents : Contents) (now : ℕ)
    (content : String) (a : Answer) (s : Failover)
    → IsLogged s
    → IsLogged (switch_updated target reason auto contents now content a s).1
unfolding switch_updated
switch_updated-IsLogged target reason auto contents now content (refused m) s h =
    push_entry-IsLogged _ _ refl (with_row-IsLogged _ s h)
switch_updated-IsLogged target reason auto contents now content (answered r) s h =
    push_entry-IsLogged _ _ refl (with_row-IsLogged _ s h)

-- An `if` between two outcomes that are logged.
if-IsLogged :
    (b : Bool) (x y : Result (Unit {0}) × Failover)
    → IsLogged x.1
    → IsLogged y.1
    → IsLogged (if b then x else y).1
if-IsLogged true x y hx hy = hx
if-IsLogged false x y hx hy = hy

switch_fetched-IsLogged :
    (target : Target) (reason : Reason) (auto : Bool) (contents : Contents) (now : ℕ)
    (synced : String → Answer) (a : Answer) (s : Failover)
    → IsLogged s
    → IsLogged (switch_fetched target reason auto contents now synced a s).1
unfolding switch_fetched
switch_fetched-IsLogged target reason auto contents now synced (refused m) s h =
    push_entry-IsLogged _ _ refl (with_row-IsLogged _ s h)
switch_fetched-IsLogged target reason auto contents now synced (answered r) s h =
    if-IsLogged _ _ _ (push_entry-IsLogged _ _ refl (with_row-IsLogged _ s h))
      (switch_updated-IsLogged target reason auto contents now (strip r.content) _ s h)

module _ (c : Config) where
  switch-IsLogged :
      (target : Target) (reason : Reason) (auto : Bool) (w : SwitchReading) (s : Failover)
      → IsLogged s
      → IsLogged (switch_dns_target c target reason auto w s).1
  unfolding switch_dns_target
  switch-IsLogged target reason auto w s h = ground (
    arith,
    switch_fetched-IsLogged target reason auto (resolve_contents c w.status) w.now w.synced
        w.fetched s h,
  )

  follow-IsLogged :
      (w : SwitchReading) (t : Option Transition) (s : Failover)
      → IsLogged s
      → IsLogged (follow c w t s).1
  unfolding follow
  follow-IsLogged w none s h = h
  follow-IsLogged w (some t) s h = switch-IsLogged t.target t.reason true w s h

  check_probe-IsLogged :
      (w : CheckReading) (s : Failover) → IsLogged s → IsLogged (check_probe c w s).1
  unfolding check_probe
  check_probe-IsLogged w s h = push_entry-IsLogged _ _ refl (with_row-IsLogged _ s h)

  run_check-IsLogged :
      (w : CheckReading) (s : Failover) → IsLogged s → IsLogged (run_dns_failover_check c w s).1
  unfolding run_dns_failover_check
  run_check-IsLogged w s h = elim (Bool-cases c.enabled) [
    | inl on ↦ elim (Bool-cases (status_configured c w.status)) [
      | inl go ↦ simp on (
          rw go (
            follow-IsLogged w.switching (check_probe c w s).0 (check_probe c w s).1
              (check_probe-IsLogged w s h)))
      | inr stop ↦ simp on (rw stop (push_entry-IsLogged _ _ refl (with_row-IsLogged _ s h)))
    ]
    | inr off ↦ simp off h
  ]

  -- However long the worker runs, and whatever the probes and the provider answer, the history
  -- holds at most 500 entries, its ids fall from the newest entry on, and the next id is fresh.
  pub run_worker-IsLogged :
      (ws : List CheckReading) (s : Failover) → IsLogged s → IsLogged (run_worker c ws s)
  unfolding run_worker
  run_worker-IsLogged [] s h = h
  run_worker-IsLogged (w ∷ ws) s h =
      run_worker-IsLogged ws (run_dns_failover_check c w s).1 (run_check-IsLogged w s h)
