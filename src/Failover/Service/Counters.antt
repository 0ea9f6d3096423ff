-- ===== src/Failover/Service/Counters.antt =====
-- The columns consecutive_failures and consecutive_successes of app/state/dns_failover.py.
use xray_routing_panel.Prelude.{
  ℕ, ◌+◌, ◌≡◌, refl, ◌∙◌, ap, String, Result, Bool, true, false, not, Option, none, some, List, [],
  ◌∷◌, arith, length, All,
}
use xray_routing_panel.Failover.Peak.{Target}
use xray_routing_panel.Failover.Config.{Config, status_configured}
use xray_routing_panel.Failover.State.{Failover, push_entry}
use xray_routing_panel.Failover.Transition.{Transition, Reason}
use xray_routing_panel.Failover.Service.{
  CheckReading, SwitchReading, probe_ok, check_probe, follow, switch_dns_target,
  run_dns_failover_check, run_worker,
}

-- Both counters of a state.
abbrev pub counters : Failover → ℕ × ℕ
counters s = (s.row.consecutive_failures, s.row.consecutive_successes)

-- One probe's outcome on the counters.
abbrev pub count_probe : Option String → ℕ × ℕ → ℕ × ℕ
count_probe none (f, n) = (0, n + 1)
count_probe (some e) (f, n) = (f + 1, 0)

-- What a switch writes: none of it changes.
pub record SameRecord (s s' : Failover) : Type 0 where
  pub target : s'.row.current_target ≡ s.row.current_target
  pub content : s'.row.current_record_content ≡ s.row.current_record_content
  pub switched_at : s'.row.last_switch_at ≡ s.row.last_switch_at

-- The counter of one outcome.
abbrev pub streak : Bool → Failover → ℕ
streak true s = s.row.consecutive_successes
streak false s = s.row.consecutive_failures

module _ (c : Config) where
  pub counters-switch_dns_target :
      (target : Target) (reason : Reason) (auto : Bool) (w : SwitchReading) (s : Failover)
      → counters (switch_dns_target c target reason auto w s).1 ≡ counters s
  unfolding switch_dns_target push_entry
  counters-switch_dns_target target reason auto w s = ground arith

  pub counters-follow :
      (w : SwitchReading) (t : Option Transition) (s : Failover)
      → counters (follow c w t s).1 ≡ counters s
  unfolding follow
  counters-follow w none s = refl
  counters-follow w (some t) s = counters-switch_dns_target t.target t.reason true w s

  -- The check gets past its two guards.
  abbrev pub IsConfigured : CheckReading → Type 0
  IsConfigured w = (c.enabled ≡ true) × (status_configured c w.status ≡ true)

  pub run_check-eq-follow :
      (w : CheckReading) (s : Failover)
      → IsConfigured w
      → run_dns_failover_check c w s
        ≡ follow c w.switching (check_probe c w s).0 (check_probe c w s).1
  unfolding run_dns_failover_check
  run_check-eq-follow w s h = ground arith

  counters-check_probe :
      (w : CheckReading) (s : Failover)
      → counters (check_probe c w s).1 ≡ count_probe w.probe (counters s)
  unfolding check_probe push_entry
  counters-check_probe w s = ground arith

  pub counters-run_check :
      (w : CheckReading) (s : Failover)
      → IsConfigured w
      → counters (run_dns_failover_check c w s).1 ≡ count_probe w.probe (counters s)
  counters-run_check w s h =
      ap (λ (r : Result Unit × Failover). counters r.1) (run_check-eq-follow w s h)
      ∙ counters-follow w.switching (check_probe c w s).0 (check_probe c w s).1
      ∙ counters-check_probe w s

  -- Every probe of the checks has the given outcome.
  abbrev pub AllProbes : Bool → List CheckReading → Type 0
  AllProbes b = All (λ w. IsConfigured w × (probe_ok w.probe ≡ b))

  streak_lem :
      (b : Bool) (k : ℕ) (ws : List CheckReading) (s : Failover)
      → AllProbes b ws
      → streak b s ≡ k
      → streak b (run_worker c ws s) ≡ k + length ws
  unfolding run_worker
  streak_lem b k [] s h e = e ∙ omega arith
  streak_lem b k (w ∷ ws) s h e =
      streak_lem b (k + 1) ws (run_dns_failover_check c w s).1 h.1
        (ground (arith, counters-run_check w s h.0.0))
      ∙ omega arith

  -- Whatever the state and whatever the switches did, after one probe with the other outcome and
  -- then probes of one outcome, the counter of that outcome is the number of those probes: failing
  -- checks count `consecutive_failures`, successful ones `consecutive_successes`. The checks are
  -- ones that the configuration lets through to the probe.
  pub streak-run_worker :
      (b : Bool) (w : CheckReading) (ws : List CheckReading) (s : Failover)
      → IsConfigured w
      → probe_ok w.probe ≡ not b
      → AllProbes b ws
      → streak b (run_worker c (w ∷ ws) s) ≡ length ws
  unfolding run_worker
  streak-run_worker b w ws s h p a =
      streak_lem b 0 ws (run_dns_failover_check c w s).1 a
        (ground (arith, counters-run_check w s h))
      ∙ omega arith
