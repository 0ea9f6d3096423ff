-- ===== src/Failover/Service/Thresholds.antt =====
-- The thresholds of `run_dns_failover_check`, app/state/dns_failover.py, over several checks.
use xray_routing_panel.Prelude.{
  ℕ, ◌+◌, ◌≤◌, ◌<◌, ◌≡◌, refl, ◌∙◌, ap, Bool, true, false, none, some, ok, List, [], ◌∷◌, arith,
  length, All,
}
use xray_routing_panel.Failover.Peak.{Target}
use xray_routing_panel.Failover.Config.{Config}
use xray_routing_panel.Failover.State.{Failover, push_entry}
use xray_routing_panel.Failover.Transition.{
  Reason, auto_failover, auto_recovery, peak_failover, peak_recovery, alternate,
  evaluate_transition,
}
use xray_routing_panel.Failover.Service.{
  CheckReading, stored, probe_ok, preferred_target, check_probe, follow, switch_dns_target,
  run_dns_failover_check, run_worker,
}
use xray_routing_panel.Failover.Service.Counters.{
  IsConfigured, run_check-eq-follow, streak, SameRecord,
}

-- The target from which a probe's outcome moves the record away: the preferred one on failures, the other one on successes.
abbrev pub leaving : Bool → Target → Target
leaving true preferred = alternate preferred
leaving false preferred = preferred

abbrev pub threshold : Config → Bool → ℕ
threshold c true = c.recovery_threshold
threshold c false = c.failure_threshold

abbrev pub leaving_reason : Bool → Target → Reason
leaving_reason true Target.primary = auto_recovery
leaving_reason true Target.backup = peak_recovery
leaving_reason false Target.primary = auto_failover
leaving_reason false Target.backup = peak_failover

module _ (c : Config) (b : Bool) (preferred : Target) where
  -- A check that reaches the probe, with the outcome `b` and while `preferred` is preferred.
  abbrev pub IsCheck : CheckReading → Type 0
  IsCheck w = IsConfigured c w × (probe_ok w.probe ≡ b) × (preferred_target c w.window ≡ preferred)

  decide_below :
      (w : CheckReading) (s : Failover)
      → IsCheck w
      → s.row.current_target ≡ stored (leaving b preferred)
      → streak b s + 1 < threshold c b
      → (check_probe c w s).0 ≡ none
  unfolding check_probe push_entry evaluate_transition
  decide_below w s h t k = ground arith

  decide_at :
      (w : CheckReading) (s : Failover)
      → IsCheck w
      → s.row.current_target ≡ stored (leaving b preferred)
      → threshold c b ≤ streak b s + 1
      → (check_probe c w s).0
        ≡ some (record {
          target = alternate (leaving b preferred);
          reason = leaving_reason b preferred;
        })
  unfolding check_probe push_entry evaluate_transition
  decide_at w s h t k = ground arith

  check_below :
      (w : CheckReading) (s : Failover)
      → IsCheck w
      → s.row.current_target ≡ stored (leaving b preferred)
      → streak b s + 1 < threshold c b
      → run_dns_failover_check c w s ≡ (ok tt, (check_probe c w s).1)
  unfolding follow
  check_below w s h t k =
      run_check-eq-follow c w s h.0
      ∙ ap (λ d. follow c w.switching d (check_probe c w s).1) (decide_below w s h t k)

  probe-SameRecord : (w : CheckReading) (s : Failover) → SameRecord s (check_probe c w s).1
  unfolding check_probe push_entry
  probe-SameRecord w s = ground arith

  streak-check_probe :
      (w : CheckReading) (s : Failover)
      → probe_ok w.probe ≡ b
      → streak b (check_probe c w s).1 ≡ streak b s + 1
  unfolding check_probe push_entry
  streak-check_probe w s h = ground arith

  -- While the row is at the target that an outcome moves away from, and fewer probes of that
  -- outcome have been seen than its threshold asks for, checks with that outcome do not switch: the
  -- stored target, the stored content and the time of the last switch stay. Failures threaten the
  -- preferred target, successes the other one. The checks are ones that the configuration lets
  -- through to the probe, and the same target is preferred in all of them.
  pub run_worker-below_threshold :
      (ws : List CheckReading) (s : Failover)
      → All IsCheck ws
      → s.row.current_target ≡ stored (leaving b preferred)
      → streak b s + length ws < threshold c b
      → SameRecord s (run_worker c ws s)
  unfolding run_worker
  run_worker-below_threshold [] s h t k = record {
    target = refl;
    content = refl;
    switched_at = refl;
  }
  run_worker-below_threshold (w ∷ ws) s h t k =
      let e = check_below w s h.0 t (omega arith) in
      let p = probe-SameRecord w s in
      let rest =
        run_worker-below_threshold ws (check_probe c w s).1 h.1 (p.target ∙ t)
          (omega (arith, streak-check_probe w s h.0.1)) in
      rw e (record {
        target = rest.target ∙ p.target;
        content = rest.content ∙ p.content;
        switched_at = rest.switched_at ∙ p.switched_at;
      })

  -- A check that the configuration lets through, that completes the threshold of its outcome, with
  -- the row at the target that the outcome moves away from, is the automatic switch to the other
  -- target, with the reason for that outcome and preference, on the state with the probe recorded.
  pub run_check-at_threshold :
      (w : CheckReading) (s : Failover)
      → IsCheck w
      → s.row.current_target ≡ stored (leaving b preferred)
      → threshold c b ≤ streak b s + 1
      → run_dns_failover_check c w s
        ≡ switch_dns_target c
            (alternate (leaving b preferred))
            (leaving_reason b preferred)
            true
            w.switching
            (check_probe c w s).1
  unfolding follow
  run_check-at_threshold w s h t k =
      run_check-eq-follow c w s h.0
      ∙ ap (λ d. follow c w.switching d (check_probe c w s).1) (decide_at w s h t k)
