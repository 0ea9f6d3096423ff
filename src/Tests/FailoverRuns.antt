-- ===== src/Tests/FailoverRuns.antt =====
-- Runs of the failover worker and of the peak window.
use xray_routing_panel.Prelude.{
  ℕ, ◌+◌, ◌-◌, ◌*◌, ◌<◌, ◌≤◌, ◌%◌, ◌≡◌, ◌≢◌, refl, true, false, not, Option, none, some, String, [],
  ◌∷◌, ltb, strip, arith, eq_iff, validation_error,
}
use xray_routing_panel.Failover.Peak.{Target, peak_window_active, seconds_to_boundary, open_window}
use xray_routing_panel.Failover.Peak.Laws.{
  peak_window_active-circular, seconds_to_boundary_bounds, window-constant, window-flips,
}
use xray_routing_panel.Failover.Config.{
  status_configured, configured, record_type_supported, resolve_contents, peak_window,
}
use xray_routing_panel.Failover.Transition.{
  auto_failover, manual_switch, target_from_content, desired_content,
}
use xray_routing_panel.Failover.Service.{
  refused, preferred_target, switch_dns_target, check_probe, run_dns_failover_check, run_worker,
  stored,
}
use xray_routing_panel.Failover.Service.Counters.{
  IsConfigured, SameRecord, streak, streak-run_worker,
}
use xray_routing_panel.Failover.Service.Thresholds.{
  run_worker-below_threshold, run_check-at_threshold, IsCheck,
}
use xray_routing_panel.Failover.Service.Switching.{
  switch_ok-Points, switch_error-SameRecord, content_of, Echoes,
}
use xray_routing_panel.Failover.Service.History.{IsLogged, run_worker-IsLogged}
use xray_routing_panel.Tests.Fixtures.{config, reading, switching, check, fresh}

peak_window_active-circular_example :
    peak_window_active 60 1320 360 ≡ ltb ((60 + 1440 - 1320) % 1440) ((360 + 1440 - 1320) % 1440)
peak_window_active-circular_example =
    peak_window_active-circular 60 1320 360 (omega arith) (omega arith) (omega arith) (omega arith)

seconds_to_boundary_bounds_example :
    (0 < seconds_to_boundary 82800 360)
    × (seconds_to_boundary 82800 360 ≤ 86400)
    × ((82800 + seconds_to_boundary 82800 360) % 86400 ≡ 360 * 60)
seconds_to_boundary_bounds_example =
    seconds_to_boundary_bounds 82800 360 (omega arith) (omega arith)

window-constant_example :
    (open_window 1320 360 ((82800 + 60) % 86400)).active ≡ (open_window 1320 360 82800).active
unfolding open_window
window-constant_example =
    window-constant 1320 360 82800 (omega arith) (omega arith) (omega arith) (omega arith) 60
      (omega arith)

window-flips_example :
    (open_window 1320 360
      ((82800 + (open_window 1320 360 82800).seconds_to_next_transition) % 86400)).active
    ≡ not (open_window 1320 360 82800).active
window-flips_example =
    window-flips 1320 360 82800 (omega arith) (omega arith) (omega arith) (omega arith)

check-IsConfigured : (probe : Option String) → IsConfigured config (check probe)
unfolding status_configured configured record_type_supported resolve_contents peak_window
check-IsConfigured probe = (refl, refl)

failing-IsCheck : IsCheck config false Target.primary (check (some "timeout"))
unfolding preferred_target peak_window
failing-IsCheck = (check-IsConfigured (some "timeout"), refl, refl)

run_worker-below_threshold_example :
    SameRecord (fresh 0) (run_worker config (check (some "timeout") ∷ []) (fresh 0))
run_worker-below_threshold_example =
    run_worker-below_threshold config false Target.primary (check (some "timeout") ∷ []) (fresh 0)
      (failing-IsCheck, tt) refl (omega arith)

run_check-at_threshold_example :
    run_dns_failover_check config (check (some "timeout")) (fresh 1)
    ≡ switch_dns_target config Target.backup auto_failover true switching
        (check_probe config (check (some "timeout")) (fresh 1)).1
run_check-at_threshold_example =
    run_check-at_threshold config false Target.primary (check (some "timeout")) (fresh 1)
      failing-IsCheck refl (omega arith)

streak-run_worker_example :
    streak false (run_worker config (check none ∷ check (some "timeout") ∷ []) (fresh 5)) ≡ 1
streak-run_worker_example =
    streak-run_worker config false (check none) (check (some "timeout") ∷ []) (fresh 5)
      (check-IsConfigured none) refl ((check-IsConfigured (some "timeout"), refl), tt)

switching-Echoes : Echoes switching
switching-Echoes x r e = ground arith

contents_differ : content_of config reading Target.primary ≢ content_of config reading Target.backup
unfolding resolve_contents desired_content strip
contents_differ e = ground (arith, e, eq_iff "203.0.113.1" "203.0.113.2")

switch_ok-Points_example :
    let row =
      (switch_dns_target config Target.backup manual_switch false switching (fresh 0)).1.row in
    (row.current_target ≡ stored Target.backup)
    × (strip row.current_record_content ≡ content_of config reading Target.backup)
unfolding switch_dns_target status_configured configured record_type_supported resolve_contents
    peak_window target_from_content desired_content strip
switch_ok-Points_example =
    switch_ok-Points config Target.backup manual_switch false switching (fresh 0) switching-Echoes
      contents_differ refl

switch_error-SameRecord_example :
    SameRecord
      (fresh 0)
      (switch_dns_target config Target.backup manual_switch false
        (record switching { fetched = refused "403" })
        (fresh 0)).1
unfolding switch_dns_target status_configured configured record_type_supported resolve_contents
    peak_window
switch_error-SameRecord_example =
    switch_error-SameRecord config Target.backup manual_switch false
      (record switching { fetched = refused "403" }) (fresh 0) {e = validation_error "403"} refl

fresh-IsLogged : (n : ℕ) → IsLogged (fresh n)
fresh-IsLogged n = record { within = omega arith; ordered = tt }

run_worker-IsLogged_example :
    IsLogged (run_worker config (check none ∷ check (some "timeout") ∷ []) (fresh 0))
run_worker-IsLogged_example =
    run_worker-IsLogged config (check none ∷ check (some "timeout") ∷ []) (fresh 0)
      (fresh-IsLogged 0)
