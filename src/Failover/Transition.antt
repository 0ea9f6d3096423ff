-- ===== src/Failover/Transition.antt =====
-- `evaluate_dns_failover_transition` of app/state/dns_failover.py, and the target that a record's
-- content stands for (app/dns_failover.py).
use xray_routing_panel.Prelude.{
  ℕ, Bool, true, false, ◌&&◌, Option, none, some, String, leb, if◌then◌else◌, str_eq, strip,
}
use xray_routing_panel.Failover.Peak.{Target, primary, backup}
use xray_routing_panel.Failover.Config.{Config}

abbrev pub same_target : Target → Target → Bool
same_target primary primary = true
same_target backup backup = true
same_target _ _ = false

abbrev pub alternate : Target → Target
alternate primary = backup
alternate backup = primary

pub data Reason : Type 0 where
  auto_failover auto_recovery peak_failover peak_recovery manual_switch : Reason

pub record Transition : Type 0 where
  pub target : Target
  pub reason : Reason

-- `preferred_target` is always one of the two names here, so its normalization does nothing.
unfoldable pub evaluate_transition : Config → Target → ℕ → ℕ → Bool → Target → Option Transition
evaluate_transition c current_target consecutive_failures consecutive_successes probe_ok preferred =
    if probe_ok
    then (if same_target current_target (alternate preferred)
          && leb c.recovery_threshold consecutive_successes
        then some (record {
          target = preferred;
          reason = elim preferred [ backup ↦ peak_recovery | primary ↦ auto_recovery ];
        })
        else none)
    else (if same_target current_target preferred && leb c.failure_threshold consecutive_failures
        then some (record {
          target = alternate preferred;
          reason = elim preferred [ backup ↦ peak_failover | primary ↦ auto_failover ];
        })
        else none)

-- `current_target_from_content`; `none` is "unknown"
unfoldable pub target_from_content : String → String → String → Option Target
target_from_content content primary_content backup_content =
    if str_eq (strip content) (strip primary_content)
    then some primary
    else if str_eq (strip content) (strip backup_content)
    then some backup
    else none

-- `desired_content`
unfoldable pub desired_content : Target → String → String → String
desired_content primary primary_content backup_content = strip primary_content
desired_content backup primary_content backup_content = strip backup_content
