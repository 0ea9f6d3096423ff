-- ===== src/Failover/Service.antt =====
-- The operations of `DnsFailoverService` (app/state/dns_failover.py) that change the state, and the
-- worker of app/runtime/dns_failover.py. The status that they return is a function of the state.
pub mod Counters
pub mod Thresholds
pub mod Switching
pub mod History
use xray_routing_panel.Prelude.{
  ℕ, ◌+◌, Bool, true, false, not, ◌||◌, Option, none, some, String, List, [], ◌∷◌, if◌then◌else◌,
  strip, or_text, ok, err, validation_error, Exec,
}
use xray_routing_panel.Failover.Peak.{Target}
use xray_routing_panel.Failover.Config.{
  Config, Reading, Contents, status_configured, resolve_contents, config_error, peak_window,
}
use xray_routing_panel.Failover.State.{
  StoredTarget, primary, backup, blank, other, ProbeStatus, healthy, unhealthy, Row, Failover,
  probe, switch, succeeded, error, skipped, noop, write_history, update_state,
}
use xray_routing_panel.Failover.Transition.{
  Transition, Reason, auto_failover, auto_recovery, peak_failover, peak_recovery, manual_switch,
  same_target, evaluate_transition, target_from_content, desired_content,
}

-- A record as the Cloudflare API returns it, and an answer of the API: a record, or the message of
-- a `CloudflareApiError`.
pub record DnsRecord : Type 0 where
  pub content : String
  pub ttl : Option ℕ
  pub proxied : Bool

pub data Answer : Type 0 where
  answered : DnsRecord → Answer
  refused : String → Answer

-- What one call of `switch_dns_target` reads: its status, the record, the answer to an update to
-- each content, and the time.
pub record SwitchReading : Type 0 where
  pub status : Reading
  pub fetched : Answer
  pub synced : String → Answer
  pub now : ℕ

abbrev pub stored : Target → StoredTarget
stored Target.primary = primary
stored Target.backup = backup

abbrev pub reason_text : Reason → String
reason_text auto_failover = "auto_failover"
reason_text auto_recovery = "auto_recovery"
reason_text peak_failover = "peak_failover"
reason_text peak_recovery = "peak_recovery"
reason_text manual_switch = "manual_switch"

-- The four columns that every look at the provider's record writes.
unfoldable pub store_record : StoredTarget → DnsRecord → Row → Row
store_record target r row = record row {
  current_target = target;
  current_record_content = strip r.content;
  current_record_ttl = r.ttl;
  current_record_proxied = some r.proxied;
  last_error = "";
}

abbrev pub same_found : Option Target → Target → Bool
same_found none t = false
same_found (some u) t = same_target u t

-- `updated_target if updated_target in {"primary", "backup"} else target`
abbrev pub found_or : Option Target → Target → Target
found_or none t = t
found_or (some u) t = u

module _ (target : Target) (reason : Reason) (auto : Bool) (contents : Contents) (now : ℕ) where
  switch_updated : String → Answer → Exec Failover Unit
  unfolding store_record update_state write_history
  switch_updated current_content (refused message) s = (
    err (validation_error message),
    write_history switch error (stored target) current_content message now
        (update_state (λ row. record row { last_error = message }) s),
  )
  switch_updated current_content (answered updated) s =
      let found =
        target_from_content (strip updated.content) contents.primary_content
          contents.backup_content in
      (
        ok tt,
        write_history switch succeeded (stored target) (strip updated.content)
            (if auto then "自动切换完成。" else "手动切换完成。") now
            (update_state
              (λ row. record (store_record (stored (found_or found target)) updated row) {
                last_switch_at = some now;
                last_switch_reason = reason_text reason;
              })
              s),
      )

  switch_fetched : (String → Answer) → Answer → Exec Failover Unit
  unfolding switch_updated
  switch_fetched synced (refused message) s = (
    err (validation_error message),
    write_history switch error (stored target) "" message now
        (update_state (λ row. record row { last_error = message }) s),
  )
  switch_fetched synced (answered r) s =
      let current_content = strip r.content in
      let found =
        target_from_content current_content contents.primary_content contents.backup_content in
      if same_found found target
      then (
        ok tt,
        write_history switch noop (stored target) current_content "DNS 已在目标指向，无需重复更新。" now
            (update_state (store_record (stored target) r) s),
      )
      else switch_updated current_content
          (synced (desired_content target contents.primary_content contents.backup_content)) s

-- `switch_dns_target`, after the target's name is normalized
unfoldable pub switch_dns_target :
    Config → Target → Reason → Bool → SwitchReading → Exec Failover Unit
unfolding switch_fetched
switch_dns_target c target reason auto w s =
    if not c.enabled
    then (err (validation_error "DNS 故障切换未启用。"), s)
    else if not (status_configured c w.status)
    then (err (validation_error (or_text (config_error c w.status) "DNS 故障切换配置不完整。")), s)
    else switch_fetched target reason auto (resolve_contents c w.status) w.now w.synced w.fetched s

-- What one call of `run_dns_failover_check` reads: its status, the probe (`none` for success, or
-- the error), the time and the window in its transaction, and what the switch reads, if any.
pub record CheckReading : Type 0 where
  pub status : Reading
  pub probe : Option String
  pub now : ℕ
  pub window : Reading
  pub switching : SwitchReading

-- The target that the row stands for.
unfoldable pub row_target : Contents → Row → Target
row_target contents row = elim row.current_target [
  | primary ↦ Target.primary
  | backup ↦ Target.backup
  | blank ↦ Target.primary
  | other ↦
      found_or
        (target_from_content row.current_record_content contents.primary_content
          contents.backup_content)
        Target.primary
]

abbrev pub probe_ok : Option String → Bool
probe_ok none = true
probe_ok (some message) = false

-- One probe's outcome on the counters and the other columns.
unfoldable pub record_probe : Option String → ℕ → Row → Row
record_probe none now row = record row {
  last_probe_status = healthy;
  last_probe_checked_at = some now;
  last_probe_error = "";
  consecutive_failures = 0;
  consecutive_successes = row.consecutive_successes + 1;
  last_error = "";
}
record_probe (some message) now row = record row {
  last_probe_status = unhealthy;
  last_probe_checked_at = some now;
  last_probe_error = message;
  consecutive_failures = row.consecutive_failures + 1;
  consecutive_successes = 0;
  last_error = "";
}

-- `preferred_target` of `run_dns_failover_check`
unfoldable pub preferred_target : Config → Reading → Target
preferred_target c r =
    let window = peak_window c r in
    if window.configured then window.preferred_target else Target.primary

abbrev probe_detail : Option String → String
probe_detail none = "探测成功"
probe_detail (some message) = or_text message "探测失败"

-- The transaction of `run_dns_failover_check`: the new state, and what it decides.
unfoldable pub check_probe : Config → CheckReading → Failover → Option Transition × Failover
unfolding record_probe row_target preferred_target update_state write_history
check_probe c w s =
    let current_target = row_target (resolve_contents c w.status) s.row in
    let row = record_probe w.probe w.now s.row in
    (
      evaluate_transition c current_target row.consecutive_failures row.consecutive_successes
          (probe_ok w.probe) (preferred_target c w.window),
      write_history probe (if probe_ok w.probe then succeeded else error) (stored current_target)
          s.row.current_record_content (probe_detail w.probe) w.now (update_state (λ _. row) s),
    )

pub follow : Config → SwitchReading → Option Transition → Exec Failover Unit
follow c w none s = (ok tt, s)
follow c w (some t) s = switch_dns_target c t.target t.reason true w s

-- `run_dns_failover_check`
unfoldable pub run_dns_failover_check : Config → CheckReading → Exec Failover Unit
unfolding follow update_state write_history
run_dns_failover_check c w s =
    if not c.enabled
    then (ok tt, s)
    else if not (status_configured c w.status)
    then (let message = config_error c w.status in
        (
          ok tt,
          write_history probe skipped blank "" message w.now
              (update_state (λ row. record row { last_error = message }) s),
        ))
    else (let (transition, s') = check_probe c w s in follow c w.switching transition s')

-- `refresh_dns_failover_record_snapshot`
unfoldable pub refresh_record_snapshot : Config → Reading → Answer → Failover → Failover
unfolding store_record update_state
refresh_record_snapshot c w fetched s =
    if not c.enabled || not (status_configured c w) then s else elim fetched [
      | refused message ↦ update_state (λ row. record row { last_error = message }) s
      | answered r ↦
          let contents = resolve_contents c w in
          update_state
            (store_record
              (stored (
                found_or
                  (target_from_content (strip r.content) contents.primary_content
                    contents.backup_content)
                  Target.primary))
              r)
            s
    ]

-- The loop of `DNSFailoverWorker.run`: what a check raises is reported, and the loop goes on.
unfoldable pub run_worker : Config → List CheckReading → Failover → Failover
run_worker c [] s = s
run_worker c (w ∷ ws) s = run_worker c ws (run_dns_failover_check c w s).1
