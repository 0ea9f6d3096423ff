-- ===== src/Failover/State.antt =====
-- The tables `dns_failover_state` and `dns_failover_history` of app/state/dns_failover.py.
-- Times are seconds since the epoch, in UTC.
use xray_routing_panel.Prelude.{ℕ, ◌+◌, Bool, Option, none, String, List, ◌∷◌, take, take_text}

-- The column `current_target`: one of the two names, no text, or any other text.
pub data StoredTarget : Type 0 where
  primary backup blank other : StoredTarget

pub data ProbeStatus : Type 0 where
  healthy unhealthy unknown : ProbeStatus

-- The row with `singleton_id = 1`.
pub record Row : Type 0 where
  pub current_target : StoredTarget
  pub current_record_content : String
  pub current_record_ttl : Option ℕ
  pub current_record_proxied : Option Bool
  pub last_probe_status : ProbeStatus
  pub last_probe_checked_at : Option ℕ
  pub last_probe_error : String
  pub consecutive_failures : ℕ
  pub consecutive_successes : ℕ
  pub last_switch_at : Option ℕ
  pub last_switch_reason : String
  pub last_error : String

-- The defaults of the schema.
abbrev pub default_row : Row
default_row = record {
  current_target = primary;
  current_record_content = "";
  current_record_ttl = none;
  current_record_proxied = none;
  last_probe_status = unknown;
  last_probe_checked_at = none;
  last_probe_error = "";
  consecutive_failures = 0;
  consecutive_successes = 0;
  last_switch_at = none;
  last_switch_reason = "";
  last_error = "";
}

pub data EventType : Type 0 where
  probe switch : EventType

pub data EventStatus : Type 0 where
  succeeded error skipped noop : EventStatus

pub record Entry : Type 0 where
  pub id : ℕ
  pub event_type : EventType
  pub event_status : EventStatus
  pub target : StoredTarget
  pub record_content : String
  pub detail : String
  pub created_at : ℕ

-- The history, newest entry first, with the next value of the AUTOINCREMENT key.
pub record Failover : Type 0 where
  pub row : Row
  pub history : List Entry
  pub next_id : ℕ

abbrev pub history_limit : ℕ
history_limit = 500

-- The insert of an entry, and the delete of all but the newest 500.
unfoldable pub push_entry : Entry → Failover → Failover
push_entry e s = record s { history = take history_limit (e ∷ s.history); next_id = e.id + 1 }

-- `write_dns_failover_history`
unfoldable pub write_history :
    EventType → EventStatus → StoredTarget → String → String → ℕ → Failover → Failover
write_history event_type event_status target record_content detail now s =
    push_entry
      (record {
        id = s.next_id;
        event_type = event_type;
        event_status = event_status;
        target = target;
        record_content = record_content;
        detail = take_text 500 detail;
        created_at = now;
      })
      s

-- `update_dns_failover_state`
unfoldable pub update_state : (Row → Row) → Failover → Failover
update_state f s = record s { row = f s.row }
