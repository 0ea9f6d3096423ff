-- ===== src/Database.antt =====
-- The tables of the panel's SQLite database, as lists of rows in the order of insertion, and the
-- transaction of app/storage/sqlite.py. Times are seconds since the epoch, in UTC: the program
-- stores them as ISO texts of one form, whose order is the order of the times.
pub mod Tables
use Tables.{Port, Total, Daily, Probe, Customer, Plan, Order, Subscription, Submission}
use xray_routing_panel.Prelude.{
  ℕ, String, List, [], ◌∷◌, Option, none, some, Result, ok, err, Error, Exec, if◌then◌else◌, str_eq,
}

pub record Db : Type 0 where
  pub ports : List Port
  pub next_port_id : ℕ
  pub totals : List Total
  pub daily : List Daily
  pub probes : List Probe
  pub probe_history : List Probe
  pub app_state : List (String × String)
  -- the keys `xray_access_log_inode` and `xray_access_log_offset` of `app_state`, read
  pub log_inode : String
  pub log_offset : ℕ
  pub customers : List Customer
  pub plans : List Plan
  pub orders : List Order
  pub next_order_id : ℕ
  pub subscriptions : List Subscription
  pub next_subscription_id : ℕ
  pub submissions : List Submission
  pub next_submission_id : ℕ

unfoldable pub end_transaction : {A : Type 0} → Result A × Db → Db → Result A × Db
end_transaction (ok a, db') db = (ok a, db')
end_transaction (err e, db') db = (err e, db)

-- `transaction`: what the operation wrote is kept if it returns, and rolled back if it raises.
unfoldable pub transaction : {A : Type 0} → Exec Db A → Exec Db A
unfolding end_transaction
transaction op db = end_transaction (op db) db

state_lookup : String → List (String × String) → Option String
state_lookup key [] = none
state_lookup key ((k, v) ∷ rows) = if str_eq k key then some v else state_lookup key rows

state_insert : String → String → List (String × String) → List (String × String)
state_insert key value [] = (key, value) ∷ []
state_insert key value ((k, v) ∷ rows) =
    if str_eq k key then (key, value) ∷ rows else (k, v) ∷ state_insert key value rows

-- `get_state` and `set_state` of app/storage/sqlite.py
unfoldable pub get_state : String → Db → Option String
unfolding state_lookup
get_state key db = state_lookup key db.app_state

unfoldable pub set_state : String → String → Db → Db
unfolding state_insert
set_state key value db = record db { app_state = state_insert key value db.app_state }
