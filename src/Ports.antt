-- ===== src/Ports.antt =====
-- app/state/ports.py: the rows of `ports` and the operations on them. Each operation is the
-- function that the service hands to a transaction.
pub mod Status
pub mod Keys
pub mod Operations
pub mod Kept
pub mod Unique
pub mod Cleanup
use xray_routing_panel.Prelude.{
  ℕ, zero, suc, ◌+◌, Bool, true, false, ◌&&◌, ◌||◌, not, Option, none, some, String, List, [], ◌∷◌,
  ◌++◌, leb, ◌==◌, if◌then◌else◌, str_eq, is_empty, any, select, find, update, Result, ok, err,
  Error, integrity_error, runtime_error, Exec,
}
use xray_routing_panel.Database.{Db}
use xray_routing_panel.Database.Tables.{Port, Total, Daily, Probe}

-- `get_port_usage_bytes`, and the sum of the two `COALESCE` columns of the joins with
-- `traffic_totals`
unfoldable pub usage_bytes : ℕ → List Total → ℕ
usage_bytes listen_port totals = elim (find (λ (t : Total). t.listen_port == listen_port) totals) [
  | none ↦ 0
  | some t ↦ t.total_bytes_sent + t.total_bytes_received
]

-- A row that violates a UNIQUE index: the port, or a non-empty token or user name.
unfoldable pub same_text : String → String → Bool
same_text a b = not (is_empty a) && str_eq a b

unfoldable pub conflicts : Port → Port → Bool
unfolding same_text
conflicts p q =
    p.listen_port == q.listen_port
    || same_text p.tenant_token q.tenant_token
    || same_text p.subscription_token q.subscription_token
    || same_text p.tenant_username q.tenant_username

-- `INSERT INTO ports`; the key of the new row is `next_port_id`
unfoldable pub insert_port : Port → Exec Db ℕ
insert_port p db = if any (conflicts p) db.ports then (err (integrity_error "ports"), db) else (
  ok db.next_port_id,
  record db {
    ports = db.ports ++ record p { id = db.next_port_id } ∷ [];
    next_port_id = db.next_port_id + 1;
  },
)

-- `SELECT … WHERE id = ?`
unfoldable pub find_port : ℕ → Db → Option Port
find_port port_id db = find (λ (p : Port). p.id == port_id) db.ports

-- `UPDATE ports SET … WHERE id = ?`
unfoldable pub update_port_row : ℕ → (Port → Port) → Db → Db
update_port_row port_id f db = record db {
  ports = update (λ (p : Port). p.id == port_id) f db.ports;
}

-- The 16 draws of `generate_unique_port_token` and `generate_unique_tenant_username`.
unfoldable pub draw_unique : (String → Bool) → String → (ℕ → String) → ℕ → ℕ → Result String
draw_unique taken message draw i zero = err (runtime_error message)
draw_unique taken message draw i (suc k) =
    let rest = draw_unique taken message draw (i + 1) k in
    if taken (draw i) then rest else ok (draw i)

-- `delete_port_in_tx`
unfoldable pub delete_port_in_tx : ℕ → ℕ → Db → Db
delete_port_in_tx port_id listen_port db = record db {
  ports = select (λ (p : Port). not (p.id == port_id)) db.ports;
  totals = select (λ (t : Total). not (t.listen_port == listen_port)) db.totals;
  daily = select (λ (d : Daily). not (d.listen_port == listen_port)) db.daily;
  probes = select (λ (p : Probe). not (p.listen_port == listen_port)) db.probes;
  probe_history = select (λ (p : Probe). not (p.listen_port == listen_port)) db.probe_history;
}

-- `expires_at IS NOT NULL AND expires_at <= ?`, and `port_is_expired` of app/helpers.py
abbrev pub is_expired : Option ℕ → ℕ → Bool
is_expired none now = false
is_expired (some t) now = leb t now

-- `COALESCE(x, 0) = 0`
abbrev pub is_zero : Option ℕ → Bool
is_zero none = true
is_zero (some n) = n == 0

-- The rows that `cleanup_expired_ports_in_tx` selects.
abbrev pub is_removable : ℕ → Port → Bool
is_removable now p =
    is_expired p.expires_at now && is_zero p.customer_id && is_zero p.service_subscription_id

unfoldable pub delete_ports : List Port → Db → Db
delete_ports [] db = db
delete_ports (p ∷ ps) db = delete_ports ps (delete_port_in_tx p.id p.listen_port db)

-- `cleanup_expired_ports_in_tx`
unfoldable pub cleanup_expired_ports : ℕ → Db → Db
cleanup_expired_ports now db = delete_ports (select (is_removable now) db.ports) db
