-- ===== src/Traffic.antt =====
-- app/state/traffic.py: the access log and the byte counters, folded into two tables.
pub mod Sums
pub mod Consistency
pub mod Sync
use xray_routing_panel.Prelude.{
  ℕ, ◌+◌, Bool, true, false, ◌&&◌, ◌||◌, not, Option, none, some, String, List, [], ◌∷◌, ltb, leb,
  ◌==◌, if◌then◌else◌, str_eq, select, find, update, length,
}
use xray_routing_panel.Database.{Db}
use xray_routing_panel.Database.Tables.{Total, Daily}

-- `CASE WHEN last_seen IS NULL OR last_seen < excluded.last_seen THEN excluded.last_seen …`, and
-- the first case of the byte statistics, where the new value may be NULL
unfoldable pub later : Option ℕ → Option ℕ → Option ℕ
later old none = old
later none (some new) = some new
later (some old) (some new) = if ltb old new then some new else some old

-- `INSERT INTO traffic_totals … ON CONFLICT(listen_port) DO UPDATE`
unfoldable pub upsert_total : Total → List Total → List Total
unfolding later
upsert_total new [] = new ∷ []
upsert_total new (row ∷ rows) =
    if row.listen_port == new.listen_port
    then record row {
      total_connections = row.total_connections + new.total_connections;
      total_bytes_sent = row.total_bytes_sent + new.total_bytes_sent;
      total_bytes_received = row.total_bytes_received + new.total_bytes_received;
      last_seen = later row.last_seen new.last_seen;
    }
      ∷ rows
    else row ∷ upsert_total new rows

-- `INSERT INTO traffic_daily … ON CONFLICT(listen_port, stat_date) DO UPDATE`
unfoldable pub upsert_daily : Daily → List Daily → List Daily
upsert_daily new [] = new ∷ []
upsert_daily new (row ∷ rows) =
    if row.listen_port == new.listen_port && row.stat_date == new.stat_date
    then record row {
      total_connections = row.total_connections + new.total_connections;
      total_bytes_sent = row.total_bytes_sent + new.total_bytes_sent;
      total_bytes_received = row.total_bytes_received + new.total_bytes_received;
    }
      ∷ rows
    else row ∷ upsert_daily new rows

-- A line of the access log, as `parse_xray_access_log_line` returns it.
pub record Seen : Type 0 where
  pub listen_port : ℕ
  pub stat_date : ℕ
  pub seen_at : ℕ

-- An item of `aggregates`, with its key.
pub record Aggregate : Type 0 where
  pub listen_port : ℕ
  pub stat_date : ℕ
  pub connections : ℕ
  pub last_seen : ℕ

-- One round of the first loop: `setdefault`, and the two updates of the item.
unfoldable pub add_line : Seen → List Aggregate → List Aggregate
add_line l [] =
    record {
      listen_port = l.listen_port;
      stat_date = l.stat_date;
      connections = 1;
      last_seen = l.seen_at;
    }
    ∷ []
add_line l (a ∷ as') =
    if a.listen_port == l.listen_port && a.stat_date == l.stat_date
    then record a {
      connections = a.connections + 1;
      last_seen = if ltb a.last_seen l.seen_at then l.seen_at else a.last_seen;
    }
      ∷ as'
    else a ∷ add_line l as'

unfoldable pub aggregate : List Seen → List Aggregate → List Aggregate
aggregate [] acc = acc
aggregate (l ∷ ls) acc = aggregate ls (add_line l acc)

-- The rows that an item is stored as.
abbrev pub aggregate_total : Aggregate → Total
aggregate_total a = record {
  listen_port = a.listen_port;
  total_connections = a.connections;
  total_bytes_sent = 0;
  total_bytes_received = 0;
  last_seen = some a.last_seen;
}

abbrev pub aggregate_daily : Aggregate → Daily
aggregate_daily a = record {
  listen_port = a.listen_port;
  stat_date = a.stat_date;
  total_connections = a.connections;
  total_bytes_sent = 0;
  total_bytes_received = 0;
}

-- One round of the second loop: the two upserts of an item.
unfoldable pub store_aggregate : Aggregate → Db → Db
store_aggregate a db = record db {
  totals = upsert_total (aggregate_total a) db.totals;
  daily = upsert_daily (aggregate_daily a) db.daily;
}

unfoldable pub store_aggregates : List Aggregate → Db → Db
store_aggregates [] db = db
store_aggregates (a ∷ as') db = store_aggregates as' (store_aggregate a db)

-- An item of `read_xray_traffic_stats`: bytes since the last reading.
pub record PortBytes : Type 0 where
  pub listen_port : ℕ
  pub bytes_sent : ℕ
  pub bytes_received : ℕ

abbrev pub bytes_total : ℕ → PortBytes → Total
bytes_total now b = record {
  listen_port = b.listen_port;
  total_connections = 0;
  total_bytes_sent = b.bytes_sent;
  total_bytes_received = b.bytes_received;
  last_seen = if b.bytes_sent == 0 && b.bytes_received == 0 then none else some now;
}

abbrev pub bytes_daily : ℕ → PortBytes → Daily
bytes_daily stat_date b = record {
  listen_port = b.listen_port;
  stat_date = stat_date;
  total_connections = 0;
  total_bytes_sent = b.bytes_sent;
  total_bytes_received = b.bytes_received;
}

-- One round of the loop of `sync_xray_traffic_stats_in_tx`.
unfoldable pub store_bytes : ℕ → ℕ → PortBytes → Db → Db
store_bytes now stat_date b db = record db {
  totals = upsert_total (bytes_total now b) db.totals;
  daily = upsert_daily (bytes_daily stat_date b) db.daily;
}

-- `sync_xray_traffic_stats_in_tx`
unfoldable pub sync_traffic_stats : ℕ → ℕ → List PortBytes → Db → Db
sync_traffic_stats now stat_date [] db = db
sync_traffic_stats now stat_date (b ∷ bs) db =
    sync_traffic_stats now stat_date bs (store_bytes now stat_date b db)

-- `reset_port_usage_in_tx`
unfoldable pub reset_port_usage : ℕ → Db → Db
reset_port_usage listen_port db = record db {
  totals =
      update (λ (t : Total). t.listen_port == listen_port)
        (λ t. record t { total_bytes_sent = 0; total_bytes_received = 0 }) db.totals;
  daily =
      update (λ (d : Daily). d.listen_port == listen_port)
        (λ d. record d { total_bytes_sent = 0; total_bytes_received = 0 }) db.daily;
}
