-- ===== src/Traffic/Consistency.antt =====
-- The totals and the daily rows of app/state/traffic.py under a synchronization.
use xray_routing_panel.Prelude.{ℕ, ◌+◌, ◌≡◌, List, [], ◌∷◌, arith, ◌==◌, if◌then◌else◌}
use xray_routing_panel.Database.{Db}
use xray_routing_panel.Traffic.{
  Seen, Aggregate, add_line, aggregate, store_aggregate, store_aggregates, aggregate_total,
  aggregate_daily, bytes_total, bytes_daily, PortBytes, store_bytes, sync_traffic_stats,
}
use xray_routing_panel.Traffic.Sums.{
  Measure, connections, total_of, daily_sum, total_of-upsert, daily_sum-upsert,
}

-- The log lines of a port.
unfoldable pub lines_of : ℕ → List Seen → ℕ
lines_of port [] = 0
lines_of port (l ∷ ls) = (if l.listen_port == port then 1 else 0) + lines_of port ls

-- The connections of a port in the aggregates.
unfoldable pub aggregated : ℕ → List Aggregate → ℕ
aggregated port [] = 0
aggregated port (a ∷ as') =
    (if a.listen_port == port then a.connections else 0) + aggregated port as'

module _ (port : ℕ) where
  aggregated-add_line :
      (l : Seen) (acc : List Aggregate)
      → aggregated port (add_line l acc)
        ≡ aggregated port acc + (if l.listen_port == port then 1 else 0)
  unfolding aggregated add_line
  aggregated-add_line l [] = ground arith
  aggregated-add_line l (a ∷ as') = ground (arith, aggregated-add_line l as')

  aggregated-aggregate :
      (ls : List Seen) (acc : List Aggregate)
      → aggregated port (aggregate ls acc) ≡ aggregated port acc + lines_of port ls
  unfolding aggregate lines_of
  aggregated-aggregate [] acc = omega arith
  aggregated-aggregate (l ∷ ls) acc =
      omega (arith, aggregated-aggregate ls (add_line l acc), aggregated-add_line l acc)

  total_of-store_aggregates :
      (as' : List Aggregate) (db : Db)
      → total_of connections port (store_aggregates as' db).totals
        ≡ total_of connections port db.totals + aggregated port as'
  unfolding store_aggregates store_aggregate aggregated
  total_of-store_aggregates [] db = omega arith
  total_of-store_aggregates (a ∷ as') db = omega (
    arith,
    total_of-store_aggregates as' (store_aggregate a db),
    total_of-upsert connections port (aggregate_total a) db.totals,
  )

  -- The lines of the access log are counted exactly once each: after a synchronization the
  -- port's total has grown by the number of the port's lines, however they were batched by day.
  pub total_of-sync_log :
      (ls : List Seen) (db : Db)
      → total_of connections port (store_aggregates (aggregate ls []) db).totals
        ≡ total_of connections port db.totals + lines_of port ls
  unfolding aggregated
  total_of-sync_log ls db =
      omega (arith, total_of-store_aggregates (aggregate ls []) db, aggregated-aggregate ls [])

-- Every total of a port is the sum of its days.
abbrev pub IsConsistent : Db → Type 0
IsConsistent db = (m : Measure) (port : ℕ) → total_of m port db.totals ≡ daily_sum m port db.daily

store_aggregate-IsConsistent :
    (a : Aggregate) (db : Db) → IsConsistent db → IsConsistent (store_aggregate a db)
unfolding store_aggregate
store_aggregate-IsConsistent a db h connections port = ground (
  arith,
  h connections port,
  total_of-upsert connections port (aggregate_total a) db.totals,
  daily_sum-upsert connections port (aggregate_daily a) db.daily,
)
store_aggregate-IsConsistent a db h m port = ground (
  arith,
  h m port,
  total_of-upsert m port (aggregate_total a) db.totals,
  daily_sum-upsert m port (aggregate_daily a) db.daily,
)

store_bytes-IsConsistent :
    (now date : ℕ) (b : PortBytes) (db : Db)
    → IsConsistent db
    → IsConsistent (store_bytes now date b db)
unfolding store_bytes
store_bytes-IsConsistent now date b db h connections port = ground (
  arith,
  h connections port,
  total_of-upsert connections port (bytes_total now b) db.totals,
  daily_sum-upsert connections port (bytes_daily date b) db.daily,
)
store_bytes-IsConsistent now date b db h m port = ground (
  arith,
  h m port,
  total_of-upsert m port (bytes_total now b) db.totals,
  daily_sum-upsert m port (bytes_daily date b) db.daily,
)

pub store_aggregates-IsConsistent :
    (as' : List Aggregate) (db : Db) → IsConsistent db → IsConsistent (store_aggregates as' db)
unfolding store_aggregates
store_aggregates-IsConsistent [] db h = h
store_aggregates-IsConsistent (a ∷ as') db h =
    store_aggregates-IsConsistent as' (store_aggregate a db) (store_aggregate-IsConsistent a db h)

pub sync_traffic_stats-IsConsistent :
    (now date : ℕ) (bs : List PortBytes) (db : Db)
    → IsConsistent db
    → IsConsistent (sync_traffic_stats now date bs db)
unfolding sync_traffic_stats
sync_traffic_stats-IsConsistent now date [] db h = h
sync_traffic_stats-IsConsistent now date (b ∷ bs) db h =
    sync_traffic_stats-IsConsistent now date bs (store_bytes now date b db)
      (store_bytes-IsConsistent now date b db h)
