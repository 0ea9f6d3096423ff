-- ===== src/Traffic/Sync.antt =====
-- `sync_traffic_state_locked` of app/state/traffic.py: where the log lines come from, the offset
-- that is kept between two synchronizations, and the order of the two updates.
pub mod Once
use xray_routing_panel.Prelude.{
  ℕ, ◌+◌, ◌≡◌, refl, Bool, ◌||◌, not, Option, none, some, String, List, [], ◌∷◌, ltb, if◌then◌else◌,
  str_eq, length, drop,
}
use xray_routing_panel.Database.{Db}
use xray_routing_panel.Traffic.{Seen, aggregate, store_aggregates, PortBytes, sync_traffic_stats}
use xray_routing_panel.Traffic.Sums.{connections, total_of}
use xray_routing_panel.Traffic.Consistency.{
  IsConsistent, lines_of, total_of-sync_log, store_aggregates-IsConsistent,
  sync_traffic_stats-IsConsistent,
}

-- What a node's `read_access_log_delta` returns.
pub record LogDelta : Type 0 where
  pub is_present : Bool
  pub inode : String
  pub offset : ℕ
  pub lines : List String

-- The local log file while it is read: its inode and its bytes.
pub record LogFile : Type 0 where
  pub inode : String
  pub content : List ℕ

-- A node's log (no delta is its `RuntimeError`), or the local one (no file is a missing file), with
-- what `readlines` makes of the bytes from a place to the end.
pub data LogSource : Type 0 where
  node : (String → ℕ → Option LogDelta) → LogSource
  local_file : (List ℕ → List String) → Option LogFile → LogSource

-- `[parsed for line in lines if parsed is not None]`
unfoldable pub parse_lines : (String → Option Seen) → List String → List Seen
parse_lines parse [] = []
parse_lines parse (line ∷ lines) =
    let rest = parse_lines parse lines in elim (parse line) [ none ↦ rest | some l ↦ l ∷ rest ]

-- The lines and the new place in the log, or nothing to do.
unfoldable pub read_log : LogSource → String → ℕ → Option (List String × String × ℕ)
read_log (node read_delta) recorded_inode current_offset =
    elim (read_delta recorded_inode current_offset) [
      | none ↦ none
      | some d ↦ if d.is_present then some (d.lines, d.inode, d.offset) else none
    ]
read_log (local_file readlines none) recorded_inode current_offset = none
read_log (local_file readlines (some f)) recorded_inode current_offset =
    let start =
      if not (str_eq recorded_inode f.inode) || ltb (length f.content) current_offset
      then 0
      else current_offset in
    some (readlines (drop start f.content), f.inode, length f.content)

store_log : (String → Option Seen) → Option (List String × String × ℕ) → Db → ℕ × Db
store_log parse none db = (0, db)
store_log parse (some (lines, inode, offset)) db =
    let aggregates = aggregate (parse_lines parse lines) [] in
    (
      length aggregates,
      record (store_aggregates aggregates db) { log_inode = inode; log_offset = offset },
    )

-- `sync_xray_access_log_in_tx`
unfoldable pub sync_access_log : (String → Option Seen) → LogSource → Db → ℕ × Db
unfolding store_log
sync_access_log parse source db = store_log parse (read_log source db.log_inode db.log_offset) db

-- What a synchronization reads: the log, the counters, and the time and its date.
pub record TrafficReading : Type 0 where
  pub source : LogSource
  pub stats : List PortBytes
  pub now : ℕ
  pub stat_date : ℕ

-- `sync_traffic_state_locked`
unfoldable pub sync_traffic_state : (String → Option Seen) → TrafficReading → Db → Db
sync_traffic_state parse w db =
    sync_traffic_stats w.now w.stat_date w.stats (sync_access_log parse w.source db).1

store_log-IsConsistent :
    (parse : String → Option Seen) (r : Option (List String × String × ℕ)) (db : Db)
    → IsConsistent db
    → IsConsistent (store_log parse r db).1
unfolding store_log
store_log-IsConsistent parse none db h = h
store_log-IsConsistent parse (some (lines, inode, offset)) db h =
    store_aggregates-IsConsistent (aggregate (parse_lines parse lines) []) db h

-- A synchronization, whatever the log and the counters hold, keeps every port's totals equal to
-- the sums of its days, for connections and for bytes both ways.
pub sync_traffic_state-IsConsistent :
    (parse : String → Option Seen) (w : TrafficReading) (db : Db)
    → IsConsistent db
    → IsConsistent (sync_traffic_state parse w db)
unfolding sync_traffic_state sync_access_log
sync_traffic_state-IsConsistent parse w db h =
    sync_traffic_stats-IsConsistent w.now w.stat_date w.stats _
      (store_log-IsConsistent parse (read_log w.source db.log_inode db.log_offset) db h)

-- After a synchronization that reads the given lines, the port's connections have grown by the
-- number of them that belong to the port, however the lines were batched by day, and the place in the
-- log is the one that was read up to.
pub sync_access_log_counts :
    (port : ℕ) (parse : String → Option Seen) (source : LogSource) (db : Db) {lines : List String}
    {inode : String} {offset : ℕ}
    → read_log source db.log_inode db.log_offset ≡ some (lines, inode, offset)
    → let db' = (sync_access_log parse source db).1 in
      (total_of connections port db'.totals
        ≡ total_of connections port db.totals + lines_of port (parse_lines parse lines))
      × (db'.log_inode ≡ inode)
      × (db'.log_offset ≡ offset)
unfolding sync_access_log
sync_access_log_counts port parse source db {lines} e =
    rw (e, store_log) (total_of-sync_log port (parse_lines parse lines) db, refl, refl)
