-- ===== src/Tests/TableRuns.antt =====
-- Runs of the operations on the tables of ports, traffic and orders.
use xray_routing_panel.Prelude.{
  ℕ, List, ◌==◌, ◌+◌, ◌≡◌, refl, true, not, Option, none, some, String, [], ◌∷◌, select, arith,
  str_eq, if◌then◌else◌,
}
use xray_routing_panel.Traffic.{Seen}
use xray_routing_panel.Traffic.Sums.{connections, sent, received, total_of, daily_sum}
use xray_routing_panel.Traffic.Consistency.{IsConsistent}
use xray_routing_panel.Traffic.Sync.{
  node, TrafficReading, sync_traffic_state, sync_traffic_state-IsConsistent,
}
use xray_routing_panel.Database.{Db}
use xray_routing_panel.Ports.{conflicts, same_text, is_removable, cleanup_expired_ports}
use xray_routing_panel.Ports.Keys.{IsKeyed}
use xray_routing_panel.Ports.Unique.{Mutation, edit, state_after, mutation-IsKeyed}
use xray_routing_panel.Ports.Cleanup.{cleanup_expired_ports-exact}
use xray_routing_panel.Commerce.Allocation.{
  allocate_auto_port, IsLeastFree, is_listening, allocate_auto_port-IsLeastFree,
}
use xray_routing_panel.Tests.Fixtures.{db}

db-IsKeyed : IsKeyed db
unfolding conflicts same_text
db-IsKeyed = record {
  apart = (refl, (refl, (refl, tt)));
  below = (omega arith, (omega arith, (omega arith, tt)));
}

db-IsConsistent : IsConsistent db
unfolding total_of daily_sum
db-IsConsistent connections port = ground arith
db-IsConsistent sent port = ground arith
db-IsConsistent received port = ground arith

abbrev moved : Mutation
moved =
    edit 3
      (record {
        listen_port = 20004;
        upstream_host = "127.0.0.1";
        upstream_port = 1081;
        expires_at = none;
        traffic_limit_bytes = none;
        note = "";
      })
      50

mutation-IsKeyed_example : IsKeyed (state_after moved db)
mutation-IsKeyed_example = mutation-IsKeyed moved db db-IsKeyed

cleanup_expired_ports-exact_example :
    (cleanup_expired_ports 100 db).ports ≡ select (λ p. not (is_removable 100 p)) db.ports
cleanup_expired_ports-exact_example = cleanup_expired_ports-exact 100 db db-IsKeyed

-- A log of two lines, one of which is a port's.
abbrev parse : String → Option Seen
parse text =
    if str_eq text "x"
    then some (record { listen_port = 20002; stat_date = 1; seen_at = 40 })
    else none

abbrev traffic : TrafficReading
traffic = record {
  source = node (λ inode offset.
      some
        (record { is_present = true; inode = "i"; offset = offset + 30; lines = "x" ∷ "y" ∷ [] }));
  stats = record { listen_port = 20002; bytes_sent = 4; bytes_received = 5 } ∷ [];
  now = 50;
  stat_date = 1;
}

sync_traffic_state-IsConsistent_example : IsConsistent (sync_traffic_state parse traffic db)
sync_traffic_state-IsConsistent_example =
    sync_traffic_state-IsConsistent parse traffic db db-IsConsistent

-- Each byte is a line of its own text.
abbrev byte_lines : List ℕ → List String
byte_lines [] = []
byte_lines (b ∷ bytes) = (if b == 120 then "x" else "y") ∷ byte_lines bytes

-- Two pieces of one file, and one after a rotation.
abbrev log_pieces : List (String × List ℕ)
log_pieces = ("i", 120 ∷ 121 ∷ []) ∷ ("i", 121 ∷ []) ∷ ("j", 120 ∷ []) ∷ []

abbrev fresh_db : Db
fresh_db = record db { log_inode = ""; log_offset = 0 }

allocate_auto_port-IsLeastFree_example :
    IsLeastFree
      (λ n. is_listening n db.ports)
      20001
      20005
      (allocate_auto_port (record { first = some 20001; last = some 20005 }) db)
allocate_auto_port-IsLeastFree_example = allocate_auto_port-IsLeastFree 20001 20005 db
