-- ===== src/Apply.antt =====
-- app/xray/apply.py: which ports run, and the transaction over the database, the rendered files and
-- the two Xray processes.
pub mod Policy
pub mod Persist
pub mod Rollback
pub mod Mutation
use xray_routing_panel.Prelude.{
  ℕ, ◌+◌, Bool, true, false, ◌&&◌, ◌||◌, not, Option, none, some, List, [], ◌∷◌, map, leb,
  if◌then◌else◌, select, update, length,
}
use xray_routing_panel.Database.{Db}
use xray_routing_panel.Database.Tables.{Port, Total}
use xray_routing_panel.Ports.{usage_bytes, is_expired, is_removable, cleanup_expired_ports}
use xray_routing_panel.Ports.Status.{quota_reached}

-- The enabled rows that the loop of `disable_auto_stopped_ports_in_tx` turns off.
abbrev pub is_stopped : ℕ → List Total → Port → Bool
is_stopped now totals p =
    p.enabled
    && (is_expired p.expires_at now
        || quota_reached p.traffic_limit_bytes (usage_bytes p.listen_port totals))

-- The clocks of one `disable_auto_stopped_ports_in_tx`: its own, and that of the cleanup.
pub record StopClocks : Type 0 where
  pub now : ℕ
  pub cleanup : ℕ

-- `disable_auto_stopped_ports_in_tx`, with the number of rows changed and removed
unfoldable pub disable_auto_stopped_ports : StopClocks → Db → ℕ × Db
unfolding cleanup_expired_ports
disable_auto_stopped_ports w db =
    let cleaned = cleanup_expired_ports w.cleanup db in
    (
      length (select (is_stopped w.now cleaned.totals) cleaned.ports)
          + length (select (is_removable w.cleanup) db.ports),
      record cleaned {
        ports =
            update (is_stopped w.now cleaned.totals)
              (λ p. record p { enabled = false; updated_at = w.now }) cleaned.ports;
      },
    )

-- `ORDER BY listen_port ASC`
unfoldable pub insert_sorted : ℕ → List ℕ → List ℕ
insert_sorted n [] = n ∷ []
insert_sorted n (m ∷ ms) = if leb n m then n ∷ (m ∷ ms) else m ∷ insert_sorted n ms

unfoldable pub sort : List ℕ → List ℕ
unfolding insert_sorted
sort [] = []
sort (n ∷ ns) = insert_sorted n (sort ns)

-- The `WHERE` of `render_panel_ports_payload`.
abbrev pub is_rendered : ℕ → List Total → Port → Bool
is_rendered now totals p =
    p.enabled
    && not (is_expired p.expires_at now)
    && not (quota_reached p.traffic_limit_bytes (usage_bytes p.listen_port totals))

-- `render_panel_ports_payload`, its list
unfoldable pub render_panel_ports : ℕ → Db → List ℕ
unfolding sort
render_panel_ports now db =
    sort (map (λ (p : Port). p.listen_port) (select (is_rendered now db.totals) db.ports))
