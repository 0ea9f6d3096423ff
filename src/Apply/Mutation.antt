-- ===== src/Apply/Mutation.antt =====
-- `apply_mutation` and `disable_auto_stopped_ports` of app/xray/apply.py: a mutation of the tables
-- with everything that has to follow it.
use xray_routing_panel.Prelude.{
  ℕ, ◌≡◌, refl, sym, ap, subst, ◌∙◌, Bool, true, false, not, ◌&&◌, Option, some, String, arith,
  ◌==◌, if◌then◌else◌, Result, ok, err, runtime_error, Exec,
}
use xray_routing_panel.Database.{Db}
use xray_routing_panel.Traffic.{Seen}
use xray_routing_panel.Traffic.Sync.{TrafficReading, sync_traffic_state}
use xray_routing_panel.Apply.{StopClocks, disable_auto_stopped_ports, render_panel_ports}
use xray_routing_panel.Apply.Policy.{AllSettled, disable_auto_stopped_ports-AllSettled}
use xray_routing_panel.Apply.Persist.{System, Settings, World, persist_and_reload}
use xray_routing_panel.Apply.Rollback.{SameSaved, persist_ok-commits}

-- What one mutation reads besides its operation: whether another process holds the apply lock, the
-- traffic, the clocks of the automatic stop, and the world of the apply.
pub record MutationWorld : Type 0 where
  pub lock_busy : Bool
  pub parse : String → Option Seen
  pub traffic : TrafficReading
  pub stop : StopClocks
  pub apply : World

after_persist : {A : Type 0} → A → Result (Unit {0}) × System → Result A × System
after_persist a (ok _, s) = (ok a, s)
after_persist a (err e, s) = (err e, s)

-- The list of ports and the files that the rollback saves are the same, and a marker where there was
-- none is for the external reloader.
unfoldable pub SameFiles : Settings → System → System → Type 0
SameFiles c s s' =
    (s'.files.panel_ports ≡ s.files.panel_ports)
    × SameSaved s.files.artifacts s'.files.artifacts
    × ((s'.files.pending_apply && not s.files.pending_apply && not c.external_reloader) ≡ false)

module _ (c : Settings) (w : MutationWorld) where
  finish : {A : Type 0} → Result A × Db → Exec System A
  finish (err e, working) s = (err e, s)
  finish (ok a, working) s =
      after_persist a
        (persist_and_reload c w.apply true (disable_auto_stopped_ports w.stop working).1 s)

  -- The traffic is synchronized and committed by a transaction of its own, before the mutation's.
  unfoldable pub synced : System → System
  synced s = record s { db = sync_traffic_state w.parse w.traffic s.db }

  -- `apply_mutation`
  unfoldable pub apply_mutation : {A : Type 0} → Exec Db A → Exec System A
  unfolding finish after_persist
  apply_mutation operation s =
      if w.lock_busy
      then (err (runtime_error "配置正在应用，请稍后重试。"), s)
      else finish (operation (synced s).db) (synced s)

  -- `disable_auto_stopped_ports`: nothing is applied unless a row changed, and a busy lock is left
  -- to the next cycle
  unfoldable pub disable_stopped : Bool → Exec System ℕ
  unfolding after_persist
  disable_stopped reload_xray s =
      let (changed, working) = disable_auto_stopped_ports w.stop s.db in
      if w.lock_busy
      then (ok 0, s)
      else if changed == 0
      then (ok 0, record s { db = working })
      else after_persist changed (persist_and_reload c w.apply reload_xray working s)

  -- A row is enabled exactly if it is active, and the list on disk is that of the tables.
  abbrev pub IsSettled : System → Type 0
  IsSettled s =
      AllSettled w.stop.now s.db.totals s.db.ports
      × (s.files.panel_ports ≡ some (render_panel_ports w.apply.now s.db))

  abbrev IsBack : System → System → Type 0
  IsBack s s' = (s'.db ≡ s.db) × SameFiles c s s'

  module _ {A : Type 0} where
    after_persist-IsSettled :
        (x : A) {a : A} (working : Db) (p : Result (Unit {0}) × System)
        → AllSettled w.stop.now working.totals working.ports
        → (p.0 ≡ ok tt
            → (p.1.db ≡ working)
              × (p.1.files.panel_ports ≡ some (render_panel_ports w.apply.now working)))
        → (after_persist x p).0 ≡ ok a
        → IsSettled (after_persist x p).1
    unfolding after_persist
    after_persist-IsSettled x working (ok _, s) settled committed h =
        let (same, listed) = committed refl in
        (
          subst (λ (db : Db). AllSettled w.stop.now db.totals db.ports) (sym same) settled,
          listed ∙ ap (λ (db : Db). some (render_panel_ports w.apply.now db)) (sym same),
        )
    after_persist-IsSettled x working (err e, s) settled committed h = cc

    finish-IsSettled :
        (r : Result A × Db) (s : System) {a : A} → (finish r s).0 ≡ ok a → IsSettled (finish r s).1
    unfolding finish
    finish-IsSettled (err e, working) s h = cc
    finish-IsSettled (ok x, working) s h =
        let stopped = (disable_auto_stopped_ports w.stop working).1 in
        after_persist-IsSettled x stopped (persist_and_reload c w.apply true stopped s)
          (disable_auto_stopped_ports-AllSettled w.stop working)
          (λ e. let r = persist_ok-commits c w.apply true stopped s e in (r.0, r.1)) h

  module _ {A : Type 0} (operation : Exec Db A) (s : System) where
    -- A mutation that returns leaves every row settled: enabled exactly if its status is "active" at the
    -- time of the automatic stop; and the list of ports on disk is the one rendered from
    -- the committed rows.
    pub apply_mutation_ok-IsSettled :
        {a : A} → (apply_mutation operation s).0 ≡ ok a → IsSettled (apply_mutation operation s).1
    unfolding apply_mutation
    apply_mutation_ok-IsSettled {a} h =
        ground (arith, finish-IsSettled (operation (synced s).db) (synced s) {a = a})
