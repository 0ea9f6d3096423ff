-- ===== src/Apply/Rollback.antt =====
-- The two ends of `_persist_and_reload_locked`, app/xray/apply.py.
use xray_routing_panel.Prelude.{
  ◌≡◌, refl, sym, subst, inl, inr, none, if◌then◌else◌, true, Option-cases, ◌⊎◌, Bool, false, ◌&&◌,
  not, some, ok, err, Error, arith,
}
use xray_routing_panel.Database.{Db}
use xray_routing_panel.Apply.{render_panel_ports}
use xray_routing_panel.Apply.Persist.{
  Artifacts, System, Settings, World, attempt, restore, persist_and_reload,
}

-- The files that the rollback saves are the same: the configuration, the two files for clients, and
-- the configuration of the backup.
abbrev pub SameSaved : Artifacts → Artifacts → Type 0
SameSaved before after =
    (after.config ≡ before.config)
    × (after.client_config ≡ before.client_config)
    × (after.client_share ≡ before.client_share)
    × (after.backup_config ≡ before.backup_config)

-- What a rollback leaves of a system, after the renderer left the given files.
unfoldable pub IsRestored : Settings → Artifacts → System → System → Type 0
IsRestored c rendered s s' =
    (s'.db ≡ s.db)
    × (s'.files.panel_ports ≡ s.files.panel_ports)
    × SameSaved s.files.artifacts s'.files.artifacts
    × (s'.files.artifacts.ai_node_config ≡ rendered.ai_node_config)
    × (s'.files.artifacts.dynamic_routing ≡ rendered.dynamic_routing)
    × ((s'.files.pending_apply && not s.files.pending_apply && not c.external_reloader) ≡ false)

module _ (c : Settings) (w : World) (reload_xray : Bool) (working : Db) (s : System) where
  -- The files as the renderer leaves them, if the list of ports could be written for it.
  abbrev pub rendered : Artifacts
  rendered =
      if w.list_written
      then (w.render (render_panel_ports w.now working) s.files.artifacts).1
      else s.files.artifacts

  persist_error-restore :
      {e : Error}
      → w.broken_rollback ≡ none
      → (persist_and_reload c w reload_xray working s).0 ≡ err e
      → (persist_and_reload c w reload_xray working s).1
        ≡ restore c w reload_xray s (attempt c w reload_xray working s)
  unfolding persist_and_reload
  persist_error-restore unbroken h =
      elim (Option-cases (attempt c w reload_xray working s).failure) [
        | inl returned ↦ absurd (ground (arith, returned, h))
        | inr (e, raised) ↦ rw (raised, unbroken, persist_and_reload) refl
      ]

  -- The data plane runs what it ran, or what the watcher loaded.
  abbrev pub IsBackOrWatched : System → Type 0
  IsBackOrWatched s' =
      (s'.data_plane ≡ s.data_plane)
      ⊎ (c.external_reloader ≡ true)
        × (w.watcher_reloads ≡ true)
        × (s'.data_plane ≡ rendered.config)

  -- The backup runs what it ran, if it was not restarted.
  attempt-backup :
      ((attempt c w reload_xray working s).backup_restart_attempted ≡ true)
      ⊎ ((attempt c w reload_xray working s).system.backup_xray ≡ s.backup_xray)
  unfolding attempt
  attempt-backup = ground arith

  -- The data plane runs what it ran, if neither the panel nor the watcher restarted it.
  attempt-data_plane :
      ((attempt c w reload_xray working s).data_plane_restart_attempted ≡ true)
      ⊎ IsBackOrWatched (attempt c w reload_xray working s).system
  unfolding attempt
  attempt-data_plane = ground arith

  restore-backup :
      s.backup_xray ≡ s.files.artifacts.backup_config
      → w.backup_rollback.loaded ≡ true
      → (restore c w reload_xray s (attempt c w reload_xray working s)).backup_xray ≡ s.backup_xray
  unfolding restore
  restore-backup hb lb = ground (arith, attempt-backup)

  restore-data_plane :
      s.data_plane ≡ s.files.artifacts.config
      → w.data_plane_rollback.loaded ≡ true
      → IsBackOrWatched (restore c w reload_xray s (attempt c w reload_xray working s))
  unfolding restore
  restore-data_plane hd ld = ground (arith, attempt-data_plane)

  -- After an apply that raises, both processes run what they ran before, provided that they ran
  -- the files on disk, that the rollback can write its files, and that its restarts load them. The
  -- exception is the data plane under an external reloader that saw the marker: it runs the
  -- configuration that was rendered and not committed.
  pub persist_error-processes :
      {e : Error}
      → s.data_plane ≡ s.files.artifacts.config
      → s.backup_xray ≡ s.files.artifacts.backup_config
      → w.broken_rollback ≡ none
      → w.data_plane_rollback.loaded ≡ true
      → w.backup_rollback.loaded ≡ true
      → (persist_and_reload c w reload_xray working s).0 ≡ err e
      → let s' = (persist_and_reload c w reload_xray working s).1 in
        (s'.backup_xray ≡ s.backup_xray) × IsBackOrWatched s'
  persist_error-processes hd hb unbroken ld lb h =
      subst (λ (s' : System). (s'.backup_xray ≡ s.backup_xray) × IsBackOrWatched s')
        (sym (persist_error-restore unbroken h)) (restore-backup hb lb, restore-data_plane hd ld)

  -- An apply that returns has committed the working copy, has the list of its ports on disk, and
  -- has rendered files that passed the test.
  pub persist_ok-commits :
      (persist_and_reload c w reload_xray working s).0 ≡ ok tt
      → let s' = (persist_and_reload c w reload_xray working s).1 in
        (s'.db ≡ working)
        × (s'.files.panel_ports ≡ some (render_panel_ports w.now working))
        × (s'.files.artifacts ≡ (w.render (render_panel_ports w.now working) s.files.artifacts).1)
        × (w.passes_test s'.files.artifacts ≡ true)
  unfolding persist_and_reload attempt
  persist_ok-commits h = ground arith
