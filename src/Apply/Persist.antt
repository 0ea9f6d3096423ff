-- ===== src/Apply/Persist.antt =====
-- `_persist_and_reload_locked` of app/xray/apply.py: render, test, restart and commit, or put
-- everything back. The renderer, the configuration test, the two processes and the commit are the
-- world's; what the function does around them is here.
use xray_routing_panel.Prelude.{
  ℕ, Bool, true, false, ◌&&◌, not, Option, none, some, String, List, if◌then◌else◌, ok, err, Error,
  runtime_error, Exec,
}
use xray_routing_panel.Database.{Db}
use xray_routing_panel.Apply.{render_panel_ports}

-- The files that `render_xray_config` writes: the renderer's, and the dynamic routing that is pulled
-- from the node before.
pub record Artifacts : Type 0 where
  pub config : Option String
  pub client_config : Option String
  pub client_share : Option String
  pub backup_config : Option String
  pub ai_node_config : Option String
  pub dynamic_routing : Option String

-- The files of the runtime directory: those, the list of the panel's ports, and the marker of a
-- pending apply.
pub record Files : Type 0 where
  pub panel_ports : Option (List ℕ)
  pub artifacts : Artifacts
  pub pending_apply : Bool

-- The committed database, the files, and the configurations that the two processes have loaded.
pub record System : Type 0 where
  pub db : Db
  pub files : Files
  pub data_plane : Option String
  pub backup_xray : Option String

-- What a restart reports, and whether the process has loaded the file: a timeout may come after.
pub record Restart : Type 0 where
  pub returned : Bool
  pub loaded : Bool

-- `CONTROL_PLANE_BACKUP_XRAY_ENABLED` and `DATAPLANE_EXTERNAL_RELOADER_ENABLED`
pub record Settings : Type 0 where
  pub backup_xray_enabled : Bool
  pub external_reloader : Bool

-- How the world answers one call: whether the list of ports and the marker can be written and the
-- marker removed, the renderer (its success, and the files it leaves), the test of a configuration,
-- whether the external watcher sees the marker and reloads the data plane before the call ends, the
-- restarts going forward and in the rollback, and the commit. `broken_rollback` is what a rollback
-- leaves of the files if one of its own writes raises.
pub record World : Type 0 where
  pub now : ℕ
  pub list_written : Bool
  pub marker_written : Bool
  pub marker_removed : Bool
  pub render : List ℕ → Artifacts → Bool × Artifacts
  pub passes_test : Artifacts → Bool
  pub watcher_reloads : Bool
  pub backup_restart : Restart
  pub data_plane_restart : Restart
  pub commits : Bool
  pub broken_rollback : Option Files
  pub backup_rollback : Restart
  pub data_plane_rollback : Restart

-- The local variables of the `try` block; `failure` is the exception that ended it.
pub record Attempt : Type 0 where
  pub system : System
  pub backup_restart_attempted : Bool
  pub data_plane_restart_attempted : Bool
  pub pending_marker_created : Bool
  pub failure : Option Error

-- The next statement of the block runs if none before it raised.
abbrev pub next : (Attempt → Attempt) → Attempt → Attempt
next f a = elim a.failure [ none ↦ f a | some e ↦ a ]

module _ (c : Settings) (w : World) (reload_xray : Bool) where
  unfoldable pub start : List ℕ → System → Attempt
  start ports s = record {
    system =
        if w.list_written
        then record s { files = record s.files { panel_ports = some ports } }
        else s;
    backup_restart_attempted = false;
    data_plane_restart_attempted = false;
    pending_marker_created = false;
    failure = if w.list_written then none else some (runtime_error "OSError");
  }

  unfoldable pub render_config : List ℕ → Attempt → Attempt
  render_config ports a =
      let (succeeded, artifacts) = w.render ports a.system.files.artifacts in
      record a {
        system = record a.system { files = record a.system.files { artifacts = artifacts } };
        failure = if succeeded then none else some (runtime_error "Xray 配置渲染失败");
      }

  unfoldable pub config_test : Attempt → Attempt
  config_test a = record a {
    failure =
        if w.passes_test a.system.files.artifacts then none else some (runtime_error "Xray 配置测试失败");
  }

  -- The marker, and the watcher that it is for: it reloads the data plane and takes the marker away.
  unfoldable pub mark_pending : Attempt → Attempt
  mark_pending a =
      if not (reload_xray && c.external_reloader)
      then a
      else if not w.marker_written
      then record a { failure = some (runtime_error "OSError") }
      else record a {
        system = record a.system {
          files = record a.system.files { pending_apply = not w.watcher_reloads };
          data_plane =
              if w.watcher_reloads then a.system.files.artifacts.config else a.system.data_plane;
        };
        pending_marker_created = not a.system.files.pending_apply;
      }

  unfoldable pub restart_backup : Attempt → Attempt
  restart_backup a =
      if c.backup_xray_enabled
      then record a {
        system = record a.system {
          backup_xray =
              if w.backup_restart.loaded
              then a.system.files.artifacts.backup_config
              else a.system.backup_xray;
        };
        backup_restart_attempted = true;
        failure =
            if w.backup_restart.returned
            then none
            else some (runtime_error "控制面备用 Xray 重载失败，端口变更未提交。");
      }
      else a

  unfoldable pub restart_data_plane : Attempt → Attempt
  restart_data_plane a =
      if reload_xray && not c.external_reloader
      then record a {
        system = record a.system {
          data_plane =
              if w.data_plane_restart.loaded
              then a.system.files.artifacts.config
              else a.system.data_plane;
        };
        data_plane_restart_attempted = true;
        failure =
            if w.data_plane_restart.returned then none else some (runtime_error "数据面重载失败，端口变更未提交。");
      }
      else a

  unfoldable pub clear_pending : Attempt → Attempt
  clear_pending a =
      if c.external_reloader
      then a
      else if not w.marker_removed
      then record a { failure = some (runtime_error "OSError") }
      else record a {
        system = record a.system { files = record a.system.files { pending_apply = false } };
      }

  unfoldable pub commit : Db → Attempt → Attempt
  commit working a =
      if w.commits
      then record a { system = record a.system { db = working } }
      else record a { failure = some (runtime_error "commit") }

  -- The `try` block, over the transaction's working copy of the database.
  unfoldable pub attempt : Db → System → Attempt
  unfolding start render_config config_test mark_pending restart_backup restart_data_plane
      clear_pending commit
  attempt working s =
      let ports = render_panel_ports w.now working in
      next (commit working) (
        next clear_pending (
          next restart_data_plane (
            next restart_backup
              (next mark_pending (next config_test (next (render_config ports) (start ports s)))))))

  -- The `except` block, if its writes succeed: the saved files come back, and what was restarted is restarted again. The
  -- configuration of the AI node and the dynamic routing are not among the saved files.
  unfoldable pub restore : System → Attempt → System
  restore previous a = record {
    db = previous.db;
    files = record {
      panel_ports = previous.files.panel_ports;
      artifacts = record previous.files.artifacts {
        ai_node_config = a.system.files.artifacts.ai_node_config;
        dynamic_routing = a.system.files.artifacts.dynamic_routing;
      };
      pending_apply =
          if a.pending_marker_created && not c.external_reloader
          then false
          else a.system.files.pending_apply;
    };
    data_plane =
        if a.data_plane_restart_attempted && w.data_plane_rollback.loaded
        then previous.files.artifacts.config
        else a.system.data_plane;
    backup_xray =
        if a.backup_restart_attempted && w.backup_rollback.loaded
        then previous.files.artifacts.backup_config
        else a.system.backup_xray;
  }

  -- The `except` block: a write of its own that raises ends it.
  unfoldable pub roll_back : System → Attempt → System
  unfolding restore
  roll_back previous a = elim w.broken_rollback [
    | none ↦ restore previous a
    | some files ↦ record a.system { db = previous.db; files = files }
  ]

  -- `_persist_and_reload_locked`
  unfoldable pub persist_and_reload : Db → Exec System Unit
  unfolding roll_back
  persist_and_reload working s =
      let a = attempt working s in
      elim a.failure [ none ↦ (ok tt, a.system) | some e ↦ (err e, roll_back s a) ]
