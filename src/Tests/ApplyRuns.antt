-- ===== src/Tests/ApplyRuns.antt =====
-- Runs of an apply, one that commits and one whose commit fails.
use xray_routing_panel.Prelude.{
  ◌≡◌, ◌⊎◌, refl, Bool, true, false, ◌&&◌, none, some, String, [], ◌∷◌, any, ◌==◌, runtime_error,
}
use xray_routing_panel.Database.Tables.{Port}
use xray_routing_panel.Traffic.{sync_traffic_stats}
use xray_routing_panel.Traffic.Sync.{local_file, sync_traffic_state, sync_access_log, read_log}
use xray_routing_panel.Ports.Status.{port_status, is_active}
use xray_routing_panel.Ports.{find_port}
use xray_routing_panel.Ports.Operations.{delete_port, require_port}
use xray_routing_panel.Apply.{StopClocks, disable_auto_stopped_ports, render_panel_ports}
use xray_routing_panel.Apply.Policy.{
  IsSorted, elem, AllSettled, render_panel_ports-active, disable_auto_stopped_ports-AllSettled,
}
use xray_routing_panel.Apply.Persist.{
  Artifacts, System, Restart, Settings, World, attempt, persist_and_reload,
}
use xray_routing_panel.Apply.Rollback.{persist_error-processes, persist_ok-commits}
use xray_routing_panel.Apply.Mutation.{
  MutationWorld, synced, apply_mutation, IsSettled, apply_mutation_ok-IsSettled,
}
use xray_routing_panel.Tests.Fixtures.{db}

render_panel_ports-active_example :
    IsSorted (render_panel_ports 50 db)
    × (elem 20001 (render_panel_ports 50 db)
        ≡ any
            (λ (p : Port). is_active (port_status 50 db.totals p) && p.listen_port == 20001)
            db.ports)
render_panel_ports-active_example = render_panel_ports-active 50 db 20001

abbrev stop : StopClocks
stop = record { now = 100; cleanup = 90 }

disable_auto_stopped_ports-AllSettled_example :
    let db' = (disable_auto_stopped_ports stop db).1 in AllSettled stop.now db'.totals db'.ports
disable_auto_stopped_ports-AllSettled_example = disable_auto_stopped_ports-AllSettled stop db

abbrev settings : Settings
settings = record { backup_xray_enabled = true; external_reloader = false }

abbrev artifacts : String → Artifacts
artifacts text = record {
  config = some text;
  client_config = none;
  client_share = none;
  backup_config = some text;
  ai_node_config = some text;
  dynamic_routing = none;
}

abbrev system : System
system = record {
  db = db;
  files = record {
    panel_ports = some (20001 ∷ []);
    artifacts = artifacts "old";
    pending_apply = false;
  };
  data_plane = some "old";
  backup_xray = some "old";
}

abbrev restart : Restart
restart = record { returned = true; loaded = true }

-- The renderer writes new files, and the commit succeeds or fails.
abbrev world : Bool → World
world commits = record {
  now = 100;
  list_written = true;
  marker_written = true;
  marker_removed = true;
  render = λ ports before. (true, artifacts "new");
  passes_test = λ files. true;
  watcher_reloads = false;
  backup_restart = restart;
  data_plane_restart = restart;
  commits = commits;
  broken_rollback = none;
  backup_rollback = restart;
  data_plane_rollback = restart;
}

abbrev mutation_world : Bool → MutationWorld
mutation_world commits = record {
  lock_busy = false;
  parse = λ text. none;
  traffic = record { source = local_file (λ bytes. []) none; stats = []; now = 100; stat_date = 0 };
  stop = stop;
  apply = world commits;
}

-- The external reloader sees the marker before the commit fails.
abbrev watched : Settings
watched = record { backup_xray_enabled = true; external_reloader = true }

abbrev watched_world : World
watched_world = record (world false) { watcher_reloads = true }

persist_error-processes_example :
    let s' = (persist_and_reload watched watched_world true db system).1 in
    (s'.backup_xray ≡ system.backup_xray)
    × ((s'.data_plane ≡ system.data_plane)
        ⊎ (watched.external_reloader ≡ true)
          × (watched_world.watcher_reloads ≡ true)
          × (s'.data_plane ≡ some "new"))
unfolding persist_and_reload attempt
persist_error-processes_example =
    persist_error-processes watched watched_world true db system {e = runtime_error "commit"} refl
      refl refl refl refl refl

persist_ok-commits_example :
    let s' = (persist_and_reload settings (world true) true db system).1 in
    (s'.db ≡ db)
    × (s'.files.panel_ports ≡ some (render_panel_ports 100 db))
    × (s'.files.artifacts ≡ artifacts "new")
    × ((world true).passes_test s'.files.artifacts ≡ true)
unfolding persist_and_reload attempt
persist_ok-commits_example = persist_ok-commits settings (world true) true db system refl

apply_mutation_ok-IsSettled_example :
    IsSettled settings
      (mutation_world true)
      (apply_mutation settings (mutation_world true) (delete_port 3) system).1
unfolding apply_mutation synced persist_and_reload attempt sync_traffic_state sync_access_log
    read_log delete_port disable_auto_stopped_ports require_port find_port sync_traffic_stats
apply_mutation_ok-IsSettled_example =
    apply_mutation_ok-IsSettled settings (mutation_world true) (delete_port 3) system {a = tt} refl
