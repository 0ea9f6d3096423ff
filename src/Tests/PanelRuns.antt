-- ===== src/Tests/PanelRuns.antt =====
-- Runs of the node recovery, the sessions and the reporter's rules on concrete inputs.
use xray_routing_panel.Prelude.{
  ℕ, ◌+◌, String, ◌≡◌, refl, Bool, true, false, not, is_empty, none, some, ok, err, value_error,
  List, [], ◌∷◌, length,
}
use xray_routing_panel.Recovery.Bundle.{FileEntry, Member, Artifact, BackupManifest, NodeManifest}
use xray_routing_panel.Recovery.Collected.{CollectedFile, CollectedNode}
use xray_routing_panel.Recovery.Manifest.{Recovery}
use xray_routing_panel.Recovery.Prepare.{Disk, prepare_node}
use xray_routing_panel.Recovery.Prepare.Verified.{IsPrepared, prepare_node-IsPrepared}
use xray_routing_panel.Database.Tables.{Port}
use xray_routing_panel.Sessions.{
  Account, admin_login, tenant_login, customer_login, tenant_logout, empty_session, respond_all,
  is_tenant_session_authenticated, mark_tenant_session_authenticated,
}
use xray_routing_panel.Sessions.Identity.{IsSoleLogin, respond_all-IsSoleLogin}
use xray_routing_panel.Sessions.Markers.{same_credentials, is_tenant_session_authenticated-mark}
use xray_routing_panel.Settings.{parse_time_of_day_env}
use xray_routing_panel.Reporter.Rules.{counter_increase_with_resets, intervals}
use xray_routing_panel.Reporter.Rules.Counters.{final, lost, steps_down, counter_increase-balance}
use xray_routing_panel.Reporter.Rules.Intervals.{long_runs, runs_of, intervals-long_runs}

-- A checksum for short texts: the text.
abbrev own_text : String → String
own_text s = s

abbrev config_artifact : Artifact
config_artifact = record {
  artifact_name = "xray-config";
  archive_path = "nodes/normal/config.json";
  restore_path = "app/xray/runtime/config.json";
  is_ok = true;
  is_required = true;
}

abbrev one_node : NodeManifest
one_node = record {
  version = 1;
  purpose = "node-recovery";
  shared_required = [];
  shared_optional = [];
  nodes =
      (record {
        role = "normal-data-plane";
        is_configured = true;
        recovery_ready = true;
        required_artifacts = config_artifact ∷ [];
        optional_artifacts = [];
      })
      ∷ [];
  xray_image = "";
}

abbrev two_entries : BackupManifest
two_entries = record {
  version = 1;
  files =
      (record {
        archive_path = "nodes/normal/config.json";
        source_path = "";
        size = some 2;
        sha256 = "{}";
      })
      ∷ (record {
        archive_path = "node-recovery-manifest.json";
        source_path = "";
        size = some 1;
        sha256 = "N";
      })
      ∷ [];
}

abbrev bundle : List Member
bundle =
    (record { name = "backup-manifest.json"; content = some "B" })
    ∷ (record { name = "node-recovery-manifest.json"; content = some "N" })
    ∷ (record { name = "nodes/"; content = none })
    ∷ (record { name = "nodes/normal/config.json"; content = some "{}" })
    ∷ []

abbrev empty_disk : Disk
empty_disk = record {
  output_is_other = false;
  output_is_empty = true;
  is_present = λ _. false;
  is_directory = λ _. false;
  leads_out = λ _. false;
}

bundle-prepared :
    length
      (prepare_node own_text
        (λ _. some two_entries)
        (λ _. some one_node)
        (λ _. "{}")
        empty_disk
        bundle
        "normal-data-plane"
        false
        false
        []).1
    ≡ 3
unfolding prepare_node
bundle-prepared = refl

prepare_node-IsPrepared_example :
    IsPrepared own_text
      (λ _. some two_entries)
      (λ _. some one_node)
      (λ _. "{}")
      bundle
      (prepare_node own_text
        (λ _. some two_entries)
        (λ _. some one_node)
        (λ _. "{}")
        empty_disk
        bundle
        "normal-data-plane"
        false
        false
        []).1
prepare_node-IsPrepared_example =
    prepare_node-IsPrepared own_text (λ _. some two_entries) (λ _. some one_node) (λ _. "{}")
      empty_disk bundle "normal-data-plane" false false

abbrev some_port : Port
some_port = record {
  id = 1;
  listen_port = 20000;
  upstream_host = "a.example";
  upstream_port = 443;
  tenant_token = "token";
  subscription_token = "sub";
  tenant_username = "tuser";
  tenant_password = "secret";
  expires_at = none;
  traffic_limit_bytes = none;
  enabled = true;
  note = "";
  customer_id = none;
  service_subscription_id = none;
  source_order_id = none;
  created_at = 1;
  updated_at = 1;
}

-- The same port after its password was rotated.
abbrev rotated_port : Port
rotated_port = record some_port { tenant_password = "other" }

abbrev some_account : Account
some_account = record { id = 5; email = "c@example"; password_hash = "h"; status = "active" }

respond_all-IsSoleLogin_example : IsSoleLogin true "admin" own_text some_port some_account (
    respond_all true "admin" own_text
      (admin_login ∷ tenant_login some_port ∷ customer_login some_account ∷ tenant_logout ∷ [])
      empty_session)
respond_all-IsSoleLogin_example =
    respond_all-IsSoleLogin true "admin" own_text
      (admin_login ∷ tenant_login some_port ∷ customer_login some_account ∷ tenant_logout ∷ [])
      some_port some_account

is_tenant_session_authenticated-mark_example :
    is_tenant_session_authenticated true "admin" own_text rotated_port
      (mark_tenant_session_authenticated true "admin" own_text some_port empty_session)
    ≡ same_credentials some_port rotated_port
is_tenant_session_authenticated-mark_example =
    is_tenant_session_authenticated-mark true "admin" own_text some_port rotated_port empty_session
      (refl, (refl, (refl, tt))) (refl, (refl, (refl, tt))) (λ h. h)

-- A counter that was reset once.
counter_increase-balance_example :
    (100 + (counter_increase_with_resets (100 ∷ 150 ∷ 20 ∷ 30 ∷ [])).0
      ≡ final 100 (150 ∷ 20 ∷ 30 ∷ []) + lost 100 (150 ∷ 20 ∷ 30 ∷ []))
    × ((counter_increase_with_resets (100 ∷ 150 ∷ 20 ∷ 30 ∷ [])).1
        ≡ steps_down 100 (150 ∷ 20 ∷ 30 ∷ []))
counter_increase-balance_example = counter_increase-balance 100 (150 ∷ 20 ∷ 30 ∷ [])

-- The service is down at four samples, and the last two come after a gap.
abbrev down_points : List (ℕ × Bool)
down_points =
    (0, true)
    ∷ (30000, true)
    ∷ (60000, false)
    ∷ (90000, true)
    ∷ (150000, true)
    ∷ (180000, true)
    ∷ []

down_points-intervals : length (intervals (λ (down : Bool). down) 2 down_points) ≡ 2
unfolding intervals
down_points-intervals = refl

intervals-long_runs_example :
    intervals (λ (down : Bool). down) 2 down_points
    ≡ long_runs (λ (down : Bool). down) 2 (runs_of (λ (down : Bool). down) 2 down_points)
intervals-long_runs_example = intervals-long_runs (λ (down : Bool). down) 2 down_points

-- A backup of the database and of two collected files of a remote node.
abbrev backup_entry : String → FileEntry
backup_entry path = record { archive_path = path; source_path = ""; size = some 1; sha256 = "h" }

abbrev backup_entries : List FileEntry
backup_entries =
    backup_entry "database/panel.db"
    ∷ backup_entry "nodes/normal/config.json"
    ∷ backup_entry "nodes/normal/.env"
    ∷ []

abbrev collected_file : String → String → CollectedFile
collected_file path staged_path = record {
  path = path;
  staged_path = staged_path;
  status = "ok";
  restore_path = "";
}

abbrev collected_node : CollectedNode
collected_node = record {
  role = "normal-data-plane";
  target = "root@node";
  requested_paths = [];
  required_paths = "/opt/xray/config.json" ∷ [];
  files =
      collected_file "/opt/xray/config.json" "normal/config.json"
      ∷ collected_file "/opt/xray/.env" "normal/.env"
      ∷ [];
}

abbrev made_artifact : String → String → String → Bool → Artifact
made_artifact name archive_path restore_path required = record {
  artifact_name = name;
  archive_path = archive_path;
  restore_path = restore_path;
  is_ok = not (is_empty archive_path);
  is_required = required;
}

abbrev made_manifest : Recovery
made_manifest = record {
  database = made_artifact "panel-database" "database/panel.db" "data/panel.db" true;
  nodes =
      (record {
        role = "normal-data-plane";
        is_configured = true;
        recovery_ready = true;
        required_artifacts =
            made_artifact "xray-config" "nodes/normal/config.json" "app/xray/runtime/config.json"
              true
            ∷ [];
        optional_artifacts =
            made_artifact "xray-env" "nodes/normal/.env" "app/xray/.env" false ∷ [];
      })
      ∷ (record {
        role = "ai-data-plane";
        is_configured = false;
        recovery_ready = false;
        required_artifacts =
            made_artifact "xray-config" "" "app/xray/runtime/config.json" true
            ∷ made_artifact "xray-env" "" "app/xray/.env" true
            ∷ [];
        optional_artifacts =
            made_artifact "panel-ports" "" "app/xray/runtime/panel-ports.json" false
            ∷ made_artifact "dynamic-routing" "" "app/xray/runtime/dynamic-routing.json" false
            ∷ made_artifact "client-test" "" "app/xray/runtime/client-test.json" false
            ∷ made_artifact "client-share" "" "app/xray/runtime/client-share.txt" false
            ∷ [];
      })
      ∷ [];
  is_ready = true;
}

parse_time_of_day_env-runs :
    (parse_time_of_day_env " 07:45 " "X" ≡ ok "07:45")
    × (parse_time_of_day_env "" "X" ≡ ok "")
    × (parse_time_of_day_env "24:00" "X" ≡ err (value_error "X 必须使用有效的 HH:MM 时间。"))
    × (parse_time_of_day_env "7:45" "X" ≡ err (value_error "X 必须使用 HH:MM 格式。"))
unfolding parse_time_of_day_env
parse_time_of_day_env-runs = (refl, refl, refl, refl)
