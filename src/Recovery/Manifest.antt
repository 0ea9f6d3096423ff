-- ===== src/Recovery/Manifest.antt =====
-- `build_node_recovery_manifest` of scripts/node_recovery.py: the database and both nodes.
pub mod Ready
use xray_routing_panel.Prelude.{
  ℕ, zero, suc, ◌+◌, String, Bool, true, false, not, ◌&&◌, ◌||◌, Option, none, some, List, [], ◌∷◌,
  ◌++◌, map, take, if◌then◌else◌, any, all, select, ◌==◌, str_eq, str_append, strip, is_empty,
  is_some, decimal, Result, ok, err,
}
use xray_routing_panel.Prelude.Returns.{and_then}
use xray_routing_panel.Recovery.Paths.{safe_relative, parts_of, is_parent, with_slashes}
use xray_routing_panel.Recovery.Bundle.{FileEntry, Artifact, Node, Index, lookup, file_entry_index}
use xray_routing_panel.Recovery.Collected.{CollectedNode, last_part, remote_node_manifest}
use xray_routing_panel.Recovery.Local.{starts_text, find_least, artifact_found, local_runtime_node}

-- Both nodes: collected over SSH where it has a target, or from the local runtime.
unfoldable data_plane_node : String → String → Index → Option CollectedNode → Result Node
unfolding strip remote_node_manifest local_runtime_node
data_plane_node role config_suffix file_entries none =
    ok (local_runtime_node role file_entries config_suffix)
data_plane_node role config_suffix file_entries (some node) =
    if is_empty (strip node.target)
    then ok (local_runtime_node role file_entries config_suffix)
    else remote_node_manifest role node file_entries

-- the candidates of `_database_artifact`
unfoldable is_database : String × FileEntry → Bool
is_database (archive_path, entry) =
    starts_text "database/" archive_path
    && not (str_eq (last_part (parts_of archive_path)) "ops.db")

unfoldable database_artifact : Index → Artifact
unfolding is_database
database_artifact file_entries =
    artifact_found "panel-database" "data/panel.db" true (find_least is_database file_entries)

pub record Recovery : Type 0 where
  pub database : Artifact
  pub nodes : List Node
  pub is_ready : Bool

abbrev is_configured_node : Node → Bool
is_configured_node node = node.is_configured

abbrev recovery_of : Artifact → Node → Node → Recovery
recovery_of database normal ai = record {
  database = database;
  nodes = normal ∷ ai ∷ [];
  is_ready =
      any is_configured_node (normal ∷ ai ∷ [])
      && database.is_ok
      && all (λ (n : Node). not n.is_configured || n.recovery_ready) (normal ∷ ai ∷ []);
}

-- The node of a role in the collection; of several, the last.
unfoldable remote_of : String → List CollectedNode → Option CollectedNode
remote_of role [] = none
remote_of role (node ∷ nodes) =
    let later = remote_of role nodes in
    elim later [
      | none ↦ if str_eq node.role role then some node else none
      | some other ↦ some other
    ]

-- `build_node_recovery_manifest`
-- No collection is an empty one.
unfoldable pub build_node_recovery_manifest : List FileEntry → List CollectedNode → Result Recovery
unfolding file_entry_index data_plane_node database_artifact remote_of
build_node_recovery_manifest file_entries remote_nodes =
    and_then (file_entry_index [] file_entries) λ indexed.
      and_then
        (data_plane_node "normal-data-plane" "/app/xray/runtime/config.json" indexed
          (remote_of "normal-data-plane" remote_nodes))
        λ normal.
          and_then
            (data_plane_node "ai-data-plane" "/app/xray/runtime/config-ai-node.json" indexed
              (remote_of "ai-data-plane" remote_nodes))
            λ ai. ok (recovery_of (database_artifact indexed) normal ai)
