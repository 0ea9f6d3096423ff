-- ===== src/Recovery/Local.antt =====
-- `_local_runtime_node_manifest` of scripts/node_recovery.py: a node from the files of the panel's host.
pub mod Held
use Prim.Native.Nat.{Ordering}
use Prim.Native.Char.{code}
use Prim.Native.String
use xray_routing_panel.Prelude.{
  ℕ, zero, suc, ◌+◌, String, Bool, true, false, not, ◌&&◌, ◌||◌, Option, none, some, List, [], ◌∷◌,
  ◌++◌, map, take, if◌then◌else◌, any, all, select, ◌==◌, str_eq, str_append, strip, is_empty,
  is_some, decimal, Result, ok, err,
}
use xray_routing_panel.Recovery.Paths.{safe_relative, parts_of, is_parent, with_slashes}
use xray_routing_panel.Recovery.Bundle.{FileEntry, Artifact, Node, Index, lookup, file_entry_index}

abbrev pub starts_text : String → String → Bool
starts_text String.[] s = true
starts_text (String.◌∷◌ c p) String.[] = false
starts_text (String.◌∷◌ c p) (String.◌∷◌ d s) = code c == code d && starts_text p s

-- `s.endswith(suffix)`
abbrev ends_text : String → String → Bool
ends_text suffix String.[] = is_empty suffix
ends_text suffix (String.◌∷◌ c s) = str_eq suffix (String.◌∷◌ c s) || ends_text suffix s

abbrev text_before : String → String → Bool
text_before a b = elim (String.compare a b) [ Ordering.lt ↦ true | _ ↦ false ]

abbrev least : String × FileEntry → Option (String × FileEntry) → String × FileEntry
least row none = row
least row (some other) = if text_before other.0 row.0 then other else row

-- The first candidate in the order of the archive paths.
abbrev pub find_least : (String × FileEntry → Bool) → Index → Option (String × FileEntry)
find_least test [] = none
find_least test (row ∷ rows) =
    let rest = find_least test rows in if test row then some (least row rest) else rest

-- the candidates of `_find_local_entry`
unfoldable is_local_file : String → String × FileEntry → Bool
is_local_file suffix (archive_path, entry) =
    starts_text "config/" archive_path
    && (ends_text suffix (with_slashes entry.source_path) || ends_text suffix archive_path)

abbrev pub artifact_found : String → String → Bool → Option (String × FileEntry) → Artifact
artifact_found name restore_path required none = record {
  artifact_name = name;
  archive_path = "";
  restore_path = restore_path;
  is_ok = false;
  is_required = required;
}
artifact_found name restore_path required (some (archive_path, entry)) = record {
  artifact_name = name;
  archive_path = archive_path;
  restore_path = restore_path;
  is_ok = true;
  is_required = required;
}

-- `_local_artifact`
unfoldable local_artifact : Index → String → String → String → Bool → Artifact
unfolding is_local_file
local_artifact file_entries name suffix restore_path required =
    artifact_found name restore_path required (find_least (is_local_file suffix) file_entries)

-- `_local_runtime_node_manifest`
unfoldable pub local_runtime_node : String → Index → String → Node
unfolding local_artifact
local_runtime_node role file_entries config_suffix =
    let config =
      local_artifact file_entries "xray-config" config_suffix "app/xray/runtime/config.json" true in
    let env = local_artifact file_entries "xray-env" "/app/xray/.env" "app/xray/.env" true in
    record {
      role = role;
      is_configured = config.is_ok || env.is_ok;
      recovery_ready = (config.is_ok || env.is_ok) && config.is_ok && env.is_ok;
      required_artifacts = config ∷ env ∷ [];
      optional_artifacts =
          local_artifact file_entries "panel-ports" "/app/xray/runtime/panel-ports.json"
            "app/xray/runtime/panel-ports.json" false
          ∷ local_artifact file_entries "dynamic-routing" "/app/xray/runtime/dynamic-routing.json"
              "app/xray/runtime/dynamic-routing.json" false
          ∷ local_artifact file_entries "client-test" "/app/xray/runtime/client-test.json"
              "app/xray/runtime/client-test.json" false
          ∷ local_artifact file_entries "client-share" "/app/xray/runtime/client-share.txt"
              "app/xray/runtime/client-share.txt" false
          ∷ [];
    }
