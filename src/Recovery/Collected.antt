-- ===== src/Recovery/Collected.antt =====
-- `_remote_node_manifest` of scripts/node_recovery.py: a node whose files were collected over SSH.
pub mod Backed
use xray_routing_panel.Prelude.{
  ℕ, zero, suc, ◌+◌, String, Bool, true, false, not, ◌&&◌, ◌||◌, Option, none, some, List, [], ◌∷◌,
  ◌++◌, map, take, if◌then◌else◌, any, all, select, ◌==◌, str_eq, str_append, strip, is_empty,
  is_some, decimal, Result, ok, err,
}
use xray_routing_panel.Prelude.Returns.{and_then}
use xray_routing_panel.Recovery.Paths.{safe_relative, parts_of, is_parent, with_slashes}
use xray_routing_panel.Recovery.Bundle.{FileEntry, Artifact, Node, Index, lookup, file_entry_index}

-- One of a collected node's `files`; an absent text is empty.
pub record CollectedFile : Type 0 where
  pub path : String
  pub staged_path : String
  pub status : String
  pub restore_path : String

pub record CollectedNode : Type 0 where
  pub role : String
  pub target : String
  pub requested_paths : List String
  pub required_paths : List String
  pub files : List CollectedFile

-- `PurePosixPath(path).name`
abbrev pub last_part : List String → String
last_part [] = ""
last_part (p ∷ []) = p
last_part (p ∷ q ∷ ps) = last_part (q ∷ ps)

-- a dictionary of texts
abbrev text_for : String → List (String × String) → String → String
text_for key [] default = default
text_for key ((k, v) ∷ rows) default = if str_eq k key then v else text_for key rows default

abbrev artifact_names : List (String × String)
artifact_names =
    ("config.json", "xray-config")
    ∷ (".env", "xray-env")
    ∷ ("panel-ports.json", "panel-ports")
    ∷ ("dynamic-routing.json", "dynamic-routing")
    ∷ ("client-test.json", "client-test")
    ∷ ("client-share.txt", "client-share")
    ∷ ("latest.json", "ai-domain-report")
    ∷ ("panel.db", "node-panel-database")
    ∷ []

unfoldable artifact_name_of : String → ℕ → String
unfolding decimal
artifact_name_of remote_path index =
    text_for (last_part (parts_of remote_path)) artifact_names
      (str_append "node-file-" (decimal (index + 1)))

abbrev join_slash : List String → String
join_slash [] = ""
join_slash (p ∷ []) = p
join_slash (p ∷ q ∷ ps) = str_append p (str_append "/" (join_slash (q ∷ ps)))

-- from the first part "reports" on
abbrev from_reports : List String → List String
from_reports [] = []
from_reports (p ∷ ps) = if str_eq p "reports" then p ∷ ps else from_reports ps

abbrev is_runtime_file : String → Bool
is_runtime_file name =
    str_eq name "panel-ports.json"
    || str_eq name "dynamic-routing.json"
    || str_eq name "client-test.json"
    || str_eq name "client-share.txt"

unfoldable fallback_restore_path : String → Result String
unfolding safe_relative
fallback_restore_path remote_path =
    let parts = parts_of remote_path in
    let name = last_part parts in
    if str_eq name "config.json"
    then ok "app/xray/runtime/config.json"
    else if str_eq name ".env"
    then ok "app/xray/.env"
    else if is_runtime_file name
    then ok (str_append "app/xray/runtime/" name)
    else if any (λ p. str_eq p "reports") parts
    then safe_relative (str_append "app/xray/" (join_slash (from_reports parts)))
    else safe_relative (str_append "remote/" (join_slash (select (λ p. not (is_parent p)) parts)))

-- `restorePath`, or the fallback where it is empty
unfoldable restore_path_of : String → String → Result String
unfolding fallback_restore_path
restore_path_of given remote_path =
    if is_empty given then fallback_restore_path remote_path else ok given

-- The archive path of a staged file, checked; empty if it was not staged.
unfoldable staged_archive_path : String → Result String
unfolding safe_relative
staged_archive_path staged_path =
    if is_empty staged_path then ok "" else safe_relative (str_append "nodes/" staged_path)

abbrev member_of : String → List String → Bool
member_of path = any (λ p. str_eq p path)

-- `_artifact_from_collection`
unfoldable artifact_from_collection : CollectedFile → Index → ℕ → List String → Result Artifact
unfolding artifact_name_of restore_path_of staged_archive_path
artifact_from_collection item file_entries index required_paths =
    and_then (restore_path_of item.restore_path item.path) λ restore_path.
      and_then (staged_archive_path item.staged_path) λ archive_path. ok (record {
        artifact_name = artifact_name_of item.path index;
        archive_path = archive_path;
        restore_path = restore_path;
        is_ok =
            str_eq item.status "ok"
            && not (is_empty item.staged_path)
            && is_some (lookup (str_append "nodes/" item.staged_path) file_entries);
        is_required = member_of item.path required_paths;
      })

-- The loop over the collected files, and the files that it has seen.
unfoldable collected_artifacts :
    Index → List String → ℕ → List String → List CollectedFile → Result (List Artifact)
unfolding artifact_from_collection
collected_artifacts file_entries required_paths index seen [] = ok []
collected_artifacts file_entries required_paths index seen (item ∷ items) =
    let skip = collected_artifacts file_entries required_paths (suc index) seen items in
    let take_it =
      and_then (artifact_from_collection item file_entries index required_paths) λ artifact.
        and_then
          (collected_artifacts file_entries required_paths (suc index) (item.path ∷ seen) items)
          λ rest. ok (artifact ∷ rest) in
    if is_empty item.path || member_of item.path seen then skip else take_it

-- The required files that were not collected.
unfoldable missing_artifacts : List String → List String → ℕ → Result (List Artifact)
unfolding artifact_name_of fallback_restore_path
missing_artifacts seen [] count = ok []
missing_artifacts seen (path ∷ paths) count =
    let skip = missing_artifacts seen paths count in
    let add = and_then (fallback_restore_path path) λ restore_path.
      and_then (missing_artifacts seen paths (suc count)) λ rest. ok (
        (record {
          artifact_name = artifact_name_of path count;
          archive_path = "";
          restore_path = restore_path;
          is_ok = false;
          is_required = true;
        })
        ∷ rest) in
    if member_of path seen then skip else add

abbrev list_length : List Artifact → ℕ
list_length [] = 0
list_length (a ∷ as') = suc (list_length as')

abbrev non_empty : List String → List String
non_empty = select (λ p. not (is_empty p))

-- `required or requested[:1]`
abbrev required_or_first : List String → List String → List String
required_or_first [] requested = take 1 requested
required_or_first (p ∷ ps) requested = p ∷ ps

abbrev some_artifact : List Artifact → Bool
some_artifact [] = false
some_artifact (a ∷ as') = true

-- `status == "ok" and archivePath`
abbrev is_there : Artifact → Bool
is_there a = a.is_ok && not (is_empty a.archive_path)

abbrev remote_node : String → CollectedNode → List Artifact → Node
remote_node role node artifacts =
    let required = select (λ (a : Artifact). a.is_required) artifacts in
    let configured = not (is_empty (strip node.target)) in
    record {
      role = role;
      is_configured = configured;
      recovery_ready = configured && some_artifact required && all is_there required;
      required_artifacts = required;
      optional_artifacts = select (λ (a : Artifact). not a.is_required) artifacts;
    }

-- `_remote_node_manifest`
unfoldable pub remote_node_manifest : String → CollectedNode → Index → Result Node
unfolding strip collected_artifacts missing_artifacts
remote_node_manifest role node file_entries =
    let required_paths =
      required_or_first (non_empty node.required_paths) (non_empty node.requested_paths) in
    let seen = map (λ (f : CollectedFile). f.path) node.files in
    and_then (collected_artifacts file_entries required_paths 0 [] node.files) λ collected.
      and_then (missing_artifacts seen required_paths (list_length collected))
        λ missing. ok (remote_node role node (collected ++ missing))
