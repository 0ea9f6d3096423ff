-- ===== src/Recovery/Prepare.antt =====
-- `prepare_node` of scripts/node_recovery.py: the folder of a replacement node from a bundle.
pub mod Verified
use xray_routing_panel.Prelude.{
  ℕ, String, Bool, true, false, not, ◌&&◌, ◌||◌, Option, none, some, List, [], ◌∷◌, ◌++◌,
  if◌then◌else◌, any, select, find, str_eq, is_empty, is_some, str_append, or_text, Result, ok, err,
  Error, value_error, runtime_error, Exec, pure, lift, raise_if, ◌>>=◌, ◌>>◌,
}
use xray_routing_panel.Recovery.Paths.{safe_relative}
use xray_routing_panel.Recovery.Bundle.{
  Member, Artifact, Node, BackupManifest, NodeManifest, Members, Validated, lookup, read_member,
  validate_backup_bundle,
}

-- The files written below the output directory, by their path there.
abbrev pub Output : Type 0
Output = List (String × String)

-- What is found on disk: if the output is a directory and empty, what stands in it already, which
-- paths are directories, and which ones a symbolic link takes out of it.
pub record Disk : Type 0 where
  pub output_is_other : Bool
  pub output_is_empty : Bool
  pub is_present : String → Bool
  pub is_directory : String → Bool
  pub leads_out : String → Bool

-- `_write_file`
unfoldable pub write_file : Disk → Bool → String → String → Exec Output (Unit {0})
write_file disk force path content files =
    if (is_some (lookup path files) || disk.is_present path) && not force
    then (err (runtime_error "restore target already exists"), files)
    else if disk.is_directory path
    then (err (runtime_error "restore target is a directory"), files)
    else (ok tt, (path, content) ∷ select (λ f. not (str_eq f.0 path)) files)

-- the body of the loop for an artifact that is there; gives the path that it wrote
unfoldable pub restore_artifact : Disk → Bool → Members → Artifact → Exec Output String
unfolding safe_relative read_member write_file
restore_artifact disk force members artifact = do
  restore_path ← lift (safe_relative artifact.restore_path)
  raise_if (disk.leads_out restore_path) (value_error "restore path escapes output directory")
  archive_path ← lift (safe_relative artifact.archive_path)
  content ← lift (read_member members archive_path)
  write_file disk force restore_path content
  pure restore_path

abbrev is_restored : Artifact → Bool
is_restored artifact = artifact.is_ok && not (is_empty artifact.archive_path)

unfoldable pub restore_artifacts : Disk → Bool → Members → List Artifact → Exec Output (List String)
unfolding restore_artifact
restore_artifacts disk force members [] files = (ok [], files)
restore_artifacts disk force members (artifact ∷ rest) files =
    let skip = restore_artifacts disk force members rest files in
    let restore =
      (do
        path ← restore_artifact disk force members artifact
        paths ← restore_artifacts disk force members rest
        pure (path ∷ paths))
        files in
    if is_restored artifact then restore else skip

-- `_node_compose`
unfoldable pub node_compose : String → String → String
node_compose role image = str_append "services:\n  xray:\n    image: " (
    str_append image (
      str_append "\n    container_name: " (
        str_append
          (if str_eq role "normal-data-plane" then "xray-recovered-normal" else "xray-recovered-ai")
          "\n    restart: unless-stopped\n    network_mode: host\n    user: \"0:0\"\n    ulimits:\n      nofile:\n        soft: 65535\n        hard: 65535\n    command: [\"run\", \"-c\", \"/etc/xray/config.json\"]\n    volumes:\n      - ./app/xray/runtime/config.json:/etc/xray/config.json:ro\n      - ./app/xray/logs:/var/log/xray\n    healthcheck:\n      test: [\"CMD\", \"/usr/local/bin/xray\", \"run\", \"-test\", \"-config\", \"/etc/xray/config.json\"]\n      interval: 30s\n      timeout: 10s\n      retries: 3\n")))

-- `_node_for_role`
unfoldable pub node_for_role : String → List Node → Result Node
node_for_role role [] = err (value_error "node role is not present in recovery manifest")
node_for_role role (node ∷ nodes) =
    if str_eq node.role role then ok node else node_for_role role nodes

abbrev default_xray_image : String
default_xray_image = "ghcr.io/xtls/xray-core:26.5.3"

-- The guards before anything is written.
unfoldable pub check_output : Disk → Bool → Bool → Node → Result (Unit {0})
check_output disk force allow_incomplete node =
    if not node.recovery_ready && not allow_incomplete
    then err (value_error "recovery is not ready")
    else if disk.output_is_other
    then err (runtime_error "restore output is not a directory")
    else if not disk.output_is_empty && not force
    then err (runtime_error "restore output is not empty")
    else ok tt

-- `summary` is the JSON text of node-recovery.json for the paths that were written.
module _ (sha256 : String → String) (read_backup : String → Option BackupManifest)
    (read_node : String → Option NodeManifest) (summary : List String → String) where
  unfoldable pub prepare_validated :
      Disk → String → Bool → Bool → Validated → Exec Output (List String)
  unfolding node_for_role check_output restore_artifacts write_file node_compose
  prepare_validated disk role force allow_incomplete v = do
    node ← lift (node_for_role role v.node_manifest.nodes)
    lift (check_output disk force allow_incomplete node)
    written ←
        restore_artifacts disk force v.members (node.required_artifacts ++ node.optional_artifacts)
    write_file disk force "docker-compose.node.yml"
        (node_compose role (or_text v.node_manifest.xray_image default_xray_image))
    write_file disk force "node-recovery.json" (summary written)
    pure written

  unfoldable pub prepare_node :
      Disk → List Member → String → Bool → Bool → Exec Output (List String)
  unfolding validate_backup_bundle prepare_validated
  prepare_node disk archive role force allow_incomplete = do
    raise_if (not (str_eq role "normal-data-plane" || str_eq role "ai-data-plane"))
        (value_error "unsupported recoverable node role")
    validated ← lift (validate_backup_bundle sha256 read_backup read_node archive)
    prepare_validated disk role force allow_incomplete validated
