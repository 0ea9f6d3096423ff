-- ===== src/Recovery/Bundle.antt =====
-- `validate_backup_bundle` of scripts/node_recovery.py and what it calls: every file of the bundle
-- against the backup manifest, and the node manifest against both.
use Prim.Native.Char.{code}
use xray_routing_panel.Prelude.{
  ℕ, String, Bool, false, not, ◌&&◌, Option, none, some, List, [], ◌∷◌, ◌++◌, ◌==◌, if◌then◌else◌,
  str_eq, is_empty, str_len, is_some, Result, ok, err, value_error,
}
use xray_routing_panel.Prelude.Returns.{and_then}
use xray_routing_panel.Recovery.Paths.{safe_relative}

module _ {A : Type 0} where
  -- A dictionary as an association list.
  abbrev pub lookup : String → List (String × A) → Option A
  lookup key [] = none
  lookup key ((k, a) ∷ rows) = if str_eq k key then some a else lookup key rows

-- A member of the archive; what is not a regular file has no content.
pub record Member : Type 0 where
  pub name : String
  pub content : Option String

-- An entry of `backup-manifest.json`; `size` is absent if it is not a number.
pub record FileEntry : Type 0 where
  pub archive_path : String
  pub source_path : String
  pub size : Option ℕ
  pub sha256 : String

-- An artifact of the node manifest; of its status only `status == "ok"` is read.
pub record Artifact : Type 0 where
  pub artifact_name : String
  pub archive_path : String
  pub restore_path : String
  pub is_ok : Bool
  pub is_required : Bool

pub record Node : Type 0 where
  pub role : String
  pub is_configured : Bool
  pub recovery_ready : Bool
  pub required_artifacts : List Artifact
  pub optional_artifacts : List Artifact

pub record BackupManifest : Type 0 where
  pub version : ℕ
  pub files : List FileEntry

pub record NodeManifest : Type 0 where
  pub version : ℕ
  pub purpose : String
  pub shared_required : List Artifact
  pub shared_optional : List Artifact
  pub nodes : List Node
  pub xray_image : String

abbrev pub Index : Type 0
Index = List (String × FileEntry)

abbrev pub Members : Type 0
Members = List (String × Option String)

-- `name.rstrip("/")`
abbrev rstrip_slash : String → String
rstrip_slash String.[] = String.[]
rstrip_slash (String.◌∷◌ c s) =
    let rest = rstrip_slash s in
    if code c == b'/' && is_empty rest then String.[] else String.◌∷◌ c rest

unfoldable pub validate_tar_names : Members → List Member → Result Members
unfolding safe_relative
validate_tar_names seen [] = ok seen
validate_tar_names seen (m ∷ ms) = and_then (safe_relative (rstrip_slash m.name)) λ name.
    if is_some (lookup name seen)
    then err (value_error "duplicate archive member")
    else validate_tar_names ((name, m.content) ∷ seen) ms

unfoldable pub file_entry_index : Index → List FileEntry → Result Index
unfolding safe_relative
file_entry_index indexed [] = ok indexed
file_entry_index indexed (entry ∷ entries) =
    if is_empty entry.archive_path
    then err (value_error "backup manifest file entry is missing archivePath")
    else and_then (safe_relative entry.archive_path) λ archive_path.
      if is_some (lookup archive_path indexed)
      then err (value_error "duplicate archive path in backup manifest")
      else file_entry_index ((archive_path, entry) ∷ indexed) entries

-- `members.get(name)` that is a regular file
unfoldable pub read_member : Members → String → Result String
read_member members name = elim (lookup name members) [
  | none ↦ err (value_error "backup archive is missing a file")
  | some none ↦ err (value_error "backup archive is missing a file")
  | some (some content) ↦ ok content
]

-- `expected_size != len(data)`, with the `ValueError` of a size that is not a number
abbrev has_size : Option ℕ → ℕ → Bool
has_size none n = false
has_size (some m) n = m == n

-- `sha256` is `hashlib.sha256(data).hexdigest()`; the bytes of a file are a text, one character each.
module _ (sha256 : String → String) where
  abbrev pub is_intact : FileEntry → String → Bool
  is_intact entry content =
      has_size entry.size (str_len content) && str_eq entry.sha256 (sha256 content)

  -- the loop over the files of the backup manifest
  unfoldable pub check_files : Members → Index → Result (Unit {0})
  unfolding read_member
  check_files members [] = ok tt
  check_files members ((archive_path, entry) ∷ index) =
      let rest = check_files members index in
      and_then (read_member members archive_path) λ content.
        if is_intact entry content then rest else err (value_error "backup checksum mismatch")

unfoldable pub validate_artifact : Index → Artifact → Result (Unit {0})
unfolding safe_relative
validate_artifact index artifact =
    if is_empty artifact.archive_path
    then ok tt
    else and_then (safe_relative artifact.archive_path) λ archive_path.
      if not (is_some (lookup archive_path index))
      then err (value_error "node recovery artifact is not covered by backup manifest")
      else if is_empty artifact.restore_path
      then err (value_error "node recovery artifact has no restore path")
      else and_then (safe_relative artifact.restore_path) λ restore_path. ok tt

unfoldable pub validate_artifacts : Index → List Artifact → Result (Unit {0})
unfolding validate_artifact
validate_artifacts index [] = ok tt
validate_artifacts index (artifact ∷ rest) =
    let others = validate_artifacts index rest in
    and_then (validate_artifact index artifact) λ _. others

abbrev pub artifacts_of : List Node → List Artifact
artifacts_of [] = []
artifacts_of (node ∷ nodes) =
    node.required_artifacts ++ node.optional_artifacts ++ artifacts_of nodes

unfoldable pub validate_node_artifacts : Index → NodeManifest → Result (Unit {0})
unfolding validate_artifacts
validate_node_artifacts index manifest =
    validate_artifacts index
      (manifest.shared_required ++ manifest.shared_optional ++ artifacts_of manifest.nodes)

abbrev node_manifest_name : String
node_manifest_name = "node-recovery-manifest.json"

-- What a bundle that passed says.
pub record Validated : Type 0 where
  pub members : Members
  pub index : Index
  pub node_manifest : NodeManifest

-- `json.load`, and the test that it gave an object of the form
unfoldable pub required : {A : Type 0} → Option A → Result A
required none = err (value_error "malformed JSON")
required (some a) = ok a

-- `if b: raise ValueError(message)`
unfoldable pub refuse_if : Bool → String → Result (Unit {0})
refuse_if b message = if b then err (value_error message) else ok tt

-- The two JSON files are read by the parameters: `none` for a text that is not an object of the form.
module _ (sha256 : String → String) (read_backup : String → Option BackupManifest)
    (read_node : String → Option NodeManifest) where
  unfoldable pub validate_backup_bundle : List Member → Result Validated
  unfolding required refuse_if validate_tar_names read_member file_entry_index check_files
      validate_node_artifacts
  validate_backup_bundle archive = and_then (validate_tar_names [] archive) λ members.
      and_then (read_member members "backup-manifest.json") λ backup_text.
        and_then (required (read_backup backup_text)) λ backup.
          and_then
            (refuse_if (not (backup.version == 1)) "unsupported or malformed backup-manifest.json")
            λ _. and_then (file_entry_index [] backup.files) λ index.
              and_then (check_files sha256 members index) λ _.
                and_then (read_member members node_manifest_name) λ node_text.
                  and_then (required (read_node node_text)) λ manifest.
                    and_then
                      (refuse_if
                        (not (manifest.version == 1 && str_eq manifest.purpose "node-recovery"))
                        "unsupported or malformed node-recovery-manifest.json")
                      λ _.
                        and_then
                          (refuse_if (not (is_some (lookup node_manifest_name index)))
                            "backup manifest does not cover node-recovery-manifest.json")
                          λ _. and_then (validate_node_artifacts index manifest) λ _.
                            ok (record {
                              members = members;
                              index = index;
                              node_manifest = manifest;
                            })
