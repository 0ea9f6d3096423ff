-- ===== src/Recovery/Prepare/Verified.antt =====
-- What `prepare_node` writes, whatever fails on the way.
use xray_routing_panel.Prelude.{
  String, ◌≡◌, refl, sym, ap, ◌∙◌, subst, ◌⊎◌, inl, inr, Bool, true, false, not, ◌&&◌, ◌||◌, Option,
  List, [], ◌∷◌, ◌++◌, arith, if◌then◌else◌, Bool-cases, All, any, str_eq, ◌==◌, is_some, Result,
  ok, err, lift, raise_if, pure, ◌>>=◌, or_text, value_error, or_text, eq_iff,
}
use xray_routing_panel.Prelude.Apart.{All-select, All-of_append}
use xray_routing_panel.Prelude.Keeps.{Keeps, Keeps-bind, Keeps-lift, Keeps-pure, Keeps-raise_if}
use xray_routing_panel.Prelude.Returns.{
  and_then, ok_injective, ok_not_err, Returns, and_then-ok, Returns-and_then, Returns-ok,
}
use xray_routing_panel.Recovery.Paths.{safe_relative}
use xray_routing_panel.Recovery.Paths.Safe.{IsContained, safe_relative-IsContained}
use xray_routing_panel.Recovery.Bundle.{
  Member, FileEntry, Artifact, Node, BackupManifest, NodeManifest, Index, Members, Validated,
  lookup, is_intact, check_files, read_member, validate_artifact, validate_artifacts, artifacts_of,
  validate_node_artifacts, validate_backup_bundle, file_entry_index, validate_tar_names, required,
  refuse_if,
}
use xray_routing_panel.Recovery.Prepare.{
  Output, Disk, write_file, is_restored, restore_artifact, restore_artifacts, node_for_role,
  check_output, node_compose, prepare_validated, prepare_node,
}

str_eq→≡ : (a b : String) → str_eq a b ≡ true → a ≡ b
str_eq→≡ a b h = ground (arith, eq_iff a b, h)

-- One of the two files that `prepare_node` makes itself.
abbrev pub is_made : String → Bool
is_made path = str_eq path "docker-compose.node.yml" || str_eq path "node-recovery.json"

module _ (sha256 : String → String) where
  -- A file that is restored: its path stays in the output directory, and its content has the size and
  -- the checksum of an entry of the backup manifest.
  unfoldable pub IsVerified : Index → String × String → Type 0
  unfolding IsContained
  IsVerified index (path, content) =
      (is_made path ≡ true)
      ⊎ IsContained path × (any (λ e. is_intact sha256 e.1 content) index ≡ true)

  abbrev pub AllVerified : Index → Output → Type 0
  AllVerified index files = All (IsVerified index) files

  write_file-Keeps :
      (index : Index) (disk : Disk) (force : Bool) (path content : String)
      → IsVerified index (path, content)
      → Keeps (AllVerified index) (write_file disk force path content)
  unfolding write_file
  write_file-Keeps index disk force path content good = record {
    at = λ files h.
        elim (Bool-cases ((is_some (lookup path files) || disk.is_present path) && not force)) [
          | inl e ↦ rw e h
          | inr e ↦ rw e (elim (Bool-cases (disk.is_directory path)) [
            | inl d ↦ rw d h
            | inr d ↦
                rw d (good, All-select (IsVerified index) (λ f. not (str_eq f.0 path)) files h)
          ])
        ];
  }

  found_later :
      (p path : String) (entry : FileEntry) (index : Index)
      → str_eq p path ≡ false
      → is_some (lookup path ((p, entry) ∷ index)) ≡ true
      → is_some (lookup path index) ≡ true
  found_later p path entry index e i = ground (arith, e, i)

  check_step :
      (r : Result String) (entry : FileEntry) (rest : Result (Unit {0}))
      → and_then r (λ content.
        if is_intact sha256 entry content
        then rest
        else err (value_error "backup checksum mismatch"))
        ≡ ok tt
      → ((content : String) → r ≡ ok content → is_intact sha256 entry content ≡ true)
        × (rest ≡ ok tt)
  check_step (err e) entry rest h = absurd (ok_not_err h)
  check_step (ok c) entry rest h = elim (Bool-cases (is_intact sha256 entry c)) [
    | inl e ↦ (
      λ content k. subst (λ x. is_intact sha256 entry x ≡ true) (ok_injective k) e,
      (sym (rw e refl) ∙ h),
    )
    | inr e ↦ absurd (ground (arith, h, e))
  ]

  -- Once every file was checked, what is read of an entry's path is intact.
  check_files-intact :
      (members : Members) (index : Index) (path content : String)
      → check_files sha256 members index ≡ ok tt
      → is_some (lookup path index) ≡ true
      → read_member members path ≡ ok content
      → any (λ e. is_intact sha256 e.1 content) index ≡ true
  unfolding check_files
  check_files-intact members [] path content c i r = absurd (ground (arith, i))
  check_files-intact members ((p, entry) ∷ index) path content c i r =
      let (head_intact, rest) =
        check_step (read_member members p) entry (check_files sha256 members index) c in
      elim (Bool-cases (str_eq p path)) [
        | inl e ↦
            ground (arith, head_intact content (ap (read_member members) (str_eq→≡ p path e) ∙ r))
        | inr e ↦ ground (
          arith,
          check_files-intact members index path content rest (found_later p path entry index e i) r,
        )
      ]

-- An artifact that passed and is there has its archive path in the index.
validate_artifact-covered :
    (index : Index) (artifact : Artifact) (archive_path : String)
    → validate_artifact index artifact ≡ ok tt
    → is_restored artifact ≡ true
    → safe_relative artifact.archive_path ≡ ok archive_path
    → is_some (lookup archive_path index) ≡ true
unfolding validate_artifact
validate_artifact-covered index artifact archive_path v r s = ground (arith, v, r, s)

AllValid : Index → List Artifact → Type 0
AllValid index = All (λ a. validate_artifact index a ≡ ok tt)

validate_artifacts-All :
    (index : Index) (xs : List Artifact) → validate_artifacts index xs ≡ ok tt → AllValid index xs
unfolding validate_artifacts AllValid
validate_artifacts-All index [] h = tt
validate_artifacts-All index (a ∷ xs) h =
    let (u, first, rest) =
      and_then-ok (validate_artifact index a) (λ _. validate_artifacts index xs) h in
    (first, validate_artifacts-All index xs rest)

module _ (sha256 : String → String) (members : Members) (index : Index)
    (checked : check_files sha256 members index ≡ ok tt) where
  restore_artifact-Keeps :
      (disk : Disk) (force : Bool) (artifact : Artifact)
      → validate_artifact index artifact ≡ ok tt
      → is_restored artifact ≡ true
      → Keeps (AllVerified sha256 index) (restore_artifact disk force members artifact)
  unfolding restore_artifact IsVerified
  restore_artifact-Keeps disk force artifact valid there =
      Keeps-lift (safe_relative artifact.restore_path) _ λ restore_path safe.
        Keeps-bind
          (raise_if (disk.leads_out restore_path)
            (value_error "restore path escapes output directory"))
          _ (Keeps-raise_if _ _)
          λ _. Keeps-lift (safe_relative artifact.archive_path) _ λ archive_path named.
            Keeps-lift (read_member members archive_path) _ λ content read.
              Keeps-bind (write_file disk force restore_path content) _
                (write_file-Keeps sha256 index disk force restore_path content (
                  inr (
                    safe_relative-IsContained artifact.restore_path restore_path safe,
                    check_files-intact sha256 members index archive_path content checked
                        (validate_artifact-covered index artifact archive_path valid there named)
                        read,
                  )))
                (λ _. Keeps-pure restore_path)

  restore_artifacts-Keeps :
      (disk : Disk) (force : Bool) (xs : List Artifact)
      → AllValid index xs
      → Keeps (AllVerified sha256 index) (restore_artifacts disk force members xs)
  unfolding restore_artifacts AllValid
  restore_artifacts-Keeps disk force [] valid = record { at = λ files h. h }
  restore_artifacts-Keeps disk force (a ∷ xs) valid = elim (Bool-cases (is_restored a)) [
    | inl e ↦ record {
      at = λ files h. rw e (
          (Keeps-bind (restore_artifact disk force members a)
              (λ path. restore_artifacts disk force members xs >>= λ paths. pure (path ∷ paths))
              (restore_artifact-Keeps disk force a valid.0 e)
              (λ path.
                Keeps-bind (restore_artifacts disk force members xs) (λ paths. pure (path ∷ paths))
                  (restore_artifacts-Keeps disk force xs valid.1)
                  (λ paths. Keeps-pure (path ∷ paths)))).at
            files h);
    }
    | inr e ↦ record {
      at = λ files h. rw e ((restore_artifacts-Keeps disk force xs valid.1).at files h);
    }
  ]

found :
    (n node : Node) (role : String) (nodes : List Node)
    → node_for_role role (n ∷ nodes) ≡ ok node
    → str_eq n.role role ≡ true
    → n ≡ node
unfolding node_for_role
found n node role nodes h e = ok_injective (ground (arith, h, e))

node_for_role-AllValid :
    (index : Index) (role : String) (nodes : List Node) (node : Node)
    → AllValid index (artifacts_of nodes)
    → node_for_role role nodes ≡ ok node
    → AllValid index (node.required_artifacts ++ node.optional_artifacts)
unfolding node_for_role AllValid
node_for_role-AllValid index role [] node valid h = absurd (ok_not_err h)
node_for_role-AllValid index role (n ∷ nodes) node valid h =
    let (own, rest) =
      All-of_append (λ a. validate_artifact index a ≡ ok tt)
        (n.required_artifacts ++ n.optional_artifacts) (artifacts_of nodes) valid in
    elim (Bool-cases (str_eq n.role role)) [
      | inl e ↦
          subst (λ (x : Node). AllValid index (x.required_artifacts ++ x.optional_artifacts))
            (found n node role nodes h e) own
      | inr e ↦ node_for_role-AllValid index role nodes node rest (ground (arith, h, e))
    ]

module _ (sha256 : String → String) (read_backup : String → Option BackupManifest)
    (read_node : String → Option NodeManifest) where
  -- What a bundle has that passed.
  IsPassed : Validated → Type 0
  IsPassed v =
      (check_files sha256 v.members v.index ≡ ok tt)
      × AllValid v.index (artifacts_of v.node_manifest.nodes)

  nodes-AllValid :
      (index : Index) (m : NodeManifest)
      → validate_node_artifacts index m ≡ ok tt
      → AllValid index (artifacts_of m.nodes)
  unfolding validate_node_artifacts AllValid
  nodes-AllValid index m h =
      (All-of_append (λ a. validate_artifact index a ≡ ok tt)
        (m.shared_required ++ m.shared_optional) (artifacts_of m.nodes)
        (validate_artifacts-All index
          (m.shared_required ++ m.shared_optional ++ artifacts_of m.nodes) h)).1

  bundle-Returns :
      (archive : List Member)
      → Returns IsPassed (validate_backup_bundle sha256 read_backup read_node archive)
  unfolding validate_backup_bundle IsPassed
  bundle-Returns archive = Returns-and_then (validate_tar_names [] archive) _ λ members _.
      Returns-and_then (read_member members "backup-manifest.json") _ λ backup_text _.
        Returns-and_then (required (read_backup backup_text)) _ λ backup _.
          Returns-and_then
            (refuse_if (not (backup.version == 1)) "unsupported or malformed backup-manifest.json")
            _
            λ _ _. Returns-and_then (file_entry_index [] backup.files) _ λ index _.
              Returns-and_then (check_files sha256 members index) _ λ u checked.
                Returns-and_then (read_member members "node-recovery-manifest.json") _
                  λ node_text _. Returns-and_then (required (read_node node_text)) _ λ m _.
                    Returns-and_then
                      (refuse_if (not (m.version == 1 && str_eq m.purpose "node-recovery"))
                        "unsupported or malformed node-recovery-manifest.json")
                      _
                      λ _ _.
                        Returns-and_then
                          (refuse_if (not (is_some (lookup "node-recovery-manifest.json" index)))
                            "backup manifest does not cover node-recovery-manifest.json")
                          _
                          λ _ _. Returns-and_then (validate_node_artifacts index m) _ λ u' valid.
                            Returns-ok
                              (record { members = members; index = index; node_manifest = m })
                              (checked, nodes-AllValid index m valid)

  passed :
      (archive : List Member) (v : Validated)
      → validate_backup_bundle sha256 read_backup read_node archive ≡ ok v
      → (check_files sha256 v.members v.index ≡ ok tt)
        × AllValid v.index (artifacts_of v.node_manifest.nodes)
  unfolding IsPassed
  passed archive v h = (bundle-Returns archive).at v h

  module _ (summary : List String → String) where
    made_file-IsVerified :
        (index : Index) (path content : String)
        → is_made path ≡ true
        → IsVerified sha256 index (path, content)
    unfolding IsVerified
    made_file-IsVerified index path content h = inl h

    prepare_validated-Keeps :
        (disk : Disk) (role : String) (force allow_incomplete : Bool) (v : Validated)
        → check_files sha256 v.members v.index ≡ ok tt
        → AllValid v.index (artifacts_of v.node_manifest.nodes)
        → Keeps (AllVerified sha256 v.index) (
            prepare_validated sha256 read_backup read_node summary disk role force allow_incomplete
              v)
    unfolding prepare_validated
    prepare_validated-Keeps disk role force allow_incomplete v checked valid =
        Keeps-lift (node_for_role role v.node_manifest.nodes) _ λ node found.
          Keeps-lift (check_output disk force allow_incomplete node) _ λ _ _.
            Keeps-bind
              (restore_artifacts disk force v.members
                (node.required_artifacts ++ node.optional_artifacts))
              _
              (restore_artifacts-Keeps sha256 v.members v.index checked disk force
                (node.required_artifacts ++ node.optional_artifacts)
                (node_for_role-AllValid v.index role v.node_manifest.nodes node valid found))
              λ written.
                Keeps-bind
                  (write_file disk force "docker-compose.node.yml" (
                    node_compose role
                      (or_text v.node_manifest.xray_image "ghcr.io/xtls/xray-core:26.5.3")))
                  _
                  (write_file-Keeps sha256 v.index disk force _ _
                    (made_file-IsVerified v.index _ _ refl))
                  λ _.
                    Keeps-bind (write_file disk force "node-recovery.json" (summary written)) _
                      (write_file-Keeps sha256 v.index disk force _ _
                        (made_file-IsVerified v.index _ _ refl))
                      λ _. Keeps-pure written

    -- What is there after a call: nothing, or the bundle passed and every file is verified.
    abbrev pub IsPrepared : List Member → Output → Type 0
    IsPrepared archive files =
        (files ≡ [])
        ⊎ ((v : Validated) × (validate_backup_bundle sha256 read_backup read_node archive ≡ ok v)
            × AllVerified sha256 v.index files)

    lift-IsPrepared :
        (disk : Disk) (archive : List Member) (role : String) (force allow_incomplete : Bool)
        (r : Result Validated)
        → validate_backup_bundle sha256 read_backup read_node archive ≡ r
        → IsPrepared archive
            ((lift r
                >>= prepare_validated sha256 read_backup read_node summary disk role force
                    allow_incomplete)
              []).1
    lift-IsPrepared disk archive role force allow_incomplete (err e) h = inl refl
    lift-IsPrepared disk archive role force allow_incomplete (ok v) h =
        let (checked, valid) = passed archive v h in
        inr (
          v,
          h,
          (prepare_validated-Keeps disk role force allow_incomplete v checked valid).at [] tt,
        )

    -- `prepare_node` in an output directory without files of its own, whether it returns or raises,
    -- and also with `force` and `allow_incomplete`: either no file was written, or the bundle passed
    -- the validation, and each file written is one of the two that the call makes itself, or its path
    -- stays below the output directory and its content has the size and the checksum of an entry of the
    -- backup manifest.
    pub prepare_node-IsPrepared :
        (disk : Disk) (archive : List Member) (role : String) (force allow_incomplete : Bool)
        → IsPrepared archive
            (prepare_node sha256 read_backup read_node summary disk archive role force
              allow_incomplete []).1
    unfolding prepare_node
    prepare_node-IsPrepared disk archive role force allow_incomplete =
        elim (Bool-cases (not (str_eq role "normal-data-plane" || str_eq role "ai-data-plane"))) [
          | inl e ↦ rw e (inl refl)
          | inr e ↦ rw e (
              lift-IsPrepared disk archive role force allow_incomplete
                (validate_backup_bundle sha256 read_backup read_node archive) refl)
        ]
