-- ===== src/Recovery/Collected/Backed.antt =====
-- A collected node that is ready has its files in the backup.
use xray_routing_panel.Prelude.{
  ℕ, suc, String, ◌≡◌, refl, sym, ◌∙◌, subst, inl, inr, true, false, ◌||◌, List, [], ◌∷◌, ◌++◌, map,
  arith, Bool-cases, All, all, select, str_append, is_empty, is_some, ok,
}
use xray_routing_panel.Prelude.Apart.{All-select, All-append}
use xray_routing_panel.Prelude.Returns.{ok_injective, Returns, Returns-and_then, Returns-ok}
use xray_routing_panel.Recovery.Bundle.{Artifact, Index, lookup}
use xray_routing_panel.Recovery.Collected.{
  CollectedFile, CollectedNode, artifact_from_collection, collected_artifacts, missing_artifacts,
  remote_node_manifest, restore_path_of, staged_archive_path, fallback_restore_path, is_there,
  member_of, remote_node, required_or_first, non_empty, list_length,
}
use xray_routing_panel.Recovery.Local.Held.{IsHeld, IsNormal, lookup-IsNormal, IsBacked}

staged-lookup :
    (staged_path archive_path : String) (index : Index)
    → All IsNormal index
    → staged_archive_path staged_path ≡ ok archive_path
    → is_empty staged_path ≡ false
    → is_some (lookup (str_append "nodes/" staged_path) index) ≡ true
    → is_some (lookup archive_path index) ≡ true
unfolding staged_archive_path
staged-lookup staged_path archive_path index h s e k =
    subst (λ p. is_some (lookup p index) ≡ true)
      (ok_injective
        (sym (lookup-IsNormal index (str_append "nodes/" staged_path) h k) ∙ sym (rw e refl) ∙ s))
      k

artifact_from_collection-IsHeld :
    (item : CollectedFile) (index : Index) (n : ℕ) (required : List String)
    → All IsNormal index
    → Returns (IsHeld index) (artifact_from_collection item index n required)
unfolding artifact_from_collection
artifact_from_collection-IsHeld item index n required h =
    Returns-and_then (restore_path_of item.restore_path item.path) _ λ restore_path _.
      Returns-and_then (staged_archive_path item.staged_path) _ λ archive_path staged.
        Returns-ok _ (λ e.
          staged-lookup item.staged_path archive_path index h staged (ground (arith, e))
            (ground (arith, e)))

cons-All :
    (index : Index) (a : Artifact) (xs : List Artifact)
    → IsHeld index a
    → All (IsHeld index) xs
    → All (IsHeld index) (a ∷ xs)
cons-All index a xs h k = (h, k)

collected_artifacts-All :
    (index : Index) (required : List String) (n : ℕ) (seen : List String)
    (items : List CollectedFile)
    → All IsNormal index
    → Returns (All (IsHeld index)) (collected_artifacts index required n seen items)
unfolding collected_artifacts
collected_artifacts-All index required n seen [] h = Returns-ok [] tt
collected_artifacts-All index required n seen (item ∷ items) h =
    elim (Bool-cases (is_empty item.path || member_of item.path seen)) [
      | inl e ↦ rw e (collected_artifacts-All index required (suc n) seen items h)
      | inr e ↦ rw e (
          Returns-and_then (artifact_from_collection item index n required) _ λ a held.
            Returns-and_then (collected_artifacts index required (suc n) (item.path ∷ seen) items) _
              λ rest others. Returns-ok (a ∷ rest) (
                cons-All index a rest
                  ((artifact_from_collection-IsHeld item index n required h).at a held)
                  ((collected_artifacts-All index required (suc n) (item.path ∷ seen) items h).at
                    rest others)))
    ]

missing_artifacts-All :
    (index : Index) (seen paths : List String) (n : ℕ)
    → Returns (All (IsHeld index)) (missing_artifacts seen paths n)
unfolding missing_artifacts
missing_artifacts-All index seen [] n = Returns-ok [] tt
missing_artifacts-All index seen (path ∷ paths) n = elim (Bool-cases (member_of path seen)) [
  | inl e ↦ rw e (missing_artifacts-All index seen paths n)
  | inr e ↦ rw e (
      Returns-and_then (fallback_restore_path path) _ λ restore_path _.
        Returns-and_then (missing_artifacts seen paths (suc n)) _ λ rest others. Returns-ok _ (
          (λ k. absurd (ground (arith, k))),
          (missing_artifacts-All index seen paths (suc n)).at rest others,
        ))
]

-- Where each of the artifacts is there and is held, each is in the archive.
there-lookup :
    (index : Index) (xs : List Artifact)
    → All (IsHeld index) xs
    → all is_there xs ≡ true
    → All (λ a. is_some (lookup a.archive_path index) ≡ true) xs
there-lookup index [] h e = tt
there-lookup index (a ∷ xs) h e =
    (h.0 (ground (arith, e)), there-lookup index xs h.1 (ground (arith, e)))

remote_node-IsBacked :
    (role : String) (index : Index) (node : CollectedNode) (artifacts : List Artifact)
    → All (IsHeld index) artifacts
    → IsBacked index (remote_node role node artifacts)
remote_node-IsBacked role index node artifacts h e =
    there-lookup index (select (λ (a : Artifact). a.is_required) artifacts)
      (All-select (IsHeld index) (λ (a : Artifact). a.is_required) artifacts h) (ground (arith, e))

pub remote_node_manifest-IsBacked :
    (role : String) (node : CollectedNode) (index : Index)
    → All IsNormal index
    → Returns (IsBacked index) (remote_node_manifest role node index)
unfolding remote_node_manifest
remote_node_manifest-IsBacked role node index h =
    let required =
      required_or_first (non_empty node.required_paths) (non_empty node.requested_paths) in
    let seen = map (λ (f : CollectedFile). f.path) node.files in
    Returns-and_then (collected_artifacts index required 0 [] node.files) _ λ collected held.
      Returns-and_then (missing_artifacts seen required (list_length collected)) _ λ missing rest.
        Returns-ok (remote_node role node (collected ++ missing)) (
          remote_node-IsBacked role index node (collected ++ missing) (
            All-append (IsHeld index) collected missing
              ((collected_artifacts-All index required 0 [] node.files h).at collected held)
              ((missing_artifacts-All index seen required (list_length collected)).at missing
                rest)))
