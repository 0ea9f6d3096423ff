-- ===== src/Recovery/Local/Held.antt =====
-- What was found in the index of a backup is in it.
use xray_routing_panel.Prelude.{
  String, ◌≡◌, refl, sym, subst, inl, inr, Bool, true, false, Option, none, some, List, [], ◌∷◌,
  arith, eq_iff, str_eq_refl, Bool-cases, All, str_eq, is_empty, is_some, ok,
}
use xray_routing_panel.Prelude.Returns.{Returns, Returns-and_then, Returns-ok, Returns-if}
use xray_routing_panel.Recovery.Paths.{safe_relative}
use xray_routing_panel.Recovery.Paths.Normal.{safe_relative-safe_relative}
use xray_routing_panel.Recovery.Bundle.{FileEntry, Artifact, Node, Index, lookup, file_entry_index}
use xray_routing_panel.Recovery.Local.{
  find_least, least, text_before, artifact_found, is_local_file, local_artifact, local_runtime_node,
}

-- An artifact that counts as collected is in the archive.
abbrev pub IsHeld : Index → Artifact → Type 0
IsHeld index a = a.is_ok ≡ true → is_some (lookup a.archive_path index) ≡ true

-- The keys of the index are paths that `_safe_relative` leaves as they are.
abbrev pub IsNormal : String × FileEntry → Type 0
IsNormal row = safe_relative row.0 ≡ ok row.0

pub file_entry_index-All :
    (index : Index) (entries : List FileEntry)
    → All IsNormal index
    → Returns (All IsNormal) (file_entry_index index entries)
unfolding file_entry_index
file_entry_index-All index [] h = Returns-ok index h
file_entry_index-All index (entry ∷ entries) h = Returns-if (is_empty entry.archive_path) _ _ λ _.
    Returns-and_then (safe_relative entry.archive_path) _ λ path safe.
      Returns-if (is_some (lookup path index)) _ _ λ _.
        file_entry_index-All ((path, entry) ∷ index) entries
          (safe_relative-safe_relative entry.archive_path path safe, h)

pub lookup-IsNormal :
    (index : Index) (path : String)
    → All IsNormal index
    → is_some (lookup path index) ≡ true
    → safe_relative path ≡ ok path
lookup-IsNormal [] path h e = absurd (ground (arith, e))
lookup-IsNormal ((k, entry) ∷ index) path h e = elim (Bool-cases (str_eq k path)) [
  | inl q ↦ subst (λ p. safe_relative p ≡ ok p) (ground (arith, eq_iff k path, q)) h.0
  | inr q ↦ lookup-IsNormal index path h.1 (ground (arith, q, e))
]

-- The row that was found, if any, has its path in the index.
abbrev InIndex : Index → Option (String × FileEntry) → Type 0
InIndex index none = Unit
InIndex index (some row) = is_some (lookup row.0 index) ≡ true

lookup_later :
    (row : String × FileEntry) (index : Index) (path : String)
    → is_some (lookup path index) ≡ true
    → is_some (lookup path (row ∷ index)) ≡ true
lookup_later row index path h = ground (arith, h)

lookup_first :
    (row : String × FileEntry) (index : Index) → is_some (lookup row.0 (row ∷ index)) ≡ true
lookup_first row index = ground (arith, str_eq_refl row.0)

InIndex-later :
    (row : String × FileEntry) (index : Index) (found : Option (String × FileEntry))
    → InIndex index found
    → InIndex (row ∷ index) found
InIndex-later row index none h = tt
InIndex-later row index (some other) h = lookup_later row index other.0 h

least_other :
    (row other : String × FileEntry)
    → text_before other.0 row.0 ≡ true
    → least row (some other) ≡ other
least_other row other e = rw e refl

least_row :
    (row other : String × FileEntry)
    → text_before other.0 row.0 ≡ false
    → least row (some other) ≡ row
least_row row other e = rw e refl

least-InIndex :
    (row : String × FileEntry) (index : Index) (found : Option (String × FileEntry))
    → InIndex index found
    → InIndex (row ∷ index) (some (least row found))
least-InIndex row index none h = lookup_first row index
least-InIndex row index (some other) h = elim (Bool-cases (text_before other.0 row.0)) [
  | inl e ↦
      subst (λ (r : String × FileEntry). is_some (lookup r.0 (row ∷ index)) ≡ true)
        (sym (least_other row other e)) (lookup_later row index other.0 h)
  | inr e ↦
      subst (λ (r : String × FileEntry). is_some (lookup r.0 (row ∷ index)) ≡ true)
        (sym (least_row row other e)) (lookup_first row index)
]

pub find_least-InIndex :
    (test : String × FileEntry → Bool) (index : Index) → InIndex index (find_least test index)
find_least-InIndex test [] = tt
find_least-InIndex test (row ∷ index) = elim (Bool-cases (test row)) [
  | inl e ↦ rw e (least-InIndex row index (find_least test index) (find_least-InIndex test index))
  | inr e ↦ rw e (InIndex-later row index (find_least test index) (find_least-InIndex test index))
]

pub found-IsHeld :
    (index : Index) (name restore_path : String) (required : Bool)
    (found : Option (String × FileEntry))
    → InIndex index found
    → IsHeld index (artifact_found name restore_path required found)
found-IsHeld index name restore_path required none h e = absurd (ground (arith, e))
found-IsHeld index name restore_path required (some row) h e = h

-- A node that says ready has every file that it requires in the archive.
abbrev pub IsBacked : Index → Node → Type 0
IsBacked index node =
    node.recovery_ready ≡ true
    → All (λ a. is_some (lookup a.archive_path index) ≡ true) node.required_artifacts

pub local_runtime_node-IsBacked :
    (role : String) (index : Index) (suffix : String)
    → IsBacked index (local_runtime_node role index suffix)
unfolding local_runtime_node local_artifact
local_runtime_node-IsBacked role index suffix h =
    let config = find_least-InIndex (is_local_file suffix) index in
    let env = find_least-InIndex (is_local_file "/app/xray/.env") index in
    (
      found-IsHeld index "xray-config" "app/xray/runtime/config.json" true
          (find_least (is_local_file suffix) index) config (ground (arith, h)),
      (
        found-IsHeld index "xray-env" "app/xray/.env" true
            (find_least (is_local_file "/app/xray/.env") index) env (ground (arith, h)),
        tt,
      ),
    )
