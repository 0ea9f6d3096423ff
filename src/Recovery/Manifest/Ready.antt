-- ===== src/Recovery/Manifest/Ready.antt =====
-- What a recovery manifest that says ready promises of the archive.
use xray_routing_panel.Prelude.{◌≡◌, true, List, [], All, is_some, ok}
use xray_routing_panel.Prelude.Returns.{Returns}
use xray_routing_panel.Recovery.Bundle.{FileEntry, Node, Index, lookup, file_entry_index}
use xray_routing_panel.Recovery.Manifest.{Recovery}

-- What a manifest promises of the files of the archive.
unfoldable pub IsRecoverable : List FileEntry → Recovery → Type 0
IsRecoverable entries r =
    (index : Index) × (file_entry_index [] entries ≡ ok index)
    × (r.is_ready ≡ true
        → (is_some (lookup r.database.archive_path index) ≡ true)
          × All
              (λ (n : Node).
                n.is_configured ≡ true
                → All (λ a. is_some (lookup a.archive_path index) ≡ true) n.required_artifacts)
              r.nodes)
