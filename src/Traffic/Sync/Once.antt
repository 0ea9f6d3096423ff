-- ===== src/Traffic/Sync/Once.antt =====
-- Synchronizations of app/state/traffic.py with a local log that grows and is rotated.
use xray_routing_panel.Prelude.{
  ℕ, ◌+◌, Option, some, String, List, [], ◌∷◌, ◌++◌, if◌then◌else◌, str_eq,
}
use xray_routing_panel.Database.{Db}
use xray_routing_panel.Traffic.{Seen}
use xray_routing_panel.Traffic.Consistency.{lines_of}
use xray_routing_panel.Traffic.Sync.{LogFile, local_file, parse_lines, sync_access_log}

module _ (readlines : List ℕ → List String) (parse : String → Option Seen) where
  -- The bytes of the log after a piece was written: at the end of the file that was read before, or
  -- in a new file.
  unfoldable pub written : String → List ℕ → String × List ℕ → List ℕ
  written recorded before (inode, piece) = if str_eq recorded inode then before ++ piece else piece

  -- One synchronization after each piece; the bytes of the last file, and the tables.
  unfoldable pub sync_pieces : List ℕ → List (String × List ℕ) → Db → List ℕ × Db
  unfolding written sync_access_log
  sync_pieces before [] db = (before, db)
  sync_pieces before ((inode, piece) ∷ pieces) db =
      let content = written db.log_inode before (inode, piece) in
      let file : LogFile = record { inode = inode; content = content } in
      sync_pieces content pieces (sync_access_log parse (local_file readlines (some file)) db).1

  -- The port's lines in all pieces.
  unfoldable pub lines_of_pieces : ℕ → List (String × List ℕ) → ℕ
  lines_of_pieces port [] = 0
  lines_of_pieces port ((inode, piece) ∷ pieces) =
      lines_of port (parse_lines parse (readlines piece)) + lines_of_pieces port pieces
