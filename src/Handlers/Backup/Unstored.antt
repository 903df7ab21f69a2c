-- ===== src/Handlers/Backup/Unstored.antt =====
-- Uploads that ask for no copies (internal/server/handlers.go: backupFile): the loop takes any number
-- for `replication`, and the manifest puts 3 in the place of one that is not positive.
use prosiak.Base.{
  ℕ, ℤ, pos, pos_part, Text, List, Option, none, some, ◌+◌, ◌≡◌, ltb_ℤ, if◌then◌else◌,
}
use prosiak.Network.{Network}
use prosiak.Handlers.Backup.{Upload}

module _ (net : Network) (hash_data : List ℕ → Text) where
  open net use {World}

  -- `v` is `u` after `n` more bytes, with the database and the world as they were.
  abbrev pub Unsent : ℕ → Upload World → Upload World × Option ℕ → Type 0
  Unsent n u (v, stopped) =
      (stopped ≡ none) × (v.db ≡ u.db) × (v.world ≡ u.world) × (v.total ≡ u.total + n)

  abbrev pub ceiling : ℤ → Option ℕ
  ceiling max_upload = if ltb_ℤ (pos 0) max_upload then some (pos_part max_upload) else none
