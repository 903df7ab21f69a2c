-- ===== src/Handlers/Files.antt =====
-- The handlers for backups (internal/server/handlers.go), but for uploads, downloads and deletions.
use prosiak.Base.{ℕ, ℤ, pos, Text, [], none, some, ◌||◌, leb_ℤ, ltb_ℤ, eqb, if◌then◌else◌}
use prosiak.Protocol.{CreateFileRequest, FileManifest, FileAvailability}
use prosiak.Network.{Network}
use prosiak.State.{State}
use prosiak.State.Files.{update_file_replication, file, file_availability}
use prosiak.Handlers.{Server, Response, ok, failed}
use prosiak.Handlers.Backup.{save_manifest}

-- createFile
module _ (net : Network) where
  open net use {World}

  unfoldable pub create_file_handler :
      ℕ → Text → CreateFileRequest → Server World → Server World × Response FileManifest
  create_file_handler now id req srv =
      if eqb req.name [] || ltb_ℤ req.size (pos 0) || leb_ℤ req.chunk_size (pos 0)
      then (srv, failed 400)
      else save_manifest net now id req srv

-- fileManifest, at the id in the path.
unfoldable pub manifest_handler : Text → State → Response FileManifest
manifest_handler id db = elim (file id db) [ none ↦ failed 404 | some f ↦ ok f ]

-- fileAvailability
unfoldable pub availability_handler : ℕ → Text → State → Response FileAvailability
availability_handler now id db = elim (file_availability now id db) [
  | none ↦ failed 404
  | some a ↦ ok a
]

-- updateFileReplication
unfoldable pub replication_handler : Text → ℤ → State → State × Response FileManifest
replication_handler id replication db =
    let (db', found) = update_file_replication id replication db in
    if leb_ℤ replication (pos 0)
    then (db, failed 400)
    else elim found [ none ↦ (db', failed 404) | some f ↦ (db', ok f) ]
