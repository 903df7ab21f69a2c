-- ===== src/Handlers/Backup.antt =====
-- The upload of a backup (internal/server/handlers.go): backupFile, its loop over chunks, and
-- openUploadPart. The hash of a chunk is a parameter, and so is the clock, read once a chunk.
pub mod Unstored
pub mod Confirms
pub mod Unsaved
pub mod Entered
pub mod Kept
pub mod Saved
use prosiak.Base.{
  ℕ, zero, suc, ℤ, pos, pos_part, Text, text, List, [], ◌∷◌, ◌++◌, Option, none, some, Bool, not,
  map, ◌+◌, ◌-ℤ◌, ltb_ℤ, leb_ℤ, ◌||◌, eqb, any, length, if◌then◌else◌, trim_space,
}
use prosiak.Protocol.{NodeInfo, ChunkRef, FileManifest, CreateFileRequest}
use prosiak.Chunker.{Reader, Read, chunk, eof, fault, read_content_defined_chunk, max_chunk_size}
use prosiak.Network.{Network, put_chunk}
use prosiak.State.{State}
use prosiak.State.Nodes.{plan_chunk_spread}
use prosiak.State.Locations.{chunk_locations, chunk_in_use, confirm_chunk, online_count}
use prosiak.State.Files.{non_empty, create_file, apply_retention, Result}
use prosiak.Handlers.{Server, Response, created, failed}
use prosiak.Handlers.Delete.{delete_unused_chunks}

-- The variables of the loop over chunks; `counts` and `seen` are its maps.
pub record Upload (W : Type 0) : Type 0 where
  pub db : State
  pub world : W
  pub chunks : List ChunkRef
  pub counts : Text → ℕ
  pub seen : List Text
  pub total : ℕ
  pub new_bytes : ℕ
  pub reused_bytes : ℕ

-- The parts of a multipart body, as far as they are read.
pub data Parts : Type 0 where
  no_part : Parts
  bad_part : Parts
  part : Text → Text → Reader → Parts → Parts

-- openUploadPart, with the body's parts: `none` where the body is no multipart body.
unfoldable pub open_upload_part : Option Parts → Option (Text × Reader)
open_upload_part none = none
open_upload_part (some no_part) = none
open_upload_part (some bad_part) = none
open_upload_part (some (part form_name file_name r rest)) =
    let later = open_upload_part (some rest) in
    if eqb form_name (text "file") then some (file_name, r) else later

-- The request: its query with the numbers parsed, and its body under a ceiling on its bytes.
pub record BackupRequest : Type 0 where
  pub chunk_size : ℤ
  pub replication : ℤ
  pub retention : ℤ
  pub backup_name : Text
  pub body : Option ℕ → Option Parts

module _ (net : Network) where
  open net use {World}

  -- What follows the loop: the manifest, retention, and the chunks that are of no use any more.
  unfoldable pub save_manifest :
      ℕ → Text → CreateFileRequest → Server World → Server World × Response FileManifest
  save_manifest now id req srv =
      let (db, saved) = create_file now id req srv.db in
      elim saved [
        | Result.err _ ↦ (srv, failed 500)
        | Result.ok f ↦
            let (db', (old, unused)) = apply_retention f.backup_name (pos f.retention) db in
            let (srv', _) = delete_unused_chunks net now unused (record srv { db = db' }) in
            (srv', created (record f { retention_deleted = map (λ (o : FileManifest). o.id) old }))
      ]

module _ (net : Network) (hash_data : List ℕ → Text) where
  open net use {World}

  -- The loop over the planned nodes; `some` is the status of the error response.
  unfoldable pub send_copies :
      ℕ → Text → List ℕ → List NodeInfo → Upload World → Upload World × Option ℕ
  send_copies now hash content [] u = (u, none)
  send_copies now hash content (n ∷ ns) u =
      let (w, sent) = put_chunk net n.address hash content u.world in
      let (db, refused) = confirm_chunk now hash (pos (length content)) n.id u.db in
      let u' = record u {
        db = db;
        world = w;
        counts = λ id. if eqb id n.id then u.counts id + 1 else u.counts id;
      } in
      let rest = send_copies now hash content ns u' in
      if not sent
      then (record u { world = w }, some 502)
      else elim refused [ none ↦ rest | some _ ↦ (record u { world = w }, some 502) ]

  -- Where the bytes of a chunk are counted.
  unfoldable pub count_bytes : Text → ℕ → Upload World → Upload World
  count_bytes hash n u =
      if any (eqb hash) u.seen || chunk_in_use hash u.db
      then record u { reused_bytes = u.reused_bytes + n; seen = hash ∷ u.seen }
      else record u { new_bytes = u.new_bytes + n; seen = hash ∷ u.seen }

  -- The copies that a chunk lacks are sent out.
  unfoldable pub place_chunk : ℕ → ℤ → Text → List ℕ → Upload World → Upload World × Option ℕ
  place_chunk now replication hash content u =
      let missing = replication -ℤ pos (online_count (chunk_locations now hash u.db)) in
      let nodes = plan_chunk_spread now hash (pos (length content)) missing u.counts u.db in
      let sent = send_copies now hash content nodes u in
      if ltb_ℤ (pos 0) missing
      then if ltb_ℤ (pos (length nodes)) missing then (u, some 503) else sent
      else (u, none)

  -- The entry of the manifest.
  unfoldable pub append_chunk : ℕ → Text → ℕ → Upload World → Upload World
  append_chunk index hash n u = record u {
    chunks = u.chunks ++ record { index = pos index; hash = hash; size = pos n } ∷ [];
    total = u.total + n;
  }

  -- A chunk that was placed is entered; a failure ends the loop.
  abbrev appended : ℕ → Text → ℕ → Upload World × Option ℕ → Upload World × Option ℕ
  appended index hash n (u, none) = (append_chunk index hash n u, none)
  appended index hash n (u, some status) = (u, some status)

  -- The body of the loop.
  unfoldable pub upload_chunk : ℕ → ℤ → ℕ → List ℕ → Upload World → Upload World × Option ℕ
  upload_chunk now replication index content u =
      let hash = hash_data content in
      let n = length content in
      appended index hash n (place_chunk now replication hash content (count_bytes hash n u))

  -- What the loop does with the result of a read.
  abbrev after_read :
      (List ℕ → List ℕ → Upload World × Option ℕ) → Read → Upload World → Upload World × Option ℕ
  after_read continue (chunk content rest) u = continue content rest
  after_read continue eof u = (u, none)
  after_read continue fault u = (u, some 500)

  abbrev unless_stopped :
      (Upload World → Upload World × Option ℕ) → Upload World × Option ℕ → Upload World × Option ℕ
  unless_stopped continue (u, none) = continue u
  unless_stopped continue (u, some status) = (u, some status)

  -- The loop. Each round takes a byte at least, so the fuel `suc (length bytes)` lasts; without
  -- fuel the status is 0, which no response has.
  unfoldable pub upload_loop :
      ℕ → (ℕ → ℕ) → ℤ → ℤ → ℕ → Bool → List ℕ → Upload World → Upload World × Option ℕ
  upload_loop zero clock size replication index faulty bytes u = (u, some 0)
  upload_loop (suc fuel) clock size replication index faulty bytes u =
      after_read
        (λ content rest.
          unless_stopped (upload_loop fuel clock size replication (index + 1) faulty rest)
            (upload_chunk (clock index) replication index content u))
        (read_content_defined_chunk (record { bytes = bytes; faulty = faulty }) size) u

  abbrev pub first_upload : Server World → Upload World
  first_upload srv = record {
    db = srv.db;
    world = srv.world;
    chunks = [];
    counts = λ _. 0;
    seen = [];
    total = 0;
    new_bytes = 0;
    reused_bytes = 0;
  }

  abbrev pub manifest_request : BackupRequest → Text → Upload World → CreateFileRequest
  manifest_request req filename u = record {
    name = filename;
    backup_name = non_empty (trim_space req.backup_name) filename;
    retention = req.retention;
    size = pos u.total;
    chunk_size = req.chunk_size;
    replication = req.replication;
    dedup_new_bytes = pos u.new_bytes;
    dedup_reused_bytes = pos u.reused_bytes;
    chunks = u.chunks;
  }

  -- A loop that stopped has its status as the response.
  unfoldable pub finish_upload :
      (ℕ → ℕ)
      → Text
      → BackupRequest
      → Text
      → Upload World × Option ℕ
      → Server World × Response FileManifest
  finish_upload clock id req filename (u, some status) =
      (record { db = u.db; world = u.world }, failed status)
  finish_upload clock id req filename (u, none) =
      save_manifest net (clock (length u.chunks)) id (manifest_request req filename u)
        (record { db = u.db; world = u.world })

  -- backupFile. `clock` gives the time at each chunk and, past the last, at the end; `id` is the
  -- id that will be generated.
  unfoldable pub backup_file :
      (ℕ → ℕ) → Text → ℤ → BackupRequest → Server World → Server World × Response FileManifest
  backup_file clock id max_upload req srv =
      let ceiling : Option ℕ =
        if ltb_ℤ (pos 0) max_upload then some (pos_part max_upload) else none in
      if leb_ℤ req.chunk_size (pos 0)
      then (srv, failed 400)
      else if ltb_ℤ (pos max_chunk_size) req.chunk_size
      then (srv, failed 400)
      else if ltb_ℤ req.retention (pos 0)
      then (srv, failed 400)
      else elim (open_upload_part (req.body ceiling)) [
        | none ↦ (srv, failed 400)
        | some (filename, r) ↦ finish_upload clock id req filename (
            upload_loop (suc (length r.bytes)) clock req.chunk_size req.replication 0 r.faulty
              r.bytes (first_upload srv))
      ]
