-- ===== src/State/Files.antt =====
-- Backups and their chunks (internal/server/state.go): the tables files and file_chunks.
pub mod Unused
pub mod Retention
pub mod Stored
use prosiak.Base.{
  ℕ, ℤ, pos, Text, List, [], ◌∷◌, ◌++◌, Bool, not, ◌&&◌, ◌||◌, Option, none, some, map, ◌+◌, ltb,
  leb, ltb_ℤ, leb_ℤ, eqb_ℤ, ◌==◌, if◌then◌else◌, eqb, leb_text, trim_space, any, select,
  delete_where, count_where, update_where, order_by, length, drop,
}
use prosiak.Protocol.{
  ChunkRef, FileRow, FileManifest, CreateFileRequest, Health, healthy, missing, degraded, extra,
  ChunkAvailability, FileAvailability,
}
use prosiak.State.{State, ChunkRow, rfc3339, normalized_replication, normalized_retention, is_file}
use prosiak.State.Nodes.{query_row}
use prosiak.State.Locations.{Failure, constraint, chunk_locations, online_nodes, uses}

pub data Result {ℓ} (A : Type ℓ) : Type ℓ where
  ok : A → Result A
  err : Failure → Result A

abbrev pub of_file : Text → ChunkRow → Bool
of_file id c = eqb id c.file_id

-- COALESCE(MAX(version), 0) over the versions of a backup.
unfoldable pub max_version : Text → List FileRow → ℕ
max_version name [] = 0
max_version name (f ∷ fs) =
    let rest = max_version name fs in
    if eqb name f.backup_name then (if leb rest f.version then f.version else rest) else rest

-- The key (file_id, chunk_index).
abbrev pub same_chunk : ChunkRow → ChunkRow → Bool
same_chunk a b = eqb a.file_id b.file_id && eqb_ℤ a.index b.index

-- The INSERTs of CreateFile; `none` where one meets a row with its key.
unfoldable pub insert_chunks : Text → List ChunkRef → List ChunkRow → Option (List ChunkRow)
insert_chunks id [] rows = some rows
insert_chunks id (c ∷ cs) rows =
    let row : ChunkRow = record { file_id = id; chunk = c } in
    let rest = insert_chunks id cs (rows ++ row ∷ []) in
    if any (same_chunk row) rows then none else rest

abbrev pub non_empty : Text → Text → Text
non_empty [] other = other
non_empty (c ∷ s) other = c ∷ s

-- The row that CreateFile builds; `id` is the generated one.
unfoldable pub new_row : ℕ → Text → CreateFileRequest → State → FileRow
new_row now id req s =
    let all_new =
      eqb_ℤ req.dedup_new_bytes (pos 0)
      && eqb_ℤ req.dedup_reused_bytes (pos 0)
      && ltb_ℤ (pos 0) req.size in
    let backup_name = non_empty (trim_space req.backup_name) req.name in
    record {
      id = id;
      name = req.name;
      backup_name = backup_name;
      version = max_version backup_name s.files + 1;
      retention = normalized_retention req.retention;
      size = req.size;
      chunk_size = req.chunk_size;
      replication = normalized_replication req.replication;
      dedup_new_bytes = if all_new then req.size else req.dedup_new_bytes;
      dedup_reused_bytes = req.dedup_reused_bytes;
      created_at = rfc3339 now;
    }

abbrev pub manifest : FileRow → List ChunkRef → FileManifest
manifest row chunks = record {
  row = row;
  chunk_count = length chunks;
  chunks = chunks;
  retention_deleted = [];
}

-- CreateFile. An INSERT that breaks a key ends in the rollback of the transaction.
unfoldable pub create_file : ℕ → Text → CreateFileRequest → State → State × Result FileManifest
create_file now id req s =
    let row = new_row now id req s in
    elim (insert_chunks id req.chunks s.file_chunks) [
      | none ↦ (s, err constraint)
      | some rows ↦ if any (is_file id) s.files then (s, err constraint) else (
        record s { files = s.files ++ row ∷ []; file_chunks = rows },
        ok (manifest row req.chunks),
      )
    ]

-- fileChunks
unfoldable pub file_chunks : Text → State → List ChunkRef
file_chunks id s =
    order_by (λ a b. leb_ℤ a.index b.index)
      (map (λ (c : ChunkRow). c.chunk) (select (of_file id) s.file_chunks))

-- File
unfoldable pub file : Text → State → Option FileManifest
file id s = elim (query_row (select (is_file id) s.files)) [
  | none ↦ none
  | some row ↦ some (manifest row (file_chunks id s))
]

-- UpdateFileReplication
unfoldable pub update_file_replication : Text → ℤ → State → State × Option FileManifest
update_file_replication id replication s =
    let s' : State = record s {
      files =
          update_where (is_file id)
            (λ f. record f { replication = normalized_replication replication }) s.files;
    } in
    if any (is_file id) s.files then (s', file id s') else (s, none)

unfoldable pub chunk_status : ℕ → ℕ → Health
chunk_status active replication =
    if active == 0
    then missing
    else if ltb active replication
    then degraded
    else if ltb replication active
    then extra
    else healthy

-- The body of the loop in FileAvailability.
unfoldable pub chunk_availability : ℕ → State → ℕ → ChunkRef → ChunkAvailability
chunk_availability now s replication c =
    let locations = chunk_locations now c.hash s in
    let active = length (online_nodes locations) in
    record {
      index = c.index;
      hash = c.hash;
      size = c.size;
      desired = replication;
      active = active;
      total = length locations;
      status = chunk_status active replication;
      locations = locations;
    }

-- FileAvailability
unfoldable pub file_availability : ℕ → Text → State → Option FileAvailability
file_availability now id s = elim (file id s) [
  | none ↦ none
  | some f ↦
      some (record { row = f.row; chunks = map (chunk_availability now s f.replication) f.chunks })
]

-- chunkCounts, at one file: a missing key of the map reads as 0.
unfoldable pub chunk_counts : State → Text → ℕ
chunk_counts s id = count_where (of_file id) s.file_chunks

-- ORDER BY backup_name, version DESC, created_at DESC, id DESC
unfoldable pub by_newest : FileRow → FileRow → Bool
by_newest a b =
    ltb b.version a.version
    || ((a.version == b.version)
        && (ltb b.created_at a.created_at
            || ((a.created_at == b.created_at) && leb_text b.id a.id)))

unfoldable pub by_backup : FileRow → FileRow → Bool
unfolding by_newest
by_backup a b =
    (leb_text a.backup_name b.backup_name && not (eqb a.backup_name b.backup_name))
    || (eqb a.backup_name b.backup_name && by_newest a b)

-- Files: the manifests carry the counts of their chunks, and no chunks.
unfoldable pub all_files : State → List FileManifest
all_files s =
    map
      (λ (f : FileRow). record {
        row = f;
        chunk_count = chunk_counts s f.id;
        chunks = [];
        retention_deleted = [];
      })
      (order_by by_backup s.files)

-- DELETE FROM files, with the rows that cascade.
unfoldable pub delete_row : Text → State → State
delete_row id s = record s {
  files = delete_where (is_file id) s.files;
  file_chunks = delete_where (of_file id) s.file_chunks;
}

-- The loop that collects unused hashes: `seen` are the hashes met before.
unfoldable pub unused_hashes : State → List Text → List ChunkRef → List Text
unused_hashes s seen [] = []
unused_hashes s seen (c ∷ cs) =
    let skip = unused_hashes s seen cs in
    let rest = unused_hashes s (c.hash ∷ seen) cs in
    if any (eqb c.hash) seen
    then skip
    else if count_where (uses c.hash) s.file_chunks == 0
    then c.hash ∷ rest
    else rest

-- DeleteFile
unfoldable pub delete_file : Text → State → State × Option (FileManifest × List Text)
delete_file id s = elim (file id s) [
  | none ↦ (s, none)
  | some f ↦ let s' = delete_row id s in (s', some (f, unused_hashes s' [] f.chunks))
]

abbrev pub of_backup : Text → FileRow → Bool
of_backup name f = eqb name f.backup_name

-- The query of ApplyRetention: the ids of all but the newest `keep` versions.
unfoldable pub outdated : Text → ℕ → State → List Text
outdated name keep s =
    map (λ (f : FileRow). f.id) (drop keep (order_by by_newest (select (of_backup name) s.files)))

unfoldable pub manifests : State → List Text → List FileManifest
manifests s [] = []
manifests s (id ∷ ids) = elim (file id s) [ none ↦ manifests s ids | some f ↦ f ∷ manifests s ids ]

unfoldable pub delete_rows : List Text → State → State
delete_rows [] s = s
delete_rows (id ∷ ids) s = delete_rows ids (delete_row id s)

unfoldable pub all_chunks : List FileManifest → List ChunkRef
all_chunks [] = []
all_chunks (f ∷ fs) = f.chunks ++ all_chunks fs

-- ApplyRetention: the deleted manifests and the hashes that no backup uses any more.
unfoldable pub apply_retention : Text → ℤ → State → State × (List FileManifest × List Text)
apply_retention backup_name keep s =
    let name = trim_space backup_name in
    let n = normalized_retention keep in
    let ids = outdated name n s in
    let deleted = manifests s ids in
    let s' = delete_rows ids s in
    if eqb name [] || (n == 0)
    then (s, ([], []))
    else (s', (deleted, unused_hashes s' [] (all_chunks deleted)))
