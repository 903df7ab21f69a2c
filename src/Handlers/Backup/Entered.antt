-- ===== src/Handlers/Backup/Entered.antt =====
-- What an upload enters in its manifest (internal/server/handlers.go: backupFile).
use prosiak.Base.{
  ℕ, zero, suc, ◌+◌, ◌≤◌, ◌<◌, ℤ, pos, ltb_ℤ, leb_ℤ, Text, List, [], ◌∷◌, ◌++◌, append-nil,
  append_assoc, Bool, false, Option, none, some, ◌≡◌, ◌⊎◌, inl, inr, refl, ap, sym, ◌∙◌, arith,
  length, length-append,
}
use prosiak.Protocol.{ChunkRef}
use prosiak.Chunker.{
  max_chunk_size, Read, chunk, eof, fault, Chunks, done, broken, next, on_read, split, limits,
  read_loop, read_content_defined_chunk,
}
use prosiak.Chunker.Cut.{Parts, Sized, read_loop-Parts, read_loop-Sized}
use prosiak.Chunker.Split.{limits_ordered, shorter}
use prosiak.Network.{Network}
use prosiak.Handlers.{Server, failed}
use prosiak.Handlers.Backup.Unstored.{ceiling}
use prosiak.Handlers.Backup.Unsaved.{SameBackups, upload_loop-SameBackups}
use prosiak.Handlers.Backup.{
  Upload, upload_loop, upload_chunk, place_chunk, count_bytes, append_chunk, appended, after_read,
  first_upload, BackupRequest, finish_upload, save_manifest, manifest_request, backup_file,
  open_upload_part, unless_stopped,
}
use prosiak.Handlers.Backup.Kept.{Kept, place_chunk-Kept, count_bytes-Kept}

module _ (hash_data : List ℕ → Text) where
  -- The entries of the chunks of a stream, numbered from an index.
  unfoldable pub entries : ℕ → Chunks → List ChunkRef
  entries index done = []
  entries index broken = []
  entries index (next content later) =
      record { index = pos index; hash = hash_data content; size = pos (length content) }
      ∷ entries (index + 1) later

  module _ (net : Network) where
    open net use {World}

    -- The chunk is entered, or the upload ends with a server's error.
    abbrev With : List ChunkRef → ℕ → Upload World → Upload World × Option ℕ → Type 0
    With es n u (v, none) = (v.chunks ≡ u.chunks ++ es) × (v.total ≡ u.total + n)
    With es n u (v, some status) = 500 ≤ status

    appended-With :
        (index : ℕ) (hash : Text) (n : ℕ) (u : Upload World) (r : Upload World × Option ℕ)
        → Kept hash_data net u r
        → With
            (record { index = pos index; hash = hash; size = pos n } ∷ [])
            n
            u
            (appended net hash_data index hash n r)
    unfolding append_chunk
    appended-With index hash n u (v, none) h = (
      ap (λ cs. cs ++ record { index = pos index; hash = hash; size = pos n } ∷ []) h.0,
      omega (arith, h.1),
    )
    appended-With index hash n u (v, some status) h = h

    upload_chunk-With :
        (now : ℕ) (replication : ℤ) (index : ℕ) (content : List ℕ) (u : Upload World)
        → With
            (record { index = pos index; hash = hash_data content; size = pos (length content) }
              ∷ [])
            (length content)
            u
            (upload_chunk net hash_data now replication index content u)
    unfolding upload_chunk
    upload_chunk-With now replication index content u =
        let placed =
          place_chunk net hash_data now replication (hash_data content) content counted in
        recounted _ _ (appended net hash_data index (hash_data content) (length content) placed) (
          appended-With index (hash_data content) (length content) counted placed
            (place_chunk-Kept hash_data net now replication (hash_data content) content counted))
      where
        counted : Upload World
        counted = count_bytes net hash_data (hash_data content) (length content) u

        recounted :
            (es : List ChunkRef) (n : ℕ) (r : Upload World × Option ℕ)
            → With es n counted r
            → With es n u r
        recounted es n (v, none) h =
            let kept = count_bytes-Kept hash_data net (hash_data content) (length content) u in
            (h.0 ∙ ap (λ cs. cs ++ es) kept.0, omega (arith, h.1, kept.1))
        recounted es n (v, some status) h = h

    With-trans :
        (es later : List ChunkRef) (m n k : ℕ) (continue : Upload World → Upload World × Option ℕ)
        (u : Upload World) (r : Upload World × Option ℕ)
        → m + n ≡ k
        → With es m u r
        → ((v : Upload World) → With later n v (continue v))
        → With (es ++ later) k u (unless_stopped net hash_data continue r)
    With-trans es later m n k continue u (v, none) e h ih = joined (continue v) (ih v)
      where
        joined : (r : Upload World × Option ℕ) → With later n v r → With (es ++ later) k u r
        joined (w, none) h' = (
          h'.0 ∙ ap (λ cs. cs ++ later) h.0 ∙ append_assoc u.chunks es later,
          omega (arith, h.1, h'.1, e),
        )
        joined (w, some status) h' = h'
    With-trans es later m n k continue u (v, some status) e h ih = h

    module _ (clock : ℕ → ℕ) (size replication : ℤ) (faulty : Bool) where
      after_read-With :
          (fuel index : ℕ) (bytes : List ℕ) (r : Read) (u : Upload World)
          → length bytes ≤ fuel
          → Parts faulty 0 bytes r
          → Sized (limits size) 0 r
          → ((rest : List ℕ) (v : Upload World)
              → length rest < fuel
              → With
                  (entries (index + 1) (split fuel (limits size) faulty rest))
                  (length rest)
                  v
                  (upload_loop net hash_data fuel clock size replication (index + 1) faulty rest v))
          → With (entries index (on_read (split fuel (limits size) faulty) r)) (length bytes) u (
              after_read net hash_data
                (λ content rest.
                  unless_stopped net hash_data
                    (upload_loop net hash_data fuel clock size replication (index + 1) faulty rest)
                    (upload_chunk net hash_data (clock index) replication index content u))
                r
                u)
      unfolding entries
      after_read-With fuel index bytes (chunk content rest) u h p s ih =
          let sizes = limits_ordered size in
          let fewer = shorter (limits size) sizes.0 sizes.1 faulty bytes content rest p s in
          With-trans _ _ (length content) (length rest) (length bytes)
            (upload_loop net hash_data fuel clock size replication (index + 1) faulty rest) u
            (upload_chunk net hash_data (clock index) replication index content u)
            (omega (arith, ap length p, length-append content rest))
            (upload_chunk-With (clock index) replication index content u)
            (λ v. ih rest v (omega arith))
      after_read-With fuel index bytes eof u h p s ih =
          (sym (append-nil u.chunks), omega (arith, ap length p.0))
      after_read-With fuel index bytes fault u h p s ih = omega arith

      upload_loop-With :
          (fuel index : ℕ) (bytes : List ℕ) (u : Upload World)
          → length bytes < fuel
          → With
              (entries index (split fuel (limits size) faulty bytes))
              (length bytes)
              u
              (upload_loop net hash_data fuel clock size replication index faulty bytes u)
      unfolding upload_loop read_content_defined_chunk split
      upload_loop-With zero index bytes u h = absurd (omega arith)
      upload_loop-With (suc fuel) index bytes u h =
          let sizes = limits_ordered size in
          after_read-With fuel index bytes (read_loop (limits size) faulty 0 0 bytes) u
            (omega arith) (read_loop-Parts (limits size) faulty 0 0 bytes)
            (read_loop-Sized (limits size) faulty 0 0 bytes sizes.0 (omega arith))
            (λ rest v lt. upload_loop-With fuel (index + 1) rest v lt)

    -- The outcomes of an upload whose request is in order: a server's error, or a manifest with the
    -- entries of the chunks of the stream.
    finish-With :
        (clock : ℕ → ℕ) (id : Text) (req : BackupRequest) (filename : Text) (es : List ChunkRef)
        (n : ℕ) (srv : Server World) (r : Upload World × Option ℕ)
        → With es n (first_upload net hash_data srv) r
        → SameBackups srv.db r.0.db
        → (u : Upload World) × SameBackups srv.db u.db
          × (((status : ℕ) × (500 ≤ status)
                × (finish_upload net hash_data clock id req filename r
                    ≡ (record { db = u.db; world = u.world }, failed status)))
              ⊎ ((u.chunks ≡ es)
                  × (u.total ≡ n)
                  × (finish_upload net hash_data clock id req filename r
                      ≡ save_manifest net
                          (clock (length u.chunks))
                          id
                          (manifest_request net hash_data req filename u)
                          (record { db = u.db; world = u.world }))))
    unfolding finish_upload
    finish-With clock id req filename es n srv (u, none) h same =
        (u, same, inr (h.0, omega (arith, h.1), refl))
    finish-With clock id req filename es n srv (u, some status) h same =
        (u, same, inl (status, h, refl))

    -- An upload whose request passes the checks on its numbers and has the part with the file ends in
    -- one of two ways, with the fuel that it has, and in both the tables of the backups are as they
    -- were up to there. It answers a server's error; or it goes on to save a manifest that lists the
    -- chunks of the stream, each with its number, the hash of its bytes and their count, in order and
    -- from the number zero, and whose size is the count of the bytes of the stream.
    pub backup_file-entries :
        (clock : ℕ → ℕ) (id : Text) (max_upload : ℤ) (req : BackupRequest) (filename : Text)
        (bytes : List ℕ) (faulty : Bool) (srv : Server World)
        → leb_ℤ req.chunk_size (pos 0) ≡ false
        → ltb_ℤ (pos max_chunk_size) req.chunk_size ≡ false
        → ltb_ℤ req.retention (pos 0) ≡ false
        → open_upload_part (req.body (ceiling net hash_data max_upload))
          ≡ some (filename, record { bytes = bytes; faulty = faulty })
        → (u : Upload World) × SameBackups srv.db u.db
          × (((status : ℕ) × (500 ≤ status)
                × (backup_file net hash_data clock id max_upload req srv
                    ≡ (record { db = u.db; world = u.world }, failed status)))
              ⊎ ((u.chunks
                    ≡ entries 0 (split (suc (length bytes)) (limits req.chunk_size) faulty bytes))
                  × (u.total ≡ length bytes)
                  × (backup_file net hash_data clock id max_upload req srv
                      ≡ save_manifest net
                          (clock (length u.chunks))
                          id
                          (manifest_request net hash_data req filename u)
                          (record { db = u.db; world = u.world }))))
    unfolding backup_file
    backup_file-entries clock id max_upload req filename bytes faulty srv sized bounded kept part =
        rw (sized, bounded, kept, part, backup_file)
          (finish-With clock id req filename _ (length bytes) srv _
            (upload_loop-With clock req.chunk_size req.replication faulty (suc (length bytes)) 0
              bytes (first_upload net hash_data srv) (omega arith))
            (upload_loop-SameBackups net hash_data (suc (length bytes)) clock req.chunk_size
              req.replication 0 faulty bytes (first_upload net hash_data srv)))
