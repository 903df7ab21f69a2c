-- ===== src/System/RoundTrip.antt =====
-- A backup from its upload to its download (internal/server/handlers.go: backupFile, downloadFile, over
-- internal/server/state.go).
use prosiak.Base.{
  ℕ, suc, ℤ, pos, ltb_ℤ, leb_ℤ, Text, List, ◌++◌, drop, take, length-append, ◌≤◌, Bool, true, false,
  some, ◌≡◌, refl, ap, sym, subst, ◌∙◌, ◌⊎◌, inl, inr, arith, if◌then◌else◌, length, order_by, All,
}
use prosiak.Protocol.{FileManifest}
use prosiak.Chunker.{Chunks, split, limits, max_chunk_size}
use prosiak.Chunker.Split.{joined-split-limits}
use prosiak.Network.{Network}
use prosiak.State.{State}
use prosiak.State.Files.{file, manifest}
use prosiak.State.Consistent.{Consistent, InFile}
use prosiak.Handlers.{Server, Response, created, failed}
use prosiak.Handlers.Backup.{
  Upload, BackupRequest, open_upload_part, backup_file, save_manifest, manifest_request,
}
use prosiak.Handlers.Backup.Unsaved.{SameBackups}
use prosiak.Handlers.Backup.Unstored.{ceiling}
use prosiak.Handlers.Backup.Entered.{entries, backup_file-entries}
use prosiak.Handlers.Backup.Saved.{save_manifest-Stored}
use prosiak.Handlers.Download.{
  complete, error_text, overlong, Download, refused, answered, download_file,
}
use prosiak.Handlers.Download.Whole.{Served, download_file-whole}
use prosiak.Handlers.Download.Exact.{concat, IsError, Delivers, Collision, download_file-Delivers}
use prosiak.System.Entries.{
  contents, joined-contents, concat-take, entries-hashes, by_index, entries-ordered,
}

-- A body that may come instead of a stream: a first part of it, alone or with the line of an error that
-- is no longer than the part that is missing.
abbrev pub CutShort : Text → List ℕ → List ℕ → Type 0
CutShort message bytes got =
    (first : List ℕ) × (rest : List ℕ) × (bytes ≡ first ++ rest)
    × ((got ≡ first)
        ⊎ ((error : List ℕ) × IsError message error
            × (got ≡ first ++ error)
            × (length error ≤ length rest)))

-- What a client gets of a stream: a refusal, because a node did not send a chunk as it was; or, under
-- the length of the stream, a body that is the stream where the loop ended without an error, and may
-- be cut short where not.
abbrev pub Restores : Text → List ℕ → Download → Type 0
Restores message bytes (refused status) = status ≡ 502
Restores message bytes (answered size got complete) = (size ≡ pos (length bytes)) × (got ≡ bytes)
Restores message bytes (answered size got error_text) =
    (size ≡ pos (length bytes)) × CutShort message bytes got
Restores message bytes (answered size got overlong) =
    (size ≡ pos (length bytes)) × CutShort message bytes got

Delivers-Restores :
    (message : Text) (bytes : List ℕ) (xs : List (List ℕ)) (d : Download)
    → concat xs ≡ bytes
    → Delivers message (pos (length bytes)) xs d
    → Restores message bytes d
Delivers-Restores message bytes xs (refused status) whole h = h
Delivers-Restores message bytes xs (answered size got complete) whole (announced, e) =
    (announced, e ∙ whole)
Delivers-Restores message bytes xs (answered size got error_text) whole
      (announced, (n, (error, known, ended))) =
    let parted : bytes ≡ concat (take n xs) ++ concat (drop n xs) = sym whole ∙ concat-take n xs in
    (
      announced,
      (
        concat (take n xs),
        concat (drop n xs),
        parted,
        elim ended [
          | inr (full, e) ↦ inl e
          | inl (room, e) ↦ inr (
            error,
            known,
            e,
            ground (
              arith,
              room,
              ap length parted,
              length-append (concat (take n xs)) (concat (drop n xs)),
              length-append (concat (take n xs)) error,
            ),
          )
        ],
      ),
    )
Delivers-Restores message bytes xs (answered size got overlong) whole (announced, (n, e)) =
    (announced, (concat (take n xs), concat (drop n xs), sym whole ∙ concat-take n xs, inl e))

-- A request that was not refused passed the check.
passed :
    {W : Type 0} (b : Bool) (n : ℕ) (srv : Server W) {srv' : Server W} {f : FileManifest}
    (r : Server W × Response FileManifest)
    → (if b then (srv, failed n) else r) ≡ (srv', created f)
    → (b ≡ false) × (r ≡ (srv', created f))
passed true n srv r h = absurd (cc)
passed false n srv r h = (refl, h)

in_files-SameBackups :
    (s s' : State)
    → SameBackups s s'
    → All (InFile s) s.file_chunks
    → All (InFile s') s'.file_chunks
in_files-SameBackups s s' h all = rw (h.files, h.file_chunks) all

module _ (net : Network) (hash_data : List ℕ → Text) (clock : ℕ → ℕ) (id : Text) (max_upload : ℤ)
    (req : BackupRequest) (filename : Text) (bytes : List ℕ) (srv srv' : Server net.World)
    (f : FileManifest) (consistent : Consistent srv.db)
    (part : open_upload_part (req.body (ceiling net hash_data max_upload))
      ≡ some (filename, record { bytes = bytes; faulty = false }))
    (uploaded : backup_file net hash_data clock id max_upload req srv ≡ (srv', created f)) where
  abbrev pub chunks : Chunks
  chunks = split (suc (length bytes)) (limits req.chunk_size) false bytes

  -- The outcome of an upload that was answered with a manifest.
  outcome :
      (u : Upload net.World) × SameBackups srv.db u.db
      × (u.chunks ≡ entries hash_data 0 chunks)
      × (u.total ≡ length bytes)
      × (save_manifest net
            (clock (length u.chunks))
            id
            (manifest_request net hash_data req filename u)
            (record { db = u.db; world = u.world })
          ≡ (srv', created f))
  unfolding backup_file
  outcome =
      let (sized, h) = passed (leb_ℤ req.chunk_size (pos 0)) 400 srv _ uploaded in
      let (bounded, h') = passed (ltb_ℤ (pos max_chunk_size) req.chunk_size) 400 srv _ h in
      let (kept, h'') = passed (ltb_ℤ req.retention (pos 0)) 400 srv _ h' in
      let (u, same, ended) =
        backup_file-entries hash_data net clock id max_upload req filename bytes false srv sized
          bounded kept part in
      elim ended [
        | inl (status, least, fails) ↦ absurd (cc (fails, uploaded))
        | inr (entered, total, goes_on) ↦ (u, same, entered, total, sym goes_on ∙ uploaded)
      ]

  pub upload-saves :
      (f.row.id ≡ id)
      × (f.row.size ≡ pos (length bytes))
      × (file id srv'.db ≡ some (manifest f.row (entries hash_data 0 chunks)))
  upload-saves =
      let (u, same, entered, total, saved) = outcome in
      let stored =
        save_manifest-Stored net (clock (length u.chunks)) id
          (manifest_request net hash_data req filename u) (record { db = u.db; world = u.world })
          srv' f (in_files-SameBackups srv.db u.db same consistent.in_files)
          (subst (λ cs. order_by by_index cs ≡ cs) (sym entered)
            (entries-ordered hash_data 0 chunks))
          saved in
      (stored.0, stored.1 ∙ ap pos total, stored.2 ∙ ap (λ cs. some (manifest f.row cs)) entered)

  -- What comes back of a backup. Where the tables are consistent and an upload whose part is a whole
  -- stream is answered with a manifest, the manifest has the id and the length of the stream, and a
  -- download under that id, at any later time and from whatever nodes, answers a server's error 502,
  -- or announces that length and has a body: exactly the stream where the loop ends without an error,
  -- and else a first part of the stream, alone or followed by the line of one error that is no longer
  -- than what is missing; or else the hash has two contents that collide.
  pub upload-download :
      (later : Network) (message : Text) (w : later.World) (now : ℕ)
      → (f.row.id ≡ id)
        × (f.row.size ≡ pos (length bytes))
        × (Restores message bytes
              (download_file later hash_data message now id (record { db = srv'.db; world = w })).1
            ⊎ Collision later hash_data)
  upload-download later message w now =
      let (own_id, size, found) = upload-saves in
      let server : Server later.World = record { db = srv'.db; world = w } in
      let the_file = manifest f.row (entries hash_data 0 chunks) in
      let answer = (download_file later hash_data message now id server).1 in
      (
        own_id,
        size,
        elim (download_file-Delivers later hash_data message now id server the_file
            (contents chunks) found (entries-hashes hash_data 0 chunks)).1 [
              | inr clash ↦ inr clash
              | inl sent ↦ inl (
                  Delivers-Restores message bytes (contents chunks) _
                    (joined-contents chunks bytes
                      (joined-split-limits req.chunk_size (suc (length bytes)) bytes (omega arith)))
                    (subst (λ n. Delivers message n (contents chunks) answer) size sent))
            ],
      )

  -- A backup comes back whole where its chunks can be had. Where the tables are consistent and an
  -- upload whose part is a whole stream is answered with a manifest, and the nodes that have a chunk
  -- of the stream send it with its hash, then a download under the id answers exactly the stream,
  -- under its length and with no error; or else the hash has two contents that collide.
  pub upload-download_whole :
      (later : Network) (message : Text) (w : later.World) (now : ℕ)
      → All (Served later hash_data now srv'.db) (entries hash_data 0 chunks)
      → ((download_file later hash_data message now id (record { db = srv'.db; world = w })).1
          ≡ answered (pos (length bytes)) bytes complete)
        ⊎ Collision later hash_data
  upload-download_whole later message w now served =
      let (own_id, size, found) = upload-saves in
      let bs =
        joined-contents chunks bytes
          (joined-split-limits req.chunk_size (suc (length bytes)) bytes (omega arith)) in
      elim (download_file-whole later hash_data message now id (record { db = srv'.db; world = w })
        (manifest f.row (entries hash_data 0 chunks)) (contents chunks) found
        (entries-hashes hash_data 0 chunks) (size ∙ ap (λ b. pos (length b)) (sym bs)) served) [
          | inl whole ↦ inl (
              whole
              ∙ ap (λ n. answered n (concat (contents chunks)) complete) size
              ∙ ap (λ b. answered (pos (length bytes)) b complete) bs)
          | inr clash ↦ inr clash
        ]
