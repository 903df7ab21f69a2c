-- ===== src/Handlers/Calls.antt =====
-- The handlers of internal/server/handlers.go and the scheduler of internal/server/replicator.go change
-- the database by the calls of internal/server/state.go alone.
use prosiak.Base.{
  ℕ, ℤ, suc, pos, Text, List, [], ◌∷◌, ◌++◌, Bool, true, false, Option, none, some, ◌≡◌, refl, ap,
  sym, ◌∙◌, if◌then◌else◌, leb_ℤ, ltb_ℤ, length, map,
}
use prosiak.Protocol.{FileManifest, CreateFileRequest}
use prosiak.Network.{Network}
use prosiak.Chunker.{Reader, max_chunk_size}
use prosiak.State.{State}
use prosiak.State.Locations.{confirm_chunk, remove_chunk_location}
use prosiak.State.Files
use prosiak.State.Files.{Result, create_file, apply_retention}
use prosiak.State.Consistent.Run.{
  Call, confirms, removes_location, creates, deletes_file, retains, step, run,
}
use prosiak.Handlers.{Server, Response, ok, created, failed}
use prosiak.Handlers.Delete.{Swept, delete_unused_chunks, delete_file}
use prosiak.Handlers.Backup.{
  save_manifest, Upload, finish_upload, BackupRequest, backup_file, open_upload_part, upload_loop,
  first_upload,
}
use prosiak.Handlers.Delete.Removes.{delete_unused_chunks-Changed}
use prosiak.Handlers.Backup.Confirms.{upload_loop-Changed}

-- The second database comes from the first by some calls.
unfoldable pub Reaches : State → State → Type 0
Reaches s s' = (cs : List Call) × (s' ≡ run s cs)

run-append : (s : State) (cs ds : List Call) → run s (cs ++ ds) ≡ run (run s cs) ds
unfolding run
run-append s [] ds = refl
run-append s (c ∷ cs) ds = run-append (step s c) cs ds

pub stays : (s : State) → Reaches s s
unfolding Reaches run
stays s = ([], refl)

pub calls : (s : State) (c : Call) → Reaches s (step s c)
unfolding Reaches run
calls s c = (c ∷ [], refl)

pub and_then : (s s' s'' : State) → Reaches s s' → Reaches s' s'' → Reaches s s''
unfolding Reaches
and_then s s' s'' (cs, h) (ds, h') =
    (cs ++ ds, h' ∙ ap (λ t. run t ds) h ∙ sym (run-append s cs ds))

pub confirms-Reaches :
    (now : ℕ) (hash : Text) (size : ℤ) (node_id : Text) (s : State)
    → Reaches s (confirm_chunk now hash size node_id s).0
unfolding step
confirms-Reaches now hash size node_id s = calls s (confirms now hash size node_id)

pub removes-Reaches : (hash id : Text) (s : State) → Reaches s (remove_chunk_location hash id s)
unfolding step
removes-Reaches hash id s = calls s (removes_location hash id)

module _ (net : Network) where
  open net use {World}

  pub delete_unused_chunks-Reaches :
      (now : ℕ) (hashes : List Text) (srv : Server World)
      → Reaches srv.db (delete_unused_chunks net now hashes srv).0.db
  delete_unused_chunks-Reaches =
      delete_unused_chunks-Changed net Reaches stays and_then removes-Reaches

  pub delete_file-Reaches :
      (now : ℕ) (id : Text) (srv : Server World) → Reaches srv.db (delete_file net now id srv).0.db
  unfolding delete_file step
  delete_file-Reaches now id srv = by (Files.delete_file id srv.db) (calls srv.db (deletes_file id))
    where
      by :
          (r : State × Option (FileManifest × List Text))
          → Reaches srv.db r.0
          → let after : Server World × Response (Text × Swept) = elim r.1 [
            | none ↦ (srv, failed 404)
            | some (f, unused) ↦
                let (srv', swept) = delete_unused_chunks net now unused (record srv { db = r.0 }) in
                (srv', ok (f.id, swept))
          ] in
            Reaches srv.db after.0.db
      by (db, none) h = stays srv.db
      by (db, some (f, unused)) h =
          and_then srv.db db _ h (delete_unused_chunks-Reaches now unused _)

  pub save_manifest-Reaches :
      (now : ℕ) (id : Text) (req : CreateFileRequest) (srv : Server World)
      → Reaches srv.db (save_manifest net now id req srv).0.db
  unfolding save_manifest step
  save_manifest-Reaches now id req srv =
      by (create_file now id req srv.db) (calls srv.db (creates now id req))
    where
      by :
          (r : State × Result FileManifest)
          → Reaches srv.db r.0
          → let after : Server World × Response FileManifest = elim r.1 [
            | Result.err _ ↦ (srv, failed 500)
            | Result.ok f ↦
                let (db', (old, unused)) = apply_retention f.backup_name (pos f.retention) r.0 in
                let (srv', _) = delete_unused_chunks net now unused (record srv { db = db' }) in
                (
                  srv',
                  created (record f { retention_deleted = map (λ (o : FileManifest). o.id) old }),
                )
          ] in
            Reaches srv.db after.0.db
      by (db, Result.err _) h = stays srv.db
      by (db, Result.ok f) h = and_then srv.db db _ h (
          and_then db _ _ (calls db (retains f.backup_name (pos f.retention)))
            (delete_unused_chunks-Reaches now _ _))

module _ (net : Network) (hash_data : List ℕ → Text) where
  open net use {World}

  finish_upload-Reaches :
      (clock : ℕ → ℕ) (id : Text) (req : BackupRequest) (filename : Text) (s : State)
      (r : Upload World × Option ℕ)
      → Reaches s r.0.db
      → Reaches s (finish_upload net hash_data clock id req filename r).0.db
  unfolding finish_upload
  finish_upload-Reaches clock id req filename s (u, some status) h = h
  finish_upload-Reaches clock id req filename s (u, none) h =
      and_then s u.db _ h (save_manifest-Reaches net _ id _ _)

  pub backup_file-Reaches :
      (clock : ℕ → ℕ) (id : Text) (max_upload : ℤ) (req : BackupRequest) (srv : Server World)
      → Reaches srv.db (backup_file net hash_data clock id max_upload req srv).0.db
  unfolding backup_file
  backup_file-Reaches clock id max_upload req srv = unless (leb_ℤ req.chunk_size (pos 0)) _ _ (
      unless (ltb_ℤ (pos max_chunk_size) req.chunk_size) _ _
        (unless (ltb_ℤ req.retention (pos 0)) _ _ (by (open_upload_part _))))
    where
      unless :
          (b : Bool) (status : ℕ) (r : Server World × Response FileManifest)
          → Reaches srv.db r.0.db
          → Reaches srv.db (if b then (srv, failed status) else r).0.db
      unless true status r h = stays srv.db
      unless false status r h = h

      by :
          (p : Option (Text × Reader))
          → let after : Server World × Response FileManifest = elim p [
            | none ↦ (srv, failed 400)
            | some (filename, r) ↦ finish_upload net hash_data clock id req filename (
                upload_loop net hash_data
                  (suc (length r.bytes))
                  clock
                  req.chunk_size
                  req.replication
                  0
                  r.faulty
                  r.bytes
                  (first_upload net hash_data srv))
          ] in
            Reaches srv.db after.0.db
      by none = stays srv.db
      by (some (filename, r)) = finish_upload-Reaches clock id req filename srv.db _ (
          upload_loop-Changed net hash_data Reaches stays and_then confirms-Reaches _ clock
            req.chunk_size req.replication 0 r.faulty r.bytes (first_upload net hash_data srv))
