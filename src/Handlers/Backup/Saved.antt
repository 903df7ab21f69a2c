-- ===== src/Handlers/Backup/Saved.antt =====
-- What is in the tables after a manifest was saved (internal/server/handlers.go: the end of backupFile
-- and of createFile).
use prosiak.Base.{
  ℕ, ◌<◌, pos, Text, List, [], ◌∷◌, ◌++◌, map, false, some, ◌≡◌, refl, ap, sym, subst, ◌∙◌, arith,
  any, select, order_by, leb_ℤ, All,
}
use prosiak.Protocol.{ChunkRef, FileRow, FileManifest, CreateFileRequest}
use prosiak.Network.{Network}
use prosiak.State.{State, is_file}
use prosiak.State.Locations.{remove_chunk_location}
use prosiak.State.Files.{
  of_file, Result, new_row, manifest, create_file, apply_retention, max_version, file,
}
use prosiak.State.Files.Stored.{Stored, create_file-Stored, file-Stored}
use prosiak.State.Files.Stored.Retained.{apply_retention-Stored}
use prosiak.State.Consistent.{InFile}
use prosiak.Handlers.{Server, Response, created, failed}
use prosiak.Handlers.Delete.{delete_unused_chunks}
use prosiak.Handlers.Delete.Removes.{delete_unused_chunks-Changed}
use prosiak.Handlers.Backup.{save_manifest}
use prosiak.Handlers.Backup.Unsaved.{SameBackups, same, same_after}

remove_chunk_location-SameBackups :
    (hash id : Text) (s : State) → SameBackups s (remove_chunk_location hash id s)
unfolding remove_chunk_location
remove_chunk_location-SameBackups hash id s = record {
  files = ground arith;
  file_chunks = ground arith;
}

Stored-SameBackups :
    {row : FileRow} {cs : List ChunkRef} (s s' : State)
    → SameBackups s s'
    → Stored row cs s
    → Stored row cs s'
Stored-SameBackups {row} {cs} s s' same_tables h = record {
  the_file = ap (λ fs. select (is_file row.id) fs) same_tables.files ∙ h.the_file;
  its_chunks = ap (λ rs. select (of_file row.id) rs) same_tables.file_chunks ∙ h.its_chunks;
}

new_row-highest :
    (now : ℕ) (id : Text) (req : CreateFileRequest) (s : State)
    → max_version (new_row now id req s).backup_name s.files < (new_row now id req s).version
unfolding new_row
new_row-highest now id req s = omega arith

answered_row :
    {W : Type 0} {srv srv' : Server W} (g : FileManifest) {f : FileManifest} {ids : List Text}
    → ◌≡◌ {A = Server W × Response FileManifest}
        (srv, created (record g { retention_deleted = ids }))
        (srv', created f)
    → f.row ≡ g.row
answered_row g e = cc

module _ (net : Network) where
  open net use {World}

  -- A manifest that was saved can be read, with its chunks where these are in order.
  pub save_manifest-Stored :
      (now : ℕ) (id : Text) (req : CreateFileRequest) (srv srv' : Server World) (f : FileManifest)
      → All (InFile srv.db) srv.db.file_chunks
      → order_by (λ a b. leb_ℤ a.index b.index) req.chunks ≡ req.chunks
      → save_manifest net now id req srv ≡ (srv', created f)
      → (f.row.id ≡ id)
        × (f.row.size ≡ req.size)
        × (file id srv'.db ≡ some (manifest f.row req.chunks))
  unfolding save_manifest new_row
  save_manifest-Stored now id req srv srv' f in_files ordered done =
      by (create_file now id req srv.db) (λ g. create_file-Stored now id req srv.db g in_files) done
    where
      row : FileRow
      row = new_row now id req srv.db

      Saved : Server World × Response FileManifest → Type 0
      Saved r =
          (r ≡ (srv', created f))
          → (f.row.id ≡ id)
            × (f.row.size ≡ req.size)
            × (file id srv'.db ≡ some (manifest f.row req.chunks))

      by :
          (r : State × Result FileManifest)
          → ((g : FileManifest)
              → r.1 ≡ Result.ok g
              → (g ≡ manifest row req.chunks)
                × Stored row req.chunks r.0
                × (any (is_file id) srv.db.files ≡ false)
                × (r.0.files ≡ srv.db.files ++ row ∷ []))
          → let after : Server World × Response FileManifest = elim r.1 [
            | Result.err _ ↦ (srv, failed 500)
            | Result.ok g ↦
                let (db', (old, unused)) = apply_retention g.backup_name (pos g.retention) r.0 in
                let (srv', _) = delete_unused_chunks net now unused (record srv { db = db' }) in
                (
                  srv',
                  created (record g { retention_deleted = map (λ (o : FileManifest). o.id) old }),
                )
          ] in
            Saved after
      by (db, Result.err _) entered e = absurd (cc)
      by (db, Result.ok g) entered e =
          let (same_manifest, there, fresh, files) = entered g refl in
          let swept =
            delete_unused_chunks net now (apply_retention g.backup_name (pos g.retention) db).1.1
              (record srv { db = (apply_retention g.backup_name (pos g.retention) db).0 }) in
          let kept =
            apply_retention-Stored row srv.db.files fresh (new_row-highest now id req srv.db)
              g.backup_name (pos g.retention) req.chunks db files there in
          let final =
            Stored-SameBackups _ swept.0.db
              (delete_unused_chunks-Changed net SameBackups same same_after
                remove_chunk_location-SameBackups now _ _)
              kept in
          let same_row : f.row ≡ row =
            answered_row g e ∙ ap (λ (m : FileManifest). m.row) same_manifest in
          let same_db : swept.0.db ≡ srv'.db =
            ap (λ (r : Server World × Response FileManifest). r.0.db) e in
          (
            ap (λ (r : FileRow). r.id) same_row,
            ap (λ (r : FileRow). r.size) same_row,
            subst (λ d. file id d ≡ some (manifest f.row req.chunks)) same_db
                (file-Stored row req.chunks swept.0.db ordered final
                  ∙ ap (λ r. some (manifest r req.chunks)) (sym same_row)),
          )
