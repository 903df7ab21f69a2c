-- ===== src/State/Consistent/Files.antt =====
-- The invariant of the database under CreateFile, UpdateFileReplication, DeleteFile and
-- ApplyRetention (internal/server/state.go).
use prosiak.Base.{
  ℕ, zero, suc, ℤ, pos, negsuc, Text, List, [], ◌∷◌, ◌++◌, some, Option-cases, some_eq, Bool-cases,
  false, not, ◌&&◌, ◌||◌, ◌≡◌, refl, subst, ◌∙◌, inl, inr, arith, ◌<◌, ◌==◌, eqb, eqb_iff, eqb_sym,
  eqb_refl, any, delete_where, All, All-mono, All-append, All-select, All-select_mono,
  All-update_where, Distinct, Distinct-select, Distinct-append_one, Distinct-update_where,
  any-append, any-select, any-update_where, trim_space,
}
use prosiak.Protocol.{ChunkRef, FileRow, CreateFileRequest}
use prosiak.State.{State, ChunkRow, is_file, normalized_replication, normalized_retention}
use prosiak.State.Files.{
  same_chunk, insert_chunks, max_version, new_row, create_file, update_file_replication, delete_row,
  delete_rows, delete_file, apply_retention, file, outdated,
}
use prosiak.State.Consistent.{Consistent, InFile, HasCopies, same_file, same_version}

pub normalized_replication-pos : (r : ℤ) → 0 < normalized_replication r
unfolding normalized_replication
normalized_replication-pos (pos zero) = omega arith
normalized_replication-pos (pos (suc n)) = omega arith
normalized_replication-pos (negsuc n) = omega arith

same_chunk_sym : (a b : ChunkRow) → same_chunk a b ≡ same_chunk b a
same_chunk_sym a b = ground (arith, eqb_sym a.file_id b.file_id)

-- The rows that a run of INSERTs ends with keep the primary key, and what holds of all old and new.
insert_chunks-Distinct :
    (id : Text) (cs : List ChunkRef) (rows : List ChunkRow) {rows' : List ChunkRow}
    → insert_chunks id cs rows ≡ some rows'
    → Distinct same_chunk rows
    → Distinct same_chunk rows'
unfolding insert_chunks
insert_chunks-Distinct id [] rows e d = subst (Distinct same_chunk) (some_eq e) d
insert_chunks-Distinct id (c ∷ cs) rows e d =
    let row : ChunkRow = record { file_id = id; chunk = c } in
    elim (Bool-cases (any (same_chunk row) rows)) [
      | inl clash ↦ absurd (ground arith)
      | inr fresh ↦
          insert_chunks-Distinct id cs (rows ++ row ∷ []) (rw fresh at e)
            (Distinct-append_one same_chunk rows row (λ r. same_chunk_sym r row) d fresh)
    ]

pub insert_chunks-All {κ} :
    (P : ChunkRow → Type κ) (id : Text) (cs : List ChunkRef) (rows : List ChunkRow)
    {rows' : List ChunkRow}
    → insert_chunks id cs rows ≡ some rows'
    → ((c : ChunkRef) → P (record { file_id = id; chunk = c }))
    → All P rows
    → All P rows'
unfolding insert_chunks
insert_chunks-All P id [] rows e new h = subst (All P) (some_eq e) h
insert_chunks-All P id (c ∷ cs) rows e new h =
    let row : ChunkRow = record { file_id = id; chunk = c } in
    elim (Bool-cases (any (same_chunk row) rows)) [
      | inl clash ↦ absurd (ground arith)
      | inr fresh ↦
          insert_chunks-All P id cs (rows ++ row ∷ []) (rw fresh at e) new
            (All-append P rows (row ∷ []) h (new c, tt))
    ]

-- A version above the greatest is new.
pub max_version-above :
    (name : Text) (v : ℕ) (fs : List FileRow)
    → max_version name fs < v
    → any (λ (f : FileRow). eqb name f.backup_name && (v == f.version)) fs ≡ false
unfolding max_version any
max_version-above name v [] h = refl
max_version-above name v (f ∷ fs) h = ground (arith, max_version-above name v fs)

-- The transaction of CreateFile, where it goes through.
created-Consistent :
    (s : State) (row : FileRow) (rows : List ChunkRow)
    → any (is_file row.id) s.files ≡ false
    → max_version row.backup_name s.files < row.version
    → 0 < row.replication
    → Distinct same_chunk rows
    → All (InFile (record s { files = s.files ++ row ∷ [] })) rows
    → Consistent s
    → Consistent (record s { files = s.files ++ row ∷ []; file_chunks = rows })
created-Consistent s row rows fresh v copies d owned c = record {
  node_ids = c.node_ids;
  file_ids = Distinct-append_one same_file s.files row (λ f. eqb_sym f.id row.id) c.file_ids fresh;
  chunk_keys = d;
  location_keys = c.location_keys;
  on_nodes = c.on_nodes;
  in_files = owned;
  versions =
      Distinct-append_one same_version s.files row
        (λ f. ground (arith, eqb_sym f.backup_name row.backup_name)) c.versions
        (max_version-above row.backup_name row.version s.files v);
  copies = All-append HasCopies s.files (row ∷ []) c.copies (copies, tt);
}

new_row-Consistent :
    (now : ℕ) (id : Text) (req : CreateFileRequest) (s : State) (rows : List ChunkRow)
    → insert_chunks id req.chunks s.file_chunks ≡ some rows
    → any (is_file id) s.files ≡ false
    → Consistent s
    → Consistent (record s { files = s.files ++ new_row now id req s ∷ []; file_chunks = rows })
unfolding new_row any
new_row-Consistent now id req s rows e fresh c =
    created-Consistent s row rows fresh (omega arith) (normalized_replication-pos req.replication)
      (insert_chunks-Distinct id req.chunks s.file_chunks e c.chunk_keys)
      (insert_chunks-All (InFile s') id req.chunks s.file_chunks e
        (λ _. any-append (is_file id) s.files (row ∷ []) ∙ rw (fresh, eqb_refl id))
        (All-mono (InFile s) (InFile s') s.file_chunks
          (λ r h. any-append (is_file r.file_id) s.files (row ∷ []) ∙ rw h) c.in_files))
      c
  where
    row : FileRow
    row = new_row now id req s

    s' : State
    s' = record s { files = s.files ++ row ∷ [] }

pub create_file-Consistent :
    (now : ℕ) (id : Text) (req : CreateFileRequest) (s : State)
    → Consistent s
    → Consistent (create_file now id req s).0
unfolding create_file
create_file-Consistent now id req s c =
    elim (Option-cases (insert_chunks id req.chunks s.file_chunks)) [
      | inl clash ↦ rw (clash, create_file) c
      | inr (rows, e) ↦ elim (Bool-cases (any (is_file id) s.files)) [
        | inl known ↦ rw (e, create_file, known) c
        | inr fresh ↦ rw (e, create_file, fresh) (new_row-Consistent now id req s rows e fresh c)
      ]
    ]

pub update_file_replication-Consistent :
    (id : Text) (replication : ℤ) (s : State)
    → Consistent s
    → Consistent (update_file_replication id replication s).0
unfolding update_file_replication
update_file_replication-Consistent id replication s c =
    elim (Bool-cases (any (is_file id) s.files)) [
      | inr missing ↦ rw missing c
      | inl known ↦ rw known (record {
        node_ids = c.node_ids;
        file_ids =
            Distinct-update_where same_file (is_file id) set s.files (λ f g e. refl) (λ f g e. refl)
              c.file_ids;
        chunk_keys = c.chunk_keys;
        location_keys = c.location_keys;
        on_nodes = c.on_nodes;
        in_files =
            All-mono (InFile s) _ s.file_chunks
              (λ r h.
                any-update_where (is_file id) (is_file r.file_id) set s.files (λ f e. refl) ∙ h)
              c.in_files;
        versions =
            Distinct-update_where same_version (is_file id) set s.files (λ f g e. refl)
              (λ f g e. refl) c.versions;
        copies =
            All-update_where HasCopies (is_file id) set s.files
              (λ f e h. normalized_replication-pos replication) c.copies;
      })
    ]
  where
    set : FileRow → FileRow
    set f = record f { replication = normalized_replication replication }

-- A file other than the deleted one is still there.
other_file :
    (id k : Text) (files : List FileRow)
    → eqb id k ≡ false
    → any (is_file k) (delete_where (is_file id) files) ≡ any (is_file k) files
unfolding delete_where
other_file id k files other =
    any-select (λ f. not (is_file id f)) (is_file k) files
      (λ f e. ground (arith, eqb_iff id k, eqb_iff k f.id, eqb_iff id f.id))

pub delete_row-Consistent : (id : Text) (s : State) → Consistent s → Consistent (delete_row id s)
unfolding delete_row delete_where
delete_row-Consistent id s c = record {
  node_ids = c.node_ids;
  file_ids = Distinct-select same_file _ s.files c.file_ids;
  chunk_keys = Distinct-select same_chunk _ s.file_chunks c.chunk_keys;
  location_keys = c.location_keys;
  on_nodes = c.on_nodes;
  in_files =
      All-select_mono (InFile s) _ _ s.file_chunks
        (λ r kept h. other_file id r.file_id s.files (ground arith) ∙ h) c.in_files;
  versions = Distinct-select same_version _ s.files c.versions;
  copies = All-select HasCopies _ s.files c.copies;
}

pub delete_rows-Consistent :
    (ids : List Text) (s : State) → Consistent s → Consistent (delete_rows ids s)
unfolding delete_rows
delete_rows-Consistent [] s c = c
delete_rows-Consistent (id ∷ ids) s c =
    delete_rows-Consistent ids (delete_row id s) (delete_row-Consistent id s c)

pub delete_file-Consistent :
    (id : Text) (s : State) → Consistent s → Consistent (delete_file id s).0
unfolding delete_file
delete_file-Consistent id s c = elim (Option-cases (file id s)) [
  | inl missing ↦ rw (missing, delete_file) c
  | inr (f, found) ↦ rw (found, delete_file) (delete_row-Consistent id s c)
]

pub apply_retention-Consistent :
    (backup_name : Text) (keep : ℤ) (s : State)
    → Consistent s
    → Consistent (apply_retention backup_name keep s).0
unfolding apply_retention
apply_retention-Consistent backup_name keep s c =
    let name = trim_space backup_name in
    let n = normalized_retention keep in
    elim (Bool-cases (eqb name [] || (n == 0))) [
      | inl off ↦ rw off c
      | inr on ↦ rw on (delete_rows-Consistent (outdated name n s) s c)
    ]
