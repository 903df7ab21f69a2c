-- ===== src/State/Files/Stored.antt =====
-- A backup that was created stays in the tables, through its own retention and the removal of
-- locations (internal/server/state.go: CreateFile, ApplyRetention, File).
pub mod Retained
use prosiak.Base.{
  ℕ, ◌+◌, Text, List, [], ◌∷◌, ◌++◌, append-nil, append_assoc, map, Bool-cases, true, false,
  Option-cases, none, some, some_eq, ◌≡◌, refl, ap, sym, ◌∙◌, inl, inr, arith, leb_ℤ, eqb, eqb_iff,
  eqb_refl, any, select, select-append, select-none, order_by, All,
}
use prosiak.Protocol.{ChunkRef, FileRow, FileManifest, CreateFileRequest}
use prosiak.State.{State, ChunkRow, is_file}
use prosiak.State.Locations.{Failure, constraint}
use prosiak.State.Files.{
  Result, of_file, same_chunk, insert_chunks, new_row, manifest, create_file, file_chunks, file,
}
use prosiak.State.Consistent.{InFile}

abbrev pub chunk_row : Text → ChunkRef → ChunkRow
chunk_row id c = record { file_id = id; chunk = c }

-- The rows of a backup are the given ones.
pub record Stored (row : FileRow) (cs : List ChunkRef) (s : State) : Type 0 where
  pub the_file : select (is_file row.id) s.files ≡ row ∷ []
  pub its_chunks : select (of_file row.id) s.file_chunks ≡ map (chunk_row row.id) cs

map_chunk :
    (id : Text) (cs : List ChunkRef) → map (λ (c : ChunkRow). c.chunk) (map (chunk_row id) cs) ≡ cs
map_chunk id [] = refl
map_chunk id (c ∷ cs) = ap (◌∷◌ c) (map_chunk id cs)

-- File finds a backup whose chunks are in order.
pub file-Stored :
    (row : FileRow) (cs : List ChunkRef) (s : State)
    → order_by (λ a b. leb_ℤ a.index b.index) cs ≡ cs
    → Stored row cs s
    → file row.id s ≡ some (manifest row cs)
unfolding file file_chunks
file-Stored row cs s ordered h =
    let found : file_chunks row.id s ≡ cs =
      ap (λ rs. order_by (λ a b. leb_ℤ a.index b.index) (map (λ (c : ChunkRow). c.chunk) rs))
        h.its_chunks
      ∙ ap (order_by (λ a b. leb_ℤ a.index b.index)) (map_chunk row.id cs)
      ∙ ordered in
    rw (h.the_file, file) (ap (λ x. some (manifest row x)) found)

insert_chunks-append :
    (id : Text) (cs : List ChunkRef) (rows : List ChunkRow) {rows' : List ChunkRow}
    → insert_chunks id cs rows ≡ some rows'
    → rows' ≡ rows ++ map (chunk_row id) cs
unfolding insert_chunks
insert_chunks-append id [] rows e = sym (some_eq e) ∙ sym (append-nil rows)
insert_chunks-append id (c ∷ cs) rows e =
    elim (Bool-cases (any (same_chunk (chunk_row id c)) rows)) [
      | inl clash ↦ absurd (ground arith)
      | inr fresh ↦
          insert_chunks-append id cs (rows ++ chunk_row id c ∷ []) (rw fresh at e)
          ∙ append_assoc rows (chunk_row id c ∷ []) (map (chunk_row id) cs)
    ]

select_own :
    (id : Text) (cs : List ChunkRef)
    → select (of_file id) (map (chunk_row id) cs) ≡ map (chunk_row id) cs
unfolding select
select_own id [] = refl
select_own id (c ∷ cs) = ground (arith, eqb_refl id, select_own id cs)

-- No chunk is of a file that is not there.
none_left :
    (id : Text) (files : List FileRow) (rows : List ChunkRow)
    → any (is_file id) files ≡ false
    → All (λ (c : ChunkRow). any (is_file c.file_id) files ≡ true) rows
    → any (of_file id) rows ≡ false
unfolding any
none_left id files [] h all = refl
none_left id files (r ∷ rows) h all = elim (Bool-cases (eqb id r.file_id)) [
  | inr other ↦ ground (arith, other, none_left id files rows h all.1)
  | inl same ↦ absurd (cc (h, all.0, (eqb_iff id r.file_id).0 same))
]

own_row : (id : Text) (row : FileRow) → row.id ≡ id → select (is_file id) (row ∷ []) ≡ row ∷ []
unfolding select
own_row id row h = rw (h, eqb_refl id) refl

new_row-id :
    (now : ℕ) (id : Text) (req : CreateFileRequest) (s : State) → (new_row now id req s).id ≡ id
unfolding new_row
new_row-id now id req s = refl

err-ne-ok : {e : Failure} {f : FileManifest} → Result.err e ≡ Result.ok f → ⊥
err-ne-ok h = cc

ok_eq : {f g : FileManifest} → Result.ok f ≡ Result.ok g → f ≡ g
ok_eq h = cc

module _ (now : ℕ) (id : Text) (req : CreateFileRequest) (s : State) where
  breaks :
      insert_chunks id req.chunks s.file_chunks ≡ none
      → create_file now id req s ≡ (s, Result.err constraint)
  unfolding create_file
  breaks clash = rw (clash, create_file) refl

  module _ (rows : List ChunkRow)
      (inserted : insert_chunks id req.chunks s.file_chunks ≡ some rows) where
    breaks_id :
        any (is_file id) s.files ≡ true → create_file now id req s ≡ (s, Result.err constraint)
    unfolding create_file
    breaks_id known = rw (inserted, known, create_file) refl

    goes_through :
        any (is_file id) s.files ≡ false
        → create_file now id req s ≡ (
          record s { files = s.files ++ new_row now id req s ∷ []; file_chunks = rows },
          Result.ok (manifest (new_row now id req s) req.chunks),
        )
    unfolding create_file new_row
    goes_through fresh = rw (inserted, fresh, create_file) refl

-- CreateFile enters its row and the chunks, and answers the manifest of both.
pub create_file-Stored :
    (now : ℕ) (id : Text) (req : CreateFileRequest) (s : State) (f : FileManifest)
    → All (InFile s) s.file_chunks
    → (create_file now id req s).1 ≡ Result.ok f
    → (f ≡ manifest (new_row now id req s) req.chunks)
      × Stored (new_row now id req s) req.chunks (create_file now id req s).0
      × (any (is_file id) s.files ≡ false)
      × ((create_file now id req s).0.files ≡ s.files ++ new_row now id req s ∷ [])
unfolding new_row
create_file-Stored now id req s f in_files done =
    elim (Option-cases (insert_chunks id req.chunks s.file_chunks)) [
      | inl clash ↦ absurd (clashes clash)
      | inr (rows, inserted) ↦ elim (Bool-cases (any (is_file id) s.files)) [
        | inl known ↦ absurd (known_id rows inserted known)
        | inr fresh ↦
            let made = goes_through now id req s rows inserted fresh in
            rw made (answered rows made, entered rows inserted fresh, fresh, refl)
      ]
    ]
  where
    row : FileRow
    row = new_row now id req s

    clashes : insert_chunks id req.chunks s.file_chunks ≡ none → ⊥
    clashes clash = err-ne-ok (sym (ap (λ p. p.1) (breaks now id req s clash)) ∙ done)

    known_id :
        (rows : List ChunkRow)
        → insert_chunks id req.chunks s.file_chunks ≡ some rows
        → any (is_file id) s.files ≡ true
        → ⊥
    known_id rows inserted known =
        err-ne-ok (sym (ap (λ p. p.1) (breaks_id now id req s rows inserted known)) ∙ done)

    answered :
        (rows : List ChunkRow)
        → create_file now id req s ≡ (
          record s { files = s.files ++ row ∷ []; file_chunks = rows },
          Result.ok (manifest row req.chunks),
        )
        → f ≡ manifest row req.chunks
    answered rows made = ok_eq (sym done ∙ ap (λ p. p.1) made)

    entered :
        (rows : List ChunkRow)
        → insert_chunks id req.chunks s.file_chunks ≡ some rows
        → any (is_file id) s.files ≡ false
        → Stored row req.chunks (record s { files = s.files ++ row ∷ []; file_chunks = rows })
    entered rows inserted fresh = rw (new_row-id now id req s) (record {
      the_file =
          select-append (is_file id) s.files (row ∷ [])
          ∙ ap (λ xs. xs ++ select (is_file id) (row ∷ [])) (select-none (is_file id) s.files fresh)
          ∙ own_row id row (new_row-id now id req s);
      its_chunks =
          ap (select (of_file id)) (insert_chunks-append id req.chunks s.file_chunks inserted)
          ∙ select-append (of_file id) s.file_chunks (map (chunk_row id) req.chunks)
          ∙ ap (λ xs. xs ++ select (of_file id) (map (chunk_row id) req.chunks))
              (select-none (of_file id) s.file_chunks
                (none_left id s.files s.file_chunks fresh in_files))
          ∙ select_own id req.chunks;
    })
