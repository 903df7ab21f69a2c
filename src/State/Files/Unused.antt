-- ===== src/State/Files/Unused.antt =====
-- The hashes that DeleteFile reports as unused (internal/server/state.go).
use prosiak.Base.{
  Text, List, [], ◌∷◌, Bool, Bool-cases, false, not, ◌&&◌, some, Option-cases, ◌≡◌, refl, ap, sym,
  subst, ◌∙◌, inl, inr, arith, ◌==◌, eqb, eqb_iff, eqb_refl, any, any-map, any-order_by,
  any-delete_where, select, delete_where, count_where, count_where-any, any-count_where,
  any-select_both,
}
use prosiak.Protocol.{ChunkRef, FileManifest}
use prosiak.State.{State, ChunkRow, is_file}
use prosiak.State.Nodes.{query_row}
use prosiak.State.Locations.{uses}
use prosiak.State.Files.{of_file, file, file_chunks, delete_row, unused_hashes, delete_file}

abbrev of_hash : Text → ChunkRef → Bool
of_hash h c = eqb h c.hash

count_zero {ℓ} :
    {A : Type ℓ} (p : A → Bool) (xs : List A) → (count_where p xs == 0) ≡ not (any p xs)
count_zero p xs = elim (Bool-cases (any p xs)) [
  | inr none_there ↦ ground (arith, none_there, any-count_where p xs none_there)
  | inl there ↦ ground (arith, there, count_where-any p xs)
]

-- The collected hashes are the unused ones that were not met before.
pub any-unused_hashes :
    (s : State) (h : Text) (seen : List Text) (cs : List ChunkRef)
    → any (eqb h) (unused_hashes s seen cs)
      ≡ (any (of_hash h) cs && (not (any (eqb h) seen) && not (any (uses h) s.file_chunks)))
unfolding unused_hashes any
any-unused_hashes s h seen [] = refl
any-unused_hashes s h seen (c ∷ cs) = elim (Bool-cases (eqb h c.hash)) [
  | inl same ↦ subst At (sym ((eqb_iff h c.hash).0 same)) (
      ground (
        arith,
        eqb_refl c.hash,
        count_zero (uses c.hash) s.file_chunks,
        any-unused_hashes s c.hash seen cs,
        any-unused_hashes s c.hash (c.hash ∷ seen) cs,
      ))
  | inr other ↦
      ground (arith, other, any-unused_hashes s h seen cs, any-unused_hashes s h (c.hash ∷ seen) cs)
]
  where
    At : Text → Type 0
    At k =
        any (eqb k) (unused_hashes s seen (c ∷ cs))
        ≡ (any (of_hash k) (c ∷ cs) && (not (any (eqb k) seen) && not (any (uses k) s.file_chunks)))

any-file_chunks :
    (h id : Text) (s : State)
    → any (of_hash h) (file_chunks id s) ≡ any (λ c. uses h c && of_file id c) s.file_chunks
unfolding file_chunks
any-file_chunks h id s =
    any-order_by _ (of_hash h) _
    ∙ any-map (of_hash h) (λ (c : ChunkRow). c.chunk) (select (of_file id) s.file_chunks)
    ∙ any-select_both (of_file id) (uses h) s.file_chunks

delete_row-any :
    (id h : Text) (s : State)
    → any (uses h) (delete_row id s).file_chunks
      ≡ any (λ c. uses h c && not (of_file id c)) s.file_chunks
unfolding delete_row delete_where
delete_row-any id h s = any-select_both (λ c. not (of_file id c)) (uses h) s.file_chunks

file-chunks :
    (id : Text) (s : State) (f : FileManifest) → file id s ≡ some f → f.chunks ≡ file_chunks id s
unfolding file
file-chunks id s f h = elim (Option-cases (query_row (select (is_file id) s.files))) [
  | inl unknown ↦ absurd (ground (arith, unknown, h))
  | inr (row, known) ↦ ground (arith, known, h)
]

-- A deletion reports exactly the hashes that the backup uses and no other backup does: where the
-- backup of the id is found, a hash is reported if a row of the table of chunks has it under this id
-- and no row has it under another. What it answers is the backup as it was, with its chunks, and the
-- rows of that id are gone.
pub delete_file-unused_hashes :
    (id : Text) (s : State) (f : FileManifest)
    → file id s ≡ some f
    → (unused : List Text) × ((delete_file id s).1 ≡ some (f, unused))
      × ((h : Text)
          → any (eqb h) unused ≡ (
              any (λ c. uses h c && of_file id c) s.file_chunks
              && not (any (λ c. uses h c && not (of_file id c)) s.file_chunks)))
      × (any (of_file id) (delete_file id s).0.file_chunks ≡ false)
      × (any (is_file id) (delete_file id s).0.files ≡ false)
unfolding delete_file delete_row any
delete_file-unused_hashes id s f found =
    rw (found, delete_file)
      (
        unused_hashes (delete_row id s) [] f.chunks,
        refl,
        reported,
        any-delete_where (of_file id) (of_file id) s.file_chunks (λ c h. h),
        any-delete_where (is_file id) (is_file id) s.files (λ r h. h),
      )
  where
    kept :
        (h : Text)
        → any (uses h) (delete_row id s).file_chunks
          ≡ any (λ c. uses h c && not (of_file id c)) s.file_chunks
    kept h = delete_row-any id h s

    reported :
        (h : Text)
        → any (eqb h) (unused_hashes (delete_row id s) [] f.chunks) ≡ (
            any (λ c. uses h c && of_file id c) s.file_chunks
            && not (any (λ c. uses h c && not (of_file id c)) s.file_chunks))
    reported h =
        any-unused_hashes (delete_row id s) h [] f.chunks
        ∙ ap (λ cs. any (of_hash h) cs && not (any (uses h) (delete_row id s).file_chunks))
            (file-chunks id s f found)
        ∙ ap (λ b. b && not (any (uses h) (delete_row id s).file_chunks)) (any-file_chunks h id s)
        ∙ ap (λ b. any (λ c. uses h c && of_file id c) s.file_chunks && not b) (kept h)
