-- ===== src/State/Files/Stored/Retained.antt =====
-- A backup that was created stays through its own retention (internal/server/state.go:
-- ApplyRetention).
use prosiak.Base.{
  ℕ, zero, suc, ◌<◌, ℤ, Text, List, [], ◌∷◌, ◌++◌, append-nil, map, Bool-cases, true, false, ◌||◌,
  ◌≡◌, refl, sym, subst, ◌∙◌, inl, inr, arith, ◌==◌, eqb, eqb_iff, eqb_sym, any, any-map,
  any-order_by, any-select-false, any-drop, select, select-append, select-delete_where, order_by,
  order_by-last_first, drop, All, trim_space,
}
use prosiak.Protocol.{ChunkRef, FileRow}
use prosiak.State.{State, is_file, normalized_retention}
use prosiak.State.Files.{
  of_file, max_version, by_newest, of_backup, outdated, delete_row, delete_rows, apply_retention,
}
use prosiak.State.Files.Stored.{Stored}

-- The rows of a backup are still there after rows of other backups went.
delete_row-Stored :
    (id : Text) (row : FileRow) (cs : List ChunkRef) (s : State)
    → eqb row.id id ≡ false
    → Stored row cs s
    → Stored row cs (delete_row id s)
unfolding delete_row
delete_row-Stored id row cs s other h = record {
  the_file =
      select-delete_where (is_file row.id) (is_file id) s.files
        (λ f e. ground (arith, other, eqb_iff row.id f.id, eqb_iff id f.id, eqb_sym id row.id, e))
      ∙ h.the_file;
  its_chunks =
      select-delete_where (of_file row.id) (of_file id) s.file_chunks (λ c e.
        ground (arith, other, eqb_iff row.id c.file_id, eqb_iff id c.file_id, eqb_sym id row.id, e))
      ∙ h.its_chunks;
}

delete_rows-Stored :
    (ids : List Text) (row : FileRow) (cs : List ChunkRef) (s : State)
    → any (eqb row.id) ids ≡ false
    → Stored row cs s
    → Stored row cs (delete_rows ids s)
unfolding delete_rows any
delete_rows-Stored [] row cs s others h = h
delete_rows-Stored (id ∷ ids) row cs s others h =
    delete_rows-Stored ids row cs (delete_row id s) (ground arith)
      (delete_row-Stored id row cs s (ground arith) h)

-- A version that is above all others of its backup is the newest.
older :
    (name : Text) (row : FileRow) (fs : List FileRow)
    → max_version name fs < row.version
    → All (λ x. by_newest x row ≡ false) (select (of_backup name) fs)
unfolding max_version select by_newest
older name row [] h = tt
older name row (f ∷ fs) h = elim (Bool-cases (eqb name f.backup_name)) [
  | inl same ↦ rw same (ground (arith, same), older name row fs (ground (arith, same)))
  | inr other ↦ rw other (older name row fs (ground (arith, other)))
]

module _ (row : FileRow) (before : List FileRow) (fresh : any (is_file row.id) before ≡ false)
    (highest : max_version row.backup_name before < row.version) where
  not_among :
      (name : Text) (n : ℕ)
      → any (eqb row.id) (
          map
            (λ (f : FileRow). f.id)
            (drop n (order_by by_newest (select (of_backup name) before))))
        ≡ false
  not_among name n =
      any-map (eqb row.id) (λ (f : FileRow). f.id) _
      ∙ any-drop (is_file row.id) n _ (
          any-order_by by_newest (is_file row.id) _
          ∙ any-select-false (of_backup name) (is_file row.id) before fresh)

  -- The newest version of a backup is not outdated.
  newest-outdated :
      (name : Text) (n : ℕ) (s : State)
      → s.files ≡ before ++ row ∷ []
      → any (eqb row.id) (outdated name (suc n) s) ≡ false
  unfolding outdated select
  newest-outdated name n s files = rw files (elim (Bool-cases (eqb name row.backup_name)) [
    | inl own ↦
        rw (select-append (of_backup name) before (row ∷ []), picked own)
          (rw
            (order_by-last_first by_newest row (select (of_backup name) before)
              (older name row before (named own)))
            (not_among name n))
    | inr other ↦
        rw (select-append (of_backup name) before (row ∷ []), passed other)
          (rw (append-nil (select (of_backup name) before)) (not_among name (suc n)))
  ])
    where
      picked : eqb name row.backup_name ≡ true → select (of_backup name) (row ∷ []) ≡ row ∷ []
      picked own = rw own refl

      passed : eqb name row.backup_name ≡ false → select (of_backup name) (row ∷ []) ≡ []
      passed other = rw other refl

      named : eqb name row.backup_name ≡ true → max_version name before < row.version
      named own =
          subst (λ k. max_version k before < row.version)
            (sym ((eqb_iff name row.backup_name).0 own)) highest

  newest_kept :
      (name : Text) (n : ℕ) (s : State)
      → s.files ≡ before ++ row ∷ []
      → (n == 0) ≡ false
      → any (eqb row.id) (outdated name n s) ≡ false
  newest_kept name zero s files counts = absurd (ground (arith, counts))
  newest_kept name (suc n) s files counts = newest-outdated name n s files

  -- A retention after the last version was created leaves that one.
  pub apply_retention-Stored :
      (backup_name : Text) (keep : ℤ) (cs : List ChunkRef) (s : State)
      → s.files ≡ before ++ row ∷ []
      → Stored row cs s
      → Stored row cs (apply_retention backup_name keep s).0
  unfolding apply_retention
  apply_retention-Stored backup_name keep cs s files h =
      let name = trim_space backup_name in
      let n = normalized_retention keep in
      elim (Bool-cases (eqb name [] || (n == 0))) [
        | inl off ↦ rw off h
        | inr on ↦ rw on (
            delete_rows-Stored (outdated name n s) row cs s
              (newest_kept name n s files (ground (arith, on))) h)
      ]
