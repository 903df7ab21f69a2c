-- ===== src/State/Files/Retention.antt =====
-- What ApplyRetention keeps of a backup (internal/server/state.go).
use prosiak.Base.{
  ℕ, ℤ, Text, List, [], ◌∷◌, ◌++◌, true, false, not, ◌&&◌, take, drop, take-append-drop, ◌≡◌, refl,
  ap, sym, subst, ◌∙◌, ◌⊎◌, ◌≤◌, arith, ◌==◌, eqb, eqb_iff, leb_text_total, leb_text_trans,
  trim_space, any, any-map, select, delete_where, order_by, All, length, IsOrder, Ordered, Before,
  order_by-Ordered, take-Ordered, full_or_all,
}
use prosiak.Protocol.{FileRow}
use prosiak.State.{State, is_file, normalized_retention}
use prosiak.State.Locations.{uses}
use prosiak.State.Files.{
  of_backup, by_newest, outdated, delete_row, delete_rows, manifests, all_chunks, apply_retention,
}
use prosiak.State.Files.Unused.{any-unused_hashes}

by_newest-IsOrder : IsOrder by_newest
unfolding by_newest
by_newest-IsOrder = record {
  total = λ a b h. ground (arith, h, leb_text_total b.id a.id);
  trans = λ a b c h k. ground (arith, h, k, leb_text_trans c.id b.id a.id);
}

delete_where-any :
    (id k : Text) (fs : List FileRow)
    → any (is_file k) (delete_where (is_file id) fs) ≡ (any (is_file k) fs && not (eqb k id))
unfolding any delete_where select
delete_where-any id k [] = refl
delete_where-any id k (f ∷ fs) =
    ground (arith, delete_where-any id k fs, eqb_iff k id, eqb_iff k f.id, eqb_iff id f.id)

any-delete_rows :
    (ids : List Text) (k : Text) (s : State)
    → any (is_file k) (delete_rows ids s).files ≡ (any (is_file k) s.files && not (any (eqb k) ids))
unfolding delete_rows delete_row any
any-delete_rows [] k s = ground arith
any-delete_rows (id ∷ ids) k s =
    ground (arith, any-delete_rows ids k (delete_row id s), delete_where-any id k s.files)

module _ (backup_name : Text) (keep : ℤ) (s : State) where
  -- What a retention promises, with the rows that it keeps and those that it removes.
  pub record Retains (kept gone : List FileRow) : Type 0 where
    pub ranked :
        kept ++ gone ≡ order_by by_newest (select (of_backup (trim_space backup_name)) s.files)
    pub ordered : Ordered by_newest (kept ++ gone)
    pub newest : All (λ f. Before by_newest f gone) kept
    pub enough :
        (length kept ≡ normalized_retention keep)
        ⊎ ((gone ≡ []) × (length kept ≤ normalized_retention keep))
    pub left :
        (id : Text)
        → any (is_file id) (apply_retention backup_name keep s).0.files
          ≡ (any (is_file id) s.files && not (any (is_file id) gone))
    pub unused :
        (h : Text)
        → any (eqb h) (apply_retention backup_name keep s).1.1 ≡ true
        → any (uses h) (apply_retention backup_name keep s).0.file_chunks ≡ false

  -- A retention of a named backup to a positive count keeps as many of its versions as the count, or
  -- all where there are fewer, and each that it keeps is newer than each that it removes: of a higher
  -- version, or else created later, or else of a greater id. The rows that are left in the table are
  -- those whose id none of the removed rows has, and no hash that is reported is used any more.
  pub apply_retention-Retains :
      eqb (trim_space backup_name) [] ≡ false
      → (normalized_retention keep == 0) ≡ false
      → (kept : List FileRow) × (gone : List FileRow) × Retains kept gone
  unfolding apply_retention outdated
  apply_retention-Retains named some_kept = (
    take n versions,
    drop n versions,
    record {
      ranked = take-append-drop n versions;
      ordered = subst (Ordered by_newest) (sym (take-append-drop n versions)) sorted;
      newest = take-Ordered by_newest n versions sorted;
      enough = full_or_all n versions;
      left = λ id.
          rw (named, some_kept)
            (any-delete_rows ids id s
              ∙ ap (λ b. any (is_file id) s.files && not b)
                  (any-map (eqb id) (λ (f : FileRow). f.id) (drop n versions)));
      unused = λ h.
          rw (named, some_kept)
            (λ reported. ground (
              arith,
              reported,
              any-unused_hashes (delete_rows ids s) h [] (all_chunks (manifests s ids)),
            ));
    },
  )
    where
      n : ℕ
      n = normalized_retention keep

      versions : List FileRow
      versions = order_by by_newest (select (of_backup (trim_space backup_name)) s.files)

      ids : List Text
      ids = outdated (trim_space backup_name) n s

      sorted : Ordered by_newest versions
      sorted = order_by-Ordered by_newest by_newest-IsOrder _
