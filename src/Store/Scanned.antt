-- ===== src/Store/Scanned.antt =====
-- What the files of a store hold, as they are counted and read (internal/chunkstore/store.go: scanUsed,
-- Open).
use prosiak.Base.{
  ℕ, Text, List, [], ◌∷◌, ◌++◌, Bool, Bool-cases, true, false, not, ◌&&◌, Option, none, some, ◌≡◌,
  refl, ap, fun_ext, sym, ◌∙◌, inl, inr, arith, ◌+◌, if◌then◌else◌, eqb, eqb_iff, eqb_sym, eqb_refl,
  any, select, any-delete_where, delete_where, length, Distinct, Distinct-select,
  Distinct-append_one,
}
use prosiak.Store.{Stored, chunk_file, temporary_file, scan_used, read_file, file_size, renamed}

-- Two files of one name.
abbrev pub same_name : Stored → Stored → Bool
same_name a b = eqb a.name b.name && (if a.temporary then b.temporary else not b.temporary)

pub scan_used-append : (xs ys : List Stored) → scan_used (xs ++ ys) ≡ scan_used xs + scan_used ys
unfolding scan_used
scan_used-append [] ys = omega arith
scan_used-append (f ∷ fs) ys = omega (arith, scan_used-append fs ys)

-- Temporary files do not count.
pub scan_used-temporary :
    (name : Text) (fs : List Stored)
    → scan_used (delete_where (temporary_file name) fs) ≡ scan_used fs
unfolding scan_used delete_where select
scan_used-temporary name [] = refl
scan_used-temporary name (f ∷ fs) = ground (arith, scan_used-temporary name fs)

pub read_file-temporary :
    (name other : Text) (fs : List Stored)
    → read_file name (delete_where (temporary_file other) fs) ≡ read_file name fs
unfolding read_file delete_where select
read_file-temporary name other [] = refl
read_file-temporary name other (f ∷ fs) = ground (arith, read_file-temporary name other fs)

absent :
    (name : Text) (fs : List Stored)
    → any (chunk_file name) fs ≡ false
    → (delete_where (chunk_file name) fs ≡ fs) × (read_file name fs ≡ none)
unfolding any delete_where select read_file
absent name [] h = (refl, refl)
absent name (f ∷ fs) h = ground (arith, absent name fs)

chunk_file-same_name :
    (name : Text) (f g : Stored) → chunk_file name f ≡ true → same_name f g ≡ chunk_file name g
chunk_file-same_name name f g h =
    ground (arith, eqb_iff name f.name, eqb_iff f.name g.name, eqb_iff name g.name)

-- The one file of a chunk accounts for what its deletion frees.
pub scan_used-chunk :
    (name : Text) (fs : List Stored)
    → Distinct same_name fs
    → scan_used (delete_where (chunk_file name) fs) + file_size name fs ≡ scan_used fs
unfolding scan_used delete_where select file_size read_file
scan_used-chunk name [] d = refl
scan_used-chunk name (f ∷ fs) d = elim (Bool-cases (chunk_file name f)) [
  | inl here ↦
      let none_later : any (chunk_file name) fs ≡ false =
        ap (λ p. any p fs) (fun_ext (λ g. sym (chunk_file-same_name name f g here))) ∙ d.0 in
      let rest = absent name fs none_later in ground (arith, ap scan_used rest.0)
  | inr there ↦ ground (arith, scan_used-chunk name fs d.1)
]

read_file-append :
    (name : Text) (fs : List Stored) (content : List ℕ)
    → any (chunk_file name) fs ≡ false
    → read_file name (fs ++ record { name = name; temporary = false; content = content } ∷ [])
      ≡ some content
unfolding read_file any
read_file-append name [] content h = ground (arith, eqb_refl name)
read_file-append name (f ∷ fs) content h = ground (arith, read_file-append name fs content)

pub renamed-read_file :
    (name : Text) (content : List ℕ) (fs : List Stored)
    → read_file name (renamed name content fs) ≡ some content
renamed-read_file name content fs = read_file-append name _ content (
    any-delete_where (chunk_file name) (chunk_file name) (delete_where (temporary_file name) fs)
      (λ f h. h))

pub same_name_sym : (a b : Stored) → same_name a b ≡ same_name b a
same_name_sym a b = ground (arith, eqb_sym a.name b.name)

pub renamed-Distinct :
    (name : Text) (content : List ℕ) (fs : List Stored)
    → Distinct same_name fs
    → Distinct same_name (renamed name content fs)
unfolding delete_where
renamed-Distinct name content fs d =
    Distinct-append_one same_name _ new_file (λ f. same_name_sym f new_file)
      (Distinct-select same_name _ _ (Distinct-select same_name _ fs d))
      (any-delete_where (chunk_file name) (same_name new_file) _ (λ f h. h))
  where
    new_file : Stored
    new_file = record { name = name; temporary = false; content = content }

pub scan_used-renamed :
    (name : Text) (content : List ℕ) (fs : List Stored)
    → Distinct same_name fs
    → scan_used (renamed name content fs) + file_size name fs ≡ scan_used fs + length content
unfolding scan_used delete_where file_size
scan_used-renamed name content fs d =
    let kept = delete_where (temporary_file name) fs in
    omega (
      arith,
      scan_used-append (delete_where (chunk_file name) kept)
          (record { name = name; temporary = false; content = content } ∷ []),
      scan_used-chunk name kept (Distinct-select same_name _ fs d),
      scan_used-temporary name fs,
      ap size_of (read_file-temporary name name fs),
    )
  where
    size_of : Option (List ℕ) → ℕ
    size_of o = elim o [ none ↦ 0 | some c ↦ length c ]
