-- ===== src/Store/Contents.antt =====
-- The contents of a store as a map (internal/chunkstore/store.go).
use prosiak.Base.{
  ℕ, Text, List, [], ◌∷◌, Bool, Bool-cases, true, false, Option, Option-cases, none, some, some_eq,
  delete_where, ◌≡◌, ◌≢◌, inl, inr, refl, ap, sym, ◌∙◌, arith, if◌then◌else◌, eqb, eqb_iff,
  eqb_refl, eqb_other, any, select,
}
use prosiak.Store.{
  Store, Stored, Aead, invalid_hash, not_found, Result, ok, err, path, chunk_file, read_file, new,
  open_chunk,
}

-- The contents of the chunks, by the name in the path of a hash.
abbrev pub Contents : Type 0
Contents = Text → Option (List ℕ)

abbrev pub no_contents : Contents
no_contents name = none

abbrev pub with_content : Text → Option (List ℕ) → Contents → Contents
with_content name content m other = if eqb other name then content else m other

-- What Open answers on a map of contents.
unfoldable pub looked_up : Contents → Text → Result (List ℕ)
looked_up m hash = elim (path hash) [
  | none ↦ err invalid_hash
  | some name ↦ elim (m name) [ none ↦ err not_found | some content ↦ ok content ]
]

-- A store shows the contents of a map.
abbrev pub Represents : Contents → Store → Type 0
Represents m s = (hash : Text) → open_chunk hash s ≡ looked_up m hash

abbrev found : Option (List ℕ) → Result (List ℕ)
found none = err not_found
found (some content) = ok content

looked_up-with_content :
    (name other : Text) (content : Option (List ℕ)) (m : Contents)
    → path other ≡ some name
    → looked_up (with_content name content m) other ≡ found content
unfolding looked_up
looked_up-with_content name other none m h = rw (looked_up, h, eqb_refl name) refl
looked_up-with_content name other (some content) m h = rw (looked_up, h, eqb_refl name) refl

looked_up-with_content_other :
    (name other : Text) (content : Option (List ℕ)) (m : Contents)
    → path other ≢ some name
    → looked_up (with_content name content m) other ≡ looked_up m other
unfolding looked_up
looked_up-with_content_other name other content m h = elim (Option-cases (path other)) [
  | inl bad ↦ rw (looked_up, bad) refl
  | inr (name', e) ↦ rw (looked_up, e, eqb_other name' name (λ same. h (e ∙ ap some same))) refl
]

pub open_chunk-invalid :
    (hash : Text) (s : Store) → path hash ≡ none → open_chunk hash s ≡ err invalid_hash
unfolding open_chunk
open_chunk-invalid hash s h = rw (h, open_chunk) refl

pub open_chunk-path : (a b : Text) (s : Store) → path a ≡ path b → open_chunk a s ≡ open_chunk b s
unfolding open_chunk
open_chunk-path a b s h = rw (h, open_chunk) refl

-- The content at one name changes, and no other.
pub with_content-Represents :
    (m : Contents) (s s' : Store) (name : Text) (content : Option (List ℕ))
    → Represents m s
    → ((other : Text) → path other ≡ some name → open_chunk other s' ≡ found content)
    → ((other : Text) → path other ≢ some name → open_chunk other s' ≡ open_chunk other s)
    → Represents (with_content name content m) s'
with_content-Represents m s s' name content h here there other =
    elim (Bool-cases (eqb_path (path other))) [
      | inl same ↦
          here other (path_same (path other) same)
          ∙ sym (looked_up-with_content name other content m (path_same (path other) same))
      | inr differs ↦
          there other (path_differs (path other) differs)
          ∙ h other
          ∙ sym (
              looked_up-with_content_other name other content m (path_differs (path other) differs))
    ]
  where
    eqb_path : Option Text → Bool
    eqb_path none = false
    eqb_path (some n) = eqb n name

    path_same : (p : Option Text) → eqb_path p ≡ true → p ≡ some name
    path_same none e = absurd (ground (arith, e))
    path_same (some n) e = ap some ((eqb_iff n name).0 e)

    path_differs : (p : Option Text) → eqb_path p ≡ false → p ≢ some name
    path_differs none e same = absurd (ground (arith, same))
    path_differs (some n) e same = absurd (ground (arith, e, (eqb_iff n name).1 (some_eq same)))

pub read_file-deleted :
    (name : Text) (fs : List Stored) → read_file name (delete_where (chunk_file name) fs) ≡ none
unfolding read_file delete_where select
read_file-deleted name [] = refl
read_file-deleted name (f ∷ fs) = ground (arith, read_file-deleted name fs)

pub read_file-absent :
    (name : Text) (fs : List Stored) → any (chunk_file name) fs ≡ false → read_file name fs ≡ none
unfolding read_file any
read_file-absent name [] h = refl
read_file-absent name (f ∷ fs) h = ground (arith, read_file-absent name fs, h)

pub open_chunk-missing :
    (other name : Text) (s : Store)
    → path other ≡ some name
    → read_file name s.files ≡ none
    → open_chunk other s ≡ err not_found
unfolding open_chunk
open_chunk-missing other name s e h = rw (e, open_chunk) (rw h refl)

pub nothing_left : (s : Store) → s.files ≡ [] → Represents no_contents s
unfolding looked_up read_file
nothing_left s h other = elim (Option-cases (path other)) [
  | inl bad ↦ rw (looked_up, bad) (open_chunk-invalid other s bad)
  | inr (name, e) ↦ rw (looked_up, e) (open_chunk-missing other name s e (ap (read_file name) h))
]

pub new-files :
    (cipher : List ℕ → Aead) (key : List ℕ) (s : Store) → new cipher key [] ≡ ok s → s.files ≡ []
unfolding new
new-files cipher [] s h = ground (arith, h)
new-files cipher (k ∷ key) s h = ground (arith, h)
