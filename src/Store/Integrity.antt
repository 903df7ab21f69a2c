-- ===== src/Store/Integrity.antt =====
-- What Open reads after a Put (internal/chunkstore/store.go).
use prosiak.Base.{
  ℕ, Text, List, [], ◌∷◌, ◌++◌, Bool, true, false, not, Option, none, some, Option-cases, ◌≡◌, ◌≢◌,
  refl, ap, subst, sym, ◌∙◌, inl, inr, arith, ltb, if◌then◌else◌, if_cases, eqb, eqb_iff, eqb_other,
  select, delete_where, length, length-append, take, drop,
}
use prosiak.Store.{
  Store, Stored, Aead, Failure, too_short, undecryptable, invalid_hash, hash_mismatch, disk,
  not_found, Result, ok, err, Faults, path, chunk_file, temporary_file, read_file, add_used,
  with_temporary, without_temporary, commit, put_plain, put_encrypted, write_sealed, seal_chunk,
  put, unseal, open_chunk,
}
use prosiak.Store.Scanned.{read_file-temporary, renamed-read_file}

take-append {ℓ} : {A : Type ℓ} (xs ys : List A) → take (length xs) (xs ++ ys) ≡ xs
take-append [] ys = refl
take-append (x ∷ xs) ys = ap (◌∷◌ x) (take-append xs ys)

drop-append {ℓ} : {A : Type ℓ} (xs ys : List A) → drop (length xs) (xs ++ ys) ≡ ys
drop-append [] ys = refl
drop-append (x ∷ xs) ys = drop-append xs ys

-- The other chunks are not touched by a rename.
pub read_file-other :
    (name other : Text) (fs : List Stored)
    → eqb other name ≡ false
    → read_file other (delete_where (chunk_file name) fs) ≡ read_file other fs
unfolding read_file delete_where select
read_file-other name other [] h = refl
read_file-other name other (f ∷ fs) h = ground (
  arith,
  read_file-other name other fs,
  eqb_iff other f.name,
  eqb_iff name f.name,
  eqb_iff other name,
)

read_file-append_other :
    (other : Text) (fs : List Stored) (f : Stored)
    → chunk_file other f ≡ false
    → read_file other (fs ++ f ∷ []) ≡ read_file other fs
unfolding read_file
read_file-append_other other [] f h = ground arith
read_file-append_other other (g ∷ fs) f h = ground (arith, read_file-append_other other fs f)

commit-read_file :
    (name : Text) (content : List ℕ) (s : Store)
    → read_file name (commit name content s).files ≡ some content
unfolding commit add_used
commit-read_file name content s = renamed-read_file name content s.files

commit-read_file_other :
    (name other : Text) (content : List ℕ) (s : Store)
    → eqb other name ≡ false
    → read_file other (commit name content s).files ≡ read_file other s.files
unfolding commit add_used
commit-read_file_other name other content s h =
    read_file-append_other other _ (record { name = name; temporary = false; content = content })
      (ground arith)
    ∙ read_file-other name other (delete_where (temporary_file name) s.files) h
    ∙ read_file-temporary other name s.files

commit-aead : (name : Text) (content : List ℕ) (s : Store) → (commit name content s).aead ≡ s.aead
unfolding commit add_used
commit-aead name content s = refl

-- What a sealed chunk is opened to.
unseal-seal_chunk :
    (hash_bytes : List ℕ → Text) (aead : Aead) (nonce content : List ℕ)
    → length nonce ≡ aead.nonce_size
    → unseal (some aead) (seal_chunk hash_bytes aead nonce content) ≡ ok content
unfolding unseal
unseal-seal_chunk hash_bytes aead nonce content h =
    subst
      (λ k.
        (if ltb (length (nonce ++ sealed)) k
          then err too_short
          else elim (aead.open_sealed (take k (nonce ++ sealed)) (drop k (nonce ++ sealed))) [
            | none ↦ err undecryptable
            | some plain ↦ ok plain
          ])
        ≡ ok content)
      h (rw (take-append nonce sealed, drop-append nonce sealed, aead.open_seal, fits) refl)
  where
    sealed : List ℕ
    sealed = aead.seal nonce content

    fits : ltb (length (nonce ++ sealed)) (length nonce) ≡ false
    fits = ground (arith, length-append nonce sealed)

-- What is read does not change when no chunk's file does.
pub open_chunk-same :
    (other : Text) (s s' : Store)
    → s'.aead ≡ s.aead
    → ((name : Text) → path other ≡ some name → read_file name s'.files ≡ read_file name s.files)
    → open_chunk other s' ≡ open_chunk other s
unfolding open_chunk
open_chunk-same other s s' a same = elim (Option-cases (path other)) [
  | inl bad ↦ rw (bad, open_chunk) refl
  | inr (name, e) ↦
      rw (e, open_chunk)
        (ap (opened s'.aead) (same name e) ∙ ap (λ a. opened a (read_file name s.files)) a)
]
  where
    opened : Option Aead → Option (List ℕ) → Result (List ℕ)
    opened a o = elim o [ none ↦ err not_found | some content ↦ unseal a content ]

-- The result of a Put: the content is read back and the other chunks are as they were, or nothing
-- that can be read has changed.
unfoldable pub Outcome : (List ℕ → Text) → Text → List ℕ → Store → Store × Result ℕ → Type 0
Outcome hash_bytes hash content s (s', ok n) =
    (eqb (hash_bytes content) hash ≡ true)
    × (n ≡ length content)
    × (open_chunk hash s' ≡ ok content)
    × ((other : Text) → path other ≢ path hash → open_chunk other s' ≡ open_chunk other s)
Outcome hash_bytes hash content s (s', err e) =
    (other : Text) → open_chunk other s' ≡ open_chunk other s

failed-Outcome :
    (hash_bytes : List ℕ → Text) (hash : Text) (content : List ℕ) (s s' : Store) (e : Failure)
    → s'.aead ≡ s.aead
    → ((name : Text) → read_file name s'.files ≡ read_file name s.files)
    → Outcome hash_bytes hash content s (s', err e)
unfolding Outcome
failed-Outcome hash_bytes hash content s s' e a same =
    λ other. open_chunk-same other s s' a (λ name e'. same name)

removed-Outcome :
    (hash_bytes : List ℕ → Text) (hash : Text) (content : List ℕ) (s : Store) (e : Failure)
    (name : Text)
    → Outcome hash_bytes hash content s (without_temporary name s, err e)
removed-Outcome hash_bytes hash content s e name =
    failed-Outcome hash_bytes hash content s (without_temporary name s) e refl
      (λ other. read_file-temporary other name s.files)

partial-Outcome :
    (hash_bytes : List ℕ → Text) (hash : Text) (content partial : List ℕ) (s : Store) (e : Failure)
    (name : Text)
    → Outcome hash_bytes hash content s
        (record s { files = with_temporary name partial s.files }, err e)
partial-Outcome hash_bytes hash content partial s e name =
    failed-Outcome hash_bytes hash content s _ e refl (λ other.
      read_file-append_other other _ (record { name = name; temporary = true; content = partial })
        (ground arith)
      ∙ read_file-temporary other name s.files)

-- What a rename leaves, where the file's content is opened to the chunk's.
committed-Outcome :
    (hash_bytes : List ℕ → Text) (hash : Text) (content stored : List ℕ) (s : Store) (name : Text)
    → path hash ≡ some name
    → eqb (hash_bytes content) hash ≡ true
    → unseal s.aead stored ≡ ok content
    → Outcome hash_bytes hash content s (commit name stored s, ok (length content))
unfolding Outcome open_chunk
committed-Outcome hash_bytes hash content stored s name e valid opens = (valid, refl, here, others)
  where
    here : open_chunk hash (commit name stored s) ≡ ok content
    here = rw (e, open_chunk) (rw (commit-read_file name stored s, commit-aead name stored s) opens)

    others :
        (other : Text)
        → path other ≢ path hash
        → open_chunk other (commit name stored s) ≡ open_chunk other s
    others other ne =
        open_chunk-same other s (commit name stored s) (commit-aead name stored s) (λ name' e'.
          commit-read_file_other name name' stored s
            (eqb_other name' name (λ same. ne (e' ∙ ap some same ∙ sym e))))

not-false : (b : Bool) → not b ≡ false → b ≡ true
not-false b h = ground arith

unseal_plain : (content : List ℕ) → unseal none content ≡ ok content
unfolding unseal
unseal_plain content = refl

write_sealed-Outcome :
    (hash_bytes : List ℕ → Text) (hash : Text) (content sealed : List ℕ) (fault : Faults)
    (s : Store) (name : Text)
    → path hash ≡ some name
    → eqb (hash_bytes content) hash ≡ true
    → unseal s.aead sealed ≡ ok content
    → Outcome hash_bytes hash content s (write_sealed name sealed content fault s)
unfolding write_sealed
write_sealed-Outcome hash_bytes hash content sealed fault s name e valid opens =
    elim (Option-cases fault.write) [
      | inl whole ↦ rw whole (
          if_cases (Outcome hash_bytes hash content s) _ _ _
            (λ h. removed-Outcome hash_bytes hash content s disk name)
            (λ h. committed-Outcome hash_bytes hash content sealed s name e valid opens))
      | inr (partial, w) ↦ rw w (partial-Outcome hash_bytes hash content partial s disk name)
    ]

module _ (hash_bytes : List ℕ → Text) where
  put_plain-Outcome :
      (hash : Text) (content : List ℕ) (fault : Faults) (s : Store)
      → s.aead ≡ none
      → Outcome hash_bytes hash content s (put_plain hash_bytes hash content fault s)
  unfolding put_plain
  put_plain-Outcome hash content fault s a = elim (Option-cases (path hash)) [
    | inl bad ↦
        rw (bad, put_plain)
          (failed-Outcome hash_bytes hash content s s invalid_hash refl (λ name. refl))
    | inr (name, e) ↦
        let unchanged = failed-Outcome hash_bytes hash content s s disk refl (λ name. refl) in
        let broken = removed-Outcome hash_bytes hash content s disk name in
        let mismatch = removed-Outcome hash_bytes hash content s hash_mismatch name in
        let stored = λ (valid : eqb (hash_bytes content) hash ≡ true).
          committed-Outcome hash_bytes hash content content s name e valid
            (ap (λ o. unseal o content) a ∙ unseal_plain content) in
        rw (e, put_plain) (ground (arith, unchanged, broken, mismatch, stored))
  ]

  put_encrypted-Outcome :
      (aead : Aead) (nonce : List ℕ) (hash : Text) (content : List ℕ) (fault : Faults) (s : Store)
      → s.aead ≡ some aead
      → length nonce ≡ aead.nonce_size
      → Outcome hash_bytes hash content s (put_encrypted hash_bytes aead nonce hash content fault s)
  unfolding put_encrypted
  put_encrypted-Outcome aead nonce hash content fault s a n = elim (Option-cases (path hash)) [
    | inl bad ↦
        rw (bad, put_encrypted)
          (failed-Outcome hash_bytes hash content s s invalid_hash refl (λ name. refl))
    | inr (name, e) ↦
        let broken = failed-Outcome hash_bytes hash content s s disk refl (λ name. refl) in
        let mismatch =
          failed-Outcome hash_bytes hash content s s hash_mismatch refl (λ name. refl) in
        let stored = λ (valid : eqb (hash_bytes content) hash ≡ true).
          write_sealed-Outcome hash_bytes hash content (seal_chunk hash_bytes aead nonce content)
            fault s name e valid
            (ap (λ o. unseal o (seal_chunk hash_bytes aead nonce content)) a
              ∙ unseal-seal_chunk hash_bytes aead nonce content n) in
        rw (e, put_encrypted) (ground (arith, broken, mismatch, stored))
  ]

  -- After a Put that answers no error, the content has the chunk's hash, its count is the answer,
  -- Open of the hash returns exactly the content, and Open of any other path returns what it did;
  -- after one that answers an error, at whatever point it broke off, every Open returns what it did.
  -- The drawn nonce has the cipher's length. The chunks may be encrypted or plain.
  pub put-Outcome :
      (nonce : List ℕ) (hash : Text) (content : List ℕ) (fault : Faults) (s : Store)
      → ((aead : Aead) → s.aead ≡ some aead → length nonce ≡ aead.nonce_size)
      → Outcome hash_bytes hash content s (put hash_bytes nonce hash content fault s)
  unfolding put
  put-Outcome nonce hash content fault s n = elim (Option-cases s.aead) [
    | inl plain ↦ subst by_cipher (sym plain) (put_plain-Outcome hash content fault s plain)
    | inr (aead, a) ↦
        subst by_cipher (sym a) (put_encrypted-Outcome aead nonce hash content fault s a (n aead a))
  ]
    where
      by_cipher : Option Aead → Type 0
      by_cipher o = Outcome hash_bytes hash content s (elim o [
        | none ↦ put_plain hash_bytes hash content fault s
        | some aead ↦ put_encrypted hash_bytes aead nonce hash content fault s
      ])
