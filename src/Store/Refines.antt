-- ===== src/Store/Refines.antt =====
-- A store as a map of contents (internal/chunkstore/store.go).
use prosiak.Base.{
  ℕ, pos, Text, text, List, [], ◌∷◌, ◌++◌, Bool, Bool-cases, true, false, ◌||◌, Option,
  Option-cases, none, some, ◌≡◌, inl, inr, refl, ap, sym, subst, ◌∙◌, arith, eqb, eqb_iff,
  eqb_other, length, All, any,
}
use prosiak.Store.{
  Store, Aead, Failure, invalid_hash, Result, ok, err, Faults, nothing, path, chunk_file, add_used,
  new, commit, put, put_plain, put_encrypted, write_sealed, open_chunk, delete, clear,
}
use prosiak.Store.Usage.{Call, puts, deletes, clears, step, run}
use prosiak.Store.Integrity.{Outcome, put-Outcome, read_file-other, open_chunk-same}
use prosiak.Store.Contents.{
  Contents, no_contents, with_content, looked_up, Represents, open_chunk-path, open_chunk-invalid,
  with_content-Represents, read_file-deleted, read_file-absent, open_chunk-missing, nothing_left,
  new-files,
}

abbrev succeeded {ℓ} : {A : Type ℓ} → Result A → Bool
succeeded (ok x) = true
succeeded (err e) = false

abbrev no_failure : Option Failure → Bool
no_failure none = true
no_failure (some e) = false

module _ (hash_bytes : List ℕ → Text) where
  -- Whether a call answers without an error.
  unfoldable pub answers : Store → Call → Bool
  answers s (puts nonce hash content fault) =
      succeeded (put hash_bytes nonce hash content fault s).1
  answers s (deletes stuck hash) = no_failure (delete stuck hash s).1
  answers s (clears root) = succeeded (clear root nothing s).1

  -- What a call may do to a map of contents, and whether it answers without an error.
  pub data Allowed : Contents → Call → Bool → Contents → Type 0 where
    failed : {m : Contents} {c : Call} → Allowed m c false m
    stored :
        {m : Contents} {nonce : List ℕ} {hash : Text} {content : List ℕ} {fault : Faults}
        {name : Text}
        → path hash ≡ some name
        → hash_bytes content ≡ hash
        → Allowed m (puts nonce hash content fault) true (with_content name (some content) m)
    removed :
        {m : Contents} {stuck : Bool} {hash name : Text}
        → path hash ≡ some name
        → Allowed m (deletes stuck hash) true (with_content name none m)
    cleared : {m : Contents} {root : Text} → Allowed m (clears root) true no_contents

  -- Calls in a row, with what each answers.
  pub data Trace : Contents → List Call → List Bool → Contents → Type 0 where
    done : {m : Contents} → Trace m [] [] m
    next :
        {m m' m'' : Contents} {c : Call} {cs : List Call} {b : Bool} {bs : List Bool}
        → Allowed m c b m'
        → Trace m' cs bs m''
        → Trace m (c ∷ cs) (b ∷ bs) m''

  unfoldable pub run_answers : Store → List Call → List Bool
  unfolding answers
  run_answers s [] = []
  run_answers s (c ∷ cs) = answers s c ∷ run_answers (step hash_bytes s c) cs

  -- A nonce that is drawn has the length that the cipher of the store asks for.
  abbrev pub Drawn : Option Aead → Call → Type 0
  Drawn a (puts nonce hash content fault) =
      (aead : Aead) → a ≡ some aead → length nonce ≡ aead.nonce_size
  Drawn a (deletes stuck hash) = Unit {0}
  Drawn a (clears root) = Unit {0}

  put_plain-aead :
      (hash : Text) (content : List ℕ) (fault : Faults) (s : Store)
      → (put_plain hash_bytes hash content fault s).0.aead ≡ s.aead
  unfolding put_plain commit add_used
  put_plain-aead hash content fault s = elim (Option-cases (path hash)) [
    | inl bad ↦ rw (bad, put_plain) refl
    | inr (name, e) ↦ rw (e, put_plain) (ground arith)
  ]

  write_sealed-aead :
      (name : Text) (sealed content : List ℕ) (fault : Faults) (s : Store)
      → (write_sealed name sealed content fault s).0.aead ≡ s.aead
  unfolding write_sealed commit add_used
  write_sealed-aead name sealed content fault s = elim (Option-cases fault.write) [
    | inl written ↦ rw (written, write_sealed) (ground arith)
    | inr (partial, e) ↦ rw (e, write_sealed) refl
  ]

  put_encrypted-aead :
      (aead : Aead) (nonce : List ℕ) (hash : Text) (content : List ℕ) (fault : Faults) (s : Store)
      → (put_encrypted hash_bytes aead nonce hash content fault s).0.aead ≡ s.aead
  unfolding put_encrypted
  put_encrypted-aead aead nonce hash content fault s = elim (Option-cases (path hash)) [
    | inl bad ↦ rw (bad, put_encrypted) refl
    | inr (name, e) ↦
        rw (e, put_encrypted)
          (ground
            (arith, write_sealed-aead name (nonce ++ aead.seal nonce content) content fault s))
  ]

  put-aead :
      (nonce : List ℕ) (hash : Text) (content : List ℕ) (fault : Faults) (s : Store)
      → (put hash_bytes nonce hash content fault s).0.aead ≡ s.aead
  unfolding put
  put-aead nonce hash content fault s = elim (Option-cases s.aead) [
    | inl plain ↦ subst by_cipher (sym plain) (put_plain-aead hash content fault s)
    | inr (aead, e) ↦ subst by_cipher (sym e) (put_encrypted-aead aead nonce hash content fault s)
  ]
    where
      by : Option Aead → Store × Result ℕ
      by none = put_plain hash_bytes hash content fault s
      by (some aead) = put_encrypted hash_bytes aead nonce hash content fault s

      by_cipher : Option Aead → Type 0
      by_cipher o = (by o).0.aead ≡ s.aead

  step-aead : (s : Store) (c : Call) → (step hash_bytes s c).aead ≡ s.aead
  unfolding step delete add_used clear
  step-aead s (puts nonce hash content fault) = put-aead nonce hash content fault s
  step-aead s (deletes stuck hash) = ground arith
  step-aead s (clears root) = ground arith

  -- A call shows on the map as what it may do.
  abbrev Follows : Contents → Call → Bool → Store → Type 0
  Follows m c b s' = (m' : Contents) × Allowed m c b m' × Represents m' s'

  put-Follows :
      (nonce : List ℕ) (hash : Text) (content : List ℕ) (fault : Faults) (m : Contents) (s : Store)
      (after : Store × Result ℕ)
      → Represents m s
      → Outcome hash_bytes hash content s after
      → Follows m (puts nonce hash content fault) (succeeded after.1) after.0
  unfolding Outcome
  put-Follows nonce hash content fault m s (s', ok n) h o = elim (Option-cases (path hash)) [
    | inl bad ↦ absurd (ground (arith, sym o.2 ∙ invalid bad))
    | inr (name, e) ↦ (
      with_content name (some content) m,
      stored e ((eqb_iff (hash_bytes content) hash).0 o.0),
      with_content-Represents m s s' name (some content) h
          (λ other same. open_chunk-path other hash s' (same ∙ sym e) ∙ o.2)
          (λ other differs. o.3 other (λ same. differs (same ∙ e))),
    )
  ]
    where
      invalid : path hash ≡ none → open_chunk hash s' ≡ err invalid_hash
      invalid bad = open_chunk-invalid hash s' bad
  put-Follows nonce hash content fault m s (s', err e) h o = (m, failed, λ other. o other ∙ h other)

  delete-Follows :
      (stuck : Bool) (hash : Text) (m : Contents) (s : Store)
      → Represents m s
      → Follows m (deletes stuck hash) (no_failure (delete stuck hash s).1) (delete stuck hash s).0
  unfolding delete add_used
  delete-Follows stuck hash m s h = elim (Option-cases (path hash)) [
    | inl bad ↦ rw (bad, delete) (m, failed, h)
    | inr (name, e) ↦ elim (Bool-cases (any (chunk_file name) s.files)) [
      | inr absent ↦
          rw (e, absent, delete)
            (
              with_content name none m,
              removed e,
              with_content-Represents m s s name none h
                  (λ other same.
                    open_chunk-missing other name s same (read_file-absent name s.files absent))
                  (λ other differs. refl),
            )
      | inl present ↦ elim (Bool-cases stuck) [
        | inl fails ↦ rw (e, present, fails, delete) (m, failed, h)
        | inr removes ↦
            rw (e, present, removes, delete)
              (
                with_content name none m,
                removed e,
                with_content-Represents m s _ name none h
                    (λ other same.
                      open_chunk-missing other name _ same (read_file-deleted name s.files))
                    (λ other differs. open_chunk-same other s _ refl (λ n e'.
                      read_file-other name n s.files
                        (eqb_other n name (λ same. differs (e' ∙ ap some same))))),
              )
      ]
    ]
  ]

  clear-Follows :
      (root : Text) (m : Contents) (s : Store)
      → Represents m s
      → Follows m (clears root) (succeeded (clear root nothing s).1) (clear root nothing s).0
  unfolding clear
  clear-Follows root m s h = elim (Bool-cases (eqb root (text ".") || eqb root (text "/"))) [
    | inl refused ↦ rw (refused, clear) (m, failed, h)
    | inr allowed ↦
        rw (allowed, clear)
          (no_contents, cleared, nothing_left (record s { files = []; used = pos 0 }) refl)
  ]

  step-Follows :
      (m : Contents) (s : Store) (c : Call)
      → Drawn s.aead c
      → Represents m s
      → Follows m c (answers s c) (step hash_bytes s c)
  unfolding step answers
  step-Follows m s (puts nonce hash content fault) drawn h =
      put-Follows nonce hash content fault m s (put hash_bytes nonce hash content fault s) h
        (put-Outcome hash_bytes nonce hash content fault s drawn)
  step-Follows m s (deletes stuck hash) drawn h = delete-Follows stuck hash m s h
  step-Follows m s (clears root) drawn h = clear-Follows root m s h

  run-Trace :
      (m : Contents) (s : Store) (cs : List Call)
      → All (Drawn s.aead) cs
      → Represents m s
      → (m' : Contents) × Trace m cs (run_answers s cs) m' × Represents m' (run hash_bytes s cs)
  unfolding run run_answers
  run-Trace m s [] drawn h = (m, done, h)
  run-Trace m s (c ∷ cs) drawn h =
      let (m', allowed, h') = step-Follows m s c drawn.0 h in
      let later = subst (λ a. All (Drawn a) cs) (sym (step-aead s c)) drawn.1 in
      let (m'', trace, h'') = run-Trace m' (step hash_bytes s c) cs later h' in
      (m'', next allowed trace, h'')

  -- A store is a map of contents by name. From a store that opens on an empty directory, any run of
  -- puts, deletions and clears, with any faults of the puts and deletions, is a run on such a map that
  -- starts empty: a call that answers an error changes nothing, a put that answers none had content of
  -- its hash and sets the content of the name, a deletion removes the name, and a clear removes every
  -- name. After it, Open of any hash answers what the map has at the name of the hash. The drawn
  -- nonces have the length of the cipher; clears meet no fault.
  pub run-new-Trace :
      (cipher : List ℕ → Aead) (key : List ℕ) (s : Store) (cs : List Call)
      → new cipher key [] ≡ ok s
      → All (Drawn s.aead) cs
      → (m : Contents) × Trace no_contents cs (run_answers s cs) m
        × ((hash : Text) → open_chunk hash (run hash_bytes s cs) ≡ looked_up m hash)
  run-new-Trace cipher key s cs opened drawn =
      run-Trace no_contents s cs drawn (nothing_left s (new-files cipher key s opened))
