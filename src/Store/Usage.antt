-- ===== src/Store/Usage.antt =====
-- The counter of used bytes (internal/chunkstore/store.go: scanUsed, addUsed, Used), against the
-- bytes of the chunks on the disk.
use prosiak.Base.{
  ℕ, ℤ, pos, Text, List, [], ◌∷◌, Bool, true, not, Option, none, some, Option-cases, ◌≡◌, refl, ap,
  sym, ◌∙◌, inl, inr, arith, ◌+◌, ◌+ℤ◌, ◌-ℤ◌, any-delete_where, delete_where, length, Distinct,
  Distinct-select, Distinct-append_one,
}
use prosiak.Store.{
  Store, Stored, Aead, ok, Faults, nothing, path, chunk_file, temporary_file, scan_used, file_size,
  add_used, with_temporary, without_temporary, renamed, commit, put_plain, put_encrypted,
  seal_chunk, put, delete, clear, new,
}
use prosiak.Store.Scanned.{
  same_name, scan_used-append, scan_used-temporary, scan_used-chunk, renamed-read_file,
  same_name_sym, renamed-Distinct, scan_used-renamed,
}

pub record Counted (s : Store) : Type 0 where
  pub used : s.used ≡ pos (scan_used s.files)
  pub names : Distinct same_name s.files

-- The counter takes a change as it is, and the clamp at zero does not show.
adjusted :
    (u n o v : ℕ) (s : Store)
    → v + o ≡ u + n
    → s.used ≡ pos u
    → (add_used (pos n -ℤ pos o) s).used ≡ pos v
unfolding add_used ◌+ℤ◌ ◌-ℤ◌
adjusted u n o v s h e = ground arith

add_used-files : (delta : ℤ) (s : Store) → (add_used delta s).files ≡ s.files
unfolding add_used
add_used-files delta s = refl

commit-Counted :
    (name : Text) (content : List ℕ) (s : Store) → Counted s → Counted (commit name content s)
unfolding commit file_size add_used
commit-Counted name content s c = record {
  used =
      adjusted (scan_used s.files) _ (file_size name s.files)
        (scan_used (renamed name content s.files))
        (record s { files = renamed name content s.files })
        (omega (
          arith,
          scan_used-renamed name content s.files c.names,
          ap size_of (renamed-read_file name content s.files),
        ))
        c.used;
  names = renamed-Distinct name content s.files c.names;
}
  where
    size_of : Option (List ℕ) → ℕ
    size_of o = elim o [ none ↦ 0 | some c ↦ length c ]

without_temporary-Counted :
    (name : Text) (s : Store) → Counted s → Counted (without_temporary name s)
unfolding delete_where
without_temporary-Counted name s c = record {
  used = c.used ∙ ap pos (sym (scan_used-temporary name s.files));
  names = Distinct-select same_name _ s.files c.names;
}

with_temporary-Counted :
    (name : Text) (content : List ℕ) (s : Store)
    → Counted s
    → Counted (record s { files = with_temporary name content s.files })
unfolding delete_where scan_used
with_temporary-Counted name content s c = record {
  used =
      c.used
      ∙ ap pos (
          omega (
            arith,
            scan_used-append (delete_where (temporary_file name) s.files) (new_file ∷ []),
            scan_used-temporary name s.files,
          ));
  names =
      Distinct-append_one same_name _ new_file (λ f. same_name_sym f new_file)
        (Distinct-select same_name _ s.files c.names)
        (any-delete_where (temporary_file name) (same_name new_file) s.files (λ f h. h));
}
  where
    new_file : Stored
    new_file = record { name = name; temporary = true; content = content }

module _ (hash_bytes : List ℕ → Text) where
  put_plain-Counted :
      (hash : Text) (content : List ℕ) (fault : Faults) (s : Store)
      → Counted s
      → Counted (put_plain hash_bytes hash content fault s).0
  unfolding put_plain
  put_plain-Counted hash content fault s c = elim (Option-cases (path hash)) [
    | inl bad ↦ rw (bad, put_plain) c
    | inr (name, e) ↦
        let cleaned = without_temporary-Counted name s c in
        let stored = commit-Counted name content s c in
        rw (e, put_plain) (ground (arith, cleaned, stored))
  ]

  put_encrypted-Counted :
      (aead : Aead) (nonce : List ℕ) (hash : Text) (content : List ℕ) (fault : Faults) (s : Store)
      → Counted s
      → Counted (put_encrypted hash_bytes aead nonce hash content fault s).0
  unfolding put_encrypted
  put_encrypted-Counted aead nonce hash content fault s c = elim (Option-cases (path hash)) [
    | inl bad ↦ rw (bad, put_encrypted) c
    | inr (name, e) ↦ elim (Option-cases fault.write) [
      | inr (partial, w) ↦
          rw (e, put_encrypted, w)
            (ground
              (arith, without_temporary-Counted name s c, with_temporary-Counted name partial s c))
      | inl fine ↦
          rw (e, put_encrypted, fine)
            (ground (
              arith,
              without_temporary-Counted name s c,
              commit-Counted name (seal_chunk hash_bytes aead nonce content) s c,
            ))
    ]
  ]

  -- A store whose counter is right stays so under Put: with encryption or without, with the right
  -- hash or another, and whatever goes wrong on the way.
  put-Counted :
      (nonce : List ℕ) (hash : Text) (content : List ℕ) (fault : Faults) (s : Store)
      → Counted s
      → Counted (put hash_bytes nonce hash content fault s).0
  unfolding put
  put-Counted nonce hash content fault s c = elim (Option-cases s.aead) [
    | inl plain ↦ rw (plain, put) (put_plain-Counted hash content fault s c)
    | inr (aead, e) ↦ rw (e, put) (put_encrypted-Counted aead nonce hash content fault s c)
  ]

drop_file :
    (u o v : ℕ) (s : Store)
    → v + o ≡ u
    → s.used ≡ pos u
    → (add_used (pos 0 -ℤ pos o) s).used ≡ pos v
unfolding add_used ◌+ℤ◌ ◌-ℤ◌
drop_file u o v s h e = ground arith

delete-Counted :
    (stuck : Bool) (hash : Text) (s : Store) → Counted s → Counted (delete stuck hash s).0
unfolding delete delete_where add_used
delete-Counted stuck hash s c = elim (Option-cases (path hash)) [
  | inl bad ↦ rw (bad, delete) c
  | inr (name, e) ↦
      rw (e, delete)
        (ground (
          arith,
          c,
          drop_file (scan_used s.files) (file_size name s.files)
              (scan_used (delete_where (chunk_file name) s.files))
              (record s { files = delete_where (chunk_file name) s.files })
              (scan_used-chunk name s.files c.names) c.used,
          Distinct-select same_name (λ f. not (chunk_file name f)) s.files c.names,
        ))
]

new-Counted :
    (cipher : List ℕ → Aead) (key : List ℕ) (found : List Stored) (s : Store)
    → new cipher key found ≡ ok s
    → Distinct same_name found
    → Counted s
unfolding new
new-Counted cipher [] found s e d = ground (arith, d)
new-Counted cipher (k ∷ key) found s e d = ground (arith, d)

-- The operations of a node on its store. A clear meets no fault of the disk here: after one that
-- does, the counter is left as it was.
pub data Call : Type 0 where
  puts : List ℕ → Text → List ℕ → Faults → Call
  deletes : Bool → Text → Call
  clears : Text → Call

module _ (hash_bytes : List ℕ → Text) where
  unfoldable pub step : Store → Call → Store
  step s (puts nonce hash content fault) = (put hash_bytes nonce hash content fault s).0
  step s (deletes stuck hash) = (delete stuck hash s).0
  step s (clears root) = (clear root nothing s).0

  unfoldable pub run : Store → List Call → Store
  unfolding step
  run s [] = s
  run s (c ∷ cs) = run (step s c) cs

  clear-Counted : (root : Text) (s : Store) → Counted s → Counted (clear root nothing s).0
  unfolding clear scan_used
  clear-Counted root s c = ground (arith, c, tt)

  step-Counted : (s : Store) (c : Call) → Counted s → Counted (step s c)
  unfolding step
  step-Counted s (puts nonce hash content fault) h =
      put-Counted hash_bytes nonce hash content fault s h
  step-Counted s (deletes stuck hash) h = delete-Counted stuck hash s h
  step-Counted s (clears root) h = clear-Counted root s h

  run-Counted : (s : Store) (cs : List Call) → Counted s → Counted (run s cs)
  unfolding run
  run-Counted s [] h = h
  run-Counted s (c ∷ cs) h = run-Counted (step s c) cs (step-Counted s c h)

  -- A store that opens on files of distinct names reports, after any run of puts, deletions and
  -- clears, exactly the bytes of the chunks on its disk: puts may meet any fault and deletions may
  -- fail, and clears meet no fault.
  pub run-new-Counted :
      (cipher : List ℕ → Aead) (key : List ℕ) (found : List Stored) (s : Store) (cs : List Call)
      → new cipher key found ≡ ok s
      → Distinct same_name found
      → (run s cs).used ≡ pos (scan_used (run s cs).files)
  run-new-Counted cipher key found s cs opened d =
      (run-Counted s cs (new-Counted cipher key found s opened d)).used
