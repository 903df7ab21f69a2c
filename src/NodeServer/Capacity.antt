-- ===== src/NodeServer/Capacity.antt =====
-- The capacity of a node (cmd/backup-node/main.go): what its uploads leave.
use prosiak.Base.{
  ℕ, pos, Text, List, [], Bool-cases, true, none, some, Option-cases, ◌≡◌, ap, sym, subst, inl, inr,
  ◌≤◌, ◌<◌, ◌^◌, arith, ◌+◌, ◌+ℤ◌, length,
}
use prosiak.Store.{
  Store, Faults, Result, path, scan_used, add_used, commit, put_plain, put_encrypted, put,
}
use prosiak.Store.Usage.{Counted}
use prosiak.Store.Scanned.{scan_used-renamed, scan_used-temporary}
use prosiak.NodeServer.{has_room, put_chunk, Response}

commit-scan_used :
    (name : Text) (content : List ℕ) (s : Store)
    → Counted s
    → scan_used (commit name content s).files ≤ scan_used s.files + length content
unfolding commit add_used
commit-scan_used name content s c = omega (arith, scan_used-renamed name content s.files c.names)

room :
    (n capacity u : ℕ) (s : Store)
    → s.used ≡ pos u
    → u ≤ capacity
    → capacity + n < 2 ^ 63
    → has_room (pos n) (pos capacity) s ≡ true
    → u + n ≤ capacity
unfolding has_room ◌+ℤ◌
room n capacity u s e h small k = ground arith

module _ (hash_bytes : List ℕ → Text) where
  put_plain-scan_used :
      (hash : Text) (content : List ℕ) (fault : Faults) (s : Store)
      → Counted s
      → scan_used (put_plain hash_bytes hash content fault s).0.files
        ≤ scan_used s.files + length content
  unfolding put_plain
  put_plain-scan_used hash content fault s c = elim (Option-cases (path hash)) [
    | inl bad ↦ rw (bad, put_plain) (omega arith)
    | inr (name, e) ↦
        rw (e, put_plain)
          (ground (arith, scan_used-temporary name s.files, commit-scan_used name content s c))
  ]

  put-plain :
      (nonce : List ℕ) (hash : Text) (content : List ℕ) (fault : Faults) (s : Store)
      → s.aead ≡ none
      → put hash_bytes nonce hash content fault s ≡ put_plain hash_bytes hash content fault s
  unfolding put
  put-plain nonce hash content fault s plain =
      ap
        (λ o. elim o [
          | none ↦ put_plain hash_bytes hash content fault s
          | some aead ↦ put_encrypted hash_bytes aead nonce hash content fault s
        ])
        plain

  -- A node without encryption whose chunks are within its capacity keeps them within it over each
  -- upload that announces its length: whatever the content, its hash and the faults of the disk,
  -- where the capacity and the length together are within an int64.
  pub put_chunk-scan_used :
      (capacity : ℕ) (nonce : List ℕ) (hash : Text) (content : List ℕ) (fault : Faults) (s : Store)
      → Counted s
      → s.aead ≡ none
      → scan_used s.files ≤ capacity
      → capacity + length content < 2 ^ 63
      → scan_used
          (put_chunk hash_bytes
            (pos capacity)
            (pos (length content))
            nonce
            hash
            content
            fault
            s).0.files
        ≤ capacity
  unfolding put_chunk
  put_chunk-scan_used capacity nonce hash content fault s c plain within small =
      elim (Bool-cases (has_room (pos (length content)) (pos capacity) s)) [
        | inr full ↦ rw full within
        | inl fits ↦ rw fits (
            stored (put hash_bytes nonce hash content fault s) (
              omega (
                arith,
                bound,
                room (length content) capacity (scan_used s.files) s c.used within small fits,
              )))
      ]
    where
      bound :
          scan_used (put hash_bytes nonce hash content fault s).0.files
          ≤ scan_used s.files + length content
      bound =
          subst (λ r. scan_used r.0.files ≤ scan_used s.files + length content)
            (sym (put-plain nonce hash content fault s plain))
            (put_plain-scan_used hash content fault s c)

      stored :
          (r : Store × Result ℕ)
          → scan_used r.0.files ≤ capacity
          → scan_used
              (elim r.1 as (λ x. Store × Response) [
                | Result.ok n ↦ (r.0, Response.reply 201 [])
                | Result.err _ ↦ (r.0, Response.reply 400 [])
              ]).0.files
            ≤ capacity
      stored (t, Result.ok n) h = h
      stored (t, Result.err e) h = h
