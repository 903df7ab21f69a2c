-- ===== src/Handlers/Download/Whole.antt =====
-- When downloadFile delivers a backup whole (internal/server/handlers.go).
use prosiak.Base.{
  ℕ, ◌≤◌, pos, Text, List, [], ◌∷◌, ◌++◌, append-nil, append_assoc, map, length, length-append,
  Bool, Bool-cases, true, false, some, ◌≡◌, refl, ap, sym, ◌∙◌, ◌⊎◌, inl, inr, arith, eqb, eqb_iff,
  All,
}
use prosiak.Protocol.{ChunkRef, FileManifest}
use prosiak.Network.{Network, Fetched, fetch_from_any}
use prosiak.State.{State}
use prosiak.State.Files.{file}
use prosiak.State.Locations.{chunk_locations}
use prosiak.Handlers.{Server}
use prosiak.Handlers.Download.{
  complete, Sent, answered, fits, after_fetch, send_chunks, response, download_file,
}
use prosiak.Handlers.Download.Exact.{concat, Collision}

module _ (net : Network) (hash_data : List ℕ → Text) where
  open net use {World}

  -- A chunk came with the hash that was asked for.
  abbrev pub Arrives : Text → Fetched → Type 0
  Arrives hash Fetched.failed = ⊥
  Arrives hash (Fetched.bytes body) = hash_data body ≡ hash

  -- The nodes that have a chunk send it with its hash, whatever happened before.
  abbrev pub Served : ℕ → State → ChunkRef → Type 0
  Served now db c =
      (w : World) → Arrives c.hash (fetch_from_any net (chunk_locations now c.hash db) c.hash w).1

module _ (net : Network) (hash_data : List ℕ → Text) (message : Text) where
  open net use {World}

  fits-le : (n m : ℕ) → n ≤ m → fits (pos m) n ≡ true
  fits-le n m h = ground arith

  -- A chunk that comes with its hash is written, and the loop goes on behind it.
  pub after_fetch-arrives :
      (Q : Sent → Type 0) (continue : List ℕ → World → World × Sent) (size : ℕ) (hash : Text)
      (content before : List ℕ) (started : Bool) (fetched : World × Fetched)
      → hash ≡ hash_data content
      → Arrives net hash_data hash fetched.1
      → length (before ++ content) ≤ size
      → ((w : World) → Q (continue (before ++ content) w).1 ⊎ Collision net hash_data)
      → Q (after_fetch net hash_data message continue (pos size) hash before started fetched).1
        ⊎ Collision net hash_data
  after_fetch-arrives Q continue size hash content before started (w, Fetched.failed) h arrives room
        later =
      absurd arrives
  after_fetch-arrives Q continue size hash content before started (w, Fetched.bytes body) h arrives
        room later =
      elim (Bool-cases (eqb body content)) [
        | inr differs ↦
            inr
              (body, content, arrives ∙ h, λ e. ground (arith, differs, (eqb_iff body content).1 e))
        | inl same ↦
            let own = (eqb_iff (hash_data body) hash).1 arrives in
            let exact = (eqb_iff body content).0 same in
            let fitting : fits (pos size) (length (before ++ body)) ≡ true =
              ap (λ b. fits (pos size) (length (before ++ b))) exact ∙ fits-le _ size room in
            rw own (rw fitting (rw exact (later w)))
      ]

  abbrev IsWhole : List ℕ → Sent → Type 0
  IsWhole bytes s = (s.ending ≡ complete) × (s.written ≡ bytes)

  abbrev Whole : List ℕ → Sent → Type 0
  Whole bytes s = IsWhole bytes s ⊎ Collision net hash_data

  send_chunks-Whole :
      (now : ℕ) (db : State) (size : ℕ) (cs : List ChunkRef) (xs : List (List ℕ)) (before : List ℕ)
      (started : Bool) (w : World)
      → map (λ (c : ChunkRef). c.hash) cs ≡ map hash_data xs
      → All (Served net hash_data now db) cs
      → length (before ++ concat xs) ≤ size
      → Whole
          (before ++ concat xs)
          (send_chunks net hash_data message now db (pos size) cs before started w).1
  unfolding send_chunks concat
  send_chunks-Whole now db size [] [] before started w h served room =
      inl (refl, sym (append-nil before))
  send_chunks-Whole now db size [] (x ∷ xs) before started w h served room =
      absurd (ground (arith, h))
  send_chunks-Whole now db size (c ∷ cs) [] before started w h served room =
      absurd (ground (arith, h))
  send_chunks-Whole now db size (c ∷ cs) (x ∷ xs) before started w h served room =
      rw (← append_assoc before x (concat xs)) (
        after_fetch-arrives (IsWhole ((before ++ x) ++ concat xs))
          (λ sofar. send_chunks net hash_data message now db (pos size) cs sofar true) size c.hash x
          before started _ (cc) (served.0 w)
          (omega (
            arith,
            length-append before x,
            length-append before (x ++ concat xs),
            length-append x (concat xs),
          ))
          (λ w'.
            send_chunks-Whole now db size cs xs (before ++ x) true w' (cc) served.1
              (omega (arith, room, ap length (append_assoc before x (concat xs))))))

  -- A download is whole where every chunk can be had.
  pub download_file-whole :
      (now : ℕ) (id : Text) (srv : Server World) (f : FileManifest) (xs : List (List ℕ))
      → file id srv.db ≡ some f
      → map (λ (c : ChunkRef). c.hash) f.chunks ≡ map hash_data xs
      → f.size ≡ pos (length (concat xs))
      → All (Served net hash_data now srv.db) f.chunks
      → ((download_file net hash_data message now id srv).1 ≡ answered f.size (concat xs) complete)
        ⊎ Collision net hash_data
  unfolding download_file
  download_file-whole now id srv f xs found hashes size served =
      rw (found, download_file)
        (answer _ (
          rw size (
            send_chunks-Whole now srv.db (length (concat xs)) f.chunks xs [] false srv.world hashes
              served (omega arith))))
    where
      answer :
          (s : Sent)
          → Whole (concat xs) s
          → (response net hash_data message f.size s ≡ answered f.size (concat xs) complete)
            ⊎ Collision net hash_data
      answer s (inr clash) = inr clash
      answer s (inl (ended, got)) = inl (rw (ended, got) refl)
