-- ===== src/Handlers/Download/Filled.antt =====
-- A download in which the text of an error takes the place of a chunk (internal/server/handlers.go:
-- downloadFile).
use prosiak.Base.{
  ℕ, ◌+◌, ◌≤◌, ℤ, pos, Text, List, [], ◌∷◌, ◌++◌, append-nil, append_assoc, map, length,
  length-append, true, false, some, ◌≡◌, refl, ap, sym, subst, ◌⊎◌, inl, inr, arith, eqb, All,
}
use prosiak.Protocol.{ChunkRef, FileManifest}
use prosiak.Network.{Network, Fetched, fetch_from_any}
use prosiak.State.{State}
use prosiak.State.Files.{file}
use prosiak.State.Locations.{chunk_locations}
use prosiak.Handlers.{Server}
use prosiak.Handlers.Download.{
  error_text, Sent, answered, fits, after_fetch, stopped, hash_mismatch, send_chunks, response,
  download_file,
}
use prosiak.Handlers.Download.Exact.{concat, Collision}
use prosiak.Handlers.Download.Whole.{Served, after_fetch-arrives}

module _ (net : Network) (hash_data : List ℕ → Text) where
  open net use {World}

  abbrev Differs : Text → Fetched → Type 0
  Differs hash Fetched.failed = ⊥
  Differs hash (Fetched.bytes body) = eqb (hash_data body) hash ≡ false

  -- The first node that answers for a chunk sends content of another hash, whatever happened before.
  abbrev pub Corrupt : ℕ → State → ChunkRef → Type 0
  Corrupt now db c =
      (w : World) → Differs c.hash (fetch_from_any net (chunk_locations now c.hash db) c.hash w).1

module _ (net : Network) (hash_data : List ℕ → Text) (message : Text) where
  open net use {World}

  abbrev IsFilled : List ℕ → Sent → Type 0
  IsFilled bytes s =
      s ≡ record { written = bytes ++ hash_mismatch; started = true; ending = error_text }

  after_fetch-Differs :
      (continue : List ℕ → World → World × Sent) (size : ℕ) (hash : Text) (before : List ℕ)
      (fetched : World × Fetched)
      → Differs net hash_data hash fetched.1
      → length before + 20 ≤ size
      → IsFilled before
          (after_fetch net hash_data message continue (pos size) hash before true fetched).1
  unfolding stopped
  after_fetch-Differs continue size hash before (w, Fetched.failed) differs room = absurd differs
  after_fetch-Differs continue size hash before (w, Fetched.bytes body) differs room =
      let fitting : fits (pos size) (length (before ++ hash_mismatch)) ≡ true =
        ground (arith, room, length-append before hash_mismatch) in
      rw differs (rw fitting refl)

  module _ (now : ℕ) (db : State) (size : ℕ) (d : ChunkRef) (ds : List ChunkRef)
      (corrupt : Corrupt net hash_data now db d) where
    send_chunks-IsFilled :
        (cs : List ChunkRef) (xs : List (List ℕ)) (before : List ℕ) (w : World)
        → map (λ (c : ChunkRef). c.hash) cs ≡ map hash_data xs
        → All (Served net hash_data now db) cs
        → length (before ++ concat xs) + 20 ≤ size
        → IsFilled
            (before ++ concat xs)
            (send_chunks net hash_data message now db (pos size) (cs ++ d ∷ ds) before true w).1
          ⊎ Collision net hash_data
    unfolding send_chunks concat
    send_chunks-IsFilled [] [] before w h served room = inl (
        rw append-nil (
          after_fetch-Differs
            (λ sofar. send_chunks net hash_data message now db (pos size) ds sofar true) size d.hash
            before _ (corrupt w) (omega (arith, room, length-append before []))))
    send_chunks-IsFilled [] (x ∷ xs) before w h served room = absurd (ground (arith, h))
    send_chunks-IsFilled (c ∷ cs) [] before w h served room = absurd (ground (arith, h))
    send_chunks-IsFilled (c ∷ cs) (x ∷ xs) before w h served room =
        rw (← append_assoc before x (concat xs)) (
          after_fetch-arrives net hash_data message (IsFilled ((before ++ x) ++ concat xs))
            (λ sofar. send_chunks net hash_data message now db (pos size) (cs ++ d ∷ ds) sofar true)
            size c.hash x before true _ (cc) (served.0 w)
            (omega (
              arith,
              length-append before x,
              length-append before (x ++ concat xs),
              length-append x (concat xs),
            ))
            (λ w'.
              send_chunks-IsFilled cs xs (before ++ x) w' (cc) served.1
                (omega (arith, room, ap length (append_assoc before x (concat xs))))))

  -- A chunk is corrupt behind the first, and the line of the error fits.
  pub download_file-filled :
      (now : ℕ) (id : Text) (srv : Server World) (f : FileManifest) (c d : ChunkRef)
      (cs ds : List ChunkRef) (x : List ℕ) (xs : List (List ℕ)) (size : ℕ)
      → file id srv.db ≡ some f
      → f.chunks ≡ c ∷ (cs ++ d ∷ ds)
      → f.size ≡ pos size
      → map (λ (e : ChunkRef). e.hash) (c ∷ cs) ≡ map hash_data (x ∷ xs)
      → All (Served net hash_data now srv.db) (c ∷ cs)
      → Corrupt net hash_data now srv.db d
      → length (concat (x ∷ xs)) + 20 ≤ size
      → ((download_file net hash_data message now id srv).1
          ≡ answered (pos size) (concat (x ∷ xs) ++ hash_mismatch) error_text)
        ⊎ Collision net hash_data
  unfolding download_file send_chunks concat
  download_file-filled now id srv f c d cs ds x xs size found listed sized hashes served corrupt
        room =
      rw (found, download_file, listed)
        (subst Filled (sym sized) (
          answer _ (
            after_fetch-arrives net hash_data message (IsFilled (x ++ concat xs))
              (λ sofar.
                send_chunks net hash_data message now srv.db (pos size) (cs ++ d ∷ ds) sofar true)
              size c.hash x [] false _ (cc) (served.0 srv.world)
              (omega (arith, room, length-append x (concat xs)))
              (λ w.
                send_chunks-IsFilled now srv.db size d ds corrupt cs xs x w (cc) served.1 room))))
    where
      Filled : ℤ → Type 0
      Filled n =
          (response net hash_data message n
              (send_chunks net hash_data message now srv.db n (c ∷ (cs ++ d ∷ ds)) [] false
                srv.world).1
            ≡ answered (pos size) (concat (x ∷ xs) ++ hash_mismatch) error_text)
          ⊎ Collision net hash_data

      answer :
          (s : Sent)
          → IsFilled (x ++ concat xs) s ⊎ Collision net hash_data
          → (response net hash_data message (pos size) s
              ≡ answered (pos size) ((x ++ concat xs) ++ hash_mismatch) error_text)
            ⊎ Collision net hash_data
      answer s (inr clash) = inr clash
      answer s (inl e) = inl (ap (response net hash_data message (pos size)) e)
