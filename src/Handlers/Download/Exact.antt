-- ===== src/Handlers/Download/Exact.antt =====
-- What downloadFile delivers (internal/server/handlers.go), against the contents of the backup.
use prosiak.Base.{
  ℕ, suc, ℤ, Text, List, [], ◌∷◌, ◌++◌, append-nil, append_assoc, map, take, length, Bool,
  Bool-cases, true, false, some, ◌≡◌, ◌≢◌, refl, sym, subst, ◌∙◌, ◌⊎◌, inl, inr, arith, eqb,
  eqb_iff, if◌then◌else◌, if_cases,
}
use prosiak.Protocol.{ChunkRef, FileManifest}
use prosiak.Network.{Network, Fetched, fetch_from_any}
use prosiak.State.{State}
use prosiak.State.Files.{file}
use prosiak.State.Locations.{chunk_locations}
use prosiak.Handlers.{Server}
use prosiak.Handlers.Download.{
  Ending, complete, error_text, overlong, Sent, Download, refused, answered, fits, after_fetch,
  send_chunks, response, download_file, error_line, hash_mismatch, stopped,
}

-- Contents put together.
unfoldable pub concat : List (List ℕ) → List ℕ
concat [] = []
concat (x ∷ xs) = x ++ concat xs

-- The texts of errors that the loop may stop with.
abbrev pub IsError : Text → List ℕ → Type 0
IsError message error = (error ≡ hash_mismatch) ⊎ (error ≡ error_line message)

-- The body of a loop that stopped with an error after the bytes `first`.
abbrev pub Stopped : Text → ℤ → List ℕ → List ℕ → Type 0
Stopped message size first body =
    (error : List ℕ) × IsError message error
    × (((fits size (length (first ++ error)) ≡ true) × (body ≡ first ++ error))
        ⊎ ((fits size (length (first ++ error)) ≡ false) × (body ≡ first)))

-- A body goes on from `before` with all the contents, or with the first few of them, and then with an
-- error where one ended the loop.
abbrev pub Follows : Text → ℤ → List (List ℕ) → List ℕ → List ℕ → Ending → Type 0
Follows message size contents before body complete = body ≡ before ++ concat contents
Follows message size contents before body error_text =
    (n : ℕ) × Stopped message size (before ++ concat (take n contents)) body
Follows message size contents before body overlong =
    (n : ℕ) × (body ≡ before ++ concat (take n contents))

-- What a client has: nothing of the backup after a refusal.
abbrev pub Delivers : Text → ℤ → List (List ℕ) → Download → Type 0
Delivers message size contents (refused status) = status ≡ 502
Delivers message size contents (answered announced body ending) =
    (announced ≡ size) × Follows message size contents [] body ending

stopped-Stopped :
    (message : Text) (size : ℤ) (first : List ℕ) (started : Bool) (error : List ℕ)
    → IsError message error
    → Stopped message size first (stopped size first started error).written
unfolding stopped
stopped-Stopped message size first started error known =
    elim (Bool-cases (fits size (length (first ++ error)))) [
      | inl room ↦ (error, known, inl (room, rw room refl))
      | inr full ↦ (error, known, inr (full, rw full refl))
    ]

-- Contents that went before are among the first few.
goes_on :
    (message : Text) (size : ℤ) (content : List ℕ) (contents : List (List ℕ)) (before body : List ℕ)
    (ending : Ending)
    → Follows message size contents (before ++ content) body ending
    → Follows message size (content ∷ contents) before body ending
unfolding concat
goes_on message size content contents before body complete e =
    e ∙ append_assoc before content (concat contents)
goes_on message size content contents before body error_text (n, s) = (
  suc n,
  subst (λ first. Stopped message size first body)
      (append_assoc before content (concat (take n contents))) s,
)
goes_on message size content contents before body overlong (n, e) =
    (suc n, e ∙ append_assoc before content (concat (take n contents)))

module _ (net : Network) (hash_data : List ℕ → Text) where
  open net use {World}

  -- Two contents of one hash.
  abbrev pub Collision : Type 0
  Collision = (a : List ℕ) × (b : List ℕ) × (hash_data a ≡ hash_data b) × (a ≢ b)

module _ (net : Network) (hash_data : List ℕ → Text) (message : Text) where
  open net use {World}

  abbrev Sends : ℤ → List (List ℕ) → List ℕ → Sent → Type 0
  Sends size contents before s =
      Follows message size contents before s.written s.ending ⊎ Collision net hash_data

  stops :
      (size : ℤ) (contents : List (List ℕ)) (before : List ℕ) (started : Bool) (error : List ℕ)
      → IsError message error
      → Sends size contents before (stopped size before started error)
  unfolding concat stopped
  stops size contents before started error known = inl (
    0,
    subst (λ first. Stopped message size first (stopped size before started error).written)
        (sym (append-nil before)) (stopped-Stopped message size before started error known),
  )

  after_fetch-Sends :
      (continue : List ℕ → World → World × Sent) (size : ℤ) (hash : Text) (content : List ℕ)
      (contents : List (List ℕ)) (before : List ℕ) (started : Bool) (fetched : World × Fetched)
      → hash ≡ hash_data content
      → ((sofar : List ℕ) (w : World) → Sends size contents sofar (continue sofar w).1)
      → Sends size
          (content ∷ contents)
          before
          (after_fetch net hash_data message continue size hash before started fetched).1
  unfolding concat
  after_fetch-Sends continue size hash content contents before started (w, Fetched.failed) h later =
      stops size (content ∷ contents) before started (error_line message) (inr refl)
  after_fetch-Sends continue size hash content contents before started (w, Fetched.bytes body) h
        later =
      elim (Bool-cases (eqb (hash_data body) hash)) [
        | inr other ↦
            rw other (stops size (content ∷ contents) before started hash_mismatch (inl refl))
        | inl same ↦ rw same (elim (Bool-cases (eqb body content)) [
          | inl exact ↦ written ((eqb_iff body content).0 exact)
          | inr differs ↦ inr (
            body,
            content,
            (eqb_iff (hash_data body) hash).0 same ∙ h,
            λ e. ground (arith, differs, (eqb_iff body content).1 e),
          )
        ])
      ]
    where
      overrun : Sent
      overrun = record { written = before; started = true; ending = overlong }

      refused_write : Sends size (content ∷ contents) before overrun
      refused_write = inl (0, sym (append-nil before))

      written :
          body ≡ content
          → Sends size
              (content ∷ contents)
              before
              (if fits size (length (before ++ body))
                then continue (before ++ body) w
                else (w, overrun)).1
      written exact =
          if_cases (λ (r : World × Sent). Sends size (content ∷ contents) before r.1)
            (fits size (length (before ++ body))) (continue (before ++ body) w) (w, overrun)
            (λ _. rw exact (elim (later (before ++ content) w) [
              | inr clash ↦ inr clash
              | inl follows ↦ inl (goes_on message size content contents before _ _ follows)
            ]))
            (λ _. refused_write)

  send_chunks-Sends :
      (now : ℕ) (db : State) (size : ℤ) (cs : List ChunkRef) (contents : List (List ℕ))
      (before : List ℕ) (started : Bool) (w : World)
      → map (λ (c : ChunkRef). c.hash) cs ≡ map hash_data contents
      → Sends size contents before
          (send_chunks net hash_data message now db size cs before started w).1
  unfolding send_chunks concat
  send_chunks-Sends now db size [] [] before started w h = inl (sym (append-nil before))
  send_chunks-Sends now db size [] (x ∷ xs) before started w h = absurd (ground (arith, h))
  send_chunks-Sends now db size (c ∷ cs) [] before started w h = absurd (ground (arith, h))
  send_chunks-Sends now db size (c ∷ cs) (x ∷ xs) before started w h =
      after_fetch-Sends (λ sofar. send_chunks net hash_data message now db size cs sofar true) size
        c.hash x xs before started (fetch_from_any net (chunk_locations now c.hash db) c.hash w)
        (cc) (λ sofar w'. send_chunks-Sends now db size cs xs sofar true w' cc)

  response-Delivers :
      (contents : List (List ℕ)) (size : ℤ) (s : Sent)
      → Follows message size contents [] s.written s.ending
      → Delivers message size contents (response net hash_data message size s)
  response-Delivers contents size s f = delivers s.written s.started s.ending f
    where
      delivers :
          (body : List ℕ) (started : Bool) (ending : Ending)
          → Follows message size contents [] body ending
          → Delivers message size contents (
              response net hash_data message size
                (record { written = body; started = started; ending = ending }))
      delivers body started complete f = (refl, f)
      delivers body true error_text f = (refl, f)
      delivers body false error_text f = refl
      delivers body started overlong f = (refl, f)

  -- A download of a backup whose chunks have the hashes of some contents, in order, is refused with
  -- 502, or announces the size of the backup and has one of three bodies, whatever the nodes send:
  -- all the contents put together; the first few of them; or the first few and then the line of one
  -- error, which is there exactly if the announced length has room for it, and is that of a chunk's
  -- hash or of a fetch. Or else the hash has two contents that collide. The database is left as it was.
  pub download_file-Delivers :
      (now : ℕ) (id : Text) (srv : Server World) (f : FileManifest) (contents : List (List ℕ))
      → file id srv.db ≡ some f
      → map (λ (c : ChunkRef). c.hash) f.chunks ≡ map hash_data contents
      → ((download_file net hash_data message now id srv).0.db ≡ srv.db)
        × (Delivers message f.size contents (download_file net hash_data message now id srv).1
            ⊎ Collision net hash_data)
  unfolding download_file
  download_file-Delivers now id srv f contents found hashes =
      rw (found, download_file)
        (
          refl,
          elim (send_chunks-Sends now srv.db f.size f.chunks contents [] false srv.world hashes) [
            | inl sent ↦ inl (response-Delivers contents f.size _ sent)
            | inr clash ↦ inr clash
          ],
        )
