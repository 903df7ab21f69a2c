-- ===== src/Handlers/Download.antt =====
-- Sending a backup to the client (internal/server/handlers.go): downloadFile.
pub mod Exact
pub mod Whole
pub mod Filled
use prosiak.Base.{
  ℕ, ℤ, Text, text, List, [], ◌∷◌, ◌++◌, none, some, Bool, true, false, not, ◌||◌, pos, ltb_ℤ,
  leb_ℤ, length, eqb, if◌then◌else◌,
}
use prosiak.Protocol.{ChunkRef}
use prosiak.Network.{Network, Fetched, fetch_from_any}
use prosiak.State.{State}
use prosiak.State.Locations.{chunk_locations}
use prosiak.State.Files.{file}
use prosiak.Handlers.{Server}

-- How the loop over the chunks ended: at its end, with http.Error, or at a write beyond the announced
-- length, which net/http refuses.
pub data Ending : Type 0 where
  complete error_text overlong : Ending

-- What the loop leaves: the body as far as it was written, with the text of an error, and whether a
-- chunk was written, which sends the status.
pub record Sent : Type 0 where
  pub written : List ℕ
  pub started : Bool
  pub ending : Ending

-- The response: `refused` has the status of an error that came before any chunk was written. After
-- one the status is 200, and the ending shows only in the body.
pub data Download : Type 0 where
  refused : ℕ → Download
  answered : ℤ → List ℕ → Ending → Download

-- A negative length is not announced.
abbrev pub fits : ℤ → ℕ → Bool
fits size n = ltb_ℤ size (pos 0) || leb_ℤ (pos n) size

-- The text of an error as http.Error writes it, with a newline.
abbrev pub error_line : Text → List ℕ
error_line message = message ++ 10 ∷ []

abbrev pub hash_mismatch : List ℕ
hash_mismatch = error_line (text "chunk hash mismatch")

-- http.Error in the loop: its text goes behind what was written, where the announced length has room
-- for it, and is refused as a whole where not.
unfoldable pub stopped : ℤ → List ℕ → Bool → List ℕ → Sent
stopped size written started error = record {
  written = if fits size (length (written ++ error)) then written ++ error else written;
  started = started;
  ending = error_text;
}

-- `message` is the text of the error of fetchFromAny.
module _ (net : Network) (hash_data : List ℕ → Text) (message : Text) where
  open net use {World}

  abbrev pub after_fetch :
      (List ℕ → World → World × Sent) → ℤ → Text → List ℕ → Bool → World × Fetched → World × Sent
  after_fetch continue size hash written started (w, Fetched.failed) =
      (w, stopped size written started (error_line message))
  after_fetch continue size hash written started (w, Fetched.bytes body) =
      let rest = continue (written ++ body) w in
      if not (eqb (hash_data body) hash)
      then (w, stopped size written started hash_mismatch)
      else if fits size (length (written ++ body))
      then rest
      else (w, record { written = written; started = true; ending = overlong })

  -- The loop over the chunks, to a client that stays.
  unfoldable pub send_chunks : ℕ → State → ℤ → List ChunkRef → List ℕ → Bool → World → World × Sent
  send_chunks now db size [] written started w =
      (w, record { written = written; started = started; ending = complete })
  send_chunks now db size (c ∷ cs) written started w =
      after_fetch (λ sofar. send_chunks now db size cs sofar true) size c.hash written started
        (fetch_from_any net (chunk_locations now c.hash db) c.hash w)

  abbrev pub refuse_unless : Bool → Download → Download
  refuse_unless true d = d
  refuse_unless false d = refused 502

  abbrev pub response : ℤ → Sent → Download
  response size s = elim s.ending [
    | complete ↦ answered size s.written complete
    | error_text ↦ refuse_unless s.started (answered size s.written error_text)
    | overlong ↦ answered size s.written overlong
  ]

  -- downloadFile, at the id in the path; the size is the Content-Length that it announces.
  unfoldable pub download_file : ℕ → Text → Server World → Server World × Download
  unfolding send_chunks
  download_file now id srv = elim (file id srv.db) [
    | none ↦ (srv, refused 404)
    | some f ↦
        let (w, sent) = send_chunks now srv.db f.size f.chunks [] false srv.world in
        (record srv { world = w }, response f.size sent)
  ]
