-- ===== src/Handlers/Delete.antt =====
-- Deleting a backup, and its chunks on the nodes (internal/server/handlers.go).
pub mod Removes
use prosiak.Base.{ℕ, Text, List, [], ◌∷◌, ◌++◌, none, some, ◌+◌, if◌then◌else◌}
use prosiak.Protocol.{NodeInfo}
use prosiak.Network.{Network, delete_chunk}
use prosiak.State.Locations.{locations_snapshot, remove_chunk_location}
use prosiak.State.Files
use prosiak.Handlers.{Server, Response, ok, failed}

-- The counters of deleteUnusedChunks: how many copies went, and which could not be deleted.
pub record Swept : Type 0 where
  pub deleted : ℕ
  pub failures : List (Text × Text)

module _ (net : Network) where
  open net use {World}

  abbrev Sweep : Type 0
  Sweep = Server World × Swept

  -- One round of the inner loop.
  unfoldable pub sweep_copy : Text → NodeInfo → Sweep → Sweep
  sweep_copy hash n (srv, t) =
      let (w, done) = delete_chunk net n.address hash srv.world in
      if done
      then (
        record { db = remove_chunk_location hash n.id srv.db; world = w },
        record t { deleted = t.deleted + 1 },
      )
      else (record srv { world = w }, record t { failures = t.failures ++ (hash, n.id) ∷ [] })

  unfoldable pub sweep_copies : Text → List NodeInfo → Sweep → Sweep
  sweep_copies hash [] s = s
  sweep_copies hash (n ∷ ns) s = sweep_copies hash ns (sweep_copy hash n s)

  unfoldable pub sweep_all : List (Text × List NodeInfo) → Sweep → Sweep
  sweep_all [] s = s
  sweep_all ((hash, nodes) ∷ rest) s = sweep_all rest (sweep_copies hash nodes s)

  -- deleteUnusedChunks: the locations are those from before the first deletion.
  unfoldable pub delete_unused_chunks : ℕ → List Text → Server World → Sweep
  delete_unused_chunks now hashes srv =
      sweep_all (locations_snapshot now hashes srv.db) (srv, record { deleted = 0; failures = [] })

  -- deleteFile, at the id in the path.
  unfoldable pub delete_file : ℕ → Text → Server World → Server World × Response (Text × Swept)
  delete_file now id srv =
      let (db, found) = Files.delete_file id srv.db in
      elim found [
        | none ↦ (srv, failed 404)
        | some (f, unused) ↦
            let (srv', swept) = delete_unused_chunks now unused (record srv { db = db }) in
            (srv', ok (f.id, swept))
      ]
