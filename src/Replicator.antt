-- ===== src/Replicator.antt =====
-- The scheduler (internal/server/replicator.go): one pass over orphans, extra and missing copies.
pub mod Race
pub mod Copies
pub mod Pruned
pub mod Spared
pub mod Calls
pub mod Orphans
use prosiak.Base.{
  ℕ, Text, List, [], ◌∷◌, Bool, true, false, ◌||◌, Option, none, some, ◌+◌, ◌-◌, leb, ◌==◌, eqb,
  if◌then◌else◌,
}
use prosiak.Protocol.{NodeInfo}
use prosiak.Network.{Network, Fetched, put_chunk, delete_chunk, fetch_from_any}
use prosiak.State.{State}
use prosiak.State.Locations.{Failure, confirm_chunk, remove_chunk_location}
use prosiak.State.Tasks.{
  ReplicationTask, PruneTask, OrphanChunkTask, orphan_chunk_tasks, prune_tasks, replication_tasks,
}
use prosiak.Handlers.{Server}

module _ (net : Network) (hash_data : List ℕ → Text) where
  open net use {World}

  -- A chunk is deleted on its node, and its location is then removed.
  unfoldable pub drop_copy : Text → NodeInfo → Server World → Server World × Bool
  drop_copy hash n srv =
      let (w, done) = delete_chunk net n.address hash srv.world in
      if done
      then (record { db = remove_chunk_location hash n.id srv.db; world = w }, true)
      else (record srv { world = w }, false)

  unfoldable pub clean_orphans : List OrphanChunkTask → Server World → Server World
  clean_orphans [] srv = srv
  clean_orphans (t ∷ ts) srv = clean_orphans ts (drop_copy t.hash t.node srv).0

  -- cleanupOrphanChunks
  unfoldable pub cleanup_orphan_chunks : ℕ → Server World → Server World
  cleanup_orphan_chunks now srv = clean_orphans (orphan_chunk_tasks now 100 srv.db) srv

  -- The loop over the locations of a prune task.
  unfoldable pub prune_copies : PruneTask → ℕ → List NodeInfo → Server World → Server World
  prune_copies t removed [] srv = srv
  prune_copies t removed (n ∷ ns) srv =
      let (srv', done) = drop_copy t.hash n srv in
      let rest = prune_copies t (if done then removed + 1 else removed) ns srv' in
      if leb t.extra removed then srv else if leb (t.active - removed) t.desired then srv else rest

  unfoldable pub prune_all : List PruneTask → Server World → Server World
  prune_all [] srv = srv
  prune_all (t ∷ ts) srv =
      prune_all ts (if t.extra == 0 then srv else prune_copies t 0 t.locations srv)

  -- pruneExtraCopies
  unfoldable pub prune_extra_copies : ℕ → Server World → Server World
  prune_extra_copies now srv = prune_all (prune_tasks now 100 srv.db) srv

  abbrev confirmed : Bool → Option Failure → Bool
  confirmed sent none = sent
  confirmed sent (some _) = false

  -- The loop over the candidates. A failed upload is not confirmed.
  unfoldable pub copy_to :
      ℕ → ReplicationTask → List ℕ → ℕ → List NodeInfo → Server World → Server World
  copy_to now t content copied [] srv = srv
  copy_to now t content copied (n ∷ ns) srv =
      let (w, sent) = put_chunk net n.address t.hash content srv.world in
      let (db, refused) = confirm_chunk now t.hash t.size n.id srv.db in
      let srv' : Server World = record { db = (if sent then db else srv.db); world = w } in
      let rest =
        copy_to now t content (if confirmed sent refused then copied + 1 else copied) ns srv' in
      if leb t.missing copied then srv else rest

  abbrev copy_fetched : ℕ → ReplicationTask → State → World × Fetched → Server World
  copy_fetched now t db (w, Fetched.failed) = record { db = db; world = w }
  copy_fetched now t db (w, Fetched.bytes content) =
      let srv : Server World = record { db = db; world = w } in
      let sent = copy_to now t content 0 t.candidates srv in
      if eqb (hash_data content) t.hash then sent else srv

  abbrev no_node : List NodeInfo → Bool
  no_node [] = true
  no_node (n ∷ ns) = false

  unfoldable pub replicate : ℕ → ReplicationTask → Server World → Server World
  replicate now t srv =
      if (t.missing == 0) || no_node t.sources || no_node t.candidates
      then srv
      else copy_fetched now t srv.db (fetch_from_any net t.sources t.hash srv.world)

  unfoldable pub replicate_all : ℕ → List ReplicationTask → Server World → Server World
  replicate_all now [] srv = srv
  replicate_all now (t ∷ ts) srv = replicate_all now ts (replicate now t srv)

  -- replicateMissingCopies
  unfoldable pub replicate_missing_copies : ℕ → Server World → Server World
  replicate_missing_copies now srv = replicate_all now (replication_tasks now 100 srv.db) srv

  -- runReplicationOnce
  unfoldable pub run_replication_once : ℕ → Server World → Server World
  run_replication_once now srv =
      replicate_missing_copies now (prune_extra_copies now (cleanup_orphan_chunks now srv))
