-- ===== src/Replicator/Calls.antt =====
-- A pass of the scheduler (internal/server/replicator.go) changes the database by the calls of
-- internal/server/state.go alone.
use prosiak.Base.{
  ℕ, ◌+◌, ◌-◌, Text, List, [], ◌∷◌, Bool, Bool-cases, true, false, inl, inr, if◌then◌else◌,
  if_cases, leb, eqb, ◌||◌, ◌==◌,
}
use prosiak.Protocol.{NodeInfo}
use prosiak.Network.{Network, Fetched, put_chunk, delete_chunk}
use prosiak.State.Locations.{confirm_chunk}
use prosiak.State.Tasks.{ReplicationTask, PruneTask, OrphanChunkTask, orphan_chunk_tasks}
use prosiak.Handlers.{Server}
use prosiak.Handlers.Calls.{Reaches, stays, and_then, confirms-Reaches, removes-Reaches}
use prosiak.Replicator.{
  drop_copy, clean_orphans, cleanup_orphan_chunks, prune_copies, prune_all, prune_extra_copies,
  confirmed, copy_to, copy_fetched, no_node, replicate, replicate_all, replicate_missing_copies,
  run_replication_once,
}

module _ (net : Network) (hash_data : List ℕ → Text) where
  open net use {World}

  abbrev Moved : Server World → Server World → Type 0
  Moved srv srv' = Reaches srv.db srv'.db

  either :
      (b : Bool) (srv yes_srv no_srv : Server World)
      → Moved srv yes_srv
      → Moved srv no_srv
      → Moved srv (if b then yes_srv else no_srv)
  either true srv a b h h' = h
  either false srv a b h h' = h'

  drop_copy-Moved :
      (hash : Text) (n : NodeInfo) (srv : Server World)
      → Moved srv (drop_copy net hash_data hash n srv).0
  unfolding drop_copy
  drop_copy-Moved hash n srv = elim (Bool-cases (delete_chunk net n.address hash srv.world).1) [
    | inl done ↦ rw done (removes-Reaches hash n.id srv.db)
    | inr kept ↦ rw kept (stays srv.db)
  ]

  clean_orphans-Moved :
      (ts : List OrphanChunkTask) (srv : Server World)
      → Moved srv (clean_orphans net hash_data ts srv)
  unfolding clean_orphans
  clean_orphans-Moved [] srv = stays srv.db
  clean_orphans-Moved (t ∷ ts) srv =
      and_then srv.db _ _ (drop_copy-Moved t.hash t.node srv)
        (clean_orphans-Moved ts (drop_copy net hash_data t.hash t.node srv).0)

  prune_copies-Moved :
      (t : PruneTask) (removed : ℕ) (ns : List NodeInfo) (srv : Server World)
      → Moved srv (prune_copies net hash_data t removed ns srv)
  unfolding prune_copies
  prune_copies-Moved t removed [] srv = stays srv.db
  prune_copies-Moved t removed (n ∷ ns) srv =
      let dropped = drop_copy net hash_data t.hash n srv in
      either (leb t.extra removed) srv srv _ (stays srv.db) (
        either (leb (t.active - removed) t.desired) srv srv _ (stays srv.db) (
          and_then srv.db _ _ (drop_copy-Moved t.hash n srv)
            (prune_copies-Moved t (if dropped.1 then removed + 1 else removed) ns dropped.0)))

  prune_all-Moved :
      (ts : List PruneTask) (srv : Server World) → Moved srv (prune_all net hash_data ts srv)
  unfolding prune_all
  prune_all-Moved [] srv = stays srv.db
  prune_all-Moved (t ∷ ts) srv =
      let pruned = prune_copies net hash_data t 0 t.locations srv in
      and_then srv.db _ _
        (either (t.extra == 0) srv srv pruned (stays srv.db)
          (prune_copies-Moved t 0 t.locations srv))
        (prune_all-Moved ts (if t.extra == 0 then srv else pruned))

  copy_to-Moved :
      (now : ℕ) (t : ReplicationTask) (content : List ℕ) (copied : ℕ) (ns : List NodeInfo)
      (srv : Server World)
      → Moved srv (copy_to net hash_data now t content copied ns srv)
  unfolding copy_to
  copy_to-Moved now t content copied [] srv = stays srv.db
  copy_to-Moved now t content copied (n ∷ ns) srv =
      let sent = put_chunk net n.address t.hash content srv.world in
      let entered = confirm_chunk now t.hash t.size n.id srv.db in
      let db = if sent.1 then entered.0 else srv.db in
      either (leb t.missing copied) srv srv _ (stays srv.db) (
        and_then srv.db db _
          (if_cases (Reaches srv.db) sent.1 entered.0 srv.db
            (λ _. confirms-Reaches now t.hash t.size n.id srv.db) (λ _. stays srv.db))
          (copy_to-Moved now t content
            (if confirmed net hash_data sent.1 entered.1 then copied + 1 else copied) ns
            (record { db = db; world = sent.0 })))

  copy_fetched-Moved :
      (now : ℕ) (t : ReplicationTask) (srv : Server World) (r : World × Fetched)
      → Moved srv (copy_fetched net hash_data now t srv.db r)
  copy_fetched-Moved now t srv (w, Fetched.failed) = stays srv.db
  copy_fetched-Moved now t srv (w, Fetched.bytes content) =
      either (eqb (hash_data content) t.hash) srv _ _
        (copy_to-Moved now t content 0 t.candidates (record { db = srv.db; world = w }))
        (stays srv.db)

  replicate-Moved :
      (now : ℕ) (t : ReplicationTask) (srv : Server World)
      → Moved srv (replicate net hash_data now t srv)
  unfolding replicate
  replicate-Moved now t srv =
      either
        ((t.missing == 0) || no_node net hash_data t.sources || no_node net hash_data t.candidates)
        srv srv _ (stays srv.db) (copy_fetched-Moved now t srv _)

  replicate_all-Moved :
      (now : ℕ) (ts : List ReplicationTask) (srv : Server World)
      → Moved srv (replicate_all net hash_data now ts srv)
  unfolding replicate_all
  replicate_all-Moved now [] srv = stays srv.db
  replicate_all-Moved now (t ∷ ts) srv =
      and_then srv.db _ _ (replicate-Moved now t srv)
        (replicate_all-Moved now ts (replicate net hash_data now t srv))

  pub run_replication_once-Reaches :
      (now : ℕ) (srv : Server World)
      → Reaches srv.db (run_replication_once net hash_data now srv).db
  unfolding run_replication_once cleanup_orphan_chunks prune_extra_copies replicate_missing_copies
  run_replication_once-Reaches now srv =
      and_then srv.db _ _ (clean_orphans-Moved (orphan_chunk_tasks now 100 srv.db) srv)
        (and_then _ _ _ (prune_all-Moved _ _) (replicate_all-Moved now _ _))
