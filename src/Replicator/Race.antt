-- ===== src/Replicator/Race.antt =====
-- The pass over orphans (internal/server/replicator.go) and an upload in progress:
-- its chunks are on the nodes, and no backup names them yet.
use prosiak.Base.{
  ℕ, Text, List, [], ◌∷◌, Bool-cases, true, false, ◌&&◌, ◌≡◌, refl, ap, ◌∙◌, inl, inr, ◌≤◌, arith,
  eqb, eqb_iff, any, length, and-true,
}
use prosiak.Protocol.{NodeInfo, CreateFileRequest}
use prosiak.Network.{Network, delete_chunk}
use prosiak.State.{State, is_alive, has_id}
use prosiak.State.Nodes.{holds}
use prosiak.State.Locations.{remove_chunk_location, uses, of_hash, chunk_locations}
use prosiak.State.Files.{create_file}
use prosiak.State.Tasks.{OrphanChunkTask, orphan_chunk_tasks}
use prosiak.Handlers.{Server}
use prosiak.Replicator.{drop_copy, clean_orphans, cleanup_orphan_chunks}
use prosiak.Replicator.Orphans.{
  orphan_rows, about, remove-holds_self, remove-holds, orphan_task, create_file-answer,
  create_file-locations, no_location, no_location-chunk_locations,
}

module _ (net : Network) (hash_data : List ℕ → Text) where
  open net use {World}

  -- The nodes carry out each deletion.
  abbrev pub DeletesAll : Type 0
  DeletesAll = (address hash : Text) (w : World) → (delete_chunk net address hash w).1 ≡ true

  drop_copy-holds :
      (h : Text) (n : NodeInfo) (hash id : Text) (srv : Server World)
      → any (holds hash id) srv.db.chunk_locations ≡ false
      → any (holds hash id) (drop_copy net hash_data h n srv).0.db.chunk_locations ≡ false
  unfolding drop_copy
  drop_copy-holds h n hash id srv e = elim (Bool-cases (delete_chunk net n.address h srv.world).1) [
    | inl done ↦ rw done (remove-holds h n.id hash id srv.db e)
    | inr left ↦ rw left e
  ]

  drop_copy-holds_self :
      (n : NodeInfo) (hash : Text) (srv : Server World)
      → DeletesAll
      → any (holds hash n.id) (drop_copy net hash_data hash n srv).0.db.chunk_locations ≡ false
  unfolding drop_copy
  drop_copy-holds_self n hash srv works =
      rw (works n.address hash srv.world) (remove-holds_self hash n.id srv.db)

  clean_orphans-holds :
      (ts : List OrphanChunkTask) (hash id : Text) (srv : Server World)
      → any (holds hash id) srv.db.chunk_locations ≡ false
      → any (holds hash id) (clean_orphans net hash_data ts srv).db.chunk_locations ≡ false
  unfolding clean_orphans
  clean_orphans-holds [] hash id srv e = e
  clean_orphans-holds (t ∷ ts) hash id srv e =
      clean_orphans-holds ts hash id _ (drop_copy-holds t.hash t.node hash id srv e)

  clean_orphans-removes :
      (ts : List OrphanChunkTask) (hash id : Text) (srv : Server World)
      → DeletesAll
      → any (about hash id) ts ≡ true
      → any (holds hash id) (clean_orphans net hash_data ts srv).db.chunk_locations ≡ false
  unfolding clean_orphans any
  clean_orphans-removes [] hash id srv works e = ground arith
  clean_orphans-removes (t ∷ ts) hash id srv works e = elim (Bool-cases (about hash id t)) [
    | inl here ↦ clean_orphans-holds ts hash id _ (gone here)
    | inr later ↦ clean_orphans-removes ts hash id _ works (rw later at e)
  ]
    where
      gone :
          about hash id t ≡ true
          → any (holds hash id) (drop_copy net hash_data t.hash t.node srv).0.db.chunk_locations
            ≡ false
      gone here =
          let same = and-true (eqb hash t.hash) (eqb id t.node.id) here in
          rw ((eqb_iff hash t.hash).0 same.0, (eqb_iff id t.node.id).0 same.1)
            (drop_copy-holds_self t.node t.hash srv works)

  -- A pass over orphans removes each copy of a chunk that no backup names, whether the chunk is left
  -- from a deleted backup or belongs to an upload that has not been saved yet: where the copy is on
  -- a live node, the nodes carry out deletions, and there are at most 100 such copies, no location
  -- of that chunk on that node is left.
  pub cleanup_removes_unnamed :
      (now : ℕ) (hash id : Text) (srv : Server World)
      → DeletesAll
      → any (holds hash id) srv.db.chunk_locations ≡ true
      → any (uses hash) srv.db.file_chunks ≡ false
      → any (λ n. has_id id n && is_alive now n) srv.db.nodes ≡ true
      → length (orphan_rows now srv.db) ≤ 100
      → any (holds hash id) (cleanup_orphan_chunks net hash_data now srv).db.chunk_locations ≡ false
  unfolding cleanup_orphan_chunks
  cleanup_removes_unnamed now hash id srv works held unused alive few =
      clean_orphans-removes (orphan_chunk_tasks now 100 srv.db) hash id srv works
        (orphan_task now srv.db hash id held unused alive few)

  -- A pass leaves the backups alone.
  drop_copy-files :
      (h : Text) (n : NodeInfo) (srv : Server World)
      → ((drop_copy net hash_data h n srv).0.db.files ≡ srv.db.files)
        × ((drop_copy net hash_data h n srv).0.db.file_chunks ≡ srv.db.file_chunks)
  unfolding drop_copy remove_chunk_location
  drop_copy-files h n srv = ground arith

  clean_orphans-files :
      (ts : List OrphanChunkTask) (srv : Server World)
      → ((clean_orphans net hash_data ts srv).db.files ≡ srv.db.files)
        × ((clean_orphans net hash_data ts srv).db.file_chunks ≡ srv.db.file_chunks)
  unfolding clean_orphans
  clean_orphans-files [] srv = (refl, refl)
  clean_orphans-files (t ∷ ts) srv =
      let one = drop_copy-files t.hash t.node srv in
      let rest = clean_orphans-files ts (drop_copy net hash_data t.hash t.node srv).0 in
      (rest.0 ∙ one.0, rest.1 ∙ one.1)

  -- The copies of an unsaved upload do not survive a pass: where the copies of a chunk that no
  -- backup names are all on live nodes, the nodes carry out deletions and there are at most 100
  -- rows to clean, the pass leaves the chunk without a location. The manifest that names the chunk
  -- is then saved, or refused, just as if the copies were there, and still the chunk has no location.
  pub upload_swept :
      (now : ℕ) (hash : Text) (srv : Server World) (t : ℕ) (file_id : Text)
      (req : CreateFileRequest)
      → DeletesAll
      → any (uses hash) srv.db.file_chunks ≡ false
      → ((id : Text)
          → any (holds hash id) srv.db.chunk_locations ≡ true
          → any (λ n. has_id id n && is_alive now n) srv.db.nodes ≡ true)
      → length (orphan_rows now srv.db) ≤ 100
      → let swept = (cleanup_orphan_chunks net hash_data now srv).db in
        ((create_file t file_id req swept).1 ≡ (create_file t file_id req srv.db).1)
        × (chunk_locations t hash (create_file t file_id req swept).0 ≡ [])
  unfolding cleanup_orphan_chunks
  upload_swept now hash srv t file_id req works unused alive few =
      let kept = clean_orphans-files (orphan_chunk_tasks now 100 srv.db) srv in
      (
        create_file-answer t file_id req srv.db swept kept.0 kept.1,
        no_location-chunk_locations t hash (create_file t file_id req swept).0 (
            ap (any (of_hash hash)) (create_file-locations t file_id req swept)
            ∙ no_location hash swept.chunk_locations none_on),
      )
    where
      swept : State
      swept = (clean_orphans net hash_data (orphan_chunk_tasks now 100 srv.db) srv).db

      none_on : (id : Text) → any (holds hash id) swept.chunk_locations ≡ false
      none_on id = elim (Bool-cases (any (holds hash id) srv.db.chunk_locations)) [
        | inl held ↦
            clean_orphans-removes (orphan_chunk_tasks now 100 srv.db) hash id srv works
              (orphan_task now srv.db hash id held unused (alive id held) few)
        | inr free ↦ clean_orphans-holds (orphan_chunk_tasks now 100 srv.db) hash id srv free
      ]
