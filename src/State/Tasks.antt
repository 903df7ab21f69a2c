-- ===== src/State/Tasks.antt =====
-- What the scheduler reads (internal/server/state.go): chunks with too few or too many copies, and
-- chunks that no backup uses. The grouped queries are read by their clauses, one function each.
use prosiak.Base.{
  ℕ, ℤ, pos, Text, List, [], ◌∷◌, Bool, not, ◌&&◌, ◌||◌, map, flat_map, ◌-◌, ltb, leb, ltb_ℤ, eqb_ℤ,
  max_ℤ, ◌==◌, if◌then◌else◌, eqb, leb_text, any, select, order_by, take, length,
}
use prosiak.Protocol.{NodeInfo, FileRow}
use prosiak.State.{State, Location, ChunkRow, is_alive, with_derived_status, has_id, is_file}
use prosiak.State.Nodes.{plan_chunk_spread}
use prosiak.State.Locations.{chunk_locations, online_nodes, of_hash, uses}

pub record ReplicationTask : Type 0 where
  pub hash : Text
  pub size : ℤ
  pub desired : ℕ
  pub active : ℕ
  pub missing : ℕ
  pub sources : List NodeInfo
  pub candidates : List NodeInfo

pub record PruneTask : Type 0 where
  pub hash : Text
  pub size : ℤ
  pub desired : ℕ
  pub active : ℕ
  pub extra : ℕ
  pub locations : List NodeInfo

pub record OrphanChunkTask : Type 0 where
  pub hash : Text
  pub size : ℤ
  pub node : NodeInfo

-- `limit <= 0` means 100.
abbrev pub task_limit : ℕ → ℕ
task_limit limit = if limit == 0 then 100 else limit

-- GROUP BY, DISTINCT: each text once.
unfoldable pub distinct : List Text → List Text
distinct [] = []
distinct (x ∷ xs) = let rest = distinct xs in if any (eqb x) rest then rest else x ∷ rest

-- JOIN files f ON f.id = fc.file_id, for the chunk rows of one hash.
unfoldable pub users : State → Text → List FileRow
users s hash =
    flat_map (λ (c : ChunkRow). select (is_file c.file_id) s.files)
      (select (uses hash) s.file_chunks)

-- The hashes that the join leaves.
unfoldable pub used_hashes : State → List Text
used_hashes s =
    distinct
      (map (λ (c : ChunkRow). c.hash) (select (λ c. any (is_file c.file_id) s.files) s.file_chunks))

-- MAX(fc.size)
unfoldable pub max_size : List ChunkRow → ℤ
max_size [] = pos 0
max_size (c ∷ []) = c.size
max_size (c ∷ d ∷ cs) = max_ℤ c.size (max_size (d ∷ cs))

unfoldable pub group_size : State → Text → ℤ
group_size s hash =
    max_size (select (λ c. uses hash c && any (is_file c.file_id) s.files) s.file_chunks)

-- MAX(f.replication)
unfoldable pub max_replication : List FileRow → ℕ
max_replication [] = 0
max_replication (f ∷ fs) =
    let rest = max_replication fs in if leb rest f.replication then f.replication else rest

unfoldable pub desired_copies : State → Text → ℕ
desired_copies s hash = max_replication (users s hash)

-- COUNT(DISTINCT CASE WHEN n.last_seen >= ? THEN cl.node_id END)
unfoldable pub active_copies : ℕ → State → Text → ℕ
active_copies now s hash = length (
    distinct (
      map (λ (l : Location). l.node_id)
        (select (λ l. of_hash hash l && any (λ n. has_id l.node_id n && is_alive now n) s.nodes)
          s.chunk_locations)))

-- ORDER BY desired - active DESC, fc.hash
unfoldable pub by_missing : ℕ → State → Text → Text → Bool
by_missing now s g h =
    let m = desired_copies s g - active_copies now s g in
    let n = desired_copies s h - active_copies now s h in ltb n m || ((m == n) && leb_text g h)

unfoldable pub replication_task : ℕ → State → Text → ReplicationTask
replication_task now s hash =
    let missing = desired_copies s hash - active_copies now s hash in
    record {
      hash = hash;
      size = group_size s hash;
      desired = desired_copies s hash;
      active = active_copies now s hash;
      missing = missing;
      sources = online_nodes (chunk_locations now hash s);
      candidates = plan_chunk_spread now hash (group_size s hash) (pos missing) (λ _. 0) s;
    }

-- ReplicationTasks. Under HAVING active < desired the truncated difference is the difference.
unfoldable pub replication_tasks : ℕ → ℕ → State → List ReplicationTask
replication_tasks now limit s = map (replication_task now s) (
    take (task_limit limit) (
      order_by (by_missing now s)
        (select (λ h. ltb (active_copies now s h) (desired_copies s h)) (used_hashes s))))

-- ORDER BY active - desired DESC, fc.hash
unfoldable pub by_extra : ℕ → State → Text → Text → Bool
by_extra now s g h =
    let m = active_copies now s g - desired_copies s g in
    let n = active_copies now s h - desired_copies s h in ltb n m || ((m == n) && leb_text g h)

-- The comparison that PruneTasks sorts by, negated.
unfoldable pub fullest : NodeInfo → NodeInfo → Bool
fullest a b =
    ltb_ℤ a.free b.free
    || (eqb_ℤ a.free b.free
        && (ltb a.last_seen b.last_seen || ((a.last_seen == b.last_seen) && leb_text a.id b.id)))

unfoldable pub prune_task : ℕ → State → Text → PruneTask
prune_task now s hash = record {
  hash = hash;
  size = group_size s hash;
  desired = desired_copies s hash;
  active = active_copies now s hash;
  extra = active_copies now s hash - desired_copies s hash;
  locations = order_by fullest (online_nodes (chunk_locations now hash s));
}

-- PruneTasks
unfoldable pub prune_tasks : ℕ → ℕ → State → List PruneTask
prune_tasks now limit s = map (prune_task now s) (
    take (task_limit limit) (
      order_by (by_extra now s)
        (select (λ h. ltb (desired_copies s h) (active_copies now s h)) (used_hashes s))))

-- ORDER BY cl.hash, n.id
unfoldable pub by_hash_node : OrphanChunkTask → OrphanChunkTask → Bool
by_hash_node a b =
    (leb_text a.hash b.hash && not (eqb a.hash b.hash))
    || (eqb a.hash b.hash && leb_text a.node.id b.node.id)

-- The rows of one location: LEFT JOIN file_chunks with fc.hash IS NULL keeps unused hashes.
unfoldable pub orphans_at : ℕ → State → Location → List OrphanChunkTask
orphans_at now s l =
    map (λ n. record { hash = l.hash; size = l.size; node = n })
      (select (λ n. has_id l.node_id n && (not (any (uses l.hash) s.file_chunks) && is_alive now n))
        s.nodes)

unfoldable pub derive_node : ℕ → OrphanChunkTask → OrphanChunkTask
derive_node now t = record t { node = with_derived_status now t.node }

-- OrphanChunkTasks
unfoldable pub orphan_chunk_tasks : ℕ → ℕ → State → List OrphanChunkTask
orphan_chunk_tasks now limit s = map (derive_node now) (
    take (task_limit limit) (order_by by_hash_node (flat_map (orphans_at now s) s.chunk_locations)))
