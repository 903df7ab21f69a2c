-- ===== src/Replicator/Pruned.antt =====
-- How far a pass over extra copies goes (internal/server/replicator.go: prune).
use prosiak.Base.{
  ℕ, ◌+◌, ◌-◌, ◌≤◌, Text, List, [], ◌∷◌, Bool, Bool-cases, true, false, count_where,
  any-count_where, delete_where, ◌≡◌, inl, inr, ap, ◌∙◌, arith, leb, if◌then◌else◌, eqb_iff, any,
  select,
}
use prosiak.Protocol.{NodeInfo}
use prosiak.Network.{Network, delete_chunk}
use prosiak.State.{State, Location}
use prosiak.State.Nodes.{holds}
use prosiak.State.Locations.{of_hash, remove_chunk_location}
use prosiak.State.Consistent.{Consistent, same_location}
use prosiak.State.Consistent.Locations.{remove_chunk_location-Consistent}
use prosiak.State.Tasks.{PruneTask}
use prosiak.Handlers.{Server}
use prosiak.Replicator.{drop_copy, prune_copies}
use prosiak.Base.{Distinct}

-- The number of locations of a chunk.
abbrev pub copies : Text → State → ℕ
copies hash s = count_where (of_hash hash) s.chunk_locations

count_where-delete_where {ℓ} :
    {A : Type ℓ} (p q : A → Bool) (xs : List A)
    → count_where p xs ≤ count_where p (delete_where q xs) + count_where q xs
unfolding count_where delete_where select
count_where-delete_where p q [] = omega arith
count_where-delete_where p q (x ∷ xs) = ground (arith, count_where-delete_where p q xs)

count_where-holds :
    (hash id : Text) (ls : List Location)
    → Distinct same_location ls
    → count_where (holds hash id) ls ≤ 1
unfolding count_where
count_where-holds hash id [] h = omega arith
count_where-holds hash id (l ∷ ls) h = elim (Bool-cases (holds hash id l)) [
  | inr other ↦ ground (arith, other, count_where-holds hash id ls h.1)
  | inl at ↦ ground (arith, at, any-count_where (holds hash id) ls (alone at))
]
  where
    alone : holds hash id l ≡ true → any (holds hash id) ls ≡ false
    alone at =
        let same_hash : hash ≡ l.hash = (eqb_iff hash l.hash).0 (ground (arith, at)) in
        let same_id : id ≡ l.node_id = (eqb_iff id l.node_id).0 (ground (arith, at)) in
        ap (λ k. any (holds k id) ls) same_hash ∙ ap (λ k. any (holds l.hash k) ls) same_id ∙ h.0

pub removed_rows :
    (hash id : Text) (s : State)
    → (remove_chunk_location hash id s).chunk_locations
      ≡ delete_where (holds hash id) s.chunk_locations
unfolding remove_chunk_location
removed_rows hash id s = ground arith

remove_chunk_location-copies :
    (hash id : Text) (s : State)
    → Consistent s
    → copies hash s ≤ copies hash (remove_chunk_location hash id s) + 1
remove_chunk_location-copies hash id s c = ground (
  arith,
  ap (count_where (of_hash hash)) rows,
  count_where-delete_where (of_hash hash) (holds hash id) s.chunk_locations,
  count_where-holds hash id s.chunk_locations c.location_keys,
)
  where
    rows :
        (remove_chunk_location hash id s).chunk_locations
        ≡ delete_where (holds hash id) s.chunk_locations
    rows = removed_rows hash id s

module _ (net : Network) (hash_data : List ℕ → Text) where
  open net use {World}

  -- A location goes where the node has deleted the chunk, and else none.
  pub drop_copy-copies :
      (hash : Text) (n : NodeInfo) (srv : Server World)
      → Consistent srv.db
      → Consistent (drop_copy net hash_data hash n srv).0.db
        × (copies hash srv.db
            ≤ copies hash (drop_copy net hash_data hash n srv).0.db
              + (if (drop_copy net hash_data hash n srv).1 then 1 else 0))
  unfolding drop_copy
  drop_copy-copies hash n srv c = elim (Bool-cases (delete_chunk net n.address hash srv.world).1) [
    | inl gone ↦
        rw (gone, drop_copy)
          (
            remove_chunk_location-Consistent hash n.id srv.db c,
            remove_chunk_location-copies hash n.id srv.db c,
          )
    | inr kept ↦ rw (kept, drop_copy) (c, omega arith)
  ]

  one_more :
      (extra removed : ℕ) (b : Bool) (before mid after : ℕ)
      → leb extra removed ≡ false
      → before ≤ mid + (if b then 1 else 0)
      → mid ≤ after + (extra - (if b then removed + 1 else removed))
      → before ≤ after + (extra - removed)
  one_more extra removed true before mid after more h h' = ground (arith, more, h, h')
  one_more extra removed false before mid after more h h' = omega arith

  prune_copies-copies :
      (t : PruneTask) (ns : List NodeInfo) (removed : ℕ) (srv : Server World)
      → Consistent srv.db
      → copies t.hash srv.db
        ≤ copies t.hash (prune_copies net hash_data t removed ns srv).db + (t.extra - removed)
  unfolding prune_copies
  prune_copies-copies t [] removed srv c = omega arith
  prune_copies-copies t (n ∷ ns) removed srv c = elim (Bool-cases (leb t.extra removed)) [
    | inl enough ↦ rw (enough, prune_copies) (omega arith)
    | inr more ↦ elim (Bool-cases (leb (t.active - removed) t.desired)) [
      | inl few ↦ rw (more, few, prune_copies) (omega arith)
      | inr many ↦
          let dropped = drop_copy-copies t.hash n srv c in
          rw (more, many, prune_copies)
            (one_more t.extra removed (drop_copy net hash_data t.hash n srv).1 _ _ _ more dropped.1
              (prune_copies-copies t ns _ (drop_copy net hash_data t.hash n srv).0 dropped.0))
    ]
  ]

  -- A task never leaves too few copies: where the tables are consistent and the chunk has at least as
  -- many locations as are wanted and extra together, as many as are wanted are left after the task,
  -- whatever the nodes answer.
  pub prune_copies-desired :
      (t : PruneTask) (srv : Server World)
      → Consistent srv.db
      → t.desired + t.extra ≤ copies t.hash srv.db
      → t.desired ≤ copies t.hash (prune_copies net hash_data t 0 t.locations srv).db
  prune_copies-desired t srv c h = omega (arith, prune_copies-copies t t.locations 0 srv c, h)
