-- ===== src/State/Nodes.antt =====
-- The table of nodes, and the choice of nodes for a chunk (internal/server/state.go). Each operation
-- reads the clock once, `now`.
pub mod Plan
use prosiak.Base.{
  ℕ, ℤ, Text, List, [], ◌∷◌, ◌++◌, Bool, not, ◌&&◌, ◌||◌, Option, none, some, map, take, ltb, ltb_ℤ,
  leb_ℤ, eqb_ℤ, ◌==◌, if◌then◌else◌, eqb, leb_text, any, select, delete_where, count_where,
  update_where, order_by,
}
use prosiak.Protocol.{NodeRegisterRequest, NodeInfo, online}
use prosiak.State.{
  State, Location, rfc3339, is_alive, with_derived_status, normalized_replication, has_id,
}

-- The row that RegisterNode writes.
abbrev pub registered : ℕ → NodeRegisterRequest → NodeInfo
registered now req = record {
  id = req.id;
  address = req.address;
  capacity = req.capacity;
  free = req.free;
  last_seen = rfc3339 now;
  status = online;
}

-- RegisterNode: the row of the node is inserted, or replaced where its id is known.
unfoldable pub register_node : ℕ → NodeRegisterRequest → State → State × NodeInfo
register_node now req s = (
  record s {
    nodes =
        if any (has_id req.id) s.nodes
        then update_where (has_id req.id) (λ _. registered now req) s.nodes
        else s.nodes ++ registered now req ∷ [];
  },
  registered now req,
)

-- Nodes
unfoldable pub all_nodes : ℕ → State → List NodeInfo
all_nodes now s = map (with_derived_status now) (order_by (λ a b. leb_text a.id b.id) s.nodes)

-- QueryRow(...).Scan: the first row, if there is one.
abbrev pub query_row {ℓ} : {A : Type ℓ} → List A → Option A
query_row [] = none
query_row (x ∷ xs) = some x

-- Node
unfoldable pub node : ℕ → Text → State → Option NodeInfo
node now id s = elim (query_row (select (has_id id) s.nodes)) [
  | none ↦ none
  | some n ↦ some (with_derived_status now n)
]

abbrev pub on_node : Text → Location → Bool
on_node id l = eqb id l.node_id

-- DeleteNode: the node with the count of its locations that went with it.
unfoldable pub delete_node : ℕ → Text → State → State × Option (NodeInfo × ℕ)
delete_node now id s = elim (node now id s) [
  | none ↦ (s, none)
  | some n ↦ (
    record s {
      nodes = delete_where (has_id id) s.nodes;
      chunk_locations = delete_where (on_node id) s.chunk_locations;
    },
    some (n, count_where (on_node id) s.chunk_locations),
  )
]

abbrev pub holds : Text → Text → Location → Bool
holds hash id l = eqb hash l.hash && eqb id l.node_id

-- The WHERE clause of PlanChunkSpread.
unfoldable pub is_candidate : ℕ → Text → ℤ → State → NodeInfo → Bool
is_candidate now hash size s n =
    is_alive now n && leb_ℤ size n.free && not (any (holds hash n.id) s.chunk_locations)

-- ORDER BY free DESC, id
unfoldable pub by_free : NodeInfo → NodeInfo → Bool
by_free a b = ltb_ℤ b.free a.free || (eqb_ℤ a.free b.free && leb_text a.id b.id)

-- The comparison that PlanChunkSpread sorts by, `less b a` negated.
unfoldable pub preferred : (Text → ℕ) → NodeInfo → NodeInfo → Bool
unfolding by_free
preferred counts a b =
    ltb (counts a.id) (counts b.id) || ((counts a.id == counts b.id) && by_free a b)

-- PlanChunkSpread; the map of counts is a function, and its nil is `λ _. 0`.
unfoldable pub plan_chunk_spread : ℕ → Text → ℤ → ℤ → (Text → ℕ) → State → List NodeInfo
plan_chunk_spread now hash size replication counts s = take (normalized_replication replication) (
    order_by (preferred counts) (
      map (with_derived_status now)
        (order_by by_free (select (is_candidate now hash size s) s.nodes))))

-- PlanChunk
unfoldable pub plan_chunk : ℕ → Text → ℤ → ℤ → State → List NodeInfo
plan_chunk now hash size replication s = plan_chunk_spread now hash size replication (λ _. 0) s
