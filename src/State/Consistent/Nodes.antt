-- ===== src/State/Consistent/Nodes.antt =====
-- The invariant of the database under RegisterNode and DeleteNode (internal/server/state.go).
use prosiak.Base.{
  ℕ, Text, List, [], ◌∷◌, Option-cases, Bool-cases, true, false, not, ◌≡◌, ap, ◌∙◌, inl, inr, arith,
  eqb, eqb_iff, eqb_sym, any, delete_where, update_where, All-mono, All-select_mono, Distinct,
  Distinct-select, Distinct-append_one, Distinct-update_where, any-append, any-select,
  any-update_where,
}
use prosiak.Protocol.{NodeRegisterRequest, NodeInfo}
use prosiak.State.{State, has_id}
use prosiak.State.Nodes.{registered, register_node, delete_node, node, on_node}
use prosiak.State.Consistent.{Consistent, OnNode, same_node, same_location}

-- A change of nodes alone that keeps the ids.
pub with_nodes-Consistent :
    (s : State) (nodes : List NodeInfo)
    → Distinct same_node nodes
    → ((k : Text) → any (has_id k) s.nodes ≡ true → any (has_id k) nodes ≡ true)
    → Consistent s
    → Consistent (record s { nodes = nodes })
with_nodes-Consistent s nodes d keep c = record {
  node_ids = d;
  file_ids = c.file_ids;
  chunk_keys = c.chunk_keys;
  location_keys = c.location_keys;
  on_nodes = All-mono (OnNode s) _ s.chunk_locations (λ l. keep l.node_id) c.on_nodes;
  in_files = c.in_files;
  versions = c.versions;
  copies = c.copies;
}

-- An update of the row with an id that leaves the id.
module _ (id : Text) (f : NodeInfo → NodeInfo) (nodes : List NodeInfo)
    (same_id : (n : NodeInfo) → eqb id n.id ≡ true → (f n).id ≡ n.id) where
  pub any-update_id :
      (k : Text) → any (has_id k) (update_where (has_id id) f nodes) ≡ any (has_id k) nodes
  any-update_id k =
      any-update_where (has_id id) (has_id k) f nodes (λ n e. ap (eqb k) (same_id n e))

  pub update_id-Distinct :
      Distinct same_node nodes → Distinct same_node (update_where (has_id id) f nodes)
  update_id-Distinct =
      Distinct-update_where same_node (has_id id) f nodes (λ m n e. ap (eqb m.id) (same_id n e))
        (λ m n e. ap (λ k. eqb k n.id) (same_id m e))

pub register_node-Consistent :
    (now : ℕ) (req : NodeRegisterRequest) (s : State)
    → Consistent s
    → Consistent (register_node now req s).0
unfolding register_node
register_node-Consistent now req s c = elim (Bool-cases (any (has_id req.id) s.nodes)) [
  | inl known ↦ rw known (
      with_nodes-Consistent s _
        (update_id-Distinct req.id (λ _. registered now req) s.nodes same_id c.node_ids)
        (λ k h. any-update_id req.id (λ _. registered now req) s.nodes same_id k ∙ h) c)
  | inr new ↦ rw new (
      with_nodes-Consistent s _
        (Distinct-append_one same_node s.nodes (registered now req) (λ n. eqb_sym n.id req.id)
          c.node_ids new)
        (λ k h. any-append (has_id k) s.nodes (registered now req ∷ []) ∙ rw h) c)
]
  where
    same_id : (n : NodeInfo) → eqb req.id n.id ≡ true → req.id ≡ n.id
    same_id n e = (eqb_iff req.id n.id).0 e

-- A node other than the deleted one is still there.
other_node :
    (id k : Text) (nodes : List NodeInfo)
    → eqb id k ≡ false
    → any (has_id k) (delete_where (has_id id) nodes) ≡ any (has_id k) nodes
unfolding delete_where
other_node id k nodes other =
    any-select (λ n. not (has_id id n)) (has_id k) nodes
      (λ n e. ground (arith, eqb_iff id k, eqb_iff k n.id, eqb_iff id n.id))

without_node-Consistent :
    (id : Text) (s : State)
    → Consistent s
    → Consistent (record s {
      nodes = delete_where (has_id id) s.nodes;
      chunk_locations = delete_where (on_node id) s.chunk_locations;
    })
unfolding delete_where
without_node-Consistent id s c = record {
  node_ids = Distinct-select same_node _ s.nodes c.node_ids;
  file_ids = c.file_ids;
  chunk_keys = c.chunk_keys;
  location_keys = Distinct-select same_location _ s.chunk_locations c.location_keys;
  on_nodes =
      All-select_mono (OnNode s) _ _ s.chunk_locations
        (λ l kept h. other_node id l.node_id s.nodes (ground arith) ∙ h) c.on_nodes;
  in_files = c.in_files;
  versions = c.versions;
  copies = c.copies;
}

pub delete_node-Consistent :
    (now : ℕ) (id : Text) (s : State) → Consistent s → Consistent (delete_node now id s).0
unfolding delete_node
delete_node-Consistent now id s c = elim (Option-cases (node now id s)) [
  | inl missing ↦ rw (missing, delete_node) c
  | inr (n, found) ↦ rw (found, delete_node) (without_node-Consistent id s c)
]
