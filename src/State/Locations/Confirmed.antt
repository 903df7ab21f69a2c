-- ===== src/State/Locations/Confirmed.antt =====
-- What ConfirmChunk leaves in the tables (internal/server/state.go).
use prosiak.Base.{
  ℕ, ℤ, Text, [], ◌∷◌, ◌++◌, Bool-cases, true, none, any-update_where, any-append, update_where,
  ◌≡◌, inl, inr, refl, ◌∙◌, arith, eqb_refl, any,
}
use prosiak.State.{State, has_id, rfc3339}
use prosiak.State.Nodes.{holds}
use prosiak.State.Locations.{confirm_chunk, occupy}

-- The node is in the table of nodes.
abbrev pub Known : Text → State → Type 0
Known id s = any (has_id id) s.nodes ≡ true

-- The chunk has a location at the node.
abbrev pub Held : Text → Text → State → Type 0
Held hash id s = any (holds hash id) s.chunk_locations ≡ true

module _ (now : ℕ) (hash : Text) (size : ℤ) (node_id : Text) (s : State) where
  pub confirm_chunk-none : Known node_id s → (confirm_chunk now hash size node_id s).1 ≡ none
  unfolding confirm_chunk
  confirm_chunk-none h = ground (arith, h)

  pub confirm_chunk-Held :
      Known node_id s → Held hash node_id (confirm_chunk now hash size node_id s).0
  unfolding confirm_chunk any
  confirm_chunk-Held h = elim (Bool-cases (any (holds hash node_id) s.chunk_locations)) [
    | inl there ↦ rw (h, there, confirm_chunk) there
    | inr absent ↦
        rw (h, absent, confirm_chunk)
          (any-append (holds hash node_id) s.chunk_locations _
            ∙ ground (arith, eqb_refl hash, eqb_refl node_id))
  ]

  -- The tables with the new location.
  abbrev grown : State
  grown = record s {
    nodes = update_where (has_id node_id) (occupy now size) s.nodes;
    chunk_locations =
        s.chunk_locations
        ++ record { hash = hash; node_id = node_id; size = size; verified_at = rfc3339 now } ∷ [];
  }

  confirm_chunk-elim :
      (P : State → Type 0) → P s → P grown → P (confirm_chunk now hash size node_id s).0
  unfolding confirm_chunk
  confirm_chunk-elim P same more = elim (Bool-cases (any (has_id node_id) s.nodes)) [
    | inr unknown ↦ rw (unknown, confirm_chunk) same
    | inl known ↦ elim (Bool-cases (any (holds hash node_id) s.chunk_locations)) [
      | inl there ↦ rw (known, there, confirm_chunk) same
      | inr absent ↦ rw (known, absent, confirm_chunk) more
    ]
  ]

  pub confirm_chunk-keeps_Held :
      (h id : Text) → Held h id s → Held h id (confirm_chunk now hash size node_id s).0
  confirm_chunk-keeps_Held h id held =
      confirm_chunk-elim (Held h id) held
        (any-append (holds h id) s.chunk_locations _ ∙ ground (arith, held))

  pub confirm_chunk-keeps_Known :
      (id : Text) → Known id s → Known id (confirm_chunk now hash size node_id s).0
  confirm_chunk-keeps_Known id known = confirm_chunk-elim (Known id) known (
      any-update_where (has_id node_id) (has_id id) (occupy now size) s.nodes (λ n e. refl) ∙ known)
