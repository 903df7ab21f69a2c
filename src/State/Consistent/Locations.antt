-- ===== src/State/Consistent/Locations.antt =====
-- The invariant of the database under ConfirmChunk and RemoveChunkLocation
-- (internal/server/state.go).
use prosiak.Base.{
  ℕ, ℤ, pos, Text, List, [], ◌∷◌, ◌++◌, Bool-cases, ◌&&◌, ◌≡◌, refl, ◌∙◌, inl, inr, arith, ltb,
  ltb_ℤ, eqb_sym, any, count_where, select, delete_where, All, All-append, All-select_mono,
  Distinct, Distinct-select, Distinct-append_one,
}
use prosiak.State.{State, Location, has_id, rfc3339}
use prosiak.State.Nodes.{holds, query_row}
use prosiak.State.Locations.{confirm_chunk, remove_chunk_location, occupy, release, location_size}
use prosiak.State.Consistent.{Consistent, OnNode, same_location}
use prosiak.State.Consistent.Nodes.{with_nodes-Consistent, any-update_id, update_id-Distinct}

-- A change of locations alone.
with_locations-Consistent :
    (s : State) (ls : List Location)
    → Distinct same_location ls
    → All (OnNode s) ls
    → Consistent s
    → Consistent (record s { chunk_locations = ls })
with_locations-Consistent s ls d on c = record {
  node_ids = c.node_ids;
  file_ids = c.file_ids;
  chunk_keys = c.chunk_keys;
  location_keys = d;
  on_nodes = on;
  in_files = c.in_files;
  versions = c.versions;
  copies = c.copies;
}

same_location_sym : (a b : Location) → same_location a b ≡ same_location b a
same_location_sym a b = ground (arith, eqb_sym a.hash b.hash, eqb_sym a.node_id b.node_id)

pub confirm_chunk-Consistent :
    (now : ℕ) (hash : Text) (size : ℤ) (node_id : Text) (s : State)
    → Consistent s
    → Consistent (confirm_chunk now hash size node_id s).0
unfolding confirm_chunk
confirm_chunk-Consistent now hash size node_id s c =
    elim (Bool-cases (any (has_id node_id) s.nodes)) [
      | inr unknown ↦ rw unknown c
      | inl known ↦ elim (Bool-cases (any (holds hash node_id) s.chunk_locations)) [
        | inl old ↦ rw (known, old) c
        | inr new ↦
            rw (known, new)
              (with_nodes-Consistent with_row _
                (update_id-Distinct node_id (occupy now size) s.nodes (λ n e. refl) c.node_ids)
                (λ k h. any-update_id node_id (occupy now size) s.nodes (λ n e. refl) k ∙ h)
                (with_locations-Consistent s _
                  (Distinct-append_one same_location s.chunk_locations row
                    (λ l. same_location_sym l row) c.location_keys new)
                  (All-append (OnNode s) s.chunk_locations (row ∷ []) c.on_nodes (known, tt)) c))
      ]
    ]
  where
    row : Location
    row = record { hash = hash; node_id = node_id; size = size; verified_at = rfc3339 now }

    with_row : State
    with_row = record s { chunk_locations = s.chunk_locations ++ row ∷ [] }

pub remove_chunk_location-Consistent :
    (hash node_id : Text) (s : State)
    → Consistent s
    → Consistent (remove_chunk_location hash node_id s)
unfolding remove_chunk_location delete_where
remove_chunk_location-Consistent hash node_id s c =
    elim (Bool-cases
      (ltb 0 (count_where (holds hash node_id) s.chunk_locations) && ltb_ℤ (pos 0) size)) [
        | inl gone ↦ rw gone (
            with_nodes-Consistent _ _
              (update_id-Distinct node_id (release size) s.nodes (λ n e. refl) c.node_ids)
              (λ k h. any-update_id node_id (release size) s.nodes (λ n e. refl) k ∙ h) rest)
        | inr kept ↦ rw kept rest
      ]
  where
    size : ℤ
    size = location_size (query_row (select (holds hash node_id) s.chunk_locations))

    rest :
        Consistent
          (record s { chunk_locations = delete_where (holds hash node_id) s.chunk_locations })
    rest =
        with_locations-Consistent s _
          (Distinct-select same_location _ s.chunk_locations c.location_keys)
          (All-select_mono (OnNode s) (OnNode s) _ s.chunk_locations (λ l _ h. h) c.on_nodes) c
