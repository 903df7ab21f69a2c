-- ===== src/State/Locations.antt =====
-- Where chunks are kept (internal/server/state.go): the table chunk_locations with the free space
-- of the nodes.
pub mod Confirmed
use prosiak.Base.{
  ℕ, ℤ, pos, Text, List, [], ◌∷◌, ◌++◌, Bool, not, ◌&&◌, Option, none, some, map, flat_map, ltb,
  ltb_ℤ, ◌+ℤ◌, ◌-ℤ◌, if◌then◌else◌, eqb, leb_text, any, select, delete_where, count_where,
  update_where, order_by,
}
use prosiak.Protocol.{NodeInfo, online}
use prosiak.State.{State, Location, ChunkRow, rfc3339, with_derived_status, is_online, has_id}
use prosiak.State.Nodes.{holds, query_row}

-- What the methods return in place of a Go error.
pub data Failure : Type 0 where
  unknown_node constraint : Failure

-- CASE WHEN free - ? < 0 THEN 0 ELSE free - ? END, last_seen = ?, status = 'online'
abbrev pub occupy : ℕ → ℤ → NodeInfo → NodeInfo
occupy now size n = record n {
  free = if ltb_ℤ (n.free -ℤ size) (pos 0) then pos 0 else n.free -ℤ size;
  last_seen = rfc3339 now;
  status = online;
}

-- ConfirmChunk: `none` is the nil error. INSERT OR IGNORE leaves a known location as it is, and
-- then the node too.
unfoldable pub confirm_chunk : ℕ → Text → ℤ → Text → State → State × Option Failure
confirm_chunk now hash size node_id s =
    if not (any (has_id node_id) s.nodes)
    then (s, some unknown_node)
    else if any (holds hash node_id) s.chunk_locations
    then (s, none)
    else (
      record s {
        nodes = update_where (has_id node_id) (occupy now size) s.nodes;
        chunk_locations =
            s.chunk_locations
            ++ record { hash = hash; node_id = node_id; size = size; verified_at = rfc3339 now }
              ∷ [];
      },
      none,
    )

abbrev pub of_hash : Text → Location → Bool
of_hash hash l = eqb hash l.hash

-- ChunkLocations: the join of the locations of a chunk with the nodes.
unfoldable pub chunk_locations : ℕ → Text → State → List NodeInfo
chunk_locations now hash s = map (with_derived_status now) (
    order_by (λ a b. leb_text a.id b.id)
      (flat_map (λ (l : Location). select (has_id l.node_id) s.nodes)
        (select (of_hash hash) s.chunk_locations)))

abbrev pub uses : Text → ChunkRow → Bool
uses hash c = eqb hash c.hash

-- ChunkInUse
unfoldable pub chunk_in_use : Text → State → Bool
chunk_in_use hash s = ltb 0 (count_where (uses hash) s.file_chunks)

-- onlineNodes
unfoldable pub online_nodes : List NodeInfo → List NodeInfo
online_nodes = select is_online

-- onlineCount
unfoldable pub online_count : List NodeInfo → ℕ
online_count = count_where is_online

-- LocationsSnapshot: the map, as the pairs of each hash with what it is mapped to.
unfoldable pub locations_snapshot : ℕ → List Text → State → List (Text × List NodeInfo)
locations_snapshot now hashes s = map (λ h. (h, chunk_locations now h s)) hashes

-- CASE WHEN free + ? > capacity THEN capacity ELSE free + ? END
abbrev pub release : ℤ → NodeInfo → NodeInfo
release size n = record n {
  free = if ltb_ℤ n.capacity (n.free +ℤ size) then n.capacity else n.free +ℤ size;
}

-- The size of a location, 0 where there is none.
abbrev pub location_size : Option Location → ℤ
location_size none = pos 0
location_size (some l) = l.size

-- RemoveChunkLocation: the space comes back only where a row went and had a positive size.
unfoldable pub remove_chunk_location : Text → Text → State → State
remove_chunk_location hash node_id s =
    let size = location_size (query_row (select (holds hash node_id) s.chunk_locations)) in
    let affected = count_where (holds hash node_id) s.chunk_locations in
    let rest = delete_where (holds hash node_id) s.chunk_locations in
    if ltb 0 affected && ltb_ℤ (pos 0) size
    then record s {
      chunk_locations = rest;
      nodes = update_where (has_id node_id) (release size) s.nodes;
    }
    else record s { chunk_locations = rest }
