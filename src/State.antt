-- ===== src/State.antt =====
-- internal/server/state.go: the tables of the database, and what reads them by a key. A child
-- module has each group of operations. A statement is read as the function on rows that its SQL says.
pub mod Nodes
pub mod Locations
pub mod Files
pub mod Tasks
pub mod Consistent
use prosiak.Base.{
  ℕ, zero, ℤ, Text, List, Bool, true, false, ◌-◌, ◌*◌, ◌/◌, ltb, leb, if◌then◌else◌, pos, negsuc,
  eqb, suc,
}
use prosiak.Protocol.{NodeInfo, ChunkRef, FileRow, online, offline}

-- A row of file_chunks.
pub record ChunkRow : Type 0 where
  pub file_id : Text
  pub chunk : ChunkRef
  pub open chunk use *

-- A row of chunk_locations.
pub record Location : Type 0 where
  pub hash : Text
  pub node_id : Text
  pub size : ℤ
  pub verified_at : ℕ

-- The database: one connection, so a statement or a transaction runs alone.
pub record State : Type 0 where
  pub nodes : List NodeInfo
  pub files : List FileRow
  pub file_chunks : List ChunkRow
  pub chunk_locations : List Location

abbrev pub second : ℕ
second = 1_000_000_000

-- nodeOfflineAfter, in nanoseconds.
abbrev pub node_offline_after : ℕ
node_offline_after = 45 * second

-- A clock reading, in nanoseconds, as it is stored: Format(time.RFC3339) drops the fraction.
abbrev pub rfc3339 : ℕ → ℕ
rfc3339 now = now / second

-- The bound that the queries compare `last_seen` with.
abbrev pub cutoff : ℕ → ℕ
cutoff now = rfc3339 (now - node_offline_after)

-- The test `last_seen >= ?` of the queries.
unfoldable pub is_alive : ℕ → NodeInfo → Bool
is_alive now n = leb (cutoff now) n.last_seen

unfoldable pub with_derived_status : ℕ → NodeInfo → NodeInfo
with_derived_status now n =
    if ltb node_offline_after (now - n.last_seen * second) then record n { status = offline } else n

abbrev pub is_online : NodeInfo → Bool
is_online n = elim n.status [ online ↦ true | offline ↦ false ]

unfoldable pub normalized_replication : ℤ → ℕ
normalized_replication (pos zero) = 3
normalized_replication (pos (suc n)) = suc n
normalized_replication (negsuc n) = 3

unfoldable pub normalized_retention : ℤ → ℕ
normalized_retention (pos n) = n
normalized_retention (negsuc n) = 0

-- The conditions on keys in the WHERE clauses.
abbrev pub has_id : Text → NodeInfo → Bool
has_id k n = eqb k n.id

abbrev pub is_file : Text → FileRow → Bool
is_file k f = eqb k f.id
