-- ===== src/State/Consistent.antt =====
-- The invariant of the database: the keys and references that the schema declares, and what the
-- operations add to it. The children are about the operations.
pub mod Nodes
pub mod Locations
pub mod Files
pub mod Run
use prosiak.Base.{Text, Bool, true, ◌&&◌, ◌≡◌, ap, ◌<◌, ◌==◌, eqb, eqb_iff, any, All, Distinct}
use prosiak.Protocol.{NodeInfo, FileRow}
use prosiak.State.{State, ChunkRow, Location, has_id, is_file}
use prosiak.State.Nodes.{holds}
use prosiak.State.Files.{same_chunk}

abbrev pub same_node : NodeInfo → NodeInfo → Bool
same_node a b = eqb a.id b.id

abbrev pub same_file : FileRow → FileRow → Bool
same_file a b = eqb a.id b.id

abbrev pub same_location : Location → Location → Bool
same_location a b = holds a.hash a.node_id b

abbrev pub same_version : FileRow → FileRow → Bool
same_version a b = eqb a.backup_name b.backup_name && (a.version == b.version)

abbrev pub OnNode : State → Location → Type 0
OnNode s l = any (has_id l.node_id) s.nodes ≡ true

abbrev pub InFile : State → ChunkRow → Type 0
InFile s c = any (is_file c.file_id) s.files ≡ true

abbrev pub HasCopies : FileRow → Type 0
HasCopies f = 0 < f.replication

-- The primary keys, the foreign keys, one row for each version of a backup, and copies for each file.
pub record Consistent (s : State) : Type 0 where
  pub node_ids : Distinct same_node s.nodes
  pub file_ids : Distinct same_file s.files
  pub chunk_keys : Distinct same_chunk s.file_chunks
  pub location_keys : Distinct same_location s.chunk_locations
  pub on_nodes : All (OnNode s) s.chunk_locations
  pub in_files : All (InFile s) s.file_chunks
  pub versions : Distinct same_version s.files
  pub copies : All HasCopies s.files

-- To compare with one of two equal texts is to compare with the other.
pub eqb_right : (s t u : Text) → eqb t u ≡ true → eqb s t ≡ eqb s u
eqb_right s t u h = ap (eqb s) ((eqb_iff t u).0 h)

pub eqb_left : (s t u : Text) → eqb t u ≡ true → eqb t s ≡ eqb u s
eqb_left s t u h = ap (λ v. eqb v s) ((eqb_iff t u).0 h)
