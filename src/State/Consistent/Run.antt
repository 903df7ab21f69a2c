-- ===== src/State/Consistent/Run.antt =====
-- Histories of the calls that change the database (internal/server/state.go).
use prosiak.Base.{ℕ, ℤ, Text, List, [], ◌∷◌}
use prosiak.Protocol.{NodeRegisterRequest, CreateFileRequest}
use prosiak.State.{State}
use prosiak.State.Nodes.{register_node, delete_node}
use prosiak.State.Locations.{confirm_chunk, remove_chunk_location}
use prosiak.State.Files.{create_file, update_file_replication, delete_file, apply_retention}
use prosiak.State.Consistent.{Consistent}
use prosiak.State.Consistent.Nodes.{register_node-Consistent, delete_node-Consistent}
use prosiak.State.Consistent.Locations.{confirm_chunk-Consistent, remove_chunk_location-Consistent}
use prosiak.State.Consistent.Files.{
  create_file-Consistent, update_file_replication-Consistent, delete_file-Consistent,
  apply_retention-Consistent,
}

-- The calls that change the database, with the time at which each is made.
pub data Call : Type 0 where
  registers : ℕ → NodeRegisterRequest → Call
  deletes_node : ℕ → Text → Call
  confirms : ℕ → Text → ℤ → Text → Call
  removes_location : Text → Text → Call
  creates : ℕ → Text → CreateFileRequest → Call
  sets_replication : Text → ℤ → Call
  deletes_file : Text → Call
  retains : Text → ℤ → Call

unfoldable pub step : State → Call → State
step s (registers now req) = (register_node now req s).0
step s (deletes_node now id) = (delete_node now id s).0
step s (confirms now hash size id) = (confirm_chunk now hash size id s).0
step s (removes_location hash id) = remove_chunk_location hash id s
step s (creates now id req) = (create_file now id req s).0
step s (sets_replication id n) = (update_file_replication id n s).0
step s (deletes_file id) = (delete_file id s).0
step s (retains name keep) = (apply_retention name keep s).0

unfoldable pub run : State → List Call → State
unfolding step
run s [] = s
run s (c ∷ cs) = run (step s c) cs

-- The database that migrate leaves in a new file.
abbrev pub empty : State
empty = record { nodes = []; files = []; file_chunks = []; chunk_locations = [] }

step-Consistent : (s : State) (c : Call) → Consistent s → Consistent (step s c)
unfolding step
step-Consistent s (registers now req) h = register_node-Consistent now req s h
step-Consistent s (deletes_node now id) h = delete_node-Consistent now id s h
step-Consistent s (confirms now hash size id) h = confirm_chunk-Consistent now hash size id s h
step-Consistent s (removes_location hash id) h = remove_chunk_location-Consistent hash id s h
step-Consistent s (creates now id req) h = create_file-Consistent now id req s h
step-Consistent s (sets_replication id n) h = update_file_replication-Consistent id n s h
step-Consistent s (deletes_file id) h = delete_file-Consistent id s h
step-Consistent s (retains name keep) h = apply_retention-Consistent name keep s h

pub run-Consistent : (s : State) (cs : List Call) → Consistent s → Consistent (run s cs)
unfolding run
run-Consistent s [] h = h
run-Consistent s (c ∷ cs) h = run-Consistent (step s c) cs (step-Consistent s c h)

pub empty-Consistent : Consistent empty
empty-Consistent = record {
  node_ids = tt;
  file_ids = tt;
  chunk_keys = tt;
  location_keys = tt;
  on_nodes = tt;
  in_files = tt;
  versions = tt;
  copies = tt;
}

-- After any sequence of calls on a new database, whatever their arguments: node ids, file ids,
-- chunk keys and location keys are each unique, every location is of a known node and every chunk
-- of a known file, no backup has two files of one version, and every file wants at least one copy.
pub run-empty-Consistent : (cs : List Call) → Consistent (run empty cs)
run-empty-Consistent cs = run-Consistent empty cs empty-Consistent
