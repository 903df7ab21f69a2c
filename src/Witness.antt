-- ===== src/Witness.antt =====
-- The theorems that have conditions, each at an input that meets them.
mod Client
mod Programs
mod Archives
mod Runs
mod Systems
mod Clients
mod Misled
mod Stores
use prosiak.Base.{
  ℕ, flat_map, Bool-cases, inl, inr, eqb_iff, pos, Text, text, List, [], ◌∷◌, true, false, Option,
  none, some, ◌≡◌, refl, ap, some_eq, ◌&&◌, ◌+◌, ◌≤◌, eqb, any, arith, length, select,
}
use prosiak.Base.{◌⊎◌, not, select, eqb, order_by}
use prosiak.State.Locations.{uses}
use prosiak.Protocol.{FileRow, ChunkRef}
use prosiak.State.{is_file}
use prosiak.State.Files.{file, file_chunks, manifest, delete_file, of_file}
use prosiak.Base.{trim_space}
use prosiak.State.{normalized_retention}
use prosiak.State.Files.Retention.{Retains, apply_retention-Retains}
use prosiak.State.Files.Unused.{delete_file-unused_hashes}
use prosiak.State.Nodes.{plan_chunk_spread}
use prosiak.State.Nodes.Plan.{IsBest, plan_chunk_spread-IsBest}
use prosiak.Handlers.Download.{download_file}
use prosiak.Handlers.Download.Exact.{Delivers, Collision, download_file-Delivers}
use prosiak.Protocol.{NodeRegisterRequest, CreateFileRequest, NodeInfo, online}
use prosiak.Chunker.{limits, split}
use prosiak.Chunker.{next_power_of_two}
use prosiak.Chunker.Power.{next_power_of_two-least}
use prosiak.Base.{◌^◌}
use prosiak.Chunker.Split.{joined, Lawful, joined-split-limits, split-limits-Lawful}
use prosiak.Network.{Network, answer, delete_chunk}
use prosiak.State.{State, Location, is_alive, has_id}
use prosiak.State.Consistent.{Consistent}
use prosiak.State.Consistent.Run.{
  Call, registers, confirms, creates, deletes_node, retains, run, empty, run-empty-Consistent,
}
use prosiak.State.Nodes.{holds}
use prosiak.State.Locations.{chunk_locations}
use prosiak.State.Files.{create_file}
use prosiak.Handlers.{Server}
use prosiak.Handlers.Backup.{BackupRequest, part, no_part, open_upload_part}
use prosiak.State.Tasks.{orphans_at}
use prosiak.Replicator.{cleanup_orphan_chunks}
use prosiak.Replicator.Race.{cleanup_removes_unnamed, upload_swept}
use prosiak.Replicator.Orphans.{orphan_rows}
use prosiak.Store
use prosiak.Store.Usage
use prosiak.Store.{Store, Stored, ok, Aead, Faults, put, new, scan_used, path}
use prosiak.Store.Usage.{Counted, puts, deletes, clears, run-new-Counted}
use prosiak.Base.{◌-◌}
use prosiak.NodeServer.{node_register_request, put_chunk}
use prosiak.NodeServer.Capacity.{put_chunk-scan_used}
use prosiak.Base.{◌↔◌}
use prosiak.Auth.{HttpRequest, resolve, public_path, middleware, served, unauthorized, round_trip}
use prosiak.Auth.Token.{Carries, middleware-Carries}
use prosiak.Store.Integrity.{Outcome, put-Outcome}

abbrev pub node_a : NodeRegisterRequest
node_a = record { id = text "a"; address = text "http://a:1"; capacity = pos 1000; free = pos 900 }

abbrev pub one_chunk : CreateFileRequest
one_chunk = record {
  name = text "f";
  backup_name = text "b";
  retention = pos 1;
  size = pos 4;
  chunk_size = pos 4;
  replication = pos 1;
  dedup_new_bytes = pos 4;
  dedup_reused_bytes = pos 0;
  chunks = record { index = pos 0; hash = text "ab12"; size = pos 4 } ∷ [];
}

abbrev history : List Call
history =
    registers 0 node_a
    ∷ confirms 1 (text "ab12") (pos 4) (text "a")
    ∷ creates 2 (text "1") one_chunk
    ∷ creates 3 (text "2") one_chunk
    ∷ retains (text "b") (pos 1)
    ∷ deletes_node 4 (text "a")
    ∷ []

run-empty-Consistent_example : Consistent (run empty history)
run-empty-Consistent_example = run-empty-Consistent history

abbrev pub stream : List ℕ
stream = 1 ∷ 2 ∷ 3 ∷ 4 ∷ 5 ∷ 6 ∷ 7 ∷ []

joined-split-limits_example : joined (split 8 (limits (pos 2)) false stream) ≡ some stream
joined-split-limits_example = joined-split-limits (pos 2) 8 stream (omega arith)

split-limits-Lawful_example : Lawful (limits (pos 2)) (split 8 (limits (pos 2)) false stream)
split-limits-Lawful_example = split-limits-Lawful (pos 2) 8 stream (omega arith)

next_power_of_two-least_example :
    (k : ℕ) × (next_power_of_two 100_000 ≡ 2 ^ k)
    × (100_000 ≤ 2 ^ k)
    × ((j : ℕ) → 100_000 ≤ 2 ^ j → k ≤ j)
next_power_of_two-least_example = next_power_of_two-least 100_000 (omega arith)

-- Nodes that answer 200 to everything, and count the requests.
abbrev pub willing : Network
willing = record { World = ℕ; do_request = λ r w. (w + 1, answer 200 []) }

abbrev pub sample_hash : List ℕ → Text
sample_hash bs = text "ab12"

abbrev pub live_node : NodeInfo
live_node = record {
  id = text "a";
  address = text "http://a:1";
  capacity = pos 1000;
  free = pos 900;
  last_seen = 100;
  status = online;
}

abbrev pub copy_on_a : Location
copy_on_a = record { hash = text "ab12"; node_id = text "a"; size = pos 4; verified_at = 100 }

-- One chunk has been uploaded, and its backup is not saved.
abbrev pub uploading : State
uploading = record {
  nodes = live_node ∷ [];
  files = [];
  file_chunks = [];
  chunk_locations = copy_on_a ∷ [];
}

abbrev pub server : Server ℕ
server = record { db = uploading; world = 0 }

abbrev pub no_copies : BackupRequest
no_copies = record {
  chunk_size = pos 4;
  replication = pos 0;
  retention = pos 1;
  backup_name = text "b";
  body = λ ceiling.
      some (part (text "file") (text "f") (record { bytes = stream; faulty = false }) no_part);
}

pub file_part :
    open_upload_part (no_copies.body (some 9))
    ≡ some (text "f", record { bytes = stream; faulty = false })
unfolding open_upload_part eqb
file_part = refl

willing_deletes : (address hash : Text) (w : ℕ) → (delete_chunk willing address hash w).1 ≡ true
unfolding delete_chunk
willing_deletes address hash w = refl

few_orphans : length (orphan_rows 100_000_000_000 uploading) ≤ 100
unfolding flat_map orphans_at select eqb any is_alive
few_orphans = omega arith

cleanup_removes_unnamed_example :
    any
      (holds (text "ab12") (text "a"))
      (cleanup_orphan_chunks willing sample_hash 100_000_000_000 server).db.chunk_locations
    ≡ false
unfolding any eqb is_alive
cleanup_removes_unnamed_example =
    cleanup_removes_unnamed willing sample_hash 100_000_000_000 (text "ab12") (text "a") server
      willing_deletes refl refl refl few_orphans

all_live :
    (id : Text)
    → any (holds (text "ab12") id) uploading.chunk_locations ≡ true
    → any (λ n. has_id id n && is_alive 100_000_000_000 n) uploading.nodes ≡ true
unfolding any eqb is_alive
all_live id h = elim (Bool-cases (eqb id (text "a"))) [
  | inl same ↦ rw ((eqb_iff id (text "a")).0 same) refl
  | inr other ↦ ground (arith, h, other)
]

upload_swept_example :
    let swept = (cleanup_orphan_chunks willing sample_hash 100_000_000_000 server).db in
    ((create_file 101 (text "1") one_chunk swept).1
      ≡ (create_file 101 (text "1") one_chunk uploading).1)
    × (chunk_locations 101 (text "ab12") (create_file 101 (text "1") one_chunk swept).0 ≡ [])
unfolding any
upload_swept_example =
    upload_swept willing sample_hash 100_000_000_000 (text "ab12") server 101 (text "1") one_chunk
      willing_deletes refl all_live few_orphans

abbrev pub stored_row : FileRow
stored_row = record {
  id = text "1";
  name = text "f";
  backup_name = text "b";
  version = 1;
  retention = 0;
  size = pos 7;
  chunk_size = pos 7;
  replication = 1;
  dedup_new_bytes = pos 7;
  dedup_reused_bytes = pos 0;
  created_at = 100;
}

abbrev pub stream_chunk : ChunkRef
stream_chunk = record { index = pos 0; hash = stream; size = pos 7 }

abbrev pub stored : State
stored = record {
  nodes = live_node ∷ [];
  files = stored_row ∷ [];
  file_chunks = record { file_id = text "1"; chunk = stream_chunk } ∷ [];
  chunk_locations =
      record { hash = stream; node_id = text "a"; size = pos 7; verified_at = 100 } ∷ [];
}

the_file : file (text "1") stored ≡ some (manifest stored_row (stream_chunk ∷ []))
unfolding file file_chunks select eqb order_by
the_file = refl

-- Each content is its own hash, and the node has the stream.
abbrev pub echoing : Network
echoing = record { World = ℕ; do_request = λ r w. (w + 1, answer 200 stream) }

abbrev pub own_hash : List ℕ → Text
own_hash bs = bs

abbrev pub stored_server : Server ℕ
stored_server = record { db = stored; world = 0 }

download_file-Delivers_example :
    let d = download_file echoing own_hash (text "no") 100_000_000_000 (text "1") stored_server in
    (d.0.db ≡ stored)
    × (Delivers (text "no") (pos 7) (stream ∷ []) d.1 ⊎ Collision echoing own_hash)
download_file-Delivers_example =
    download_file-Delivers echoing own_hash (text "no") 100_000_000_000 (text "1") stored_server
      (manifest stored_row (stream_chunk ∷ [])) (stream ∷ []) the_file refl

plan_chunk_spread-IsBest_example :
    (left_out : List NodeInfo) × IsBest 100_000_000_000
      (text "ab12")
      (pos 4)
      (pos 2)
      (λ id. 0)
      stored
      (plan_chunk_spread 100_000_000_000 (text "ab12") (pos 4) (pos 2) (λ id. 0) stored)
      left_out
plan_chunk_spread-IsBest_example =
    plan_chunk_spread-IsBest 100_000_000_000 (text "ab12") (pos 4) (pos 2) (λ id. 0) stored

delete_file-unused_hashes_example :
    let r = delete_file (text "1") stored in
    (unused : List Text) × (r.1 ≡ some (manifest stored_row (stream_chunk ∷ []), unused))
    × ((h : Text)
        → any (eqb h) unused ≡ (
            any (λ c. uses h c && of_file (text "1") c) stored.file_chunks
            && not (any (λ c. uses h c && not (of_file (text "1") c)) stored.file_chunks)))
    × (any (of_file (text "1")) r.0.file_chunks ≡ false)
    × (any (is_file (text "1")) r.0.files ≡ false)
delete_file-unused_hashes_example =
    delete_file-unused_hashes (text "1") stored (manifest stored_row (stream_chunk ∷ [])) the_file

apply_retention-Retains_example :
    (kept : List FileRow) × (gone : List FileRow) × Retains (text "b") (pos 1) stored kept gone
unfolding eqb trim_space normalized_retention
apply_retention-Retains_example = apply_retention-Retains (text "b") (pos 1) stored refl refl

abbrev plain_request : HttpRequest
plain_request = record { method = text "GET"; path = text "/files"; authorization = [] }

abbrev fine : HttpRequest → ℕ
fine q = 200

middleware-Carries_example :
    let token = resolve (text " s3 ") [] in
    ((middleware token public_path fine plain_request ≡ served 200)
      ↔ ((public_path plain_request ≡ true) ⊎ Carries token plain_request.authorization))
    × ((middleware token public_path fine plain_request ≡ unauthorized)
        ↔ ((public_path plain_request ≡ false) × (¬ Carries token plain_request.authorization)))
    × (middleware token public_path fine (round_trip token plain_request) ≡ served 200)
middleware-Carries_example = middleware-Carries (text " s3 ") [] public_path fine plain_request
