-- ===== src/Witness/Systems.antt =====
-- The theorems about the whole server that have conditions, each at an input that meets them.
use prosiak.Base.{
  eqb, ◌⊎◌, ℕ, Text, text, List, [], ◌∷◌, pos, Option, none, some, ◌≡◌, refl, cut_prefix, false,
}
use prosiak.Auth.{valid_bearer}
use prosiak.Auth.Token.{Carries, valid_bearer-Carries}
use prosiak.State.Consistent.{Consistent}
use prosiak.State.Consistent.Run.{empty}
use prosiak.Handlers.Nodes.{Url}
use prosiak.Handlers.Serve.{Body, Incoming, Moment, serve}
use prosiak.Handlers.Serve.Guarded.{TellsNothing, serve-stranger}
use prosiak.Handlers.{Server, Response, created}
use prosiak.Protocol.{FileManifest, online}
use prosiak.Handlers.Backup.{BackupRequest, backup_file}
use prosiak.System.{Event, request, pass, run}
use prosiak.State.Consistent.Run as State
use prosiak.State.Consistent.Run.{Call, registers}
use prosiak.Handlers.Backup.{
  open_upload_part, upload_loop, upload_chunk, count_bytes, place_chunk, send_copies, append_chunk,
  finish_upload, save_manifest,
}
use prosiak.Chunker.{read_content_defined_chunk}
use prosiak.Handlers.Download.{download_file}
use prosiak.Handlers.Download.Exact.{Collision}
use prosiak.Base.{
  ◌-ℤ◌, count_where, order_by, flat_map, select, any, ◌+ℤ◌, leb_text, trim_space, delete_where,
  insert_by, update_where,
}
use prosiak.State.Locations.{
  online_count, chunk_locations, chunk_in_use, confirm_chunk, locations_snapshot,
}
use prosiak.State.Nodes.{register_node, plan_chunk_spread, is_candidate, by_free, preferred}
use prosiak.State.{normalized_replication, is_alive, normalized_retention, with_derived_status}
use prosiak.Network.{put_chunk}
use prosiak.Chunker.{
  gear_rows, gear_table, greatest_size, least_size, limits, mix, next_power_of_two, read_loop, roll,
  smear,
}
use prosiak.Handlers.Delete.{delete_unused_chunks, sweep_all}
use prosiak.State.Files.{
  all_chunks, apply_retention, by_newest, create_file, delete_rows, insert_chunks, manifests,
  max_version, new_row, outdated, unused_hashes,
}
use prosiak.Chunker.{split}
use prosiak.Network.{fetch_from_any}
use prosiak.Handlers.Backup.Entered.{entries}
use prosiak.Handlers.Download.{answered, complete}
use prosiak.Handlers.Download.Whole.{Served}
use prosiak.Base.{All, subst, sym}
use prosiak.System.RoundTrip.{Restores, upload-download, upload-download_whole}
use prosiak.System.Invariant.{server_run-Consistent}
use prosiak.Witness.{node_a, echoing, own_hash, server, no_copies, stream, stream_chunk}

abbrev pub parsed : Text → Option Url
parsed raw = some (record {
  scheme = text "http";
  host = text "a:1";
  has_user = false;
  path = [];
  raw_query = [];
  fragment = [];
})

abbrev body : Body
body = record {
  registration = some node_a;
  plan = none;
  confirmation = none;
  creation = none;
  replication = none;
  parts = no_copies.body;
}

abbrev incoming : Text → Text → Text → Incoming
incoming method path authorization = record {
  head = record { method = method; path = path; authorization = authorization };
  query = (text "replication", text "1") ∷ [];
  body = body;
}

abbrev pub moment : Moment
moment = record { clock = λ k. 100_000_000_000; id = text "1"; fetch_error = text "no" }

-- A node registers, a backup is uploaded, the scheduler runs, and the backup is deleted.
abbrev day : List Event
day =
    request moment (incoming (text "POST") (text "/nodes/register") (text "Bearer s"))
    ∷ request moment (incoming (text "POST") (text "/backups") (text "Bearer s"))
    ∷ pass 100_000_000_000
    ∷ request moment (incoming (text "DELETE") (text "/files/1") (text "Bearer s"))
    ∷ []

server_run-Consistent_example :
    Consistent
      (run echoing own_hash parsed (text "s") (pos 0) day (record { db = empty; world = 0 })).db
server_run-Consistent_example =
    server_run-Consistent echoing own_hash parsed (text "s") (pos 0) day 0

refused : valid_bearer (text "Basic t") (text "s") ≡ false
unfolding valid_bearer cut_prefix
refused = refl

stranger : ¬ Carries (text "s") (text "Basic t")
stranger c = cc (refused, (valid_bearer-Carries (text "Basic t") (text "s")).1 c)

serve-stranger_example :
    let r = incoming (text "DELETE") (text "/nodes/a") (text "Basic t") in
    let done = serve echoing own_hash parsed (text "s") (pos 0) moment r server in
    (done.0 ≡ server) × TellsNothing (text "/nodes/a") done.1
serve-stranger_example =
    serve-stranger echoing own_hash parsed (text "s") (pos 0) moment
      (incoming (text "DELETE") (text "/nodes/a") (text "Basic t")) server stranger

abbrev pub one_copy : BackupRequest
one_copy = record no_copies { replication = pos 1 }

abbrev pub registration : List Call
registration = registers 100_000_000_000 node_a ∷ []

abbrev pub ready : Server ℕ
ready = record { db = State.run empty registration; world = 0 }

abbrev accepting : Server ℕ × Response FileManifest
accepting = backup_file echoing own_hash (λ k. 100_000_000_000) (text "2") (pos 9) one_copy ready

abbrev pub saved : FileManifest
saved = record {
  row = record {
    id = text "2";
    name = text "f";
    backup_name = text "b";
    version = 1;
    retention = 1;
    size = pos 7;
    chunk_size = pos 4;
    replication = 1;
    dedup_new_bytes = pos 7;
    dedup_reused_bytes = pos 0;
    created_at = 100;
  };
  chunk_count = 1;
  chunks = stream_chunk ∷ [];
  retention_deleted = [];
}

-- The server after the upload: a copy is on the node, whose free space has shrunk by it.
abbrev pub uploaded : Server ℕ
uploaded = record {
  db = record {
    nodes =
        record {
          id = text "a";
          address = text "http://a:1";
          capacity = pos 1000;
          free = pos 893;
          last_seen = 100;
          status = online;
        }
        ∷ [];
    files = saved.row ∷ [];
    file_chunks = record { file_id = text "2"; chunk = stream_chunk } ∷ [];
    chunk_locations =
        record { hash = stream; node_id = text "a"; size = pos 7; verified_at = 100 } ∷ [];
  };
  world = 1;
}

pub the_part :
    open_upload_part (one_copy.body (some 9))
    ≡ some (text "f", record { bytes = stream; faulty = false })
unfolding open_upload_part eqb
the_part = refl

accepted : accepting ≡ (uploaded, created saved)
unfolding backup_file open_upload_part eqb upload_loop upload_chunk count_bytes place_chunk
    send_copies append_chunk finish_upload save_manifest read_content_defined_chunk ◌-ℤ◌
    online_count count_where chunk_locations order_by flat_map select any chunk_in_use State.run
    register_node plan_chunk_spread normalized_replication is_candidate is_alive put_chunk
    confirm_chunk ◌+ℤ◌ leb_text trim_space delete_where insert_by update_where gear_rows gear_table
    greatest_size least_size limits mix next_power_of_two read_loop roll smear delete_unused_chunks
    sweep_all State.step all_chunks apply_retention by_newest create_file delete_rows insert_chunks
    manifests max_version new_row outdated unused_hashes locations_snapshot by_free preferred
    normalized_retention with_derived_status
accepted = refl

upload-download_example :
    (saved.row.id ≡ text "2")
    × (saved.row.size ≡ pos 7)
    × (Restores
          (text "no")
          stream
          (download_file echoing own_hash
            (text "no")
            100_000_000_000
            (text "2")
            (record { db = uploaded.db; world = 5 })).1
        ⊎ Collision echoing own_hash)
upload-download_example =
    upload-download echoing own_hash (λ k. 100_000_000_000) (text "2") (pos 9) one_copy (text "f")
      stream ready uploaded saved (State.run-empty-Consistent registration) the_part accepted
      echoing (text "no") 5 100_000_000_000

pub one_chunk : entries own_hash 0 (split 8 (limits (pos 4)) false stream) ≡ saved.chunks
unfolding entries split limits next_power_of_two least_size greatest_size read_loop roll gear_table
    gear_rows mix smear
one_chunk = refl

pub sent : Served echoing own_hash 100_000_000_000 uploaded.db stream_chunk
unfolding fetch_from_any locations_snapshot chunk_locations order_by select eqb insert_by
    with_derived_status is_alive flat_map
sent w = refl

upload-download_whole_example :
    ((download_file echoing own_hash
        (text "no")
        100_000_000_000
        (text "2")
        (record { db = uploaded.db; world = 5 })).1
      ≡ answered (pos 7) stream complete)
    ⊎ Collision echoing own_hash
upload-download_whole_example =
    upload-download_whole echoing own_hash (λ k. 100_000_000_000) (text "2") (pos 9) one_copy
      (text "f") stream ready uploaded saved (State.run-empty-Consistent registration) the_part
      accepted echoing (text "no") 5 100_000_000_000
      (subst (All (Served echoing own_hash 100_000_000_000 uploaded.db)) (sym one_chunk) (sent, tt))
