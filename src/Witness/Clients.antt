-- ===== src/Witness/Clients.antt =====
-- The theorem about the client and the server together, at an input that meets its conditions.
use prosiak.Base.{
  eqb, ◌⊎◌, ℕ, Text, text, List, [], ◌∷◌, pos, Option, none, some, ◌≡◌, refl, cut_prefix, false,
}
use prosiak.Auth.{valid_bearer}
use prosiak.State.Consistent.Run.{empty}
use prosiak.Handlers.Serve.{Moment, serve}
use prosiak.Handlers.{Server}
use prosiak.Protocol.{FileManifest}
use prosiak.Handlers.Backup.{backup_file}
use prosiak.State.Consistent.Run as State
use prosiak.State.Consistent.Run.{Call, registers}
use prosiak.Handlers.Backup.{
  open_upload_part, upload_loop, upload_chunk, count_bytes, place_chunk, send_copies, append_chunk,
  finish_upload, save_manifest,
}
use prosiak.Chunker.{read_content_defined_chunk}
use prosiak.Handlers.Download.Exact.{Collision}
use prosiak.Base.{
  ◌-ℤ◌, count_where, order_by, flat_map, select, any, ◌+ℤ◌, leb_text, trim_space, delete_where,
  insert_by, update_where,
}
use prosiak.State.Locations.{
  online_count, chunk_locations, chunk_in_use, confirm_chunk, locations_snapshot,
}
use prosiak.State.Nodes.{register_node, plan_chunk_spread, is_candidate, by_free, preferred}
use prosiak.State.{normalized_replication, is_alive, normalized_retention, with_derived_status}
use prosiak.Network.{put_chunk}
use prosiak.Chunker.{
  gear_rows, gear_table, greatest_size, least_size, limits, mix, next_power_of_two, read_loop, roll,
  smear,
}
use prosiak.Handlers.Delete.{delete_unused_chunks, sweep_all}
use prosiak.State.Files.{
  all_chunks, apply_retention, by_newest, create_file, delete_rows, insert_chunks, manifests,
  max_version, new_row, outdated, unused_hashes,
}
use prosiak.Handlers.Download.Whole.{Served}
use prosiak.Base.{All, subst, sym}
use prosiak.Witness.{echoing, own_hash, stream}
use prosiak.Auth.{resolve, middleware, public_path, round_trip}
use prosiak.Startup.Tls.{defaults, http_client}
use prosiak.Handlers.Backup.{Parts, part, no_part}
use prosiak.Handlers.Serve.{dispatch, handle}
use prosiak.Handlers.Mux.{route, route_in, choose, find, fits, fits_path, fits_method, clean_path}
use prosiak.Handlers.Query.{Query, get, query_int, parse_int, decimal, backup_request}
use prosiak.Client.Paths.{clean, components, join}
use prosiak.Client.Paths.{resolve as resolve_path}
use prosiak.Client.Paths.Components.{IsPlain}
use prosiak.Client.Jobs.{BackupFlags, check_flags}
use prosiak.Client.Upload.{digits, format_int, set, upload_query}
use prosiak.Client.Commands.{TlsFlags, configure_http_client, restore, restored}
use prosiak.Client.Backups.{backup, upload_to_server}
use prosiak.System.Clients.{receive, fetch}
use prosiak.System.Clients.Restored.{backup-restore}
use prosiak.Base.{Bool, not, true}
use prosiak.Witness.Client.{no_pools}
use prosiak.Witness.Systems.{
  the_part, parsed, saved, ready, registration, uploaded, one_chunk, sent,
}

abbrev pub flags : TlsFlags
flags = record { ca_cert_file = []; insecure_skip_verify = false; auth_token = text "s" }

abbrev backup_flags : BackupFlags
backup_flags = record {
  server = text "http://localhost:8080";
  file = text "f";
  name = text "b";
  retention = pos 1;
  chunk_size = pos 4;
  replication = pos 1;
}

-- A body that is read as its one part, as long as its content is within the ceiling.
abbrev one_part : Text → List ℕ → Bool → Option ℕ → Option Parts
one_part name content whole ceiling =
    some (part (text "file") name (record { bytes = content; faulty = not whole }) no_part)

abbrev file_on_disk : Text → Option (List ℕ × Bool)
file_on_disk path = some (stream, true)

abbrev now : Moment
now = record { clock = λ k. 100_000_000_000; id = text "2"; fetch_error = text "no" }

abbrev no_query : Text → Query
no_query url = []

abbrev pub no_file : Text → Option (List ℕ)
no_file path = none

abbrev done : Server ℕ × Option FileManifest
done =
    backup (receive echoing own_hash parsed (resolve (text "s") []) (pos 9) one_part now) no_pools
      no_file [] no_query file_on_disk flags backup_flags ready

pub own_token :
    configure_http_client no_pools no_file [] flags ≡ some (defaults, resolve (text "s") [])
unfolding configure_http_client resolve http_client eqb trim_space
own_token = refl

finished : done ≡ (uploaded, some saved)
unfolding backup_file open_upload_part eqb upload_loop upload_chunk count_bytes place_chunk
    send_copies append_chunk finish_upload save_manifest read_content_defined_chunk ◌-ℤ◌
    online_count count_where chunk_locations order_by flat_map select any chunk_in_use State.run
    register_node plan_chunk_spread normalized_replication is_candidate is_alive put_chunk
    confirm_chunk ◌+ℤ◌ leb_text trim_space delete_where insert_by update_where gear_rows gear_table
    greatest_size least_size limits mix next_power_of_two read_loop roll smear delete_unused_chunks
    sweep_all State.step all_chunks apply_retention by_newest create_file delete_rows insert_chunks
    manifests max_version new_row outdated unused_hashes locations_snapshot by_free preferred
    normalized_retention with_derived_status backup upload_to_server receive serve dispatch handle
    route route_in choose find fits fits_path fits_method clean_path clean components resolve_path
    join middleware public_path valid_bearer round_trip cut_prefix configure_http_client http_client
    check_flags upload_query set format_int digits backup_request query_int parse_int decimal get
    resolve
finished = refl

out_given : eqb (text "out") [] ≡ false
unfolding eqb
out_given = refl

id-IsPlain : IsPlain (text "2")
unfolding eqb any
id-IsPlain = record { filled = refl; not_dot = refl; not_up = refl; no_slash = refl }

backup-restore_example :
    let reply =
      (fetch echoing own_hash parsed
        (resolve (text "s") [])
        (pos 9)
        now
        (7 ∷ [])
        (resolve (text "s") [])
        (text "2")
        (record { db = uploaded.db; world = 5 })).1 in
    (restore no_pools no_file [] flags (text "2") (text "out") true reply none
      ≡ (some stream, restored 7))
    ⊎ Collision echoing own_hash
unfolding backup_request upload_query eqb select
backup-restore_example =
    backup-restore echoing own_hash parsed (text "s") [] (pos 9) one_part no_pools no_file []
      no_query file_on_disk flags backup_flags now ready uploaded saved stream (text "f") defaults
      own_token refl the_part (State.run-empty-Consistent registration) finished id-IsPlain now 5
      (7 ∷ []) (text "out") out_given
      (subst (All (Served echoing own_hash 100_000_000_000 uploaded.db)) (sym one_chunk) (sent, tt))
      none
