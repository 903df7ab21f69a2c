-- ===== src/Witness/Misled.antt =====
-- A restore that is misled, at an input that meets its conditions: a backup of two chunks, of which the
-- node sends the first for both.
use prosiak.Base.{
  ℕ, pos, text, [], ◌∷◌, ◌++◌, none, some, ◌≡◌, refl, ◌⊎◌, eqb, select, order_by, insert_by,
  flat_map, true, false,
}
use prosiak.Protocol.{ChunkRef, FileRow}
use prosiak.State.{is_alive, with_derived_status}
use prosiak.State.Files.{file, file_chunks, manifest}
use prosiak.State.Locations.{chunk_locations, locations_snapshot}
use prosiak.Network.{fetch_from_any}
use prosiak.Handlers.{Server}
use prosiak.Handlers.Download.{hash_mismatch, download_file}
use prosiak.Handlers.Download.Exact.{concat, Collision}
use prosiak.Handlers.Download.Whole.{Served}
use prosiak.Handlers.Download.Filled.{Corrupt}
use prosiak.Handlers.Serve.{download}
use prosiak.Startup.Tls.{defaults}
use prosiak.Client.Commands.{restored, restore}
use prosiak.System.Clients.{download_reply}
use prosiak.System.Clients.Misled.{restore-misled}
use prosiak.Witness.{echoing, own_hash, stream, stream_chunk, stored, stored_row}
use prosiak.Witness.Client.{no_pools}
use prosiak.Witness.Clients.{flags, no_file, own_token}

abbrev second_chunk : ChunkRef
second_chunk = record { index = pos 1; hash = text "abcdefghijklmnopqrst"; size = pos 20 }

abbrev long_row : FileRow
long_row = record stored_row { size = pos 27 }

abbrev two_chunks : Server ℕ
two_chunks = record {
  db = record stored {
    files = long_row ∷ [];
    file_chunks =
        record { file_id = text "1"; chunk = stream_chunk }
        ∷ record { file_id = text "1"; chunk = second_chunk }
        ∷ [];
    chunk_locations =
        record { hash = stream; node_id = text "a"; size = pos 7; verified_at = 100 }
        ∷ record { hash = second_chunk.hash; node_id = text "a"; size = pos 20; verified_at = 100 }
        ∷ [];
  };
  world = 0;
}

long_file :
    file (text "1") two_chunks.db ≡ some (manifest long_row (stream_chunk ∷ second_chunk ∷ []))
unfolding file file_chunks select eqb order_by insert_by
long_file = refl

first_served : Served echoing own_hash 100_000_000_000 two_chunks.db stream_chunk
unfolding fetch_from_any locations_snapshot chunk_locations order_by select eqb insert_by
    with_derived_status is_alive flat_map
first_served w = refl

second_chunk-Corrupt : Corrupt echoing own_hash 100_000_000_000 two_chunks.db second_chunk
unfolding fetch_from_any locations_snapshot chunk_locations order_by select eqb insert_by
    with_derived_status is_alive flat_map
second_chunk-Corrupt w = refl

id_given : eqb (text "1") [] ≡ false
unfolding eqb
id_given = refl

path_given : eqb (text "out") [] ≡ false
unfolding eqb
path_given = refl

restore-misled_example :
    (restore no_pools no_file [] flags
        (text "1")
        (text "out")
        true
        (download_reply [] (
          download
            (download_file echoing own_hash (text "no") 100_000_000_000 (text "1") two_chunks).1))
        none
      ≡ (some (stream ++ hash_mismatch), restored 27))
    ⊎ Collision echoing own_hash
unfolding concat
restore-misled_example =
    restore-misled echoing own_hash (text "no") 100_000_000_000 (text "1") two_chunks
      (manifest long_row (stream_chunk ∷ second_chunk ∷ [])) stream_chunk second_chunk [] [] stream
      [] no_pools no_file [] flags defaults _ (text "out") [] none long_file refl refl refl
      (first_served, tt) second_chunk-Corrupt own_token id_given path_given
