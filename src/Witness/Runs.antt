-- ===== src/Witness/Runs.antt =====
-- The theorems about uploads, passes and runs that have conditions, each at an input that meets them.
use prosiak.Base.{
  ℕ, ◌≤◌, pos, Text, text, List, [], ◌∷◌, true, false, none, ◌≡◌, ◌⊎◌, refl, arith, eqb, All, any,
}
use prosiak.Base.{count_where, update_where}
use prosiak.State.Consistent.Run
use prosiak.State.Nodes.{register_node}
use prosiak.State.Locations.{confirm_chunk}
use prosiak.Replicator.{prune_extra_copies}
use prosiak.Replicator.Pruned.{copies}
use prosiak.Replicator.Spared.{prune_extra_copies-desired}
use prosiak.State.Tasks.{desired_copies, users, max_replication}
use prosiak.State.Files.{create_file, new_row, insert_chunks, max_version}
use prosiak.State.{normalized_replication, normalized_retention}
use prosiak.Base.{select, delete_where, flat_map}
use prosiak.Witness.{one_chunk}
use prosiak.Protocol.{NodeRegisterRequest}
use prosiak.Witness.{node_a}
use prosiak.Protocol.{NodeInfo, online}
use prosiak.Chunker.{split, limits}
use prosiak.Network.{Fetched, put_chunk, fetch_from_any}
use prosiak.State.{has_id}
use prosiak.State.Locations.Confirmed.{Held}
use prosiak.State.Tasks.{ReplicationTask}
use prosiak.Store.{Store, scan_used, new, ok, open_chunk}
use prosiak.Store.Usage.{run}
use prosiak.Store.Contents.{Contents, no_contents, looked_up}
use prosiak.Store.Refines.{Trace, run_answers, run-new-Trace}
use prosiak.Handlers.{Server, failed}
use prosiak.Handlers.Backup.{Upload, backup_file, save_manifest, manifest_request}
use prosiak.Handlers.Backup.Unsaved.{SameBackups}
use prosiak.Handlers.Backup.Entered.{entries, backup_file-entries}
use prosiak.Replicator.{replicate}
use prosiak.Replicator.Copies.{replicate-Held}
use prosiak.Witness.Stores.{marking, store_calls}
use prosiak.Witness.{
  willing, server, sample_hash, stream, no_copies, file_part, echoing, own_hash, live_node, stored,
}

abbrev opened : Store
opened = record { aead = none; files = []; used = pos 0 }

opened_plain : new (λ key. marking) [] [] ≡ ok opened
unfolding new scan_used
opened_plain = refl

run-new-Trace_example :
    (m : Contents) × Trace sample_hash no_contents store_calls
      (run_answers sample_hash opened store_calls)
      m
    × ((hash : Text) → open_chunk hash (run sample_hash opened store_calls) ≡ looked_up m hash)
run-new-Trace_example =
    run-new-Trace sample_hash (λ key. marking) [] opened store_calls opened_plain
      (λ aead e. ground (arith, e), (tt, (tt, tt)))

backup_file-entries_example :
    (u : Upload ℕ) × SameBackups server.db u.db
    × (((status : ℕ) × (500 ≤ status)
          × (backup_file willing sample_hash (λ k. 100) (text "1") (pos 9) no_copies server
              ≡ (record { db = u.db; world = u.world }, failed status)))
        ⊎ ((u.chunks ≡ entries sample_hash 0 (split 8 (limits (pos 4)) false stream))
            × (u.total ≡ 7)
            × (backup_file willing sample_hash (λ k. 100) (text "1") (pos 9) no_copies server
                ≡ save_manifest willing 100
                    (text "1")
                    (manifest_request willing sample_hash no_copies (text "f") u)
                    (record { db = u.db; world = u.world }))))
backup_file-entries_example =
    backup_file-entries sample_hash willing (λ k. 100) (text "1") (pos 9) no_copies (text "f")
      stream false server refl refl refl file_part

abbrev empty_node : NodeInfo
empty_node = record {
  id = text "b";
  address = text "http://b:1";
  capacity = pos 1000;
  free = pos 1000;
  last_seen = 100;
  status = online;
}

abbrev one_missing : ReplicationTask
one_missing = record {
  hash = stream;
  size = pos 7;
  desired = 2;
  active = 1;
  missing = 1;
  sources = live_node ∷ [];
  candidates = empty_node ∷ [];
}

abbrev two_nodes : Server ℕ
two_nodes = record { db = record stored { nodes = live_node ∷ empty_node ∷ [] }; world = 0 }

accepts :
    (address hash : Text) (content : List ℕ) (w : ℕ)
    → (put_chunk echoing address hash content w).1 ≡ true
unfolding put_chunk
accepts address hash content w = refl

fetched : fetch_from_any echoing (live_node ∷ []) stream 0 ≡ (1, Fetched.bytes stream)
unfolding fetch_from_any
fetched = refl

known : All (λ n. any (has_id n.id) two_nodes.db.nodes ≡ true) (empty_node ∷ [])
unfolding any eqb
known = (refl, tt)

replicate-Held_example :
    All
      (λ n. Held stream n.id (replicate echoing own_hash 100 one_missing two_nodes).db)
      (empty_node ∷ [])
replicate-Held_example =
    replicate-Held echoing own_hash 100 one_missing accepts stream 1 two_nodes refl fetched refl
      known

abbrev node_b : NodeRegisterRequest
node_b = record node_a { id = text "b"; address = text "http://b:1" }

-- A backup wants one copy of its chunk, and there are two.
abbrev two_copies : List Run.Call
two_copies =
    Run.registers 0 node_a
    ∷ Run.registers 0 node_b
    ∷ Run.confirms 1 (text "ab12") (pos 4) (text "a")
    ∷ Run.confirms 1 (text "ab12") (pos 4) (text "b")
    ∷ Run.creates 2 (text "1") one_chunk
    ∷ []

abbrev full : Server ℕ
full = record { db = Run.run Run.empty two_copies; world = 0 }

two_there : desired_copies full.db (text "ab12") ≤ copies (text "ab12") full.db
unfolding Run.run Run.step confirm_chunk register_node any count_where eqb update_where create_file
    new_row insert_chunks max_version normalized_replication normalized_retention select
    delete_where desired_copies users max_replication flat_map
two_there = omega arith

prune_extra_copies-desired_example :
    desired_copies full.db (text "ab12")
    ≤ copies (text "ab12") (prune_extra_copies willing sample_hash 100 full).db
prune_extra_copies-desired_example =
    prune_extra_copies-desired willing sample_hash 100 (text "ab12") full
      (Run.run-empty-Consistent two_copies) two_there
