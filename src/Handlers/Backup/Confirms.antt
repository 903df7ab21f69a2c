-- ===== src/Handlers/Backup/Confirms.antt =====
-- How an upload changes the database before its manifest is saved (internal/server/handlers.go):
-- by confirmations of chunks alone. A relation that these are in, one after another, has the loop.
use prosiak.Base.{
  ℕ, zero, suc, ◌+◌, ℤ, pos, ltb_ℤ, ◌-ℤ◌, Text, List, [], ◌∷◌, Bool, true, false, not, Option, none,
  some, ◌≡◌, subst, arith, if◌then◌else◌, length,
}
use prosiak.Protocol.{NodeInfo}
use prosiak.Chunker.{Read, chunk, eof, fault, read_content_defined_chunk}
use prosiak.Network.{Network, put_chunk}
use prosiak.State.{State}
use prosiak.State.Nodes.{plan_chunk_spread}
use prosiak.State.Locations.{chunk_locations, confirm_chunk, online_count}
use prosiak.Handlers.Backup.{
  Upload, send_copies, upload_loop, upload_chunk, place_chunk, count_bytes, append_chunk, appended,
  after_read, unless_stopped,
}

module _ (net : Network) (hash_data : List ℕ → Text) (Changes : State → State → Type 0)
    (same : (s : State) → Changes s s)
    (same_after : (s s' s'' : State) → Changes s s' → Changes s' s'' → Changes s s'')
    (confirms : (now : ℕ) (hash : Text) (size : ℤ) (node_id : Text) (s : State)
      → Changes s (confirm_chunk now hash size node_id s).0) where
  open net use {World}

  abbrev Changed : Upload World → Upload World × Option ℕ → Type 0
  Changed u r = Changes u.db r.0.db

  count_bytes-db :
      (hash : Text) (n : ℕ) (u : Upload World) → u.db ≡ (count_bytes net hash_data hash n u).db
  unfolding count_bytes
  count_bytes-db hash n u = ground arith

  send_copies-Changed :
      (now : ℕ) (hash : Text) (content : List ℕ) (nodes : List NodeInfo) (u : Upload World)
      → Changed u (send_copies net hash_data now hash content nodes u)
  unfolding send_copies
  send_copies-Changed now hash content [] u = same u.db
  send_copies-Changed now hash content (n ∷ ns) u =
      after_send (put_chunk net n.address hash content u.world).1
        (confirm_chunk now hash (pos (length content)) n.id u.db).1 _
        (same_after u.db _ _ (confirms now hash (pos (length content)) n.id u.db)
          (send_copies-Changed now hash content ns _))
    where
      failed : Upload World
      failed = record u { world = (put_chunk net n.address hash content u.world).0 }

      after_send :
          (sent : Bool) (refused : Option prosiak.State.Locations.Failure)
          (rest : Upload World × Option ℕ)
          → Changed u rest
          → Changed u (
              if not sent
              then (failed, some 502)
              else elim refused [ none ↦ rest | some _ ↦ (failed, some 502) ])
      after_send false refused rest h = same u.db
      after_send true none rest h = h
      after_send true (some e) rest h = same u.db

  place_chunk-Changed :
      (now : ℕ) (replication : ℤ) (hash : Text) (content : List ℕ) (u : Upload World)
      → Changed u (place_chunk net hash_data now replication hash content u)
  unfolding place_chunk
  place_chunk-Changed now replication hash content u =
      by_count (ltb_ℤ (pos 0) missing) (ltb_ℤ (pos (length nodes)) missing) _
        (send_copies-Changed now hash content nodes u)
    where
      missing : ℤ
      missing = replication -ℤ pos (online_count (chunk_locations now hash u.db))

      nodes : List NodeInfo
      nodes = plan_chunk_spread now hash (pos (length content)) missing u.counts u.db

      by_count :
          (wanted short : Bool) (sent : Upload World × Option ℕ)
          → Changed u sent
          → Changed u (if wanted then if short then (u, some 503) else sent else (u, none))
      by_count false short sent h = same u.db
      by_count true false sent h = h
      by_count true true sent h = same u.db

  upload_chunk-Changed :
      (now : ℕ) (replication : ℤ) (index : ℕ) (content : List ℕ) (u : Upload World)
      → Changed u (upload_chunk net hash_data now replication index content u)
  unfolding upload_chunk append_chunk
  upload_chunk-Changed now replication index content u = entered placed (
      same_after u.db counted.db _ kept
        (place_chunk-Changed now replication (hash_data content) content counted))
    where
      counted : Upload World
      counted = count_bytes net hash_data (hash_data content) (length content) u

      kept : Changes u.db counted.db
      kept =
          subst (Changes u.db) (count_bytes-db (hash_data content) (length content) u) (same u.db)

      placed : Upload World × Option ℕ
      placed = place_chunk net hash_data now replication (hash_data content) content counted

      entered :
          (r : Upload World × Option ℕ)
          → Changed u r
          → Changed u (appended net hash_data index (hash_data content) (length content) r)
      entered (v, none) h = h
      entered (v, some status) h = h

  unless_stopped-Changed :
      (continue : Upload World → Upload World × Option ℕ) (u : Upload World)
      (r : Upload World × Option ℕ)
      → Changed u r
      → ((v : Upload World) → Changed v (continue v))
      → Changed u (unless_stopped net hash_data continue r)
  unless_stopped-Changed continue u (v, none) h ih = same_after u.db v.db _ h (ih v)
  unless_stopped-Changed continue u (v, some status) h ih = h

  -- So does its loop.
  pub upload_loop-Changed :
      (fuel : ℕ) (clock : ℕ → ℕ) (size replication : ℤ) (index : ℕ) (faulty : Bool) (bytes : List ℕ)
      (u : Upload World)
      → Changes u.db
          (upload_loop net hash_data fuel clock size replication index faulty bytes u).0.db
  unfolding upload_loop
  upload_loop-Changed zero clock size replication index faulty bytes u = same u.db
  upload_loop-Changed (suc fuel) clock size replication index faulty bytes u =
      after (read_content_defined_chunk (record { bytes = bytes; faulty = faulty }) size)
        (λ rest v. upload_loop-Changed fuel clock size replication (index + 1) faulty rest v)
    where
      after :
          (r : Read)
          → ((rest : List ℕ) (v : Upload World)
              → Changes v.db
                  (upload_loop net hash_data fuel clock size replication
                    (index + 1)
                    faulty
                    rest
                    v).0.db)
          → Changed u (
              after_read net hash_data
                (λ content rest.
                  unless_stopped net hash_data
                    (upload_loop net hash_data fuel clock size replication (index + 1) faulty rest)
                    (upload_chunk net hash_data (clock index) replication index content u))
                r
                u)
      after (chunk content rest) ih =
          unless_stopped-Changed
            (upload_loop net hash_data fuel clock size replication (index + 1) faulty rest) u _
            (upload_chunk-Changed (clock index) replication index content u) (ih rest)
      after eof ih = same u.db
      after fault ih = same u.db
