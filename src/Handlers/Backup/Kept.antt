-- ===== src/Handlers/Backup/Kept.antt =====
-- What an upload counts and lists while it sends copies of a chunk (internal/server/handlers.go:
-- backupFile).
use prosiak.Base.{
  ℕ, ◌≤◌, ℤ, pos, ltb_ℤ, ◌-ℤ◌, Text, List, [], ◌∷◌, Bool, true, false, not, Option, none, some, ◌≡◌,
  refl, arith, if◌then◌else◌, length,
}
use prosiak.Protocol.{NodeInfo}
use prosiak.Network.{Network, put_chunk}
use prosiak.State.Nodes.{plan_chunk_spread}
use prosiak.State.Locations.{chunk_locations, confirm_chunk, online_count}
use prosiak.Handlers.Backup.{Upload, send_copies, place_chunk, count_bytes}

module _ (hash_data : List ℕ → Text) (net : Network) where
  open net use {World}

  -- Nothing is entered, or the upload ends with a server's error.
  abbrev pub Kept : Upload World → Upload World × Option ℕ → Type 0
  Kept u (v, none) = (v.chunks ≡ u.chunks) × (v.total ≡ u.total)
  Kept u (v, some status) = 500 ≤ status

  after_send-Kept {ℓ} :
      {E : Type ℓ} (sent : Bool) (refused : Option E) (u v : Upload World)
      (rest : Upload World × Option ℕ)
      → Kept u rest
      → Kept u (
          if not sent then (v, some 502) else elim refused [ none ↦ rest | some _ ↦ (v, some 502) ])
  after_send-Kept false refused u v rest h = omega arith
  after_send-Kept true none u v rest h = h
  after_send-Kept true (some e) u v rest h = omega arith

  send_copies-Kept :
      (now : ℕ) (hash : Text) (content : List ℕ) (nodes : List NodeInfo) (u : Upload World)
      → Kept u (send_copies net hash_data now hash content nodes u)
  unfolding send_copies
  send_copies-Kept now hash content [] u = (refl, refl)
  send_copies-Kept now hash content (n ∷ ns) u =
      after_send-Kept (put_chunk net n.address hash content u.world).1
        (confirm_chunk now hash (pos (length content)) n.id u.db).1 u _ _
        (send_copies-Kept now hash content ns _)

  pub place_chunk-Kept :
      (now : ℕ) (replication : ℤ) (hash : Text) (content : List ℕ) (u : Upload World)
      → Kept u (place_chunk net hash_data now replication hash content u)
  unfolding place_chunk
  place_chunk-Kept now replication hash content u =
      by_count (ltb_ℤ (pos 0) missing) (ltb_ℤ (pos (length nodes)) missing) _
        (send_copies-Kept now hash content nodes u)
    where
      missing : ℤ
      missing = replication -ℤ pos (online_count (chunk_locations now hash u.db))

      nodes : List NodeInfo
      nodes = plan_chunk_spread now hash (pos (length content)) missing u.counts u.db

      by_count :
          (wanted short : Bool) (sent : Upload World × Option ℕ)
          → Kept u sent
          → Kept u (if wanted then if short then (u, some 503) else sent else (u, none))
      by_count false short sent h = (refl, refl)
      by_count true false sent h = h
      by_count true true sent h = omega arith

  pub count_bytes-Kept :
      (hash : Text) (n : ℕ) (u : Upload World)
      → ((count_bytes net hash_data hash n u).chunks ≡ u.chunks)
        × ((count_bytes net hash_data hash n u).total ≡ u.total)
  unfolding count_bytes
  count_bytes-Kept hash n u = ground arith
