-- ===== src/Handlers/Delete/Removes.antt =====
-- How the deletion of unused chunks changes the database (internal/server/handlers.go): by removals of
-- locations alone. A relation that these are in, one after another, has the whole deletion.
use prosiak.Base.{ℕ, Text, List, [], ◌∷◌, Bool-cases, inl, inr}
use prosiak.Protocol.{NodeInfo}
use prosiak.Network.{Network, delete_chunk}
use prosiak.State.{State}
use prosiak.State.Locations.{remove_chunk_location}
use prosiak.Handlers.{Server}
use prosiak.Handlers.Delete.{Swept, sweep_copy, sweep_copies, sweep_all, delete_unused_chunks}

module _ (net : Network) (Changes : State → State → Type 0) (same : (s : State) → Changes s s)
    (same_after : (s s' s'' : State) → Changes s s' → Changes s' s'' → Changes s s'')
    (removes : (hash id : Text) (s : State) → Changes s (remove_chunk_location hash id s)) where
  open net use {World}

  sweep_copy-Changed :
      (hash : Text) (n : NodeInfo) (srv : Server World) (t : Swept)
      → Changes srv.db (sweep_copy net hash n (srv, t)).0.db
  unfolding sweep_copy
  sweep_copy-Changed hash n srv t =
      elim (Bool-cases (delete_chunk net n.address hash srv.world).1) [
        | inl done ↦ rw done (removes hash n.id srv.db)
        | inr kept ↦ rw kept (same srv.db)
      ]

  sweep_copies-Changed :
      (hash : Text) (ns : List NodeInfo) (s : Server World × Swept)
      → Changes s.0.db (sweep_copies net hash ns s).0.db
  unfolding sweep_copies
  sweep_copies-Changed hash [] s = same s.0.db
  sweep_copies-Changed hash (n ∷ ns) (srv, t) =
      same_after srv.db _ _ (sweep_copy-Changed hash n srv t)
        (sweep_copies-Changed hash ns (sweep_copy net hash n (srv, t)))

  sweep_all-Changed :
      (hs : List (Text × List NodeInfo)) (s : Server World × Swept)
      → Changes s.0.db (sweep_all net hs s).0.db
  unfolding sweep_all
  sweep_all-Changed [] s = same s.0.db
  sweep_all-Changed ((hash, ns) ∷ hs) s =
      same_after s.0.db _ _ (sweep_copies-Changed hash ns s)
        (sweep_all-Changed hs (sweep_copies net hash ns s))

  pub delete_unused_chunks-Changed :
      (now : ℕ) (hashes : List Text) (srv : Server World)
      → Changes srv.db (delete_unused_chunks net now hashes srv).0.db
  unfolding delete_unused_chunks
  delete_unused_chunks-Changed now hashes srv = sweep_all-Changed _ _
