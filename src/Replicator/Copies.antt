-- ===== src/Replicator/Copies.antt =====
-- The copies that a pass over missing copies makes (internal/server/replicator.go: replicate).
use prosiak.Base.{
  ℕ, zero, suc, ◌+◌, ◌-◌, Text, List, [], ◌∷◌, Bool, Bool-cases, true, false, ◌≡◌, inl, inr, refl,
  sym, subst, arith, leb, ◌==◌, if◌then◌else◌, eqb_iff, take, All, All-mono,
}
use prosiak.Protocol.{NodeInfo}
use prosiak.Network.{Network, Fetched, put_chunk, fetch_from_any}
use prosiak.State.Locations.{confirm_chunk}
use prosiak.State.Locations.Confirmed.{
  Known, Held, confirm_chunk-none, confirm_chunk-Held, confirm_chunk-keeps_Held,
  confirm_chunk-keeps_Known,
}
use prosiak.State.Tasks.{ReplicationTask}
use prosiak.Handlers.{Server}
use prosiak.Replicator.{copy_to, no_node, replicate}

module _ (net : Network) (hash_data : List ℕ → Text) (now : ℕ) (t : ReplicationTask) where
  open net use {World}

  -- A copy stays in the tables while more are made.
  copy_to-keeps_Held :
      (content : List ℕ) (ns : List NodeInfo) (copied : ℕ) (srv : Server World) (h id : Text)
      → Held h id srv.db
      → Held h id (copy_to net hash_data now t content copied ns srv).db
  unfolding copy_to
  copy_to-keeps_Held content [] copied srv h id held = held
  copy_to-keeps_Held content (n ∷ ns) copied srv h id held = stops (leb t.missing copied) _ (
      copy_to-keeps_Held content ns _ _ h id
        (sent (put_chunk net n.address t.hash content srv.world).1))
    where
      sent :
          (b : Bool)
          → Held h id (if b then (confirm_chunk now t.hash t.size n.id srv.db).0 else srv.db)
      sent true = confirm_chunk-keeps_Held now t.hash t.size n.id srv.db h id held
      sent false = held

      stops :
          (b : Bool) (rest : Server World)
          → Held h id rest.db
          → Held h id (if b then srv else rest).db
      stops true rest later = held
      stops false rest later = later

  module _
      (willing : (address hash : Text) (content : List ℕ) (w : World)
        → (put_chunk net address hash content w).1 ≡ true) where
    -- The server after a copy to a node.
    abbrev copied_to : List ℕ → NodeInfo → Server World → Server World
    copied_to content n srv = record {
      db = (confirm_chunk now t.hash t.size n.id srv.db).0;
      world = (put_chunk net n.address t.hash content srv.world).0;
    }

    copy_to-next :
        (content : List ℕ) (copied : ℕ) (n : NodeInfo) (ns : List NodeInfo) (srv : Server World)
        → leb t.missing copied ≡ false
        → Known n.id srv.db
        → copy_to net hash_data now t content copied (n ∷ ns) srv
          ≡ copy_to net hash_data now t content (copied + 1) ns (copied_to content n srv)
    unfolding copy_to
    copy_to-next content copied n ns srv more known =
        rw
          (
            copy_to,
            more,
            willing n.address t.hash content srv.world,
            confirm_chunk-none now t.hash t.size n.id srv.db known,
          )
          refl

    All-Known :
        (content : List ℕ) (n : NodeInfo) (ns : List NodeInfo) (srv : Server World)
        → All (λ m. Known m.id srv.db) ns
        → All (λ m. Known m.id (copied_to content n srv).db) ns
    All-Known content n ns srv h =
        All-mono _ _ ns (λ m k. confirm_chunk-keeps_Known now t.hash t.size n.id srv.db m.id k) h

    copy_to-Held :
        (k : ℕ) (content : List ℕ) (copied : ℕ) (ns : List NodeInfo) (srv : Server World)
        → t.missing - copied ≡ k
        → All (λ n. Known n.id srv.db) ns
        → All
            (λ n. Held t.hash n.id (copy_to net hash_data now t content copied ns srv).db)
            (take k ns)
    copy_to-Held zero content copied ns srv e known = tt
    copy_to-Held (suc k) content copied [] srv e known = tt
    copy_to-Held (suc k) content copied (n ∷ ns) srv e known =
        subst (λ (r : Server World). All (λ (m : NodeInfo). Held t.hash m.id r.db) (n ∷ take k ns))
          (sym (copy_to-next content copied n ns srv (ground arith) known.0))
          (
            copy_to-keeps_Held content ns (copied + 1) (copied_to content n srv) t.hash n.id
                (confirm_chunk-Held now t.hash t.size n.id srv.db known.0),
            copy_to-Held k content (copied + 1) ns (copied_to content n srv) (omega arith)
                (All-Known content n ns srv known.1),
          )

    nowhere-All :
        (P : NodeInfo → Type 0) (k : ℕ) (ns : List NodeInfo)
        → no_node net hash_data ns ≡ true
        → All P (take k ns)
    nowhere-All P zero ns e = tt
    nowhere-All P (suc k) [] e = tt
    nowhere-All P (suc k) (n ∷ ns) e = absurd (ground (arith, e))

    -- A task of the scheduler makes the missing copies: where some source sends the chunk with its
    -- hash, the nodes accept what they are sent and the candidates are in the table of nodes, then
    -- after the task each of the first candidates, as many as copies are missing or all of them,
    -- has a location for the chunk.
    pub replicate-Held :
        (content : List ℕ) (w : World) (srv : Server World)
        → no_node net hash_data t.sources ≡ false
        → fetch_from_any net t.sources t.hash srv.world ≡ (w, Fetched.bytes content)
        → hash_data content ≡ t.hash
        → All (λ n. Known n.id srv.db) t.candidates
        → All
            (λ n. Held t.hash n.id (replicate net hash_data now t srv).db)
            (take t.missing t.candidates)
    unfolding replicate
    replicate-Held content w srv sources fetched hash known = elim (Bool-cases (t.missing == 0)) [
      | inl enough ↦
          let zero_missing : 0 ≡ t.missing = ground (arith, enough) in
          subst
            (λ k.
              All (λ n. Held t.hash n.id (replicate net hash_data now t srv).db)
                (take k t.candidates))
            zero_missing tt
      | inr missing ↦ elim (Bool-cases (no_node net hash_data t.candidates)) [
        | inl nowhere ↦ nowhere-All _ t.missing t.candidates nowhere
        | inr somewhere ↦
            subst
              (λ (r : Server World).
                All (λ (n : NodeInfo). Held t.hash n.id r.db) (take t.missing t.candidates))
              (sym (goes_on missing somewhere))
              (copy_to-Held t.missing content 0 t.candidates (record { db = srv.db; world = w })
                (omega arith) known)
      ]
    ]
      where
        goes_on :
            (t.missing == 0) ≡ false
            → no_node net hash_data t.candidates ≡ false
            → replicate net hash_data now t srv
              ≡ copy_to net hash_data now t content 0 t.candidates
                  (record { db = srv.db; world = w })
        goes_on missing somewhere =
            rw
              (
                replicate,
                missing,
                sources,
                somewhere,
                fetched,
                (eqb_iff (hash_data content) t.hash).1 hash,
              )
              refl
