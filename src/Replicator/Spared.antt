-- ===== src/Replicator/Spared.antt =====
-- A whole pass over extra copies (internal/server/replicator.go: pruneExtraCopies, over PruneTasks of
-- internal/server/state.go).
use prosiak.Base.{
  ℕ, zero, suc, ◌+◌, ◌-◌, ◌≤◌, Text, List, [], ◌∷◌, Bool, Bool-cases, false, ◌&&◌, count_where,
  any-count_where, count_where-order_by, delete_where, ◌≡◌, refl, sym, subst, inl, inr, ap, ◌∙◌,
  arith, leb, ltb, ◌==◌, if◌then◌else◌, eqb, eqb_iff, any, select, order_by, take, map, length,
  length-map,
}
use prosiak.Protocol.{NodeInfo}
use prosiak.Network.{Network, delete_chunk}
use prosiak.State.{State, Location, is_alive, has_id}
use prosiak.State.Nodes.{holds}
use prosiak.State.Locations.{of_hash, remove_chunk_location}
use prosiak.State.Consistent.{Consistent}
use prosiak.State.Tasks.{
  PruneTask, distinct, used_hashes, desired_copies, active_copies, prune_task, prune_tasks,
  by_extra, task_limit,
}
use prosiak.Handlers.{Server}
use prosiak.Replicator.{drop_copy, prune_copies, prune_all, prune_extra_copies}
use prosiak.Replicator.Pruned.{copies, removed_rows, drop_copy-copies, prune_copies-desired}

module _ {ℓ} {A : Type ℓ} (p : A → Bool) where
  count_where-select : (q : A → Bool) (xs : List A) → count_where p (select q xs) ≤ count_where p xs
  unfolding count_where select
  count_where-select q [] = omega arith
  count_where-select q (x ∷ xs) = ground (arith, count_where-select q xs)

  count_where-take : (n : ℕ) (xs : List A) → count_where p (take n xs) ≤ count_where p xs
  unfolding count_where
  count_where-take zero xs = omega arith
  count_where-take (suc n) [] = omega arith
  count_where-take (suc n) (x ∷ xs) = omega (arith, count_where-take n xs)

  length-select :
      (q : A → Bool) (xs : List A) → length (select (λ x. p x && q x) xs) ≤ count_where p xs
  unfolding count_where select
  length-select q [] = omega arith
  length-select q (x ∷ xs) = ground (arith, length-select q xs)

-- GROUP BY names a hash once.
count_where-distinct : (hash : Text) (xs : List Text) → count_where (eqb hash) (distinct xs) ≤ 1
unfolding distinct count_where
count_where-distinct hash [] = omega arith
count_where-distinct hash (x ∷ xs) = elim (Bool-cases (any (eqb x) (distinct xs))) [
  | inl again ↦ rw (again, distinct) (count_where-distinct hash xs)
  | inr once ↦ elim (Bool-cases (eqb hash x)) [
    | inr other ↦ rw (once, other, distinct) (omega (arith, count_where-distinct hash xs))
    | inl same ↦
        let alone : any (eqb hash) (distinct xs) ≡ false =
          ap (λ k. any (eqb k) (distinct xs)) ((eqb_iff hash x).0 same) ∙ once in
        rw (once, same, distinct) (omega (arith, any-count_where (eqb hash) (distinct xs) alone))
  ]
]

used_hashes-once : (hash : Text) (s : State) → count_where (eqb hash) (used_hashes s) ≤ 1
unfolding used_hashes
used_hashes-once hash s = count_where-distinct hash _

length-distinct : (xs : List Text) → length (distinct xs) ≤ length xs
unfolding distinct
length-distinct [] = omega arith
length-distinct (x ∷ xs) = ground (arith, length-distinct xs)

-- The copies on live nodes are among the locations.
active_copies-copies :
    (now : ℕ) (s : State) (hash : Text) → active_copies now s hash ≤ copies hash s
unfolding active_copies
active_copies-copies now s hash = omega (
  arith,
  length-distinct (map (λ (l : Location). l.node_id) live),
  length-map (λ (l : Location). l.node_id) live,
  length-select (of_hash hash) on_live s.chunk_locations,
)
  where
    on_live : Location → Bool
    on_live l = any (λ n. has_id l.node_id n && is_alive now n) s.nodes

    live : List Location
    live = select (λ l. of_hash hash l && on_live l) s.chunk_locations

removal_spares :
    (hash h id : Text) (ls : List Location)
    → eqb hash h ≡ false
    → count_where (of_hash hash) (delete_where (holds h id) ls) ≡ count_where (of_hash hash) ls
unfolding count_where delete_where select
removal_spares hash h id [] other = refl
removal_spares hash h id (l ∷ ls) other =
    ground
      (arith, removal_spares hash h id ls, eqb_iff h l.hash, eqb_iff hash l.hash, eqb_iff hash h)

removed-spares :
    (hash h id : Text) (s : State)
    → eqb hash h ≡ false
    → copies hash (remove_chunk_location h id s) ≡ copies hash s
removed-spares hash h id s other =
    ap (count_where (of_hash hash)) (removed_rows h id s)
    ∙ removal_spares hash h id s.chunk_locations other

module _ (net : Network) (hash_data : List ℕ → Text) where
  open net use {World}

  drop_copy-spares :
      (hash h : Text) (n : NodeInfo) (srv : Server World)
      → eqb hash h ≡ false
      → copies hash (drop_copy net hash_data h n srv).0.db ≡ copies hash srv.db
  unfolding drop_copy
  drop_copy-spares hash h n srv other =
      elim (Bool-cases (delete_chunk net n.address h srv.world).1) [
        | inl gone ↦ rw (gone, drop_copy) (removed-spares hash h n.id srv.db other)
        | inr kept ↦ rw (kept, drop_copy) refl
      ]

  -- A task is about its own chunk, and keeps the tables consistent.
  prune_copies-keeps :
      (t : PruneTask) (ns : List NodeInfo) (removed : ℕ) (srv : Server World)
      → Consistent srv.db
      → Consistent (prune_copies net hash_data t removed ns srv).db
        × ((hash : Text)
            → eqb hash t.hash ≡ false
            → copies hash (prune_copies net hash_data t removed ns srv).db ≡ copies hash srv.db)
  unfolding prune_copies
  prune_copies-keeps t [] removed srv c = (c, λ hash other. refl)
  prune_copies-keeps t (n ∷ ns) removed srv c =
      let dropped = drop_copy net hash_data t.hash n srv in
      let rest =
        prune_copies-keeps t ns (if dropped.1 then removed + 1 else removed) dropped.0
          (drop_copy-copies net hash_data t.hash n srv c).0 in
      elim (Bool-cases (leb t.extra removed)) [
        | inl enough ↦ rw enough (c, λ hash other. refl)
        | inr more ↦ elim (Bool-cases (leb (t.active - removed) t.desired)) [
          | inl few ↦ rw (more, few) (c, λ hash other. refl)
          | inr many ↦
              rw (more, many)
                (rest.0, λ hash other. rest.1 hash other ∙ drop_copy-spares hash t.hash n srv other)
        ]
      ]

  module _ (now : ℕ) (s : State) where
    abbrev treated : Text → Server World → Server World
    treated h srv =
        let t = prune_task now s h in
        if t.extra == 0 then srv else prune_copies net hash_data t 0 t.locations srv

    treated-keeps :
        (h : Text) (srv : Server World)
        → Consistent srv.db
        → Consistent (treated h srv).db
          × ((hash : Text)
              → eqb hash h ≡ false
              → copies hash (treated h srv).db ≡ copies hash srv.db)
    unfolding prune_task
    treated-keeps h srv c = elim (Bool-cases ((prune_task now s h).extra == 0)) [
      | inl none_extra ↦ rw none_extra (c, λ hash other. refl)
      | inr extra ↦
          rw extra (prune_copies-keeps (prune_task now s h) (prune_task now s h).locations 0 srv c)
    ]

    treated-desired :
        (h : Text) (srv : Server World)
        → Consistent srv.db
        → copies h srv.db ≡ copies h s
        → desired_copies s h ≤ copies h s
        → desired_copies s h ≤ copies h (treated h srv).db
    unfolding prune_task
    treated-desired h srv c same enough = elim (Bool-cases ((prune_task now s h).extra == 0)) [
      | inl none_extra ↦ rw none_extra (omega (arith, same, enough))
      | inr extra ↦ rw extra (
          prune_copies-desired net hash_data (prune_task now s h) srv c
            (omega (arith, same, enough, active_copies-copies now s h)))
    ]

    unnamed :
        (hash : Text) (hs : List Text) (srv : Server World)
        → Consistent srv.db
        → count_where (eqb hash) hs ≡ 0
        → copies hash (prune_all net hash_data (map (prune_task now s) hs) srv).db
          ≡ copies hash srv.db
    unfolding prune_all count_where
    unnamed hash [] srv c h = refl
    unnamed hash (k ∷ hs) srv c h =
        let kept = treated-keeps k srv c in
        unnamed hash hs (treated k srv) kept.0 (omega (arith, h)) ∙ kept.1 hash (ground (arith, h))

    named :
        (hash : Text) (hs : List Text) (srv : Server World)
        → Consistent srv.db
        → count_where (eqb hash) hs ≤ 1
        → copies hash srv.db ≡ copies hash s
        → desired_copies s hash ≤ copies hash s
        → desired_copies s hash
          ≤ copies hash (prune_all net hash_data (map (prune_task now s) hs) srv).db
    unfolding prune_all count_where
    named hash [] srv c once same enough = omega (arith, same, enough)
    named hash (k ∷ hs) srv c once same enough =
        let kept = treated-keeps k srv c in
        elim (Bool-cases (eqb hash k)) [
          | inr other ↦
              named hash hs (treated k srv) kept.0 (ground (arith, once)) (kept.1 hash other ∙ same)
                enough
          | inl own ↦
              let hash_k = (eqb_iff hash k).0 own in
              let left =
                treated-desired k srv c (subst (λ h. copies h srv.db ≡ copies h s) hash_k same)
                  (subst (λ h. desired_copies s h ≤ copies h s) hash_k enough) in
              omega (
                arith,
                unnamed hash hs (treated k srv) kept.0 (ground (arith, once, own)),
                subst (λ h. desired_copies s h ≤ copies h (treated k srv).db) (sym hash_k) left,
              )
        ]

  -- A pass over extra copies leaves every chunk enough of them: where the tables are consistent and a
  -- chunk has as many locations as the backups that use it want, it has that many after the pass,
  -- whatever the nodes answer and whichever copies they delete.
  pub prune_extra_copies-desired :
      (now : ℕ) (hash : Text) (srv : Server World)
      → Consistent srv.db
      → desired_copies srv.db hash ≤ copies hash srv.db
      → desired_copies srv.db hash ≤ copies hash (prune_extra_copies net hash_data now srv).db
  unfolding prune_extra_copies prune_tasks
  prune_extra_copies-desired now hash srv c enough =
      let many : Text → Bool = λ h. ltb (desired_copies srv.db h) (active_copies now srv.db h) in
      let found = used_hashes srv.db in
      let ordered = order_by (by_extra now srv.db) (select many found) in
      named now srv.db hash (take (task_limit 100) ordered) srv c
        (omega (
          arith,
          count_where-take (eqb hash) (task_limit 100) ordered,
          count_where-order_by (by_extra now srv.db) (eqb hash) (select many found),
          count_where-select (eqb hash) many found,
          used_hashes-once hash srv.db,
        ))
        refl enough
