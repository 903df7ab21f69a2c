-- ===== src/State/Nodes/Plan.antt =====
-- The choice that PlanChunkSpread makes among the nodes (internal/server/state.go).
use prosiak.Base.{
  ℕ, ℤ, Text, List, [], ◌++◌, true, ◌&&◌, map, drop, take-append-drop, ◌≡◌, ap, ◌∙◌, ◌⊎◌, ◌≤◌,
  arith, fun_ext, leb_text_total, leb_text_trans, any, any-order_by, any-map, any-select_both,
  select, order_by, All, All-of_select, All-order_by, All-map, All-take, length, IsOrder, Ordered,
  Before, order_by-Ordered, take-Ordered, Ordered-take, full_or_all,
}
use prosiak.Protocol.{NodeInfo}
use prosiak.State.{State, is_alive, with_derived_status, normalized_replication, has_id}
use prosiak.State.Nodes.{is_candidate, by_free, preferred, plan_chunk_spread}

preferred-IsOrder : (counts : Text → ℕ) → IsOrder (preferred counts)
unfolding preferred by_free
preferred-IsOrder counts = record {
  total = λ a b h. ground (arith, h, leb_text_total a.id b.id);
  trans = λ a b c h k. ground (arith, h, k, leb_text_trans a.id b.id c.id);
}

-- A status does not matter to the conditions and the order.
derived-is_candidate :
    (now : ℕ) (hash : Text) (size : ℤ) (s : State) (n : NodeInfo)
    → is_candidate now hash size s (with_derived_status now n) ≡ is_candidate now hash size s n
unfolding is_candidate with_derived_status is_alive
derived-is_candidate now hash size s n = ground arith

derived-has_id :
    (now : ℕ) (id : Text) (n : NodeInfo) → has_id id (with_derived_status now n) ≡ has_id id n
unfolding with_derived_status
derived-has_id now id n = ground arith

module _ (now : ℕ) (hash : Text) (size replication : ℤ) (counts : Text → ℕ) (s : State) where
  -- All candidates, best first.
  abbrev ranked : List NodeInfo
  ranked = order_by (preferred counts) (
      map (with_derived_status now)
        (order_by by_free (select (is_candidate now hash size s) s.nodes)))

  ranked-All : All (λ n. is_candidate now hash size s n ≡ true) ranked
  ranked-All = All-order_by Fit (preferred counts) _ (
      All-map Fit (with_derived_status now) _ (
        All-order_by (λ n. Fit (with_derived_status now n)) by_free _
          (All-of_select _ (is_candidate now hash size s) s.nodes
            (λ n h. derived-is_candidate now hash size s n ∙ h))))
    where
      Fit : NodeInfo → Type 0
      Fit n = is_candidate now hash size s n ≡ true

  ranked-any :
      (id : Text)
      → any (has_id id) ranked ≡ any (λ n. has_id id n && is_candidate now hash size s n) s.nodes
  ranked-any id =
      any-order_by (preferred counts) (has_id id) _
      ∙ any-map (has_id id) (with_derived_status now) _
      ∙ ap (λ p. any p sorted) (fun_ext (derived-has_id now id))
      ∙ any-order_by by_free (has_id id) _
      ∙ any-select_both (is_candidate now hash size s) (has_id id) s.nodes
    where
      sorted : List NodeInfo
      sorted = order_by by_free (select (is_candidate now hash size s) s.nodes)

  -- What a choice of nodes promises, with the candidates that were left out.
  pub record IsBest (plan left_out : List NodeInfo) : Type 0 where
    pub fit : All (λ n. is_candidate now hash size s n ≡ true) plan
    pub among :
        (id : Text)
        → any (has_id id) (plan ++ left_out)
          ≡ any (λ n. has_id id n && is_candidate now hash size s n) s.nodes
    pub ordered : Ordered (preferred counts) plan
    pub best : All (λ n. Before (preferred counts) n left_out) plan
    pub enough :
        (length plan ≡ normalized_replication replication)
        ⊎ ((left_out ≡ []) × (length plan ≤ normalized_replication replication))

  -- The planned nodes are all live, have the space, and do not hold the chunk yet. They are in the
  -- order of preference: fewest chunks of this upload, then most free space, then id. With the
  -- candidates that were left out, to each of which each planned node is preferred, they are all the
  -- candidates that the table has; and there are as many as are asked for, or none was left out.
  pub plan_chunk_spread-IsBest :
      (left_out : List NodeInfo) × IsBest
        (plan_chunk_spread now hash size replication counts s)
        left_out
  unfolding plan_chunk_spread
  plan_chunk_spread-IsBest =
      let n = normalized_replication replication in
      let sorted = order_by-Ordered (preferred counts) (preferred-IsOrder counts) _ in
      (
        drop n ranked,
        record {
          fit = All-take _ n ranked ranked-All;
          among = λ id. ap (any (has_id id)) (take-append-drop n ranked) ∙ ranked-any id;
          ordered = Ordered-take (preferred counts) n ranked sorted;
          best = take-Ordered (preferred counts) n ranked sorted;
          enough = full_or_all n ranked;
        },
      )
