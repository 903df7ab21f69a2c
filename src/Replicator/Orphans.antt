-- ===== src/Replicator/Orphans.antt =====
-- The rows of the query for orphans (internal/server/state.go: OrphanChunkTasks), and what leaves them
-- as they are.
use prosiak.Base.{
  ℕ, Text, List, [], ◌∷◌, Bool, true, false, not, ◌&&◌, ◌≡◌, refl, ap, subst, fun_ext, ◌∙◌, ◌≤◌,
  arith, eqb, eqb_iff, eqb_refl, any, any-map, any-flat_map, any-order_by, any_mono, select-none,
  any-select_of, any-select-false, any-delete_where, order_by, delete_where, take, take_all,
  flat_map, length, length-order_by, if_cases, and-true,
}
use prosiak.Protocol.{NodeInfo, CreateFileRequest}
use prosiak.State.{State, Location, is_alive, has_id, with_derived_status}
use prosiak.State.Nodes.{holds}
use prosiak.State.Locations.{remove_chunk_location, uses, of_hash, chunk_locations}
use prosiak.State.Files.{create_file, new_row}
use prosiak.State.Tasks.{OrphanChunkTask, orphan_chunk_tasks, orphans_at, derive_node, by_hash_node}

-- The rows of the query for orphans, before its order and its limit.
abbrev pub orphan_rows : ℕ → State → List OrphanChunkTask
orphan_rows now s = flat_map (orphans_at now s) s.chunk_locations

abbrev pub about : Text → Text → OrphanChunkTask → Bool
about hash id t = eqb hash t.hash && eqb id t.node.id

derive_keeps_id : (now : ℕ) (n : NodeInfo) → (with_derived_status now n).id ≡ n.id
unfolding with_derived_status
derive_keeps_id now n = ground arith

-- A location of an unused chunk on a live node is a row of the query.
orphan_row :
    (now : ℕ) (s : State) (hash id : Text) (l : Location)
    → holds hash id l ≡ true
    → any (uses hash) s.file_chunks ≡ false
    → any (λ n. has_id id n && is_alive now n) s.nodes ≡ true
    → any (about hash id) (orphans_at now s l) ≡ true
unfolding orphans_at
orphan_row now s hash id l h unused alive =
    let same = and-true (eqb hash l.hash) (eqb id l.node_id) h in
    let hash_path = (eqb_iff hash l.hash).0 same.0 in
    let id_path = (eqb_iff id l.node_id).0 same.1 in
    let unused' : any (uses l.hash) s.file_chunks ≡ false =
      subst (λ k. any (uses k) s.file_chunks ≡ false) hash_path unused in
    any-map (about hash id) _ _
    ∙ any-select_of _ _ (λ n. has_id id n && is_alive now n) s.nodes
        (λ n e.
          let both = and-true (eqb id n.id) (is_alive now n) e in
          (
            ground (arith, eqb_iff id l.node_id, eqb_iff id n.id, eqb_iff l.node_id n.id),
            ground (arith, same.0),
          ))
        alive

pub remove-holds_self :
    (hash id : Text) (s : State)
    → any (holds hash id) (remove_chunk_location hash id s).chunk_locations ≡ false
unfolding remove_chunk_location
remove-holds_self hash id s =
    if_cases (λ (t : State). any (holds hash id) t.chunk_locations ≡ false) _ _ _ (λ _. gone)
      (λ _. gone)
  where
    gone : any (holds hash id) (delete_where (holds hash id) s.chunk_locations) ≡ false
    gone = any-delete_where (holds hash id) (holds hash id) s.chunk_locations (λ l e. e)

-- A removal brings no location back.
pub remove-holds :
    (h k hash id : Text) (s : State)
    → any (holds hash id) s.chunk_locations ≡ false
    → any (holds hash id) (remove_chunk_location h k s).chunk_locations ≡ false
unfolding remove_chunk_location delete_where
remove-holds h k hash id s e =
    if_cases (λ (t : State). any (holds hash id) t.chunk_locations ≡ false) _ _ _ (λ _. gone)
      (λ _. gone)
  where
    gone : any (holds hash id) (delete_where (holds h k) s.chunk_locations) ≡ false
    gone = any-select-false (λ l. not (holds h k l)) (holds hash id) s.chunk_locations e

-- Whatever location of an unused chunk a live node has is among the tasks, while there are no more
-- than the limit of them.
pub orphan_task :
    (now : ℕ) (s : State) (hash id : Text)
    → any (holds hash id) s.chunk_locations ≡ true
    → any (uses hash) s.file_chunks ≡ false
    → any (λ n. has_id id n && is_alive now n) s.nodes ≡ true
    → length (orphan_rows now s) ≤ 100
    → any (about hash id) (orphan_chunk_tasks now 100 s) ≡ true
unfolding orphan_chunk_tasks derive_node
orphan_task now s hash id held unused alive few =
    let rows = orphan_rows now s in
    let sorted = order_by by_hash_node rows in
    any-map (about hash id) (derive_node now) _
    ∙ ap (λ p. any p (take 100 sorted))
        (fun_ext λ t. ap (λ k. eqb hash t.hash && eqb id k) (derive_keeps_id now t.node))
    ∙ ap (any (about hash id)) (take_all 100 sorted (rw (length-order_by by_hash_node rows) few))
    ∙ any-order_by by_hash_node (about hash id) rows
    ∙ any-flat_map (about hash id) (orphans_at now s) s.chunk_locations
    ∙ any_mono (holds hash id) _ s.chunk_locations
        (λ l h. orphan_row now s hash id l h unused alive) held

-- What CreateFile answers depends on the backups alone.
pub create_file-answer :
    (t : ℕ) (id : Text) (req : CreateFileRequest) (s s' : State)
    → s'.files ≡ s.files
    → s'.file_chunks ≡ s.file_chunks
    → (create_file t id req s').1 ≡ (create_file t id req s).1
unfolding create_file new_row
create_file-answer t id req s s' f c = ground arith

pub create_file-locations :
    (t : ℕ) (id : Text) (req : CreateFileRequest) (s : State)
    → (create_file t id req s).0.chunk_locations ≡ s.chunk_locations
unfolding create_file
create_file-locations t id req s = ground arith

pub no_location :
    (hash : Text) (ls : List Location)
    → ((id : Text) → any (holds hash id) ls ≡ false)
    → any (of_hash hash) ls ≡ false
unfolding any
no_location hash [] h = refl
no_location hash (l ∷ ls) h =
    ground
      (arith, h l.node_id, eqb_refl l.node_id, no_location hash ls (λ id. ground (arith, h id)))

pub no_location-chunk_locations :
    (t : ℕ) (hash : Text) (s : State)
    → any (of_hash hash) s.chunk_locations ≡ false
    → chunk_locations t hash s ≡ []
unfolding chunk_locations order_by flat_map
no_location-chunk_locations t hash s h = rw (select-none (of_hash hash) s.chunk_locations h)
