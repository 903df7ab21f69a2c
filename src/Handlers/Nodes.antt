-- ===== src/Handlers/Nodes.antt =====
-- The handlers for nodes and chunks (internal/server/handlers.go).
use prosiak.Base.{
  ℕ, pos, Text, text, [], ◌++◌, Option, none, some, Bool, not, ◌&&◌, ◌||◌, leb_ℤ, eqb, trim_space,
  if◌then◌else◌,
}
use prosiak.Protocol.{
  NodeRegisterRequest, NodeInfo, ChunkPlanRequest, ChunkPlanResponse, ChunkConfirmRequest,
}
use prosiak.Network.{Network, clear_node_storage}
use prosiak.State.{State}
use prosiak.State.Nodes.{register_node, node, delete_node, plan_chunk}
use prosiak.State.Locations.{confirm_chunk}
use prosiak.Handlers.{Server, Response, ok, failed}

-- What net/url's Parse makes of an address.
pub record Url : Type 0 where
  pub scheme : Text
  pub host : Text
  pub has_user : Bool
  pub path : Text
  pub raw_query : Text
  pub fragment : Text

abbrev pub is_empty : Text → Bool
is_empty s = eqb s []

-- The conditions of normalizeNodeAddress on a parsed address.
unfoldable pub is_base_url : Url → Bool
is_base_url u =
    (eqb u.scheme (text "http") || eqb u.scheme (text "https"))
    && not (is_empty u.host)
    && not u.has_user
    && (is_empty u.path || eqb u.path (text "/"))
    && is_empty u.raw_query
    && is_empty u.fragment

module _ (parse_url : Text → Option Url) where
  -- normalizeNodeAddress
  unfoldable pub normalize_node_address : Text → Option Text
  unfolding is_base_url
  normalize_node_address raw = elim (parse_url (trim_space raw)) [
    | none ↦ none
    | some u ↦ if is_base_url u then some (u.scheme ++ (text "://" ++ u.host)) else none
  ]

  -- registerNode, the handler of registrations and of heartbeats.
  unfoldable pub register : ℕ → NodeRegisterRequest → State → State × Response NodeInfo
  unfolding normalize_node_address
  register now req db =
      if is_empty req.id || is_empty req.address
      then (db, failed 400)
      else elim (normalize_node_address req.address) [
        | none ↦ (db, failed 400)
        | some address ↦
            let (db', n) = register_node now (record req { address = address }) db in (db', ok n)
      ]

-- planChunk
unfoldable pub plan_handler : ℕ → ChunkPlanRequest → State → Response ChunkPlanResponse
plan_handler now req db =
    if is_empty req.hash || leb_ℤ req.size (pos 0)
    then failed 400
    else ok
        (record { hash = req.hash; nodes = plan_chunk now req.hash req.size req.replication db })

-- confirmChunk
unfoldable pub confirm_handler : ℕ → ChunkConfirmRequest → State → State × Response (Unit {0})
confirm_handler now req db =
    let (db', refused) = confirm_chunk now req.hash req.size req.node_id db in
    if is_empty req.hash || is_empty req.node_id || leb_ℤ req.size (pos 0)
    then (db, failed 400)
    else elim refused [ none ↦ (db', ok tt) | some _ ↦ (db', failed 400) ]

module _ (net : Network) where
  open net use {World}

  -- What deleteNode does once the storage is clear.
  abbrev pub drop_node : ℕ → Text → Bool → Server World → Server World × Response (Text × ℕ × Bool)
  drop_node now id purge srv =
      let (db, found) = delete_node now id srv.db in
      elim found [
        | none ↦ (srv, failed 404)
        | some (n, removed) ↦ (record srv { db = db }, ok (n.id, removed, purge))
      ]

  -- deleteNode, at the id in the path.
  unfoldable pub delete_node_handler :
      ℕ → Text → Bool → Server World → Server World × Response (Text × ℕ × Bool)
  delete_node_handler now id purge srv =
      if is_empty id
      then (srv, failed 400)
      else if not purge
      then drop_node now id purge srv
      else elim (node now id srv.db) [
        | none ↦ (srv, failed 404)
        | some n ↦
            let (w, cleared) = clear_node_storage net n.address srv.world in
            if cleared
            then drop_node now id purge (record srv { world = w })
            else (record srv { world = w }, failed 502)
      ]
