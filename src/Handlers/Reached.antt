-- ===== src/Handlers/Reached.antt =====
-- What each handler does to the database (internal/server/handlers.go): calls of
-- internal/server/state.go alone.
use prosiak.Base.{
  ℕ, ℤ, pos, Text, [], Bool, Bool-cases, true, false, not, Option, Option-cases, none, some, inl,
  inr, if◌then◌else◌, leb_ℤ, ltb_ℤ, eqb, ◌||◌,
}
use prosiak.Protocol.{
  NodeInfo, FileManifest, NodeRegisterRequest, ChunkConfirmRequest, CreateFileRequest,
}
use prosiak.Network.{Network, clear_node_storage}
use prosiak.State.{State}
use prosiak.State.Nodes.{register_node, node}
use prosiak.State.Nodes
use prosiak.State.Locations.{Failure, confirm_chunk}
use prosiak.State.Files.{update_file_replication}
use prosiak.State.Consistent.Run.{registers, deletes_node, sets_replication, step}
use prosiak.Handlers.{Server, Response, ok, failed}
use prosiak.Handlers.Nodes.{
  Url, is_empty, normalize_node_address, register, confirm_handler, drop_node, delete_node_handler,
}
use prosiak.Handlers.Files.{create_file_handler, replication_handler}
use prosiak.Handlers.Calls.{Reaches, stays, calls, confirms-Reaches, save_manifest-Reaches}

pub register-Reaches :
    (parse_url : Text → Option Url) (now : ℕ) (req : NodeRegisterRequest) (s : State)
    → Reaches s (register parse_url now req s).0
unfolding register step
register-Reaches parse_url now req s = elim (Bool-cases (is_empty req.id || is_empty req.address)) [
  | inl missing ↦ rw missing (stays s)
  | inr given ↦ rw given (elim (Option-cases (normalize_node_address parse_url req.address)) [
    | inl bad ↦ rw bad (stays s)
    | inr (address, good) ↦ rw good (calls s (registers now (record req { address = address })))
  ])
]

pub confirm_handler-Reaches :
    (now : ℕ) (req : ChunkConfirmRequest) (s : State) → Reaches s (confirm_handler now req s).0
unfolding confirm_handler
confirm_handler-Reaches now req s =
    unless (is_empty req.hash || is_empty req.node_id || leb_ℤ req.size (pos 0))
      (confirm_chunk now req.hash req.size req.node_id s)
      (confirms-Reaches now req.hash req.size req.node_id s)
  where
    unless :
        (b : Bool) (r : State × Option Failure)
        → Reaches s r.0
        → let done : State × Response (Unit {0}) = elim r.1 [
          | none ↦ (r.0, ok tt)
          | some _ ↦ (r.0, failed 400)
        ] in
          Reaches s (if b then (s, failed 400) else done).0
    unless true r h = stays s
    unless false (db, none) h = h
    unless false (db, some _) h = h

pub replication_handler-Reaches :
    (id : Text) (n : ℤ) (s : State) → Reaches s (replication_handler id n s).0
unfolding replication_handler step
replication_handler-Reaches id n s =
    unless (leb_ℤ n (pos 0)) (update_file_replication id n s) (calls s (sets_replication id n))
  where
    unless :
        (b : Bool) (r : State × Option FileManifest)
        → Reaches s r.0
        → let done : State × Response FileManifest = elim r.1 [
          | none ↦ (r.0, failed 404)
          | some f ↦ (r.0, ok f)
        ] in
          Reaches s (if b then (s, failed 400) else done).0
    unless true r h = stays s
    unless false (db, none) h = h
    unless false (db, some _) h = h

module _ (net : Network) where
  open net use {World}

  drop_node-Reaches :
      (now : ℕ) (id : Text) (purge : Bool) (srv : Server World)
      → Reaches srv.db (drop_node net now id purge srv).0.db
  unfolding step
  drop_node-Reaches now id purge srv =
      by (Nodes.delete_node now id srv.db) (calls srv.db (deletes_node now id))
    where
      by :
          (r : State × Option (NodeInfo × ℕ))
          → Reaches srv.db r.0
          → let done : Server World × Response (Text × ℕ × Bool) = elim r.1 [
            | none ↦ (srv, failed 404)
            | some (n, removed) ↦ (record srv { db = r.0 }, ok (n.id, removed, purge))
          ] in
            Reaches srv.db done.0.db
      by (db, none) h = stays srv.db
      by (db, some _) h = h

  pub delete_node_handler-Reaches :
      (now : ℕ) (id : Text) (purge : Bool) (srv : Server World)
      → Reaches srv.db (delete_node_handler net now id purge srv).0.db
  unfolding delete_node_handler
  delete_node_handler-Reaches now id purge srv = elim (Bool-cases (is_empty id)) [
    | inl missing ↦ rw missing (stays srv.db)
    | inr given ↦ rw given (by purge)
  ]
    where
      cleared_first :
          (n : NodeInfo) (r : World × Bool)
          → Reaches srv.db
              (if r.1
                then drop_node net now id purge (record srv { world = r.0 })
                else (record srv { world = r.0 }, failed 502)).0.db
      cleared_first n (w, true) = drop_node-Reaches now id purge (record srv { world = w })
      cleared_first n (w, false) = stays srv.db

      by :
          (b : Bool)
          → let purged : Server World × Response (Text × ℕ × Bool) = elim (node now id srv.db) [
            | none ↦ (srv, failed 404)
            | some n ↦
                let (w, cleared) = clear_node_storage net n.address srv.world in
                if cleared
                then drop_node net now id purge (record srv { world = w })
                else (record srv { world = w }, failed 502)
          ] in
            Reaches srv.db (if not b then drop_node net now id purge srv else purged).0.db
      by false = drop_node-Reaches now id purge srv
      by true = elim (Option-cases (node now id srv.db)) [
        | inl missing ↦ rw missing (stays srv.db)
        | inr (n, found) ↦ rw found (cleared_first n (clear_node_storage net n.address srv.world))
      ]

  pub create_file_handler-Reaches :
      (now : ℕ) (id : Text) (req : CreateFileRequest) (srv : Server World)
      → Reaches srv.db (create_file_handler net now id req srv).0.db
  unfolding create_file_handler
  create_file_handler-Reaches now id req srv =
      elim (Bool-cases
        (eqb req.name [] || ltb_ℤ req.size (pos 0) || leb_ℤ req.chunk_size (pos 0))) [
          | inl bad ↦ rw bad (stays srv.db)
          | inr good ↦ rw good (save_manifest-Reaches net now id req srv)
        ]
