-- ===== src/Handlers/Serve.antt =====
-- The server's handler (internal/server/handlers.go: NewHandler, Routes): a request passes the check
-- of its token, goes to its handler by its method and path, and the handler takes what it needs from
-- the path, the query and the body.
pub mod Reached
pub mod Guarded
use prosiak.Base.{
  ℕ, ℤ, Text, text, List, [], Option, none, some, Bool, true, false, eqb, if◌then◌else◌,
  trim_prefix, trim_suffix, cut_suffix, cut_prefix,
}
use prosiak.Protocol.{
  NodeRegisterRequest, NodeInfo, ChunkPlanRequest, ChunkPlanResponse, ChunkConfirmRequest,
  CreateFileRequest, FileManifest, FileAvailability,
}
use prosiak.Auth.{HttpRequest, Answer, middleware, public_path}
use prosiak.Network.{Network}
use prosiak.State.{State}
use prosiak.State.Nodes.{all_nodes}
use prosiak.State.Files.{all_files}
use prosiak.State.Locations.{chunk_locations}
use prosiak.Handlers.{Server, Response, ok, created, failed}
use prosiak.Handlers.Nodes
use prosiak.Handlers.Nodes.{Url}
use prosiak.Handlers.Files.{
  create_file_handler, manifest_handler, availability_handler, replication_handler,
}
use prosiak.Handlers.Delete.{Swept, delete_file}
use prosiak.Handlers.Download.{Download, download_file}
use prosiak.Handlers.Backup.{Parts, backup_file}
use prosiak.Handlers.Query.{Query, get, backup_request}
use prosiak.Handlers.Mux.{
  Route, web, health, register, nodes, delete_node, plan_chunk, confirm_chunk,
  chunk_locations as locations_route, backup, files, create_file, file_manifest, patch_file,
  delete_file as delete_file_route, Routed, moved, not_allowed, not_found, routed, route,
}

-- A body: what httpjson.Read makes of it at each type, and its multipart reader under a ceiling.
pub record Body : Type 0 where
  pub registration : Option NodeRegisterRequest
  pub plan : Option ChunkPlanRequest
  pub confirmation : Option ChunkConfirmRequest
  pub creation : Option CreateFileRequest
  pub replication : Option ℤ
  pub parts : Option ℕ → Option Parts

pub record Incoming : Type 0 where
  pub head : HttpRequest
  pub query : Query
  pub body : Body

-- The clock while a request is served, the id that it will generate, and the text of the error that
-- fetchFromAny will return if it fails.
pub record Moment : Type 0 where
  pub clock : ℕ → ℕ
  pub id : Text
  pub fetch_error : Text

pub data Content : Type 0 where
  status_ok confirmed : Content
  node : NodeInfo → Content
  node_list : List NodeInfo → Content
  deleted_node : Text × ℕ × Bool → Content
  plan : ChunkPlanResponse → Content
  locations : Text → List NodeInfo → Content
  manifest : FileManifest → Content
  manifest_list : List FileManifest → Content
  availability : FileAvailability → Content
  deleted_file : Text × Swept → Content

-- What is sent back: a page of the directory `web`, a redirection, the status of an error, a status
-- with what its body says, or a backup.
pub data Sent : Type 0 where
  page : Text → Sent
  redirect : Text → Sent
  error : ℕ → Sent
  answer : ℕ → Content → Sent
  download : Download → Sent

abbrev pub sent : {A : Type 0} → (A → Content) → Response A → Sent
sent body (ok a) = answer 200 (body a)
sent body (created a) = answer 201 (body a)
sent body (failed status) = error status

module _ (net : Network) (hash_data : List ℕ → Text) (parse_url : Text → Option Url) (token : Text)
    (max_upload : ℤ) where
  open net use {World}

  -- A handler of the tables alone, and one of the server.
  abbrev pub on_tables :
      {A : Type 0} → (A → Content) → Server World → State × Response A → Server World × Sent
  on_tables body srv (db, r) = (record srv { db = db }, sent body r)

  abbrev pub on_server :
      {A : Type 0} → (A → Content) → Server World × Response A → Server World × Sent
  on_server body (srv, r) = (srv, sent body r)

  -- httpjson.Read: a body that is not of the type is refused.
  abbrev pub read_json :
      {A : Type 0} → Server World → Option A → (A → Server World × Sent) → Server World × Sent
  read_json srv none next = (srv, error 400)
  read_json srv (some req) next = next req

  -- chunkLocations
  unfoldable pub locations_handler : ℕ → Text → State → Response (Text × List NodeInfo)
  locations_handler now hash db =
      if eqb hash [] then failed 400 else ok (hash, chunk_locations now hash db)

  abbrev pub has_suffix : Text → Text → Bool
  has_suffix suffix s = elim (cut_suffix suffix s) [ none ↦ false | some rest ↦ true ]

  abbrev pub below_files : Incoming → Text
  below_files r = trim_prefix (text "/files/") r.head.path

  -- fileManifest
  unfoldable pub get_file : Moment → Incoming → Server World → Server World × Sent
  unfolding trim_prefix cut_prefix
  get_file m r srv =
      let rest = below_files r in
      let (fetched, d) =
        download_file net hash_data m.fetch_error (m.clock 0) (trim_suffix (text "/download") rest)
          srv in
      if has_suffix (text "/download") rest
      then (fetched, download d)
      else if has_suffix (text "/availability") rest
      then (
        srv,
        sent availability
            (availability_handler (m.clock 0) (trim_suffix (text "/availability") rest) srv.db),
      )
      else (srv, sent manifest (manifest_handler (trim_suffix (text "/manifest") rest) srv.db))

  -- patchFile
  unfoldable pub patch : Incoming → Server World → Server World × Sent
  unfolding trim_prefix cut_prefix
  patch r srv =
      let rest = below_files r in
      if has_suffix (text "/replication") rest
      then read_json srv r.body.replication (λ n.
        on_tables manifest srv
          (replication_handler (trim_suffix (text "/replication") rest) n srv.db))
      else (srv, error 404)

  -- The handlers, at the request.
  unfoldable pub handle : Moment → Incoming → Server World → Route → Server World × Sent
  unfolding trim_prefix cut_prefix get_file patch locations_handler
  handle m r srv web = (srv, page r.head.path)
  handle m r srv health = (srv, answer 200 status_ok)
  handle m r srv register =
      read_json srv r.body.registration
        (λ req. on_tables node srv (Nodes.register parse_url (m.clock 0) req srv.db))
  handle m r srv nodes = (srv, answer 200 (node_list (all_nodes (m.clock 0) srv.db)))
  handle m r srv delete_node = on_server deleted_node (
      Nodes.delete_node_handler net (m.clock 0)
        (trim_suffix (text "/") (trim_prefix (text "/nodes/") r.head.path))
        (eqb (get (text "purge") r.query) (text "true")) srv)
  handle m r srv plan_chunk =
      read_json srv r.body.plan
        (λ req. (srv, sent plan (Nodes.plan_handler (m.clock 0) req srv.db)))
  handle m r srv confirm_chunk =
      read_json srv r.body.confirmation
        (λ req. on_tables (λ done. confirmed) srv (Nodes.confirm_handler (m.clock 0) req srv.db))
  handle m r srv locations_route = (
    srv,
    sent (λ p. locations p.0 p.1)
        (locations_handler (m.clock 0)
          (trim_suffix (text "/locations") (trim_prefix (text "/chunks/") r.head.path)) srv.db),
  )
  handle m r srv backup =
      on_server manifest (
        backup_file net hash_data m.clock m.id max_upload (backup_request r.query r.body.parts) srv)
  handle m r srv files = (srv, answer 200 (manifest_list (all_files srv.db)))
  handle m r srv create_file =
      read_json srv r.body.creation
        (λ req. on_server manifest (create_file_handler net (m.clock 0) m.id req srv))
  handle m r srv file_manifest = get_file m r srv
  handle m r srv patch_file = patch r srv
  handle m r srv delete_file_route =
      on_server deleted_file
        (delete_file net (m.clock 0) (trim_suffix (text "/") (below_files r)) srv)

  -- ServeHTTP of the multiplexer.
  unfoldable pub dispatch : Moment → Incoming → Server World → Routed → Server World × Sent
  unfolding handle
  dispatch m r srv (moved path) = (srv, redirect path)
  dispatch m r srv not_allowed = (srv, error 405)
  dispatch m r srv not_found = (srv, error 404)
  dispatch m r srv (routed handler) = handle m r srv handler

  abbrev pub guarded : Server World → Answer (Server World × Sent) → Server World × Sent
  guarded srv Answer.unauthorized = (srv, error 401)
  guarded srv (Answer.served r) = r

  -- The handler that Routes returns.
  unfoldable pub serve : Moment → Incoming → Server World → Server World × Sent
  unfolding dispatch middleware public_path route
  serve m r srv =
      guarded srv (
        middleware token public_path (λ head. dispatch m r srv (route head.method head.path))
          r.head)
