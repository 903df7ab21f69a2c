-- ===== src/Handlers/Serve/Reached.antt =====
-- What a request does to the database (internal/server/handlers.go: Routes and the handlers): calls of
-- internal/server/state.go alone.
use prosiak.Base.{
  ℕ, ℤ, Text, text, List, Bool, true, false, not, Option, Option-cases, none, some, inl, inr,
  if◌then◌else◌, trim_suffix,
}
use prosiak.Auth.{Answer, public_path, valid_bearer}
use prosiak.Network.{Network}
use prosiak.State.Files.{file}
use prosiak.Handlers.{Server}
use prosiak.Handlers.Nodes.{Url}
use prosiak.Handlers.Download.{download_file}
use prosiak.Handlers.Calls.{Reaches, stays, delete_file-Reaches, backup_file-Reaches}
use prosiak.Handlers.Mux.{Route, Routed, moved, not_allowed, not_found, routed, route}
use prosiak.Handlers.Serve.{
  Incoming, Moment, Sent, read_json, below_files, has_suffix, get_file, patch, handle, dispatch,
  guarded, serve,
}
use prosiak.Handlers.Reached.{
  delete_node_handler-Reaches, create_file_handler-Reaches, register-Reaches,
  confirm_handler-Reaches, replication_handler-Reaches,
}

module _ (net : Network) (hash_data : List ℕ → Text) where
  open net use {World}

  download_file-Reaches :
      (message : Text) (now : ℕ) (id : Text) (srv : Server World)
      → Reaches srv.db (download_file net hash_data message now id srv).0.db
  unfolding download_file
  download_file-Reaches message now id srv = elim (Option-cases (file id srv.db)) [
    | inl missing ↦ rw (missing, download_file) (stays srv.db)
    | inr (f, found) ↦ rw (found, download_file) (stays srv.db)
  ]

  module _ (parse_url : Text → Option Url) (token : Text) (max_upload : ℤ) (m : Moment)
      (r : Incoming) (srv : Server World) where
    abbrev Served : Server World × Sent → Type 0
    Served done = Reaches srv.db done.0.db

    read_json-Served :
        {A : Type 0} (o : Option A) (next : A → Server World × Sent)
        → ((req : A) → Served (next req))
        → Served (read_json net hash_data parse_url token max_upload srv o next)
    read_json-Served none next h = stays srv.db
    read_json-Served (some req) next h = h req

    get_file-Served : Served (get_file net hash_data parse_url token max_upload m r srv)
    unfolding get_file
    get_file-Served =
        by (has_suffix net hash_data parse_url token max_upload (text "/download") rest)
          (has_suffix net hash_data parse_url token max_upload (text "/availability") rest) _ _ _
          (download_file-Reaches m.fetch_error (m.clock 0) (trim_suffix (text "/download") rest)
            srv)
          (stays srv.db) (stays srv.db)
      where
        rest : Text
        rest = below_files net hash_data parse_url token max_upload r

        by :
            (fetches asks : Bool) (a b c : Server World × Sent)
            → Served a
            → Served b
            → Served c
            → Served (if fetches then a else if asks then b else c)
        by true asks a b c h h' h'' = h
        by false true a b c h h' h'' = h'
        by false false a b c h h' h'' = h''

    patch-Served : Served (patch net hash_data parse_url token max_upload r srv)
    unfolding patch
    patch-Served =
        by (has_suffix net hash_data parse_url token max_upload (text "/replication") rest) _
          (read_json-Served r.body.replication _ (λ n. replication_handler-Reaches _ n srv.db))
      where
        rest : Text
        rest = below_files net hash_data parse_url token max_upload r

        by :
            (b : Bool) (a : Server World × Sent)
            → Served a
            → Served (if b then a else (srv, Sent.error 404))
        by true a h = h
        by false a h = stays srv.db

    handle-Served : (h : Route) → Served (handle net hash_data parse_url token max_upload m r srv h)
    unfolding handle
    handle-Served Route.web = stays srv.db
    handle-Served Route.health = stays srv.db
    handle-Served Route.register =
        read_json-Served r.body.registration _
          (λ req. register-Reaches parse_url (m.clock 0) req srv.db)
    handle-Served Route.nodes = stays srv.db
    handle-Served Route.delete_node = delete_node_handler-Reaches net (m.clock 0) _ _ srv
    handle-Served Route.plan_chunk = read_json-Served r.body.plan _ (λ req. stays srv.db)
    handle-Served Route.confirm_chunk =
        read_json-Served r.body.confirmation _
          (λ req. confirm_handler-Reaches (m.clock 0) req srv.db)
    handle-Served Route.chunk_locations = stays srv.db
    handle-Served Route.backup = backup_file-Reaches net hash_data m.clock m.id max_upload _ srv
    handle-Served Route.files = stays srv.db
    handle-Served Route.create_file =
        read_json-Served r.body.creation _
          (λ req. create_file_handler-Reaches net (m.clock 0) m.id req srv)
    handle-Served Route.file_manifest = get_file-Served
    handle-Served Route.patch_file = patch-Served
    handle-Served Route.delete_file = delete_file-Reaches net (m.clock 0) _ srv

    dispatch-Served :
        (to : Routed) → Served (dispatch net hash_data parse_url token max_upload m r srv to)
    unfolding dispatch
    dispatch-Served (moved path) = stays srv.db
    dispatch-Served not_allowed = stays srv.db
    dispatch-Served not_found = stays srv.db
    dispatch-Served (routed h) = handle-Served h

    pub serve-Reaches : Reaches srv.db (serve net hash_data parse_url token max_upload m r srv).0.db
    unfolding serve
    serve-Reaches = by (public_path r.head) (valid_bearer r.head.authorization token)
      where
        by :
            (public valid : Bool)
            → Served (
                guarded net hash_data parse_url token max_upload srv (
                  if public
                  then Answer.served (
                      dispatch net hash_data parse_url token max_upload m r srv
                        (route r.head.method r.head.path))
                  else if not valid
                  then Answer.unauthorized
                  else Answer.served (
                      dispatch net hash_data parse_url token max_upload m r srv
                        (route r.head.method r.head.path))))
        by true valid = dispatch-Served (route r.head.method r.head.path)
        by false true = dispatch-Served (route r.head.method r.head.path)
        by false false = stays srv.db
