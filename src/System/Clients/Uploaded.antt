-- ===== src/System/Clients/Uploaded.antt =====
-- What the command backup and the server do together (cmd/backupctl/main.go, internal/server/handlers.go).
use prosiak.Base.{
  ℕ, suc, ℤ, pos, Text, text, List, [], Bool, Bool-cases, true, false, Option, Option-cases, none,
  some, ◌≡◌, refl, ap, sym, ◌∙◌, inl, inr, arith, leb, ltb_ℤ, leb_ℤ, if◌then◌else◌, map, length,
}
use prosiak.Protocol.{FileManifest, CreateFileRequest}
use prosiak.Auth.{HttpRequest, Answer, resolve, round_trip, middleware, public_path}
use prosiak.Auth.Token.{middleware-Carries}
use prosiak.Network.{Network}
use prosiak.Chunker.{Reader, max_chunk_size}
use prosiak.State.{State}
use prosiak.State.Files.{Result, create_file, apply_retention}
use prosiak.Startup.Tls.{Pools, TlsSettings}
use prosiak.Handlers.{Server, Response, ok, created, failed}
use prosiak.Handlers.Nodes.{Url}
use prosiak.Handlers.Delete.{delete_unused_chunks}
use prosiak.Handlers.Backup.{
  Parts, Upload, BackupRequest, save_manifest, finish_upload, open_upload_part, upload_loop,
  first_upload, backup_file,
}
use prosiak.Handlers.Query.{Query, backup_request}
use prosiak.Handlers.Mux.{route}
use prosiak.Handlers.Serve.{
  Incoming, Moment, manifest, Sent, sent, handle, dispatch, guarded, serve,
}
use prosiak.Client.Jobs.{BackupFlags, check_flags}
use prosiak.Client.Upload.{upload_query}
use prosiak.Client.Commands.{TlsFlags, configure_http_client}
use prosiak.Client.Backups.{UploadRequest, decoded, request_for, upload_to_server, backup}
use prosiak.System.Clients.{upload_body, manifest_reply, receive}
use prosiak.System.Clients.Routed.{upload_route}

-- No upload is answered with the status 200.
abbrev NotOk : {A W : Type 0} → Server W × Response A → Type 0
NotOk (srv, ok a) = ⊥
NotOk (srv, created a) = Unit {0}
NotOk (srv, failed n) = Unit {0}

module _ (net : Network) (hash_data : List ℕ → Text) where
  open net use {World}

  save_manifest-NotOk :
      (now : ℕ) (id : Text) (req : CreateFileRequest) (srv : Server World)
      → NotOk (save_manifest net now id req srv)
  unfolding save_manifest
  save_manifest-NotOk now id req srv = by (create_file now id req srv.db)
    where
      by :
          (r : State × Result FileManifest)
          → let after : Server World × Response FileManifest = elim r.1 [
            | Result.err _ ↦ (srv, failed 500)
            | Result.ok g ↦
                let (db', (old, unused)) = apply_retention g.backup_name (pos g.retention) r.0 in
                let (srv', _) = delete_unused_chunks net now unused (record srv { db = db' }) in
                (
                  srv',
                  created (record g { retention_deleted = map (λ (o : FileManifest). o.id) old }),
                )
          ] in
            NotOk after
      by (db, Result.err _) = tt
      by (db, Result.ok g) = tt

  finish_upload-NotOk :
      (clock : ℕ → ℕ) (id : Text) (req : BackupRequest) (filename : Text)
      (r : Upload World × Option ℕ)
      → NotOk (finish_upload net hash_data clock id req filename r)
  unfolding finish_upload
  finish_upload-NotOk clock id req filename (u, some status) = tt
  finish_upload-NotOk clock id req filename (u, none) = save_manifest-NotOk _ id _ _

  backup_file-NotOk :
      (clock : ℕ → ℕ) (id : Text) (max_upload : ℤ) (req : BackupRequest) (srv : Server World)
      → NotOk (backup_file net hash_data clock id max_upload req srv)
  unfolding backup_file
  backup_file-NotOk clock id max_upload req srv = unless (leb_ℤ req.chunk_size (pos 0)) _ (
      unless (ltb_ℤ (pos max_chunk_size) req.chunk_size) _
        (unless (ltb_ℤ req.retention (pos 0)) _ (by (open_upload_part _))))
    where
      unless :
          (b : Bool) (r : Server World × Response FileManifest)
          → NotOk r
          → NotOk (if b then (srv, failed 400) else r)
      unless true r h = tt
      unless false r h = h

      by :
          (p : Option (Text × Reader))
          → let after : Server World × Response FileManifest = elim p [
            | none ↦ (srv, failed 400)
            | some (filename, r) ↦ finish_upload net hash_data clock id req filename (
                upload_loop net hash_data
                  (suc (length r.bytes))
                  clock
                  req.chunk_size
                  req.replication
                  0
                  r.faulty
                  r.bytes
                  (first_upload net hash_data srv))
          ] in
            NotOk after
      by none = tt
      by (some (filename, r)) = finish_upload-NotOk clock id req filename _

  module _ (parse_url : Text → Option Url) (configured env : Text) (max_upload : ℤ) where
    -- A request with the token goes to its handler.
    pub serve-sent :
        (m : Moment) (r : Incoming) (srv : Server World) (asked : HttpRequest)
        → r.head ≡ round_trip (resolve configured env) asked
        → serve net hash_data parse_url (resolve configured env) max_upload m r srv
          ≡ dispatch net hash_data parse_url
              (resolve configured env)
              max_upload
              m
              r
              srv
              (route r.head.method r.head.path)
    unfolding serve
    serve-sent m r srv asked by_client =
        let next : HttpRequest → Server World × Sent = λ head.
          dispatch net hash_data parse_url (resolve configured env) max_upload m r srv
            (route head.method head.path) in
        let through = (middleware-Carries configured env public_path next asked).2 in
        ap (λ a. guarded net hash_data parse_url (resolve configured env) max_upload srv a)
          (ap (middleware (resolve configured env) public_path next) by_client
            ∙ through
            ∙ ap (λ head. Answer.served (next head)) (sym by_client))

    -- The upload that the server makes of the client's.
    abbrev pub made :
        (Text → List ℕ → Bool → Option ℕ → Option Parts)
        → Query
        → BackupFlags
        → List ℕ
        → BackupRequest
    made parts base f content =
        backup_request (upload_query f.name f.retention f.chunk_size f.replication base)
          (parts f.file content true)

    answered_by :
        (bf : Server World × Response FileManifest) (srv' : Server World) (g : FileManifest)
        → NotOk bf
        → ◌≡◌ {A = Server World × Option FileManifest}
            (bf.0, decoded (manifest_reply (sent manifest bf.1)))
            (srv', some g)
        → bf ≡ (srv', created g)
    answered_by (srv, created h) srv' g not_ok e = cc
    answered_by (srv, ok h) srv' g not_ok e = absurd not_ok
    answered_by (srv, failed status) srv' g not_ok e = elim (Bool-cases (leb 300 status)) [
      | inl refused ↦ absurd (ground (arith, refused, e))
      | inr other ↦ absurd (ground (arith, other, e))
    ]

    module _ (parts : Text → List ℕ → Bool → Option ℕ → Option Parts) (m : Moment)
        (srv : Server World) where
      abbrev uploaded : Query → BackupFlags → List ℕ → Server World × Response FileManifest
      uploaded base f content =
          backup_file net hash_data m.clock m.id max_upload (made parts base f content) srv

      -- What the server answers to uploadToServer.
      upload_to_server-made :
          (base : Query) (f : BackupFlags) (content : List ℕ)
          → upload_to_server
              (receive net hash_data parse_url (resolve configured env) max_upload parts m)
              (resolve configured env)
              base
              f.file
              (content, true)
              f.name
              f.retention
              f.chunk_size
              f.replication
              srv
            ≡ (
              (uploaded base f content).0,
              decoded (manifest_reply (sent manifest (uploaded base f content).1)),
            )
      unfolding upload_to_server receive round_trip dispatch handle
      upload_to_server-made base f content =
          let asked : HttpRequest = record {
            method = text "POST";
            path = text "/backups";
            authorization = [];
          } in
          let u : UploadRequest = record {
            head = request_for (resolve configured env) (text "POST") (text "/backups");
            query = upload_query f.name f.retention f.chunk_size f.replication base;
            file_name = f.file;
            content = content;
            whole = true;
          } in
          let r : Incoming = record {
            head = u.head;
            query = u.query;
            body = upload_body parts u;
          } in
          ap (λ (p : Server World × Sent). (p.0, decoded (manifest_reply p.1)))
            (serve-sent m r srv asked refl
              ∙ ap (dispatch net hash_data parse_url (resolve configured env) max_upload m r srv)
                  upload_route)

      module _ (pools : Pools) (read_file : Text → Option (List ℕ)) (client_env : Text)
          (base : Text → Query) (open_file : Text → Option (List ℕ × Bool)) (tls : TlsFlags)
          (f : BackupFlags) (srv' : Server World) (g : FileManifest) (content : List ℕ)
          (client : TlsSettings pools)
          (same_token : configure_http_client pools read_file client_env tls
            ≡ some (client, resolve configured env))
          (opened : open_file f.file ≡ some (content, true)) where
        -- A backup that goes through is an upload that the server answered with a manifest.
        pub backup-made :
            backup
                (receive net hash_data parse_url (resolve configured env) max_upload parts m)
                pools
                read_file
                client_env
                base
                open_file
                tls
                f
                srv
              ≡ (srv', some g)
            → uploaded (base f.server) f content ≡ (srv', created g)
        unfolding backup
        backup-made done = elim (Option-cases (check_flags f)) [
          | inr (e, bad) ↦ absurd (ground (arith, rw (same_token, bad, backup) at done))
          | inl good ↦
              answered_by _ srv' g
                (backup_file-NotOk m.clock m.id max_upload (made parts (base f.server) f content)
                  srv)
                (sym (upload_to_server-made (base f.server) f content)
                  ∙ (rw (same_token, good, opened, backup) at done))
        ]
