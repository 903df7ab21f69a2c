-- ===== src/System/Clients/Restored.antt =====
-- A file from the command backup to the command restore (cmd/backupctl/main.go), through the server
-- (internal/server/handlers.go).
use prosiak.Base.{
  ℕ, suc, ℤ, pos, Text, text, List, [], ◌++◌, Bool, true, false, Option, none, some, some_eq, ◌≡◌,
  ◌⊎◌, inl, inr, refl, ap, sym, subst, ◌∙◌, arith, eqb, eqb_ℤ, ltb_ℤ, ◌||◌, if◌then◌else◌, length,
  All, trim_prefix, cut_suffix, cut_prefix-append,
}
use prosiak.Protocol.{ChunkRef, FileManifest}
use prosiak.Handlers.Query.{Query, backup_request}
use prosiak.Handlers.Backup.{BackupRequest}
use prosiak.Auth.{HttpRequest, resolve, round_trip}
use prosiak.Network.{Network}
use prosiak.Chunker.{split, limits}
use prosiak.State.Consistent.{Consistent}
use prosiak.Startup.Tls.{Pools, TlsSettings}
use prosiak.Handlers.{Server}
use prosiak.Handlers.Nodes.{Url}
use prosiak.Handlers.Backup.{Parts, open_upload_part}
use prosiak.Handlers.Backup.Unstored.{ceiling}
use prosiak.Handlers.Backup.Entered.{entries}
use prosiak.Handlers.Download.{download_file}
use prosiak.Handlers.Download.Exact.{Collision}
use prosiak.Handlers.Download.Whole.{Served}
use prosiak.Handlers.Serve.{
  Incoming, Moment, Sent, download, below_files, get_file, handle, dispatch,
}
use prosiak.Client.Paths.Components.{IsPlain}
use prosiak.Client.Jobs.{BackupFlags}
use prosiak.Client.Commands.{TlsFlags, configure_http_client, Ending, restored, restore, written}
use prosiak.Client.Commands as Commands
use prosiak.Client.Backups.{backup}
use prosiak.System.RoundTrip.{upload-saves, upload-download_whole}
use prosiak.System.Clients.{download_request, download_reply, framed, receive, fetch}
use prosiak.System.Clients.Routed.{cut_suffix-append, download_path, download_route}
use prosiak.System.Clients.Uploaded.{serve-sent, made, backup-made}

trim_prefix-append : (p s : Text) → trim_prefix p (p ++ s) ≡ s
unfolding trim_prefix
trim_prefix-append p s = rw (cut_prefix-append p s, trim_prefix) refl

picked :
    {A : Type 0} (rest : Text) (o : Option Text) (id : Text) (taken : Text → A) (other : A)
    → o ≡ some id
    → let there : Bool = elim o [ none ↦ false | some k ↦ true ] in
      let found : Text = elim o [ none ↦ rest | some k ↦ k ] in
      (if there then taken found else other) ≡ taken id
picked rest none id taken other h = absurd (cc)
picked rest (some k) id taken other h = ap taken (some_eq h)

module _ (net : Network) (hash_data : List ℕ → Text) (parse_url : Text → Option Url)
    (configured env : Text) (max_upload : ℤ) where
  open net use {World}

  abbrev token : Text
  token = resolve configured env

  get_file-download :
      (m : Moment) (r : Incoming) (srv : Server World) (id : Text)
      → below_files net hash_data parse_url token max_upload r ≡ id ++ text "/download"
      → get_file net hash_data parse_url token max_upload m r srv ≡ (
        (download_file net hash_data m.fetch_error (m.clock 0) id srv).0,
        download (download_file net hash_data m.fetch_error (m.clock 0) id srv).1,
      )
  unfolding get_file
  get_file-download m r srv id e =
      picked (below_files net hash_data parse_url token max_upload r)
        (cut_suffix (text "/download") (below_files net hash_data parse_url token max_upload r)) id
        (λ k. (
          (download_file net hash_data m.fetch_error (m.clock 0) k srv).0,
          download (download_file net hash_data m.fetch_error (m.clock 0) k srv).1,
        ))
        _ (ap (cut_suffix (text "/download")) e ∙ cut_suffix-append id (text "/download"))

  fetch-download :
      (m : Moment) (message : List ℕ) (id : Text) (srv : Server World)
      → IsPlain id
      → (fetch net hash_data parse_url token max_upload m message token id srv).1
        ≡ download_reply message
            (download (download_file net hash_data m.fetch_error (m.clock 0) id srv).1)
  unfolding fetch round_trip dispatch handle
  fetch-download m message id srv plain =
      let asked : HttpRequest = record {
        method = text "GET";
        path = download_path id;
        authorization = [];
      } in
      let r : Incoming = download_request net hash_data parse_url token max_upload token id in
      ap (λ (p : Server World × Sent). download_reply message p.1)
        (serve-sent net hash_data parse_url configured env max_upload m r srv asked refl
          ∙ ap (dispatch net hash_data parse_url token max_upload m r srv) (download_route id plain)
          ∙ get_file-download m r srv id
              (trim_prefix-append (text "/files/") (id ++ text "/download")))

pub framed-whole :
    (bytes : List ℕ) → framed (pos (length bytes)) bytes ≡ Commands.reply 200 bytes true
framed-whole bytes = ap (Commands.reply 200 bytes) (whole (length bytes))
  where
    whole : (n : ℕ) → (ltb_ℤ (pos n) (pos 0) || eqb_ℤ (pos n) (pos n)) ≡ true
    whole n = ground arith

pub restore-whole :
    (pools : Pools) (read_file : Text → Option (List ℕ)) (env : Text) (tls : TlsFlags)
    (client : TlsSettings pools) (token id out_path : Text) (body : List ℕ) (old : Option (List ℕ))
    → configure_http_client pools read_file env tls ≡ some (client, token)
    → eqb id [] ≡ false
    → eqb out_path [] ≡ false
    → restore pools read_file env tls id out_path true (Commands.reply 200 body true) old
      ≡ (some body, restored (length body))
unfolding restore
restore-whole pools read_file env tls client sent_token id out_path body old same_token named out =
    rw (same_token, named, out, restore) refl

-- The settings of both programs, the file, the upload that was answered, and a later moment.
module _ (net : Network) (hash_data : List ℕ → Text) (parse_url : Text → Option Url)
    (configured env : Text) (max_upload : ℤ)
    (parts : Text → List ℕ → Bool → Option ℕ → Option Parts) (pools : Pools)
    (read_file : Text → Option (List ℕ)) (client_env : Text) (base : Text → Query)
    (open_file : Text → Option (List ℕ × Bool)) (tls : TlsFlags) (f : BackupFlags) (m : Moment)
    (srv srv' : Server net.World) (g : FileManifest) (content : List ℕ) (filename : Text)
    (client : TlsSettings pools) where
  abbrev pub request : BackupRequest
  request = made net hash_data parse_url configured env max_upload parts (base f.server) f content

  abbrev pub file_entries : List ChunkRef
  file_entries =
      entries hash_data 0 (split (suc (length content)) (limits request.chunk_size) false content)

  -- What the client restores is what it backed up. Where the client resolves the server's token, the
  -- file is read whole and reaches the server as its part, the tables are consistent, the generated
  -- id is a plain name and the command backup ends with a manifest, a restore with its id, with the
  -- tables as they are then and to a file that can be created, leaves exactly the content of the file
  -- there and reports its length, if the nodes that have its chunks send them with their hashes; or
  -- else the hash has two contents that collide.
  pub backup-restore :
      configure_http_client pools read_file client_env tls ≡ some (client, resolve configured env)
      → open_file f.file ≡ some (content, true)
      → open_upload_part (parts f.file content true (ceiling net hash_data max_upload))
        ≡ some (filename, record { bytes = content; faulty = false })
      → Consistent srv.db
      → backup
          (receive net hash_data parse_url (resolve configured env) max_upload parts m)
          pools
          read_file
          client_env
          base
          open_file
          tls
          f
          srv
        ≡ (srv', some g)
      → IsPlain m.id
      → (later : Moment) (w : net.World) (message : List ℕ) (out_path : Text)
      → eqb out_path [] ≡ false
      → All (Served net hash_data (later.clock 0) srv'.db) file_entries
      → (old : Option (List ℕ))
      → let reply =
          (fetch net hash_data parse_url
            (resolve configured env)
            max_upload
            later
            message
            (resolve configured env)
            g.row.id
            (record { db = srv'.db; world = w })).1 in
        (restore pools read_file client_env tls g.row.id out_path true reply old
          ≡ (some content, restored (length content)))
        ⊎ Collision net hash_data
  unfolding backup_request
  backup-restore same_token opened carried consistent done plain later w message out_path out served
        old =
      let answered_upload =
        backup-made net hash_data parse_url configured env max_upload parts m srv pools read_file
          client_env base open_file tls f srv' g content client same_token opened done in
      let own_id =
        (upload-saves net hash_data m.clock m.id max_upload request filename content srv srv' g
          consistent carried answered_upload).0 in
      let server : Server net.World = record { db = srv'.db; world = w } in
      elim (upload-download_whole net hash_data m.clock m.id max_upload request filename content srv
        srv' g consistent carried answered_upload net later.fetch_error w (later.clock 0) served) [
          | inr clash ↦ inr clash
          | inl whole ↦ inl (
              subst Restores (sym own_id) (
                ap (λ r. restore pools read_file client_env tls m.id out_path true r old)
                  (fetch-download net hash_data parse_url configured env max_upload later message
                      m.id server plain
                    ∙ ap (λ d. download_reply message (download d)) whole
                    ∙ framed-whole content)
                ∙ restore-whole pools read_file client_env tls client (resolve configured env) m.id
                    out_path content old same_token plain.filled out))
        ]
    where
      Restores : Text → Type 0
      Restores id =
          restore pools read_file client_env tls id out_path true
            (fetch net hash_data parse_url (resolve configured env) max_upload later message
              (resolve configured env) id (record { db = srv'.db; world = w })).1
            old
          ≡ (some content, restored (length content))
