-- ===== src/Client/Backups.antt =====
-- The commands that back up and list (cmd/backupctl/main.go: main, backup, backupConfiguredJob,
-- uploadToServer, listBackups), with the flags parsed. What reaches the server and what answers is a
-- parameter, and so are the files that are read; the display of progress passes the bytes on.
use prosiak.Base.{
  ℕ, ℤ, Text, text, List, [], ◌∷◌, ◌++◌, Bool, Option, none, some, leb, eqb, if◌then◌else◌, map,
}
use prosiak.Protocol.{FileRow, FileManifest}
use prosiak.Auth.{HttpRequest, round_trip}
use prosiak.Startup.Tls.{Pools}
use prosiak.Handlers.Query.{Query}
use prosiak.Client.Jobs.{Job, ClientConfig, ok, err, configured_job, BackupFlags, check_flags}
use prosiak.Client.Upload.{upload_query}
use prosiak.Client.Archive.{TarEntry}
use prosiak.Client.Commands.{TlsFlags, override_tls, configure_http_client}

pub data Command : Type 0 where
  backup_file backup_job list_files restore_file restore_job usage : Command

abbrev named : Text → Command
named s =
    if eqb s (text "backup")
    then backup_file
    else if eqb s (text "backup-job")
    then backup_job
    else if eqb s (text "list")
    then list_files
    else if eqb s (text "restore")
    then restore_file
    else if eqb s (text "restore-job")
    then restore_job
    else usage

-- The switch of main over the arguments, the name of the program first.
unfoldable pub command : List Text → Command
command [] = usage
command (program ∷ []) = usage
command (program ∷ name ∷ rest) = named name

-- The request of uploadToServer. Its body has one part, with a name and what a reader gives; a reader
-- that fails closes the body with its error.
pub record UploadRequest : Type 0 where
  pub head : HttpRequest
  pub query : Query
  pub file_name : Text
  pub content : List ℕ
  pub whole : Bool

-- A status with what encoding/json makes of the body.
pub data Reply {ℓ} (A : Type ℓ) : Type ℓ where
  unreachable : Reply A
  replied : ℕ → Option A → Reply A

abbrev pub decoded {ℓ} : {A : Type ℓ} → Reply A → Option A
decoded unreachable = none
decoded (replied status body) = if leb 300 status then none else body

-- The request for a path, by a client with a token.
abbrev pub request_for : Text → Text → Text → HttpRequest
request_for token method path =
    round_trip token (record { method = method; path = path; authorization = [] })

module _ {W : Type 0} (send : UploadRequest → W → W × Reply FileManifest) where
  -- uploadToServer, with the query of the server's address: `none` for an error.
  unfoldable pub upload_to_server :
      Text → Query → Text → List ℕ × Bool → Text → ℤ → ℤ → ℤ → W → W × Option FileManifest
  unfolding upload_query round_trip
  upload_to_server token base file_name (content, whole) backup_name retention chunk_size
        replication w =
      let (w', reply) =
        send
          (record {
            head = request_for token (text "POST") (text "/backups");
            query = upload_query backup_name retention chunk_size replication base;
            file_name = file_name;
            content = content;
            whole = whole;
          })
          w in
      (w', decoded reply)

  module _ (pools : Pools) (read_file : Text → Option (List ℕ)) (env : Text)
      (base : Text → Query) where
    -- backup, with os.Open and the reading of the file: `none` for an error.
    unfoldable pub backup :
        (Text → Option (List ℕ × Bool)) → TlsFlags → BackupFlags → W → W × Option FileManifest
    unfolding configure_http_client check_flags upload_to_server
    backup open_file tls f w = elim (configure_http_client pools read_file env tls) [
      | none ↦ (w, none)
      | some (client, token) ↦ elim (check_flags f) [
        | some e ↦ (w, none)
        | none ↦ elim (open_file f.file) [
          | none ↦ (w, none)
          | some content ↦
              upload_to_server token (base f.server) f.file content f.name f.retention f.chunk_size
                f.replication w
        ]
      ]
    ]

    abbrev server_url : ClientConfig → Text
    server_url cfg = if eqb cfg.server [] then text "http://localhost:8080" else cfg.server

    -- backupConfiguredJob, with the configuration as readClientConfig gives it. `archive` is what
    -- package archive/tar writes of the entries of writeTarJob, which breaks off at an error.
    unfoldable pub backup_configured_job :
        (ℕ → ℕ)
        → (Job → Option (List TarEntry))
        → (Option (List TarEntry) → List ℕ × Bool)
        → Option ClientConfig
        → Text
        → TlsFlags
        → W
        → W × Option FileManifest
    unfolding configured_job override_tls configure_http_client upload_to_server
    backup_configured_job fold write_tar_job archive none name tls w = (w, none)
    backup_configured_job fold write_tar_job archive (some cfg) name tls w =
        elim (configured_job fold cfg name) [
          | err e ↦ (w, none)
          | ok job ↦ elim (configure_http_client pools read_file env (override_tls cfg tls)) [
            | none ↦ (w, none)
            | some (client, token) ↦
                upload_to_server token (base (server_url cfg)) (job.name ++ text ".tar")
                  (archive (write_tar_job job)) job.name job.retention job.chunk_size
                  job.replication w
          ]
        ]

-- What a list of backups shows: the columns of the table are fields of the rows, and the
-- ratio of two of them.
pub data Listing : Type 0 where
  failed no_backups : Listing
  shown : List FileRow → Listing

abbrev show : Option (List FileManifest) → Listing
show none = failed
show (some []) = no_backups
show (some (f ∷ fs)) = shown (map (λ (g : FileManifest). g.row) (f ∷ fs))

-- listBackups, over what answers GET /files.
unfoldable pub list_backups :
    {W : Type 0}
    → (HttpRequest → W → W × Reply (List FileManifest))
    → (pools : Pools) → (Text → Option (List ℕ))
    → Text
    → TlsFlags
    → W
    → W × Listing
unfolding configure_http_client round_trip
list_backups send pools read_file env tls w = elim (configure_http_client pools read_file env tls) [
  | none ↦ (w, failed)
  | some (client, token) ↦
      let (w', reply) = send (request_for token (text "GET") (text "/files")) w in
      (w', show (decoded reply))
]
