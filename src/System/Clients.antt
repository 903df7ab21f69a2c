-- ===== src/System/Clients.antt =====
-- The client at the server (cmd/backupctl/main.go, internal/server/handlers.go): what the server
-- answers to the requests of the commands backup and restore. The address of the server has no path.
pub mod Routed
pub mod Uploaded
pub mod Restored
pub mod Misled
use prosiak.Base.{
  ℕ, ℤ, pos, Text, text, List, [], ◌++◌, Bool, true, Option, none, some, ltb_ℤ, eqb_ℤ, ◌||◌, length,
}
use prosiak.Protocol.{FileManifest}
use prosiak.Network.{Network}
use prosiak.Handlers.{Server}
use prosiak.Handlers.Nodes.{Url}
use prosiak.Handlers.Backup.{Parts}
use prosiak.Handlers.Download.{refused, answered}
use prosiak.Handlers.Serve.{
  Body, Incoming, Moment, manifest, Sent, page, redirect, error, answer, download, serve,
}
use prosiak.Client.Backups.{UploadRequest, Reply, replied, request_for}
use prosiak.Client.Commands as Commands

-- The body of an upload; `parts` is what package mime/multipart reads of what it wrote.
abbrev pub upload_body : (Text → List ℕ → Bool → Option ℕ → Option Parts) → UploadRequest → Body
upload_body parts u = record {
  registration = none;
  plan = none;
  confirmation = none;
  creation = none;
  replication = none;
  parts = parts u.file_name u.content u.whole;
}

abbrev pub empty_body : Body
empty_body = record {
  registration = none;
  plan = none;
  confirmation = none;
  creation = none;
  replication = none;
  parts = λ ceiling. none;
}

-- An answer as a client reads it that waits for a manifest.
abbrev pub manifest_reply : Sent → Reply FileManifest
manifest_reply (answer status (manifest f)) = replied status (some f)
manifest_reply (answer status _) = replied status none
manifest_reply (error status) = replied status none
manifest_reply (page path) = replied 200 none
manifest_reply (redirect path) = replied 301 none
manifest_reply (download d) = replied 200 none

-- A body is whole where it has the length that was announced.
abbrev pub framed : ℤ → List ℕ → Commands.Reply
framed size body = Commands.reply 200 body (ltb_ℤ size (pos 0) || eqb_ℤ size (pos (length body)))

-- An answer as a client reads it that waits for a backup; `message` is the body of any other answer.
abbrev pub download_reply : List ℕ → Sent → Commands.Reply
download_reply message (download (refused status)) = Commands.reply status message true
download_reply message (download (answered size bytes ending)) = framed size bytes
download_reply message (error status) = Commands.reply status message true
download_reply message (answer status content) = Commands.reply status message true
download_reply message (page path) = Commands.reply 200 message true
download_reply message (redirect path) = Commands.reply 301 message true

module _ (net : Network) (hash_data : List ℕ → Text) (parse_url : Text → Option Url) (token : Text)
    (max_upload : ℤ) where
  open net use {World}

  -- The server as the client's uploads meet it.
  unfoldable pub receive :
      (Text → List ℕ → Bool → Option ℕ → Option Parts)
      → Moment
      → UploadRequest
      → Server World
      → Server World × Reply FileManifest
  unfolding serve
  receive parts m u srv =
      let (srv', s) =
        serve net hash_data parse_url token max_upload m
          (record { head = u.head; query = u.query; body = upload_body parts u }) srv in
      (srv', manifest_reply s)

  -- The request of restore, with the client's token.
  abbrev pub download_request : Text → Text → Incoming
  download_request client_token id = record {
    head = request_for client_token (text "GET") (text "/files/" ++ (id ++ text "/download"));
    query = [];
    body = empty_body;
  }

  unfoldable pub fetch :
      Moment → List ℕ → Text → Text → Server World → Server World × Commands.Reply
  unfolding serve
  fetch m message client_token id srv =
      let (srv', s) =
        serve net hash_data parse_url token max_upload m (download_request client_token id) srv in
      (srv', download_reply message s)
