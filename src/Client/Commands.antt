-- ===== src/Client/Commands.antt =====
-- The commands that restore, and the client's settings for requests (cmd/backupctl/main.go:
-- configureHTTPClient, backupConfiguredJob, restore, restoreConfiguredJob), with the flags parsed.
pub mod Restored
use prosiak.Base.{
  ℕ, Text, List, [], Bool, true, false, not, ◌||◌, Option, none, some, leb, if◌then◌else◌, eqb,
  length,
}
use prosiak.Auth.{resolve}
use prosiak.Startup.Tls.{TlsClient, Pools, TlsSettings, http_client}
use prosiak.Client.Jobs.{ClientConfig}
use prosiak.Client.Restore.{Archive, FileSystem, extract_tar}

-- addTLSFlags
pub record TlsFlags : Type 0 where
  pub ca_cert_file : Text
  pub insecure_skip_verify : Bool
  pub auth_token : Text

-- What backupConfiguredJob takes from the configuration where a flag is not set.
unfoldable pub override_tls : ClientConfig → TlsFlags → TlsFlags
override_tls cfg f = record {
  ca_cert_file = if not (eqb f.ca_cert_file []) then f.ca_cert_file else cfg.ca_cert_file;
  insecure_skip_verify = if f.insecure_skip_verify then true else cfg.insecure_skip_verify;
  auth_token = if not (eqb f.auth_token []) then f.auth_token else cfg.auth_token;
}

-- The reply to a download: its status, its body as far as it comes, and whether it comes whole.
pub data Reply : Type 0 where
  unreachable : Reply
  reply : ℕ → List ℕ → Bool → Reply

pub data Ending : Type 0 where
  failed : Ending
  restored : ℕ → Ending

module _ (pools : Pools) (read_file : Text → Option (List ℕ)) (env : Text) where
  -- configureHTTPClient: the settings of the client with its token; `none` for an error.
  unfoldable pub configure_http_client : TlsFlags → Option (TlsSettings pools × Text)
  unfolding resolve http_client
  configure_http_client f =
      let token = resolve f.auth_token env in
      let tls : TlsClient = record {
        ca_cert_file = f.ca_cert_file;
        insecure_skip_verify = f.insecure_skip_verify;
      } in
      if eqb token [] then none else elim (http_client pools read_file tls) [
        | none ↦ none
        | some tls_settings ↦ some (tls_settings, token)
      ]

  abbrev pub written : Reply → Option (List ℕ) × Ending
  written unreachable = (some [], failed)
  written (reply status body whole) =
      if leb 300 status
      then (some [], failed)
      else (some body, if whole then restored (length body) else failed)

  -- restore: what is at the output path after it, from what was there, and how it ends. `creates`
  -- tells whether the file can be created; writing to it succeeds.
  unfoldable pub restore :
      TlsFlags → Text → Text → Bool → Reply → Option (List ℕ) → Option (List ℕ) × Ending
  unfolding configure_http_client
  restore f file_id out_path creates r old = elim (configure_http_client f) [
    | none ↦ (old, failed)
    | some client ↦
        if eqb file_id [] || eqb out_path []
        then (old, failed)
        else if not creates
        then (old, failed)
        else written r
  ]

  module _ (fs : FileSystem) (read_tar : List ℕ → Bool → Archive) (cwd : Text) where
    open fs use {World}

    abbrev extracted : Text → Reply → World → World × Bool
    extracted out_path unreachable w = (w, false)
    extracted out_path (reply status body whole) w =
        if leb 300 status then (w, false) else extract_tar fs cwd (read_tar body whole) out_path w

    -- restoreConfiguredJob, with the reader of package archive/tar.
    unfoldable pub restore_job : TlsFlags → Text → Text → Reply → World → World × Bool
    unfolding configure_http_client extract_tar
    restore_job f file_id out_path r w = elim (configure_http_client f) [
      | none ↦ (w, false)
      | some client ↦
          if eqb file_id [] || eqb out_path [] then (w, false) else extracted out_path r w
    ]
