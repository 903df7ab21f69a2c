-- ===== src/Startup/ServerMain.antt =====
-- The start of the server (cmd/backup-server/main.go): main, with the flags and the configuration file
-- parsed.
use prosiak.Base.{
  ℕ, ℤ, Text, text, List, [], Bool, not, ◌&&◌, Option, none, some, if◌then◌else◌, eqb,
}
use prosiak.Auth.{resolve}
use prosiak.Startup.{pick_text, pick_int, pick_bool}
use prosiak.Startup.Tls.{Listening, listen_and_serve, Pools, http_client}

-- serverConfig
pub record ServerConfig : Type 0 where
  pub addr : Text
  pub db : Text
  pub replication_interval : Text
  pub auth_token : Text
  pub max_upload_bytes : ℤ
  pub cert_file : Text
  pub key_file : Text
  pub ca_cert_file : Text
  pub insecure_skip_verify : Bool

-- The flags; the interval is in nanoseconds.
pub record Flags : Type 0 where
  pub addr : Text
  pub db_path : Text
  pub replication_interval : ℤ
  pub auth_token : Text
  pub max_upload_bytes : ℤ
  pub cert_file : Text
  pub key_file : Text
  pub ca_cert_file : Text
  pub insecure_skip_verify : Bool

-- What the server runs with.
pub record Running : Type 1 where
  pub listening : Listening
  pub token : Text
  pub max_upload_bytes : ℤ
  pub db_path : Text
  pub replication_interval : ℤ

module _ (parse_duration : Text → Option ℤ) where
  -- The interval; `none` where the configured one does not parse.
  unfoldable pub pick_interval : Bool → Text → ℤ → Option ℤ
  pick_interval overridden configured flag =
      if not (eqb configured []) && not overridden then parse_duration configured else some flag

  -- The flags after the configuration file.
  unfoldable pub merged : (Text → Bool) → ServerConfig → Flags → Option Flags
  unfolding pick_interval
  merged overrides cfg f =
      elim (pick_interval (overrides (text "replication-interval")) cfg.replication_interval
        f.replication_interval) [
          | none ↦ none
          | some interval ↦ some (record {
            addr = pick_text (overrides (text "addr")) cfg.addr f.addr;
            db_path = pick_text (overrides (text "db")) cfg.db f.db_path;
            replication_interval = interval;
            auth_token = pick_text (overrides (text "auth-token")) cfg.auth_token f.auth_token;
            max_upload_bytes =
                pick_int (overrides (text "max-upload-bytes")) cfg.max_upload_bytes
                  f.max_upload_bytes;
            cert_file = pick_text (overrides (text "cert-file")) cfg.cert_file f.cert_file;
            key_file = pick_text (overrides (text "key-file")) cfg.key_file f.key_file;
            ca_cert_file =
                pick_text (overrides (text "ca-cert-file")) cfg.ca_cert_file f.ca_cert_file;
            insecure_skip_verify =
                pick_bool (overrides (text "insecure-skip-verify")) cfg.insecure_skip_verify
                  f.insecure_skip_verify;
          })
        ]

  -- Without a configuration file the flags stay; `found` is what readServerConfig gives.
  unfoldable pub configured : (Text → Bool) → Option (Option ServerConfig) → Flags → Option Flags
  unfolding merged
  configured overrides none f = some f
  configured overrides (some none) f = none
  configured overrides (some (some cfg)) f = merged overrides cfg f

  module _ (pools : Pools) (read_file : Text → Option (List ℕ)) (opens : Text → Bool)
      (env : Text) where
    -- The server from its flags on: `none` where it ends in log.Fatal. `opens` tells whether the
    -- database at a path can be opened.
    unfoldable pub started : Flags → Option Running
    unfolding resolve http_client listen_and_serve
    started f =
        let token = resolve f.auth_token env in
        let client = http_client pools read_file (record {
          ca_cert_file = f.ca_cert_file;
          insecure_skip_verify = f.insecure_skip_verify;
        }) in
        if eqb token [] then none else elim client [
          | none ↦ none
          | some c ↦
              if not (opens f.db_path)
              then none
              else elim (listen_and_serve f.addr
                  (record { cert_file = f.cert_file; key_file = f.key_file })) [
                    | none ↦ none
                    | some l ↦ some (record {
                      listening = l;
                      token = token;
                      max_upload_bytes = f.max_upload_bytes;
                      db_path = f.db_path;
                      replication_interval = f.replication_interval;
                    })
                  ]
        ]

    -- main
    unfoldable pub server_main :
        (Text → Bool) → Option (Option ServerConfig) → Flags → Option Running
    unfolding configured started
    server_main overrides found f = elim (configured overrides found f) [
      | none ↦ none
      | some merged_flags ↦ started merged_flags
    ]
