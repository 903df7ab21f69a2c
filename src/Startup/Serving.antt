-- ===== src/Startup/Serving.antt =====
-- What a server that started serves with (cmd/backup-server/main.go).
use prosiak.Base.{
  ℕ, ℤ, Text, text, List, [], Bool, Bool-cases, true, Option, Option-cases, some, some_eq, ◌≡◌, ◌≢◌,
  inl, inr, refl, subst, arith, eqb, eqb_iff,
}
use prosiak.Auth.{resolve}
use prosiak.Startup.Tls.{TlsServer, TlsClient, listen_and_serve, Pools, http_client}
use prosiak.Startup.ServerMain.{
  ServerConfig, Flags, Running, merged, configured, started, server_main, pick_interval,
}
use prosiak.Startup.Tls.Secured.{Secured, listen_and_serve-Secured}

module _ (parse_duration : Text → Option ℤ) (pools : Pools) (read_file : Text → Option (List ℕ))
    (opens : Text → Bool) (env : Text) where
  -- The server as it serves with some flags.
  pub record Serves (f : Flags) (r : Running) : Type 0 where
    pub token : r.token ≡ resolve f.auth_token env
    pub has_token : r.token ≢ []
    pub opened : opens f.db_path ≡ true
    pub db_path : r.db_path ≡ f.db_path
    pub ceiling : r.max_upload_bytes ≡ f.max_upload_bytes
    pub interval : r.replication_interval ≡ f.replication_interval
    pub secured :
        Secured f.addr (record { cert_file = f.cert_file; key_file = f.key_file }) r.listening

  started-Serves :
      (f : Flags) (r : Running)
      → started parse_duration pools read_file opens env f ≡ some r
      → Serves f r
  unfolding started
  started-Serves f r h = elim (Bool-cases (eqb (resolve f.auth_token env) [])) [
    | inl missing ↦ absurd (ground (arith, rw (missing, started) at h))
    | inr token ↦ elim (Option-cases (http_client pools read_file (client f))) [
      | inl bad ↦ absurd (ground (arith, rw (token, bad, started) at h))
      | inr (c, made) ↦ elim (Bool-cases (opens f.db_path)) [
        | inr closed ↦ absurd (ground (arith, rw (token, made, closed, started) at h))
        | inl opened ↦ elim (Option-cases (listen_and_serve f.addr (tls f))) [
          | inl half ↦ absurd (ground (arith, rw (token, made, opened, half, started) at h))
          | inr (l, listening) ↦
              subst (Serves f) (some_eq (rw (token, made, opened, listening, started) at h))
                (record {
                  token = refl;
                  has_token = λ e.
                      absurd (ground (arith, token, (eqb_iff (resolve f.auth_token env) []).1 e));
                  opened = opened;
                  db_path = refl;
                  ceiling = refl;
                  interval = refl;
                  secured = listen_and_serve-Secured f.addr (tls f) l listening;
                })
        ]
      ]
    ]
  ]
    where
      client : Flags → TlsClient
      client f = record {
        ca_cert_file = f.ca_cert_file;
        insecure_skip_verify = f.insecure_skip_verify;
      }

      tls : Flags → TlsServer
      tls f = record { cert_file = f.cert_file; key_file = f.key_file }

  -- A server that starts serves with the flags that are left after its configuration file: only with a
  -- token, which is not empty, with the database at its path, the bound on uploads and the interval of
  -- the scheduler, in plaintext where neither a certificate nor a key is named and under HTTPS where
  -- both are. Where one of the two is named alone it does not start.
  pub server_main-Serves :
      (overrides : Text → Bool) (found : Option (Option ServerConfig)) (f : Flags) (r : Running)
      → server_main parse_duration pools read_file opens env overrides found f ≡ some r
      → (g : Flags) × (configured parse_duration overrides found f ≡ some g) × Serves g r
  unfolding server_main
  server_main-Serves overrides found f r h =
      elim (Option-cases (configured parse_duration overrides found f)) [
        | inl bad ↦ absurd (ground (arith, rw (bad, server_main) at h))
        | inr (g, e) ↦ (g, e, started-Serves g r (rw (e, server_main) at h))
      ]

-- A flag that was given on the command line is not replaced: where all of them were, the configuration
-- file changes nothing, whatever is in it.
merged-overridden :
    (parse_duration : Text → Option ℤ) (overrides : Text → Bool) (cfg : ServerConfig) (f : Flags)
    → ((name : Text) → overrides name ≡ true)
    → merged parse_duration overrides cfg f ≡ some f
unfolding merged pick_interval
merged-overridden parse_duration overrides cfg f h = ground (
  arith,
  h (text "replication-interval"),
  h (text "addr"),
  h (text "db"),
  h (text "auth-token"),
  h (text "max-upload-bytes"),
  h (text "cert-file"),
  h (text "key-file"),
  h (text "ca-cert-file"),
  h (text "insecure-skip-verify"),
)
