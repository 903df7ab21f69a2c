-- ===== src/Startup/Tls.antt =====
-- TLS for listening and for requests (internal/tlsconfig/tlsconfig.go).
pub mod Secured
use prosiak.Base.{ℕ, Text, List, [], Bool, not, ◌&&◌, ◌||◌, Option, none, some, if◌then◌else◌, eqb}

-- ServerConfig
pub record TlsServer : Type 0 where
  pub cert_file : Text
  pub key_file : Text

-- ClientConfig
pub record TlsClient : Type 0 where
  pub ca_cert_file : Text
  pub insecure_skip_verify : Bool

-- What is listened on, at an address.
pub data Listening : Type 0 where
  plaintext : Text → Listening
  https : Text → Text → Text → Listening

-- ListenAndServe; `none` for a certificate without its key, or a key without its certificate.
unfoldable pub listen_and_serve : Text → TlsServer → Option Listening
listen_and_serve addr cfg =
    if eqb cfg.cert_file [] && eqb cfg.key_file []
    then some (plaintext addr)
    else if eqb cfg.cert_file [] || eqb cfg.key_file []
    then none
    else some (https addr cfg.cert_file cfg.key_file)

-- The pools of package crypto/x509: that of the system, if it can be had, an empty one, and
-- AppendCertsFromPEM, `none` where it finds no certificate.
pub record Pools : Type 1 where
  pub Pool : Type 0
  pub system : Option Pool
  pub empty : Pool
  pub append_certs : Pool → List ℕ → Option Pool

module _ (pools : Pools) where
  open pools use {Pool, system, empty, append_certs}

  -- A client without settings for TLS, or with them: whether the server's certificate is not
  -- verified, and the pool that it is verified with.
  pub data TlsSettings : Type 0 where
    defaults : TlsSettings
    settings : Bool → Option Pool → TlsSettings

  abbrev system_pool : Pool
  system_pool = elim system [ none ↦ empty | some pool ↦ pool ]

  -- HTTPClient; `none` for an error.
  unfoldable pub http_client : (Text → Option (List ℕ)) → TlsClient → Option TlsSettings
  http_client read_file cfg =
      if eqb cfg.ca_cert_file [] && not cfg.insecure_skip_verify
      then some defaults
      else if not (eqb cfg.ca_cert_file [])
      then elim (read_file cfg.ca_cert_file) [
        | none ↦ none
        | some data_ ↦ elim (append_certs system_pool data_) [
          | none ↦ none
          | some pool ↦ some (settings cfg.insecure_skip_verify (some pool))
        ]
      ]
      else some (settings cfg.insecure_skip_verify none)
