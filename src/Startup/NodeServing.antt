-- ===== src/Startup/NodeServing.antt =====
-- What a node that started serves with (cmd/backup-node/main.go).
use prosiak.Base.{
  ℕ, ℤ, Text, List, [], ◌∷◌, Bool, Bool-cases, true, false, Option, Option-cases, none, some, ◌≡◌,
  ◌≢◌, inl, inr, refl, ap, sym, subst, ◌∙◌, arith, eqb, eqb_iff, length,
}
use prosiak.Auth.{resolve}
use prosiak.Store.{Store, Stored, Aead, new, clear, nothing, ClearFault}
use prosiak.Store
use prosiak.Startup.Tls.{TlsServer, TlsClient, listen_and_serve, Pools, http_client}
use prosiak.Startup.Capacity.{Floats, parse_capacity}
use prosiak.Startup.NodeMain.{
  NodeConfig, NodeOutcome, fatal, cleared, serving, run_node, started_node, merged_node, node_main,
}
use prosiak.NodeServer.{parse_storage_key}
use prosiak.Startup.Tls.Secured.{Secured, listen_and_serve-Secured}

module _ (floats : Floats) (pools : Pools) (read_file : Text → Option (List ℕ))
    (base64 : Text → Option (List ℕ)) (cipher : List ℕ → Aead) (found : Text → List Stored)
    (clear_fault : ClearFault) (token_env key_env : Text) where
  -- What the outcome of a node with some flags promises.
  unfoldable pub NodeLawful : NodeConfig → NodeOutcome → Type 0
  NodeLawful f fatal = Unit {0}
  NodeLawful f (cleared s files bytes) =
      (f.wipe_storage ≡ true) × (s.files ≡ []) × (files ≡ length (found f.storage))
  NodeLawful f (serving r) =
      (f.wipe_storage ≡ false)
      × (r.token ≢ [])
      × (r.store.files ≡ found f.storage)
      × (parse_capacity floats f.capacity ≡ some r.capacity)
      × Secured f.addr (record { cert_file = f.cert_file; key_file = f.key_file }) r.listening

  clear-counts :
      (root : Text) (fault : ClearFault) (s : Store) (files bytes : ℕ)
      → (clear root fault s).1 ≡ Store.ok (files, bytes)
      → ((clear root fault s).0.files ≡ []) × (files ≡ length s.files)
  unfolding clear
  clear-counts root nothing s files bytes h = ground (arith, h)
  clear-counts root (Store.remains left) s files bytes h = absurd (ground (arith, h))
  clear-counts root Store.no_root s files bytes h = absurd (ground (arith, h))

  -- The outcome of clearing the storage.
  abbrev wiped : Store × Store.Result (ℕ × ℕ) → NodeOutcome
  wiped p = elim p.1 [ Store.err e ↦ fatal | Store.ok (files, bytes) ↦ cleared p.0 files bytes ]

  wiped-NodeLawful :
      (f : NodeConfig) (p : Store × Store.Result (ℕ × ℕ))
      → f.wipe_storage ≡ true
      → ((files bytes : ℕ)
          → p.1 ≡ Store.ok (files, bytes)
          → (p.0.files ≡ []) × (files ≡ length (found f.storage)))
      → NodeLawful f (wiped p)
  unfolding NodeLawful
  wiped-NodeLawful f (s, Store.ok (files, bytes)) wipe h =
      let (empty, counted) = h files bytes refl in (wipe, empty, counted)
  wiped-NodeLawful f (s, Store.err e) wipe h = tt

  run_node-NodeLawful :
      (f : NodeConfig) (capacity : ℤ) (s : Store)
      → s.files ≡ found f.storage
      → parse_capacity floats f.capacity ≡ some capacity
      → NodeLawful f (
          run_node floats pools read_file base64 cipher found clear_fault token_env key_env f
            capacity s)
  unfolding run_node NodeLawful
  run_node-NodeLawful f capacity s files parsed = elim (Bool-cases f.wipe_storage) [
    | inl wipe ↦ into (wiped (clear f.storage clear_fault s)) (rw (wipe, run_node) refl) (
        wiped-NodeLawful f (clear f.storage clear_fault s) wipe (λ a b h.
          let (empty, counted) = clear-counts f.storage clear_fault s a b h in
          (empty, counted ∙ ap length files)))
    | inr keep ↦ elim (Bool-cases (eqb (resolve f.auth_token token_env) [])) [
      | inl missing ↦ into fatal (rw (keep, missing, run_node) refl) tt
      | inr token ↦ elim (Option-cases (listen_and_serve f.addr (tls f))) [
        | inl half ↦ into fatal (rw (keep, token, half, run_node) refl) tt
        | inr (l, listening) ↦
            into
              (serving (record {
                listening = l;
                token = resolve f.auth_token token_env;
                id = f.id;
                public_addr = f.public_addr;
                server = f.server;
                capacity = capacity;
                store = s;
              }))
              (rw (keep, token, listening, run_node) refl)
              (
                keep,
                (λ e.
                    absurd
                      (ground (arith, token, (eqb_iff (resolve f.auth_token token_env) []).1 e))),
                files,
                parsed,
                listen_and_serve-Secured f.addr (tls f) l listening,
              )
      ]
    ]
  ]
    where
      tls : NodeConfig → TlsServer
      tls f = record { cert_file = f.cert_file; key_file = f.key_file }

      outcome : NodeOutcome
      outcome =
          run_node floats pools read_file base64 cipher found clear_fault token_env key_env f
            capacity s

      into : (o : NodeOutcome) → outcome ≡ o → NodeLawful f o → NodeLawful f outcome
      into o e h = subst (NodeLawful f) (sym e) h

  new-found :
      (key : List ℕ) (on_disk : List Stored) (s : Store)
      → new cipher key on_disk ≡ Store.ok s
      → s.files ≡ on_disk
  unfolding new
  new-found [] on_disk s h = ground (arith, h)
  new-found (k ∷ key) on_disk s h = ground (arith, h)

  started_node-NodeLawful :
      (f : NodeConfig)
      → NodeLawful f
          (started_node floats pools read_file base64 cipher found clear_fault token_env key_env f)
  unfolding started_node NodeLawful
  started_node-NodeLawful f = elim (Option-cases (http_client pools read_file client)) [
    | inl bad ↦ into fatal (rw (bad, started_node) refl) tt
    | inr (c, made) ↦ elim (Option-cases (parse_capacity floats f.capacity)) [
      | inl bad ↦ into fatal (rw (made, bad, started_node) refl) tt
      | inr (capacity, parsed) ↦
          elim (Option-cases (parse_storage_key base64 f.storage_key key_env)) [
            | inl bad ↦ into fatal (rw (made, parsed, bad, started_node) refl) tt
            | inr (key, keyed) ↦
                into (opened capacity (new cipher key (found f.storage)))
                  (rw (made, parsed, keyed, started_node) refl)
                  (opened-NodeLawful capacity parsed (new cipher key (found f.storage))
                    (λ s e. new-found key (found f.storage) s e))
          ]
    ]
  ]
    where
      client : TlsClient
      client = record {
        ca_cert_file = f.ca_cert_file;
        insecure_skip_verify = f.insecure_skip_verify;
      }

      outcome : NodeOutcome
      outcome =
          started_node floats pools read_file base64 cipher found clear_fault token_env key_env f

      into : (o : NodeOutcome) → outcome ≡ o → NodeLawful f o → NodeLawful f outcome
      into o e h = subst (NodeLawful f) (sym e) h

      opened : ℤ → Store.Result Store → NodeOutcome
      opened capacity r = elim r [
        | Store.err e ↦ fatal
        | Store.ok s ↦
            run_node floats pools read_file base64 cipher found clear_fault token_env key_env f
              capacity s
      ]

      opened-NodeLawful :
          (capacity : ℤ)
          → parse_capacity floats f.capacity ≡ some capacity
          → (r : Store.Result Store) → ((s : Store) → r ≡ Store.ok s → s.files ≡ found f.storage)
          → NodeLawful f (opened capacity r)
      opened-NodeLawful capacity parsed (Store.ok s) h =
          run_node-NodeLawful f capacity s (h s refl) parsed
      opened-NodeLawful capacity parsed (Store.err e) h = tt

  -- The flags that are left after the configuration file.
  abbrev pub left : (Text → Bool) → Option (Option NodeConfig) → NodeConfig → NodeConfig
  left overrides none f = f
  left overrides (some none) f = f
  left overrides (some (some cfg)) f = merged_node overrides cfg f

  -- A node ends its start in one of three ways, by the flags that are left after its configuration
  -- file. It may stop with an error. It clears its storage only where that was asked for: no file is
  -- left then, and the files that were there are counted. It serves only where that was not asked for:
  -- with a token that is not empty, the chunks that are on its disk, the capacity that it parsed, and
  -- in plaintext where neither a certificate nor a key is named, under HTTPS where both are.
  pub node_main-NodeLawful :
      (overrides : Text → Bool) (config : Option (Option NodeConfig)) (f : NodeConfig)
      → NodeLawful (left overrides config f) (
          node_main floats pools read_file base64 cipher found clear_fault token_env key_env
            overrides config f)
  unfolding node_main NodeLawful
  node_main-NodeLawful overrides none f = started_node-NodeLawful f
  node_main-NodeLawful overrides (some none) f = tt
  node_main-NodeLawful overrides (some (some cfg)) f =
      started_node-NodeLawful (merged_node overrides cfg f)
