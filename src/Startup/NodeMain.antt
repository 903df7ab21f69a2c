-- ===== src/Startup/NodeMain.antt =====
-- The start of a node (cmd/backup-node/main.go): main, with the flags and the configuration file parsed.
use prosiak.Base.{ℕ, ℤ, Text, text, List, [], Bool, ◌&&◌, Option, none, some, if◌then◌else◌, eqb}
use prosiak.Auth.{resolve}
use prosiak.Store.{Store, Stored, Aead, new, clear, nothing, ClearFault}
use prosiak.Store
use prosiak.NodeServer.{parse_storage_key}
use prosiak.Startup.{pick_text, pick_bool}
use prosiak.Startup.Tls.{Listening, listen_and_serve, Pools, http_client}
use prosiak.Startup.Capacity.{Floats, parse_capacity}

-- nodeConfig
pub record NodeConfig : Type 0 where
  pub id : Text
  pub addr : Text
  pub public_addr : Text
  pub server : Text
  pub storage : Text
  pub capacity : Text
  pub wipe_storage : Bool
  pub auth_token : Text
  pub storage_key : Text
  pub cert_file : Text
  pub key_file : Text
  pub ca_cert_file : Text
  pub insecure_skip_verify : Bool

-- The configuration file replaces the flags that were not given; the flags have the same fields.
unfoldable pub merged_node : (Text → Bool) → NodeConfig → NodeConfig → NodeConfig
merged_node overrides cfg f = record {
  id = pick_text (overrides (text "id")) cfg.id f.id;
  addr = pick_text (overrides (text "addr")) cfg.addr f.addr;
  public_addr = pick_text (overrides (text "public-addr")) cfg.public_addr f.public_addr;
  server = pick_text (overrides (text "server")) cfg.server f.server;
  storage = pick_text (overrides (text "storage")) cfg.storage f.storage;
  capacity = pick_text (overrides (text "capacity")) cfg.capacity f.capacity;
  wipe_storage = pick_bool (overrides (text "wipe-storage")) cfg.wipe_storage f.wipe_storage;
  auth_token = pick_text (overrides (text "auth-token")) cfg.auth_token f.auth_token;
  storage_key = pick_text (overrides (text "storage-key")) cfg.storage_key f.storage_key;
  cert_file = pick_text (overrides (text "cert-file")) cfg.cert_file f.cert_file;
  key_file = pick_text (overrides (text "key-file")) cfg.key_file f.key_file;
  ca_cert_file = pick_text (overrides (text "ca-cert-file")) cfg.ca_cert_file f.ca_cert_file;
  insecure_skip_verify =
      pick_bool (overrides (text "insecure-skip-verify")) cfg.insecure_skip_verify
        f.insecure_skip_verify;
}

-- What the node runs with.
pub record NodeRunning : Type 0 where
  pub listening : Listening
  pub token : Text
  pub id : Text
  pub public_addr : Text
  pub server : Text
  pub capacity : ℤ
  pub store : Store

pub data NodeOutcome : Type 0 where
  -- log.Fatal
  fatal : NodeOutcome
  -- The storage was cleared: the store, and the counts of files and bytes.
  cleared : Store → ℕ → ℕ → NodeOutcome
  serving : NodeRunning → NodeOutcome

-- The public requests of the node.
unfoldable pub node_public_path : Text → Text → Bool
node_public_path method path = eqb method (text "GET") && eqb path (text "/health")

-- The parameters: the floats, the pools, the files to read, base64, the cipher of a key, what is
-- found in a storage directory with the failure of clearing it, and the two variables of the
-- environment.
module _ (floats : Floats) (pools : Pools) (read_file : Text → Option (List ℕ))
    (base64 : Text → Option (List ℕ)) (cipher : List ℕ → Aead) (found : Text → List Stored)
    (clear_fault : ClearFault) (token_env key_env : Text) where
  -- After the store is open.
  unfoldable pub run_node : NodeConfig → ℤ → Store → NodeOutcome
  unfolding resolve listen_and_serve clear
  run_node f capacity s =
      let token = resolve f.auth_token token_env in
      if f.wipe_storage
      then (let (s', r) = clear f.storage clear_fault s in
          elim r [ Store.err e ↦ fatal | Store.ok (files, bytes) ↦ cleared s' files bytes ])
      else if eqb token []
      then fatal
      else elim (listen_and_serve f.addr
          (record { cert_file = f.cert_file; key_file = f.key_file })) [
            | none ↦ fatal
            | some l ↦ serving (record {
              listening = l;
              token = token;
              id = f.id;
              public_addr = f.public_addr;
              server = f.server;
              capacity = capacity;
              store = s;
            })
          ]

  -- The node from its flags on. A failed registration is only logged.
  unfoldable pub started_node : NodeConfig → NodeOutcome
  unfolding run_node http_client parse_capacity parse_storage_key new
  started_node f =
      elim (http_client pools read_file
        (record { ca_cert_file = f.ca_cert_file; insecure_skip_verify = f.insecure_skip_verify })) [
          | none ↦ fatal
          | some client ↦ elim (parse_capacity floats f.capacity) [
            | none ↦ fatal
            | some capacity ↦ elim (parse_storage_key base64 f.storage_key key_env) [
              | none ↦ fatal
              | some key ↦ elim (new cipher key (found f.storage)) [
                | Store.err e ↦ fatal
                | Store.ok s ↦ run_node f capacity s
              ]
            ]
          ]
        ]

  -- main; `config` is the configuration file where one is named, `none` in it a file that cannot be
  -- read.
  unfoldable pub node_main : (Text → Bool) → Option (Option NodeConfig) → NodeConfig → NodeOutcome
  unfolding started_node merged_node
  node_main overrides none f = started_node f
  node_main overrides (some none) f = fatal
  node_main overrides (some (some cfg)) f = started_node (merged_node overrides cfg f)
