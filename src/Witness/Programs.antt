-- ===== src/Witness/Programs.antt =====
-- The theorems about the start of the programs that have conditions, each at an input that meets them.
use prosiak.Base.{
  ℕ, ◌*◌, ℤ, pos, Text, text, [], ◌++◌, true, false, Option, none, some, ◌≡◌, refl, ◌==◌, eqb,
  length, All, trim_space,
}
use prosiak.Store.{nothing}
use prosiak.Startup.Tls.{Pools, plaintext}
use prosiak.Startup.ServerMain.{ServerConfig, Flags, Running, configured, server_main}
use prosiak.Startup.Serving.{Serves, server_main-Serves}
use prosiak.Startup.Capacity.{Floats, units, split_unit}
use prosiak.Startup.Capacity.Units.{split_unit-units}
use prosiak.Startup.NodeMain.{NodeConfig, node_main}
use prosiak.Startup.NodeServing.{NodeLawful, left, node_main-NodeLawful}
use prosiak.Witness.Stores.{marking}

abbrev system_only : Pools
system_only = record { Pool = ℕ; system = some 0; empty = 1; append_certs = λ p data_. some 2 }

abbrev seconds : Text → Option ℤ
seconds s = some (pos 60_000_000_000)

abbrev flags : Flags
flags = record {
  addr = text ":8080";
  db_path = text "backup.db";
  replication_interval = pos 30_000_000_000;
  auth_token = text "secret";
  max_upload_bytes = pos 0;
  cert_file = [];
  key_file = [];
  ca_cert_file = [];
  insecure_skip_verify = false;
}

abbrev config : ServerConfig
config = record {
  addr = text ":9090";
  db = [];
  replication_interval = text "60s";
  auth_token = [];
  max_upload_bytes = pos 5;
  cert_file = [];
  key_file = [];
  ca_cert_file = [];
  insecure_skip_verify = false;
}

abbrev running : Running
running = record {
  listening = plaintext (text ":9090");
  token = text "secret";
  max_upload_bytes = pos 5;
  db_path = text "backup.db";
  replication_interval = pos 60_000_000_000;
}

server_runs :
    server_main seconds system_only
      (λ path. none)
      (λ path. true)
      []
      (λ name. false)
      (some (some config))
      flags
    ≡ some running
unfolding server_main eqb trim_space
server_runs = refl

server_main-Serves_example :
    (g : Flags) × (configured seconds (λ name. false) (some (some config)) flags ≡ some g)
    × Serves seconds system_only (λ path. none) (λ path. true) [] g running
server_main-Serves_example =
    server_main-Serves seconds system_only (λ path. none) (λ path. true) [] (λ name. false)
      (some (some config)) flags running server_runs

split_unit-units_example :
    All (λ u. split_unit units (text "1.5" ++ u.0) ≡ (trim_space (text "1.5"), u.1)) units
split_unit-units_example = split_unit-units (text "1.") b'5' refl

abbrev counting : Floats
counting = record {
  Float = ℕ;
  parse = λ s. some (length s);
  not_positive = λ n. n == 0;
  scaled = λ n mul. pos (n * mul);
}

abbrev node_flags : NodeConfig
node_flags = record {
  id = text "node-1";
  addr = text ":9001";
  public_addr = text "http://localhost:9001";
  server = text "http://localhost:8080";
  storage = text "storage-node-1";
  capacity = text "10GB";
  wipe_storage = false;
  auth_token = text "secret";
  storage_key = [];
  cert_file = [];
  key_file = [];
  ca_cert_file = [];
  insecure_skip_verify = false;
}

node_main-NodeLawful_example :
    NodeLawful counting system_only
      (λ path. none)
      (λ s. none)
      (λ key. marking)
      (λ path. [])
      nothing
      []
      []
      (left counting system_only
        (λ path. none)
        (λ s. none)
        (λ key. marking)
        (λ path. [])
        nothing
        []
        []
        (λ name. false)
        none
        node_flags)
      (node_main counting system_only
        (λ path. none)
        (λ s. none)
        (λ key. marking)
        (λ path. [])
        nothing
        []
        []
        (λ name. false)
        none
        node_flags)
node_main-NodeLawful_example =
    node_main-NodeLawful counting system_only (λ path. none) (λ s. none) (λ key. marking)
      (λ path. []) nothing [] [] (λ name. false) none node_flags
