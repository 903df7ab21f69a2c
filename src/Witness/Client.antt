-- ===== src/Witness/Client.antt =====
-- The theorems about the client that have conditions, each at an input that meets them.
use prosiak.Base.{
  ℕ, suc, ◌+◌, pos, Text, text, List, [], ◌∷◌, ◌++◌, true, false, ◌&&◌, none, some, ◌≡◌, ◌↔◌, refl,
  arith, leb, if◌then◌else◌, eqb, length, All, any,
}
use prosiak.Handlers.Backup.{backup_file, finish_upload, upload_loop, first_upload}
use prosiak.Handlers.Query.{backup_request, get}
use prosiak.Client.Jobs.{Job, ClientConfig, configured_job, apply_defaults, ok}
use prosiak.Client.Jobs.Valid.{IsValid, Selects, configured_job-Selects}
use prosiak.Client.Upload.{job_query}
use prosiak.Client.Upload.Accepted.{job_query-accepted, job_request}
use prosiak.Client.Paths.{safe_extract_path, clean, join}
use prosiak.Client.Paths.Components.{IsPlain}
use prosiak.Client.Paths.Inside.{directory, safe_extract_path-IsPlain}
use prosiak.Client.Paths.Root.{safe_extract_path-root}
use prosiak.Client.Glob.{glob_to_regexp, new_exclude_matcher, match_path, trim_slash}
use prosiak.Client.Glob.Syntax.{Regexp, compile}
use prosiak.Client.Glob.Compiled.{glob_items, compile-glob_to_regexp}
use prosiak.Client.Glob.Excluded.{Excluded, match_path-Excluded}
use prosiak.Startup.Tls.{Pools, http_client}
use prosiak.Auth.{resolve}
use prosiak.Base.{trim_space, Option}
use prosiak.Client.Commands.{TlsFlags, Ending, reply, failed, restore, configure_http_client}
use prosiak.Client.Commands.Restored.{Left, Ready, restore-Left}
use prosiak.Witness.{willing, server, sample_hash, file_part, stream, no_copies}

-- Capital letters are taken as small ones.
abbrev fold : ℕ → ℕ
fold c = if leb b'A' c && leb c b'Z' then c + 32 else c

abbrev documents : Job
documents = record {
  name = text "Docs";
  paths = text "/home/docs" ∷ [];
  exclude = [];
  chunk_size = pos 0;
  replication = pos 0;
  retention = pos 0;
}

abbrev config : ClientConfig
config = record {
  server = [];
  chunk_size = pos 4096;
  replication = pos 2;
  retention = pos 5;
  auth_token = text "secret";
  ca_cert_file = [];
  insecure_skip_verify = false;
  jobs = documents ∷ [];
}

abbrev filled_job : Job
filled_job = record documents { chunk_size = pos 4096; replication = pos 2; retention = pos 5 }

configured_job-Selects_example : (configured_job fold config (text "docs") ≡ ok filled_job) ↔ (
    (k : Job) × Selects fold config.jobs (text "docs") k
    × (apply_defaults config k ≡ filled_job)
    × IsValid filled_job)
configured_job-Selects_example = configured_job-Selects fold config (text "docs") filled_job

job_query-accepted_example :
    backup_file willing sample_hash
      (λ k. 100)
      (text "1")
      (pos 9)
      (backup_request (job_query filled_job []) no_copies.body)
      server
    ≡ finish_upload willing sample_hash
        (λ k. 100)
        (text "1")
        (job_request willing sample_hash filled_job no_copies.body)
        (text "f")
        (upload_loop willing sample_hash
          (suc (length stream))
          (λ k. 100)
          (pos 4096)
          (pos 2)
          0
          false
          stream
          (first_upload willing sample_hash server))
unfolding eqb get
job_query-accepted_example =
    job_query-accepted willing sample_hash filled_job [] (λ k. 100) (text "1") (pos 9)
      no_copies.body (text "f") (record { bytes = stream; faulty = false }) server
      (record {
        named = λ e. ground (arith, e);
        has_paths = λ e. ground (arith, e);
        chunk_size = refl;
        replication = refl;
        retention = refl;
      })
      (omega arith) (omega arith) (omega arith) refl refl refl file_part

out-IsPlain : All IsPlain (text "out" ∷ [])
unfolding eqb any
out-IsPlain = (record { filled = refl; not_dot = refl; not_up = refl; no_slash = refl }, tt)

safe_extract_path-IsPlain_example :
    (safe_extract_path (text "/") (directory (text "out") []) (text "docs/../a.txt")
      ≡ some (text "/out/a.txt"))
    ↔ ((p : Text) × (ps : List Text) × All IsPlain (p ∷ ps)
        × (clean (text "docs/../a.txt") ≡ join (p ∷ ps))
        × (text "/out/a.txt" ≡ directory (text "out") [] ++ b'/' ∷ join (p ∷ ps)))
safe_extract_path-IsPlain_example =
    safe_extract_path-IsPlain (text "/") (text "out") [] out-IsPlain (text "docs/../a.txt")
      (text "/out/a.txt")

safe_extract_path-root_example : safe_extract_path (text "/") (text "/") (text "docs/a.txt") ≡ none
safe_extract_path-root_example = safe_extract_path-root (text "/") (text "docs/a.txt")

compile-glob_to_regexp_example :
    compile (glob_to_regexp (text "**/*.log")) ≡ some (glob_items (text "**/*.log"))
compile-glob_to_regexp_example = compile-glob_to_regexp (text "**/*.log")

abbrev patterns : List Text
patterns = text " /**/.git/** " ∷ text "*.log" ∷ []

match_path-Excluded_example :
    (res : List Regexp) × (new_exclude_matcher patterns ≡ some res)
    × ((match_path res (text "docs/.git/") true ≡ true)
        ↔ Excluded (trim_slash (text "docs/.git/")) true patterns)
match_path-Excluded_example = match_path-Excluded patterns (text "docs/.git/") true

abbrev pub no_pools : Pools
no_pools = record { Pool = ℕ; system = none; empty = 0; append_certs = λ p certs. none }

abbrev token_flag : TlsFlags
token_flag = record { ca_cert_file = []; insecure_skip_verify = false; auth_token = text "secret" }

abbrev over_old : Option (List ℕ) × Ending
over_old =
    restore no_pools (λ path. none) [] token_flag (text "7") (text "out.bin") true
      (reply 404 (text "no such file") true) (some (1 ∷ 2 ∷ []))

-- The old content of the file is lost.
emptied : over_old ≡ (some [], failed)
unfolding restore configure_http_client resolve http_client eqb trim_space
emptied = refl

in_order : Ready no_pools (λ path. none) [] token_flag (text "7") (text "out.bin") true
unfolding configure_http_client resolve http_client eqb trim_space
in_order = ((_, refl), λ e. absurd (cc e), λ e. absurd (cc e), refl)

restore-Left_example : Left (reply 404 (text "no such file") true) over_old.0 over_old.1
restore-Left_example =
    (restore-Left no_pools (λ path. none) [] token_flag (text "7") (text "out.bin") true
        (reply 404 (text "no such file") true) (some (1 ∷ 2 ∷ []))).1
      in_order
