-- ===== src/Client/Upload/Accepted.antt =====
-- What the server reads from the query that the client sends (cmd/backupctl/main.go,
-- internal/server/handlers.go).
use prosiak.Base.{
  ℕ, suc, ℤ, pos, pos_part, ltb_ℤ, Text, text, List, [], ◌∷◌, Bool, Bool-cases, true, false, not,
  ◌&&◌, Option, none, some, ◌≡◌, inl, inr, refl, ap, ◌∙◌, arith, if◌then◌else◌, eqb, eqb_iff,
  length, trim_space, select,
}
use prosiak.Chunker.{Reader, max_chunk_size, default_chunk_size}
use prosiak.Network.{Network}
use prosiak.Handlers.{Server}
use prosiak.Handlers.Backup.{
  BackupRequest, Parts, open_upload_part, backup_file, finish_upload, upload_loop, first_upload,
}
use prosiak.Handlers.Query.{Query, get, query_int, backup_request}
use prosiak.Client.Jobs.{Job}
use prosiak.Client.Jobs.Valid.{IsValid}
use prosiak.Client.Upload.{format_int, set, upload_query, job_query}
use prosiak.Client.Upload.Numbers.{IsInt64, query_int-format_int}

query_int_nothing : query_int [] (pos 0) ≡ pos 0
unfolding query_int
query_int_nothing = refl

get-select :
    (k key : Text) (q : Query)
    → eqb k key ≡ false
    → get k (select (λ p. not (eqb key p.0)) q) ≡ get k q
unfolding get select
get-select k key [] h = refl
get-select k key ((j, v) ∷ q) h =
    ground (arith, get-select k key q h, eqb_iff k j, eqb_iff key j, eqb_iff k key)

-- What is set is read, and the other keys are as they were.
get-set :
    (k key value : Text) (q : Query)
    → get k (set key value q) ≡ (if eqb k key then value else get k q)
unfolding get set
get-set k key value q = elim (Bool-cases (eqb k key)) [
  | inl same ↦ rw same refl
  | inr other ↦ rw other (get-select k key q other)
]

get-if_set :
    (k key value : Text) (b : Bool) (q : Query)
    → get k (if b then set key value q else q) ≡ (if b && eqb k key then value else get k q)
get-if_set k key value true q = get-set k key value q
get-if_set k key value false q = refl

get-unless_set :
    (k key value : Text) (b : Bool) (q : Query)
    → get k (if b then q else set key value q) ≡ (if not b && eqb k key then value else get k q)
get-unless_set k key value true q = refl
get-unless_set k key value false q = get-set k key value q

module _ (name : Text) (retention chunk_size replication : ℤ) (base : Query) where
  abbrev sent : Query
  sent = upload_query name retention chunk_size replication base

  get-upload_query :
      (k : Text)
      → get k sent ≡ (
          if ltb_ℤ (pos 0) retention && eqb k (text "retention")
          then format_int retention
          else if not (eqb name []) && eqb k (text "backup_name")
          then name
          else if eqb k (text "replication")
          then format_int replication
          else if eqb k (text "chunk_size")
          then format_int chunk_size
          else get k base)
  unfolding upload_query
  get-upload_query k =
      get-if_set k (text "retention") (format_int retention) (ltb_ℤ (pos 0) retention) _
      ∙ ap
          (λ v.
            if ltb_ℤ (pos 0) retention && eqb k (text "retention") then format_int retention else v)
          (get-unless_set k (text "backup_name") name (eqb name []) _
            ∙ ap (λ v. if not (eqb name []) && eqb k (text "backup_name") then name else v)
                (get-set k (text "replication") (format_int replication) _
                  ∙ ap (λ v. if eqb k (text "replication") then format_int replication else v)
                      (get-set k (text "chunk_size") (format_int chunk_size) base)))

  get_chunk_size : get (text "chunk_size") sent ≡ format_int chunk_size
  unfolding eqb
  get_chunk_size = ground (arith, get-upload_query (text "chunk_size"))

  get_replication : get (text "replication") sent ≡ format_int replication
  unfolding eqb
  get_replication = ground (arith, get-upload_query (text "replication"))

  get_name : get (text "backup_name") base ≡ [] → get (text "backup_name") sent ≡ name
  unfolding eqb
  get_name absent = ground (arith, absent, get-upload_query (text "backup_name"), eqb_iff name [])

  get_retention :
      get (text "retention") base ≡ []
      → IsInt64 retention
      → ltb_ℤ retention (pos 0) ≡ false
      → query_int (get (text "retention") sent) (pos 0) ≡ retention
  unfolding eqb
  get_retention absent h kept = elim (Bool-cases (ltb_ℤ (pos 0) retention)) [
    | inl given ↦
        let read : get (text "retention") sent ≡ format_int retention =
          ground (arith, given, get-upload_query (text "retention")) in
        ap (λ v. query_int v (pos 0)) read ∙ query_int-format_int retention (pos 0) h
    | inr zero_kept ↦
        let read : get (text "retention") sent ≡ [] =
          ground (arith, absent, zero_kept, get-upload_query (text "retention")) in
        ap (λ v. query_int v (pos 0)) read ∙ ground (arith, kept, zero_kept, query_int_nothing)
  ]

  -- What the server's handler reads of the parameters is what the client was given.
  pub backup_request-upload_query :
      (body : Option ℕ → Option Parts)
      → IsInt64 chunk_size
      → IsInt64 replication
      → IsInt64 retention
      → ltb_ℤ retention (pos 0) ≡ false
      → get (text "backup_name") base ≡ []
      → get (text "retention") base ≡ []
      → backup_request sent body ≡ record {
        chunk_size = chunk_size;
        replication = replication;
        retention = retention;
        backup_name = trim_space name;
        body = body;
      }
  unfolding backup_request eqb
  backup_request-upload_query body c r t kept no_name no_retention = ground (
    arith,
    ap (λ v. query_int v (pos default_chunk_size)) get_chunk_size,
    query_int-format_int chunk_size (pos default_chunk_size) c,
    ap (λ v. query_int v (pos 3)) get_replication,
    query_int-format_int replication (pos 3) r,
    get_retention no_retention t kept,
    get_name no_name,
  )

module _ (net : Network) (hash_data : List ℕ → Text) where
  open net use {World}

  abbrev pub job_request : Job → (Option ℕ → Option Parts) → BackupRequest
  job_request j body = record {
    chunk_size = j.chunk_size;
    replication = j.replication;
    retention = j.retention;
    backup_name = trim_space j.name;
    body = body;
  }

  accepted :
      (j : Job) (clock : ℕ → ℕ) (id : Text) (max_upload : ℤ) (body : Option ℕ → Option Parts)
      (filename : Text) (r : Reader) (srv : Server World)
      → IsValid j
      → ltb_ℤ (pos max_chunk_size) j.chunk_size ≡ false
      → open_upload_part
          (body (if ltb_ℤ (pos 0) max_upload then some (pos_part max_upload) else none))
        ≡ some (filename, r)
      → backup_file net hash_data clock id max_upload (job_request j body) srv
        ≡ finish_upload net hash_data clock id (job_request j body) filename (
            upload_loop net hash_data
              (suc (length r.bytes))
              clock
              j.chunk_size
              j.replication
              0
              r.faulty
              r.bytes
              (first_upload net hash_data srv))
  unfolding backup_file
  accepted j clock id max_upload body filename r srv v fits part =
      rw (v.chunk_size, fits, v.retention, part, backup_file) refl

  -- A valid job whose chunk size is not above the server's bound passes every check of backupFile:
  -- where its numbers are of 64 bits, the address of the server sets no name and no retention, and
  -- the body has the part with the file, the server goes on to read the stream with the chunk size
  -- and the replication of the job, and to save the backup with its retention and its name.
  pub job_query-accepted :
      (j : Job) (base : Query) (clock : ℕ → ℕ) (id : Text) (max_upload : ℤ)
      (body : Option ℕ → Option Parts) (filename : Text) (r : Reader) (srv : Server World)
      → IsValid j
      → IsInt64 j.chunk_size
      → IsInt64 j.replication
      → IsInt64 j.retention
      → ltb_ℤ (pos max_chunk_size) j.chunk_size ≡ false
      → get (text "backup_name") base ≡ []
      → get (text "retention") base ≡ []
      → open_upload_part
          (body (if ltb_ℤ (pos 0) max_upload then some (pos_part max_upload) else none))
        ≡ some (filename, r)
      → backup_file net hash_data clock id max_upload (backup_request (job_query j base) body) srv
        ≡ finish_upload net hash_data clock id (job_request j body) filename (
            upload_loop net hash_data
              (suc (length r.bytes))
              clock
              j.chunk_size
              j.replication
              0
              r.faulty
              r.bytes
              (first_upload net hash_data srv))
  unfolding job_query
  job_query-accepted j base clock id max_upload body filename r srv v c p t fits no_name
        no_retention part =
      ap (λ req. backup_file net hash_data clock id max_upload req srv)
        (backup_request-upload_query j.name j.retention j.chunk_size j.replication base body c p t
          v.retention no_name no_retention)
      ∙ accepted j clock id max_upload body filename r srv v fits part
