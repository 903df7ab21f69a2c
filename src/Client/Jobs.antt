-- ===== src/Client/Jobs.antt =====
-- The jobs of a configuration (cmd/backupctl/main.go): selectJob, applyDefaults and validate, as
-- backupConfiguredJob calls them, and the checks of the command backup.
pub mod Valid
use prosiak.Base.{
  ℕ, ◌*◌, ℤ, pos, ltb_ℤ, leb_ℤ, eqb_ℤ, Text, List, [], ◌∷◌, map, Bool, true, false, Option, none,
  some, if◌then◌else◌, eqb,
}

abbrev pub default_chunk_size : ℕ
default_chunk_size = 512 * 1024

-- backupJob
pub record Job : Type 0 where
  pub name : Text
  pub paths : List Text
  pub exclude : List Text
  pub chunk_size : ℤ
  pub replication : ℤ
  pub retention : ℤ

-- clientConfig
pub record ClientConfig : Type 0 where
  pub server : Text
  pub chunk_size : ℤ
  pub replication : ℤ
  pub retention : ℤ
  pub auth_token : Text
  pub ca_cert_file : Text
  pub insecure_skip_verify : Bool
  pub jobs : List Job

pub data Failure : Type 0 where
  no_jobs no_name no_paths bad_chunk_size bad_replication bad_retention no_file : Failure
  job_required : List Text → Failure
  job_unknown : Text → Failure

pub data Result {ℓ} (A : Type ℓ) : Type ℓ where
  ok : A → Result A
  err : Failure → Result A

abbrev is_zero : ℤ → Bool
is_zero z = eqb_ℤ z (pos 0)

-- `if x == 0 { x = y }`
abbrev pub or_else : ℤ → ℤ → ℤ
or_else x y = if is_zero x then y else x

-- applyDefaults
unfoldable pub apply_defaults : ClientConfig → Job → Job
apply_defaults cfg j = record j {
  chunk_size = or_else (or_else j.chunk_size cfg.chunk_size) (pos default_chunk_size);
  replication = or_else (or_else j.replication cfg.replication) (pos 3);
  retention = or_else j.retention cfg.retention;
}

abbrev no_items {ℓ} : {A : Type ℓ} → List A → Bool
no_items [] = true
no_items (x ∷ xs) = false

-- validate: `none` is the nil error.
unfoldable pub validate : Job → Option Failure
validate j =
    if eqb j.name []
    then some no_name
    else if no_items j.paths
    then some no_paths
    else if leb_ℤ j.chunk_size (pos 0)
    then some bad_chunk_size
    else if leb_ℤ j.replication (pos 0)
    then some bad_replication
    else if ltb_ℤ j.retention (pos 0)
    then some bad_retention
    else none

-- Strings are folded letter by letter; `fold` gives one letter for all that EqualFold takes as equal.
module _ (fold : ℕ → ℕ) where
  abbrev pub equal_fold : Text → Text → Bool
  equal_fold s t = eqb (map fold s) (map fold t)

  -- findJob
  unfoldable pub find_job : List Job → Text → Option Job
  find_job [] name = none
  find_job (j ∷ js) name = if equal_fold j.name name then some j else find_job js name

  -- selectJob
  unfoldable pub select_job : List Job → Text → Result (Option Job)
  unfolding find_job
  select_job [] name = err no_jobs
  select_job (j ∷ []) name = ok (if eqb name [] then some j else find_job (j ∷ []) name)
  select_job (j ∷ k ∷ js) name =
      if eqb name []
      then err (job_required (map (λ (i : Job). i.name) (j ∷ k ∷ js)))
      else ok (find_job (j ∷ k ∷ js) name)

  abbrev pub checked : Job → Result Job
  checked j = elim (validate j) [ none ↦ ok j | some e ↦ err e ]

  -- The start of backupConfiguredJob: the job that is backed up.
  unfoldable pub configured_job : ClientConfig → Text → Result Job
  unfolding select_job apply_defaults validate
  configured_job cfg name = elim (select_job cfg.jobs name) [
    | err e ↦ err e
    | ok none ↦ err (job_unknown name)
    | ok (some j) ↦ checked (apply_defaults cfg j)
  ]

-- The flags of the command backup.
pub record BackupFlags : Type 0 where
  pub server : Text
  pub file : Text
  pub name : Text
  pub retention : ℤ
  pub chunk_size : ℤ
  pub replication : ℤ

-- The checks of backup before it opens the file.
unfoldable pub check_flags : BackupFlags → Option Failure
check_flags f =
    if eqb f.file []
    then some no_file
    else if leb_ℤ f.chunk_size (pos 0)
    then some bad_chunk_size
    else if ltb_ℤ f.retention (pos 0)
    then some bad_retention
    else none
