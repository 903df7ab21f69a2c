-- ===== src/Client/Jobs/Valid.antt =====
-- What a configured job is when it is backed up (cmd/backupctl/main.go).
use prosiak.Base.{
  ℕ, pos, ltb_ℤ, leb_ℤ, Text, List, [], ◌∷◌, ◌++◌, Bool-cases, true, false, Option, Option-cases,
  none, some, some_eq, ◌≡◌, ◌≢◌, ◌↔◌, ◌⊎◌, inl, inr, refl, ap, sym, subst, ◌∙◌, arith, eqb, eqb_iff,
  eqb_refl, eqb_other, All,
}
use prosiak.Client.Jobs.{
  Job, ClientConfig, Result, equal_fold, ok, err, apply_defaults, validate, find_job, select_job,
  configured_job, checked, job_unknown,
}

-- The conditions of a job that can be backed up.
pub record IsValid (j : Job) : Type 0 where
  pub named : j.name ≢ []
  pub has_paths : j.paths ≢ []
  pub chunk_size : leb_ℤ j.chunk_size (pos 0) ≡ false
  pub replication : leb_ℤ j.replication (pos 0) ≡ false
  pub retention : ltb_ℤ j.retention (pos 0) ≡ false

-- validate passes exactly the valid jobs.
validate-IsValid : (j : Job) → (validate j ≡ none) ↔ IsValid j
unfolding validate
validate-IsValid j = (
  λ h. record {
    named = λ e. ground (arith, h, eqb_iff j.name [], e);
    has_paths = λ e. ground (arith, h, e);
    chunk_size = ground (arith, h);
    replication = ground (arith, h);
    retention = ground (arith, h);
  },
  λ v. valid v j.paths refl,
)
  where
    valid : IsValid j → (ps : List Text) → j.paths ≡ ps → validate j ≡ none
    valid v [] e = absurd (v.has_paths e)
    valid v (p ∷ ps) e =
        ground (arith, e, v.chunk_size, v.replication, v.retention, eqb_iff j.name [], v.named)

module _ (fold : ℕ → ℕ) where
  -- The job that a name selects: the only one where there is no name, and else the first whose name
  -- is equal but for the case of letters.
  abbrev pub Selects : List Job → Text → Job → Type 0
  Selects jobs name k =
      ((name ≡ []) × (jobs ≡ k ∷ []))
      ⊎ ((name ≢ [])
          × ((before : List Job) × (after : List Job) × (jobs ≡ before ++ k ∷ after)
              × All (λ j. equal_fold fold j.name name ≡ false) before
              × (equal_fold fold k.name name ≡ true)))

  find_job-some :
      (jobs : List Job) (name : Text) (k : Job)
      → find_job fold jobs name ≡ some k
      → (before : List Job) × (after : List Job) × (jobs ≡ before ++ k ∷ after)
        × All (λ j. equal_fold fold j.name name ≡ false) before
        × (equal_fold fold k.name name ≡ true)
  unfolding find_job
  find_job-some [] name k h = absurd (ground (arith, h))
  find_job-some (j ∷ js) name k h = elim (Bool-cases (equal_fold fold j.name name)) [
    | inl same ↦
        let e : j ≡ k = some_eq (rw same at h) in
        (
          [],
          js,
          ap (λ i. i ∷ js) e,
          tt,
          subst (λ (i : Job). equal_fold fold i.name name ≡ true) e same,
        )
    | inr other ↦
        let (before, after, e, none_there, same) = find_job-some js name k (rw other at h) in
        (j ∷ before, after, ap (◌∷◌ j) e, (other, none_there), same)
  ]

  some-find_job :
      (before after : List Job) (name : Text) (k : Job)
      → All (λ j. equal_fold fold j.name name ≡ false) before
      → equal_fold fold k.name name ≡ true
      → find_job fold (before ++ k ∷ after) name ≡ some k
  unfolding find_job
  some-find_job [] after name k h same = rw same refl
  some-find_job (j ∷ before) after name k h same =
      rw h.0 (some-find_job before after name k h.1 same)

  select_job-named :
      (j : Job) (js : List Job) (name : Text)
      → eqb name [] ≡ false
      → select_job fold (j ∷ js) name ≡ ok (find_job fold (j ∷ js) name)
  unfolding select_job
  select_job-named j [] name h = rw h refl
  select_job-named j (k ∷ js) name h = rw h refl

  ok_some : (a : Option Job) (k : Job) → ok a ≡ ok (some k) → a ≡ some k
  ok_some a k h = cc

  select_job-Selects :
      (jobs : List Job) (name : Text) (k : Job)
      → select_job fold jobs name ≡ ok (some k)
      → Selects jobs name k
  unfolding select_job
  select_job-Selects [] name k h = absurd (ground (arith, h))
  select_job-Selects (j ∷ js) name k h = elim (Bool-cases (eqb name [])) [
    | inl unnamed ↦ inl ((eqb_iff name []).0 unnamed, alone js h unnamed)
    | inr named ↦ inr (
      λ e. ground (arith, named, (eqb_iff name []).1 e),
      find_job-some (j ∷ js) name k (ok_some _ k (sym (select_job-named j js name named) ∙ h)),
    )
  ]
    where
      alone :
          (js : List Job)
          → select_job fold (j ∷ js) name ≡ ok (some k)
          → eqb name [] ≡ true
          → (j ∷ js) ≡ k ∷ []
      alone [] h unnamed = ap (λ i. i ∷ []) (some_eq (ok_some _ k (rw unnamed at h)))
      alone (i ∷ js) h unnamed = absurd (ground (arith, rw unnamed at h))

  Selects-select_job :
      (jobs : List Job) (name : Text) (k : Job)
      → Selects jobs name k
      → select_job fold jobs name ≡ ok (some k)
  unfolding select_job
  Selects-select_job jobs name k (inl (unnamed, e)) = rw (e, unnamed) (ground (arith, eqb_refl []))
  Selects-select_job jobs name k (inr (named, ([], after, e, h, same))) = rw e (
      select_job-named k after name (eqb_other name [] named)
      ∙ ap ok (some-find_job [] after name k h same))
  Selects-select_job jobs name k (inr (named, (j ∷ before, after, e, h, same))) = rw e (
      select_job-named j (before ++ k ∷ after) name (eqb_other name [] named)
      ∙ ap ok (some-find_job (j ∷ before) after name k h same))

  checked-IsValid : (i j : Job) → (checked fold i ≡ ok j) ↔ ((i ≡ j) × IsValid j)
  checked-IsValid i j = (to, from)
    where
      to : checked fold i ≡ ok j → (i ≡ j) × IsValid j
      to h = elim (Option-cases (validate i)) [
        | inl fine ↦
            let e : i ≡ j = ground (arith, h, fine) in
            (e, subst IsValid e ((validate-IsValid i).0 fine))
        | inr (bad, e) ↦ absurd (ground (arith, h, e))
      ]

      from : (i ≡ j) × IsValid j → checked fold i ≡ ok j
      from (e, v) = rw e (ground (arith, (validate-IsValid j).1 v))

  -- The job that is backed up is exactly a job that the name selects, with the defaults of the
  -- configuration and of the program filled in, and which is then valid: it has a name and a path,
  -- its chunk size and replication are positive, and its retention is not negative. Where no name is
  -- given the configuration has that job alone, and else the job is the first of the configuration
  -- whose name is equal but for the case of letters.
  pub configured_job-Selects :
      (cfg : ClientConfig) (name : Text) (j : Job)
      → (configured_job fold cfg name ≡ ok j)
        ↔ ((k : Job) × Selects cfg.jobs name k × (apply_defaults cfg k ≡ j) × IsValid j)
  unfolding configured_job
  configured_job-Selects cfg name j = (λ h. inverted (select_job fold cfg.jobs name) refl h, from)
    where
      picked : Result (Option Job) → Result Job
      picked r = elim r [
        | err e ↦ err e
        | ok none ↦ err (job_unknown name)
        | ok (some k) ↦ checked fold (apply_defaults cfg k)
      ]

      inverted :
          (r : Result (Option Job))
          → select_job fold cfg.jobs name ≡ r
          → picked r ≡ ok j
          → (k : Job) × Selects cfg.jobs name k × (apply_defaults cfg k ≡ j) × IsValid j
      inverted (err e) s h = absurd (ground (arith, h))
      inverted (ok none) s h = absurd (ground (arith, h))
      inverted (ok (some k)) s h =
          let (same, v) = (checked-IsValid (apply_defaults cfg k) j).0 h in
          (k, select_job-Selects cfg.jobs name k s, same, v)

      from :
          ((k : Job) × Selects cfg.jobs name k × (apply_defaults cfg k ≡ j) × IsValid j)
          → configured_job fold cfg name ≡ ok j
      from (k, chosen, same, v) =
          ap picked (Selects-select_job cfg.jobs name k chosen)
          ∙ (checked-IsValid (apply_defaults cfg k) j).1 (same, v)
