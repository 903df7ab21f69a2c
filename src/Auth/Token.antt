-- ===== src/Auth/Token.antt =====
-- Who passes Middleware (internal/auth/auth.go).
use prosiak.Base.{
  Text, [], ◌++◌, Bool, Bool-cases, true, false, Option, none, some, Option-cases, ◌≡◌, refl, ap,
  sym, ◌∙◌, ◌↔◌, ◌⊎◌, inl, inr, arith, eqb, eqb_iff, trim_space, trim_space_idem, cut_prefix,
  cut_prefix-append, append-cut_prefix, if_cases,
}
use prosiak.Auth.{
  bearer_prefix, resolve, valid_bearer, HttpRequest, round_trip, unauthorized, served, middleware,
}

-- A header that carries the token, with any spaces around it.
abbrev pub Carries : Text → Text → Type 0
Carries token header = (rest : Text) × (header ≡ bearer_prefix ++ rest) × (trim_space rest ≡ token)

pub valid_bearer-Carries :
    (header token : Text) → (valid_bearer header token ≡ true) ↔ Carries token header
unfolding valid_bearer
valid_bearer-Carries header token = (to, from)
  where
    checked : Option Text → Bool
    checked o = elim o [ none ↦ false | some got ↦ eqb (trim_space got) token ]

    to : valid_bearer header token ≡ true → Carries token header
    to h = elim (Option-cases (cut_prefix bearer_prefix header)) [
      | inl other ↦ absurd (ground (arith, sym (ap checked other) ∙ h))
      | inr (rest, e) ↦ (
        rest,
        append-cut_prefix bearer_prefix header rest e,
        (eqb_iff (trim_space rest) token).0 (sym (ap checked e) ∙ h),
      )
    ]

    from : Carries token header → valid_bearer header token ≡ true
    from (rest, e, same) =
        ap (λ h. checked (cut_prefix bearer_prefix h)) e
        ∙ ap checked (cut_prefix-append bearer_prefix rest)
        ∙ (eqb_iff (trim_space rest) token).1 same

trim_space-resolve :
    (configured environment : Text)
    → trim_space (resolve configured environment) ≡ resolve configured environment
unfolding resolve
trim_space-resolve configured environment =
    if_cases (λ t. trim_space t ≡ t) (eqb (trim_space configured) []) (trim_space environment)
      (trim_space configured) (λ _. trim_space_idem environment) (λ _. trim_space_idem configured)

sent_header :
    (token : Text) (r : HttpRequest) → (round_trip token r).authorization ≡ bearer_prefix ++ token
unfolding round_trip
sent_header token r = refl

-- The middleware serves a request exactly when it is public or its header carries the token, with
-- any spaces around it, and answers exactly the others as unauthorized. The requests that a client with the same
-- settings sends are served: its header carries the token that both sides resolve.
pub middleware-Carries {ℓ} :
    {A : Type ℓ} (configured environment : Text) (public : HttpRequest → Bool)
    (next : HttpRequest → A) (r : HttpRequest)
    → let token = resolve configured environment in
      ((middleware token public next r ≡ served (next r))
        ↔ ((public r ≡ true) ⊎ Carries token r.authorization))
      × ((middleware token public next r ≡ unauthorized)
          ↔ ((public r ≡ false) × (¬ Carries token r.authorization)))
      × (middleware token public next (round_trip token r) ≡ served (next (round_trip token r)))
unfolding middleware
middleware-Carries configured environment public next r =
    ((admitted, passes r), (closed_out, λ h. stopped h.0 h.1), passes sent (inr carried))
  where
    token : Text
    token = resolve configured environment

    sent : HttpRequest
    sent = round_trip token r

    passes :
        (q : HttpRequest)
        → (public q ≡ true) ⊎ Carries token q.authorization
        → middleware token public next q ≡ served (next q)
    passes q (inl open_path) = rw open_path refl
    passes q (inr h) = ground (arith, (valid_bearer-Carries q.authorization token).1 h)

    stopped :
        public r ≡ false
        → ¬ Carries token r.authorization
        → middleware token public next r ≡ unauthorized
    stopped closed none_there = elim (Bool-cases (valid_bearer r.authorization token)) [
      | inl valid ↦ absurd (none_there ((valid_bearer-Carries r.authorization token).0 valid))
      | inr other ↦ rw (closed, other) refl
    ]

    admitted :
        middleware token public next r ≡ served (next r)
        → (public r ≡ true) ⊎ Carries token r.authorization
    admitted h = elim (Bool-cases (public r)) [
      | inl open_path ↦ inl open_path
      | inr closed ↦ elim (Bool-cases (valid_bearer r.authorization token)) [
        | inl valid ↦ inr ((valid_bearer-Carries r.authorization token).0 valid)
        | inr other ↦ absurd (ground (arith, h, closed, other))
      ]
    ]

    closed_out :
        middleware token public next r ≡ unauthorized
        → (public r ≡ false) × (¬ Carries token r.authorization)
    closed_out h = elim (Bool-cases (public r)) [
      | inl open_path ↦ absurd (ground (arith, h, open_path))
      | inr closed ↦
          (closed, λ c. ground (arith, h, closed, (valid_bearer-Carries r.authorization token).1 c))
    ]

    carried : Carries token sent.authorization
    carried = (token, sent_header token r, trim_space-resolve configured environment)
