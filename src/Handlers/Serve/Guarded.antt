-- ===== src/Handlers/Serve/Guarded.antt =====
-- What a request without the token comes to (internal/server/handlers.go: Routes, publicPath).
use prosiak.Base.{
  ℕ, ℤ, Text, text, List, Option, Bool, Bool-cases, true, false, ◌||◌, and-true, ◌≡◌, ◌⊎◌, inl, inr,
  refl, eqb, eqb_iff,
}
use prosiak.Auth.{HttpRequest, public_path, valid_bearer}
use prosiak.Auth.Token.{Carries, valid_bearer-Carries}
use prosiak.Network.{Network}
use prosiak.Handlers.{Server}
use prosiak.Handlers.Nodes.{Url}
use prosiak.Handlers.Mux.{routed, Route, route}
use prosiak.Handlers.Serve.{
  Incoming, Moment, Sent, page, redirect, error, answer, download, status_ok, handle, dispatch,
  serve,
}

-- The page at a path, the health, or an error.
unfoldable pub TellsNothing : Text → Sent → Type 0
TellsNothing path (page p) = p ≡ path
TellsNothing path (redirect p) = ⊥
TellsNothing path (error status) = status ≡ 401
TellsNothing path (answer status body) = (status ≡ 200) × (body ≡ status_ok)
TellsNothing path (download d) = ⊥

or_to : {P : Type 0} (a b : Bool) → (a ≡ true → P) → (b ≡ true → P) → (a || b) ≡ true → P
or_to true b p q h = p refl
or_to false b p q h = q h

abbrev Harmless : Text → Text → Type 0
Harmless method path =
    (route method path ≡ routed Route.web) ⊎ (route method path ≡ routed Route.health)

at : (p q m n : Text) → eqb p q ≡ true → eqb m n ≡ true → Harmless n q → Harmless m p
at p q m n h h' ok = rw ((eqb_iff p q).0 h, (eqb_iff m n).0 h') ok

public_paths :
    (Harmless (text "GET") (text "/"))
    × (Harmless (text "GET") (text "/index.html"))
    × (Harmless (text "GET") (text "/app.js"))
    × (Harmless (text "GET") (text "/app.css"))
    × (Harmless (text "GET") (text "/favicon.ico"))
    × (Harmless (text "GET") (text "/health"))
unfolding route eqb
public_paths = (inl refl, inl refl, inl refl, inl refl, inl refl, inr refl)

public_path-Harmless : (r : HttpRequest) → public_path r ≡ true → Harmless r.method r.path
unfolding public_path
public_path-Harmless r h =
    let both = and-true (eqb r.method (text "GET")) others h in
    let (l0, l1, l2, l3, l4, l5) = public_paths in
    let by : (q : Text) → Harmless (text "GET") q → eqb r.path q ≡ true → Harmless r.method r.path =
      λ q ok e. at r.path q r.method (text "GET") e both.0 ok in
    or_to _ _
      (or_to _ _
        (or_to _ _
          (or_to _ _ (or_to _ _ (by (text "/") l0) (by (text "/index.html") l1))
            (by (text "/app.js") l2))
          (by (text "/app.css") l3))
        (by (text "/favicon.ico") l4))
      (by (text "/health") l5) both.1
  where
    others : Bool
    others =
        eqb r.path (text "/")
        || eqb r.path (text "/index.html")
        || eqb r.path (text "/app.js")
        || eqb r.path (text "/app.css")
        || eqb r.path (text "/favicon.ico")
        || eqb r.path (text "/health")

module _ (net : Network) (hash_data : List ℕ → Text) (parse_url : Text → Option Url) (token : Text)
    (max_upload : ℤ) where
  open net use {World}

  harmless :
      (m : Moment) (r : Incoming) (srv : Server World)
      → Harmless r.head.method r.head.path
      → let to = route r.head.method r.head.path in
        let done = dispatch net hash_data parse_url token max_upload m r srv to in
        (done.0 ≡ srv) × TellsNothing r.head.path done.1
  unfolding dispatch handle TellsNothing
  harmless m r srv (inl to_web) = rw to_web (refl, refl)
  harmless m r srv (inr to_health) = rw to_health (refl, (refl, refl))

  -- A request whose header does not carry the token, with any spaces around it, leaves the database
  -- and the nodes as they are, whatever else is in it. It is answered as unauthorized, with the page
  -- at its path, or as a health check: with nothing of the backups.
  pub serve-stranger :
      (m : Moment) (r : Incoming) (srv : Server World)
      → ¬ Carries token r.head.authorization
      → let done = serve net hash_data parse_url token max_upload m r srv in
        (done.0 ≡ srv) × TellsNothing r.head.path done.1
  unfolding serve TellsNothing
  serve-stranger m r srv stranger = elim (Bool-cases (public_path r.head)) [
    | inl public ↦ rw public (harmless m r srv (public_path-Harmless r.head public))
    | inr closed ↦ elim (Bool-cases (valid_bearer r.head.authorization token)) [
      | inl valid ↦ absurd (stranger ((valid_bearer-Carries r.head.authorization token).0 valid))
      | inr invalid ↦ rw (closed, invalid) (refl, refl)
    ]
  ]
