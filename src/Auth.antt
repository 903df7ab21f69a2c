-- ===== src/Auth.antt =====
-- The bearer token (internal/auth/auth.go) and the paths that need none.
pub mod Token
use prosiak.Base.{
  Text, text, [], ◌++◌, Bool, false, not, ◌&&◌, ◌||◌, none, some, eqb, trim_space, cut_prefix,
  if◌then◌else◌,
}

abbrev pub bearer_prefix : Text
bearer_prefix = text "Bearer "

-- Resolve, with the value of the environment variable.
unfoldable pub resolve : Text → Text → Text
resolve configured environment =
    let token = trim_space configured in if eqb token [] then trim_space environment else token

-- ValidBearer, at the value of the Authorization header. The comparison takes constant time.
unfoldable pub valid_bearer : Text → Text → Bool
valid_bearer header token = elim (cut_prefix bearer_prefix header) [
  | none ↦ false
  | some got ↦ eqb (trim_space got) token
]

pub record HttpRequest : Type 0 where
  pub method : Text
  pub path : Text
  pub authorization : Text

-- RoundTrip sets the header on a clone of the request.
unfoldable pub round_trip : Text → HttpRequest → HttpRequest
round_trip token r = record r { authorization = bearer_prefix ++ token }

pub data Answer {ℓ} (A : Type ℓ) : Type ℓ where
  unauthorized : Answer A
  served : A → Answer A

-- Middleware, around a handler that answers with an `A`.
unfoldable pub middleware {ℓ} :
    {A : Type ℓ} → Text → (HttpRequest → Bool) → (HttpRequest → A) → HttpRequest → Answer A
middleware token public next r =
    if public r
    then served (next r)
    else if not (valid_bearer r.authorization token)
    then unauthorized
    else served (next r)

-- publicPath of the server.
unfoldable pub public_path : HttpRequest → Bool
public_path r =
    eqb r.method (text "GET")
    && (eqb r.path (text "/")
        || eqb r.path (text "/index.html")
        || eqb r.path (text "/app.js")
        || eqb r.path (text "/app.css")
        || eqb r.path (text "/favicon.ico")
        || eqb r.path (text "/health"))
