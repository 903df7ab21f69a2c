-- ===== src/Handlers.antt =====
-- What the HTTP handlers share (internal/server/handlers.go, internal/httpjson/httpjson.go). A
-- response is its status with what its body says; requests come with their JSON decoded.
pub mod Nodes
pub mod Files
pub mod Delete
pub mod Download
pub mod Backup
pub mod Query
pub mod Calls
pub mod Mux
pub mod Serve
pub mod Reached
use prosiak.Base.{ℕ}
use prosiak.State.{State}

-- `failed` carries the status of an error response, `ok` and `created` the body of another.
pub data Response {ℓ} (A : Type ℓ) : Type ℓ where
  ok : A → Response A
  created : A → Response A
  failed : ℕ → Response A

-- The server's database, and the world that its requests reach.
pub record Server (W : Type 0) : Type 0 where
  pub db : State
  pub world : W
