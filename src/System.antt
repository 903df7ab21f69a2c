-- ===== src/System.antt =====
-- The running server (cmd/backup-server/main.go): requests that are served and passes of the scheduler,
-- one after another.
pub mod Invariant
pub mod RoundTrip
pub mod Clients
pub mod Entries
use prosiak.Base.{ℕ, ℤ, Text, List, [], ◌∷◌, Option}
use prosiak.Network.{Network}
use prosiak.Handlers.{Server}
use prosiak.Handlers.Nodes.{Url}
use prosiak.Handlers.Serve.{Incoming, Moment, serve}
use prosiak.Replicator.{run_replication_once}

-- A request with its moment, or a pass with its time.
pub data Event : Type 0 where
  request : Moment → Incoming → Event
  pass : ℕ → Event

module _ (net : Network) (hash_data : List ℕ → Text) (parse_url : Text → Option Url) (token : Text)
    (max_upload : ℤ) where
  open net use {World}

  unfoldable pub step : Event → Server World → Server World
  unfolding serve run_replication_once
  step (request m r) srv = (serve net hash_data parse_url token max_upload m r srv).0
  step (pass now) srv = run_replication_once net hash_data now srv

  unfoldable pub run : List Event → Server World → Server World
  unfolding step
  run [] srv = srv
  run (e ∷ es) srv = run es (step e srv)
