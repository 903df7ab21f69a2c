-- ===== src/System/Invariant.antt =====
-- The invariant of the database under all that the server does (internal/server/handlers.go,
-- internal/server/replicator.go, over internal/server/state.go).
use prosiak.Base.{ℕ, ℤ, Text, List, [], ◌∷◌, Option, subst, sym}
use prosiak.Network.{Network}
use prosiak.State.{State}
use prosiak.State.Consistent.{Consistent}
use prosiak.State.Consistent.Run.{empty, empty-Consistent, run-Consistent}
use prosiak.Handlers.{Server}
use prosiak.Handlers.Nodes.{Url}
use prosiak.Handlers.Calls.{Reaches}
use prosiak.Handlers.Serve.Reached.{serve-Reaches}
use prosiak.Replicator.Calls.{run_replication_once-Reaches}
use prosiak.System.{Event, request, pass, step, run}

Reaches-Consistent : (s s' : State) → Reaches s s' → Consistent s → Consistent s'
unfolding Reaches
Reaches-Consistent s s' (cs, made) h = subst Consistent (sym made) (run-Consistent s cs h)

module _ (net : Network) (hash_data : List ℕ → Text) (parse_url : Text → Option Url) (token : Text)
    (max_upload : ℤ) where
  open net use {World}

  step-Consistent :
      (e : Event) (srv : Server World)
      → Consistent srv.db
      → Consistent (step net hash_data parse_url token max_upload e srv).db
  unfolding step
  step-Consistent (request m r) srv =
      Reaches-Consistent _ _ (serve-Reaches net hash_data parse_url token max_upload m r srv)
  step-Consistent (pass now) srv =
      Reaches-Consistent _ _ (run_replication_once-Reaches net hash_data now srv)

  pub run-Consistent_lem :
      (es : List Event) (srv : Server World)
      → Consistent srv.db
      → Consistent (run net hash_data parse_url token max_upload es srv).db
  unfolding run
  run-Consistent_lem [] srv h = h
  run-Consistent_lem (e ∷ es) srv h =
      run-Consistent_lem es (step net hash_data parse_url token max_upload e srv)
        (step-Consistent e srv h)

  -- The server keeps its tables consistent: whatever requests it is sent, with the token or without,
  -- however the scheduler runs between them, and whatever the nodes answer, node ids, file ids, chunk
  -- keys and location keys stay unique, every location is of a known node and every chunk of a known
  -- file, no backup has two files of one version, and every file wants a copy at least. The server
  -- starts on a new database, and what it does is done in an order.
  pub server_run-Consistent :
      (es : List Event) (w : World)
      → Consistent
          (run net hash_data parse_url token max_upload es (record { db = empty; world = w })).db
  server_run-Consistent es w =
      run-Consistent_lem es (record { db = empty; world = w }) empty-Consistent
