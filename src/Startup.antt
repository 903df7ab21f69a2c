-- ===== src/Startup.antt =====
-- How the server and the nodes start: the flags with the configuration, TLS, and the order of the
-- checks (cmd/backup-server/main.go, cmd/backup-node/main.go, internal/tlsconfig/tlsconfig.go).
pub mod Tls
pub mod ServerMain
pub mod NodeMain
pub mod Capacity
pub mod Serving
pub mod NodeServing
use prosiak.Base.{Text, [], Bool, not, ◌&&◌, if◌then◌else◌, eqb, ℤ, pos, eqb_ℤ}

-- A value of the configuration replaces a flag that was not given on the command line, unless it is
-- empty.
abbrev pub pick_text : Bool → Text → Text → Text
pick_text overridden configured flag =
    if not (eqb configured []) && not overridden then configured else flag

abbrev pub pick_int : Bool → ℤ → ℤ → ℤ
pick_int overridden configured flag =
    if not (eqb_ℤ configured (pos 0)) && not overridden then configured else flag

abbrev pub pick_bool : Bool → Bool → Bool → Bool
pick_bool overridden configured flag = if configured && not overridden then configured else flag
