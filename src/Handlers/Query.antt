-- ===== src/Handlers/Query.antt =====
-- The query of a request (internal/server/handlers.go): queryInt64, queryInt and how backupFile reads
-- its parameters. A query is the list of its keys and values, decoded.
use prosiak.Base.{
  ℕ, zero, suc, ◌+◌, ◌-◌, ◌*◌, ◌^◌, ℤ, pos, negsuc, Text, text, List, [], ◌∷◌, Bool, true, false,
  ◌&&◌, Option, none, some, ltb, leb, ◌==◌, if◌then◌else◌, eqb, trim_space,
}
use prosiak.Chunker.{default_chunk_size}
use prosiak.Handlers.Backup.{BackupRequest, Parts}

abbrev pub Query : Type 0
Query = List (Text × Text)

-- Values.Get: the first value, or the empty string.
unfoldable pub get : Text → Query → Text
get key [] = []
get key ((k, v) ∷ q) = if eqb key k then v else get key q

abbrev pub digit : ℕ → Bool
digit c = leb b'0' c && leb c b'9'

-- The value of a run of digits after `acc`.
unfoldable pub decimal : ℕ → Text → Option ℕ
decimal acc [] = some acc
decimal acc (c ∷ s) = let rest = decimal (acc * 10 + (c - b'0')) s in if digit c then rest else none

abbrev pub in_range : Bool → ℕ → Option ℤ
in_range true (zero) = some (pos 0)
in_range true (suc n) = if leb (suc n) (2 ^ 63) then some (negsuc n) else none
in_range false n = if ltb n (2 ^ 63) then some (pos n) else none

abbrev pub unsigned : Bool → Text → Option ℤ
unsigned negative [] = none
unsigned negative (c ∷ s) = elim (decimal 0 (c ∷ s)) [ none ↦ none | some n ↦ in_range negative n ]

-- strconv.ParseInt in base 10 at 64 bits, and Atoi.
unfoldable pub parse_int : Text → Option ℤ
unfolding decimal
parse_int [] = none
parse_int (c ∷ s) =
    if c == b'-'
    then unsigned true s
    else if c == b'+'
    then unsigned false s
    else unsigned false (c ∷ s)

-- queryInt64 and queryInt, at the value of the key.
unfoldable pub query_int : Text → ℤ → ℤ
unfolding parse_int
query_int [] fallback = fallback
query_int (c ∷ raw) fallback = elim (parse_int (c ∷ raw)) [ none ↦ fallback | some v ↦ v ]

-- The parameters of backupFile; the name is trimmed.
unfoldable pub backup_request : Query → (Option ℕ → Option Parts) → BackupRequest
unfolding get query_int
backup_request q body = record {
  chunk_size = query_int (get (text "chunk_size") q) (pos default_chunk_size);
  replication = query_int (get (text "replication") q) (pos 3);
  retention = query_int (get (text "retention") q) (pos 0);
  backup_name = trim_space (get (text "backup_name") q);
  body = body;
}
