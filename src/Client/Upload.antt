-- ===== src/Client/Upload.antt =====
-- What the client asks of the server (cmd/backupctl/main.go): the query of uploadToServer, with the
-- decimal form of strconv.
pub mod Accepted
pub mod Numbers
use prosiak.Base.{
  ℕ, zero, suc, ◌+◌, ◌-◌, ◌/◌, ◌%◌, ℤ, pos, negsuc, ltb_ℤ, Text, text, [], ◌∷◌, not, ltb,
  if◌then◌else◌, eqb, select,
}
use prosiak.Handlers.Query.{Query}
use prosiak.Client.Jobs.{Job}

-- The digits of a number, in front of those of its rest. A round divides by ten, so the number and
-- one more is fuel enough.
unfoldable pub digits : ℕ → ℕ → Text → Text
digits zero n later = later
digits (suc fuel) n later =
    let rest = digits fuel (n / 10) ((b'0' + n % 10) ∷ later) in
    if ltb n 10 then (b'0' + n) ∷ later else rest

-- strconv.FormatInt in base 10, and Itoa.
unfoldable pub format_int : ℤ → Text
unfolding digits
format_int (pos n) = digits (suc n) n []
format_int (negsuc n) = b'-' ∷ digits (suc (suc n)) (suc n) []

-- Values.Set
unfoldable pub set : Text → Text → Query → Query
set key value q = (key, value) ∷ select (λ p. not (eqb key p.0)) q

-- The query that uploadToServer sends, over the one of the server's address.
unfoldable pub upload_query : Text → ℤ → ℤ → ℤ → Query → Query
unfolding set format_int
upload_query backup_name retention chunk_size replication base =
    let sized = set (text "chunk_size") (format_int chunk_size) base in
    let copied = set (text "replication") (format_int replication) sized in
    let named =
      if eqb backup_name [] then copied else set (text "backup_name") backup_name copied in
    if ltb_ℤ (pos 0) retention then set (text "retention") (format_int retention) named else named

-- The query for a job.
unfoldable pub job_query : Job → Query → Query
unfolding upload_query
job_query j = upload_query j.name j.retention j.chunk_size j.replication
