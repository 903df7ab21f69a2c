-- ===== src/Client/Upload/Numbers.antt =====
-- The numbers of a query, as the client writes them and the server reads them (cmd/backupctl/main.go,
-- internal/server/handlers.go: queryInt64).
use prosiak.Base.{
  ℕ, zero, suc, ◌+◌, ◌/◌, ◌%◌, ◌^◌, ◌≤◌, ◌<◌, ℤ, pos, negsuc, Text, [], ◌∷◌, Bool-cases, true, some,
  ◌≡◌, inl, inr, refl, ap, sym, ◌∙◌, arith, ltb, ltb→lt,
}
use prosiak.Handlers.Query.{digit, decimal, parse_int, query_int}
use prosiak.Client.Upload.{digits, format_int}

-- Reading the digits of a number in front of others is to start from the number.
decimal-digits :
    (fuel n : ℕ) (later : Text) → n < fuel → decimal 0 (digits fuel n later) ≡ decimal n later
unfolding digits decimal
decimal-digits zero n later h = absurd (omega arith)
decimal-digits (suc fuel) n later h = elim (Bool-cases (ltb n 10)) [
  | inl small ↦
      rw small (rw (digit_char n (ltb→lt n 10 small)) (ap (λ k. decimal k later) (omega arith)))
  | inr large ↦ rw large (
      decimal-digits fuel (n / 10) ((b'0' + n % 10) ∷ later) (ground (arith, large))
      ∙ rw (digit_char (n % 10) (omega arith)) (ap (λ k. decimal k later) (omega arith)))
]
  where
    digit_char : (d : ℕ) → d < 10 → digit (b'0' + d) ≡ true
    digit_char d h = ground arith

-- The first character of a number is a digit.
digits-head :
    (fuel n : ℕ) (later : Text)
    → n < fuel
    → (d : ℕ) × (rest : Text) × (digits fuel n later ≡ (b'0' + d) ∷ rest) × (d < 10)
unfolding digits
digits-head zero n later h = absurd (omega arith)
digits-head (suc fuel) n later h = elim (Bool-cases (ltb n 10)) [
  | inl small ↦ (n, later, rw small refl, ltb→lt n 10 small)
  | inr large ↦
      let (d, rest, e, small) =
        digits-head fuel (n / 10) ((b'0' + n % 10) ∷ later) (ground (arith, large)) in
      (d, rest, rw large e, small)
]

-- The values of an int64.
abbrev pub IsInt64 : ℤ → Type 0
IsInt64 (pos n) = n < 2 ^ 63
IsInt64 (negsuc n) = n < 2 ^ 63

parse_unsigned :
    (c n : ℕ) (rest : Text)
    → b'0' ≤ c
    → decimal 0 (c ∷ rest) ≡ some n
    → n < 2 ^ 63
    → parse_int (c ∷ rest) ≡ some (pos n)
unfolding parse_int
parse_unsigned c n rest h e bound = ground arith

parse_negative :
    (c n : ℕ) (rest : Text)
    → decimal 0 (c ∷ rest) ≡ some (suc n)
    → n < 2 ^ 63
    → parse_int (b'-' ∷ c ∷ rest) ≡ some (negsuc n)
unfolding parse_int
parse_negative c n rest e bound = ground arith

-- What FormatInt writes of an int64, queryInt64 reads as that number.
pub query_int-format_int : (z fallback : ℤ) → IsInt64 z → query_int (format_int z) fallback ≡ z
unfolding query_int format_int
query_int-format_int (pos n) fallback h =
    let (d, rest, e, small) = digits-head (suc n) n [] (omega arith) in
    rw e (
      ground (
        arith,
        parse_unsigned (b'0' + d) n rest (omega arith)
            (sym (ap (decimal 0) e) ∙ decimal-digits (suc n) n [] (omega arith)) h,
      ))
query_int-format_int (negsuc n) fallback h =
    let (d, rest, e, small) = digits-head (suc (suc n)) (suc n) [] (omega arith) in
    rw e (
      ground (
        arith,
        parse_negative (b'0' + d) n rest
            (sym (ap (decimal 0) e) ∙ decimal-digits (suc (suc n)) (suc n) [] (omega arith)) h,
      ))
