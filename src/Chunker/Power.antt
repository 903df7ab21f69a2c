-- ===== src/Chunker/Power.antt =====
-- nextPowerOfTwo of internal/server/handlers.go: what the shifts of its loop set.
use native.Mathlib.Nat.{
  mul_assoc, mul_comm, div-div-eq-div-mul, mul-div_left, one-le-pow, pow-le-pow_right, pow-suc,
}
use prosiak.Base.{
  ℕ, zero, suc, ◌-◌, ◌*◌, ◌/◌, ◌%◌, ◌^◌, ◌≤◌, ◌<◌, bit_or, ◌≡◌, refl, ap, sym, ◌∙◌, arith, inl, inr,
  ◌⊎◌, leb, Bool-cases, bit_or-half, bit_or-even,
}
use prosiak.Chunker.{smear, next_power_of_two}

-- A function commutes with a shift by one, and its lowest digit is 0 only where the lowest digits of
-- its argument are, as many as the modulus has.
record Smears (modulus : ℕ) (f : ℕ → ℕ) : Type 0 where
  halves : (v : ℕ) → f v / 2 ≡ f (v / 2)
  covers : (v : ℕ) → f v % 2 ≡ 0 → (q : ℕ) × (v ≡ q * modulus)

module _ (f : ℕ → ℕ) (halves : (v : ℕ) → f v / 2 ≡ f (v / 2)) where
  shifts : (n v : ℕ) → f v / 2 ^ n ≡ f (v / 2 ^ n)
  shifts zero v = omega (arith, ap f (one v))
    where
      one : (v : ℕ) → v ≡ v / 1
      one v = omega arith
  shifts (suc n) v =
      ap (λ m. f v / m) (pow-suc 2 n)
      ∙ sym (div-div-eq-div-mul (f v) (2 ^ n) 2)
      ∙ ap (λ x. x / 2) (shifts n v)
      ∙ halves (v / 2 ^ n)
      ∙ ap f (div-div-eq-div-mul v (2 ^ n) 2 ∙ ap (λ m. v / m) (sym (pow-suc 2 n)))

-- One round of the loop doubles the digits that are covered.
round-Smears :
    (n : ℕ) (f : ℕ → ℕ)
    → Smears (2 ^ n) f
    → Smears (2 ^ n * 2 ^ n) (λ v. bit_or (f v) (f v / 2 ^ n))
round-Smears n f s = record {
  halves = λ v.
      bit_or-half (f v) (f v / 2 ^ n)
      ∙ ap (λ x. bit_or x (f v / 2 ^ n / 2)) (s.halves v)
      ∙ ap (bit_or (f (v / 2))) (half v);
  covers = λ v h.
      let even = bit_or-even (f v) (f v / 2 ^ n) h in
      let (q, e) = s.covers v even.0 in
      let shifted : f v / 2 ^ n ≡ f q =
        shifts f s.halves n v
        ∙ ap f (ap (λ x. x / 2 ^ n) e ∙ mul-div_left q (one-le-pow n 2 (omega arith))) in
      let (r, e') = s.covers q (ap (λ x. x % 2) (sym shifted) ∙ even.1) in
      (r, e ∙ ap (λ x. x * 2 ^ n) e' ∙ mul_assoc r (2 ^ n) (2 ^ n));
}
  where
    swap : (v : ℕ) → v / 2 ^ n / 2 ≡ v / 2 / 2 ^ n
    swap v =
        div-div-eq-div-mul v (2 ^ n) 2
        ∙ ap (λ m. v / m) (mul_comm (2 ^ n) 2)
        ∙ sym (div-div-eq-div-mul v 2 (2 ^ n))

    half : (v : ℕ) → f v / 2 ^ n / 2 ≡ f (v / 2) / 2 ^ n
    half v =
        ap (λ x. x / 2) (shifts f s.halves n v)
        ∙ s.halves (v / 2 ^ n)
        ∙ ap f (swap v)
        ∙ sym (shifts f s.halves n (v / 2))

smear-Smears : Smears (2 ^ 64) smear
unfolding smear
smear-Smears = round-Smears 32 _ (
    round-Smears 16 _
      (round-Smears 8 _ (round-Smears 4 _ (round-Smears 2 _ (round-Smears 1 _ one_digit)))))
  where
    one_digit : Smears (2 ^ 1) (λ v. v)
    one_digit = record { halves = λ v. refl; covers = λ v h. (v / 2, omega arith) }

-- A number below 2 ^ 64 is filled with ones.
smear-ones : (k v : ℕ) → 2 ^ k ≤ v → v < 2 ^ suc k → v < 2 ^ 64 → suc (smear v) ≡ 2 ^ suc k
unfolding smear
smear-ones zero v low high h = let only : v ≡ 1 = omega arith in ap (λ x. suc (smear x)) only
smear-ones (suc k) v low high h =
    let rest =
      smear-ones k (v / 2) (omega (arith, pow-suc 2 k)) (omega (arith, pow-suc 2 (suc k)))
        (omega arith) in
    let half = smear-Smears.halves v in
    elim (parity (smear v)) [
      | inl even ↦
          let (q, e) = smear-Smears.covers v even in
          absurd (omega (arith, e, one-le-pow k 2 (omega arith), pow-suc 2 k))
      | inr odd ↦ omega (arith, rest, half, odd, pow-suc 2 (suc k))
    ]
  where
    parity : (x : ℕ) → (x % 2 ≡ 0) ⊎ (x % 2 ≡ 1)
    parity x = omega arith

-- Each number from 1 on is between two powers.
between : (fuel v : ℕ) → v ≤ fuel → 0 < v → (k : ℕ) × (2 ^ k ≤ v) × (v < 2 ^ suc k)
between zero v h p = absurd (omega arith)
between (suc fuel) zero h p = absurd (omega arith)
between (suc fuel) (suc zero) h p = (0, omega arith, omega arith)
between (suc fuel) (suc (suc v)) h p =
    let (k, low, high) = between fuel (suc (suc v) / 2) (omega arith) (omega arith) in
    (suc k, omega (arith, pow-suc 2 k), omega (arith, pow-suc 2 (suc k)))

-- nextPowerOfTwo returns the least power of two that is not below the value, for the values whose
-- power is within an int64.
pub next_power_of_two-least :
    (v : ℕ)
    → v ≤ 2 ^ 62
    → (k : ℕ) × (next_power_of_two v ≡ 2 ^ k) × (v ≤ 2 ^ k) × ((j : ℕ) → v ≤ 2 ^ j → k ≤ j)
unfolding next_power_of_two
next_power_of_two-least v h = elim (Bool-cases (leb v 1)) [
  | inl small ↦ (0, rw small refl, ground arith, λ j _. omega arith)
  | inr large ↦
      let (k, low, high) = between (v - 1) (v - 1) (omega arith) (ground arith) in
      let above : 1 < v = ground arith in
      let filled = smear-ones k (v - 1) low high (omega arith) in
      (suc k, rw large (omega (arith, filled)), omega arith, exceeded k above low)
]
  where
    order : (a b : ℕ) → (a ≤ b) ⊎ (b < a)
    order a b = omega arith

    exceeded : (k : ℕ) → 1 < v → 2 ^ k ≤ v - 1 → (j : ℕ) → v ≤ 2 ^ j → suc k ≤ j
    exceeded k above low j h = elim (order j k) [
      | inl below ↦ absurd (omega (arith, pow-le-pow_right {n = 2} (omega arith) below))
      | inr enough ↦ enough
    ]
