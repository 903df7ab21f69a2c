-- ===== src/Base/Bits.antt =====
-- The lowest binary digit of a number with the digits of two others, and what is left without it.
use Prim.Native.Nat.{ℕ, zero, suc, max, digits, bit_or, bit_or-bitwise, ◌+◌, ◌*◌, ◌/◌, ◌%◌, ◌≤◌}
use mathlib.Core.Path.{◌≡◌, refl}
use native.Mathlib.Omega.{arith}

abbrev either : ℕ → ℕ → ℕ → ℕ
either count a b = digits (λ b. b) max count a b

-- A count that is great enough does not matter.
either-counts : (m n a b : ℕ) → a ≤ m → a ≤ n → either m a b ≡ either n a b
either-counts m n zero b h k = ran_out m n
  where
    ran_out : (m n : ℕ) → either m 0 b ≡ either n 0 b
    ran_out zero zero = refl
    ran_out zero (suc n) = refl
    ran_out (suc m) zero = refl
    ran_out (suc m) (suc n) = refl
either-counts zero n (suc a) b h k = absurd (omega arith)
either-counts (suc m) zero (suc a) b h k = absurd (omega arith)
either-counts (suc m) (suc n) (suc a) b h k =
    omega (arith, either-counts m n (suc a / 2) (b / 2) (omega arith) (omega arith))

bit_or-lowest : (a b : ℕ) → bit_or a b ≡ bit_or (a / 2) (b / 2) * 2 + max (a % 2) (b % 2)
bit_or-lowest zero b = omega (arith, bit_or-bitwise 0 b, bit_or-bitwise 0 (b / 2))
bit_or-lowest (suc a) b = omega (
  arith,
  bit_or-bitwise (suc a) b,
  bit_or-bitwise (suc a / 2) (b / 2),
  either-counts a (suc a / 2) (suc a / 2) (b / 2) (omega arith) (omega arith),
)

pub bit_or-half : (a b : ℕ) → bit_or a b / 2 ≡ bit_or (a / 2) (b / 2)
bit_or-half a b = omega (arith, bit_or-lowest a b)

pub bit_or-even : (a b : ℕ) → bit_or a b % 2 ≡ 0 → (a % 2 ≡ 0) × (b % 2 ≡ 0)
bit_or-even a b h = (omega (arith, bit_or-lowest a b), omega (arith, bit_or-lowest a b))
