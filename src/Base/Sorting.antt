-- ===== src/Base/Sorting.antt =====
-- ORDER BY puts rows in order: each row comes before the later ones.
use Prim.Native.Nat.{ℕ, zero, suc, ◌≤◌}
use native.Mathlib.Omega.{arith}
use mathlib.Core.Path.{◌≡◌, refl, ap}
use mathlib.Core.Logic.{◌⊎◌, inl, inr}
use mathlib.Core.Bool.{Bool, true, false}
use mathlib.Core.List.{List, [], ◌∷◌}
use prosiak.Base.Tests.{Bool-cases}
use prosiak.Base.Lists.{All, All-mono, All-take, take, drop, length}
use prosiak.Base.Table.{order_by, insert_by}
use prosiak.Base.Rows.{All-insert_by}

module _ {ℓ} {A : Type ℓ} (le : A → A → Bool) where
  abbrev pub Before : A → List A → Type 0
  Before x ys = All (λ y. le x y ≡ true) ys

  abbrev pub Ordered : List A → Type 0
  Ordered [] = Unit {0}
  Ordered (x ∷ xs) = Before x xs × Ordered xs

  -- The order compares any two rows, and is transitive.
  pub record IsOrder : Type ℓ where
    pub total : (x y : A) → le x y ≡ false → le y x ≡ true
    pub trans : (x y z : A) → le x y ≡ true → le y z ≡ true → le x z ≡ true

  insert_by-Ordered : IsOrder → (x : A) (xs : List A) → Ordered xs → Ordered (insert_by le x xs)
  unfolding insert_by
  insert_by-Ordered o x [] h = (tt, tt)
  insert_by-Ordered o x (y ∷ ys) h = elim (Bool-cases (le x y)) [
    | inl before ↦ rw before ((before, All-mono _ _ ys (λ z k. o.trans x y z before k) h.0), h)
    | inr after ↦ rw after (
      All-insert_by (λ z. le y z ≡ true) le x ys (o.total x y after) h.0,
      insert_by-Ordered o x ys h.1,
    )
  ]

  pub order_by-Ordered : IsOrder → (xs : List A) → Ordered (order_by le xs)
  unfolding order_by
  order_by-Ordered o [] = tt
  order_by-Ordered o (x ∷ xs) = insert_by-Ordered o x _ (order_by-Ordered o xs)

  -- The first rows of an ordered list come before the others.
  pub take-Ordered :
      (n : ℕ) (xs : List A) → Ordered xs → All (λ x. Before x (drop n xs)) (take n xs)
  take-Ordered zero xs h = tt
  take-Ordered (suc n) [] h = tt
  take-Ordered (suc n) (x ∷ xs) h = (drop-All n xs h.0, take-Ordered n xs h.1)
    where
      drop-All : (n : ℕ) (ys : List A) → Before x ys → Before x (drop n ys)
      drop-All zero ys h = h
      drop-All (suc n) [] h = h
      drop-All (suc n) (y ∷ ys) h = drop-All n ys h.1

  pub Ordered-take : (n : ℕ) (xs : List A) → Ordered xs → Ordered (take n xs)
  Ordered-take zero xs h = tt
  Ordered-take (suc n) [] h = tt
  Ordered-take (suc n) (x ∷ xs) h = (All-take _ n xs h.0, Ordered-take n xs h.1)

-- A LIMIT is reached, or nothing is left over.
pub full_or_all {ℓ} :
    {A : Type ℓ} (n : ℕ) (xs : List A)
    → (length (take n xs) ≡ n) ⊎ ((drop n xs ≡ []) × (length (take n xs) ≤ n))
full_or_all zero xs = inl refl
full_or_all (suc n) [] = inr (refl, omega arith)
full_or_all (suc n) (x ∷ xs) = elim (full_or_all n xs) [
  | inl full ↦ inl (ap suc full)
  | inr (none_left, few) ↦ inr (none_left, omega (arith, few))
]
