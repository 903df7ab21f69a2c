-- ===== src/Base/Rows.antt =====
-- Laws of the table functions: what a WHERE, an UPDATE and an ORDER BY keep.
use Prim.Native.Nat.{ℕ, zero, suc, ◌+◌, ◌≤◌}
use mathlib.Core.Path.{◌≡◌, refl, ap, ◌∙◌}
use mathlib.Core.Logic.{inl, inr}
use mathlib.Core.Bool.{Bool, true, false, ◌||◌, ◌&&◌}
use mathlib.Core.List.{List, [], ◌∷◌, ◌++◌, map, flat_map}
use native.Mathlib.Omega.{arith}
use prosiak.Base.Tests.{if◌then◌else◌, Bool-cases}
use prosiak.Base.Lists.{All, All-append, length, take}
use prosiak.Base.Table.{select, delete_where, any, count_where, update_where, insert_by, order_by}

module _ {ℓ} {A : Type ℓ} where
  pub any-append : (p : A → Bool) (xs ys : List A) → any p (xs ++ ys) ≡ (any p xs || any p ys)
  unfolding any
  any-append p [] ys = refl
  any-append p (x ∷ xs) ys = ground (arith, any-append p xs ys)

  -- A row that a WHERE keeps is found as before.
  pub any-select :
      (p q : A → Bool) (xs : List A)
      → ((x : A) → q x ≡ true → p x ≡ true)
      → any q (select p xs) ≡ any q xs
  unfolding any select
  any-select p q [] h = refl
  any-select p q (x ∷ xs) h = ground (arith, any-select p q xs h, h x)

  pub any-select-false :
      (p q : A → Bool) (xs : List A) → any q xs ≡ false → any q (select p xs) ≡ false
  unfolding any select
  any-select-false p q [] h = refl
  any-select-false p q (x ∷ xs) h = ground (arith, any-select-false p q xs)

  -- No row is left that a DELETE names.
  pub any-delete_where :
      (p q : A → Bool) (xs : List A)
      → ((x : A) → q x ≡ true → p x ≡ true)
      → any q (delete_where p xs) ≡ false
  unfolding any select delete_where
  any-delete_where p q [] h = refl
  any-delete_where p q (x ∷ xs) h = ground (arith, any-delete_where p q xs h, h x)

  pub any-update_where :
      (p q : A → Bool) (f : A → A) (xs : List A)
      → ((x : A) → p x ≡ true → q (f x) ≡ q x)
      → any q (update_where p f xs) ≡ any q xs
  unfolding any update_where
  any-update_where p q f [] h = refl
  any-update_where p q f (x ∷ xs) h = ground (arith, any-update_where p q f xs h, h x)

  pub any_mono :
      (p q : A → Bool) (xs : List A)
      → ((x : A) → p x ≡ true → q x ≡ true)
      → any p xs ≡ true
      → any q xs ≡ true
  unfolding any
  any_mono p q [] h e = ground arith
  any_mono p q (x ∷ xs) h e = ground (arith, any_mono p q xs h, h x)

  pub count_where-any : (p : A → Bool) (xs : List A) → count_where p xs ≡ 0 → any p xs ≡ false
  unfolding any count_where
  count_where-any p [] h = refl
  count_where-any p (x ∷ xs) h = ground (arith, count_where-any p xs)

  pub any-count_where : (p : A → Bool) (xs : List A) → any p xs ≡ false → count_where p xs ≡ 0
  unfolding any count_where
  any-count_where p [] h = refl
  any-count_where p (x ∷ xs) h = ground (arith, any-count_where p xs)

  pub any-insert_by :
      (le : A → A → Bool) (p : A → Bool) (x : A) (xs : List A)
      → any p (insert_by le x xs) ≡ (p x || any p xs)
  unfolding any insert_by
  any-insert_by le p x [] = refl
  any-insert_by le p x (y ∷ ys) = ground (arith, any-insert_by le p x ys)

  pub any-order_by :
      (le : A → A → Bool) (p : A → Bool) (xs : List A) → any p (order_by le xs) ≡ any p xs
  unfolding any order_by
  any-order_by le p [] = refl
  any-order_by le p (x ∷ xs) =
      any-insert_by le p x (order_by le xs) ∙ ap (◌||◌ (p x)) (any-order_by le p xs)

  pub count_where-insert_by :
      (le : A → A → Bool) (p : A → Bool) (x : A) (xs : List A)
      → count_where p (insert_by le x xs) ≡ (if p x then 1 else 0) + count_where p xs
  unfolding count_where insert_by
  count_where-insert_by le p x [] = refl
  count_where-insert_by le p x (y ∷ ys) = ground (arith, count_where-insert_by le p x ys)

  -- Sorting keeps each row as often as it was.
  pub count_where-order_by :
      (le : A → A → Bool) (p : A → Bool) (xs : List A)
      → count_where p (order_by le xs) ≡ count_where p xs
  unfolding count_where order_by
  count_where-order_by le p [] = refl
  count_where-order_by le p (x ∷ xs) =
      omega (arith, count_where-insert_by le p x (order_by le xs), count_where-order_by le p xs)

  length-insert_by :
      (le : A → A → Bool) (x : A) (xs : List A) → length (insert_by le x xs) ≡ suc (length xs)
  unfolding insert_by
  length-insert_by le x [] = refl
  length-insert_by le x (y ∷ ys) = ground (arith, length-insert_by le x ys)

  pub length-order_by : (le : A → A → Bool) (xs : List A) → length (order_by le xs) ≡ length xs
  unfolding order_by
  length-order_by le [] = refl
  length-order_by le (x ∷ xs) =
      omega (arith, length-insert_by le x (order_by le xs), length-order_by le xs)

module _ {ℓ κ} {A : Type ℓ} (P : A → Type κ) where
  pub All-select : (p : A → Bool) (xs : List A) → All P xs → All P (select p xs)
  unfolding select
  All-select p [] h = tt
  All-select p (x ∷ xs) h = ground (arith, All-select p xs h.1)

  -- What the rows of a WHERE satisfy, beside what all rows do.
  pub All-of_select :
      (p : A → Bool) (xs : List A) → ((x : A) → p x ≡ true → P x) → All P (select p xs)
  unfolding select
  All-of_select p [] h = tt
  All-of_select p (x ∷ xs) h = elim (Bool-cases (p x)) [
    | inl e ↦ rw e (h x e, All-of_select p xs h)
    | inr e ↦ rw e (All-of_select p xs h)
  ]

  pub All-update_where :
      (p : A → Bool) (f : A → A) (xs : List A)
      → ((x : A) → p x ≡ true → P x → P (f x))
      → All P xs
      → All P (update_where p f xs)
  unfolding update_where
  All-update_where p f [] k h = tt
  All-update_where p f (x ∷ xs) k h =
      ground (arith, λ (e : p x ≡ true). k x e h.0, All-update_where p f xs k h.1)

  pub All-insert_by :
      (le : A → A → Bool) (x : A) (xs : List A) → P x → All P xs → All P (insert_by le x xs)
  unfolding insert_by
  All-insert_by le x [] h k = (h, tt)
  All-insert_by le x (y ∷ ys) h k = ground (arith, All-insert_by le x ys h k.1)

  pub All-order_by : (le : A → A → Bool) (xs : List A) → All P xs → All P (order_by le xs)
  unfolding order_by
  All-order_by le [] h = tt
  All-order_by le (x ∷ xs) h = All-insert_by le x (order_by le xs) h.0 (All-order_by le xs h.1)

-- A WHERE narrows what all rows satisfy.
pub All-select_mono {ℓ κ κ'} :
    {A : Type ℓ} (P : A → Type κ) (Q : A → Type κ') (p : A → Bool) (xs : List A)
    → ((x : A) → p x ≡ true → P x → Q x)
    → All P xs
    → All Q (select p xs)
unfolding select
All-select_mono P Q p [] f h = tt
All-select_mono P Q p (x ∷ xs) f h = elim (Bool-cases (p x)) [
  | inl e ↦ rw e (f x e h.0, All-select_mono P Q p xs f h.1)
  | inr e ↦ rw e (All-select_mono P Q p xs f h.1)
]

module _ {ℓ κ} {A : Type ℓ} {B : Type κ} where
  pub any-map : (p : B → Bool) (f : A → B) (xs : List A) → any p (map f xs) ≡ any (λ x. p (f x)) xs
  unfolding any
  any-map p f [] = refl
  any-map p f (x ∷ xs) = ap (◌||◌ (p (f x))) (any-map p f xs)

  pub length-map : (f : A → B) (xs : List A) → length (map f xs) ≡ length xs
  length-map f [] = refl
  length-map f (x ∷ xs) = ap suc (length-map f xs)

  pub any-flat_map :
      (p : B → Bool) (f : A → List B) (xs : List A)
      → any p (flat_map f xs) ≡ any (λ x. any p (f x)) xs
  unfolding any flat_map
  any-flat_map p f [] = refl
  any-flat_map p f (x ∷ xs) =
      any-append p (f x) (flat_map f xs) ∙ ap (◌||◌ (any p (f x))) (any-flat_map p f xs)

module _ {ℓ κ κ'} {A : Type ℓ} {B : Type κ} (P : B → Type κ') where
  pub All-map : (f : A → B) (xs : List A) → All (λ x. P (f x)) xs → All P (map f xs)
  All-map f [] h = tt
  All-map f (x ∷ xs) h = (h.0, All-map f xs h.1)

  pub All-flat_map :
      (f : A → List B) (xs : List A) → All (λ x. All P (f x)) xs → All P (flat_map f xs)
  unfolding flat_map
  All-flat_map f [] h = tt
  All-flat_map f (x ∷ xs) h = All-append P (f x) (flat_map f xs) h.0 (All-flat_map f xs h.1)

pub take_all {ℓ} : {A : Type ℓ} (n : ℕ) (xs : List A) → length xs ≤ n → take n xs ≡ xs
take_all zero [] h = refl
take_all zero (x ∷ xs) h = absurd (omega arith)
take_all (suc n) [] h = refl
take_all (suc n) (x ∷ xs) h = ap (◌∷◌ x) (take_all n xs (omega arith))

-- A row that meets `r` is among those of a WHERE and meets `q`.
pub any-select_of {ℓ} :
    {A : Type ℓ} (p q r : A → Bool) (xs : List A)
    → ((x : A) → r x ≡ true → (p x ≡ true) × (q x ≡ true))
    → any r xs ≡ true
    → any q (select p xs) ≡ true
unfolding any select
any-select_of p q r [] f h = ground arith
any-select_of p q r (x ∷ xs) f h =
    ground (arith, any-select_of p q r xs f, λ (e : r x ≡ true). f x e)

pub select-none {ℓ} :
    {A : Type ℓ} (p : A → Bool) (xs : List A) → any p xs ≡ false → select p xs ≡ []
unfolding any select
select-none p [] h = refl
select-none p (x ∷ xs) h = ground (arith, select-none p xs)

-- What holds of some row that a WHERE leaves.
pub any-select_both {ℓ} :
    {A : Type ℓ} (p q : A → Bool) (xs : List A) → any q (select p xs) ≡ any (λ x. q x && p x) xs
unfolding any select
any-select_both p q [] = refl
any-select_both p q (x ∷ xs) = ground (arith, any-select_both p q xs)
