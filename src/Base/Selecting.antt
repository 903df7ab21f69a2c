-- ===== src/Base/Selecting.antt =====
-- More laws of the table functions: selections of parts, and the first of an ORDER BY.
use Prim.Native.Nat.{ℕ, zero, suc}
use mathlib.Core.Path.{◌≡◌, refl}
use mathlib.Core.Bool.{Bool, true, false}
use mathlib.Core.List.{List, [], ◌∷◌, ◌++◌}
use native.Mathlib.Omega.{arith}
use prosiak.Base.Lists.{All, drop}
use prosiak.Base.Table.{select, delete_where, any, insert_by, order_by}

module _ {ℓ} {A : Type ℓ} where
  pub select-append :
      (p : A → Bool) (xs ys : List A) → select p (xs ++ ys) ≡ select p xs ++ select p ys
  unfolding select
  select-append p [] ys = refl
  select-append p (x ∷ xs) ys = ground (arith, select-append p xs ys)

  -- A DELETE of other rows is not seen.
  pub select-delete_where :
      (p q : A → Bool) (xs : List A)
      → ((x : A) → p x ≡ true → q x ≡ false)
      → select p (delete_where q xs) ≡ select p xs
  unfolding select delete_where
  select-delete_where p q [] h = refl
  select-delete_where p q (x ∷ xs) h = ground (arith, select-delete_where p q xs h, h x)

  pub select-all {κ} :
      (p : A → Bool) (P : A → Type κ) (xs : List A)
      → ((x : A) → P x → p x ≡ true)
      → All P xs
      → select p xs ≡ xs
  unfolding select
  select-all p P [] h all = refl
  select-all p P (x ∷ xs) h all = ground (arith, h x all.0, select-all p P xs h all.1)

  pub any-drop : (p : A → Bool) (n : ℕ) (xs : List A) → any p xs ≡ false → any p (drop n xs) ≡ false
  unfolding any
  any-drop p zero xs h = h
  any-drop p (suc n) [] h = refl
  any-drop p (suc n) (x ∷ xs) h = any-drop p n xs (ground arith)

  -- A row that comes strictly before all others is the first of an ORDER BY, wherever it stood.
  pub order_by-last_first :
      (le : A → A → Bool) (row : A) (xs : List A)
      → All (λ x. le x row ≡ false) xs
      → order_by le (xs ++ row ∷ []) ≡ row ∷ order_by le xs
  unfolding order_by insert_by
  order_by-last_first le row [] h = refl
  order_by-last_first le row (x ∷ xs) h =
      rw (order_by-last_first le row xs h.1) (rw (h.0, insert_by) refl)
