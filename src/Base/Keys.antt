-- ===== src/Base/Keys.antt =====
-- Rows with a key, as of a PRIMARY KEY: which statements keep the keys distinct.
use mathlib.Core.Path.{◌≡◌, refl, ap, ◌∙◌, fun_ext}
use mathlib.Core.Logic.{inl, inr}
use mathlib.Core.Bool.{Bool, true, false}
use mathlib.Core.List.{List, [], ◌∷◌, ◌++◌}
use native.Mathlib.Omega.{arith}
use prosiak.Base.Tests.{Bool-cases}
use prosiak.Base.Table.{select, any, update_where}
use prosiak.Base.Rows.{any-append, any-update_where, any-select-false}

-- No two rows have one key, where `same` compares keys: a PRIMARY KEY.
module _ {ℓ} {A : Type ℓ} (same : A → A → Bool) where
  abbrev pub Distinct : List A → Type 0
  Distinct [] = Unit
  Distinct (x ∷ xs) = (any (same x) xs ≡ false) × Distinct xs

  pub Distinct-select : (p : A → Bool) (xs : List A) → Distinct xs → Distinct (select p xs)
  unfolding select
  Distinct-select p [] h = tt
  Distinct-select p (x ∷ xs) h =
      ground (arith, any-select-false p (same x) xs, Distinct-select p xs h.1)

  -- An INSERT of a new key, at the end of the table.
  pub Distinct-append_one :
      (xs : List A) (x : A)
      → ((y : A) → same y x ≡ same x y)
      → Distinct xs
      → any (same x) xs ≡ false
      → Distinct (xs ++ x ∷ [])
  unfolding any
  Distinct-append_one [] x sym_same d h = (refl, tt)
  Distinct-append_one (y ∷ ys) x sym_same d h =
      ground
        (arith, any-append (same y) ys (x ∷ []), Distinct-append_one ys x sym_same d.1, sym_same y)

  -- An UPDATE that leaves the keys alone.
  pub Distinct-update_where :
      (p : A → Bool) (f : A → A) (xs : List A)
      → ((x y : A) → p y ≡ true → same x (f y) ≡ same x y)
      → ((x y : A) → p x ≡ true → same (f x) y ≡ same x y)
      → Distinct xs
      → Distinct (update_where p f xs)
  unfolding update_where
  Distinct-update_where p f [] l r d = tt
  Distinct-update_where p f (x ∷ xs) l r d =
      let rest = Distinct-update_where p f xs l r d.1 in
      elim (Bool-cases (p x)) [
        | inl e ↦ rw e (
          any-update_where p (same (f x)) f xs (l (f x))
              ∙ ap (λ q. any q xs) (fun_ext (λ y. r x y e))
              ∙ d.0,
          rest,
        )
        | inr e ↦ rw e (any-update_where p (same x) f xs (l x) ∙ d.0, rest)
      ]
