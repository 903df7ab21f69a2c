-- ===== src/Client/Paths/Cleaned.antt =====
-- What filepath.Clean makes of a name (cmd/backupctl/main.go).
use prosiak.Base.{
  Text, text, List, [], ◌∷◌, ◌++◌, Bool-cases, true, false, ◌||◌, ◌≡◌, ◌⊎◌, inl, inr, refl, ap, sym,
  subst, ◌∙◌, arith, eqb, eqb_refl, All, All-append, reverse, reverse-append, any,
}
use prosiak.Client.Paths.{
  is_slash, is_abs, components, join, dot, dot_dot, climb, resolve, or_dot, clean,
}
use prosiak.Client.Paths.Components.{IsPlain, components-cons, or-false}

-- No component holds a slash.
components-no_slash : (s : Text) → All (λ p. any is_slash p ≡ false) (components s)
unfolding components any
components-no_slash [] = (refl, tt)
components-no_slash (c ∷ s) = elim (Bool-cases (is_slash c)) [
  | inl slash ↦ rw slash (refl, components-no_slash s)
  | inr other ↦
      let (p, ps, e) = components-cons s in
      let rest = subst (All (λ p. any is_slash p ≡ false)) e (components-no_slash s) in
      rw (other, e) (rw (other, rest.0) refl, rest.1)
]

-- What is kept of a relative path: plain components, or a climb at the bottom of them.
abbrev Kept : List Text → Type 0
Kept kept = All IsPlain kept ⊎ ((k : List Text) × (kept ≡ k ++ dot_dot ∷ []))

climb-Kept : (kept : List Text) → Kept kept → Kept (climb false kept)
climb-Kept [] h = inr ([], refl)
climb-Kept (p ∷ kept) (inl plain) = rw plain.0.not_up (inl plain.1)
climb-Kept (p ∷ kept) (inr (k, e)) = elim (Bool-cases (eqb p dot_dot)) [
  | inl up ↦ rw up (inr (dot_dot ∷ k, ap (◌∷◌ dot_dot) e))
  | inr other ↦ rw other (inr (below k e other))
]
  where
    below :
        (k : List Text)
        → p ∷ kept ≡ k ++ dot_dot ∷ []
        → eqb p dot_dot ≡ false
        → (k' : List Text) × (kept ≡ k' ++ dot_dot ∷ [])
    below [] e other = absurd (ground (arith, other, eqb_refl p, ap (λ l. l) e))
    below (q ∷ k) e other = (k, cc)

push-Kept : (p : Text) (kept : List Text) → IsPlain p → Kept kept → Kept (p ∷ kept)
push-Kept p kept h (inl plain) = inl (h, plain)
push-Kept p kept h (inr (k, e)) = inr (p ∷ k, ap (◌∷◌ p) e)

All-reverse {ℓ κ} : {A : Type ℓ} (P : A → Type κ) (xs : List A) → All P xs → All P (reverse xs)
All-reverse P [] h = tt
All-reverse P (x ∷ xs) h =
    subst (All P) (sym (reverse-append (x ∷ []) xs))
      (All-append P (reverse xs) (x ∷ []) (All-reverse P xs h.1) (h.0, tt))

-- The components of a cleaned relative path are plain, or the first is a climb.
resolve-Kept :
    (kept ps : List Text)
    → All (λ p. any is_slash p ≡ false) ps
    → Kept kept
    → All IsPlain (resolve false kept ps)
      ⊎ ((rest : List Text) × (resolve false kept ps ≡ dot_dot ∷ rest))
unfolding resolve
resolve-Kept kept [] flat (inl plain) = inl (All-reverse IsPlain kept plain)
resolve-Kept kept [] flat (inr (k, e)) =
    inr (reverse k, ap reverse e ∙ reverse-append k (dot_dot ∷ []))
resolve-Kept kept (p ∷ ps) flat h = elim (Bool-cases (eqb p [] || eqb p dot)) [
  | inl skipped ↦ rw (skipped, resolve) (resolve-Kept kept ps flat.1 h)
  | inr named ↦ elim (Bool-cases (eqb p dot_dot)) [
    | inl up ↦
        rw (named, up, resolve) (resolve-Kept (climb false kept) ps flat.1 (climb-Kept kept h))
    | inr plain ↦
        let (filled, not_dot) = or-false (eqb p []) (eqb p dot) named in
        rw (named, plain, resolve)
          (resolve-Kept (p ∷ kept) ps flat.1 (
            push-Kept p kept
              (record { filled = filled; not_dot = not_dot; not_up = plain; no_slash = flat.0 }) h))
  ]
]

-- A cleaned relative path: plain components, or none, or a climb out.
pub data Cleaned (s : Text) : Type 0 where
  inside : (p : Text) (ps : List Text) → All IsPlain (p ∷ ps) → clean s ≡ join (p ∷ ps) → Cleaned s
  here : clean s ≡ dot → Cleaned s
  up : clean s ≡ dot_dot → Cleaned s
  out : (rest : Text) → clean s ≡ text "../" ++ rest → Cleaned s
  rooted : is_abs (clean s) ≡ true → Cleaned s

pub or_dot-join :
    (p : Text) (ps : List Text) → All IsPlain (p ∷ ps) → or_dot (join (p ∷ ps)) ≡ join (p ∷ ps)
unfolding join eqb
or_dot-join [] [] h = absurd (ground (arith, h.0.filled))
or_dot-join [] (q ∷ ps) h = refl
or_dot-join (c ∷ p) [] h = refl
or_dot-join (c ∷ p) (q ∷ ps) h = refl

plain-Cleaned :
    (s : Text) (parts : List Text) → clean s ≡ or_dot (join parts) → All IsPlain parts → Cleaned s
unfolding join
plain-Cleaned s [] e h = here e
plain-Cleaned s (p ∷ ps) e h = inside p ps h (e ∙ or_dot-join p ps h)

climb-Cleaned : (s : Text) (rest : List Text) → clean s ≡ or_dot (join (dot_dot ∷ rest)) → Cleaned s
unfolding join
climb-Cleaned s [] e = up e
climb-Cleaned s (q ∷ qs) e = out (join (q ∷ qs)) e

pub clean-Cleaned : (s : Text) → Cleaned s
unfolding clean
clean-Cleaned s = elim (Bool-cases (is_abs s)) [
  | inl slash ↦ rooted (rw (slash, clean) refl)
  | inr relative ↦ elim (resolve-Kept [] (components s) (components-no_slash s) (inl tt)) [
    | inl plain ↦ plain-Cleaned s _ (relative_clean relative) plain
    | inr (rest, e) ↦
        climb-Cleaned s rest (relative_clean relative ∙ ap (λ parts. or_dot (join parts)) e)
  ]
]
  where
    relative_clean : is_abs s ≡ false → clean s ≡ or_dot (join (resolve false [] (components s)))
    relative_clean relative = rw (relative, clean) refl
