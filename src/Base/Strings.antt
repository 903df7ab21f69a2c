-- ===== src/Base/Strings.antt =====
-- Go strings as lists of code points: equality, order, and the functions of package `strings` that
-- the program calls. The order of code points is the byte order of their UTF-8.
use Prim.Native.Nat.{ℕ}
use Prim.Native.Char.{code}
use Prim.Native.String.{String}
use mathlib.Core.Path.{◌≡◌, refl, ap, sym, subst, ◌∙◌}
use mathlib.Core.Logic.{◌↔◌, ◌≢◌, ◌⊎◌, inl, inr}
use mathlib.Core.Bool.{Bool, true, false, ◌&&◌, ◌||◌}
use mathlib.Core.Option.{Option, none, some}
use mathlib.Core.List.{List, [], ◌∷◌, ◌++◌, reverse, reverse-append, reverse-reverse}
use native.Mathlib.Omega.{arith}
use prosiak.Base.Tests.{Bool-cases, some_eq, ltb, leb, ◌==◌, if◌then◌else◌}

abbrev pub Text : Type 0
Text = List ℕ

-- The code points of a literal.
abbrev pub text : String → Text
text String.[] = []
text (String.◌∷◌ c s) = code c ∷ text s

unfoldable pub eqb : Text → Text → Bool
eqb [] [] = true
eqb [] (y ∷ ys) = false
eqb (x ∷ xs) [] = false
eqb (x ∷ xs) (y ∷ ys) = (x == y) && eqb xs ys

pub eqb_iff : (s t : Text) → (eqb s t ≡ true) ↔ (s ≡ t)
unfolding eqb
eqb_iff [] [] = ground arith
eqb_iff [] (y ∷ ys) = ground arith
eqb_iff (x ∷ xs) [] = ground arith
eqb_iff (x ∷ xs) (y ∷ ys) = ground (arith, eqb_iff xs ys)

pub eqb_refl : (s : Text) → eqb s s ≡ true
eqb_refl s = (eqb_iff s s).1 refl

pub eqb_sym : (s t : Text) → eqb s t ≡ eqb t s
eqb_sym s t = ground (arith, eqb_iff s t, eqb_iff t s)

pub eqb_ne : (s t u : Text) → eqb s t ≡ true → eqb s u ≡ false → eqb t u ≡ false
eqb_ne s t u h k = ground (arith, eqb_iff s t, eqb_iff s u, eqb_iff t u)

pub eqb_other : (s t : Text) → s ≢ t → eqb s t ≡ false
eqb_other s t h = elim (Bool-cases (eqb s t)) [
  | inl same ↦ absurd (h ((eqb_iff s t).0 same))
  | inr other ↦ other
]

-- Lexicographic order, SQLite's BINARY collation and Go's `<` on strings.
unfoldable pub leb_text : Text → Text → Bool
leb_text [] t = true
leb_text (x ∷ xs) [] = false
leb_text (x ∷ xs) (y ∷ ys) = ltb x y || ((x == y) && leb_text xs ys)

pub leb_text_total : (s t : Text) → (leb_text s t ≡ true) ⊎ (leb_text t s ≡ true)
unfolding leb_text
leb_text_total [] t = inl refl
leb_text_total (x ∷ xs) [] = inr refl
leb_text_total (x ∷ xs) (y ∷ ys) = ground (arith, leb_text_total xs ys)

pub leb_text_antisym : (s t : Text) → leb_text s t ≡ true → leb_text t s ≡ true → s ≡ t
unfolding leb_text
leb_text_antisym [] [] h k = refl
leb_text_antisym [] (y ∷ ys) h k = ground arith
leb_text_antisym (x ∷ xs) [] h k = ground arith
leb_text_antisym (x ∷ xs) (y ∷ ys) h k = ground (arith, leb_text_antisym xs ys)

pub leb_text_trans :
    (s t u : Text) → leb_text s t ≡ true → leb_text t u ≡ true → leb_text s u ≡ true
unfolding leb_text
leb_text_trans [] t u h k = refl
leb_text_trans (x ∷ xs) [] u h k = ground arith
leb_text_trans (x ∷ xs) (y ∷ ys) [] h k = ground arith
leb_text_trans (x ∷ xs) (y ∷ ys) (z ∷ zs) h k = ground (arith, leb_text_trans xs ys zs)

-- unicode.IsSpace
pub is_space : ℕ → Bool
is_space c =
    (leb 9 c && leb c 13)
    || (c == 32)
    || (c == 0x85)
    || (c == 0xa0)
    || (c == 0x1680)
    || (leb 0x2000 c && leb c 0x200a)
    || (c == 0x2028)
    || (c == 0x2029)
    || (c == 0x202f)
    || (c == 0x205f)
    || (c == 0x3000)

pub trim_left : Text → Text
trim_left [] = []
trim_left (c ∷ s) = if is_space c then trim_left s else c ∷ s

-- strings.TrimSpace
unfoldable pub trim_space : Text → Text
unfolding trim_left is_space
trim_space s = reverse (trim_left (reverse (trim_left s)))

-- A text that does not start with a space.
abbrev Bare : Text → Type 0
Bare [] = Unit {0}
Bare (c ∷ s) = is_space c ≡ false

trim_left-Bare : (s : Text) → Bare (trim_left s)
unfolding trim_left
trim_left-Bare [] = tt
trim_left-Bare (c ∷ s) = elim (Bool-cases (is_space c)) [
  | inl space ↦ rw space (trim_left-Bare s)
  | inr other ↦ rw (other, trim_left) other
]

Bare-trim_left : (s : Text) → Bare s → trim_left s ≡ s
unfolding trim_left
Bare-trim_left [] h = refl
Bare-trim_left (c ∷ s) h = rw h refl

-- What is trimmed stands in front.
trim_left-append : (s : Text) → (p : Text) × (s ≡ p ++ trim_left s)
unfolding trim_left
trim_left-append [] = ([], refl)
trim_left-append (c ∷ s) = elim (Bool-cases (is_space c)) [
  | inl space ↦ let (p, e) = trim_left-append s in (c ∷ p, rw space (ap (◌∷◌ c) e))
  | inr other ↦ ([], rw other refl)
]

Bare-append : (s t : Text) → Bare (s ++ t) → Bare s
Bare-append [] t h = tt
Bare-append (c ∷ s) t h = h

-- Trimming what is trimmed changes nothing.
pub trim_space_idem : (s : Text) → trim_space (trim_space s) ≡ trim_space s
unfolding trim_space
trim_space_idem s =
    ap (λ t. reverse (trim_left (reverse t))) (Bare-trim_left trimmed bare)
    ∙ ap (λ t. reverse (trim_left t)) (reverse-reverse back)
    ∙ ap reverse (Bare-trim_left back (trim_left-Bare (reverse (trim_left s))))
  where
    back : Text
    back = trim_left (reverse (trim_left s))

    trimmed : Text
    trimmed = reverse back

    bare : Bare trimmed
    bare =
        let (p, e) = trim_left-append (reverse (trim_left s)) in
        Bare-append trimmed (reverse p) (
          subst Bare (sym (reverse-reverse (trim_left s)) ∙ ap reverse e ∙ reverse-append p back)
            (trim_left-Bare s))

-- What follows a prefix, if it is one.
unfoldable pub cut_prefix : Text → Text → Option Text
cut_prefix [] s = some s
cut_prefix (p ∷ ps) [] = none
cut_prefix (p ∷ ps) (c ∷ s) = if p == c then cut_prefix ps s else none

-- strings.TrimPrefix s p, with the arguments exchanged.
unfoldable pub trim_prefix : Text → Text → Text
trim_prefix p s = elim (cut_prefix p s) [ none ↦ s | some rest ↦ rest ]

-- What is in front of a suffix, if it is one.
abbrev pub cut_suffix : Text → Text → Option Text
cut_suffix suffix s = elim (cut_prefix (reverse suffix) (reverse s)) [
  | none ↦ none
  | some rest ↦ some (reverse rest)
]

-- strings.TrimSuffix s p, with the arguments exchanged.
abbrev pub trim_suffix : Text → Text → Text
trim_suffix p s = elim (cut_suffix p s) [ none ↦ s | some rest ↦ rest ]

pub cut_prefix-append : (p s : Text) → cut_prefix p (p ++ s) ≡ some s
unfolding cut_prefix
cut_prefix-append [] s = refl
cut_prefix-append (c ∷ p) s = ground (arith, cut_prefix-append p s)

pub append-cut_prefix : (p s rest : Text) → cut_prefix p s ≡ some rest → s ≡ p ++ rest
unfolding cut_prefix
append-cut_prefix [] s rest h = some_eq h
append-cut_prefix (c ∷ p) [] rest h = absurd (ground (arith, h))
append-cut_prefix (c ∷ p) (d ∷ s) rest h = elim (Bool-cases (c == d)) [
  | inl same ↦ ground (arith, same, append-cut_prefix p s rest (rw same at h))
  | inr other ↦ absurd (ground (arith, other, h))
]
