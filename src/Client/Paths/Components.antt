-- ===== src/Client/Paths/Components.antt =====
-- Components of a path, and the paths that they make.
use prosiak.Base.{
  Text, List, [], ◌∷◌, ◌++◌, append-nil, append_assoc, Bool, Bool-cases, true, false, ◌||◌, ◌≡◌,
  inl, inr, refl, ap, sym, ◌∙◌, arith, eqb, All, reverse, reverse-append, any,
}
use prosiak.Client.Paths.{is_slash, components, join, dot, dot_dot, resolve, clean}

-- A name of a file in a directory.
pub record IsPlain (p : Text) : Type 0 where
  pub filled : eqb p [] ≡ false
  pub not_dot : eqb p dot ≡ false
  pub not_up : eqb p dot_dot ≡ false
  pub no_slash : any is_slash p ≡ false

pub or-false : (a b : Bool) → (a || b) ≡ false → (a ≡ false) × (b ≡ false)
or-false a b h = ground arith

pub components-cons : (s : Text) → (p : Text) × (ps : List Text) × (components s ≡ p ∷ ps)
unfolding components
components-cons [] = ([], [], refl)
components-cons (c ∷ s) = elim (Bool-cases (is_slash c)) [
  | inl slash ↦ ([], components s, rw slash refl)
  | inr other ↦ let (p, ps, e) = components-cons s in (c ∷ p, ps, rw (other, e) refl)
]

pub components-append : (s t : Text) → components (s ++ b'/' ∷ t) ≡ components s ++ components t
unfolding components
components-append [] t = refl
components-append (c ∷ s) t = elim (Bool-cases (is_slash c)) [
  | inl slash ↦ rw slash (ap (◌∷◌ []) (components-append s t))
  | inr other ↦ let (p, ps, e) = components-cons s in rw (other, components-append s t, e) refl
]

pub components-plain : (p : Text) → any is_slash p ≡ false → components p ≡ p ∷ []
unfolding components any
components-plain [] h = refl
components-plain (c ∷ p) h =
    let (other, rest) = or-false (is_slash c) (any is_slash p) h in
    rw (other, components-plain p rest) refl

pub components-join :
    (p : Text) (ps : List Text) → All IsPlain (p ∷ ps) → components (join (p ∷ ps)) ≡ p ∷ ps
unfolding join
components-join p [] h = components-plain p h.0.no_slash
components-join p (q ∷ ps) h =
    components-append p (join (q ∷ ps))
    ∙ rw (components-plain p h.0.no_slash, components-join q ps h.1) refl

pub join-append :
    (p : Text) (ps : List Text) (q : Text) (qs : List Text)
    → join ((p ∷ ps) ++ q ∷ qs) ≡ join (p ∷ ps) ++ b'/' ∷ join (q ∷ qs)
unfolding join
join-append p [] q qs = refl
join-append p (r ∷ ps) q qs =
    ap (λ s. p ++ b'/' ∷ s) (join-append r ps q qs)
    ∙ sym (append_assoc p (b'/' ∷ join (r ∷ ps)) (b'/' ∷ join (q ∷ qs)))

pub resolve-nil :
    (rooted : Bool) (kept ps : List Text) → resolve rooted kept ([] ∷ ps) ≡ resolve rooted kept ps
unfolding resolve eqb
resolve-nil rooted kept ps = refl

-- Plain components are kept as they are.
pub resolve-plain :
    (rooted : Bool) (kept ps : List Text)
    → All IsPlain ps
    → resolve rooted kept ps ≡ reverse kept ++ ps
unfolding resolve
resolve-plain rooted kept [] h = sym (append-nil (reverse kept))
resolve-plain rooted kept (p ∷ ps) h =
    rw (h.0.filled, h.0.not_dot, h.0.not_up)
      (resolve-plain rooted (p ∷ kept) ps h.1
        ∙ ap (λ l. l ++ ps) (reverse-append (p ∷ []) kept)
        ∙ append_assoc (reverse kept) (p ∷ []) ps)

-- The path below the root of plain components.
pub clean-plain :
    (p : Text) (ps : List Text)
    → All IsPlain (p ∷ ps)
    → clean (b'/' ∷ join (p ∷ ps)) ≡ b'/' ∷ join (p ∷ ps)
unfolding clean components
clean-plain p ps h =
    ap (λ l. b'/' ∷ join (resolve true [] ([] ∷ l))) (components-join p ps h)
    ∙ ap (λ l. b'/' ∷ join l) (first_empty ∙ resolve-plain true [] (p ∷ ps) h)
  where
    first_empty : resolve true [] ([] ∷ p ∷ ps) ≡ resolve true [] (p ∷ ps)
    first_empty = resolve-nil true [] (p ∷ ps)

-- A slash at the end changes nothing.
pub resolve-plain_slash :
    (rooted : Bool) (kept ps : List Text)
    → All IsPlain ps
    → resolve rooted kept (ps ++ [] ∷ []) ≡ reverse kept ++ ps
unfolding resolve
resolve-plain_slash rooted kept [] h = resolve-nil rooted kept [] ∙ sym (append-nil (reverse kept))
resolve-plain_slash rooted kept (p ∷ ps) h =
    rw (resolve, h.0.filled, h.0.not_dot, h.0.not_up)
      (resolve-plain_slash rooted (p ∷ kept) ps h.1
        ∙ ap (λ l. l ++ ps) (reverse-append (p ∷ []) kept)
        ∙ append_assoc (reverse kept) (p ∷ []) ps)
