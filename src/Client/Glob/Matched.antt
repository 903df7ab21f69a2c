-- ===== src/Client/Glob/Matched.antt =====
-- The paths that exclude patterns match (cmd/backupctl/main.go: match).
use prosiak.Base.{
  ℕ, Text, text, [], ◌∷◌, ◌++◌, append_assoc, Bool, Bool-cases, true, false, not, ◌≡◌, ◌↔◌, ◌⊎◌,
  inl, inr, refl, ap, sym, subst, fun_ext, ◌∙◌, arith, ◌==◌, eqb_iff, any,
}
use prosiak.Client.Paths.{is_slash}
use prosiak.Client.Glob.Syntax.{
  Item, literal, not_slash, not_slashes, anything, directories, Regexp, repeated, one, other_slash,
  in_line, match_string,
}

-- A text without a line break.
abbrev pub OneLine : Text → Type 0
OneLine s = any (λ c. c == b'\n') s ≡ false

-- The texts that an item stands for.
unfoldable pub Means : Item → Text → Type 0
Means (literal c) s = s ≡ c ∷ []
Means not_slash s = (c : ℕ) × (is_slash c ≡ false) × (s ≡ c ∷ [])
Means not_slashes s = any is_slash s ≡ false
Means anything s = OneLine s
Means directories s = (s ≡ []) ⊎ ((u : Text) × OneLine u × (s ≡ u ++ text "/"))

-- A text in pieces, one for each item.
unfoldable pub Pieces : Regexp → Text → Type 0
unfolding Means
Pieces [] s = s ≡ []
Pieces (item ∷ items) s = (u : Text) × (v : Text) × (s ≡ u ++ v) × Means item u × Pieces items v

repeated-split :
    (test : ℕ → Bool) (then_ : Text → Bool) (s : Text)
    → (repeated test then_ s ≡ true) ↔ (
        (u : Text) × (v : Text) × (s ≡ u ++ v)
        × (any (λ c. not (test c)) u ≡ false)
        × (then_ v ≡ true))
unfolding repeated any
repeated-split test then_ s =
    (to s, λ (u, v, e, h, h'). subst (λ x. repeated test then_ x ≡ true) (sym e) (from u v h h'))
  where
    to :
        (s : Text)
        → repeated test then_ s ≡ true
        → (u : Text) × (v : Text) × (s ≡ u ++ v)
          × (any (λ c. not (test c)) u ≡ false)
          × (then_ v ≡ true)
    to [] h = ([], [], refl, refl, h)
    to (c ∷ s) h = elim (Bool-cases (then_ (c ∷ s))) [
      | inl now ↦ ([], c ∷ s, refl, refl, now)
      | inr later ↦
          let (u, v, e, passed, then_v) = to s (ground (arith, h, later)) in
          (c ∷ u, v, ap (◌∷◌ c) e, ground (arith, h, later, passed), then_v)
    ]

    from :
        (u v : Text)
        → any (λ c. not (test c)) u ≡ false
        → then_ v ≡ true
        → repeated test then_ (u ++ v) ≡ true
    from [] [] h h' = h'
    from [] (c ∷ v) h h' = ground (arith, h')
    from (c ∷ u) v h h' = ground (arith, from u v, h, h')

any-not-not : (test : ℕ → Bool) (s : Text) → any (λ c. not (not (test c))) s ≡ any test s
any-not-not test s = ap (λ t. any t s) (fun_ext (λ c. twice (test c)))
  where
    twice : (b : Bool) → not (not b) ≡ b
    twice b = ground arith

one-split :
    (test : ℕ → Bool) (then_ : Text → Bool) (s : Text)
    → (one test then_ s ≡ true)
      ↔ ((c : ℕ) × (v : Text) × (s ≡ c ∷ v) × (test c ≡ true) × (then_ v ≡ true))
one-split test then_ s = (to s, λ (c, v, e, h, h'). rw e (ground (arith, h, h')))
  where
    to :
        (s : Text)
        → one test then_ s ≡ true
        → (c : ℕ) × (v : Text) × (s ≡ c ∷ v) × (test c ≡ true) × (then_ v ≡ true)
    to [] h = absurd (ground (arith, h))
    to (c ∷ s) h = (c, s, refl, ground (arith, h), ground (arith, h))

-- An expression matches exactly the texts that its items make, piece by piece.
pub match_string→Pieces : (items : Regexp) (s : Text) → match_string items s ≡ true → Pieces items s
unfolding match_string Pieces
match_string→Pieces [] s h = (eqb_iff s []).0 h
match_string→Pieces (literal c ∷ items) s h =
    let (d, v, e, same, rest) = (one-split (◌==◌ c) (match_string items) s).0 h in
    (d ∷ [], v, e, ap (λ x. x ∷ []) (sym (ground (arith, same))), match_string→Pieces items v rest)
match_string→Pieces (not_slash ∷ items) s h =
    let (d, v, e, other, rest) = (one-split other_slash (match_string items) s).0 h in
    (d ∷ [], v, e, (d, ground (arith, other), refl), match_string→Pieces items v rest)
match_string→Pieces (not_slashes ∷ items) s h =
    let (u, v, e, flat, rest) = (repeated-split other_slash (match_string items) s).0 h in
    (u, v, e, sym (any-not-not is_slash u) ∙ flat, match_string→Pieces items v rest)
match_string→Pieces (anything ∷ items) s h =
    let (u, v, e, flat, rest) = (repeated-split in_line (match_string items) s).0 h in
    (u, v, e, sym (any-not-not (λ c. c == b'\n') u) ∙ flat, match_string→Pieces items v rest)
match_string→Pieces (directories ∷ items) s h = elim (Bool-cases (match_string items s)) [
  | inl none_ ↦ ([], s, refl, inl refl, match_string→Pieces items s none_)
  | inr other ↦
      let (u, v, e, flat, rest) =
        (repeated-split in_line (one is_slash (match_string items)) s).0
          (ground (arith, h, other)) in
      let (d, w, e', slash, rest') = (one-split is_slash (match_string items) v).0 rest in
      (
        u ++ text "/",
        w,
        e
            ∙ ap (◌++◌ u) (e' ∙ ap (λ x. x ∷ w) (ground (arith, slash)))
            ∙ sym (append_assoc u (text "/") w),
        inr (u, sym (any-not-not (λ c. c == b'\n') u) ∙ flat, refl),
        match_string→Pieces items w rest',
      )
]

pub Pieces→match_string : (items : Regexp) (s : Text) → Pieces items s → match_string items s ≡ true
unfolding match_string Pieces
Pieces→match_string [] s h = (eqb_iff s []).1 h
Pieces→match_string (literal c ∷ items) s (u, v, e, same, rest) =
    (one-split (◌==◌ c) (match_string items) s).1
      (c, v, e ∙ ap (λ x. x ++ v) same, ground arith, Pieces→match_string items v rest)
Pieces→match_string (not_slash ∷ items) s (u, v, e, (c, other, same), rest) =
    (one-split other_slash (match_string items) s).1
      (c, v, e ∙ ap (λ x. x ++ v) same, ground (arith, other), Pieces→match_string items v rest)
Pieces→match_string (not_slashes ∷ items) s (u, v, e, flat, rest) =
    (repeated-split other_slash (match_string items) s).1
      (u, v, e, any-not-not is_slash u ∙ flat, Pieces→match_string items v rest)
Pieces→match_string (anything ∷ items) s (u, v, e, flat, rest) =
    (repeated-split in_line (match_string items) s).1
      (u, v, e, any-not-not (λ c. c == b'\n') u ∙ flat, Pieces→match_string items v rest)
Pieces→match_string (directories ∷ items) s (u, v, e, inl empty, rest) =
    let now : match_string items s ≡ true =
      subst (λ x. match_string items x ≡ true) (sym (e ∙ ap (λ x. x ++ v) empty))
        (Pieces→match_string items v rest) in
    ground (arith, now)
Pieces→match_string (directories ∷ items) s (u, v, e, inr (w, flat, same), rest) =
    let below = (repeated-split in_line (one is_slash (match_string items)) s).1 (
      w,
      text "/" ++ v,
      e ∙ ap (λ x. x ++ v) same ∙ append_assoc w (text "/") v,
      any-not-not (λ c. c == b'\n') w ∙ flat,
      Pieces→match_string items v rest,
    ) in
    ground (arith, below)
