-- ===== src/Client/Paths/Inside.antt =====
-- What safeExtractPath lets through (cmd/backupctl/main.go).
use prosiak.Base.{
  ℕ, Text, text, List, [], ◌∷◌, ◌++◌, append_assoc, Bool, Bool-cases, true, false, ◌&&◌, ◌||◌,
  Option, Option-cases, none, some, some_eq, ◌≡◌, ◌≢◌, ◌↔◌, inl, inr, refl, ap, sym, subst, ◌∙◌,
  arith, eqb, eqb_iff, eqb_other, All, All-append, cut_prefix, cut_prefix-append, append-cut_prefix,
}
use prosiak.Client.Paths.{
  is_slash, is_abs, components, join, dot, dot_dot, clean, join_path, abs, has_prefix,
  safe_extract_path,
}
use prosiak.Client.Paths.Components.{
  IsPlain, components-append, components-join, join-append, clean-plain,
}
use prosiak.Client.Paths.Cleaned.{inside, here, up, out, rooted, clean-Cleaned}

-- A path of plain components passes the first test.
abbrev pub refused : Text → Bool
refused cleaned =
    eqb cleaned dot || is_abs cleaned || has_prefix (text "../") cleaned || eqb cleaned dot_dot

components-slash : (c : ℕ) (t : Text) → is_slash c ≡ true → components (c ∷ t) ≡ [] ∷ components t
unfolding components
components-slash c t h = rw h refl

module _ (s p : Text) (ps : List Text) (h : IsPlain p) (e : components s ≡ p ∷ ps) where
  -- The first component is none of those that are not plain.
  first_ne : (q : Text) (qs : List Text) → eqb p q ≡ false → components s ≢ q ∷ qs
  first_ne q qs other same = let p_q : p ≡ q = cc in ground (arith, other, (eqb_iff p q).1 p_q)

  text_ne : (q : Text) (qs : List Text) → eqb p q ≡ false → components q ≡ q ∷ qs → eqb s q ≡ false
  text_ne q qs other e' = eqb_other s q (λ same. first_ne q qs other (ap components same ∙ e'))

  pub plain-is_abs : is_abs s ≡ false
  plain-is_abs = elim (Bool-cases (is_abs s)) [
    | inr relative ↦ relative
    | inl slash ↦ absurd (starts s slash e)
  ]
    where
      starts : (t : Text) → is_abs t ≡ true → components t ≡ p ∷ ps → ⊥
      starts [] slash e' = ground (arith, slash)
      starts (c ∷ t) slash e' =
          let p_nil : p ≡ [] = cc (components-slash c t slash) in
          ground (arith, h.filled, (eqb_iff p []).1 p_nil)

  plain-has_prefix : has_prefix (text "../") s ≡ false
  unfolding eqb components cut_prefix
  plain-has_prefix = elim (Option-cases (cut_prefix (text "../") s)) [
    | inl other ↦ rw other refl
    | inr (rest, cut) ↦ absurd (
        first_ne dot_dot (components rest) h.not_up (
          ap components (append-cut_prefix (text "../") s rest cut)
          ∙ components-append dot_dot rest))
  ]

  pub plain-refused : refused s ≡ false
  unfolding components
  plain-refused = ground (
    arith,
    text_ne dot [] h.not_dot refl,
    plain-is_abs,
    plain-has_prefix,
    text_ne dot_dot [] h.not_up refl,
  )

-- The directory below the root that a list of plain components makes.
abbrev pub directory : Text → List Text → Text
directory p ps = b'/' ∷ join (p ∷ ps)

module _ (cwd d : Text) (ds : List Text) (plain_dir : All IsPlain (d ∷ ds)) where
  target :
      (p : Text) (ps : List Text)
      → All IsPlain (p ∷ ps)
      → abs cwd (join_path (directory d ds) (join (p ∷ ps)))
        ≡ directory d ds ++ b'/' ∷ join (p ∷ ps)
  unfolding abs join_path
  target p ps h = ap (abs cwd) cleaned ∙ cleaned
    where
      whole : b'/' ∷ join (d ∷ (ds ++ p ∷ ps)) ≡ directory d ds ++ b'/' ∷ join (p ∷ ps)
      whole = ap (◌∷◌ b'/') (join-append d ds p ps)

      cleaned :
          clean (directory d ds ++ b'/' ∷ join (p ∷ ps)) ≡ directory d ds ++ b'/' ∷ join (p ∷ ps)
      cleaned =
          subst (λ s. clean s ≡ s) whole
            (clean-plain d (ds ++ p ∷ ps) (All-append IsPlain (d ∷ ds) (p ∷ ps) plain_dir h))

  let_through :
      (name p : Text) (ps : List Text)
      → All IsPlain (p ∷ ps)
      → clean name ≡ join (p ∷ ps)
      → safe_extract_path cwd (directory d ds) name ≡ some (directory d ds ++ b'/' ∷ join (p ∷ ps))
  unfolding safe_extract_path
  let_through name p ps h e =
      rw
        (
          e,
          plain-refused (join (p ∷ ps)) p ps h.0 (components-join p ps h),
          target p ps h,
          below,
          and-false,
        )
        refl
    where
      is_some : Option Text → Bool
      is_some found = elim found [ none ↦ false | some rest ↦ true ]

      below :
          has_prefix (directory d ds ++ text "/") (directory d ds ++ b'/' ∷ join (p ∷ ps)) ≡ true
      below = ap is_some (
          ap (cut_prefix (directory d ds ++ text "/"))
            (sym (append_assoc (directory d ds) (text "/") (join (p ∷ ps))))
          ∙ cut_prefix-append (directory d ds ++ text "/") (join (p ∷ ps)))

      and-false : (b : Bool) → (b && false) ≡ false
      and-false b = ground arith

  refused-none :
      (name t : Text)
      → refused (clean name) ≡ true
      → safe_extract_path cwd (directory d ds) name ≢ some t
  unfolding safe_extract_path
  refused-none name t h same = absurd (no_file (sym same ∙ answer))
    where
      answer : safe_extract_path cwd (directory d ds) name ≡ none
      answer = rw (h, safe_extract_path) refl

      no_file : some t ≢ none
      no_file e = ground (arith, e)

  -- A name from an archive is let through exactly when it cleans to plain components, and it then
  -- stands for the file of these components below the directory: where the directory is an absolute
  -- path of plain components (none of them empty, a dot or a double dot), the answer is that
  -- directory with a slash and the components behind it. Any other name is refused: one that cleans
  -- to an absolute path, to a climb, or to nothing.
  pub safe_extract_path-IsPlain :
      (name t : Text)
      → (safe_extract_path cwd (directory d ds) name ≡ some t) ↔ (
          (p : Text) × (ps : List Text) × All IsPlain (p ∷ ps)
          × (clean name ≡ join (p ∷ ps))
          × (t ≡ directory d ds ++ b'/' ∷ join (p ∷ ps)))
  unfolding safe_extract_path eqb cut_prefix
  safe_extract_path-IsPlain name t = (to, from)
    where
      Through : Type 0
      Through =
          (p : Text) × (ps : List Text) × All IsPlain (p ∷ ps)
          × (clean name ≡ join (p ∷ ps))
          × (t ≡ directory d ds ++ b'/' ∷ join (p ∷ ps))

      from : Through → safe_extract_path cwd (directory d ds) name ≡ some t
      from (p, ps, h, e, same) = let_through name p ps h e ∙ ap some (sym same)

      to : safe_extract_path cwd (directory d ds) name ≡ some t → Through
      to h = elim (clean-Cleaned name) [
        | inside p ps plain e ↦ (p, ps, plain, e, some_eq (sym h ∙ let_through name p ps plain e))
        | here e ↦ absurd (refused-none name t (rw e refl) h)
        | up e ↦ absurd (refused-none name t (rw e refl) h)
        | out rest e ↦ absurd (refused-none name t (rw e refl) h)
        | rooted e ↦ absurd (refused-none name t (ground (arith, e)) h)
      ]
