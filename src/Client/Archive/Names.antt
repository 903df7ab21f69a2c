-- ===== src/Client/Archive/Names.antt =====
-- Paths below a directory, and the names that they get in an archive (cmd/backupctl/main.go:
-- addRootToTar).
use prosiak.Base.{
  ℕ, Text, text, List, [], ◌∷◌, ◌++◌, append_assoc, Bool-cases, false, some, ◌≡◌, inl, inr, refl,
  ap, sym, ◌∙◌, arith, eqb, eqb_other, length, length-append, All, All-append, cut_prefix,
  cut_prefix-append,
}
use prosiak.Client.Paths.{components, join, dot, clean, join_path}
use prosiak.Client.Paths.Components.{
  IsPlain, components-append, components-join, join-append, resolve-plain, resolve-plain_slash,
  clean-plain,
}
use prosiak.Client.Paths.Cleaned.{or_dot-join}
use prosiak.Client.Paths.Inside.{plain-is_abs, plain-refused}
use prosiak.Client.Archive.{rel, dir_name, has_slash_suffix}

-- The absolute path of a list of components.
abbrev pub rooted : List Text → Text
rooted ps = b'/' ∷ join ps

join-filled : (p : Text) (ps : List Text) → All IsPlain (p ∷ ps) → eqb (join (p ∷ ps)) [] ≡ false
unfolding join eqb
join-filled [] ps h = absurd (ground (arith, h.0.filled))
join-filled (c ∷ p) [] h = refl
join-filled (c ∷ p) (q ∷ ps) h = refl

rooted-filled :
    (p : Text) (ps : List Text) → All IsPlain (p ∷ ps) → eqb (rooted (p ∷ ps)) (text "/") ≡ false
unfolding eqb
rooted-filled p ps h = ground (arith, join-filled p ps h)

eqb-longer : (s t : Text) (c : ℕ) → eqb s (s ++ c ∷ t) ≡ false
eqb-longer s t c =
    eqb_other s (s ++ c ∷ t) (λ e. absurd (ground (arith, ap length e, length-append s (c ∷ t))))

nil-join : (p : Text) (ps : List Text) → All IsPlain (p ∷ ps) → eqb [] (join (p ∷ ps)) ≡ false
unfolding join eqb
nil-join [] ps h = absurd (ground (arith, h.0.filled))
nil-join (c ∷ p) [] h = refl
nil-join (c ∷ p) (q ∷ ps) h = refl

rel-below : (dir s : Text) → eqb dir (text "/") ≡ false → rel dir (dir ++ b'/' ∷ s) ≡ some s
unfolding rel
rel-below dir s h =
    rw (rel, eqb-longer dir s b'/', h)
      (ap (cut_prefix (dir ++ text "/")) (sym (append_assoc dir (text "/") s))
        ∙ cut_prefix-append (dir ++ text "/") s)

-- The path of a list of components from that of the first few.
pub rel-rooted :
    (ds : List Text) (q : Text) (qs : List Text)
    → All IsPlain ds
    → All IsPlain (q ∷ qs)
    → rel (rooted ds) (rooted (ds ++ q ∷ qs)) ≡ some (join (q ∷ qs))
unfolding rel eqb cut_prefix join
rel-rooted [] q qs hd hq = rw (nil-join q qs hq) refl
rel-rooted (d ∷ ds) q qs hd hq =
    ap (rel (rooted (d ∷ ds))) (ap (◌∷◌ b'/') (join-append d ds q qs))
    ∙ rel-below (rooted (d ∷ ds)) (join (q ∷ qs)) (rooted-filled d ds hd)

pub join-not_dot :
    (q : Text) (qs : List Text) → All IsPlain (q ∷ qs) → eqb (join (q ∷ qs)) dot ≡ false
join-not_dot q qs h =
    ground (arith, plain-refused (join (q ∷ qs)) q qs h.0 (components-join q qs h))

-- A file in a directory.
pub join_path-rooted :
    (p : Text) (ps : List Text) (name : Text)
    → All IsPlain (p ∷ ps)
    → IsPlain name
    → join_path (rooted (p ∷ ps)) name ≡ rooted (p ∷ (ps ++ name ∷ []))
unfolding join_path join
join_path-rooted p ps name h hn =
    ap (λ s. clean (b'/' ∷ s)) (sym (join-append p ps name []))
    ∙ clean-plain p (ps ++ name ∷ []) (All-append IsPlain (p ∷ ps) (name ∷ []) h (hn, tt))

-- The name of a directory has a slash behind it, which goes when it is cleaned.
pub clean-join :
    (q : Text) (qs : List Text) → All IsPlain (q ∷ qs) → clean (join (q ∷ qs)) ≡ join (q ∷ qs)
unfolding clean
clean-join q qs h =
    let relative = plain-is_abs (join (q ∷ qs)) q qs h.0 (components-join q qs h) in
    rw (clean, relative, components-join q qs h, resolve-plain false [] (q ∷ qs) h)
      (or_dot-join q qs h)

clean-join_slash :
    (q : Text) (qs : List Text)
    → All IsPlain (q ∷ qs)
    → clean (join (q ∷ qs) ++ text "/") ≡ join (q ∷ qs)
unfolding clean components
clean-join_slash q qs h =
    rw
      (
        clean,
        plain-is_abs (join (q ∷ qs) ++ text "/") q (qs ++ [] ∷ []) h.0 parts,
        parts,
        resolve-plain_slash false [] (q ∷ qs) h,
      )
      (or_dot-join q qs h)
  where
    parts : components (join (q ∷ qs) ++ text "/") ≡ q ∷ (qs ++ [] ∷ [])
    parts = components-append (join (q ∷ qs)) [] ∙ ap (λ l. l ++ [] ∷ []) (components-join q qs h)

pub clean-dir_name :
    (q : Text) (qs : List Text)
    → All IsPlain (q ∷ qs)
    → clean (dir_name (join (q ∷ qs))) ≡ join (q ∷ qs)
clean-dir_name q qs h = elim (Bool-cases (has_slash_suffix (join (q ∷ qs)))) [
  | inl slash ↦ rw slash (clean-join q qs h)
  | inr plain ↦ rw plain (clean-join_slash q qs h)
]
