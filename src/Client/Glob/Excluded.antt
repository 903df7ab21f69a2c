-- ===== src/Client/Glob/Excluded.antt =====
-- The entries that a job leaves out (cmd/backupctl/main.go: newExcludeMatcher, match).
use prosiak.Base.{
  Text, text, List, [], ◌∷◌, ◌++◌, Bool, Bool-cases, true, false, ◌||◌, some, ◌≡◌, ◌↔◌, ◌⊎◌, inl,
  inr, refl, ap, sym, ◌∙◌, arith, if◌then◌else◌, eqb, any,
}
use prosiak.Client.Glob.{trim_slash, clean_pattern, new_exclude_matcher, excludes, match_path}
use prosiak.Client.Glob.Syntax.{Regexp, match_string}
use prosiak.Client.Glob.Compiled.{glob_items, compile-glob_to_regexp}
use prosiak.Client.Glob.Matched.{Pieces, match_string→Pieces, Pieces→match_string}

-- A path without the slashes around it fits a pattern as it is, or as a directory with a slash behind
-- it. An empty pattern fits nothing.
pub record Fits (path : Text) (is_dir : Bool) (pattern : Text) : Type 0 where
  pub filled : eqb (clean_pattern pattern) [] ≡ false
  pub pieces :
      Pieces (glob_items (clean_pattern pattern)) path
      ⊎ ((is_dir ≡ true) × Pieces (glob_items (clean_pattern pattern)) (path ++ text "/"))

-- One of the patterns fits.
pub data Excluded (path : Text) (is_dir : Bool) : List Text → Type 0 where
  here :
      {pattern : Text} {patterns : List Text}
      → Fits path is_dir pattern
      → Excluded path is_dir (pattern ∷ patterns)
  there :
      {pattern : Text} {patterns : List Text}
      → Excluded path is_dir patterns
      → Excluded path is_dir (pattern ∷ patterns)

-- The expressions that the patterns compile to.
unfoldable compiled : List Text → List Regexp
compiled [] = []
compiled (pattern ∷ patterns) =
    let rest = compiled patterns in
    if eqb (clean_pattern pattern) [] then rest else glob_items (clean_pattern pattern) ∷ rest

new_exclude_matcher-compiled :
    (patterns : List Text) → new_exclude_matcher patterns ≡ some (compiled patterns)
unfolding new_exclude_matcher compiled
new_exclude_matcher-compiled [] = refl
new_exclude_matcher-compiled (pattern ∷ patterns) =
    rw (compile-glob_to_regexp (clean_pattern pattern), new_exclude_matcher-compiled patterns)
      (ground arith)

compiled-blank :
    (pattern : Text) (patterns : List Text)
    → eqb (clean_pattern pattern) [] ≡ true
    → compiled (pattern ∷ patterns) ≡ compiled patterns
unfolding compiled
compiled-blank pattern patterns h = rw h refl

compiled-filled :
    (pattern : Text) (patterns : List Text)
    → eqb (clean_pattern pattern) [] ≡ false
    → compiled (pattern ∷ patterns) ≡ glob_items (clean_pattern pattern) ∷ compiled patterns
unfolding compiled
compiled-filled pattern patterns h = rw h refl

module _ (path : Text) (is_dir : Bool) where
  excludes-Pieces :
      (re : Regexp)
      → (excludes path is_dir re ≡ true)
        ↔ (Pieces re path ⊎ ((is_dir ≡ true) × Pieces re (path ++ text "/")))
  excludes-Pieces re = (to, from)
    where
      to :
          excludes path is_dir re ≡ true
          → Pieces re path ⊎ ((is_dir ≡ true) × Pieces re (path ++ text "/"))
      to h = elim (Bool-cases (match_string re path)) [
        | inl plain ↦ inl (match_string→Pieces re path plain)
        | inr other ↦ inr (
          ground (arith, h, other),
          match_string→Pieces re (path ++ text "/") (ground (arith, h, other)),
        )
      ]

      from :
          Pieces re path ⊎ ((is_dir ≡ true) × Pieces re (path ++ text "/"))
          → excludes path is_dir re ≡ true
      from (inl plain) = ground (arith, Pieces→match_string re path plain)
      from (inr (dir, slash)) = ground (arith, dir, Pieces→match_string re (path ++ text "/") slash)

  abbrev found : List Text → Bool
  found patterns = any (excludes path is_dir) (compiled patterns)

  first-Excluded :
      (pattern : Text) (patterns : List Text)
      → eqb (clean_pattern pattern) [] ≡ false
      → (excludes path is_dir (glob_items (clean_pattern pattern)) || found patterns) ≡ true
      → (found patterns ≡ true → Excluded path is_dir patterns)
      → Excluded path is_dir (pattern ∷ patterns)
  first-Excluded pattern patterns filled h later_excluded =
      elim (Bool-cases (excludes path is_dir (glob_items (clean_pattern pattern)))) [
        | inl now ↦ here (record {
          filled = filled;
          pieces = (excludes-Pieces (glob_items (clean_pattern pattern))).0 now;
        })
        | inr later ↦ there (later_excluded (ground (arith, h, later)))
      ]

  any→Excluded : (patterns : List Text) → found patterns ≡ true → Excluded path is_dir patterns
  unfolding compiled any
  any→Excluded [] h = absurd (ground (arith, h))
  any→Excluded (pattern ∷ patterns) h = elim (Bool-cases (eqb (clean_pattern pattern) [])) [
    | inl blank ↦ there (
        any→Excluded patterns
          (sym (ap (any (excludes path is_dir)) (compiled-blank pattern patterns blank)) ∙ h))
    | inr filled ↦
        first-Excluded pattern patterns filled
          (sym (ap (any (excludes path is_dir)) (compiled-filled pattern patterns filled)) ∙ h)
          (any→Excluded patterns)
  ]

  Excluded→any : (patterns : List Text) → Excluded path is_dir patterns → found patterns ≡ true
  unfolding any
  Excluded→any [] h = elim h [ ]
  Excluded→any (pattern ∷ patterns) (here h) =
      ap (any (excludes path is_dir)) (compiled-filled pattern patterns h.filled)
      ∙ ground (arith, (excludes-Pieces (glob_items (clean_pattern pattern))).1 h.pieces)
  Excluded→any (pattern ∷ patterns) (there h) = elim (Bool-cases (eqb (clean_pattern pattern) [])) [
    | inl blank ↦
        ap (any (excludes path is_dir)) (compiled-blank pattern patterns blank)
        ∙ Excluded→any patterns h
    | inr filled ↦
        ap (any (excludes path is_dir)) (compiled-filled pattern patterns filled)
        ∙ ground (arith, Excluded→any patterns h)
  ]

-- The exclude patterns of a job always compile, and they leave out an entry exactly when one of them,
-- without the spaces and then the slashes around it, is not empty and the path of the entry, without
-- the slashes around it, is made of pieces for the items of that pattern, one behind the other; for a
-- directory, the path may also have a slash behind it.
pub match_path-Excluded :
    (patterns : List Text) (path : Text) (is_dir : Bool)
    → (res : List Regexp) × (new_exclude_matcher patterns ≡ some res)
      × ((match_path res path is_dir ≡ true) ↔ Excluded (trim_slash path) is_dir patterns)
unfolding match_path
match_path-Excluded patterns path is_dir = (
  compiled patterns,
  new_exclude_matcher-compiled patterns,
  (any→Excluded (trim_slash path) is_dir patterns, Excluded→any (trim_slash path) is_dir patterns),
)
