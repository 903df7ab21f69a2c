-- ===== src/Client/Glob/Compiled.antt =====
-- What an exclude pattern compiles to (cmd/backupctl/main.go: globToRegexp).
use prosiak.Base.{
  ℕ, zero, suc, ◌≤◌, Text, text, [], ◌∷◌, Bool-cases, false, Option-cases, none, some, ◌≡◌, inl,
  inr, refl, ap, sym, ◌∙◌, arith, ◌==◌, if◌then◌else◌, length, length-append, cut_prefix,
  append-cut_prefix, any,
}
use prosiak.Client.Glob.{escaped, glob_step, glob_loop, glob_to_regexp}
use prosiak.Client.Glob.Syntax.{
  Item, literal, not_slash, not_slashes, anything, directories, Regexp, meta, compile,
}
use prosiak.Client.Glob.Printed.{print_item, print, compile-print}

-- The item for a step of the loop.
unfoldable pub step_item : ℕ → Text → Item × Text
step_item c s =
    if c == b'*'
    then elim (cut_prefix (text "*") s) [
      | some rest ↦ elim (cut_prefix (text "/") rest) [
        | some below ↦ (directories, below)
        | none ↦ (anything, rest)
      ]
      | none ↦ (not_slashes, s)
    ]
    else if c == b'?'
    then (not_slash, s)
    else (literal c, s)

unfoldable pub items_loop : ℕ → Text → Regexp
unfolding step_item
items_loop fuel [] = []
items_loop zero (c ∷ s) = []
items_loop (suc fuel) (c ∷ s) = let (item, rest) = step_item c s in item ∷ items_loop fuel rest

meta-escaped : (c : ℕ) → (c == b'*') ≡ false → (c == b'?') ≡ false → meta c ≡ escaped c
unfolding meta escaped any
meta-escaped c h h' = ground arith

glob_step-print :
    (c : ℕ) (s : Text) → glob_step c s ≡ (print_item (step_item c s).0, (step_item c s).1)
unfolding glob_step step_item print_item
glob_step-print c s = elim (Bool-cases (c == b'*')) [
  | inl star ↦ elim (Option-cases (cut_prefix (text "*") s)) [
    | inl one_star ↦ rw (star, one_star) refl
    | inr (rest, two_stars) ↦ elim (Option-cases (cut_prefix (text "/") rest)) [
      | inl last ↦ rw (star, two_stars, last) refl
      | inr (below, slash) ↦ rw (star, two_stars, slash) refl
    ]
  ]
  | inr other ↦ elim (Bool-cases (c == b'?')) [
    | inl mark ↦ rw (other, mark) refl
    | inr plain ↦ rw (other, plain, sym (meta-escaped c other plain)) (ground arith)
  ]
]

glob_loop-print : (fuel : ℕ) (s : Text) → glob_loop fuel s ≡ print (items_loop fuel s)
unfolding glob_loop items_loop print
glob_loop-print fuel [] = refl
glob_loop-print zero (c ∷ s) = refl
glob_loop-print (suc fuel) (c ∷ s) =
    rw (glob_step-print c s, glob_loop-print fuel (step_item c s).1) refl

-- The items that a pattern stands for.
abbrev pub glob_items : Text → Regexp
glob_items pattern = items_loop (length pattern) pattern

-- What globToRegexp writes for a pattern compiles, and to the items of the pattern: `**/` is any
-- directories or none, any other `**` is any text of a line, a single star is any text without a
-- slash, a question mark is any character but a slash, and every other character is itself, whether
-- or not it has a meaning in regular expressions.
pub compile-glob_to_regexp :
    (pattern : Text) → compile (glob_to_regexp pattern) ≡ some (glob_items pattern)
unfolding glob_to_regexp
compile-glob_to_regexp pattern =
    ap compile (glob_loop-print (length pattern) pattern) ∙ compile-print (glob_items pattern)

cut-shorter : (p s rest : Text) → cut_prefix p s ≡ some rest → length rest ≤ length s
cut-shorter p s rest h =
    ground (arith, ap length (append-cut_prefix p s rest h), length-append p rest)

step_item-shorter : (c : ℕ) (s : Text) → length (step_item c s).1 ≤ length s
unfolding step_item
step_item-shorter c s = elim (Bool-cases (c == b'*')) [
  | inl star ↦ elim (Option-cases (cut_prefix (text "*") s)) [
    | inl one_star ↦ rw (star, one_star) (ground arith)
    | inr (rest, two_stars) ↦ elim (Option-cases (cut_prefix (text "/") rest)) [
      | inl last ↦ rw (star, two_stars, last) (cut-shorter (text "*") s rest two_stars)
      | inr (below, slash) ↦
          rw (star, two_stars, slash)
            (ground (
              arith,
              cut-shorter (text "*") s rest two_stars,
              cut-shorter (text "/") rest below slash,
            ))
    ]
  ]
  | inr other ↦ elim (Bool-cases (c == b'?')) [
    | inl mark ↦ rw (other, mark) (ground arith)
    | inr plain ↦ rw (other, plain) (ground arith)
  ]
]

-- More fuel than characters changes nothing.
items_loop-enough :
    (fuel more : ℕ) (s : Text)
    → length s ≤ fuel
    → length s ≤ more
    → items_loop fuel s ≡ items_loop more s
unfolding items_loop
items_loop-enough fuel more [] h h' = refl
items_loop-enough zero more (c ∷ s) h h' = absurd (ground (arith, h))
items_loop-enough (suc fuel) zero (c ∷ s) h h' = absurd (ground (arith, h'))
items_loop-enough (suc fuel) (suc more) (c ∷ s) h h' = ap (◌∷◌ (step_item c s).0) (
    items_loop-enough fuel more (step_item c s).1 (ground (arith, step_item-shorter c s, h))
      (ground (arith, step_item-shorter c s, h')))

-- The items of a pattern, step by step.
pub glob_items-step :
    (c : ℕ) (s : Text) → glob_items (c ∷ s) ≡ (step_item c s).0 ∷ glob_items (step_item c s).1
unfolding items_loop
glob_items-step c s = ap (◌∷◌ (step_item c s).0) (
    items_loop-enough (length s) (length (step_item c s).1) (step_item c s).1
      (step_item-shorter c s) (ground arith))
