-- ===== src/Client/Glob/Printed.antt =====
-- Regular expressions, printed and parsed (cmd/backupctl/main.go: globToRegexp).
use prosiak.Base.{
  ℕ, zero, suc, ◌≤◌, ◌<◌, Text, text, [], ◌∷◌, ◌++◌, Bool-cases, true, false, none, some, ◌≡◌, inl,
  inr, refl, arith, ◌==◌, if◌then◌else◌, length, length-append, cut_prefix, any,
}
use prosiak.Client.Glob.Syntax.{
  Item, literal, not_slash, not_slashes, anything, directories, Regexp, meta, escape, character,
  parse_item, parse, compile,
}

-- The regular expression of an item.
unfoldable pub print_item : Item → Text
print_item (literal c) = if meta c then b'\\' ∷ c ∷ [] else c ∷ []
print_item not_slash = text "[^/]"
print_item not_slashes = text "[^/]*"
print_item anything = text ".*"
print_item directories = text "(?:.*/)?"

unfoldable pub print : Regexp → Text
unfolding print_item
print [] = []
print (item ∷ items) = print_item item ++ print items

-- No item starts with a star.
print-star : (items : Regexp) → cut_prefix (text "*") (print items) ≡ none
unfolding print cut_prefix meta any
print-star [] = refl
print-star (literal c ∷ items) = ground arith
print-star (not_slash ∷ items) = refl
print-star (not_slashes ∷ items) = refl
print-star (anything ∷ items) = refl
print-star (directories ∷ items) = refl

cut_prefix-other :
    (d : ℕ) (p : Text) (c : ℕ) (s : Text) → (c == d) ≡ false → cut_prefix (d ∷ p) (c ∷ s) ≡ none
unfolding cut_prefix
cut_prefix-other d p c s h = ground (arith, h)

meta-other :
    (c : ℕ)
    → meta c ≡ false
    → ((c == b'(') ≡ false) × ((c == b'.') ≡ false) × ((c == b'[') ≡ false) × ((c == b'\\') ≡ false)
unfolding meta any
meta-other c h = ground arith

parse_item-literal : (c : ℕ) (s : Text) → meta c ≡ false → parse_item (c ∷ s) ≡ some (literal c, s)
unfolding parse_item character
parse_item-literal c s h =
    let (round, point, square, back) = meta-other c h in
    rw
      (
        parse_item,
        cut_prefix-other b'(' (text "?:.*/)?") c s round,
        cut_prefix-other b'.' (text "*") c s point,
        cut_prefix-other b'[' (text "^/]*") c s square,
        cut_prefix-other b'[' (text "^/]") c s square,
        character,
        back,
        h,
      )
      refl

parse_item-escaped :
    (c : ℕ) (s : Text) → meta c ≡ true → parse_item (b'\\' ∷ c ∷ s) ≡ some (literal c, s)
unfolding parse_item character escape cut_prefix
parse_item-escaped c s h = rw h refl

parse_item-not_slash :
    (s : Text)
    → cut_prefix (text "*") s ≡ none
    → parse_item (text "[^/]" ++ s) ≡ some (not_slash, s)
unfolding parse_item cut_prefix
parse_item-not_slash s h = rw (parse_item, h) refl

parse_item-not_slashes : (s : Text) → parse_item (text "[^/]*" ++ s) ≡ some (not_slashes, s)
unfolding parse_item cut_prefix
parse_item-not_slashes s = refl

parse_item-anything : (s : Text) → parse_item (text ".*" ++ s) ≡ some (anything, s)
unfolding parse_item cut_prefix
parse_item-anything s = refl

parse_item-directories : (s : Text) → parse_item (text "(?:.*/)?" ++ s) ≡ some (directories, s)
unfolding parse_item cut_prefix
parse_item-directories s = refl

parse_item-print_item :
    (item : Item) (items : Regexp)
    → parse_item (print_item item ++ print items) ≡ some (item, print items)
unfolding print_item
parse_item-print_item (literal c) items = elim (Bool-cases (meta c)) [
  | inl special ↦ rw special (parse_item-escaped c (print items) special)
  | inr other ↦ rw other (parse_item-literal c (print items) other)
]
parse_item-print_item not_slash items = parse_item-not_slash (print items) (print-star items)
parse_item-print_item not_slashes items = parse_item-not_slashes (print items)
parse_item-print_item anything items = parse_item-anything (print items)
parse_item-print_item directories items = parse_item-directories (print items)

length-print_item : (item : Item) → 0 < length (print_item item)
unfolding print_item
length-print_item (literal c) = ground arith
length-print_item not_slash = ground arith
length-print_item not_slashes = ground arith
length-print_item anything = ground arith
length-print_item directories = ground arith

parse-next :
    (fuel : ℕ) (s rest : Text) (item : Item) (items : Regexp)
    → 0 < length s
    → parse_item s ≡ some (item, rest)
    → parse fuel rest ≡ some items
    → parse (suc fuel) s ≡ some (item ∷ items)
unfolding parse
parse-next fuel [] rest item items h e e' = absurd (ground (arith, h))
parse-next fuel (c ∷ s) rest item items h e e' = rw (e, e') refl

parse-print :
    (fuel : ℕ) (items : Regexp)
    → length (print items) ≤ fuel
    → parse fuel (print items) ≡ some items
unfolding parse print
parse-print fuel [] h = refl
parse-print zero (item ∷ items) h =
    absurd
      (ground (arith, length-print_item item, length-append (print_item item) (print items), h))
parse-print (suc fuel) (item ∷ items) h =
    parse-next fuel (print_item item ++ print items) (print items) item items
      (ground (arith, length-print_item item, length-append (print_item item) (print items)))
      (parse_item-print_item item items)
      (parse-print fuel items
        (ground (arith, length-print_item item, length-append (print_item item) (print items), h)))

pub compile-print : (items : Regexp) → compile (print items) ≡ some items
unfolding compile
compile-print items = parse-print (length (print items)) items (ground arith)
