-- ===== src/Client/Glob/Syntax.antt =====
-- Regular expressions of package regexp, as far as cmd/backupctl/main.go writes them: characters,
-- `[^/]`, `[^/]*`, `.*` and `(?:.*/)?`.
use prosiak.Base.{
  ◌>>=◌, ℕ, zero, suc, Text, text, List, [], ◌∷◌, Bool, false, not, ◌&&◌, ◌||◌, Option, none, some,
  ◌==◌, if◌then◌else◌, eqb, length, cut_prefix, any,
}
use prosiak.Client.Paths.{is_slash}

pub data Item : Type 0 where
  literal : ℕ → Item
  -- `[^/]`
  not_slash : Item
  -- `[^/]*`
  not_slashes : Item
  -- `.*`
  anything : Item
  -- `(?:.*/)?`
  directories : Item

abbrev pub Regexp : Type 0
Regexp = List Item

-- The characters that stand for themselves only behind a backslash.
unfoldable pub meta : ℕ → Bool
meta c = any (◌==◌ c) (text "*?.+(){}[]^$|\\")

abbrev Parsed : Type 0
Parsed = Option (Item × Text)

unfoldable pub escape : Text → Parsed
unfolding meta
escape [] = none
escape (c ∷ s) = if meta c then some (literal c, s) else none

unfoldable pub character : Text → Parsed
unfolding escape
character [] = none
character (c ∷ s) = if c == b'\\' then escape s else if meta c then none else some (literal c, s)

-- An item at the start of a text; `none` for what is no regular expression, and for those that the
-- program does not write.
unfoldable pub parse_item : Text → Parsed
unfolding character
parse_item s = elim (cut_prefix (text "(?:.*/)?") s) [
  | some rest ↦ some (directories, rest)
  | none ↦ elim (cut_prefix (text ".*") s) [
    | some rest ↦ some (anything, rest)
    | none ↦ elim (cut_prefix (text "[^/]*") s) [
      | some rest ↦ some (not_slashes, rest)
      | none ↦ elim (cut_prefix (text "[^/]") s) [
        | some rest ↦ some (not_slash, rest)
        | none ↦ character s
      ]
    ]
  ]
]

unfoldable pub parse : ℕ → Text → Option Regexp
unfolding parse_item
parse fuel [] = some []
parse zero (c ∷ s) = none
parse (suc fuel) (c ∷ s) = do
  (item, rest) ← parse_item (c ∷ s)
  items ← parse fuel rest
  some (item ∷ items)

-- regexp.Compile of `^s$`
unfoldable pub compile : Text → Option Regexp
unfolding parse
compile s = parse (length s) s

-- Some characters in the test, as many as it takes, before what is left passes.
unfoldable pub repeated : (ℕ → Bool) → (Text → Bool) → Text → Bool
repeated test then_ [] = then_ []
repeated test then_ (c ∷ s) = then_ (c ∷ s) || (test c && repeated test then_ s)

abbrev pub one : (ℕ → Bool) → (Text → Bool) → Text → Bool
one test then_ [] = false
one test then_ (c ∷ s) = test c && then_ s

abbrev pub other_slash : ℕ → Bool
other_slash c = not (is_slash c)

-- The characters of `.`.
abbrev pub in_line : ℕ → Bool
in_line c = not (c == b'\n')

-- Regexp.MatchString of an expression between `^` and `$`
unfoldable pub match_string : Regexp → Text → Bool
unfolding repeated
match_string [] s = eqb s []
match_string (literal c ∷ items) s = one (◌==◌ c) (match_string items) s
match_string (not_slash ∷ items) s = one other_slash (match_string items) s
match_string (not_slashes ∷ items) s = repeated other_slash (match_string items) s
match_string (anything ∷ items) s = repeated in_line (match_string items) s
match_string (directories ∷ items) s =
    match_string items s || repeated in_line (one is_slash (match_string items)) s
