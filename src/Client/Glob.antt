-- ===== src/Client/Glob.antt =====
-- Exclude patterns of a job (cmd/backupctl/main.go: newExcludeMatcher, match, globToRegexp).
-- filepath.ToSlash changes nothing where the separator is the slash.
pub mod Syntax
pub mod Printed
pub mod Compiled
pub mod Matched
pub mod Excluded
use prosiak.Base.{
  ◌>>=◌, reverse, ℕ, zero, suc, ◌+◌, ◌*◌, ◌/◌, ◌^◌, Text, text, List, [], ◌∷◌, ◌++◌, Bool, ◌&&◌,
  ◌||◌, Option, none, some, ◌==◌, if◌then◌else◌, eqb, length, trim_space, cut_prefix, any,
}
use prosiak.Client.Paths.{is_slash}
use prosiak.Client.Glob.Syntax.{Regexp, compile, match_string}

-- The characters of the third case of globToRegexp.
unfoldable pub escaped : ℕ → Bool
escaped c = any (◌==◌ c) (text ".+()|{}[]^$\\")

-- A step of the loop at a character, with the characters behind it: what it writes, and the
-- characters that it leaves.
unfoldable pub glob_step : ℕ → Text → Text × Text
unfolding escaped
glob_step c s =
    if c == b'*'
    then elim (cut_prefix (text "*") s) [
      | some rest ↦ elim (cut_prefix (text "/") rest) [
        | some below ↦ (text "(?:.*/)?", below)
        | none ↦ (text ".*", rest)
      ]
      | none ↦ (text "[^/]*", s)
    ]
    else if c == b'?'
    then (text "[^/]", s)
    else if escaped c
    then (b'\\' ∷ c ∷ [], s)
    else (c ∷ [], s)

unfoldable pub glob_loop : ℕ → Text → Text
unfolding glob_step
glob_loop fuel [] = []
glob_loop zero (c ∷ s) = []
glob_loop (suc fuel) (c ∷ s) = let (written, rest) = glob_step c s in written ++ glob_loop fuel rest

-- globToRegexp
unfoldable pub glob_to_regexp : Text → Text
unfolding glob_loop
glob_to_regexp pattern = glob_loop (length pattern) pattern

unfoldable pub trim_left_slash : Text → Text
trim_left_slash [] = []
trim_left_slash (c ∷ s) = if is_slash c then trim_left_slash s else c ∷ s

-- strings.Trim s "/"
unfoldable pub trim_slash : Text → Text
unfolding trim_left_slash
trim_slash s = reverse (trim_left_slash (reverse (trim_left_slash s)))

abbrev pub clean_pattern : Text → Text
clean_pattern pattern = trim_slash (trim_space pattern)

-- newExcludeMatcher; `none` where a pattern does not compile.
unfoldable pub new_exclude_matcher : List Text → Option (List Regexp)
unfolding glob_to_regexp compile
new_exclude_matcher [] = some []
new_exclude_matcher (pattern ∷ patterns) =
    let rest = new_exclude_matcher patterns in
    if eqb (clean_pattern pattern) []
    then rest
    else do re ← compile (glob_to_regexp (clean_pattern pattern)); res ← rest; some (re ∷ res)

abbrev pub excludes : Text → Bool → Regexp → Bool
excludes path is_dir re = match_string re path || (is_dir && match_string re (path ++ text "/"))

-- excludeMatcher.match
unfoldable pub match_path : List Regexp → Text → Bool → Bool
unfolding match_string trim_slash
match_path patterns path is_dir = any (excludes (trim_slash path) is_dir) patterns
