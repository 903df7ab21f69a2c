-- ===== src/Client/Paths.antt =====
-- Slash-separated paths (cmd/backupctl/main.go: safeExtractPath), with filepath.Clean, Join and Abs of
-- package path/filepath on a system whose separator is the slash.
pub mod Components
pub mod Cleaned
pub mod Inside
pub mod Root
use prosiak.Base.{
  ℕ, ◌+◌, ◌/◌, Text, text, List, [], ◌∷◌, ◌++◌, Bool, true, false, not, ◌&&◌, ◌||◌, Option, none,
  some, ◌==◌, if◌then◌else◌, eqb, cut_prefix, reverse,
}

abbrev pub is_slash : ℕ → Bool
is_slash c = c == b'/'

abbrev pub is_abs : Text → Bool
is_abs [] = false
is_abs (c ∷ s) = is_slash c

abbrev pub cons_head : ℕ → List Text → List Text
cons_head c [] = (c ∷ []) ∷ []
cons_head c (p ∷ ps) = (c ∷ p) ∷ ps

-- The texts between slashes.
unfoldable pub components : Text → List Text
components [] = [] ∷ []
components (c ∷ s) = if is_slash c then [] ∷ components s else cons_head c (components s)

unfoldable pub join : List Text → Text
join [] = []
join (p ∷ []) = p
join (p ∷ q ∷ ps) = p ++ b'/' ∷ join (q ∷ ps)

abbrev pub dot : Text
dot = text "."

abbrev pub dot_dot : Text
dot_dot = text ".."

-- A step up from the components that are kept, last first; there is none above the root.
abbrev pub climb : Bool → List Text → List Text
climb true [] = []
climb false [] = dot_dot ∷ []
climb rooted (p ∷ kept) = if eqb p dot_dot then dot_dot ∷ p ∷ kept else kept

unfoldable pub resolve : Bool → List Text → List Text → List Text
resolve rooted kept [] = reverse kept
resolve rooted kept (p ∷ ps) =
    resolve rooted
      (if eqb p [] || eqb p dot
        then kept
        else if eqb p dot_dot
        then climb rooted kept
        else p ∷ kept)
      ps

abbrev pub or_dot : Text → Text
or_dot [] = dot
or_dot (c ∷ s) = c ∷ s

-- filepath.Clean
unfoldable pub clean : Text → Text
unfolding components resolve join
clean s =
    if is_abs s
    then b'/' ∷ join (resolve true [] (components s))
    else or_dot (join (resolve false [] (components s)))

-- filepath.Join of two texts that are not empty.
unfoldable pub join_path : Text → Text → Text
unfolding clean
join_path dir s = clean (dir ++ b'/' ∷ s)

-- filepath.Abs in a working directory.
unfoldable pub abs : Text → Text → Text
unfolding join_path
abs cwd s = if is_abs s then clean s else join_path cwd s

-- strings.HasPrefix s p, with the arguments exchanged.
abbrev pub has_prefix : Text → Text → Bool
has_prefix p s = elim (cut_prefix p s) [ none ↦ false | some rest ↦ true ]

-- safeExtractPath: `none` for an unsafe path.
unfoldable pub safe_extract_path : Text → Text → Text → Option Text
unfolding join_path abs
safe_extract_path cwd out_abs name =
    let cleaned = clean name in
    let target_abs = abs cwd (join_path out_abs cleaned) in
    if eqb cleaned dot || is_abs cleaned || has_prefix (text "../") cleaned || eqb cleaned dot_dot
    then none
    else if not (eqb target_abs out_abs) && not (has_prefix (out_abs ++ text "/") target_abs)
    then none
    else some target_abs
