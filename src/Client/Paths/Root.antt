-- ===== src/Client/Paths/Root.antt =====
-- safeExtractPath for the root directory (cmd/backupctl/main.go).
use prosiak.Base.{
  Text, text, List, [], ◌∷◌, Bool, true, not, ◌&&◌, ◌||◌, Option, none, some, cut_prefix, ◌≡◌, refl,
  ap, ◌∙◌, arith, if◌then◌else◌, eqb, All, any,
}
use prosiak.Client.Paths.{
  is_abs, components, join, dot, dot_dot, clean, join_path, abs, has_prefix, safe_extract_path,
}
use prosiak.Client.Paths.Components.{IsPlain, clean-plain}
use prosiak.Client.Paths.Cleaned.{inside, here, up, out, rooted, clean-Cleaned}

-- The second test of safeExtractPath in the root directory.
abbrev outside_root : Text → Bool
outside_root path = not (eqb path (text "/")) && not (has_prefix (text "//") path)

outside_root-plain :
    (p : Text) (ps : List Text) → All IsPlain (p ∷ ps) → outside_root (b'/' ∷ join (p ∷ ps)) ≡ true
unfolding eqb cut_prefix join any
outside_root-plain [] ps h = absurd (ground (arith, h.0.filled))
outside_root-plain (c ∷ p) [] h = ground (arith, h.0.no_slash)
outside_root-plain (c ∷ p) (q ∷ ps) h = ground (arith, h.0.no_slash)

root_join :
    (p : Text) (ps : List Text)
    → All IsPlain (p ∷ ps)
    → join_path (text "/") (join (p ∷ ps)) ≡ b'/' ∷ join (p ∷ ps)
unfolding join_path components eqb
root_join p ps h = clean-plain p ps h

target_root :
    (cwd p : Text) (ps : List Text)
    → All IsPlain (p ∷ ps)
    → abs cwd (join_path (text "/") (join (p ∷ ps))) ≡ b'/' ∷ join (p ∷ ps)
unfolding abs
target_root cwd p ps h = ap (abs cwd) (root_join p ps h) ∙ clean-plain p ps h

unfoldable answer : Text → Text → Option Text
answer cleaned path =
    if eqb cleaned dot || is_abs cleaned || has_prefix (text "../") cleaned || eqb cleaned dot_dot
    then none
    else if outside_root path
    then none
    else some path

no_answer : (cleaned path : Text) → outside_root path ≡ true → answer cleaned path ≡ none
unfolding answer
no_answer cleaned path h = ground (arith, h)

-- With the root directory as the place to restore to, every name from an archive is refused: the text
-- that a path has to start with is then two slashes, and no cleaned path starts with two.
pub safe_extract_path-root : (cwd name : Text) → safe_extract_path cwd (text "/") name ≡ none
unfolding safe_extract_path answer eqb cut_prefix
safe_extract_path-root cwd name = elim (clean-Cleaned name) [
  | inside p ps h e ↦ inside_root p ps h e
  | here e ↦ rw e refl
  | up e ↦ rw e refl
  | out rest e ↦ rw e refl
  | rooted e ↦ absolute e
]
  where
    absolute : is_abs (clean name) ≡ true → safe_extract_path cwd (text "/") name ≡ none
    absolute e = ground (arith, e)

    inside_root :
        (p : Text) (ps : List Text)
        → All IsPlain (p ∷ ps)
        → clean name ≡ join (p ∷ ps)
        → safe_extract_path cwd (text "/") name ≡ none
    inside_root p ps h e =
        ap (λ c. answer c (abs cwd (join_path (text "/") c))) e
        ∙ ap (answer (join (p ∷ ps))) (target_root cwd p ps h)
        ∙ no_answer (join (p ∷ ps)) (b'/' ∷ join (p ∷ ps)) (outside_root-plain p ps h)
