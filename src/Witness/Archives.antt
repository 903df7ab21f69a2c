-- ===== src/Witness/Archives.antt =====
-- The theorems about archives that have conditions, each at an input that meets them.
use prosiak.Base.{
  Text, text, List, [], ◌∷◌, ◌++◌, Bool, true, false, not, ◌||◌, none, some, ◌≡◌, inl, inr, refl,
  ap, arith, eqb, All, cut_prefix, any,
}
use prosiak.Client.Paths.{join, safe_extract_path, abs}
use prosiak.Client.Paths.Components.{IsPlain}
use prosiak.Client.Paths.Inside
use prosiak.Client.Archive.{
  Tree, file, directory, no_entries, entry, TarRoot, TarEntry, contents, no_body, walk,
  add_root_to_tar,
}
use prosiak.Client.Archive.Names.{rooted}
use prosiak.Client.Archive.Safe.{PlainTree, add_root_to_tar-restored}
use prosiak.Client.Archive.Collide.{walk-collides}
use prosiak.Client.Restore.{
  Action, make_dirs, write_file, remove, make_link, FileSystem, Archive, a_file, end, next,
  extract_tar,
}
use prosiak.Client.Restore.Contained.{Contained, Within, has_link, extract_tar-keeps}

home-IsPlain : IsPlain (text "home")
unfolding eqb any
home-IsPlain = record { filled = refl; not_dot = refl; not_up = refl; no_slash = refl }

docs-IsPlain : IsPlain (text "docs")
unfolding eqb any
docs-IsPlain = record { filled = refl; not_dot = refl; not_up = refl; no_slash = refl }

srv-IsPlain : IsPlain (text "srv")
unfolding eqb any
srv-IsPlain = record { filled = refl; not_dot = refl; not_up = refl; no_slash = refl }

file-IsPlain : IsPlain (text "a.txt")
unfolding eqb any
file-IsPlain = record { filled = refl; not_dot = refl; not_up = refl; no_slash = refl }

out-IsPlain : IsPlain (text "out")
unfolding eqb any
out-IsPlain = record { filled = refl; not_dot = refl; not_up = refl; no_slash = refl }

abbrev tree : Tree
tree = directory (entry (text "a.txt") (file (1 ∷ 2 ∷ [])) no_entries)

tree_plain : PlainTree tree
unfolding PlainTree
tree_plain = (file-IsPlain, tt, tt)

abbrev home_root : TarRoot
home_root = record { source = text "/home/docs"; parent = text "/home"; prefix = text "docs" }

abbrev srv_root : TarRoot
srv_root = record { source = text "/srv/docs"; parent = text "/srv"; prefix = text "docs-2" }

abbrev written : List TarEntry
written =
    record { name = text "docs/"; type_dir = true; body = no_body }
    ∷ record { name = text "docs/a.txt"; type_dir = false; body = contents (1 ∷ 2 ∷ []) }
    ∷ []

home_written : add_root_to_tar (λ path. some tree) (text "/") [] home_root ≡ some written
unfolding add_root_to_tar walk any eqb cut_prefix
home_written = refl

add_root_to_tar-restored_example :
    All
      (λ (e : TarEntry).
        (qs : List Text) × All IsPlain (text "docs" ∷ qs)
        × (safe_extract_path (text "/") (Inside.directory (text "out") []) e.name
            ≡ some (Inside.directory (text "out") [] ++ b'/' ∷ join (text "docs" ∷ qs))))
      written
unfolding join
add_root_to_tar-restored_example =
    add_root_to_tar-restored (λ path. some tree) (text "/") [] home_root (text "home" ∷ [])
      (text "docs") tree written (text "out") [] (home-IsPlain, tt) docs-IsPlain refl refl refl
      tree_plain home_written (out-IsPlain, tt)

walk-collides_example :
    walk [] home_root (rooted (text "home" ∷ text "docs" ∷ [])) tree
    ≡ walk [] srv_root (rooted (text "srv" ∷ text "docs" ∷ [])) tree
unfolding join
walk-collides_example =
    walk-collides [] home_root srv_root (text "home" ∷ []) (text "srv" ∷ []) (home-IsPlain, tt)
      (srv-IsPlain, tt) refl refl (text "docs") tree docs-IsPlain tree_plain

-- Whether a path starts as the directory does.
abbrev starts : Text → Bool
starts path = elim (cut_prefix (text "/out") path) [ none ↦ false | some rest ↦ true ]

abbrev noted : Action → Bool × Bool → Bool × Bool
noted (make_dirs path) (linked, touched) = (linked, touched || (linked || not (starts path)))
noted (write_file path content) (linked, touched) =
    (linked, touched || (linked || not (starts path)))
noted (remove path) (linked, touched) = (linked, touched || (linked || not (starts path)))
noted (make_link to path) (linked, touched) = (true, touched || (linked || not (starts path)))

-- A file system that notes whether a link was made, and whether something outside of the directory may
-- have been touched: by its path, or through a link.
abbrev watched : FileSystem
watched = record { World = Bool × Bool; perform = λ a w. (noted a w, true) }

starts-Within : (path : Text) → Within (text "out") [] path → starts path ≡ true
unfolding join cut_prefix
starts-Within path ([], h, e) = ap starts e
starts-Within path (p ∷ ps, h, e) = ap starts e

abbrev archive : Archive
archive = next (text "docs/a.txt") (a_file (1 ∷ [])) (next (text "../b") (a_file (2 ∷ [])) end)

-- No link was made, and nothing outside was touched.
abbrev Untouched : Bool × Bool → Type 0
Untouched w = (w.0 ≡ false) × (w.1 ≡ false)

untouched :
    (a : Action) (w : Bool × Bool)
    → Contained (has_link archive) (text "/out") (text "out") [] a
    → Untouched w
    → Untouched (noted a w)
unfolding Contained has_link cut_prefix
untouched (make_dirs path) w (inl e) h = rw e (h.0, ground (arith, h))
untouched (make_dirs path) w (inr c) h = (h.0, ground (arith, h, starts-Within path c))
untouched (write_file path content) w c h = (h.0, ground (arith, h, starts-Within path c))
untouched (remove path) w (linked, c) h = absurd (ground (arith, linked))
untouched (make_link to path) w (linked, c) h = absurd (ground (arith, linked))

out_clean : abs (text "/") (text "/out") ≡ text "/out"
unfolding abs eqb
out_clean = refl

extract_tar-keeps_example :
    Untouched (extract_tar watched (text "/") archive (text "/out") (false, false)).0
unfolding join
extract_tar-keeps_example =
    extract_tar-keeps watched (text "/") (text "/out") (text "out") [] archive Untouched
      (false, false) (out-IsPlain, tt) untouched out_clean (refl, refl)
