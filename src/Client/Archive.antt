-- ===== src/Client/Archive.antt =====
-- The archive of a job (cmd/backupctl/main.go: writeTarJob, tarRoots, addRootToTar). The file system is
-- a parameter, as the tree that is found at an absolute path; writing to the archive succeeds.
pub mod Names
pub mod Safe
pub mod Collide
use prosiak.Base.{
  ℕ, ◌+◌, ◌-◌, ◌/◌, pos, Text, text, List, [], ◌∷◌, ◌++◌, Bool, true, false, ◌||◌, Option, none,
  some, ◌>>=◌, reverse, leb_text, order_by, ltb, if◌then◌else◌, eqb, cut_prefix,
}
use prosiak.Client.Paths.{is_slash, dot, join_path, clean, abs}
use prosiak.Client.Upload.{format_int}
use prosiak.Client.Glob.{match_path, new_exclude_matcher, trim_left_slash}
use prosiak.Client.Glob.Syntax.{Regexp}
use prosiak.Client.Jobs.{Job}

-- What a walk finds; `unreadable` is what cannot be read, or has no header in an archive.
mutual
  pub data Tree : Type 0 where
    file : List ℕ → Tree
    link : Text → Tree
    device : Tree
    unreadable : Bool → Tree
    directory : Entries → Tree

  -- The entries of a directory, by name.
  pub data Entries : Type 0 where
    no_entries : Entries
    entry : Text → Tree → Entries → Entries

-- info.IsDir()
unfoldable pub is_dir : Tree → Bool
is_dir (file content) = false
is_dir (link target) = false
is_dir device = false
is_dir (unreadable dir) = dir
is_dir (directory es) = true

-- tarRoot
pub record TarRoot : Type 0 where
  pub source : Text
  pub parent : Text
  pub prefix : Text

-- A header of the archive, with the content of a file or the target of a link.
pub data Body : Type 0 where
  contents : List ℕ → Body
  target : Text → Body
  no_body : Body

pub record TarEntry : Type 0 where
  pub name : Text
  pub type_dir : Bool
  pub body : Body

abbrev or_root : Text → Text
or_root [] = text "/"
or_root (c ∷ s) = c ∷ s

unfoldable pub before_slash : Text → Text
before_slash [] = []
before_slash (c ∷ s) = let rest = before_slash s in if is_slash c then [] else c ∷ rest

unfoldable pub from_slash : Text → Text
from_slash [] = []
from_slash (c ∷ s) = let rest = from_slash s in if is_slash c then c ∷ s else rest

-- filepath.Base
unfoldable pub base : Text → Text
unfolding before_slash trim_left_slash
base [] = dot
base (c ∷ s) = or_root (reverse (before_slash (trim_left_slash (reverse (c ∷ s)))))

-- filepath.Dir
unfoldable pub dir_path : Text → Text
unfolding from_slash clean
dir_path s = clean (reverse (from_slash (reverse s)))

-- What a path below a directory starts with.
abbrev pub below : Text → Text
below dir = if eqb dir (text "/") then dir else dir ++ text "/"

-- filepath.Rel of a path that is the directory or below it.
unfoldable pub rel : Text → Text → Option Text
rel dir path = if eqb dir path then some dot else cut_prefix (below dir) path

abbrev pub root_base : Text → Text
root_base source =
    if eqb (base source) dot || eqb (base source) (text "/") then text "root" else base source

module _ (files : Text → Option Tree) (cwd : Text) where
  -- The loop of tarRoots, with its map of the names that are used.
  unfoldable pub roots_loop : (Text → ℕ) → List Text → Option (List TarRoot)
  unfolding abs clean base dir_path format_int
  roots_loop used [] = some []
  roots_loop used (raw ∷ paths) =
      let source = abs cwd (clean raw) in
      let name = root_base source in
      let count = used name + 1 in
      let prefix = if ltb 1 count then name ++ b'-' ∷ format_int (pos count) else name in
      do
        found ← files source
        roots ← roots_loop (λ other. if eqb other name then count else used other) paths
        some (record { source = source; parent = dir_path source; prefix = prefix } ∷ roots)

  -- tarRoots; `none` where a path is not found.
  unfoldable pub tar_roots : List Text → Option (List TarRoot)
  unfolding roots_loop
  tar_roots paths = do
    roots ← roots_loop (λ _. 0) paths
    some (order_by (λ (a b : TarRoot). leb_text a.source b.source) roots)

abbrev pub has_slash_suffix : Text → Bool
has_slash_suffix s = elim (reverse s) [ [] ↦ false | c ∷ t ↦ is_slash c ]

abbrev pub dir_name : Text → Text
dir_name name = if has_slash_suffix name then name else name ++ text "/"

module _ (patterns : List Regexp) (root : TarRoot) where
  -- The name of what is at a path.
  unfoldable pub tar_path : Text → Option Text
  unfolding rel
  tar_path path = do name ← rel root.parent path; some (if eqb name dot then root.prefix else name)

  -- The callback of addRootToTar: what it writes for an entry.
  unfoldable pub header : Text → Tree → Option (List TarEntry)
  header name (file content) =
      some (record { name = name; type_dir = false; body = contents content } ∷ [])
  header name (link to) = some (record { name = name; type_dir = false; body = target to } ∷ [])
  header name device = some (record { name = name; type_dir = false; body = no_body } ∷ [])
  header name (unreadable dir) = none
  header name (directory es) =
      some (record { name = dir_name name; type_dir = true; body = no_body } ∷ [])

  -- filepath.WalkDir with the callback, from a path: `none` for an error. An excluded directory is not
  -- walked.
  unfoldable mutual
    unfolding tar_path header match_path is_dir join_path

    pub walk : Text → Tree → Option (List TarEntry)
    walk path (directory es) =
        let inner = walk_entries path es in
        do
          name ← tar_path path
          if match_path patterns name true
              then some []
              else (do own ← header name (directory es); rest ← inner; some (own ++ rest))
    walk path t = do
      name ← tar_path path
      if match_path patterns name (is_dir t) then some [] else header name t

    pub walk_entries : Text → Entries → Option (List TarEntry)
    walk_entries path no_entries = some []
    walk_entries path (entry name t es) =
        let first = walk (join_path path name) t in
        let later = walk_entries path es in do own ← first; rest ← later; some (own ++ rest)

module _ (files : Text → Option Tree) (cwd : Text) where
  -- addRootToTar
  unfoldable pub add_root_to_tar : List Regexp → TarRoot → Option (List TarEntry)
  unfolding walk
  add_root_to_tar patterns root = do t ← files root.source; walk patterns root root.source t

  unfoldable pub add_roots : List Regexp → List TarRoot → Option (List TarEntry)
  unfolding add_root_to_tar
  add_roots patterns [] = some []
  add_roots patterns (root ∷ roots) = do
    own ← add_root_to_tar patterns root
    rest ← add_roots patterns roots
    some (own ++ rest)

  -- writeTarJob
  unfoldable pub write_tar_job : Job → Option (List TarEntry)
  unfolding new_exclude_matcher tar_roots add_roots
  write_tar_job job = do
    patterns ← new_exclude_matcher job.exclude
    roots ← tar_roots files cwd job.paths
    add_roots patterns roots
