-- ===== src/Client/Archive/Safe.antt =====
-- The names that the walk of a root gives (cmd/backupctl/main.go: addRootToTar).
use prosiak.Base.{
  Text, List, [], ◌∷◌, ◌++◌, append_assoc, Bool-cases, true, Option, none, some, some_eq, ◌>>=◌,
  ◌≡◌, inl, inr, refl, ap, sym, subst, ◌∙◌, arith, if◌then◌else◌, All, All-append, All-mono,
}
use prosiak.Client.Paths.{join, clean, join_path}
use prosiak.Client.Paths.Components.{IsPlain}
use prosiak.Client.Glob.{match_path}
use prosiak.Client.Glob.Syntax.{Regexp}
use prosiak.Client.Archive.{
  Tree, Entries, file, link, device, unreadable, directory, no_entries, entry, TarRoot, TarEntry,
  tar_path, header, is_dir, walk, walk_entries, add_root_to_tar,
}
use prosiak.Client.Paths.{safe_extract_path}
use prosiak.Client.Paths.Inside
use prosiak.Client.Paths.Inside.{safe_extract_path-IsPlain}
use prosiak.Client.Archive.Names.{
  rooted, rel-rooted, join-not_dot, join_path-rooted, clean-join, clean-dir_name,
}

-- The names in a tree are names of files.
unfoldable mutual
  pub PlainTree : Tree → Type 0
  PlainTree (file content) = Unit {0}
  PlainTree (link target) = Unit {0}
  PlainTree device = Unit {0}
  PlainTree (unreadable dir) = Unit {0}
  PlainTree (directory es) = PlainEntries es

  pub PlainEntries : Entries → Type 0
  PlainEntries no_entries = Unit {0}
  PlainEntries (entry name t es) = IsPlain name × PlainTree t × PlainEntries es

-- The name of an entry cleans to the first component and some more.
abbrev pub Under : Text → TarEntry → Type 0
Under q e = (qs : List Text) × All IsPlain (q ∷ qs) × (clean e.name ≡ join (q ∷ qs))

bind-some {ℓ κ} :
    {A : Type ℓ} {B : Type κ} (o : Option A) (next : A → Option B) (b : B)
    → (o >>= next) ≡ some b
    → (a : A) × (o ≡ some a) × (next a ≡ some b)
bind-some none next b h = absurd (ground (arith, h))
bind-some (some a) next b h = (a, refl, h)

pub child :
    (ds : List Text) (q : Text) (qs : List Text) (name : Text)
    → All IsPlain ds
    → All IsPlain (q ∷ qs)
    → IsPlain name
    → join_path (rooted (ds ++ q ∷ qs)) name ≡ rooted (ds ++ q ∷ (qs ++ name ∷ []))
child [] q qs name hd hq hn = join_path-rooted q qs name hq hn
child (d ∷ ds) q qs name hd hq hn =
    join_path-rooted d (ds ++ q ∷ qs) name (All-append IsPlain (d ∷ ds) (q ∷ qs) hd hq) hn
    ∙ ap (λ l. rooted (d ∷ l)) (append_assoc ds (q ∷ qs) (name ∷ []))

module _ (patterns : List Regexp) (root : TarRoot) (ds : List Text) (dirs : All IsPlain ds)
    (parent : root.parent ≡ rooted ds) where
  pub tar_path-rooted :
      (q : Text) (qs : List Text)
      → All IsPlain (q ∷ qs)
      → tar_path patterns root (rooted (ds ++ q ∷ qs)) ≡ some (join (q ∷ qs))
  unfolding tar_path
  tar_path-rooted q qs h =
      rw (tar_path, parent, rel-rooted ds q qs dirs h) (rw (join-not_dot q qs h) refl)

  header-Under :
      (q : Text) (qs : List Text) (t : Tree) (out : List TarEntry)
      → All IsPlain (q ∷ qs)
      → header patterns root (join (q ∷ qs)) t ≡ some out
      → All (Under q) out
  unfolding header
  header-Under q qs (file content) out h e =
      subst (All (Under q)) (some_eq e) ((qs, h, clean-join q qs h), tt)
  header-Under q qs (link to) out h e =
      subst (All (Under q)) (some_eq e) ((qs, h, clean-join q qs h), tt)
  header-Under q qs device out h e =
      subst (All (Under q)) (some_eq e) ((qs, h, clean-join q qs h), tt)
  header-Under q qs (unreadable dir) out h e = absurd (ground (arith, e))
  header-Under q qs (directory es) out h e =
      subst (All (Under q)) (some_eq e) ((qs, h, clean-dir_name q qs h), tt)

  -- The walk of what is not a directory.
  leaf-Under :
      (q : Text) (qs : List Text) (t : Tree) (out : List TarEntry)
      → All IsPlain (q ∷ qs)
      → (tar_path patterns root (rooted (ds ++ q ∷ qs)) >>= (λ name.
          if match_path patterns name (is_dir t) then some [] else header patterns root name t))
        ≡ some out
      → All (Under q) out
  leaf-Under q qs t out h e = elim (Bool-cases (match_path patterns (join (q ∷ qs)) (is_dir t))) [
    | inl excluded ↦ subst (All (Under q)) (some_eq (rw (tar_path-rooted q qs h, excluded) at e)) tt
    | inr kept ↦ header-Under q qs t out h (rw (tar_path-rooted q qs h, kept) at e)
  ]

  -- The walk of a directory, with what it gives for the entries.
  directory-Under :
      (q : Text) (qs : List Text) (es : Entries) (inner : Option (List TarEntry))
      (out : List TarEntry)
      → All IsPlain (q ∷ qs)
      → ((rest : List TarEntry) → inner ≡ some rest → All (Under q) rest)
      → (tar_path patterns root (rooted (ds ++ q ∷ qs)) >>= (λ name.
          if match_path patterns name true
          then some []
          else (header patterns root name (directory es)
              >>= (λ own. inner >>= (λ rest. some (own ++ rest))))))
        ≡ some out
      → All (Under q) out
  directory-Under q qs es inner out h ih e =
      elim (Bool-cases (match_path patterns (join (q ∷ qs)) true)) [
        | inl excluded ↦
            subst (All (Under q)) (some_eq (rw (tar_path-rooted q qs h, excluded) at e)) tt
        | inr kept ↦
            let (own, first, e') = bind-some _ _ out (rw (tar_path-rooted q qs h, kept) at e) in
            let (rest, later, joined) = bind-some _ _ out e' in
            subst (All (Under q)) (some_eq joined) (
              All-append (Under q) own rest (header-Under q qs (directory es) own h first)
                (ih rest later))
      ]

  mutual
    unfolding walk PlainTree

    walk-Under :
        (q : Text) (qs : List Text) (t : Tree) (out : List TarEntry)
        → All IsPlain (q ∷ qs)
        → PlainTree t
        → walk patterns root (rooted (ds ++ q ∷ qs)) t ≡ some out
        → All (Under q) out
    walk-Under q qs (file content) out h p e = leaf-Under q qs (file content) out h e
    walk-Under q qs (link target) out h p e = leaf-Under q qs (link target) out h e
    walk-Under q qs device out h p e = leaf-Under q qs device out h e
    walk-Under q qs (unreadable dir) out h p e = leaf-Under q qs (unreadable dir) out h e
    walk-Under q qs (directory es) out h p e =
        directory-Under q qs es _ out h (λ rest later. walk_entries-Under q qs es rest h p later) e

    walk_entries-Under :
        (q : Text) (qs : List Text) (es : Entries) (out : List TarEntry)
        → All IsPlain (q ∷ qs)
        → PlainEntries es
        → walk_entries patterns root (rooted (ds ++ q ∷ qs)) es ≡ some out
        → All (Under q) out
    walk_entries-Under q qs no_entries out h p e = subst (All (Under q)) (some_eq e) tt
    walk_entries-Under q qs (entry name t es) out h p e =
        let (own, first, e') = bind-some _ _ out e in
        let (rest, later, joined) = bind-some _ _ out e' in
        subst (All (Under q)) (some_eq joined) (
          All-append (Under q) own rest
            (walk-Under q (qs ++ name ∷ []) t own
              (All-append IsPlain (q ∷ qs) (name ∷ []) h (p.0, tt)) p.1
              (ap (λ path. walk patterns root path t) (sym (child ds q qs name dirs h p.0))
                ∙ first))
            (walk_entries-Under q qs es rest h p.2 later))

-- What the walk of a root writes is let through by a restore: where the root is below a directory of
-- plain components, under a name that is plain, and the names in its tree are names of files, then
-- every entry is restored to a file of plain components below the directory of the restore, the first
-- of which is the name of the root.
pub add_root_to_tar-restored :
    (files : Text → Option Tree) (cwd : Text) (patterns : List Regexp) (root : TarRoot)
    (ds : List Text) (q : Text) (t : Tree) (out : List TarEntry) (d : Text) (below : List Text)
    → All IsPlain ds
    → IsPlain q
    → root.parent ≡ rooted ds
    → root.source ≡ rooted (ds ++ q ∷ [])
    → files root.source ≡ some t
    → PlainTree t
    → add_root_to_tar files cwd patterns root ≡ some out
    → All IsPlain (d ∷ below)
    → All
        (λ (e : TarEntry).
          (qs : List Text) × All IsPlain (q ∷ qs)
          × (safe_extract_path cwd (Inside.directory d below) e.name
              ≡ some (Inside.directory d below ++ b'/' ∷ join (q ∷ qs))))
        out
unfolding add_root_to_tar
add_root_to_tar-restored files cwd patterns root ds q t out d below dirs plain parent source found
      names h hd =
    All-mono (Under q) _ out through (
      walk-Under patterns root ds dirs parent q [] t out (plain, tt) names
        (ap (λ path. walk patterns root path t) (sym source) ∙ (rw (add_root_to_tar, found) at h)))
  where
    through :
        (e : TarEntry)
        → Under q e
        → (qs : List Text) × All IsPlain (q ∷ qs)
          × (safe_extract_path cwd (Inside.directory d below) e.name
              ≡ some (Inside.directory d below ++ b'/' ∷ join (q ∷ qs)))
    through e (qs, h, cleaned) =
        (qs, h, (safe_extract_path-IsPlain cwd d below hd e.name _).1 (q, qs, h, cleaned, refl))
