-- ===== src/Client/Archive/Collide.antt =====
-- Roots of the same base name in one archive (cmd/backupctl/main.go: tarRoots, addRootToTar).
use prosiak.Base.{
  Text, List, [], ◌∷◌, ◌++◌, true, Option, some, ◌>>=◌, ◌≡◌, refl, ap, sym, ◌∙◌, if◌then◌else◌, All,
  All-append,
}
use prosiak.Client.Paths.{join_path}
use prosiak.Client.Paths.Components.{IsPlain}
use prosiak.Client.Glob.{match_path}
use prosiak.Client.Glob.Syntax.{Regexp}
use prosiak.Client.Archive.{
  Tree, Entries, file, link, device, unreadable, directory, no_entries, entry, TarRoot, TarEntry,
  is_dir, tar_path, header, walk, walk_entries,
}
use prosiak.Client.Archive.Names.{rooted}
use prosiak.Client.Archive.Safe.{PlainTree, PlainEntries, tar_path-rooted, child}

module _ (patterns : List Regexp) (r r' : TarRoot) (ds ds' : List Text) (dirs : All IsPlain ds)
    (dirs' : All IsPlain ds') (parent : r.parent ≡ rooted ds) (parent' : r'.parent ≡ rooted ds')
    (q : Text) where
  tar_path-same :
      (qs : List Text)
      → All IsPlain (q ∷ qs)
      → tar_path patterns r (rooted (ds ++ q ∷ qs)) ≡ tar_path patterns r' (rooted (ds' ++ q ∷ qs))
  tar_path-same qs h =
      tar_path-rooted patterns r ds dirs parent q qs h
      ∙ sym (tar_path-rooted patterns r' ds' dirs' parent' q qs h)

  abbrev leaf_result : Tree → Option Text → Option (List TarEntry)
  leaf_result t o = o >>= (λ name.
      if match_path patterns name (is_dir t) then some [] else header patterns r name t)

  abbrev dir_result : Entries → Option Text → Option (List TarEntry) → Option (List TarEntry)
  dir_result es o inner = o >>= (λ name.
      if match_path patterns name true
      then some []
      else (header patterns r name (directory es)
          >>= (λ own. inner >>= (λ rest. some (own ++ rest)))))

  abbrev both : Option (List TarEntry) → Option (List TarEntry) → Option (List TarEntry)
  both first later = first >>= (λ own. later >>= (λ rest. some (own ++ rest)))

  mutual
    unfolding walk header PlainTree

    walk-same :
        (qs : List Text) (t : Tree)
        → All IsPlain (q ∷ qs)
        → PlainTree t
        → walk patterns r (rooted (ds ++ q ∷ qs)) t ≡ walk patterns r' (rooted (ds' ++ q ∷ qs)) t
    walk-same qs (file content) h p = ap (leaf_result (file content)) (tar_path-same qs h)
    walk-same qs (link target) h p = ap (leaf_result (link target)) (tar_path-same qs h)
    walk-same qs device h p = ap (leaf_result device) (tar_path-same qs h)
    walk-same qs (unreadable dir) h p = ap (leaf_result (unreadable dir)) (tar_path-same qs h)
    walk-same qs (directory es) h p =
        ap (λ o. dir_result es o (walk_entries patterns r (rooted (ds ++ q ∷ qs)) es))
          (tar_path-same qs h)
        ∙ ap (dir_result es (tar_path patterns r' (rooted (ds' ++ q ∷ qs))))
            (walk_entries-same qs es h p)

    walk_entries-same :
        (qs : List Text) (es : Entries)
        → All IsPlain (q ∷ qs)
        → PlainEntries es
        → walk_entries patterns r (rooted (ds ++ q ∷ qs)) es
          ≡ walk_entries patterns r' (rooted (ds' ++ q ∷ qs)) es
    walk_entries-same qs no_entries h p = refl
    walk_entries-same qs (entry name t es) h p =
        let h' = All-append IsPlain (q ∷ qs) (name ∷ []) h (p.0, tt) in
        ap (λ o. both o (walk_entries patterns r (rooted (ds ++ q ∷ qs)) es))
          (ap (λ path. walk patterns r path t) (child ds q qs name dirs h p.0)
            ∙ walk-same (qs ++ name ∷ []) t h' p.1
            ∙ ap (λ path. walk patterns r' path t) (sym (child ds' q qs name dirs' h p.0)))
        ∙ ap (both (walk patterns r' (join_path (rooted (ds' ++ q ∷ qs)) name) t))
            (walk_entries-same qs es h p.2)

  -- The prefix of a root changes nothing, and roots of the same base name collide: whatever their
  -- prefixes, two roots that are below directories of plain components under the same plain name, and
  -- at which the same tree is found, write the same entries under the same names, or fail both.
  pub walk-collides :
      (t : Tree)
      → IsPlain q
      → PlainTree t
      → walk patterns r (rooted (ds ++ q ∷ [])) t ≡ walk patterns r' (rooted (ds' ++ q ∷ [])) t
  walk-collides t plain p = walk-same [] t (plain, tt) p
