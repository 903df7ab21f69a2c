-- ===== src/Client/Restore/Contained.antt =====
-- The paths that a restore names (cmd/backupctl/main.go: extractTar).
use prosiak.Base.{
  ℕ, Text, text, List, [], ◌∷◌, ◌++◌, ◌||◌, append-nil, append_assoc, Bool, true, false,
  Option-cases, some, any-append, reverse, reverse-append, reverse-reverse, ◌≡◌, ◌⊎◌, inl, inr,
  refl, ap, sym, subst, ◌∙◌, arith, if◌then◌else◌, eqb, All, All-append, any,
}
use prosiak.Client.Paths.{is_slash, components, join, clean, resolve, abs, safe_extract_path}
use prosiak.Client.Paths.Components.{
  IsPlain, components-append, components-join, join-append, or-false, resolve-plain_slash,
  resolve-nil,
}
use prosiak.Client.Paths.Inside
use prosiak.Client.Paths.Inside.{safe_extract_path-IsPlain}
use prosiak.Client.Archive.{dir_path, from_slash}
use prosiak.Client.Archive.Names.{rooted}
use prosiak.Client.Restore.{
  Action, make_dirs, write_file, remove, make_link, FileSystem, Kind, a_dir, a_file, a_link, other,
  Archive, end, broken, next, then_do, extract_entry, extract_loop, extract_tar,
}

any-reverse : (p : ℕ → Bool) (s : Text) → any p s ≡ false → any p (reverse s) ≡ false
unfolding any
any-reverse p [] h = refl
any-reverse p (c ∷ s) h =
    ap (any p) (reverse-append (c ∷ []) s)
    ∙ any-append p (reverse s) (c ∷ [])
    ∙ ground (arith, any-reverse p s, h)

from_slash-append : (s t : Text) → any is_slash s ≡ false → from_slash (s ++ b'/' ∷ t) ≡ b'/' ∷ t
unfolding from_slash any
from_slash-append [] t h = refl
from_slash-append (c ∷ s) t h =
    let (letter, rest) = or-false (is_slash c) (any is_slash s) h in
    rw (from_slash, letter) (from_slash-append s t rest)

-- filepath.Dir drops the last component.
dir_path-append :
    (s x : Text) → any is_slash x ≡ false → dir_path (s ++ b'/' ∷ x) ≡ clean (s ++ text "/")
unfolding dir_path
dir_path-append s x h = ap clean (
    ap reverse dropped
    ∙ (reverse-append (text "/") (reverse s) ∙ ap (λ l. l ++ text "/") (reverse-reverse s)))
  where
    dropped : from_slash (reverse (s ++ b'/' ∷ x)) ≡ b'/' ∷ reverse s
    dropped =
        ap from_slash (
          reverse-append s (b'/' ∷ x)
          ∙ ap (λ l. l ++ reverse s) (reverse-append (text "/") x)
          ∙ append_assoc (reverse x) (text "/") (reverse s))
        ∙ from_slash-append (reverse x) (reverse s) (any-reverse is_slash x h)

clean-rooted_slash : (ds : List Text) → All IsPlain ds → clean (rooted ds ++ text "/") ≡ rooted ds
unfolding clean components resolve join eqb
clean-rooted_slash [] h = refl
clean-rooted_slash (d ∷ ds) h =
    ap (λ l. b'/' ∷ join (resolve true [] ([] ∷ l))) parts
    ∙ ap (λ l. b'/' ∷ join l)
        (resolve-nil true [] (d ∷ (ds ++ [] ∷ [])) ∙ resolve-plain_slash true [] (d ∷ ds) h)
  where
    parts : components (join (d ∷ ds) ++ text "/") ≡ (d ∷ ds) ++ [] ∷ []
    parts = components-append (join (d ∷ ds)) [] ∙ ap (λ l. l ++ [] ∷ []) (components-join d ds h)

-- A path below a directory of plain components, or the directory.
abbrev pub Within : Text → List Text → Text → Type 0
Within d ds path = (ps : List Text) × All IsPlain ps × (path ≡ rooted (d ∷ (ds ++ ps)))

dir_path-rooted :
    (ds : List Text) (d x : Text) (xs : List Text)
    → All IsPlain (d ∷ ds)
    → All IsPlain (x ∷ xs)
    → Within d ds (dir_path (rooted (d ∷ (ds ++ x ∷ xs))))
unfolding join dir_path
dir_path-rooted ds d x [] h hx = (
  [],
  tt,
  ap dir_path (ap (◌∷◌ b'/') (join-append d ds x []))
      ∙ dir_path-append (rooted (d ∷ ds)) x hx.0.no_slash
      ∙ clean-rooted_slash (d ∷ ds) h
      ∙ ap (λ l. rooted (d ∷ l)) (sym (append-nil ds)),
)
dir_path-rooted ds d x (y ∷ ys) h hx =
    let (ps, plain, e) =
      dir_path-rooted (ds ++ x ∷ []) d y ys (All-append IsPlain (d ∷ ds) (x ∷ []) h (hx.0, tt))
        hx.1 in
    (
      x ∷ ps,
      (hx.0, plain),
      ap (λ l. dir_path (rooted (d ∷ l))) (sym (append_assoc ds (x ∷ []) (y ∷ ys)))
          ∙ e
          ∙ ap (λ l. rooted (d ∷ l)) (append_assoc ds (x ∷ []) ps),
    )

abbrev is_link : Kind → Bool
is_link (a_link to) = true
is_link a_dir = false
is_link (a_file content) = false
is_link other = false

-- An archive with an entry for a symbolic link.
unfoldable pub has_link : Archive → Bool
has_link end = false
has_link broken = false
has_link (next name kind rest) = is_link kind || has_link rest

-- What a restore to a directory may ask of the file system: to make that directory, and to make or
-- write what has a path within it; and, where the archive has links, to remove or to link there. The
-- target of a link is free.
unfoldable pub Contained : Bool → Text → Text → List Text → Action → Type 0
Contained linked out_dir d ds (make_dirs path) = (path ≡ out_dir) ⊎ Within d ds path
Contained linked out_dir d ds (write_file path content) = Within d ds path
Contained linked out_dir d ds (remove path) = (linked ≡ true) × Within d ds path
Contained linked out_dir d ds (make_link to path) = (linked ≡ true) × Within d ds path

module _ (fs : FileSystem) (linked : Bool) (cwd out_dir d : Text) (ds : List Text)
    (plain_dir : All IsPlain (d ∷ ds)) where
  open fs use {World, perform}

  module _ (P : World → Type 0)
      (keeps : (a : Action) (w : World)
        → Contained linked out_dir d ds a
        → P w
        → P (perform a w).0) where
    then_do-keeps :
        (a : Action) (continue : World → World × Bool) (w : World)
        → Contained linked out_dir d ds a
        → P w
        → ((w' : World) → P w' → P (continue w').0)
        → P (then_do fs a continue w).0
    then_do-keeps a continue w c h later = by (perform a w).1 (perform a w).0 (keeps a w c h)
      where
        by : (b : Bool) (w' : World) → P w' → P (if b then continue w' else (w', false)).0
        by true w' h' = later w' h'
        by false w' h' = h'

    extract_entry-keeps :
        (x : Text) (xs : List Text) (kind : Kind) (w : World)
        → All IsPlain (x ∷ xs)
        → (is_link kind ≡ true → linked ≡ true)
        → P w
        → P (extract_entry fs (rooted (d ∷ (ds ++ x ∷ xs))) kind w).0
    unfolding extract_entry Contained
    extract_entry-keeps x xs a_dir w hx allowed h = keeps _ w (inr (x ∷ xs, hx, refl)) h
    extract_entry-keeps x xs (a_file content) w hx allowed h =
        then_do-keeps (make_dirs _) (perform (write_file (rooted (d ∷ (ds ++ x ∷ xs))) content)) w
          (inr (dir_path-rooted ds d x xs plain_dir hx)) h
          (λ w' h'. keeps (write_file _ content) w' (x ∷ xs, hx, refl) h')
    extract_entry-keeps x xs (a_link to) w hx allowed h =
        let at = rooted (d ∷ (ds ++ x ∷ xs)) in
        then_do-keeps (make_dirs _) (λ w'. perform (make_link to at) (perform (remove at) w').0) w
          (inr (dir_path-rooted ds d x xs plain_dir hx)) h
          (λ w' h'.
            keeps (make_link to _) _ (allowed refl, (x ∷ xs, hx, refl))
              (keeps (remove _) w' (allowed refl, (x ∷ xs, hx, refl)) h'))
    extract_entry-keeps x xs other w hx allowed h = h

    -- The path that is let through is one within the directory.
    let_through-keeps :
        (name target : Text) (kind : Kind) (w : World)
        → safe_extract_path cwd (Inside.directory d ds) name ≡ some target
        → (is_link kind ≡ true → linked ≡ true)
        → P w
        → P (extract_entry fs target kind w).0
    let_through-keeps name target kind w e allowed h =
        let (x, xs, plain, cleaned, same) =
          (safe_extract_path-IsPlain cwd d ds plain_dir name target).0 e in
        subst (λ t. P (extract_entry fs t kind w).0)
          (ap (◌∷◌ b'/') (join-append d ds x xs) ∙ sym same)
          (extract_entry-keeps x xs kind w plain allowed h)

    extract_loop-keeps :
        (archive : Archive) (w : World)
        → (has_link archive ≡ true → linked ≡ true)
        → P w
        → P (extract_loop fs cwd (Inside.directory d ds) archive w).0
    unfolding extract_loop has_link
    extract_loop-keeps end w links h = h
    extract_loop-keeps broken w links h = h
    extract_loop-keeps (next name kind rest) w links h =
        elim (Option-cases (safe_extract_path cwd (Inside.directory d ds) name)) [
          | inl bad ↦ rw (extract_loop, bad) h
          | inr (target, e) ↦
              let kept =
                let_through-keeps name target kind w e (λ l. links (ground (arith, l))) h in
              rw (extract_loop, e)
                (goes_on (extract_entry fs target kind w).1 (extract_entry fs target kind w).0 kept
                  (extract_loop-keeps rest (extract_entry fs target kind w).0
                    (λ l. links (ground (arith, l))) kept))
        ]
      where
        goes_on :
            (b : Bool) (w' : World)
            → P w'
            → P (extract_loop fs cwd (Inside.directory d ds) rest w').0
            → P (if b then extract_loop fs cwd (Inside.directory d ds) rest w' else (w', false)).0
        goes_on true w' h' later = later
        goes_on false w' h' later = h'

-- What a restore asks of the file system names paths within its directory. A property of the file
-- system is kept by the restore of an archive where each single action keeps it that makes the
-- directory, or makes or writes at a path that is the directory's own or goes on from it by plain
-- components, or, for an archive with a symbolic link, removes or links at such a path. The directory
-- is an absolute path of plain components, as filepath.Abs gives it. A path is bounded by its text:
-- where a symbolic link stands on its way, an action reaches what the link leads to.
pub extract_tar-keeps :
    (fs : FileSystem) (cwd out_dir d : Text) (ds : List Text) (archive : Archive)
    (P : fs.World → Type 0) (w : fs.World)
    → All IsPlain (d ∷ ds)
    → ((a : Action) (w' : fs.World)
        → Contained (has_link archive) out_dir d ds a
        → P w'
        → P (fs.perform a w').0)
    → abs cwd out_dir ≡ Inside.directory d ds
    → P w
    → P (extract_tar fs cwd archive out_dir w).0
unfolding extract_tar Contained
extract_tar-keeps fs cwd out_dir d ds archive P w plain_dir keeps e h =
    subst (λ dir. P (then_do fs (make_dirs out_dir) (extract_loop fs cwd dir archive) w).0) (sym e)
      (then_do-keeps fs (has_link archive) cwd out_dir d ds plain_dir P keeps (make_dirs out_dir)
        (extract_loop fs cwd (Inside.directory d ds) archive) w (inl refl) h
        (λ w' h'.
          extract_loop-keeps fs (has_link archive) cwd out_dir d ds plain_dir P keeps archive w'
            (λ l. l) h'))
