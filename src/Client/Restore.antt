-- ===== src/Client/Restore.antt =====
-- The restore of an archive (cmd/backupctl/main.go: extractTar). The file system is a parameter.
pub mod Contained
use prosiak.Base.{ℕ, Text, List, Bool, true, false, none, some, if◌then◌else◌}
use prosiak.Client.Paths.{abs, safe_extract_path}
use prosiak.Client.Archive.{dir_path}

-- What extractTar does to the file system.
pub data Action : Type 0 where
  make_dirs : Text → Action
  write_file : Text → List ℕ → Action
  remove : Text → Action
  make_link : Text → Text → Action

-- The file system: an action changes it, and succeeds or not.
pub record FileSystem : Type 1 where
  pub World : Type 0
  pub perform : Action → World → World × Bool

-- An entry of an archive; `other` has a type that is passed over.
pub data Kind : Type 0 where
  a_dir : Kind
  a_file : List ℕ → Kind
  a_link : Text → Kind
  other : Kind

-- What the reader of an archive gives.
pub data Archive : Type 0 where
  end : Archive
  broken : Archive
  next : Text → Kind → Archive → Archive

module _ (fs : FileSystem) where
  open fs use {World, perform}

  -- An action, and what follows where it succeeds.
  abbrev pub then_do : Action → (World → World × Bool) → World → World × Bool
  then_do a continue w = let (w', ok) = perform a w in if ok then continue w' else (w', false)

  -- What is done for an entry at its target. The result of Remove is not looked at.
  unfoldable pub extract_entry : Text → Kind → World → World × Bool
  unfolding dir_path
  extract_entry target a_dir w = perform (make_dirs target) w
  extract_entry target (a_file content) w =
      then_do (make_dirs (dir_path target)) (perform (write_file target content)) w
  extract_entry target (a_link to) w =
      then_do (make_dirs (dir_path target))
        (λ w'. perform (make_link to target) (perform (remove target) w').0) w
  extract_entry target other w = (w, true)

  module _ (cwd out_abs : Text) where
    -- The loop of extractTar: whether it ends without an error.
    unfoldable pub extract_loop : Archive → World → World × Bool
    unfolding extract_entry safe_extract_path
    extract_loop end w = (w, true)
    extract_loop broken w = (w, false)
    extract_loop (next name kind rest) w = elim (safe_extract_path cwd out_abs name) [
      | none ↦ (w, false)
      | some target ↦
          let (w', ok) = extract_entry target kind w in
          let later = extract_loop rest w' in if ok then later else (w', false)
    ]

  -- extractTar
  unfoldable pub extract_tar : Text → Archive → Text → World → World × Bool
  unfolding extract_loop abs
  extract_tar cwd archive out_dir =
      then_do (make_dirs out_dir) (extract_loop cwd (abs cwd out_dir) archive)
