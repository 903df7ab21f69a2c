-- ===== src/Handlers/Backup/Unsaved.antt =====
-- What an upload leaves as it is before its manifest is saved (internal/server/handlers.go).
use prosiak.Base.{ℕ, ℤ, Text, List, Bool, ◌≡◌, refl, ◌∙◌, arith}
use prosiak.Network.{Network}
use prosiak.State.{State}
use prosiak.State.Locations.{confirm_chunk}
use prosiak.Handlers.Backup.Confirms.{upload_loop-Changed}
use prosiak.Handlers.Backup.{Upload, upload_loop}

-- The tables of the backups are the same.
pub record SameBackups (s s' : State) : Type 0 where
  pub files : s'.files ≡ s.files
  pub file_chunks : s'.file_chunks ≡ s.file_chunks

pub same : (s : State) → SameBackups s s
same s = record { files = refl; file_chunks = refl }

pub same_after : (s s' s'' : State) → SameBackups s s' → SameBackups s' s'' → SameBackups s s''
same_after s s' s'' h h' = record {
  files = h'.files ∙ h.files;
  file_chunks = h'.file_chunks ∙ h.file_chunks;
}

confirm_chunk-SameBackups :
    (now : ℕ) (hash : Text) (size : ℤ) (node_id : Text) (s : State)
    → SameBackups s (confirm_chunk now hash size node_id s).0
unfolding confirm_chunk
confirm_chunk-SameBackups now hash size node_id s = record {
  files = ground arith;
  file_chunks = ground arith;
}

-- The loop of an upload leaves the tables of the backups as they are.
pub upload_loop-SameBackups :
    (net : Network) (hash_data : List ℕ → Text) (fuel : ℕ) (clock : ℕ → ℕ) (size replication : ℤ)
    (index : ℕ) (faulty : Bool) (bytes : List ℕ) (u : Upload net.World)
    → SameBackups u.db
        (upload_loop net hash_data fuel clock size replication index faulty bytes u).0.db
upload_loop-SameBackups net hash_data =
    upload_loop-Changed net hash_data SameBackups same same_after confirm_chunk-SameBackups
