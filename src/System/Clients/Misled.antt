-- ===== src/System/Clients/Misled.antt =====
-- A restore (cmd/backupctl/main.go) of a download with a corrupt chunk (internal/server/handlers.go:
-- downloadFile).
use prosiak.Base.{
  ℕ, ◌+◌, pos, Text, List, [], ◌∷◌, ◌++◌, map, length, length-append, true, false, Option, some,
  ◌≡◌, ap, sym, ◌∙◌, ◌⊎◌, inl, inr, arith, eqb, All,
}
use prosiak.Protocol.{ChunkRef, FileManifest}
use prosiak.Network.{Network}
use prosiak.State.Files.{file}
use prosiak.Handlers.{Server}
use prosiak.Handlers.Download.{answered, error_text, hash_mismatch, download_file}
use prosiak.Handlers.Download.Exact.{concat, Collision}
use prosiak.Handlers.Download.Whole.{Served}
use prosiak.Handlers.Download.Filled.{Corrupt, download_file-filled}
use prosiak.Handlers.Serve.{download}
use prosiak.Startup.Tls.{Pools, TlsSettings}
use prosiak.Client.Commands.{TlsFlags, configure_http_client, restored, restore}
use prosiak.System.Clients.{download_reply}
use prosiak.System.Clients.Restored.{framed-whole, restore-whole}

-- A restore can report success for a file that is not the backup. Where the first chunk of the backup
-- and some after it are sent with their hashes, the next is sent with another hash, and exactly as
-- many bytes are missing from there on as the line of the error has, which are 20, a restore leaves
-- the first chunks and the line of the error in its file, and reports the length of the backup; or
-- else the hash has two contents that collide. The client is configured, and the file can be created.
pub restore-misled :
    (net : Network) (hash_data : List ℕ → Text) (message : Text) (now : ℕ) (id : Text)
    (srv : Server net.World) (f : FileManifest) (c d : ChunkRef) (cs ds : List ChunkRef)
    (x : List ℕ) (xs : List (List ℕ)) (pools : Pools) (read_file : Text → Option (List ℕ))
    (env : Text) (tls : TlsFlags) (client : TlsSettings pools) (token out_path : Text)
    (other : List ℕ) (old : Option (List ℕ))
    → file id srv.db ≡ some f
    → f.chunks ≡ c ∷ (cs ++ d ∷ ds)
    → f.size ≡ pos (length (concat (x ∷ xs)) + 20)
    → map (λ (e : ChunkRef). e.hash) (c ∷ cs) ≡ map hash_data (x ∷ xs)
    → All (Served net hash_data now srv.db) (c ∷ cs)
    → Corrupt net hash_data now srv.db d
    → configure_http_client pools read_file env tls ≡ some (client, token)
    → eqb id [] ≡ false
    → eqb out_path [] ≡ false
    → (restore pools read_file env tls id out_path true
          (download_reply other (download (download_file net hash_data message now id srv).1))
          old
        ≡ (some (concat (x ∷ xs) ++ hash_mismatch), restored (length (concat (x ∷ xs)) + 20)))
      ⊎ Collision net hash_data
restore-misled net hash_data message now id srv f c d cs ds x xs pools read_file env tls client
      token out_path other old found listed sized hashes served corrupt made named out =
    elim (download_file-filled net hash_data message now id srv f c d cs ds x xs
      (length (concat (x ∷ xs)) + 20) found listed sized hashes served corrupt (omega arith)) [
        | inr clash ↦ inr clash
        | inl filled ↦ inl (
            ap
              (λ a.
                restore pools read_file env tls id out_path true (download_reply other (download a))
                  old)
              (filled ∙ ap (λ n. answered (pos n) got error_text) (sym length_got))
            ∙ ap (λ r. restore pools read_file env tls id out_path true r old) (framed-whole got)
            ∙ restore-whole pools read_file env tls client token id out_path got old made named out
            ∙ ap (λ n. (some got, restored n)) length_got)
      ]
  where
    got : List ℕ
    got = concat (x ∷ xs) ++ hash_mismatch

    length_got : length got ≡ length (concat (x ∷ xs)) + 20
    length_got = length-append (concat (x ∷ xs)) hash_mismatch
