-- ===== src/Client/Commands/Restored.antt =====
-- What a restore leaves at its output path (cmd/backupctl/main.go: restore).
use prosiak.Base.{
  ℕ, ◌<◌, ◌≤◌, Text, List, [], Bool, Bool-cases, true, false, ◌||◌, Option, Option-cases, some, ◌≡◌,
  ◌≢◌, inl, inr, refl, arith, leb, if◌then◌else◌, eqb, eqb_iff, length,
}
use prosiak.Startup.Tls.{Pools, TlsSettings}
use prosiak.Client.Commands.{
  TlsFlags, configure_http_client, Reply, unreachable, reply, Ending, failed, restored, restore,
  written,
}

-- What a reply leaves in the file that was created for it, and how the restore ends.
pub data Left : Reply → Option (List ℕ) → Ending → Type 0 where
  no_reply : Left unreachable (some []) failed
  rejected :
      (status : ℕ) (body : List ℕ) (whole : Bool)
      → 300 ≤ status
      → Left (reply status body whole) (some []) failed
  broken_off :
      (status : ℕ) (body : List ℕ)
      → status < 300
      → Left (reply status body false) (some body) failed
  arrived :
      (status : ℕ) (body : List ℕ)
      → status < 300
      → Left (reply status body true) (some body) (restored (length body))

not_nil : (s : Text) → eqb s [] ≡ false → s ≢ []
not_nil s h e = absurd (ground (arith, h, (eqb_iff s []).1 e))

both_given : (s t : Text) → (eqb s [] || eqb t []) ≡ false → (s ≢ []) × (t ≢ [])
both_given s t h = (not_nil s (ground (arith, h)), not_nil t (ground (arith, h)))

one_missing : (s t : Text) → (eqb s [] || eqb t []) ≡ true → s ≢ [] → t ≢ [] → ⊥
one_missing s t h s_given t_given = elim (Bool-cases (eqb s [])) [
  | inl first ↦ s_given ((eqb_iff s []).0 first)
  | inr second ↦ t_given ((eqb_iff t []).0 (ground (arith, h, second)))
]

module _ (pools : Pools) (read_file : Text → Option (List ℕ)) (env : Text) where
  -- The settings are in order, an id and a path are given, and the file can be created.
  abbrev pub Ready : TlsFlags → Text → Text → Bool → Type 0
  Ready f file_id out_path creates =
      ((client : TlsSettings pools × Text) × (configure_http_client pools read_file env f
          ≡ some client))
      × (file_id ≢ [])
      × (out_path ≢ [])
      × (creates ≡ true)

  written-Left :
      (r : Reply) → Left r (written pools read_file env r).0 (written pools read_file env r).1
  written-Left unreachable = no_reply
  written-Left (reply status body whole) = elim (Bool-cases (leb 300 status)) [
    | inl refused ↦ rw refused (rejected status body whole (ground (arith, refused)))
    | inr accepted ↦ rw accepted (by whole (ground (arith, accepted)))
  ]
    where
      by :
          (b : Bool)
          → status < 300
          → Left (reply status body b) (some body) (if b then restored (length body) else failed)
      by true low = arrived status body low
      by false low = broken_off status body low

  -- A restore ends in one of two ways, and its settings, its arguments and the file tell which. If the
  -- client cannot be configured, the id or the path is missing, or the file cannot be created, it fails
  -- and leaves what is there. Otherwise what was there is lost, whatever the server does: the file is
  -- empty after a failure if no reply comes or one of a status from 300 on, has what came of a body
  -- that broke off, also with a failure, and has the whole body with a report of its size if it came.
  pub restore-Left :
      (f : TlsFlags) (file_id out_path : Text) (creates : Bool) (r : Reply) (old : Option (List ℕ))
      → let done = restore pools read_file env f file_id out_path creates r old in
        (¬ Ready f file_id out_path creates → done ≡ (old, failed))
        × (Ready f file_id out_path creates → Left r done.0 done.1)
  unfolding restore
  restore-Left f file_id out_path creates r old =
      elim (Option-cases (configure_http_client pools read_file env f)) [
        | inl bad ↦ (λ _. rw (bad, restore) refl, λ ready. absurd (cc (bad, ready.0.1)))
        | inr (client, made) ↦ elim (Bool-cases (eqb file_id [] || eqb out_path [])) [
          | inl missing ↦ (
            λ _. rw (made, missing, restore) refl,
            λ ready. absurd (one_missing file_id out_path missing ready.1 ready.2),
          )
          | inr given ↦ elim (Bool-cases creates) [
            | inr fails ↦
                (λ _. rw (made, given, fails, restore) refl, λ ready. absurd (cc (fails, ready.3)))
            | inl created ↦
                let both = both_given file_id out_path given in
                (
                  λ unready. absurd (unready ((client, made), both.0, both.1, created)),
                  λ _. rw (made, given, created, restore) (written-Left r),
                )
          ]
        ]
      ]
