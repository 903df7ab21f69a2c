-- ===== src/Startup/Tls/Secured.antt =====
-- What is listened on (internal/tlsconfig/tlsconfig.go: ListenAndServe).
use prosiak.Base.{
  Text, [], Bool-cases, false, some, some_eq, ◌≡◌, ◌≢◌, inl, inr, refl, subst, arith, eqb, eqb_iff,
}
use prosiak.Startup.Tls.{TlsServer, Listening, plaintext, https, listen_and_serve}

-- Plaintext is served where neither a certificate nor a key is named, and HTTPS where both are.
abbrev pub Secured : Text → TlsServer → Listening → Type 0
Secured addr cfg (plaintext a) = (a ≡ addr) × (cfg.cert_file ≡ []) × (cfg.key_file ≡ [])
Secured addr cfg (https a cert key) =
    (a ≡ addr) × (cert ≡ cfg.cert_file) × (key ≡ cfg.key_file) × (cert ≢ []) × (key ≢ [])

pub listen_and_serve-Secured :
    (addr : Text) (cfg : TlsServer) (l : Listening)
    → listen_and_serve addr cfg ≡ some l
    → Secured addr cfg l
unfolding listen_and_serve
listen_and_serve-Secured addr cfg l h = elim (Bool-cases (eqb cfg.cert_file [])) [
  | inl no_cert ↦ elim (Bool-cases (eqb cfg.key_file [])) [
    | inl no_key ↦
        subst (Secured addr cfg) (some_eq (rw (no_cert, no_key, listen_and_serve) at h))
          (refl, (eqb_iff cfg.cert_file []).0 no_cert, (eqb_iff cfg.key_file []).0 no_key)
    | inr key ↦ absurd (ground (arith, h, no_cert, key))
  ]
  | inr cert ↦ elim (Bool-cases (eqb cfg.key_file [])) [
    | inl no_key ↦ absurd (ground (arith, h, cert, no_key))
    | inr key ↦
        subst (Secured addr cfg) (some_eq (rw (cert, key, listen_and_serve) at h))
          (refl, refl, refl, filled cfg.cert_file cert, filled cfg.key_file key)
  ]
]
  where
    filled : (s : Text) → eqb s [] ≡ false → s ≢ []
    filled s e same = absurd (ground (arith, e, (eqb_iff s []).1 same))
