-- ===== src/Server/Ssl.antt =====
-- server/ssl/ssl.go.
pub mod Secured
use orbstrike.Common.{ℕ, [], ◌∷◌, none, some, Text, text_eqb, ◌||◌, if◌then◌else◌}
use orbstrike.Tls.{
  X509, Loaded, loaded, load_failed, TlsConfig, Tls, no_client_cert, switched_off, configured,
  pair_failed, ca_failed,
}

-- tls.VersionTLS12
abbrev pub version_tls12 : ℕ
version_tls12 = 0x0303

module _ (x : X509) where
  open x use {Cert, CertPool, decode, key_pair, add_certs}

  -- From the pool on, with the configuration that is built of a certificate and a pool.
  unfoldable pub with_ca : (Cert → CertPool → TlsConfig x) → Cert → Text → Tls x
  with_ca build pair ca = elim (add_certs (decode ca)) [
    | none ↦ ca_failed
    | some pool ↦ configured (build pair pool)
  ]

  unfoldable pub with_pair : (Cert → CertPool → TlsConfig x) → Loaded Cert → Text → Tls x
  unfolding with_ca
  with_pair build (load_failed e) ca = pair_failed e
  with_pair build (loaded pair) ca = with_ca build pair ca

  unfoldable pub get_auth_credentials : (cert key ca : Text) → Tls x
  unfolding with_pair
  get_auth_credentials cert key ca =
      if text_eqb cert [] || (text_eqb key [] || text_eqb ca [])
      then switched_off
      else with_pair
          (λ pair pool. record {
            min_version = none;
            certificates = pair ∷ [];
            client_auth = some no_client_cert;
            client_cas = some pool;
            root_cas = none;
          })
          (key_pair (decode cert) (decode key)) ca

  unfoldable pub get_tls_client : (cert key ca : Text) → Tls x
  unfolding with_pair
  get_tls_client cert key ca =
      if text_eqb cert [] || (text_eqb key [] || text_eqb ca [])
      then switched_off
      else with_pair
          (λ pair pool. record {
            min_version = some version_tls12;
            certificates = pair ∷ [];
            client_auth = none;
            client_cas = none;
            root_cas = some pool;
          })
          (key_pair (decode cert) (decode key)) ca
