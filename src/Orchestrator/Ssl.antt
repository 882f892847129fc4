-- ===== src/Orchestrator/Ssl.antt =====
-- orchestrator/ssl/ssl.go.
pub mod Agreement
pub mod Trusted
use orbstrike.Common.{[], ◌∷◌, none, some, Text, text_eqb, ◌||◌, if◌then◌else◌}
use orbstrike.Tls.{
  X509, loaded, load_failed, Tls, no_client_cert, switched_off, configured, pair_failed, ca_failed,
}

module _ (x : X509) where
  open x use {decode, key_pair, add_certs}

  unfoldable pub get_auth_credentials : (cert key ca : Text) → Tls x
  get_auth_credentials cert key ca =
      if text_eqb cert [] || (text_eqb key [] || text_eqb ca [])
      then switched_off
      else elim (key_pair (decode cert) (decode key)) [
        | load_failed e ↦ pair_failed e
        | loaded pair ↦ elim (add_certs (decode ca)) [
          | none ↦ ca_failed
          | some pool ↦ configured (record {
            min_version = none;
            certificates = pair ∷ [];
            client_auth = some no_client_cert;
            client_cas = some pool;
            root_cas = none;
          })
        ]
      ]

  unfoldable pub get_tls_client_mutual : (cert key ca : Text) → Tls x
  get_tls_client_mutual cert key ca =
      if text_eqb cert [] || (text_eqb key [] || text_eqb ca [])
      then switched_off
      else elim (key_pair (decode cert) (decode key)) [
        | load_failed e ↦ pair_failed e
        | loaded pair ↦ elim (add_certs (decode ca)) [
          | none ↦ ca_failed
          | some pool ↦ configured (record {
            min_version = some 0x0303;
            certificates = pair ∷ [];
            client_auth = none;
            client_cas = none;
            root_cas = some pool;
          })
        ]
      ]

  unfoldable pub get_tls_client_ca : Text → Tls x
  get_tls_client_ca ca = if text_eqb ca [] then switched_off else elim (add_certs (decode ca)) [
    | none ↦ ca_failed
    | some pool ↦ configured (record {
      min_version = none;
      certificates = [];
      client_auth = none;
      client_cas = none;
      root_cas = some pool;
    })
  ]
