-- ===== src/Orchestrator/Ssl/Agreement.antt =====
-- The two programs read the same settings of TLS alike.
use orbstrike.Common.{◌≡◌, Text, arith}
use orbstrike.Tls.{X509}
use orbstrike.Server.Ssl.{
  get_auth_credentials as server_get_auth_credentials, get_tls_client as server_get_tls_client,
}
use orbstrike.Orchestrator.Ssl.{get_auth_credentials, get_tls_client_mutual}

module _ (x : X509) where
  pub get_tls_client_mutual-get_tls_client :
      (cert key ca : Text)
      → (get_tls_client_mutual x cert key ca ≡ server_get_tls_client x cert key ca)
        × (get_auth_credentials x cert key ca ≡ server_get_auth_credentials x cert key ca)
  unfolding get_auth_credentials get_tls_client_mutual server_get_auth_credentials
      server_get_tls_client
  get_tls_client_mutual-get_tls_client cert key ca = (ground arith, ground arith)
