-- ===== src/Orchestrator/Db/Agreement.antt =====
-- The two programs start their clients of the database alike.
use orbstrike.Common.{
  [], ◌∷◌, List, ◌≡◌, refl, ap, ◌∙◌, inl, inr, Option, none, some, Text, text_eqb, split, arith,
  Bool-cases,
}
use orbstrike.Tls.{X509, TlsConfig, Tls, switched_off, configured, pair_failed, ca_failed}
use orbstrike.Server.Db.{
  DbConfig, ClusterOptions, trim_parts as server_trim_parts, trim_split as server_trim_split,
  cluster_options as server_cluster_options, ping_with as server_ping_with,
  with_tls as server_with_tls, start_client as server_start_client,
}
use orbstrike.Server.Ssl.{get_auth_credentials as server_get_auth_credentials}
use orbstrike.Orchestrator.Ssl.{get_auth_credentials}
use orbstrike.Orchestrator.Ssl.Agreement.{get_tls_client_mutual-get_tls_client}
use orbstrike.Orchestrator.Db.{
  trim_parts, trim_split, cluster_options, ping_with, with_tls, start_client,
}

trim_parts-same : (slices : List Text) → trim_parts slices ≡ server_trim_parts slices
unfolding trim_parts server_trim_parts
trim_parts-same [] = refl
trim_parts-same (slice ∷ slices) = ground (arith, trim_parts-same slices)

module _ (x : X509) (ping : ClusterOptions x → Option Text) where
  cluster_options-same :
      (config : DbConfig) (tls : Option (TlsConfig x))
      → cluster_options x ping config tls ≡ server_cluster_options x ping config tls
  unfolding cluster_options server_cluster_options trim_split server_trim_split
  cluster_options-same config tls =
      ap
        (λ a. record {
          addrs = a;
          username = config.db_username;
          password = config.db_password;
          tls_config = tls;
        })
        (trim_parts-same (split config.db_shard_nodes b','))

  ping_with-same :
      (config : DbConfig) (tls : Option (TlsConfig x))
      → ping_with x ping (cluster_options x ping config tls) ≡ server_ping_with x ping config tls
  unfolding ping_with server_ping_with
  ping_with-same config tls = ap (ping_with x ping) (cluster_options-same config tls) ∙ refl

  with_tls-same :
      (config : DbConfig) (t : Tls x) → with_tls x ping config t ≡ server_with_tls x ping config t
  unfolding with_tls server_with_tls
  with_tls-same config switched_off = ping_with-same config none
  with_tls-same config (configured tls) = ping_with-same config (some tls)
  with_tls-same config (pair_failed e) = refl
  with_tls-same config ca_failed = refl

  start_client-same :
      (config : DbConfig) → start_client x ping config ≡ server_start_client x ping config
  unfolding start_client server_start_client
  start_client-same config = elim (Bool-cases (text_eqb config.db_shard_nodes [])) [
    | inl e ↦ rw e refl
    | inr e ↦ rw e (
        ap (with_tls x ping config)
          (get_tls_client_mutual-get_tls_client x config.db_base64_ssl_certificate
            config.db_base64_ssl_private_key config.db_base64_ssl_ca).0)
  ]

  -- With the same settings the gameserver and the orchestrator connect to the database alike, under
  -- the same TLS configuration, and make the same credentials for their sockets; they fail alike too.
  pub start_client-agree :
      (config : DbConfig) (cert key ca : Text)
      → (start_client x ping config ≡ server_start_client x ping config)
        × (get_auth_credentials x cert key ca ≡ server_get_auth_credentials x cert key ca)
  start_client-agree config cert key ca =
      (start_client-same config, (get_tls_client_mutual-get_tls_client x cert key ca).1)
