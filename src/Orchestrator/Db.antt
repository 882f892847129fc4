-- ===== src/Orchestrator/Db.antt =====
-- orchestrator/db/dbloader.go. The client of Redis is an argument: what it is made of, and its ping.
pub mod Agreement
use orbstrike.Common.{
  ℕ, List, [], ◌∷◌, Option, none, some, Text, text_eqb, split, trim_space, if◌then◌else◌,
}
use orbstrike.Tls.{X509, TlsConfig, Tls, switched_off, configured, pair_failed, ca_failed}
use orbstrike.Server.Db.{
  DbConfig, ClusterOptions, no_shard_nodes, bad_certificate, bad_ca, no_answer, Client, connected,
  refused,
}
use orbstrike.Orchestrator.Ssl.{get_tls_client_mutual}

-- The loop over the slices, which keeps those that are not empty once trimmed.
unfoldable pub trim_parts : List Text → List Text
unfolding trim_space
trim_parts [] = []
trim_parts (slice ∷ slices) =
    let rest = trim_parts slices in
    if text_eqb (trim_space slice) [] then rest else trim_space slice ∷ rest

unfoldable pub trim_split : Text → ℕ → List Text
unfolding trim_parts
trim_split input delimiter = trim_parts (split input delimiter)

module _ (x : X509) (ping : ClusterOptions x → Option Text) where
  unfoldable pub cluster_options : DbConfig → Option (TlsConfig x) → ClusterOptions x
  unfolding trim_split
  cluster_options config tls = record {
    addrs = trim_split config.db_shard_nodes b',';
    username = config.db_username;
    password = config.db_password;
    tls_config = tls;
  }

  -- From NewClusterClient on.
  unfoldable pub ping_with : ClusterOptions x → Client x
  ping_with options = elim (ping options) [
    | some e ↦ refused (no_answer e)
    | none ↦ connected options
  ]

  -- From the configuration of TLS on.
  unfoldable pub with_tls : DbConfig → Tls x → Client x
  unfolding ping_with cluster_options
  with_tls config switched_off = ping_with (cluster_options config none)
  with_tls config (configured tls) = ping_with (cluster_options config (some tls))
  with_tls config (pair_failed e) = refused (bad_certificate e)
  with_tls config ca_failed = refused bad_ca

  unfoldable pub start_client : DbConfig → Client x
  unfolding with_tls get_tls_client_mutual
  start_client config =
      if text_eqb config.db_shard_nodes []
      then refused no_shard_nodes
      else with_tls config (
          get_tls_client_mutual x config.db_base64_ssl_certificate config.db_base64_ssl_private_key
            config.db_base64_ssl_ca)
