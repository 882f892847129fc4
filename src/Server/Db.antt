-- ===== src/Server/Db.antt =====
-- server/db/dbloader.go. The client of Redis is an argument: what it is made of, and its ping.
pub mod Trimming
pub mod Connecting
use orbstrike.Common.{
  ℕ, List, [], ◌∷◌, Option, none, some, Text, text_eqb, split, trim_space, if◌then◌else◌,
}
use orbstrike.Tls.{X509, TlsConfig, Tls, switched_off, configured, pair_failed, ca_failed}
use orbstrike.Server.Ssl.{get_tls_client}

-- The loop over the slices, which keeps those that are not empty once trimmed.
unfoldable pub trim_parts : List Text → List Text
unfolding trim_space
trim_parts [] = []
trim_parts (slice ∷ slices) =
    let rest = trim_parts slices in
    if text_eqb (trim_space slice) [] then rest else trim_space slice ∷ rest

unfoldable pub trim_split : Text → ℕ → List Text
unfolding trim_parts
trim_split input delimiter = trim_parts (split input delimiter)

-- The part of the configuration that StartClient reads.
pub record DbConfig : Type 0 where
  pub db_shard_nodes : Text
  pub db_username : Text
  pub db_password : Text
  pub db_base64_ssl_certificate : Text
  pub db_base64_ssl_private_key : Text
  pub db_base64_ssl_ca : Text

-- redis.ClusterOptions: without a configuration the connection is not encrypted.
pub record ClusterOptions (x : X509) : Type 0 where
  pub addrs : List Text
  pub username : Text
  pub password : Text
  pub tls_config : Option (TlsConfig x)

pub data DbError (x : X509) : Type 0 where
  no_shard_nodes : DbError x
  bad_certificate : Text → DbError x
  bad_ca : DbError x
  no_answer : Text → DbError x

-- The client is known by its options.
pub data Client (x : X509) : Type 0 where
  connected : ClusterOptions x → Client x
  refused : DbError x → Client x

module _ (x : X509) (ping : ClusterOptions x → Option Text) where
  unfoldable pub cluster_options : DbConfig → Option (TlsConfig x) → ClusterOptions x
  unfolding trim_split
  cluster_options config tls = record {
    addrs = trim_split config.db_shard_nodes b',';
    username = config.db_username;
    password = config.db_password;
    tls_config = tls;
  }

  -- From the configuration of TLS on.
  unfoldable pub ping_with : DbConfig → Option (TlsConfig x) → Client x
  unfolding cluster_options
  ping_with config tls = elim (ping (cluster_options config tls)) [
    | some e ↦ refused (no_answer e)
    | none ↦ connected (cluster_options config tls)
  ]

  unfoldable pub with_tls : DbConfig → Tls x → Client x
  unfolding ping_with
  with_tls config switched_off = ping_with config none
  with_tls config (configured tls) = ping_with config (some tls)
  with_tls config (pair_failed e) = refused (bad_certificate e)
  with_tls config ca_failed = refused bad_ca

  unfoldable pub start_client : DbConfig → Client x
  unfolding with_tls get_tls_client
  start_client config =
      if text_eqb config.db_shard_nodes []
      then refused no_shard_nodes
      else with_tls config (
          get_tls_client x config.db_base64_ssl_certificate config.db_base64_ssl_private_key
            config.db_base64_ssl_ca)
