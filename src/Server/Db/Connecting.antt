-- ===== src/Server/Db/Connecting.antt =====
-- What a client of the database has, once StartClient returns it.
use orbstrike.Common.{
  ◌≡◌, ◌≢◌, refl, ap, inl, inr, [], Option, none, some, Text, text_eqb, text_eqb_iff, All, arith,
  Option-cases, Bool-cases,
}
use orbstrike.Tls.{
  X509, TlsConfig, Tls, switched_off, configured, pair_failed, ca_failed, socket_tls,
}
use orbstrike.Server.Ssl.{get_tls_client}
use orbstrike.Server.Ssl.Secured.{Secured, get_tls_client-Secured}
use orbstrike.Server.Db.{
  DbConfig, ClusterOptions, connected, cluster_options, ping_with, with_tls, start_client,
}
use orbstrike.Server.Db.Trimming.{IsEntry, visible, joined, trim_split-IsEntry}

module _ (x : X509) (ping : ClusterOptions x → Option Text) where
  -- The client has the addresses of the configuration, its names and its TLS, and the database has
  -- answered to it.
  pub record Connected (config : DbConfig) (o : ClusterOptions x) : Type 0 where
    pub shards : config.db_shard_nodes ≢ []
    pub entries : All (IsEntry b',') o.addrs
    pub spelled : visible b',' (joined o.addrs) ≡ visible b',' config.db_shard_nodes
    pub username : o.username ≡ config.db_username
    pub password : o.password ≡ config.db_password
    pub secured :
        Secured x
          (λ t. t.root_cas)
          config.db_base64_ssl_certificate
          config.db_base64_ssl_private_key
          config.db_base64_ssl_ca
          o.tls_config
    pub answered : ping o ≡ none

  module _ (config : DbConfig) (o : ClusterOptions x) (shards : config.db_shard_nodes ≢ []) where
    ping_with-Connected :
        (tls : Option (TlsConfig x))
        → socket_tls (
            get_tls_client x config.db_base64_ssl_certificate config.db_base64_ssl_private_key
              config.db_base64_ssl_ca)
          ≡ some tls
        → ping_with x ping config tls ≡ connected o
        → Connected config o
    unfolding ping_with cluster_options
    ping_with-Connected tls q h = elim (Option-cases (ping (cluster_options x ping config tls))) [
      | inr (e, p) ↦ ground arith
      | inl p ↦
          let eq : cluster_options x ping config tls ≡ o = ground arith in
          rw (← eq) (record {
            shards = shards;
            entries = (trim_split-IsEntry b',' config.db_shard_nodes).0;
            spelled = (trim_split-IsEntry b',' config.db_shard_nodes).1;
            username = refl;
            password = refl;
            secured =
                get_tls_client-Secured x config.db_base64_ssl_certificate
                  config.db_base64_ssl_private_key config.db_base64_ssl_ca tls q;
            answered = p;
          })
    ]

    with_tls-Connected :
        (t : Tls x)
        → get_tls_client x config.db_base64_ssl_certificate config.db_base64_ssl_private_key
            config.db_base64_ssl_ca
          ≡ t
        → with_tls x ping config t ≡ connected o
        → Connected config o
    unfolding with_tls
    with_tls-Connected switched_off q h = ping_with-Connected none (ap socket_tls q) h
    with_tls-Connected (configured tls) q h = ping_with-Connected (some tls) (ap socket_tls q) h
    with_tls-Connected (pair_failed e) q h = cc
    with_tls-Connected ca_failed q h = cc

  pub start_client-Connected :
      (config : DbConfig) (o : ClusterOptions x)
      → start_client x ping config ≡ connected o
      → Connected config o
  unfolding start_client
  start_client-Connected config o h = elim (Bool-cases (text_eqb config.db_shard_nodes [])) [
    | inl e ↦ ground arith
    | inr e ↦
        with_tls-Connected config o (λ n. cc (e, (text_eqb_iff config.db_shard_nodes []).1 n)) _
          refl (rw e at h)
  ]
