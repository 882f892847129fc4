-- ===== src/Orchestrator/Main/Safety.antt =====
-- What a launched orchestrator is made of.
use orbstrike.Common.{
  [], sym, ◌∙◌, int64, scale_ℤ, ◌≡◌, refl, ap, inl, inr, Option, none, some, Text, List, ℤ,
  Option-cases,
}
use orbstrike.Tls.{
  X509, TlsConfig, Tls, switched_off, configured, pair_failed, ca_failed, socket_tls,
}
use orbstrike.Viper.{Viper, Configuration, complete, bad_file, bad_field}
use orbstrike.Logger.{FileAnswers, LogFile, Logger, init_logger}
use orbstrike.Server.Db.{ClusterOptions, Client, connected, refused}
use orbstrike.Logger.Levels.{Levels, init_logger-Levels}
use orbstrike.Server.Db.Connecting.{Connected, start_client-Connected}
use orbstrike.Server.Ssl.Secured.{Secured, get_auth_credentials-Secured}
use orbstrike.Orchestrator.Ssl.Agreement.{get_tls_client_mutual-get_tls_client}
use orbstrike.Orchestrator.Ssl.Trusted.{Trusted, get_tls_client_ca-Trusted}
use orbstrike.Orchestrator.Db.Agreement.{start_client-agree}
use orbstrike.Orchestrator.Conf.{Config, load_conig}
use orbstrike.Orchestrator.Db.{start_client}
use orbstrike.Orchestrator.Ssl.{get_tls_client_ca}
use orbstrike.Orchestrator.Main.{
  cfg_file, db_config, minutes, new_auth_server, Launched, Boot, exited, launched, launch,
  with_credentials, credentials_of, with_gs, with_client, with_logger, with_config,
  orchestrator_main,
}

module _ (x : X509) (ping : ClusterOptions x → Option Text) (listen : ℤ → Option Text) (v : Viper)
    (a : FileAnswers) (found : LogFile) (logger : Logger) (args : List Text) where
  -- The stages that a launched orchestrator has passed.
  pub record Stages (l : Launched x) : Type 0 where
    pub config : Config
    pub read : load_conig v (cfg_file args) ≡ complete config
    pub logs :
        init_logger a found config.log_options config.max_log_size_kb config.log_stdout logger
        ≡ (none, l.logger)
    pub connects : start_client x ping (db_config config) ≡ connected l.client
    pub trusts :
        socket_tls (get_tls_client_ca x config.gs_base64_ssl_ca) ≡ some l.proxy.gs_credentials
    pub secures : socket_tls (credentials_of x ping listen config) ≡ some l.credentials
    pub limits : l.proxy.timeout ≡ minutes config.timeout_min
    pub serves : l.auth ≡ new_auth_server config
    pub listens : listen config.port ≡ none

  -- What is known of an orchestrator, if one was launched.
  abbrev StagesIf : Boot x → Type 0
  StagesIf (exited s) = Unit
  StagesIf (launched l) = Stages l

  module _ (config : Config) (read : load_conig v (cfg_file args) ≡ complete config) (log : Logger)
      (client : ClusterOptions x)
      (logs : init_logger a found config.log_options config.max_log_size_kb config.log_stdout logger
        ≡ (none, log))
      (connects : start_client x ping (db_config config) ≡ connected client) where
    launch-Stages :
        (gs credentials : Option (TlsConfig x))
        → socket_tls (get_tls_client_ca x config.gs_base64_ssl_ca) ≡ some gs
        → socket_tls (credentials_of x ping listen config) ≡ some credentials
        → StagesIf (launch x ping listen config log client gs credentials)
    unfolding launch
    launch-Stages gs credentials trusts secures = elim (Option-cases (listen config.port)) [
      | inr (e, q) ↦ rw (q, launch) tt
      | inl q ↦
          rw (q, launch)
            (record {
              config = config;
              read = read;
              logs = logs;
              connects = connects;
              trusts = trusts;
              secures = secures;
              limits = refl;
              serves = refl;
              listens = q;
            })
    ]

    with_credentials-Stages :
        (gs : Option (TlsConfig x)) (t : Tls x)
        → socket_tls (get_tls_client_ca x config.gs_base64_ssl_ca) ≡ some gs
        → credentials_of x ping listen config ≡ t
        → StagesIf (with_credentials x ping listen config log client gs t)
    unfolding with_credentials
    with_credentials-Stages gs switched_off g q = launch-Stages gs none g (ap socket_tls q)
    with_credentials-Stages gs (configured tls) g q =
        launch-Stages gs (some tls) g (ap socket_tls q)
    with_credentials-Stages gs (pair_failed e) g q = tt
    with_credentials-Stages gs ca_failed g q = tt

    with_gs-Stages :
        (t : Tls x)
        → get_tls_client_ca x config.gs_base64_ssl_ca ≡ t
        → StagesIf (with_gs x ping listen config log client t)
    unfolding with_gs
    with_gs-Stages switched_off q = with_credentials-Stages none _ (ap socket_tls q) refl
    with_gs-Stages (configured tls) q = with_credentials-Stages (some tls) _ (ap socket_tls q) refl
    with_gs-Stages (pair_failed e) q = tt
    with_gs-Stages ca_failed q = tt

  module _ (config : Config) (read : load_conig v (cfg_file args) ≡ complete config) where
    with_client-Stages :
        (log : Logger) (client : Client x)
        → init_logger a found config.log_options config.max_log_size_kb config.log_stdout logger
          ≡ (none, log)
        → start_client x ping (db_config config) ≡ client
        → StagesIf (with_client x ping listen config log client)
    unfolding with_client
    with_client-Stages log (refused e) g h = tt
    with_client-Stages log (connected client) g h =
        with_gs-Stages config read log client g h (get_tls_client_ca x config.gs_base64_ssl_ca) refl

    with_logger-Stages :
        (r : Option Text × Logger)
        → init_logger a found config.log_options config.max_log_size_kb config.log_stdout logger ≡ r
        → StagesIf (with_logger x ping listen config r)
    unfolding with_logger
    with_logger-Stages (some e, log) g = tt
    with_logger-Stages (none, log) g =
        with_client-Stages log (start_client x ping (db_config config)) g refl

  with_config-Stages :
      (r : Configuration Config)
      → load_conig v (cfg_file args) ≡ r
      → StagesIf (with_config x ping listen a found logger r)
  unfolding with_config
  with_config-Stages (bad_file e) q = tt
  with_config-Stages bad_field q = tt
  with_config-Stages (complete config) q = with_logger-Stages config q _ refl

  main-StagesIf : StagesIf (orchestrator_main x ping listen v a found logger args)
  unfolding orchestrator_main
  main-StagesIf = with_config-Stages (load_conig v (cfg_file args)) refl

  main-Stages :
      (l : Launched x)
      → orchestrator_main x ping listen v a found logger args ≡ launched l
      → Stages l
  main-Stages l h = rw h at main-StagesIf

  pub record Ready (l : Launched x) : Type 0 where
    pub config : Config
    pub read : load_conig v (cfg_file args) ≡ complete config
    pub logs : Levels a config.log_options config.log_stdout l.logger
    pub connects :
        Connected x ping
          (record {
            db_shard_nodes = config.db_shard_nodes;
            db_username = config.db_username;
            db_password = config.db_password;
            db_base64_ssl_certificate = config.db_base64_ssl_certificate;
            db_base64_ssl_private_key = config.db_base64_ssl_private_key;
            db_base64_ssl_ca = config.db_base64_ssl_ca;
          })
          l.client
    pub trusts : Trusted x config.gs_base64_ssl_ca l.proxy.gs_credentials
    pub secures :
        Secured x
          (λ t. t.client_cas)
          config.base64_ssl_certificate
          config.base64_ssl_private_key
          config.base64_ssl_ca
          l.credentials
    pub timeout : l.proxy.timeout ≡ int64 (scale_ℤ 60000000000 config.timeout_min)
    pub lifetime : l.auth.game_lifetime ≡ int64 (scale_ℤ 60000000000 config.game_lifetime_min)
    pub daily : l.auth.daily_user_game_limit ≡ config.daily_user_game_limit
    pub joins : l.auth.game_join_timeout_sec ≡ config.game_join_timeout_sec
    pub secret : l.auth.server_secret ≡ config.secret
    pub listens : listen config.port ≡ none

  client-Connected :
      (config : Config) (client : ClusterOptions x)
      → start_client x ping (db_config config) ≡ connected client
      → Connected x ping (db_config config) client
  client-Connected config client h =
      start_client-Connected x ping (db_config config) client
        (sym ((start_client-agree x ping (db_config config) [] [] []).0) ∙ h)

  credentials-Secured :
      (config : Config) (o : Option (TlsConfig x))
      → socket_tls (credentials_of x ping listen config) ≡ some o
      → Secured x
          (λ t. t.client_cas)
          config.base64_ssl_certificate
          config.base64_ssl_private_key
          config.base64_ssl_ca
          o
  unfolding credentials_of
  credentials-Secured config o h =
      get_auth_credentials-Secured x config.base64_ssl_certificate config.base64_ssl_private_key
        config.base64_ssl_ca o
        (ap socket_tls (
            sym
              (get_tls_client_mutual-get_tls_client x config.base64_ssl_certificate
                config.base64_ssl_private_key config.base64_ssl_ca).1)
          ∙ h)

  -- A launched orchestrator has read its configuration, and has its limits, its secret and its times,
  -- minutes in nanoseconds of 64 bits. Its log file was opened and its port was free. The database
  -- has answered to a client with the addresses, the names and the TLS settings of the configuration.
  -- The socket, and likewise that client, goes without TLS exactly where a setting of it is empty, and
  -- else has the pair and the CA of the settings; connections to gameservers go without TLS exactly
  -- where there is no CA for them, and else trust that CA.
  pub orchestrator_main-Ready :
      (l : Launched x)
      → orchestrator_main x ping listen v a found logger args ≡ launched l
      → Ready l
  unfolding minutes new_auth_server
  orchestrator_main-Ready l h =
      let s = main-Stages l h in
      record {
        config = s.config;
        read = s.read;
        logs =
            init_logger-Levels a found s.config.log_options s.config.max_log_size_kb
              s.config.log_stdout logger l.logger s.logs;
        connects = client-Connected s.config l.client s.connects;
        trusts =
            get_tls_client_ca-Trusted x s.config.gs_base64_ssl_ca l.proxy.gs_credentials s.trusts;
        secures = credentials-Secured s.config l.credentials s.secures;
        timeout = s.limits;
        lifetime = ap (λ u. u.game_lifetime) s.serves;
        daily = ap (λ u. u.daily_user_game_limit) s.serves;
        joins = ap (λ u. u.game_join_timeout_sec) s.serves;
        secret = ap (λ u. u.server_secret) s.serves;
        listens = s.listens;
      }
