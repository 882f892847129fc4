-- ===== src/Server/Main/Safety.antt =====
-- What a launched gameserver is made of.
use orbstrike.Common.{[], split, ◌≡◌, refl, ap, Option, none, some, Text, List, ℤ}
use orbstrike.Tls.{X509, Tls, switched_off, configured, pair_failed, ca_failed, socket_tls}
use orbstrike.Viper.{Viper, Configuration, complete, bad_file, bad_field}
use orbstrike.Logger.{FileAnswers, LogFile, Logger, init_logger}
use orbstrike.Server.Conf.{Config, load_conig}
use orbstrike.Server.Db.{ClusterOptions, Client, connected, refused, start_client}
use orbstrike.Logger.Levels.{Levels, init_logger-Levels}
use orbstrike.Server.State.{Server}
use orbstrike.Server.Db.Connecting.{Connected, start_client-Connected}
use orbstrike.Server.Ssl.Secured.{Secured, get_auth_credentials-Secured}
use orbstrike.Server.Ssl.{get_auth_credentials}
use orbstrike.Server.Main.{
  new_server, Launched, Boot, exited, launched, launch, with_credentials, with_client, with_logger,
  with_config, cfg_file, server_main, db_config,
}

module _ (F : Type 0) (x : X509) (ping : ClusterOptions x → Option Text) (listen : ℤ → Option Text)
    (v : Viper) (a : FileAnswers) (found : LogFile) (logger : Logger) (args : List Text) where
  -- The stages that a launched gameserver has passed.
  pub record Stages (l : Launched F x) : Type 0 where
    pub config : Config
    pub read : load_conig v (cfg_file args) ≡ complete config
    pub logs :
        init_logger a found config.log_options config.max_log_size_kb config.log_stdout logger
        ≡ (none, l.logger)
    pub connects : start_client x ping (db_config config) ≡ connected l.client
    pub secures :
        socket_tls (
          get_auth_credentials x config.base64_ssl_certificate config.base64_ssl_private_key
            config.base64_ssl_ca)
        ≡ some l.credentials
    pub serves : l.server ≡ new_server config
    pub listens : l.listen_error ≡ listen config.port

  -- What is known of a gameserver, if one was launched.
  abbrev StagesIf : Boot F x → Type 0
  StagesIf (exited s) = Unit
  StagesIf (launched l) = Stages l

  module _ (config : Config) (read : load_conig v (cfg_file args) ≡ complete config) where
    with_credentials-Stages :
        (log : Logger) (client : ClusterOptions x) (t : Tls x)
        → init_logger a found config.log_options config.max_log_size_kb config.log_stdout logger
          ≡ (none, log)
        → start_client x ping (db_config config) ≡ connected client
        → get_auth_credentials x config.base64_ssl_certificate config.base64_ssl_private_key
            config.base64_ssl_ca
          ≡ t
        → StagesIf (with_credentials F x ping listen config log client t)
    unfolding with_credentials launch
    with_credentials-Stages log client switched_off g h q = record {
      config = config;
      read = read;
      logs = g;
      connects = h;
      secures = ap socket_tls q;
      serves = refl;
      listens = refl;
    }
    with_credentials-Stages log client (configured tls) g h q = record {
      config = config;
      read = read;
      logs = g;
      connects = h;
      secures = ap socket_tls q;
      serves = refl;
      listens = refl;
    }
    with_credentials-Stages log client (pair_failed e) g h q = tt
    with_credentials-Stages log client ca_failed g h q = tt

    with_client-Stages :
        (log : Logger) (client : Client x)
        → init_logger a found config.log_options config.max_log_size_kb config.log_stdout logger
          ≡ (none, log)
        → start_client x ping (db_config config) ≡ client
        → StagesIf (with_client F x ping listen config log client)
    unfolding with_client
    with_client-Stages log (refused e) g h = tt
    with_client-Stages log (connected client) g h =
        with_credentials-Stages log client
          (get_auth_credentials x config.base64_ssl_certificate config.base64_ssl_private_key
            config.base64_ssl_ca)
          g h refl

    with_logger-Stages :
        (r : Option Text × Logger)
        → init_logger a found config.log_options config.max_log_size_kb config.log_stdout logger ≡ r
        → StagesIf (with_logger F x ping listen config r)
    unfolding with_logger
    with_logger-Stages (some e, log) g = tt
    with_logger-Stages (none, log) g =
        with_client-Stages log (start_client x ping (db_config config)) g refl

  with_config-Stages :
      (r : Configuration Config)
      → load_conig v (cfg_file args) ≡ r
      → StagesIf (with_config F x ping listen a found logger r)
  unfolding with_config
  with_config-Stages (bad_file e) q = tt
  with_config-Stages bad_field q = tt
  with_config-Stages (complete config) q = with_logger-Stages config q _ refl

  main-StagesIf : StagesIf (server_main F x ping listen v a found logger args)
  unfolding server_main
  main-StagesIf = with_config-Stages (load_conig v (cfg_file args)) refl

  main-Stages :
      (l : Launched F x) → server_main F x ping listen v a found logger args ≡ launched l → Stages l
  main-Stages l h = rw h at main-StagesIf

  -- The server starts with no board, no request and no response, and with the settings read.
  pub record Serves (config : Config) (s : Server F) : Type 0 where
    pub secret : s.server_secret ≡ config.secret
    pub messages : s.game_over_messages ≡ split config.game_over_messages b'|'
    pub channels : s.max_channel_size ≡ config.max_channel_size
    pub interval : s.response_interval_ms ≡ config.response_interval_ms
    pub share : s.request_per_worker ≡ config.request_per_worker
    pub boards : s.boards ≡ []
    pub requests : s.session_requests ≡ []
    pub responses : s.session_responses ≡ []

  new_server-Serves : (config : Config) → Serves config (new_server config)
  unfolding new_server
  new_server-Serves config = record {
    secret = refl;
    messages = refl;
    channels = refl;
    interval = refl;
    share = refl;
    boards = refl;
    requests = refl;
    responses = refl;
  }

  pub record Ready (l : Launched F x) : Type 0 where
    pub config : Config
    pub read : load_conig v (cfg_file args) ≡ complete config
    pub logs : Levels a config.log_options config.log_stdout l.logger
    pub connects :
        Connected x ping
          (record {
            db_shard_nodes = config.db_shard_nodes;
            db_username = config.db_username;
            db_password = config.db_password;
            db_base64_ssl_certificate = config.db_base64_ssl_certificate;
            db_base64_ssl_private_key = config.db_base64_ssl_private_key;
            db_base64_ssl_ca = config.db_base64_ssl_ca;
          })
          l.client
    pub secures :
        Secured x
          (λ t. t.client_cas)
          config.base64_ssl_certificate
          config.base64_ssl_private_key
          config.base64_ssl_ca
          l.credentials
    pub serves : Serves config l.server
    pub listens : l.listen_error ≡ listen config.port

  -- A launched gameserver has read its configuration and starts empty, with the secret, the messages
  -- and the limits of the configuration. Its log file was opened. The database has answered to a
  -- client with the addresses, the names and the TLS settings of the configuration. The socket, and
  -- likewise the client, goes without TLS exactly where a setting of it is empty, and else has the
  -- pair and the CA of the settings.
  pub server_main-Ready :
      (l : Launched F x) → server_main F x ping listen v a found logger args ≡ launched l → Ready l
  server_main-Ready l h =
      let s = main-Stages l h in
      record {
        config = s.config;
        read = s.read;
        logs =
            init_logger-Levels a found s.config.log_options s.config.max_log_size_kb
              s.config.log_stdout logger l.logger s.logs;
        connects = start_client-Connected x ping (db_config s.config) l.client s.connects;
        secures =
            get_auth_credentials-Secured x s.config.base64_ssl_certificate
              s.config.base64_ssl_private_key s.config.base64_ssl_ca l.credentials s.secures;
        serves = rw s.serves (new_server-Serves s.config);
        listens = s.listens;
      }
