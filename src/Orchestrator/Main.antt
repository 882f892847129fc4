-- ===== src/Orchestrator/Main.antt =====
-- orchestrator/main.go. What it prints is left out.
pub mod Safety
use orbstrike.Common.{List, [], ◌∷◌, Option, none, some, Text, codes, ℤ, int64, scale_ℤ}
use orbstrike.Tls.{X509, TlsConfig, Tls, switched_off, configured, pair_failed, ca_failed}
use orbstrike.Viper.{Viper, Configuration, complete, bad_file, bad_field}
use orbstrike.Logger.{FileAnswers, LogFile, Logger, init_logger}
use orbstrike.Server.Db.{DbConfig, ClusterOptions, Client, connected, refused}
use orbstrike.Orchestrator.Conf.{Config, load_conig}
use orbstrike.Orchestrator.Db.{start_client}
use orbstrike.Orchestrator.Ssl.{get_auth_credentials, get_tls_client_ca}
use orbstrike.Orchestrator.Auth.{AuthServer}

unfoldable pub cfg_file : List Text → Text
cfg_file [] = codes "orbstrike.orchestrator"
cfg_file (name ∷ args) = name

abbrev pub db_config : Config → DbConfig
db_config config = record {
  db_shard_nodes = config.db_shard_nodes;
  db_username = config.db_username;
  db_password = config.db_password;
  db_base64_ssl_certificate = config.db_base64_ssl_certificate;
  db_base64_ssl_private_key = config.db_base64_ssl_private_key;
  db_base64_ssl_ca = config.db_base64_ssl_ca;
}

-- time.Duration(n)*time.Minute
unfoldable pub minutes : ℤ → ℤ
minutes n = int64 (scale_ℤ 60000000000 n)

unfoldable pub new_auth_server : Config → AuthServer
unfolding minutes
new_auth_server config = record {
  game_lifetime = minutes config.game_lifetime_min;
  daily_user_game_limit = config.daily_user_game_limit;
  game_join_timeout_sec = config.game_join_timeout_sec;
  server_secret = config.secret;
}

-- The struct `Server` of orchestrator/socket/proxy/proxy.go, less the database client.
pub record ProxyServer (x : X509) : Type 0 where
  pub timeout : ℤ  -- a time.Duration in nanoseconds
  pub gs_credentials : Option (TlsConfig x)

-- What exits with code 1.
pub data Stage : Type 0 where
  configuration logging database gameserver_certificates certificates listening : Stage

-- The orchestrator once it serves: without credentials its socket is not encrypted.
pub record Launched (x : X509) : Type 0 where
  pub proxy : ProxyServer x
  pub auth : AuthServer
  pub logger : Logger
  pub client : ClusterOptions x
  pub credentials : Option (TlsConfig x)

pub data Boot (x : X509) : Type 0 where
  exited : Stage → Boot x
  launched : Launched x → Boot x

module _ (x : X509) (ping : ClusterOptions x → Option Text) (listen : ℤ → Option Text) where
  unfoldable pub launch :
      Config → Logger → ClusterOptions x → (gs credentials : Option (TlsConfig x)) → Boot x
  unfolding new_auth_server minutes
  launch config logger client gs credentials = elim (listen config.port) [
    | some e ↦ exited listening
    | none ↦ launched (record {
      proxy = record { timeout = minutes config.timeout_min; gs_credentials = gs };
      auth = new_auth_server config;
      logger = logger;
      client = client;
      credentials = credentials;
    })
  ]

  unfoldable pub with_credentials :
      Config → Logger → ClusterOptions x → Option (TlsConfig x) → Tls x → Boot x
  unfolding launch
  with_credentials config logger client gs switched_off = launch config logger client gs none
  with_credentials config logger client gs (configured tls) =
      launch config logger client gs (some tls)
  with_credentials config logger client gs (pair_failed e) = exited certificates
  with_credentials config logger client gs ca_failed = exited certificates

  unfoldable pub credentials_of : Config → Tls x
  unfolding get_auth_credentials
  credentials_of config =
      get_auth_credentials x config.base64_ssl_certificate config.base64_ssl_private_key
        config.base64_ssl_ca

  -- From the certificate of the gameservers on.
  unfoldable pub with_gs : Config → Logger → ClusterOptions x → Tls x → Boot x
  unfolding with_credentials credentials_of
  with_gs config logger client switched_off =
      with_credentials config logger client none (credentials_of config)
  with_gs config logger client (configured tls) =
      with_credentials config logger client (some tls) (credentials_of config)
  with_gs config logger client (pair_failed e) = exited gameserver_certificates
  with_gs config logger client ca_failed = exited gameserver_certificates

  unfoldable pub with_client : Config → Logger → Client x → Boot x
  unfolding with_gs get_tls_client_ca
  with_client config logger (refused e) = exited database
  with_client config logger (connected client) =
      with_gs config logger client (get_tls_client_ca x config.gs_base64_ssl_ca)

  unfoldable pub with_logger : Config → Option Text × Logger → Boot x
  unfolding with_client start_client
  with_logger config (some e, logger) = exited logging
  with_logger config (none, logger) =
      with_client config logger (start_client x ping (db_config config))

  unfoldable pub with_config : FileAnswers → LogFile → Logger → Configuration Config → Boot x
  unfolding with_logger init_logger
  with_config a found logger (bad_file e) = exited configuration
  with_config a found logger bad_field = exited configuration
  with_config a found logger (complete config) =
      with_logger config
        (init_logger a found config.log_options config.max_log_size_kb config.log_stdout logger)

  -- `args` are the arguments behind the program's name; `found` is the log file as it is found.
  unfoldable pub orchestrator_main : Viper → FileAnswers → LogFile → Logger → List Text → Boot x
  unfolding with_config load_conig cfg_file
  orchestrator_main v a found logger args =
      with_config a found logger (load_conig v (cfg_file args))
