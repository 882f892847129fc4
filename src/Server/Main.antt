-- ===== src/Server/Main.antt =====
-- server/main.go. What it prints is left out.
pub mod Safety
pub mod Running
use orbstrike.Common.{ℕ, List, [], ◌∷◌, Option, none, some, Text, codes, ℤ, split}
use orbstrike.Tls.{X509, TlsConfig, Tls, switched_off, configured, pair_failed, ca_failed}
use orbstrike.Viper.{Viper, Configuration, complete, bad_file, bad_field}
use orbstrike.Logger.{FileAnswers, LogFile, Logger, init_logger}
use orbstrike.Server.State.{Server}
use orbstrike.Server.Conf.{Config, load_conig}
use orbstrike.Server.Db.{DbConfig, ClusterOptions, Client, connected, refused, start_client}
use orbstrike.Server.Ssl.{get_auth_credentials}

-- The name of the configuration: the first argument, if there is one.
unfoldable pub cfg_file : List Text → Text
cfg_file [] = codes "orbstrike.server"
cfg_file (name ∷ args) = name

abbrev pub db_config : Config → DbConfig
db_config config = record {
  db_shard_nodes = config.db_shard_nodes;
  db_username = config.db_username;
  db_password = config.db_password;
  db_base64_ssl_certificate = config.db_base64_ssl_certificate;
  db_base64_ssl_private_key = config.db_base64_ssl_private_key;
  db_base64_ssl_ca = config.db_base64_ssl_ca;
}

unfoldable pub new_server : {F : Type 0} → Config → Server F
new_server config = record {
  boards = [];
  session_requests = [];
  session_responses = [];
  server_secret = config.secret;
  game_over_messages = split config.game_over_messages b'|';
  max_channel_size = config.max_channel_size;
  response_interval_ms = config.response_interval_ms;
  request_per_worker = config.request_per_worker;
}

-- What exits with code 1.
pub data Stage : Type 0 where
  configuration logging database certificates : Stage

-- The gameserver once both schedulers run: without credentials its socket is not encrypted. A failed
-- Listen is only logged: `listen_error` is then `some`, and Serve is called on a nil listener.
pub record Launched (F : Type 0) (x : X509) : Type 0 where
  pub server : Server F
  pub logger : Logger
  pub client : ClusterOptions x
  pub credentials : Option (TlsConfig x)
  pub listen_error : Option Text

pub data Boot (F : Type 0) (x : X509) : Type 0 where
  exited : Stage → Boot F x
  launched : Launched F x → Boot F x

module _ (F : Type 0) (x : X509) (ping : ClusterOptions x → Option Text)
    (listen : ℤ → Option Text) where
  unfoldable pub launch : Config → Logger → ClusterOptions x → Option (TlsConfig x) → Boot F x
  unfolding new_server
  launch config logger client credentials = launched (record {
    server = new_server config;
    logger = logger;
    client = client;
    credentials = credentials;
    listen_error = listen config.port;
  })

  unfoldable pub with_credentials : Config → Logger → ClusterOptions x → Tls x → Boot F x
  unfolding launch
  with_credentials config logger client switched_off = launch config logger client none
  with_credentials config logger client (configured tls) = launch config logger client (some tls)
  with_credentials config logger client (pair_failed e) = exited certificates
  with_credentials config logger client ca_failed = exited certificates

  unfoldable pub with_client : Config → Logger → Client x → Boot F x
  unfolding with_credentials get_auth_credentials
  with_client config logger (refused e) = exited database
  with_client config logger (connected client) = with_credentials config logger client (
      get_auth_credentials x config.base64_ssl_certificate config.base64_ssl_private_key
        config.base64_ssl_ca)

  unfoldable pub with_logger : Config → Option Text × Logger → Boot F x
  unfolding with_client start_client
  with_logger config (some e, logger) = exited logging
  with_logger config (none, logger) =
      with_client config logger (start_client x ping (db_config config))

  unfoldable pub with_config : FileAnswers → LogFile → Logger → Configuration Config → Boot F x
  unfolding with_logger init_logger
  with_config a found logger (bad_file e) = exited configuration
  with_config a found logger bad_field = exited configuration
  with_config a found logger (complete config) =
      with_logger config
        (init_logger a found config.log_options config.max_log_size_kb config.log_stdout logger)

  -- `args` are the arguments behind the program's name; `found` is the log file as it is found.
  unfoldable pub server_main : Viper → FileAnswers → LogFile → Logger → List Text → Boot F x
  unfolding with_config load_conig cfg_file
  server_main v a found logger args = with_config a found logger (load_conig v (cfg_file args))
