-- ===== src/Orchestrator/Conf.antt =====
-- orchestrator/conf/confloader.go. The line that it prints is left out.
pub mod Secrets
use orbstrike.Common.{[], ◌∷◌, Bool, true, false, Option, none, some, Text, codes, ℤ, pos, Map}
use orbstrike.Viper.{
  Viper, Value, text, number, flag, Bound, text_field, int_field, bool_field, ◌>>=◌, Configuration,
  load_file,
}

pub record Config : Type 0 where
  pub port : ℤ
  pub timeout_min : ℤ
  pub secret : Text
  pub db_shard_nodes : Text
  pub db_username : Text
  pub db_password : Text
  pub db_base64_ssl_certificate : Text
  pub db_base64_ssl_private_key : Text
  pub db_base64_ssl_ca : Text
  pub log_file : Text
  pub log_options : Text
  pub max_log_size_kb : ℤ
  pub log_stdout : Bool
  pub gs_base64_ssl_ca : Text
  pub base64_ssl_certificate : Text
  pub base64_ssl_private_key : Text
  pub base64_ssl_ca : Text
  pub fo_controller_downtime_threshold_ms : ℤ
  pub fail_over_interval_ms : ℤ
  pub game_join_timeout_sec : ℤ
  pub game_lifetime_min : ℤ
  pub daily_user_game_limit : ℤ

-- The calls of BindEnv.
abbrev pub bindings : Map Text Text
bindings =
    (codes "port", codes "PORT")
    ∷ (codes "timeoutmin", codes "TIMEOUTMIN")
    ∷ (codes "secret", codes "SECRET")
    ∷ (codes "dbshardnodes", codes "DBSHARDNODES")
    ∷ (codes "dbusername", codes "DBUSERNAME")
    ∷ (codes "dbpassword", codes "DBPASSWORD")
    ∷ (codes "db_base64_ssl_certificate", codes "DB_BASE64_SSL_CERTIFICATE")
    ∷ (codes "db_base64_ssl_privatekey", codes "DB_BASE64_SSL_PRIVATEKEY")
    ∷ (codes "db_base64_ssl_ca", codes "DB_BASE64_SSL_CA")
    ∷ (codes "logfile", codes "LOGFILE")
    ∷ (codes "logoptions", codes "LOGOPTIONS")
    ∷ (codes "maxlogsizekb", codes "MAXLOGSIZEKB")
    ∷ (codes "logstdout", codes "LOGSTDOUT")
    ∷ (codes "gameserver_base64_ssl_ca", codes "GAMESERVER_BASE64_SSL_CA")
    ∷ (codes "base64_ssl_certificate", codes "BASE64_SSL_CERTIFICATE")
    ∷ (codes "base64_ssl_privatekey", codes "BASE64_SSL_PRIVATEKEY")
    ∷ (codes "base64_ssl_ca", codes "BASE64_SSL_CA")
    ∷ (codes "focontrollerdowntimethresholdms", codes "FOCONTROLLERDOWNTIMETHRESHOLDMS")
    ∷ (codes "failoverintervalms", codes "FAILOVERINTERVALMS")
    ∷ (codes "gamejointimeoutsec", codes "GAMEJOINTIMEOUTSEC")
    ∷ (codes "gamelifetimemin", codes "GAMELIFETIMEMIN")
    ∷ (codes "dailyusergamelimit", codes "DAILYUSERGAMELIMIT")
    ∷ []

-- The calls of SetDefault.
abbrev pub defaults : Map Text Value
defaults =
    (codes "timeoutmin", number (pos 180))
    ∷ (codes "logoptions", text (codes "ERROR|WARNING"))
    ∷ (codes "logfile", text (codes "orbstrike.log"))
    ∷ (codes "maxlogsizekb", number (pos 500))
    ∷ (codes "logstdout", flag true)
    ∷ (codes "maxchannelsize", number (pos 15))
    ∷ (codes "requestsperworker", number (pos 10))
    ∷ (codes "responseintervalms", number (pos 15))
    ∷ (codes "db_base64_ssl_certificate", text [])
    ∷ (codes "db_base64_ssl_privatekey", text [])
    ∷ (codes "db_base64_ssl_ca", text [])
    ∷ (codes "gameserver_base64_ssl_ca", text [])
    ∷ (codes "base64_ssl_certificate", text [])
    ∷ (codes "base64_ssl_privatekey", text [])
    ∷ (codes "base64_ssl_ca", text [])
    ∷ (codes "focontrollerdowntimethresholdms", number (pos 3000))
    ∷ (codes "failoverintervalms", number (pos 1000))
    ∷ (codes "gamelifetimemin", number (pos 180))
    ∷ (codes "dailyusergamelimit", number (pos 999999))
    ∷ (codes "gamejointimeoutsec", number (pos 10))
    ∷ []

abbrev pub bound : Bound
bound = record { bindings = bindings; defaults = defaults }

module _ (v : Viper) where
  -- viper.Unmarshal: a field that does not convert is an error.
  unfoldable pub unmarshal : Map Text Value → Option Config
  unfolding text_field int_field bool_field
  unmarshal file = do
    port ← int_field v bound file (codes "port")
    timeout_min ← int_field v bound file (codes "timeoutmin")
    secret ← text_field v bound file (codes "secret")
    db_shard_nodes ← text_field v bound file (codes "dbshardnodes")
    db_username ← text_field v bound file (codes "dbusername")
    db_password ← text_field v bound file (codes "dbpassword")
    db_base64_ssl_certificate ← text_field v bound file (codes "db_base64_ssl_certificate")
    db_base64_ssl_private_key ← text_field v bound file (codes "db_base64_ssl_privatekey")
    db_base64_ssl_ca ← text_field v bound file (codes "db_base64_ssl_ca")
    log_file ← text_field v bound file (codes "logfile")
    log_options ← text_field v bound file (codes "logoptions")
    max_log_size_kb ← int_field v bound file (codes "maxlogsizekb")
    log_stdout ← bool_field v bound file (codes "logstdout")
    gs_base64_ssl_ca ← text_field v bound file (codes "gameserver_base64_ssl_ca")
    base64_ssl_certificate ← text_field v bound file (codes "base64_ssl_certificate")
    base64_ssl_private_key ← text_field v bound file (codes "base64_ssl_privatekey")
    base64_ssl_ca ← text_field v bound file (codes "base64_ssl_ca")
    fo_controller_downtime_threshold_ms ←
        int_field v bound file (codes "focontrollerdowntimethresholdms")
    fail_over_interval_ms ← int_field v bound file (codes "failoverintervalms")
    game_join_timeout_sec ← int_field v bound file (codes "gamejointimeoutsec")
    game_lifetime_min ← int_field v bound file (codes "gamelifetimemin")
    daily_user_game_limit ← int_field v bound file (codes "dailyusergamelimit")
    some (record {
      port = port;
      timeout_min = timeout_min;
      secret = secret;
      db_shard_nodes = db_shard_nodes;
      db_username = db_username;
      db_password = db_password;
      db_base64_ssl_certificate = db_base64_ssl_certificate;
      db_base64_ssl_private_key = db_base64_ssl_private_key;
      db_base64_ssl_ca = db_base64_ssl_ca;
      log_file = log_file;
      log_options = log_options;
      max_log_size_kb = max_log_size_kb;
      log_stdout = log_stdout;
      gs_base64_ssl_ca = gs_base64_ssl_ca;
      base64_ssl_certificate = base64_ssl_certificate;
      base64_ssl_private_key = base64_ssl_private_key;
      base64_ssl_ca = base64_ssl_ca;
      fo_controller_downtime_threshold_ms = fo_controller_downtime_threshold_ms;
      fail_over_interval_ms = fail_over_interval_ms;
      game_join_timeout_sec = game_join_timeout_sec;
      game_lifetime_min = game_lifetime_min;
      daily_user_game_limit = daily_user_game_limit;
    })

  unfoldable pub load_conig : Text → Configuration Config
  unfolding unmarshal load_file
  load_conig confpath = load_file unmarshal (v.read_in_config confpath)
