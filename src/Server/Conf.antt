-- ===== src/Server/Conf.antt =====
-- server/conf/confloader.go. The line that it prints is left out.
use orbstrike.Common.{[], ◌∷◌, Bool, true, Option, some, Text, codes, ℤ, pos, Map}
use orbstrike.Viper.{
  Viper, Value, text, number, flag, Bound, text_field, int_field, bool_field, ◌>>=◌, Configuration,
  load_file,
}

pub record Config : Type 0 where
  pub port : ℤ
  pub addr : Text
  pub hostname_suffix : Text
  pub secret : Text
  pub db_shard_nodes : Text
  pub db_username : Text
  pub db_password : Text
  pub db_base64_ssl_certificate : Text
  pub db_base64_ssl_private_key : Text
  pub db_base64_ssl_ca : Text
  pub log_file : Text
  pub log_options : Text
  pub max_log_size_kb : ℤ
  pub log_stdout : Bool
  pub max_channel_size : ℤ
  pub request_per_worker : ℤ
  pub response_interval_ms : ℤ
  pub sync_interval_ms : ℤ
  pub downtime_threshold_ms : ℤ
  pub base64_ssl_certificate : Text
  pub base64_ssl_private_key : Text
  pub base64_ssl_ca : Text
  pub game_over_messages : Text

-- The calls of BindEnv.
abbrev pub bindings : Map Text Text
bindings =
    (codes "port", codes "PORT")
    ∷ (codes "addr", codes "ADDR")
    ∷ (codes "hostnamesuffix", codes "HOSTNAMESUFFIX")
    ∷ (codes "secret", codes "SECRET")
    ∷ (codes "dbshardnodes", codes "DBSHARDNODES")
    ∷ (codes "dbusername", codes "DBUSERNAME")
    ∷ (codes "dbpassword", codes "DBPASSWORD")
    ∷ (codes "db_base64_ssl_certificate", codes "DB_BASE64_SSL_CERTIFICATE")
    ∷ (codes "db_base64_ssl_privatekey", codes "DB_BASE64_SSL_PRIVATEKEY")
    ∷ (codes "db_base64_ssl_ca", codes "DB_BASE64_SSL_CA")
    ∷ (codes "logfile", codes "LOGFILE")
    ∷ (codes "logoptions", codes "LOGOPTIONS")
    ∷ (codes "maxlogsizekb", codes "MAXLOGSIZEKB")
    ∷ (codes "logstdout", codes "LOGSTDOUT")
    ∷ (codes "maxchannelsize", codes "MAXCHANNELSIZE")
    ∷ (codes "requestsperworker", codes "REQUESTSPERWORKER")
    ∷ (codes "responseintervalms", codes "RESPONSEINTERVALMS")
    ∷ (codes "syncintervalms", codes "SYNCINTERVALMS")
    ∷ (codes "downtimethresholdms", codes "DOWNTIMETHRESHOLDMS")
    ∷ (codes "base64_ssl_certificate", codes "BASE64_SSL_CERTIFICATE")
    ∷ (codes "base64_ssl_privatekey", codes "BASE64_SSL_PRIVATEKEY")
    ∷ (codes "base64_ssl_ca", codes "BASE64_SSL_CA")
    ∷ (codes "gameovermessages", codes "GAMEOVERMESSAGES")
    ∷ []

-- The calls of SetDefault.
abbrev pub defaults : Map Text Value
defaults =
    (codes "addr", text [])
    ∷ (codes "logoptions", text (codes "ERROR|WARNING"))
    ∷ (codes "logfile", text (codes "orbstrike.log"))
    ∷ (codes "maxlogsizekb", number (pos 500))
    ∷ (codes "maxchannelsize", number (pos 15))
    ∷ (codes "logstdout", flag true)
    ∷ (codes "requestsperworker", number (pos 10))
    ∷ (codes "responseintervalms", number (pos 15))
    ∷ (codes "syncintervalms", number (pos 1000))
    ∷ (codes "downtimethresholdms", number (pos 5000))
    ∷ (codes "db_base64_ssl_certificate", text [])
    ∷ (codes "db_base64_ssl_privatekey", text [])
    ∷ (codes "db_base64_ssl_ca", text [])
    ∷ (codes "base64_ssl_certificate", text [])
    ∷ (codes "base64_ssl_privatekey", text [])
    ∷ (codes "base64_ssl_ca", text [])
    ∷ (codes "hostnamesuffix", text [])
    ∷ (codes "gameovermessages", text (codes "Game Over"))
    ∷ []

abbrev pub bound : Bound
bound = record { bindings = bindings; defaults = defaults }

module _ (v : Viper) where
  -- viper.Unmarshal: a field that does not convert is an error.
  unfoldable pub unmarshal : Map Text Value → Option Config
  unfolding text_field int_field bool_field
  unmarshal file = do
    port ← int_field v bound file (codes "port")
    addr ← text_field v bound file (codes "addr")
    hostname_suffix ← text_field v bound file (codes "hostnamesuffix")
    secret ← text_field v bound file (codes "secret")
    db_shard_nodes ← text_field v bound file (codes "dbshardnodes")
    db_username ← text_field v bound file (codes "dbusername")
    db_password ← text_field v bound file (codes "dbpassword")
    db_base64_ssl_certificate ← text_field v bound file (codes "db_base64_ssl_certificate")
    db_base64_ssl_private_key ← text_field v bound file (codes "db_base64_ssl_privatekey")
    db_base64_ssl_ca ← text_field v bound file (codes "db_base64_ssl_ca")
    log_file ← text_field v bound file (codes "logfile")
    log_options ← text_field v bound file (codes "logoptions")
    max_log_size_kb ← int_field v bound file (codes "maxlogsizekb")
    log_stdout ← bool_field v bound file (codes "logstdout")
    max_channel_size ← int_field v bound file (codes "maxchannelsize")
    request_per_worker ← int_field v bound file (codes "requestsperworker")
    response_interval_ms ← int_field v bound file (codes "responseintervalms")
    sync_interval_ms ← int_field v bound file (codes "syncintervalms")
    downtime_threshold_ms ← int_field v bound file (codes "downtimethresholdms")
    base64_ssl_certificate ← text_field v bound file (codes "base64_ssl_certificate")
    base64_ssl_private_key ← text_field v bound file (codes "base64_ssl_privatekey")
    base64_ssl_ca ← text_field v bound file (codes "base64_ssl_ca")
    game_over_messages ← text_field v bound file (codes "gameovermessages")
    some (record {
      port = port;
      addr = addr;
      hostname_suffix = hostname_suffix;
      secret = secret;
      db_shard_nodes = db_shard_nodes;
      db_username = db_username;
      db_password = db_password;
      db_base64_ssl_certificate = db_base64_ssl_certificate;
      db_base64_ssl_private_key = db_base64_ssl_private_key;
      db_base64_ssl_ca = db_base64_ssl_ca;
      log_file = log_file;
      log_options = log_options;
      max_log_size_kb = max_log_size_kb;
      log_stdout = log_stdout;
      max_channel_size = max_channel_size;
      request_per_worker = request_per_worker;
      response_interval_ms = response_interval_ms;
      sync_interval_ms = sync_interval_ms;
      downtime_threshold_ms = downtime_threshold_ms;
      base64_ssl_certificate = base64_ssl_certificate;
      base64_ssl_private_key = base64_ssl_private_key;
      base64_ssl_ca = base64_ssl_ca;
      game_over_messages = game_over_messages;
    })

  unfoldable pub load_conig : Text → Configuration Config
  unfolding unmarshal load_file
  load_conig confpath = load_file unmarshal (v.read_in_config confpath)
