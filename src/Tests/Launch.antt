-- ===== src/Tests/Launch.antt =====
-- A configuration of concrete settings, and the gameserver that is launched with it.
use orbstrike.Common.{
  ◌≡◌, refl, true, Bool, [], ◌∷◌, Option, none, some, Text, codes, ℤ, pos, put_uint64, to_word,
  int64, split, scale_ℤ, arith, lookup, text_eq, text_eqb, if◌then◌else◌,
}
use orbstrike.Viper.{Viper, IsViper, Value, text, number, flag, missing, complete, ◌>>=◌}
use orbstrike.Server.Conf.{Config, load_conig}
use orbstrike.Orchestrator.Conf.{
  Config as OrchestratorConfig, load_conig as orchestrator_load_conig,
}
use orbstrike.Server.Crypto.{decrypt_user_key}
use orbstrike.Server.Main.{Launched, launched, server_main}
use orbstrike.Server.Main.Safety.{Ready, server_main-Ready}
use orbstrike.Orchestrator.Main.{
  Launched as OrchestratorLaunched, launched as orchestrator_boot, orchestrator_main,
}
use orbstrike.Orchestrator.Main.Safety.{Ready as OrchestratorReady, orchestrator_main-Ready}
use orbstrike.Orchestrator.Crypto.{sealed, encrypt_user_key}
use orbstrike.Orchestrator.Conf.Secrets.{load_conig-decrypt_user_key}
use orbstrike.Tests.Samples.{tagged, tagged-IsAead, ada_key}
use orbstrike.Tests.Startup.{pem, calm, old_log, silent, answers}

abbrev as_text : Value → Option Text
as_text (text t) = some t
as_text _ = none

-- A text becomes 7, whatever it says.
abbrev as_int : Value → Option ℤ
as_int (number n) = some n
as_int (text t) = some (pos 7)
as_int _ = none

abbrev as_bool : Value → Option Bool
as_bool (flag b) = some b
as_bool _ = none

-- No file, the secret "s" and one shard.
abbrev env : Text → Option Text
env variable =
    if text_eqb variable (codes "SECRET")
    then some (b's' ∷ [])
    else if text_eqb variable (codes "DBSHARDNODES")
    then some (codes "a:1")
    else none

abbrev pub viper : Viper
viper = record {
  read_in_config = λ name. missing;
  env = env;
  as_text = as_text;
  as_int = as_int;
  as_bool = as_bool;
}

viper-IsViper : IsViper viper
viper-IsViper = record {
  text_as_text = λ t. refl;
  number_as_int = λ n. refl;
  flag_as_bool = λ b. refl;
}

abbrev pub config : Config
config = record {
  port = pos 0;
  addr = [];
  hostname_suffix = [];
  secret = b's' ∷ [];
  db_shard_nodes = codes "a:1";
  db_username = [];
  db_password = [];
  db_base64_ssl_certificate = [];
  db_base64_ssl_private_key = [];
  db_base64_ssl_ca = [];
  log_file = codes "orbstrike.log";
  log_options = codes "ERROR|WARNING";
  max_log_size_kb = pos 500;
  log_stdout = true;
  max_channel_size = pos 15;
  request_per_worker = pos 10;
  response_interval_ms = pos 15;
  sync_interval_ms = pos 1000;
  downtime_threshold_ms = pos 5000;
  base64_ssl_certificate = [];
  base64_ssl_private_key = [];
  base64_ssl_ca = [];
  game_over_messages = codes "Game Over";
}

pub config_read : load_conig viper [] ≡ complete config
unfolding load_conig ◌>>=◌ lookup text_eqb codes
config_read = refl

abbrev orchestrator_config : OrchestratorConfig
orchestrator_config = record {
  port = pos 0;
  timeout_min = pos 180;
  secret = b's' ∷ [];
  db_shard_nodes = codes "a:1";
  db_username = [];
  db_password = [];
  db_base64_ssl_certificate = [];
  db_base64_ssl_private_key = [];
  db_base64_ssl_ca = [];
  log_file = codes "orbstrike.log";
  log_options = codes "ERROR|WARNING";
  max_log_size_kb = pos 500;
  log_stdout = true;
  gs_base64_ssl_ca = [];
  base64_ssl_certificate = [];
  base64_ssl_private_key = [];
  base64_ssl_ca = [];
  fo_controller_downtime_threshold_ms = pos 3000;
  fail_over_interval_ms = pos 1000;
  game_join_timeout_sec = pos 10;
  game_lifetime_min = pos 180;
  daily_user_game_limit = pos 999999;
}

orchestrator_config_read : orchestrator_load_conig viper [] ≡ complete orchestrator_config
unfolding orchestrator_load_conig ◌>>=◌ lookup text_eqb codes
orchestrator_config_read = refl

secret_set : viper.env (codes "SECRET") ≡ some (b's' ∷ [])
unfolding text_eqb codes
secret_set = refl

pub sealed_ada : encrypt_user_key tagged (pos 1) (b's' ∷ []) (some (9 ∷ 9 ∷ [])) ≡ sealed ada_key
unfolding encrypt_user_key put_uint64 to_word
sealed_ada = refl

load_conig-decrypt_user_key_example :
    decrypt_user_key tagged ada_key (b's' ∷ []) ≡ some (record { id = pos 1; err = none })
load_conig-decrypt_user_key_example =
    load_conig-decrypt_user_key viper viper-IsViper (b's' ∷ []) secret_set [] [] config
      orchestrator_config config_read orchestrator_config_read tagged tagged-IsAead (pos 1)
      (omega arith) (9 ∷ 9 ∷ []) ada_key refl sealed_ada

-- A port that is free.
abbrev pub free : ℤ → Option Text
free port = none

abbrev pub gameserver : Launched ℤ pem
gameserver = record {
  server = record {
    boards = [];
    session_requests = [];
    session_responses = [];
    server_secret = b's' ∷ [];
    game_over_messages = codes "Game Over" ∷ [];
    max_channel_size = pos 15;
    response_interval_ms = pos 15;
    request_per_worker = pos 10;
  };
  logger = record silent { error = true; warning = true; console = true; file = old_log };
  client = record { addrs = codes "a:1" ∷ []; username = []; password = []; tls_config = none };
  credentials = none;
  listen_error = none;
}

pub gameserver_launched :
    server_main ℤ pem answers free viper calm old_log silent ([] ∷ []) ≡ launched gameserver
unfolding server_main int64 text_eqb codes split
gameserver_launched = rw (config_read, server_main) refl

server_main-Ready_example : Ready ℤ pem answers free viper calm old_log silent ([] ∷ []) gameserver
server_main-Ready_example =
    server_main-Ready ℤ pem answers free viper calm old_log silent ([] ∷ []) gameserver
      gameserver_launched

abbrev orchestrator : OrchestratorLaunched pem
orchestrator = record {
  proxy = record { timeout = pos 10800000000000; gs_credentials = none };
  auth = record {
    game_lifetime = pos 10800000000000;
    daily_user_game_limit = pos 999999;
    game_join_timeout_sec = pos 10;
    server_secret = b's' ∷ [];
  };
  logger = gameserver.logger;
  client = gameserver.client;
  credentials = none;
}

orchestrator_launched :
    orchestrator_main pem answers free viper calm old_log silent ([] ∷ [])
    ≡ orchestrator_boot orchestrator
unfolding orchestrator_main int64 text_eqb codes split scale_ℤ
orchestrator_launched = rw (orchestrator_config_read, orchestrator_main) refl

orchestrator_main-Ready_example :
    OrchestratorReady pem answers free viper calm old_log silent ([] ∷ []) orchestrator
orchestrator_main-Ready_example =
    orchestrator_main-Ready pem answers free viper calm old_log silent ([] ∷ []) orchestrator
      orchestrator_launched
