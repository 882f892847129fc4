-- ===== src/Tests/Startup.antt =====
-- The start of the programs at concrete inputs.
use orbstrike.Common.{
  ◌≡◌, refl, true, false, [], ◌∷◌, Option, none, some, Text, codes, pos, All, arith, int64,
}
use orbstrike.Tls.{X509, loaded}
use orbstrike.Logger.{FileAnswers, LogFile, Logger, init_logger}
use orbstrike.Logger.Sizes.{Started, init_logger-Started}
use orbstrike.Server.Db.{trim_split}
use orbstrike.Server.Db.Trimming.{IsEntry, visible, joined, trim_split-IsEntry}
use orbstrike.Server.Ssl.{get_auth_credentials as server_get_auth_credentials}
use orbstrike.Orchestrator.Ssl.{get_auth_credentials}
use orbstrike.Server.Db.{DbConfig, ClusterOptions, start_client as server_start_client}
use orbstrike.Orchestrator.Db.{start_client}
use orbstrike.Orchestrator.Db.Agreement.{start_client-agree}

-- Texts in place of certificates.
abbrev pub pem : X509
pem = record {
  Cert = Text;
  CertPool = Text;
  decode = λ t. t;
  key_pair = λ cert key. loaded cert;
  add_certs = λ t. some t;
}

abbrev shards : DbConfig
shards = record {
  db_shard_nodes = codes "a:1";
  db_username = [];
  db_password = [];
  db_base64_ssl_certificate = b'c' ∷ [];
  db_base64_ssl_private_key = b'k' ∷ [];
  db_base64_ssl_ca = b'a' ∷ [];
}

-- A database that answers.
abbrev pub answers : ClusterOptions pem → Option Text
answers options = none

start_client-agree_example :
    (start_client pem answers shards ≡ server_start_client pem answers shards)
    × (get_auth_credentials pem (b'c' ∷ []) (b'k' ∷ []) (b'a' ∷ [])
        ≡ server_get_auth_credentials pem (b'c' ∷ []) (b'k' ∷ []) (b'a' ∷ []))
start_client-agree_example =
    start_client-agree pem answers shards (b'c' ∷ []) (b'k' ∷ []) (b'a' ∷ [])

-- Two addresses with an empty one between them.
abbrev addresses : Text
addresses = codes "a:1, ,b:2 "

trim_split-IsEntry_example :
    All (IsEntry b',') (trim_split addresses b',')
    × (visible b',' (joined (trim_split addresses b',')) ≡ visible b',' addresses)
trim_split-IsEntry_example = trim_split-IsEntry b',' addresses

abbrev pub calm : FileAnswers
calm = record { open_file = none; stat = none; truncate = none; seek = none }

abbrev pub old_log : LogFile
old_log = record { content = b'x' ∷ []; closed = false }

abbrev pub silent : Logger
silent = record {
  error = false;
  warning = false;
  information = false;
  console = false;
  file = record { content = []; closed = true };
  shown = [];
}

calm_start : (init_logger calm old_log (codes "error") (pos 0) true silent).0 ≡ none
unfolding init_logger int64
calm_start = refl

init_logger-Started_example :
    Started 0 old_log
      (codes "error")
      (init_logger calm old_log (codes "error") (pos 0) true silent).1
init_logger-Started_example =
    init_logger-Started calm old_log (codes "error") 0 true silent (omega arith) calm_start
