-- ===== src/Orchestrator/Proxy.antt =====
-- orchestrator/socket/proxy/proxy.go. The log is left out. gRPC's metadata, its Dial and the opening
-- of the stream are arguments.
pub mod Routing
pub mod Loops
use orbstrike.Common.{
  List, [], ◌∷◌, Bool, true, false, Option, none, some, Text, codes, text_eqb, if◌then◌else◌,
}
use orbstrike.Redis.{Redis}
use orbstrike.Orchestrator.Algo.Searchers.{find_gserver}

unfoldable pub gameid_md_key : Text
gameid_md_key = codes "gameid"

-- The `status.Errorf` values of ProxyGameboard.
pub data ProxyStatus : Type 0 where
  metadata_missing gameid_missing cluster_failure game_missing : ProxyStatus

-- codes.InvalidArgument, codes.Internal, codes.NotFound
pub data ProxyCode : Type 0 where
  invalid_argument internal not_found : ProxyCode

unfoldable pub proxy_code : ProxyStatus → ProxyCode
proxy_code metadata_missing = invalid_argument
proxy_code gameid_missing = invalid_argument
proxy_code cluster_failure = internal
proxy_code game_missing = not_found

-- What comes of a request: it is rejected, a call of gRPC fails, or the two loops run over a stream
-- to the gameserver at `address`.
pub data Proxied : Type 0 where
  rejected : ProxyStatus → Proxied
  failed : Text → Proxied
  streams : (address : Text) → Proxied

module _ (Credentials : Type 0) where
  -- `dial` and `open_stream` answer with their error. Without credentials the connection is not
  -- encrypted.
  pub record Grpc : Type 0 where
    pub dial : Option Credentials → Text → Option Text
    pub open_stream : Text → Option Text

module _ {Credentials : Type 0} (g : Grpc Credentials) (gs_credentials : Option Credentials) where
  unfoldable pub connect : Text → Proxied
  connect address = elim (g.dial gs_credentials address) [
    | some e ↦ failed e
    | none ↦ elim (g.open_stream address) [ some e ↦ failed e | none ↦ streams address ]
  ]

module _ (r : Redis) {Credentials : Type 0} (g : Grpc Credentials)
    (gs_credentials : Option Credentials) where
  open r use {Db}

  -- From the game's number on.
  unfoldable pub look_up : Text → Db → Proxied × Db
  unfolding connect
  look_up gameid d =
      let (found, d') = find_gserver r gameid d in
      (
        elim found.err [
          | some e ↦ rejected cluster_failure
          | none ↦
              if text_eqb found.addr []
              then rejected game_missing
              else connect g gs_credentials found.addr
        ],
        d',
      )

  -- One value of `gameid` is wanted.
  unfoldable pub with_gameid : List Text → Db → Proxied × Db
  unfolding look_up
  with_gameid [] d = (rejected gameid_missing, d)
  with_gameid (gameid ∷ []) d = look_up gameid d
  with_gameid (gameid ∷ other ∷ rest) d = (rejected gameid_missing, d)

  -- `metadata` gives the values of a key, `none` stands for a request without metadata.
  unfoldable pub proxy_gameboard : Option (Text → List Text) → Db → Proxied × Db
  unfolding with_gameid gameid_md_key
  proxy_gameboard none d = (rejected metadata_missing, d)
  proxy_gameboard (some get) d = with_gameid (get gameid_md_key) d
