-- ===== src/Server/State.antt =====
-- The server's shared state (server/socket/sgame/sgame.go, `Server`) without its lock and its
-- database client, and the errors that a session is answered with.
use orbstrike.Common.{List, Option, none, some, Text, ℤ, Map, lookup, insert, int_eq}
use orbstrike.Server.Game.{GameBoard, Move}

-- The `status.Errorf` values that the server builds.
pub data Status : Type 0 where
  game_not_found : ℤ → Status
  userkey_invalid : Status
  game_over : Text → Status

pub data Code : Type 0 where
  not_found unauthenticated : Code

unfoldable pub code_of : Status → Code
code_of (game_not_found g) = not_found
code_of userkey_invalid = unauthenticated
code_of (game_over m) = unauthenticated

-- A response of `none` is a nil error: the key is there, and the session goes on.
pub record Server (F : Type 0) : Type 0 where
  pub boards : Map ℤ (GameBoard F)
  pub session_requests : Map ℤ Move
  pub session_responses : Map ℤ (Option Status)
  pub server_secret : Text
  pub game_over_messages : List Text
  pub max_channel_size : ℤ
  pub response_interval_ms : ℤ
  pub request_per_worker : ℤ

-- Reading the map at a missing key gives the nil error.
abbrev pub or_nil : Option (Option Status) → Option Status
or_nil none = none
or_nil (some r) = r

unfoldable pub response : {F : Type 0} → ℤ → Server F → Option Status
response sid s = or_nil (lookup sid s.session_responses)

unfoldable pub set_response : {F : Type 0} → ℤ → Option Status → Server F → Server F
set_response sid r s = record s { session_responses = insert sid r s.session_responses }
