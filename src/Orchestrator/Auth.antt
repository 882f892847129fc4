-- ===== src/Orchestrator/Auth.antt =====
-- The struct `Server` of orchestrator/socket/sauth/sauth.go, less the database client.
pub mod Create
pub mod Join
pub mod Exit
pub mod Limits
pub mod Tickets
pub mod Leaves
use orbstrike.Common.{Text, ℤ}

pub record AuthServer : Type 0 where
  pub game_lifetime : ℤ  -- a time.Duration in nanoseconds
  pub daily_user_game_limit : ℤ
  pub game_join_timeout_sec : ℤ
  pub server_secret : Text
