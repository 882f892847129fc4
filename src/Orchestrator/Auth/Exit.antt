-- ===== src/Orchestrator/Auth/Exit.antt =====
-- `ExitGame` of orchestrator/socket/sauth/sauth.go. The log is left out.
use orbstrike.Common.{ℕ, List, Option, none, some, ℤ, negsuc, eqb_ℤ, format_int, if◌then◌else◌}
use orbstrike.Redis.{Redis, ok, nil, failed}
use orbstrike.Cipher.{Cipher}
use orbstrike.Server.Crypto.{Decrypted}
use orbstrike.Server.Sync.{exitqueue_key}
use orbstrike.Orchestrator.Crypto.{decrypt_user_key}
use orbstrike.Orchestrator.Auth.{AuthServer}

pub record ExitGameRequest : Type 0 where
  pub gameid : ℤ  -- int32
  pub userkey : List ℕ

-- `nothing` is a response and an error that are both nil.
pub data ExitGameResult : Type 0 where
  exited invalid_userkey nothing exit_failed : ExitGameResult

module _ (c : Cipher) (r : Redis) (srv : AuthServer) where
  open r use {Db, hset}

  unfoldable pub queue_exit : ℤ → ℤ → Db → ExitGameResult × Db
  queue_exit userid gameid d =
      let (reply, d') = hset exitqueue_key (format_int userid) (format_int gameid) d in
      elim reply [ ok u ↦ (exited, d') | nil ↦ (exit_failed, d') | failed e ↦ (exit_failed, d') ]

  unfoldable pub identify : ExitGameRequest → Decrypted → Db → ExitGameResult × Db
  unfolding queue_exit
  identify req user d =
      if eqb_ℤ user.id (negsuc 0)
      then (invalid_userkey, d)
      else elim user.err [ some e ↦ (nothing, d) | none ↦ queue_exit user.id req.gameid d ]

  -- `none` is a panic of DecryptUserKey.
  unfoldable pub exit_game : ExitGameRequest → Db → Option (ExitGameResult × Db)
  unfolding identify
  exit_game req d = elim (decrypt_user_key c req.userkey srv.server_secret) [
    | none ↦ none
    | some user ↦ some (identify req user d)
  ]
