-- ===== src/Orchestrator/Auth/Leaves.antt =====
-- What `ExitGame` and `removePlayers` achieve together.
use orbstrike.Common.{
  ◌≡◌, refl, ◌∙◌, inl, inr, [], ◌∷◌, none, some, Text, text_eqb_iff, text_eq, ℤ, negsuc, eqb_ℤ,
  IsInt32, IsInt64, int32, int32_id, Map, lookup, In, arith, some_inj, format_int, atoi-format_int,
  Bool-cases,
}
use orbstrike.Redis.{Redis, IsRedis, is_ok, is_nil, is_failed, Reply-cases}
use orbstrike.Cipher.{Cipher}
use orbstrike.Server.Codec.{Codec}
use orbstrike.Server.State.{Server}
use orbstrike.Server.Sync.{exitqueue_key, remove_players}
use orbstrike.Server.Sync.Queue.{Absent}
use orbstrike.Server.Sync.Leaving.{Names, remove_queue-Absent}
use orbstrike.Orchestrator.Crypto.{decrypt_user_key}
use orbstrike.Orchestrator.Auth.{AuthServer}
use orbstrike.Orchestrator.Auth.Exit.{ExitGameRequest, exited, queue_exit, identify, exit_game}

In-lookup : (k v : Text) (m : Map Text Text) → lookup k m ≡ some v → In (k, v) m
unfolding lookup
In-lookup k v [] h = cc
In-lookup k v ((j, w) ∷ m) h = ground (arith, In-lookup k v m, text_eqb_iff j k)

-- What ExitGame writes names the player and the board.
Names-format_int :
    (userid gameid : ℤ)
    → IsInt64 userid
    → IsInt32 gameid
    → Names (format_int userid) (format_int gameid) gameid (int32 userid)
Names-format_int userid gameid u g = record {
  board_id = gameid;
  board_read = atoi-format_int gameid (ground arith);
  board = int32_id gameid g;
  player_id = userid;
  player_read = atoi-format_int userid u;
  player = refl;
}

module _ (c : Cipher) (r : Redis) (laws : IsRedis r) (srv : AuthServer) where
  queue_exit-exited :
      (userid gameid : ℤ) (d : r.Db)
      → (queue_exit c r srv userid gameid d).0 ≡ exited
      → r.field (queue_exit c r srv userid gameid d).1 exitqueue_key (format_int userid)
        ≡ some (format_int gameid)
  unfolding queue_exit
  queue_exit-exited userid gameid d =
      elim (Reply-cases (r.hset exitqueue_key (format_int userid) (format_int gameid) d).0) [
        | is_ok u e ↦ rw (e, queue_exit) (λ h. laws.hset_ok exitqueue_key _ _ d u e)
        | is_nil e ↦ rw (e, queue_exit) (λ h. cc)
        | is_failed t e ↦ rw (e, queue_exit) (λ h. cc)
      ]

  exit_game-queued :
      (req : ExitGameRequest) (userid : ℤ) (d d' : r.Db)
      → decrypt_user_key c req.userkey srv.server_secret ≡ some (record { id = userid; err = none })
      → exit_game c r srv req d ≡ some (exited, d')
      → r.field d' exitqueue_key (format_int userid) ≡ some (format_int req.gameid)
  unfolding exit_game identify
  exit_game-queued req userid d d' e =
      rw (e, exit_game)
        (elim (Bool-cases (eqb_ℤ userid (negsuc 0))) [
          | inl bad ↦ rw bad (λ h. cc)
          | inr fine ↦ rw fine (λ h.
              let q : queue_exit c r srv userid req.gameid d ≡ (exited, d') = some_inj h in
              let held = queue_exit-exited userid req.gameid d (rw q refl) in rw q at held)
        ])

  remove_players-Absent :
      {F : Type 0} (codec : Codec F) (userid gameid : ℤ) (s : Server F) (d : r.Db)
      → IsInt64 userid
      → IsInt32 gameid
      → r.field d exitqueue_key (format_int userid) ≡ some (format_int gameid)
      → (remove_players r codec s d).err ≡ none
      → Absent gameid (int32 userid) (remove_players r codec s d).srv
  unfolding remove_players
  remove_players-Absent codec userid gameid s d u g held =
      elim (Reply-cases (r.hgetall exitqueue_key d).0) [
        | is_ok queue e ↦
            rw (e, remove_players)
              (λ h.
                remove_queue-Absent queue (format_int userid) (format_int gameid) gameid
                  (int32 userid) s
                  (In-lookup (format_int userid) (format_int gameid) queue
                    (laws.hgetall_ok exitqueue_key d queue e (format_int userid) ∙ held))
                  (Names-format_int userid gameid u g))
        | is_nil e ↦ absurd (cc (laws.hgetall_nil exitqueue_key d e (format_int userid), held))
        | is_failed t e ↦ rw (e, remove_players) (λ h. cc)
      ]

  -- Once ExitGame has accepted a key, a gameserver that reads the exit queue without an error, at any
  -- time at which the queue still has the player's entry as ExitGame has left it, no longer has the
  -- player on the board that the request names.
  pub exit_game-Absent :
      {F : Type 0} (codec : Codec F) (req : ExitGameRequest) (userid : ℤ) (s : Server F)
      (d d' later : r.Db)
      → IsInt64 userid
      → IsInt32 req.gameid
      → decrypt_user_key c req.userkey srv.server_secret ≡ some (record { id = userid; err = none })
      → exit_game c r srv req d ≡ some (exited, d')
      → r.field later exitqueue_key (format_int userid)
        ≡ r.field d' exitqueue_key (format_int userid)
      → (remove_players r codec s later).err ≡ none
      → Absent req.gameid (int32 userid) (remove_players r codec s later).srv
  exit_game-Absent codec req userid s d d' later u g e h same =
      remove_players-Absent codec userid req.gameid s later u g
        (same ∙ exit_game-queued req userid d d' e h)
