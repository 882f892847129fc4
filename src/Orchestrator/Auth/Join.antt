-- ===== src/Orchestrator/Auth/Join.antt =====
-- `JoinGame` of orchestrator/socket/sauth/sauth.go. The log is left out. The random colour and the
-- nonce are arguments, and so is `tick`, what the others do to the database in a second.
use orbstrike.Common.{
  ℕ, zero, suc, ◌+◌, ◌%◌, Bool, true, false, not, List, Option, none, some, Text, codes, ℤ, pos,
  pos_part, ltb_ℤ, ltb, int32, length, format_int, if◌then◌else◌,
}
use orbstrike.Redis.{Redis, Reply, ok, nil, failed}
use orbstrike.Cipher.{Cipher}
use orbstrike.Server.Game.{Float, Player, GameBoard}
use orbstrike.Server.Codec.{Codec}
use orbstrike.Server.Sync.{game_key, queue_key}
use orbstrike.Orchestrator.Crypto.{Encrypted, sealed, refused, encrypt_user_key}
use orbstrike.Orchestrator.Auth.{AuthServer}

pub record JoinGameRequest : Type 0 where
  pub name : Text
  pub gameid : ℤ  -- int32

pub data JoinError : Type 0 where
  name_too_long no_player_counter no_game game_not_read game_not_decoded game_full : JoinError
  no_template no_userkey not_queued timeout : JoinError

pub data JoinGameResult : Type 0 where
  joined : (userid : ℤ) (userkey : List ℕ) → JoinGameResult
  rejected : JoinError → JoinGameResult

abbrev pub max_username_chars : ℕ
max_username_chars = 50

abbrev player_colors : ℕ
player_colors = 5

unfoldable pub player_counter : Text
player_counter = codes "player:counter"

module _ (fl : Float) where
  open fl use {F, of_int}

  -- The player stands in the middle of the board; `roll` is the random number of its colour.
  unfoldable pub new_player : ℕ → Text → ℤ → GameBoard F → Player F
  new_player roll name playerid board = record {
    id = int32 playerid;
    name = name;
    x = of_int (pos 0);
    y = of_int (pos 0);
    rad = board.player_rad;
    ringrad = board.player_ring_rad;
    color = pos (roll % player_colors);
    kills = pos 0;
    ring_enabled = false;
    speed = board.speed;
  }

  -- decGame.MaxPlayers<int32(len(decGame.Players)+1)
  unfoldable pub is_full : GameBoard F → Bool
  is_full board = ltb_ℤ board.max_players (int32 (pos (length board.players + 1)))

module _ (r : Redis) where
  open r use {Db, hexists, hdel}

  -- err==redis.Nil || !exists: `exists` is false beside every error.
  unfoldable pub is_handled : Reply Bool → Bool
  is_handled (ok exists) = not exists
  is_handled nil = true
  is_handled (failed e) = true

  -- The loop over the ticker, with the seconds that are left: `false` is the timeout.
  unfoldable pub await_handled : (Db → Db) → Text → ℕ → Db → Bool × Db
  unfolding is_handled
  await_handled tick enc zero d =
      let (reply, d') = hexists queue_key enc (tick d) in
      if is_handled reply then (true, d') else (false, (hdel queue_key enc d').1)
  await_handled tick enc (suc n) d =
      let (reply, d') = hexists queue_key enc (tick d) in
      elim (is_handled reply) [ true ↦ (true, d') | false ↦ await_handled tick enc n d' ]

module _ (fl : Float) (c : Cipher) (r : Redis) (codec : Codec fl.F) (srv : AuthServer) where
  open fl use {F}
  open r use {Db, incr, get, hset}

  -- From the write to the queue on.
  unfoldable pub queue_player : (Db → Db) → Text → ℤ → ℤ → List ℕ → Db → JoinGameResult × Db
  unfolding await_handled
  queue_player tick enc gameid playerid userkey d =
      let (reply, d') = hset queue_key enc (format_int gameid) d in
      elim reply [
        | ok u ↦
            let (handled, d'') = await_handled r tick enc (pos_part srv.game_join_timeout_sec) d' in
            (if handled then joined (int32 playerid) userkey else rejected timeout, d'')
        | nil ↦ (rejected not_queued, d')
        | failed e ↦ (rejected not_queued, d')
      ]

  -- From the sealed key on.
  unfoldable pub with_userkey : (Db → Db) → Text → ℤ → ℤ → Encrypted → Db → JoinGameResult × Db
  unfolding queue_player
  with_userkey tick enc gameid playerid (refused e) d = (rejected no_userkey, d)
  with_userkey tick enc gameid playerid (sealed userkey) d =
      queue_player tick enc gameid playerid userkey d

  -- From the decoded board on.
  unfoldable pub seat_on :
      ℕ → Option (List ℕ) → (Db → Db) → JoinGameRequest → ℤ → GameBoard F → Db → JoinGameResult × Db
  unfolding is_full new_player with_userkey
  seat_on roll nonce tick req playerid board d =
      if is_full fl board
      then (rejected game_full, d)
      else elim (codec.marshal_player (new_player fl roll req.name playerid board)) [
        | none ↦ (rejected no_template, d)
        | some enc ↦
            with_userkey tick enc req.gameid playerid
              (encrypt_user_key c playerid srv.server_secret nonce) d
      ]

  -- From the player's number on.
  unfoldable pub find_game :
      ℕ → Option (List ℕ) → (Db → Db) → JoinGameRequest → ℤ → Db → JoinGameResult × Db
  unfolding seat_on
  find_game roll nonce tick req playerid d =
      let (reply, d') = get (game_key req.gameid) d in
      elim reply [
        | ok enc ↦ elim (codec.unmarshal_board enc) [
          | none ↦ (rejected game_not_decoded, d')
          | some board ↦ seat_on roll nonce tick req playerid board d'
        ]
        | nil ↦ (rejected no_game, d')
        | failed e ↦ (rejected game_not_read, d')
      ]

  unfoldable pub join_game :
      ℕ → Option (List ℕ) → (Db → Db) → JoinGameRequest → Db → JoinGameResult × Db
  unfolding find_game player_counter
  join_game roll nonce tick req d =
      if ltb max_username_chars (length req.name)
      then (rejected name_too_long, d)
      else let (reply, d') = incr player_counter d in
        elim reply [
          | ok playerid ↦ find_game roll nonce tick req playerid d'
          | nil ↦ (rejected no_player_counter, d')
          | failed e ↦ (rejected no_player_counter, d')
        ]
