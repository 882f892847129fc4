-- ===== src/Server/Responder/Respond.antt =====
-- `Respond` of server/responder/responder.go. The body of its loop runs under the server's lock,
-- so one round is one atomic step. A panic is `none`. `roll` is the random number of a round,
-- which `rand.Intn` reduces to an index.
use orbstrike.Common.{
  ℕ, ◌%◌, Bool, List, [], ◌∷◌, Option, none, some, ℤ, pos, Map, lookup, delete, insert, int_eq,
  int32, ◌+ℤ◌, not, ◌&&◌, length, get_elem?, if◌then◌else◌,
}
use orbstrike.Cipher.{Cipher}
use orbstrike.Server.Crypto.{Decrypted, decrypt_user_key}
use orbstrike.Server.Game.{Float, Player, GameBoard, Move, Direction}
use orbstrike.Server.State.{
  Server, response, set_response, game_not_found, userkey_invalid, game_over,
}
use orbstrike.Server.Responder.Position.{PlayerPosition, is_player_touched, is_outside_map}

module _ (fl : Float) where
  open fl use {F, add, sub, mul, div, of_int}

  unfoldable pub position : Player F → PlayerPosition F
  position p = record { x = p.x; y = p.y; rad = p.rad }

  -- curPlayer.Kills++ through the pointer: it shows in the map while the player is there.
  unfoldable pub add_kill : ℤ → Map ℤ (Player F) → Map ℤ (Player F)
  add_kill k players = elim (lookup k players) [
    | none ↦ players
    | some p ↦ insert k (record p { kills = int32 (p.kills +ℤ pos 1) }) players
  ]

  -- A target is hit if its ring is off and the attacker touches it.
  unfoldable pub is_hit : PlayerPosition F → Player F → Bool
  unfolding position
  is_hit at tar = not tar.ring_enabled && is_player_touched fl at (position tar)

  -- One round of the loop over Move.HitPlayers.
  unfoldable pub strike : PlayerPosition F → ℤ → ℤ → Map ℤ (Player F) → Map ℤ (Player F)
  unfolding add_kill
  strike at k pid players = elim (lookup pid players) [
    | none ↦ players
    | some tar ↦ if is_hit at tar then add_kill k (delete pid players) else players
  ]

  unfoldable pub attack : PlayerPosition F → ℤ → List ℤ → Map ℤ (Player F) → Map ℤ (Player F)
  unfolding strike
  attack at k [] players = players
  attack at k (pid ∷ pids) players = attack at k pids (strike at k pid players)

  unfoldable pub walk : Direction → F → Player F → Player F
  walk Direction.up d p = record p { y = sub p.y d }
  walk Direction.up_left d p = record p { x = sub p.x d; y = sub p.y d }
  walk Direction.up_right d p = record p { x = add p.x d; y = sub p.y d }
  walk Direction.down d p = record p { y = add p.y d }
  walk Direction.down_left d p = record p { x = sub p.x d; y = add p.y d }
  walk Direction.down_right d p = record p { x = add p.x d; y = add p.y d }
  walk Direction.left d p = record p { x = sub p.x d }
  walk Direction.right d p = record p { x = add p.x d }
  walk Direction.none_set d p = p
  walk (Direction.other n) d p = p

  -- speed := curPlayer.Speed * float64(srv.ResponseIntervalMS) / 100
  unfoldable pub stride : ℤ → Player F → F
  stride interval p = div (mul p.speed (of_int interval)) (of_int (pos 100))

  -- The ring is set, and then the player either attacks or walks.
  unfoldable pub act : ℤ → Move → ℤ → Player F → Map ℤ (Player F) → Map ℤ (Player F)
  unfolding position attack walk stride
  act interval move k player players =
      let ready = record player { ring_enabled = move.enable_ring } in
      if ready.ring_enabled
      then attack (position player) k move.hit_players (insert k ready players)
      else insert k (walk move.direction (stride interval ready) ready) players

module _ {F : Type 0} where
  unfoldable pub set_players : ℤ → GameBoard F → Map ℤ (Player F) → Server F → Server F
  set_players gid board players s = record s {
    boards = insert gid (record board { players = players }) s.boards;
  }

  -- status.Errorf with a random message; `rand.Intn` panics on an empty list.
  unfoldable pub end_game : ℤ → ℕ → Server F → Option (Server F)
  end_game sid roll s = elim (get_elem? s.game_over_messages (roll % length s.game_over_messages)) [
    | none ↦ none
    | some m ↦ some (set_response sid (some (game_over m)) s)
  ]

module _ (fl : Float) (c : Cipher) where
  open fl use {F}

  -- From the player on: off the map it dies, otherwise it acts.
  unfoldable pub play : ℤ → Move → ℕ → GameBoard F → ℤ → Player F → Server F → Option (Server F)
  unfolding act position set_players end_game
  play sid move roll board k player s =
      if is_outside_map fl (position fl player) board.rad
      then end_game sid roll (set_players move.gameid board (delete player.id board.players) s)
      else some (
          set_players move.gameid board (act fl s.response_interval_ms move k player board.players)
            s)

  unfoldable pub find_player : ℤ → Move → ℕ → GameBoard F → ℤ → Server F → Option (Server F)
  unfolding play
  find_player sid move roll board k s = elim (lookup k board.players) [
    | none ↦ end_game sid roll s
    | some player ↦ play sid move roll board k player s
  ]

  unfoldable pub authenticate :
      ℤ → Move → ℕ → GameBoard F → Option Decrypted → Server F → Option (Server F)
  unfolding find_player set_response
  authenticate sid move roll board none s = none
  authenticate sid move roll board (some d) s = elim d.err [
    | some e ↦ some (set_response sid (some userkey_invalid) s)
    | none ↦ find_player sid move roll board (int32 d.id) s
  ]

  unfoldable pub handle : ℤ → Move → ℕ → Server F → Option (Server F)
  unfolding authenticate set_response
  handle sid move roll s = elim (lookup move.gameid s.boards) [
    | none ↦ some (set_response sid (some (game_not_found move.gameid)) s)
    | some board ↦
        authenticate sid move roll board (decrypt_user_key c move.userkey s.server_secret) s
  ]

  -- One round of the loop: a session whose error waits to be collected is skipped.
  unfoldable pub respond_one : ℤ → Move → ℕ → Server F → Option (Server F)
  unfolding handle response
  respond_one sid move roll s = elim (response sid s) [
    | some e ↦ some s
    | none ↦ handle sid move roll (set_response sid none s)
  ]

  -- The loop over the worker's share of the requests, in the order in which the map is visited.
  unfoldable pub respond : List (ℤ × Move) → (ℤ → ℕ) → Server F → Option (Server F)
  unfolding respond_one
  respond [] rolls s = some s
  respond ((sid, move) ∷ rest) rolls s = elim (respond_one sid move (rolls sid) s) [
    | none ↦ none
    | some s' ↦ respond rest rolls s'
  ]
