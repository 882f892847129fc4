-- ===== src/Server/Responder/Round.antt =====
-- The outcomes of one round of `Respond`, as a relation between the states before and after it.
use orbstrike.Common.{
  ℕ, ◌%◌, ◌≡◌, refl, inl, inr, true, false, none, some, ℤ, lookup, delete, int_eq, int32, arith,
  length, get_elem?, Option-cases, Bool-cases,
}
use orbstrike.Cipher.{Cipher}
use orbstrike.Server.Crypto.{Decrypted, decrypt_user_key}
use orbstrike.Server.Game.{Float, Player, GameBoard, Move}
use orbstrike.Server.State.{
  Server, Status, response, set_response, game_over, game_not_found, userkey_invalid,
}
use orbstrike.Server.Responder.Position.{is_outside_map}
use orbstrike.Server.Responder.Respond.{
  position, act, set_players, end_game, play, find_player, authenticate, handle, respond_one,
}

module _ (fl : Float) (c : Cipher) where
  -- The request names a loaded board, and its key opens to a player on that board.
  pub record Seated (move : Move) (s : Server fl.F) (board : GameBoard fl.F) (k : ℤ)
      (player : Player fl.F) : Type 0 where
    pub found : lookup move.gameid s.boards ≡ some board
    pub user : Decrypted
    pub opened : decrypt_user_key c move.userkey s.server_secret ≡ some user
    pub valid : user.err ≡ none
    pub key : k ≡ int32 user.id
    pub present : lookup k board.players ≡ some player

  pub data Round (sid : ℤ) (move : Move) (s s' : Server fl.F) : Type 0 where
    waiting : (e : Status) → response sid s ≡ some e → s' ≡ s → Round sid move s s'
    refused :
        (e : Status)
        → response sid s ≡ none
        → s' ≡ set_response sid (some e) (set_response sid none s)
        → Round sid move s s'
    died :
        (board : GameBoard fl.F) (k : ℤ) (player : Player fl.F) (e : Status)
        → response sid s ≡ none
        → Seated move s board k player
        → is_outside_map fl (position fl player) board.rad ≡ true
        → s'
          ≡ set_response sid (some e) (
              set_players move.gameid board
                (delete player.id board.players)
                (set_response sid none s))
        → Round sid move s s'
    acted :
        (board : GameBoard fl.F) (k : ℤ) (player : Player fl.F)
        → response sid s ≡ none
        → Seated move s board k player
        → is_outside_map fl (position fl player) board.rad ≡ false
        → s'
          ≡ set_players move.gameid board
              (act fl s.response_interval_ms move k player board.players)
              (set_response sid none s)
        → Round sid move s s'

module _ {F : Type 0} where
  end_game-some :
      (sid : ℤ) (roll : ℕ) (s : Server F) {s' : Server F}
      → end_game sid roll s ≡ some s'
      → (e : Status) × (s' ≡ set_response sid (some e) s)
  unfolding end_game
  end_game-some sid roll s h =
      elim (Option-cases (get_elem? s.game_over_messages (roll % length s.game_over_messages))) [
        | inl no_message ↦ ground arith
        | inr (m, e) ↦ (game_over m, ground arith)
      ]

module _ (fl : Float) (c : Cipher) (sid : ℤ) (move : Move) (roll : ℕ) (s : Server fl.F)
    (idle : response sid s ≡ none) where
  play-Round :
      (board : GameBoard fl.F) (k : ℤ) (player : Player fl.F) {s' : Server fl.F}
      → Seated fl c move s board k player
      → play fl c sid move roll board k player (set_response sid none s) ≡ some s'
      → Round fl c sid move s s'
  unfolding play set_response
  play-Round board k player seat h =
      elim (Bool-cases (is_outside_map fl (position fl player) board.rad)) [
        | inl off ↦
            let (e, q) =
              end_game-some sid roll
                (set_players move.gameid board (delete player.id board.players)
                  (set_response sid none s))
                (ground arith) in
            died board k player e idle seat off q
        | inr on ↦ acted board k player idle seat on (ground arith)
      ]

  find_player-Round :
      (board : GameBoard fl.F) (user : Decrypted) {s' : Server fl.F}
      → lookup move.gameid s.boards ≡ some board
      → decrypt_user_key c move.userkey s.server_secret ≡ some user
      → user.err ≡ none
      → find_player fl c sid move roll board (int32 user.id) (set_response sid none s) ≡ some s'
      → Round fl c sid move s s'
  unfolding find_player
  find_player-Round board user found opened valid h =
      elim (Option-cases (lookup (int32 user.id) board.players)) [
        | inl absent ↦
            let (e, q) = end_game-some sid roll (set_response sid none s) (ground arith) in
            refused e idle q
        | inr (player, present) ↦
            let seat : Seated fl c move s board (int32 user.id) player = record {
              found = found;
              user = user;
              opened = opened;
              valid = valid;
              key = refl;
              present = present;
            } in
            play-Round board (int32 user.id) player seat (ground arith)
      ]

  authenticate-Round :
      (board : GameBoard fl.F) (user : Decrypted) {s' : Server fl.F}
      → lookup move.gameid s.boards ≡ some board
      → decrypt_user_key c move.userkey s.server_secret ≡ some user
      → authenticate fl c sid move roll board (some user) (set_response sid none s) ≡ some s'
      → Round fl c sid move s s'
  unfolding authenticate
  authenticate-Round board user found opened h = elim (Option-cases user.err) [
    | inl valid ↦ find_player-Round board user found opened valid (ground arith)
    | inr (e, bad) ↦ refused userkey_invalid idle (ground arith)
  ]

  handle_found :
      (board : GameBoard fl.F) {s' : Server fl.F}
      → lookup move.gameid s.boards ≡ some board
      → authenticate fl c sid move roll board
          (decrypt_user_key c move.userkey s.server_secret)
          (set_response sid none s)
        ≡ some s'
      → Round fl c sid move s s'
  unfolding authenticate
  handle_found board found h =
      elim (Option-cases (decrypt_user_key c move.userkey s.server_secret)) [
        | inl panics ↦ ground arith
        | inr (user, opened) ↦ authenticate-Round board user found opened (rw opened at h)
      ]

  handle-Round :
      {s' : Server fl.F}
      → handle fl c sid move roll (set_response sid none s) ≡ some s'
      → Round fl c sid move s s'
  unfolding handle set_response
  handle-Round h = elim (Option-cases (lookup move.gameid s.boards)) [
    | inl lost ↦ refused (game_not_found move.gameid) idle (ground arith)
    | inr (board, found) ↦ handle_found board found (ground arith)
  ]

module _ (fl : Float) (c : Cipher) (sid : ℤ) (move : Move) (roll : ℕ) (s : Server fl.F) where
  -- A round that returns leaves a session whose error waits alone; otherwise it refuses the request
  -- and changes no board, takes a player outside the map off its board, or lets the player act on it.
  pub respond_one-Round :
      {s' : Server fl.F} → respond_one fl c sid move roll s ≡ some s' → Round fl c sid move s s'
  unfolding respond_one
  respond_one-Round h = elim (Option-cases (response sid s)) [
    | inl idle ↦ handle-Round fl c sid move roll s idle (ground arith)
    | inr (e, full) ↦ waiting e full (ground arith)
  ]
