-- ===== src/Orchestrator/Auth/Tickets.antt =====
-- What holds of a player whom `JoinGame` has let in.
use orbstrike.Common.{
  ℕ, ◌≡◌, refl, inl, inr, false, List, Option, none, some, length, Text, ℤ, IsInt64, int32, ltb,
  arith, ◌≤◌, Option-cases, Bool-cases,
}
use orbstrike.Redis.{Redis, is_ok, is_nil, is_failed, Reply-cases, ok}
use orbstrike.Cipher.{Cipher, IsAead}
use orbstrike.Server.Game.{Float, GameBoard}
use orbstrike.Server.Codec.{Codec}
use orbstrike.Server.Crypto.{decrypt_user_key}
use orbstrike.Server.Sync.{game_key}
use orbstrike.Orchestrator.Crypto.{Encrypted, sealed, refused, encrypt_user_key}
use orbstrike.Orchestrator.Crypto.RoundTrip.{decrypt_user_key-encrypt_user_key}
use orbstrike.Orchestrator.Auth.{AuthServer}
use orbstrike.Orchestrator.Auth.Join.{
  JoinGameRequest, joined, max_username_chars, player_counter, is_full, new_player, await_handled,
  queue_player, with_userkey, seat_on, find_game, join_game,
}
use orbstrike.Server.Sync.{queue_key}
use orbstrike.Common.{format_int, pos_part}

module _ (fl : Float) (r : Redis) (codec : Codec fl.F) where
  -- The game was stored, with a seat to spare.
  pub record Roomy (gameid : ℤ) (d : r.Db) : Type 0 where
    pub enc : Text
    pub board : GameBoard fl.F
    pub stored : (r.get (game_key gameid) d).0 ≡ ok enc
    pub decoded : codec.unmarshal_board enc ≡ some board
    pub seat : is_full fl board ≡ false

module _ (fl : Float) (c : Cipher) (r : Redis) (codec : Codec fl.F) (srv : AuthServer) (roll : ℕ)
    (nonce : Option (List ℕ)) (tick : r.Db → r.Db) (userid : ℤ) (userkey : List ℕ) where
  -- The key is the player's own, and the identifier is the player's in 32 bits.
  record Keyed (playerid : ℤ) : Type 0 where
    numbered : userid ≡ int32 playerid
    key : encrypt_user_key c playerid srv.server_secret nonce ≡ sealed userkey

  queue_player-joined :
      (enc : Text) (gameid playerid : ℤ) (key : List ℕ) (d : r.Db)
      → (queue_player fl c r codec srv tick enc gameid playerid key d).0 ≡ joined userid userkey
      → (userid ≡ int32 playerid) × (key ≡ userkey)
  unfolding queue_player
  queue_player-joined enc gameid playerid key d =
      elim (Reply-cases (r.hset queue_key enc (format_int gameid) d).0) [
        | is_ok u e ↦
            rw (e, queue_player)
              (elim (Bool-cases
                (await_handled r tick enc (pos_part srv.game_join_timeout_sec)
                  (r.hset queue_key enc (format_int gameid) d).1).0) [
                    | inl handled ↦ rw handled (λ h. (ground arith, ground arith))
                    | inr late ↦ rw late (λ h. cc)
                  ])
        | is_nil e ↦ rw (e, queue_player) (λ h. cc)
        | is_failed t e ↦ rw (e, queue_player) (λ h. cc)
      ]

  with_userkey-Keyed :
      (enc : Text) (gameid playerid : ℤ) (k : Encrypted) (d : r.Db)
      → encrypt_user_key c playerid srv.server_secret nonce ≡ k
      → (with_userkey fl c r codec srv tick enc gameid playerid k d).0 ≡ joined userid userkey
      → Keyed playerid
  unfolding with_userkey
  with_userkey-Keyed enc gameid playerid (refused e) d q h = cc
  with_userkey-Keyed enc gameid playerid (sealed key) d q h =
      let (n, e) = queue_player-joined enc gameid playerid key d h in
      record { numbered = n; key = rw (← e) q }

  seat_on-Keyed :
      (req : JoinGameRequest) (playerid : ℤ) (board : GameBoard fl.F) (d : r.Db)
      → (seat_on fl c r codec srv roll nonce tick req playerid board d).0 ≡ joined userid userkey
      → Keyed playerid × (is_full fl board ≡ false)
  unfolding seat_on
  seat_on-Keyed req playerid board d = elim (Bool-cases (is_full fl board)) [
    | inl full ↦ rw full (λ h. cc)
    | inr seat ↦
        rw seat
          (elim (Option-cases (codec.marshal_player (new_player fl roll req.name playerid board))) [
            | inl bad ↦ rw (bad, seat_on) (λ h. cc)
            | inr (enc, e) ↦
                rw (e, seat_on) (λ h. (with_userkey-Keyed enc req.gameid playerid _ d refl h, refl))
          ])
  ]

  find_game-Roomy :
      (req : JoinGameRequest) (playerid : ℤ) (d : r.Db)
      → (find_game fl c r codec srv roll nonce tick req playerid d).0 ≡ joined userid userkey
      → Keyed playerid × Roomy fl r codec req.gameid d
  unfolding find_game
  find_game-Roomy req playerid d = elim (Reply-cases (r.get (game_key req.gameid) d).0) [
    | is_ok enc e ↦
        rw (e, find_game)
          (elim (Option-cases (codec.unmarshal_board enc)) [
            | inl bad ↦ rw (bad, find_game) (λ h. cc)
            | inr (board, q) ↦
                rw (q, find_game)
                  (λ h.
                    let (k, seat) =
                      seat_on-Keyed req playerid board (r.get (game_key req.gameid) d).1 h in
                    (k, record { enc = enc; board = board; stored = e; decoded = q; seat = seat }))
          ])
    | is_nil e ↦ rw (e, find_game) (λ h. cc)
    | is_failed t e ↦ rw (e, find_game) (λ h. cc)
  ]

  join_game-Roomy :
      (req : JoinGameRequest) (playerid : ℤ) (d : r.Db)
      → (r.incr player_counter d).0 ≡ ok playerid
      → (join_game fl c r codec srv roll nonce tick req d).0 ≡ joined userid userkey
      → (ltb max_username_chars (length req.name) ≡ false)
        × Keyed playerid
        × Roomy fl r codec req.gameid (r.incr player_counter d).1
  unfolding join_game
  join_game-Roomy req playerid d count =
      elim (Bool-cases (ltb max_username_chars (length req.name))) [
        | inl long ↦ rw long (λ h. cc)
        | inr short ↦ rw short (
            rw (count, join_game)
              (λ h.
                let (k, room) = find_game-Roomy req playerid (r.incr player_counter d).1 h in
                (refl, k, room)))
      ]

module _ (fl : Float) (c : Cipher) (aead : IsAead c) (r : Redis) (codec : Codec fl.F)
    (srv : AuthServer) (tick : r.Db → r.Db) where
  -- A player who is let in under the number `playerid` has a short enough name, the game was stored
  -- with a seat to spare, and a gameserver with the same secret opens the player's key to
  -- that number, which the response carries in 32 bits.
  pub join_game-Opens :
      (roll : ℕ) (nonce : List ℕ) (req : JoinGameRequest) (playerid userid : ℤ) (userkey : List ℕ)
      (d : r.Db)
      → length nonce ≡ c.nonce_size
      → IsInt64 playerid
      → (r.incr player_counter d).0 ≡ ok playerid
      → (join_game fl c r codec srv roll (some nonce) tick req d).0 ≡ joined userid userkey
      → (length req.name ≤ max_username_chars)
        × Roomy fl r codec req.gameid (r.incr player_counter d).1
        × (userid ≡ int32 playerid)
        × (decrypt_user_key c userkey srv.server_secret
            ≡ some (record { id = playerid; err = none }))
  join_game-Opens roll nonce req playerid userid userkey d size range count h =
      let (short, k, room) =
        join_game-Roomy fl c r codec srv roll (some nonce) tick userid userkey req playerid d count
          h in
      (
        ground arith,
        room,
        k.numbered,
        decrypt_user_key-encrypt_user_key c aead playerid range srv.server_secret nonce userkey size
            k.key,
      )
