-- ===== src/Server/Responder/Progress.antt =====
-- Answering requests comes to an end without a panic.
use orbstrike.Common.{
  All, ℕ, ◌%◌, ◌<◌, ◌≡◌, refl, inl, inr, [], ◌∷◌, none, some, ℤ, lookup, delete, int_eq, int32,
  arith, length, Text, get_elem?, get_elem?-lt, Bool-cases, Option-cases,
}
use orbstrike.Cipher.{Cipher, IsAead}
use orbstrike.Server.Crypto.{Decrypted}
use orbstrike.Orchestrator.Crypto.Presented.{Presented, decrypt_user_key_total}
use orbstrike.Server.Responder.Split.{Requests}
use orbstrike.Server.Game.{Float, Player, GameBoard, Move}
use orbstrike.Server.State.{
  Server, response, set_response, game_over, game_not_found, userkey_invalid,
}
use orbstrike.Server.Responder.Respond.{
  position, act, set_players, end_game, play, find_player, authenticate, handle, respond_one,
  respond,
}
use orbstrike.Server.Responder.Position.{is_outside_map}
use orbstrike.Server.Responder.Frame.{respond_one-Untouched}

module _ {F : Type 0} (sid : ℤ) (roll : ℕ) where
  message_total :
      (s : Server F)
      → 0 < length s.game_over_messages
      → (m : Text) × (get_elem? s.game_over_messages (roll % length s.game_over_messages) ≡ some m)
  message_total s some_message = get_elem?-lt s.game_over_messages _ (omega arith)

  end_game_total :
      (s : Server F)
      → 0 < length s.game_over_messages
      → (s' : Server F) × (end_game sid roll s ≡ some s')
  unfolding end_game
  end_game_total s some_message =
      let (m, e) = message_total s some_message in
      (set_response sid (some (game_over m)) s, rw (e, end_game))

module _ (fl : Float) (c : Cipher) (sid : ℤ) (move : Move) (roll : ℕ) (s : Server fl.F)
    (some_message : 0 < length s.game_over_messages) where
  play_total :
      (board : GameBoard fl.F) (k : ℤ) (player : Player fl.F)
      → (s' : Server fl.F) × (play fl c sid move roll board k player s ≡ some s')
  unfolding play set_players
  play_total board k player = elim (Bool-cases (is_outside_map fl (position fl player) board.rad)) [
    | inl off ↦
        let (s', e) =
          end_game_total sid roll (set_players move.gameid board (delete player.id board.players) s)
            some_message in
        (s', ground arith)
    | inr on ↦ (
      set_players move.gameid board (act fl s.response_interval_ms move k player board.players) s,
      rw on,
    )
  ]

  find_player_total :
      (board : GameBoard fl.F) (k : ℤ)
      → (s' : Server fl.F) × (find_player fl c sid move roll board k s ≡ some s')
  unfolding find_player
  find_player_total board k = elim (Option-cases (lookup k board.players)) [
    | inl absent ↦
        let (s', e) = end_game_total sid roll s some_message in (s', rw (absent, find_player) e)
    | inr (player, e) ↦ let (s', r) = play_total board k player in (s', rw (e, find_player) r)
  ]

  authenticate_total :
      (board : GameBoard fl.F) (d : Decrypted)
      → (s' : Server fl.F) × (authenticate fl c sid move roll board (some d) s ≡ some s')
  unfolding authenticate
  authenticate_total board d = elim (Option-cases d.err) [
    | inl valid ↦
        let (s', r) = find_player_total board (int32 d.id) in (s', rw (valid, authenticate) r)
    | inr (e, bad) ↦ (set_response sid (some userkey_invalid) s, rw (bad, authenticate))
  ]

  handle_total :
      IsAead c
      → Presented c s.server_secret move.userkey
      → (s' : Server fl.F) × (handle fl c sid move roll s ≡ some s')
  unfolding handle
  handle_total aead key = elim (Option-cases (lookup move.gameid s.boards)) [
    | inl lost ↦ (set_response sid (some (game_not_found move.gameid)) s, rw (lost, handle))
    | inr (board, found) ↦
        let (d, e) = decrypt_user_key_total c aead move.userkey s.server_secret key in
        let (s', r) = authenticate_total board d in (s', rw (found, handle) (rw e r))
  ]

-- Each request's key was sealed under the secret, or does not open.
abbrev pub AllPresented : Cipher → Text → Requests → Type 0
AllPresented c secret = All (λ q. Presented c secret q.1.userkey)

module _ (fl : Float) (c : Cipher) (aead : IsAead c) where
  pub respond_one_total :
      (sid : ℤ) (move : Move) (roll : ℕ) (s : Server fl.F)
      → 0 < length s.game_over_messages
      → Presented c s.server_secret move.userkey
      → (s' : Server fl.F) × (respond_one fl c sid move roll s ≡ some s')
  unfolding respond_one set_response
  respond_one_total sid move roll s some_message key = elim (Option-cases (response sid s)) [
    | inl idle ↦
        let (s', e) =
          handle_total fl c sid move roll (set_response sid none s) some_message aead key in
        (s', rw (idle, respond_one) e)
    | inr (e, full) ↦ (s, rw (full, respond_one))
  ]

  -- With a message to show, and where each request's key was sealed by the orchestrator under the
  -- server's secret or does not open, answering the requests ends without a panic.
  pub respond_total :
      (requests : Requests) (rolls : ℤ → ℕ) (s : Server fl.F)
      → 0 < length s.game_over_messages
      → AllPresented c s.server_secret requests
      → (s' : Server fl.F) × (respond fl c requests rolls s ≡ some s')
  unfolding respond
  respond_total [] rolls s some_message keys = (s, refl)
  respond_total ((sid, move) ∷ rest) rolls s some_message keys =
      let (t, e) = respond_one_total sid move (rolls sid) s some_message keys.0 in
      let u = respond_one-Untouched fl c sid move (rolls sid) s t e in
      let (s', r) = respond_total rest rolls t (rw u.messages some_message) (rw u.secret keys.1) in
      (s', rw (e, respond) r)
