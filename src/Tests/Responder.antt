-- ===== src/Tests/Responder.antt =====
-- The responder at concrete inputs.
use orbstrike.Common.{
  ℕ, ◌+◌, ◌≡◌, refl, ◌≢◌, true, false, [], ◌∷◌, none, some, ℤ, pos, lookup, insert, delete, int_eq,
  int32, uint64, ◌+ℤ◌, eqb_ℤ_iff, arith, length, if◌then◌else◌, ◌&&◌,
}
use orbstrike.Server.Game.{Player}
use orbstrike.Server.State.{Server, set_response}
use orbstrike.Server.Crypto.{decrypt_user_key}
use orbstrike.Server.Responder.Respond.{
  act, position, is_hit, set_players, stride, respond_one, respond,
}
use orbstrike.Server.Responder.Position.{is_player_touched, is_outside_map}
use orbstrike.Server.Responder.Combat.{with_kills, struck}
use orbstrike.Server.Responder.Action.{lookup-act, act-kills, act-moved, moved}
use orbstrike.Server.Responder.Round.{Round, respond_one-Round}
use orbstrike.Server.Responder.Frame.{Untouched, respond_one-Untouched}
use orbstrike.Server.Responder.Invariant.{BoardsOk, PlayersOk, IsKeyed, respond-BoardsOk}
use orbstrike.Server.Responder.Progress.{respond_total}
use orbstrike.Server.Responder.Split.{Requests}
use orbstrike.Server.Responder.Split.Shares.{Shared, split_request_map-Shared}
use orbstrike.Tests.Samples.{
  whole, tagged, tagged-IsAead, ada_issued, ada, arena, strike_bob, go_right, server,
}

one_ne_two : ◌≢◌ {A = ℤ} (pos 1) (pos 2)
one_ne_two h = cc

lookup-act_example : lookup (pos 2) (act whole (pos 15) strike_bob (pos 1) ada arena.players) ≡ (
    if strike_bob.enable_ring
      && struck whole
          (position whole ada)
          strike_bob.hit_players
          (pos 2)
          (lookup (pos 2) arena.players)
    then none
    else lookup (pos 2) arena.players)
unfolding lookup
lookup-act_example =
    lookup-act whole (pos 15) strike_bob (pos 1) ada arena.players refl (pos 2) one_ne_two

act-kills_example :
    (n : ℕ) × (lookup (pos 1) (act whole (pos 15) strike_bob (pos 1) ada arena.players)
      ≡ some (with_kills n (record ada { ring_enabled = true })))
    × (length (act whole (pos 15) strike_bob (pos 1) ada arena.players) + n ≡ length arena.players)
unfolding lookup
act-kills_example =
    act-kills whole (pos 15) strike_bob (pos 1) ada arena.players refl (refl, (refl, tt))
      (omega arith) refl

act-moved_example :
    lookup (pos 1) (act whole (pos 15) go_right (pos 1) ada arena.players)
    ≡ some (
        moved whole go_right.direction
          (stride whole (pos 15) ada)
          (record ada { ring_enabled = false }))
unfolding lookup
act-moved_example = act-moved whole (pos 15) go_right (pos 1) ada arena.players refl refl

-- What the strike leaves of the arena.
after_strike : lookup (pos 2) (act whole (pos 15) strike_bob (pos 1) ada arena.players) ≡ none
unfolding act lookup insert delete is_hit is_player_touched ◌+ℤ◌
after_strike = refl

-- The server after Ada's strike, for her session 5.
abbrev struck_server : Server ℤ
struck_server =
    set_players (pos 7) arena (act whole (pos 15) strike_bob (pos 1) ada arena.players)
      (set_response (pos 5) none server)

respond_one_strike : respond_one whole tagged (pos 5) strike_bob 0 server ≡ some struck_server
unfolding respond_one decrypt_user_key lookup is_outside_map uint64 int32 ◌+ℤ◌
respond_one_strike = refl

respond_one-Round_example : Round whole tagged (pos 5) strike_bob server struck_server
respond_one-Round_example =
    respond_one-Round whole tagged (pos 5) strike_bob 0 server respond_one_strike

respond_one-Untouched_example : Untouched (pos 5) (pos 7) server struck_server
respond_one-Untouched_example =
    respond_one-Untouched whole tagged (pos 5) strike_bob 0 server struck_server respond_one_strike

arena-IsKeyed : (j : ℤ) (p : Player ℤ) → lookup j arena.players ≡ some p → IsKeyed j p
unfolding lookup
arena-IsKeyed j p h = ground (arith, eqb_ℤ_iff (pos 1) j, eqb_ℤ_iff (pos 2) j)

pub arena-PlayersOk : PlayersOk arena.players
unfolding lookup
arena-PlayersOk = record { unique = (refl, (refl, tt)); keyed = arena-IsKeyed }

pub server-BoardsOk : BoardsOk server.boards
unfolding lookup
server-BoardsOk = record {
  unique = (refl, tt);
  each =
      λ g b h. let e : arena ≡ b = ground (arith, eqb_ℤ_iff (pos 7) g) in rw (← e) arena-PlayersOk;
}

respond_strike :
    respond whole tagged ((pos 5, strike_bob) ∷ []) (λ j. 0) server ≡ some struck_server
unfolding respond
respond_strike = rw (respond_one_strike, respond)

respond-BoardsOk_example : BoardsOk struck_server.boards
respond-BoardsOk_example =
    respond-BoardsOk whole tagged ((pos 5, strike_bob) ∷ []) (λ j. 0) server struck_server
      server-BoardsOk respond_strike

respond_total_example :
    (s' : Server ℤ) × (respond whole tagged
        ((pos 5, strike_bob) ∷ (pos 6, go_right) ∷ [])
        (λ j. 3)
        server
      ≡ some s')
respond_total_example =
    respond_total whole tagged tagged-IsAead ((pos 5, strike_bob) ∷ (pos 6, go_right) ∷ []) (λ j. 3)
      server (omega arith) (ada_issued, (ada_issued, tt))

abbrev pub three_requests : Requests
three_requests = (pos 1, go_right) ∷ (pos 2, strike_bob) ∷ (pos 3, go_right) ∷ []

split_request_map-Shared_example : Shared three_requests 2
unfolding lookup
split_request_map-Shared_example =
    split_request_map-Shared three_requests 2 (omega arith) (refl, (refl, (refl, tt)))
