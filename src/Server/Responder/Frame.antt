-- ===== src/Server/Responder/Frame.antt =====
-- What answering a request leaves alone.
use orbstrike.Common.{
  ℕ, ◌≡◌, refl, ◌∙◌, ◌≢◌, Option, some, ℤ, Map, lookup, int_eq, eqb_ℤ_iff, arith, lookup-insert,
}
use orbstrike.Cipher.{Cipher}
use orbstrike.Server.Game.{Float, Player, GameBoard, Move}
use orbstrike.Server.State.{Server, Status, response, set_response}
use orbstrike.Server.Responder.Respond.{set_players, respond_one}
use orbstrike.Server.Responder.Round.{Round, waiting, refused, died, acted, respond_one-Round}

-- What a request of session `sid` for the board `gid` may not touch.
pub record Untouched {F : Type 0} (sid gid : ℤ) (s s' : Server F) : Type 0 where
  pub boards : (g : ℤ) → gid ≢ g → lookup g s'.boards ≡ lookup g s.boards
  pub responses : (j : ℤ) → sid ≢ j → response j s' ≡ response j s
  pub requests : s'.session_requests ≡ s.session_requests
  pub secret : s'.server_secret ≡ s.server_secret
  pub messages : s'.game_over_messages ≡ s.game_over_messages
  pub interval : s'.response_interval_ms ≡ s.response_interval_ms

module _ {F : Type 0} (sid gid : ℤ) where
  Untouched-refl : (s : Server F) → Untouched sid gid s s
  Untouched-refl s = record {
    boards = λ g ne. refl;
    responses = λ j ne. refl;
    requests = refl;
    secret = refl;
    messages = refl;
    interval = refl;
  }

  Untouched-trans :
      {s t u : Server F} → Untouched sid gid s t → Untouched sid gid t u → Untouched sid gid s u
  Untouched-trans a b = record {
    boards = λ g ne. b.boards g ne ∙ a.boards g ne;
    responses = λ j ne. b.responses j ne ∙ a.responses j ne;
    requests = b.requests ∙ a.requests;
    secret = b.secret ∙ a.secret;
    messages = b.messages ∙ a.messages;
    interval = b.interval ∙ a.interval;
  }

  Untouched-set_response :
      (r : Option Status) (s : Server F) → Untouched sid gid s (set_response sid r s)
  unfolding response set_response
  Untouched-set_response r s = record {
    boards = λ g ne. refl;
    responses = λ j ne. ground (arith, lookup-insert sid j r s.session_responses, eqb_ℤ_iff sid j);
    requests = refl;
    secret = refl;
    messages = refl;
    interval = refl;
  }

  Untouched-set_players :
      (b : GameBoard F) (ps : Map ℤ (Player F)) (s : Server F)
      → Untouched sid gid s (set_players gid b ps s)
  unfolding response set_players
  Untouched-set_players b ps s = record {
    boards = λ g ne.
        ground (arith, lookup-insert gid g (record b { players = ps }) s.boards, eqb_ℤ_iff gid g);
    responses = λ j ne. refl;
    requests = refl;
    secret = refl;
    messages = refl;
    interval = refl;
  }

  then_response :
      (r : Option Status) {s t : Server F}
      → Untouched sid gid s t
      → Untouched sid gid s (set_response sid r t)
  then_response r {t} u = Untouched-trans u (Untouched-set_response r t)

  then_players :
      (b : GameBoard F) (ps : Map ℤ (Player F)) {s t : Server F}
      → Untouched sid gid s t
      → Untouched sid gid s (set_players gid b ps t)
  then_players b ps {t} u = Untouched-trans u (Untouched-set_players b ps t)

module _ (fl : Float) (c : Cipher) (sid : ℤ) (move : Move) where
  Round-Untouched : {s s' : Server fl.F} → Round fl c sid move s s' → Untouched sid move.gameid s s'
  Round-Untouched {s} (waiting e full q) = rw q (Untouched-refl sid move.gameid s)
  Round-Untouched {s} (refused e idle q) = rw q (
      then_response sid move.gameid _
        (then_response sid move.gameid _ (Untouched-refl sid move.gameid s)))
  Round-Untouched {s} (died board k player e idle seat off q) = rw q (
      then_response sid move.gameid _ (
        then_players sid move.gameid board _
          (then_response sid move.gameid _ (Untouched-refl sid move.gameid s))))
  Round-Untouched {s} (acted board k player idle seat on q) = rw q (
      then_players sid move.gameid board _
        (then_response sid move.gameid _ (Untouched-refl sid move.gameid s)))

  -- A request changes no board but the one that it names, no other session's response, no request,
  -- and none of the server's settings that it reads.
  pub respond_one-Untouched :
      (roll : ℕ) (s s' : Server fl.F)
      → respond_one fl c sid move roll s ≡ some s'
      → Untouched sid move.gameid s s'
  respond_one-Untouched roll s s' h = Round-Untouched (respond_one-Round fl c sid move roll s h)
