-- ===== src/Server/Stream.antt =====
-- `StreamGameboard` of server/socket/sgame/sgame.go. A stream is a machine that runs from one
-- access of the shared maps, or one call of gRPC, to the next; the other goroutines run in between.
-- What a stream sends is the board that its pointer reaches at that time.
pub mod System
use orbstrike.Common.{Option, none, some, Text, ℤ, Map, lookup, insert, delete, int_eq}
use orbstrike.Server.Game.{Move}
use orbstrike.Server.State.{Server, Status, game_not_found, response}

-- What gRPC answers to Recv.
pub data Received : Type 0 where
  message : Move → Received
  end_of_stream : Received
  receive_failed : Text → Received

pub data StreamError : Type 0 where
  broken : Text → StreamError
  refused : Status → StreamError

-- Where a stream stands: before Recv, before the board is looked up, before the request is stored,
-- before the response is read, before Send, before the session is deleted, and after.
pub data Pc : Type 0 where
  receiving : Pc
  looking : Move → Pc
  storing : Move → Pc
  checking : Move → Pc
  sending : ℤ → Pc
  leaving : Option StreamError → Pc
  closed : Option StreamError → Pc

-- The answers of gRPC, should the stream ask for them: the error of Send is `some`.
pub record Answers : Type 0 where
  pub recv : Received
  pub send : Option Text

unfoldable pub receive : Received → Pc
receive (message m) = looking m
receive end_of_stream = leaving none
receive (receive_failed e) = leaving (some (broken e))

unfoldable pub sent : Option Text → Pc
sent none = receiving
sent (some e) = leaving (some (broken e))

module _ {F : Type 0} where
  -- s.Boards[req.Gameid], without the lock
  unfoldable pub find_board : Move → Server F → Pc
  find_board m s = elim (lookup m.gameid s.boards) [
    | none ↦ leaving (some (refused (game_not_found m.gameid)))
    | some board ↦ storing m
  ]

  unfoldable pub store_request : ℤ → Move → Server F → Server F
  store_request sid m s = record s { session_requests = insert sid m s.session_requests }

  unfoldable pub check_response : ℤ → Move → Server F → Pc
  check_response sid m s = elim (response sid s) [
    | some e ↦ leaving (some (refused e))
    | none ↦ sending m.gameid
  ]

  unfoldable pub drop_session : ℤ → Server F → Server F
  drop_session sid s = record s {
    session_requests = delete sid s.session_requests;
    session_responses = delete sid s.session_responses;
  }

  unfoldable pub stream_step : ℤ → Answers → Pc → Server F → Pc × Server F
  unfolding receive sent find_board store_request check_response drop_session
  stream_step sid a receiving s = (receive a.recv, s)
  stream_step sid a (looking m) s = (find_board m s, s)
  stream_step sid a (storing m) s = (checking m, store_request sid m s)
  stream_step sid a (checking m) s = (check_response sid m s, s)
  stream_step sid a (sending g) s = (sent a.send, s)
  stream_step sid a (leaving e) s = (closed e, drop_session sid s)
  stream_step sid a (closed e) s = (closed e, s)
