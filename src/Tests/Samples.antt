-- ===== src/Tests/Samples.antt =====
-- Values for the parameters of the model, and a board, a server and a database to run on.
use orbstrike.Common.{
  put_uint64, to_word, ℕ, ◌+◌, ◌*◌, ◌/◌, ◌≡◌, refl, true, false, List, [], ◌∷◌, Option, none, some,
  Text, ℤ, pos, pos_part, neg_part, sub_ℕ, ◌+ℤ◌, ltb_ℤ, not, arith, int_eq, text_eq,
}
use orbstrike.Cipher.{Cipher, IsAead}
use orbstrike.Orchestrator.Crypto.{sealed, encrypt_user_key}
use orbstrike.Orchestrator.Crypto.Presented.{Presented, issued}
use orbstrike.Server.Game.{Float, Player, GameBoard, Move, Direction}
use orbstrike.Server.State.{Server}
use orbstrike.Server.Codec.{Codec}

-- Whole numbers in place of floats; `div` and `sqrt` are not run here.
abbrev pub whole : Float
whole = record {
  F = ℤ;
  add = ◌+ℤ◌;
  sub = λ a b. sub_ℕ (pos_part a + neg_part b) (neg_part a + pos_part b);
  mul = λ a b.
      sub_ℕ (pos_part a * pos_part b + neg_part a * neg_part b)
        (pos_part a * neg_part b + neg_part a * pos_part b);
  div = λ a b. pos (pos_part a / pos_part b);
  sqrt = λ a. a;
  le = λ a b. not (ltb_ℤ b a);
  gt = λ a b. ltb_ℤ b a;
  of_int = λ a. a;
}

-- A tag in front of the plain text in place of encryption.
abbrev open_tagged : List ℕ → Option (List ℕ)
open_tagged [] = none
open_tagged (x ∷ s) = some s

abbrev pub tagged : Cipher
tagged = record {
  Key = Text;
  new_gcm = some;
  nonce_size = 2;
  seal = λ k nonce plain. 1 ∷ plain;
  open_sealed = λ k nonce s. open_tagged s;
}

pub tagged-IsAead : IsAead tagged
tagged-IsAead = record {
  open-seal = λ k nonce plain. refl;
  seal_nonempty = λ k nonce plain. omega arith;
}

abbrev pub ada : Player ℤ
ada = record {
  id = pos 1;
  name = [];
  x = pos 0;
  y = pos 0;
  rad = pos 5;
  ringrad = pos 9;
  color = pos 0;
  kills = pos 0;
  ring_enabled = false;
  speed = pos 10;
}

abbrev pub bob : Player ℤ
bob = record ada { id = pos 2; x = pos 3 }

abbrev pub arena : GameBoard ℤ
arena = record {
  players = (pos 1, ada) ∷ (pos 2, bob) ∷ [];
  id = pos 7;
  rad = pos 100;
  max_players = pos 2;
  speed = pos 10;
  player_rad = pos 5;
  player_ring_rad = pos 9;
}

-- Ada's key: two bytes of nonce, the tag, and her identifier.
abbrev pub ada_key : List ℕ
ada_key = 9 ∷ 9 ∷ 1 ∷ 0 ∷ 0 ∷ 0 ∷ 0 ∷ 0 ∷ 0 ∷ 0 ∷ 1 ∷ []

pub encrypt_ada : encrypt_user_key tagged (pos 1) [] (some (9 ∷ 9 ∷ [])) ≡ sealed ada_key
unfolding encrypt_user_key put_uint64 to_word
encrypt_ada = refl

-- The orchestrator has sealed it.
pub ada_issued : Presented tagged [] ada_key
ada_issued = issued (pos 1) (9 ∷ 9 ∷ []) (omega arith) refl encrypt_ada

abbrev pub strike_bob : Move
strike_bob = record {
  userkey = ada_key;
  gameid = pos 7;
  direction = Direction.none_set;
  enable_ring = true;
  hit_players = pos 2 ∷ [];
}

abbrev pub go_right : Move
go_right = record strike_bob { enable_ring = false; direction = Direction.right }

abbrev pub server : Server ℤ
server = record {
  boards = (pos 7, arena) ∷ [];
  session_requests = [];
  session_responses = [];
  server_secret = [];
  game_over_messages = (b'x' ∷ []) ∷ [];
  max_channel_size = pos 15;
  response_interval_ms = pos 15;
  request_per_worker = pos 10;
}

-- Every text decodes to Cid.
abbrev pub cid : Player ℤ
cid = record ada { id = pos 3 }

abbrev pub cids : Codec ℤ
cids = record {
  marshal_player = λ p. some [];
  unmarshal_player = λ t. some cid;
  marshal_board = λ b. some [];
  unmarshal_board = λ t. some arena;
}
