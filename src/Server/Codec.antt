-- ===== src/Server/Codec.antt =====
-- google.golang.org/protobuf/proto, as far as the program calls it: the encoding of a player and of
-- a board. `none` is an error.
use orbstrike.Common.{Option, some, ◌≡◌, Text}
use orbstrike.Server.Game.{Player, GameBoard}

pub record Codec (F : Type 0) : Type 0 where
  pub marshal_player : Player F → Option Text
  pub unmarshal_player : Text → Option (Player F)
  pub marshal_board : GameBoard F → Option Text
  pub unmarshal_board : Text → Option (GameBoard F)

-- What is encoded decodes to itself.
pub record IsCodec (F : Type 0) (c : Codec F) : Type 0 where
  pub player :
      (p : Player F) (t : Text) → c.marshal_player p ≡ some t → c.unmarshal_player t ≡ some p
  pub board :
      (b : GameBoard F) (t : Text) → c.marshal_board b ≡ some t → c.unmarshal_board t ≡ some b
