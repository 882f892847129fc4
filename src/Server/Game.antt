-- ===== src/Server/Game.antt =====
-- The messages of api/game/game.proto, as the server's Go code uses them
-- (server/proto/game/game.pb.go). `float64` is a parameter of the model.
use orbstrike.Common.{ℕ, Bool, List, Text, ℤ, Map}

-- IEEE 754 arithmetic, as Go's `float64` offers it. No law is assumed: the theorems hold whatever
-- the rounding does.
pub record Float : Type 1 where
  pub F : Type 0
  pub add : F → F → F
  pub sub : F → F → F
  pub mul : F → F → F
  pub div : F → F → F
  pub sqrt : F → F
  pub le : F → F → Bool
  pub gt : F → F → Bool
  pub of_int : ℤ → F

-- `other` is a value outside the enumeration, which proto3 lets through.
pub data Direction : Type 0 where
  none_set up down left up_left down_left right up_right down_right : Direction
  other : ℤ → Direction

pub record Player (F : Type 0) : Type 0 where
  pub id : ℤ  -- int32
  pub name : Text
  pub x : F
  pub y : F
  pub rad : F
  pub ringrad : F
  pub color : ℤ
  pub kills : ℤ  -- int32
  pub ring_enabled : Bool
  pub speed : F

pub record GameBoard (F : Type 0) : Type 0 where
  pub players : Map ℤ (Player F)
  pub id : ℤ
  pub rad : F
  pub max_players : ℤ
  pub speed : F
  pub player_rad : F
  pub player_ring_rad : F

pub record Move : Type 0 where
  pub userkey : List ℕ
  pub gameid : ℤ  -- int32
  pub direction : Direction
  pub enable_ring : Bool
  pub hit_players : List ℤ
