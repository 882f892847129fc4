-- ===== src/Server/Responder/Position.antt =====
-- `PlayerPosition` of server/responder/responder.go.
use orbstrike.Common.{Bool}
use orbstrike.Server.Game.{Float}

pub record PlayerPosition (F : Type 0) : Type 0 where
  pub x : F
  pub y : F
  pub rad : F

module _ (fl : Float) where
  open fl use {F, add, sub, mul, sqrt, le, gt}

  unfoldable pub is_player_touched : PlayerPosition F → PlayerPosition F → Bool
  is_player_touched p target =
      let dx = sub p.x target.x in
      let dy = sub p.y target.y in
      let distance = add (mul dx dx) (mul dy dy) in
      let radius_sum = add p.rad target.rad in le distance (mul radius_sum radius_sum)

  unfoldable pub is_outside_map : PlayerPosition F → F → Bool
  is_outside_map p mapradius = gt (sqrt (add (mul p.x p.x) (mul p.y p.y))) mapradius
