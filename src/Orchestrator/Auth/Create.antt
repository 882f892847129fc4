-- ===== src/Orchestrator/Auth/Create.antt =====
-- `CreateGame` of orchestrator/socket/sauth/sauth.go. The log is left out.
use orbstrike.Common.{
  [], Option, none, some, Text, codes, ◌++◌, ℤ, pos, ltb_ℤ, int32, if◌then◌else◌,
}
use orbstrike.Redis.{Redis, ok, nil, failed, after}
use orbstrike.Server.Game.{Float, GameBoard}
use orbstrike.Server.Codec.{Codec}
use orbstrike.Server.Sync.{game_key}
use orbstrike.Orchestrator.Algo.Allocators.{AllocError, allocate_game}
use orbstrike.Orchestrator.Auth.{AuthServer}

pub record CreateGameRequest (F : Type 0) : Type 0 where
  pub identifier : Text
  pub radius : F
  pub maxplayers : ℤ  -- int32
  pub speed : F
  pub playerradius : F
  pub playerringradius : F

pub data CreateError : Type 0 where
  no_user_counter daily_limit no_game_counter : CreateError
  too_many_players radius_too_large speed_too_high ring_too_small player_too_large : CreateError
  no_template not_saved not_allocated : CreateError

pub data CreateGameResult : Type 0 where
  created : ℤ → CreateGameResult
  rejected : CreateError → CreateGameResult

abbrev pub max_players_limit : ℤ
max_players_limit = pos 100

abbrev pub max_map_radius : ℤ
max_map_radius = pos 10000

abbrev pub max_speed : ℤ
max_speed = pos 50

abbrev pub max_pl_rad : ℤ
max_pl_rad = pos 250

-- 24*time.Hour
abbrev one_day : ℤ
one_day = pos 86400000000000

unfoldable pub identifier_key : Text → Text
identifier_key identifier = codes "identifier:" ++ (identifier ++ codes ":counter")

unfoldable pub game_counter : Text
game_counter = codes "game:counter"

module _ (fl : Float) where
  open fl use {F, gt, of_int}

  -- The limits on a request, in the order of the checks.
  unfoldable pub check_request : CreateGameRequest F → Option CreateError
  check_request req =
      if ltb_ℤ max_players_limit req.maxplayers
      then some too_many_players
      else if gt req.radius (of_int max_map_radius)
      then some radius_too_large
      else if gt req.speed (of_int max_speed)
      then some speed_too_high
      else if gt req.playerradius req.playerringradius
      then some ring_too_small
      else if gt req.playerradius (of_int max_pl_rad)
      then some player_too_large
      else none

  unfoldable pub new_board : CreateGameRequest F → ℤ → GameBoard F
  new_board req gameid = record {
    players = [];
    id = int32 gameid;
    rad = req.radius;
    max_players = req.maxplayers;
    speed = req.speed;
    player_rad = req.playerradius;
    player_ring_rad = req.playerringradius;
  }

module _ (fl : Float) (r : Redis) (c : Codec fl.F) (srv : AuthServer) where
  open fl use {F}
  open r use {Db, incr, expire, set_string}

  -- The error of AllocateGame, or the response.
  unfoldable pub answer : ℤ → Option AllocError → CreateGameResult
  answer gameid none = created (int32 gameid)
  answer gameid (some e) = rejected not_allocated

  -- From the encoded board on.
  unfoldable pub save_game : Text → ℤ → Db → CreateGameResult × Db
  unfolding answer
  save_game enc gameid d =
      let (reply, d') = set_string (game_key gameid) enc (after srv.game_lifetime) d in
      elim reply [
        | ok u ↦ let (err, d'') = allocate_game r gameid [] d' in (answer gameid err, d'')
        | nil ↦ (rejected not_saved, d')
        | failed e ↦ (rejected not_saved, d')
      ]

  -- From the checks of the request on.
  unfoldable pub build_game : CreateGameRequest F → ℤ → Db → CreateGameResult × Db
  unfolding check_request new_board save_game
  build_game req gameid d = elim (check_request fl req) [
    | some e ↦ (rejected e, d)
    | none ↦ elim (c.marshal_board (new_board fl req gameid)) [
      | none ↦ (rejected no_template, d)
      | some enc ↦ save_game enc gameid d
    ]
  ]

  unfoldable pub count_game : CreateGameRequest F → Db → CreateGameResult × Db
  unfolding build_game game_counter
  count_game req d =
      let (reply, d') = incr game_counter d in
      elim reply [
        | ok gameid ↦ build_game req gameid d'
        | nil ↦ (rejected no_game_counter, d')
        | failed e ↦ (rejected no_game_counter, d')
      ]

  -- From the user's count on: it expires in a day, and is then compared with the limit.
  unfoldable pub limit_user : CreateGameRequest F → ℤ → Db → CreateGameResult × Db
  unfolding count_game
  limit_user req cntr d =
      let (reply, d') = expire (identifier_key req.identifier) one_day d in
      elim reply [
        | ok u ↦
            if ltb_ℤ srv.daily_user_game_limit cntr
            then (rejected daily_limit, d')
            else count_game req d'
        | nil ↦ (rejected no_user_counter, d')
        | failed e ↦ (rejected no_user_counter, d')
      ]

  unfoldable pub create_game : CreateGameRequest F → Db → CreateGameResult × Db
  unfolding limit_user
  create_game req d =
      let (reply, d') = incr (identifier_key req.identifier) d in
      elim reply [
        | ok cntr ↦ limit_user req cntr d'
        | nil ↦ (rejected no_user_counter, d')
        | failed e ↦ (rejected no_user_counter, d')
      ]
