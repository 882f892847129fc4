-- ===== src/Orchestrator/Auth/Limits.antt =====
-- What holds of a game that `CreateGame` has created.
use orbstrike.Common.{
  ◌≡◌, refl, inl, inr, false, [], Option, none, some, Text, ℤ, pos, ltb_ℤ, int32, arith,
  Option-cases, Bool-cases,
}
use orbstrike.Redis.{Redis, IsRedis, is_ok, is_nil, is_failed, Reply-cases, ok}
use orbstrike.Server.Game.{Float}
use orbstrike.Server.Codec.{Codec}
use orbstrike.Orchestrator.Algo.Allocators.{AllocError, allocate_game}
use orbstrike.Orchestrator.Algo.Allocation.{Moved, allocate_game-Moved}
use orbstrike.Orchestrator.Auth.{AuthServer}
use orbstrike.Server.Sync.{game_key}
use orbstrike.Redis.{after}
use orbstrike.Orchestrator.Auth.Create.{
  CreateGameRequest, created, identifier_key, game_counter, max_players_limit, max_map_radius,
  max_speed, max_pl_rad, check_request, new_board, answer, save_game, build_game, count_game,
  limit_user, create_game,
}

-- What a request may ask for.
pub record WithinLimits (fl : Float) (req : CreateGameRequest fl.F) : Type 0 where
  pub players : ltb_ℤ max_players_limit req.maxplayers ≡ false
  pub radius : fl.gt req.radius (fl.of_int max_map_radius) ≡ false
  pub speed : fl.gt req.speed (fl.of_int max_speed) ≡ false
  pub ring : fl.gt req.playerradius req.playerringradius ≡ false
  pub player : fl.gt req.playerradius (fl.of_int max_pl_rad) ≡ false

check_request-WithinLimits :
    (fl : Float) (req : CreateGameRequest fl.F) → check_request fl req ≡ none → WithinLimits fl req
unfolding check_request
check_request-WithinLimits fl req h = record {
  players = ground arith;
  radius = ground arith;
  speed = ground arith;
  ring = ground arith;
  player = ground arith;
}

module _ (fl : Float) (r : Redis) (laws : IsRedis r) (c : Codec fl.F) (srv : AuthServer) where
  -- The request is within the limits, and the game with the number `id` stands on a listed server.
  pub record Founded (req : CreateGameRequest fl.F) (id : ℤ) (d' : r.Db) : Type 0 where
    pub gameid : ℤ
    pub numbered : id ≡ int32 gameid
    pub within : WithinLimits fl req
    pub before : r.Db
    pub placed : Moved r laws gameid [] before d'

  -- The user's count, this game included, is within the daily limit.
  pub record Counted (req : CreateGameRequest fl.F) (d : r.Db) : Type 0 where
    pub cntr : ℤ
    pub counted : (r.incr (identifier_key req.identifier) d).0 ≡ ok cntr
    pub daily : ltb_ℤ srv.daily_user_game_limit cntr ≡ false

  answer_created :
      (gameid : ℤ) (err : Option AllocError) (id : ℤ)
      → answer fl r c srv gameid err ≡ created id
      → (err ≡ none) × (id ≡ int32 gameid)
  unfolding answer
  answer_created gameid none id h = (refl, ground arith)
  answer_created gameid (some e) id h = cc

  save_game-Founded :
      (req : CreateGameRequest fl.F) (id : ℤ) (enc : Text) (gameid : ℤ) (d : r.Db)
      → WithinLimits fl req
      → (save_game fl r c srv enc gameid d).0 ≡ created id
      → Founded req id (save_game fl r c srv enc gameid d).1
  unfolding save_game
  save_game-Founded req id enc gameid d w =
      elim (Reply-cases (r.set_string (game_key gameid) enc (after srv.game_lifetime) d).0) [
        | is_ok u e ↦
            rw (e, save_game)
              (λ h.
                let d' = (r.set_string (game_key gameid) enc (after srv.game_lifetime) d).1 in
                let (q, n) = answer_created gameid (allocate_game r gameid [] d').0 id h in
                record {
                  gameid = gameid;
                  numbered = n;
                  within = w;
                  before = d';
                  placed = allocate_game-Moved r laws gameid [] d' q;
                })
        | is_nil e ↦ rw (e, save_game) (λ h. cc)
        | is_failed t e ↦ rw (e, save_game) (λ h. cc)
      ]

  build_game-Founded :
      (req : CreateGameRequest fl.F) (id gameid : ℤ) (d : r.Db)
      → (build_game fl r c srv req gameid d).0 ≡ created id
      → Founded req id (build_game fl r c srv req gameid d).1
  unfolding build_game
  build_game-Founded req id gameid d = elim (Option-cases (check_request fl req)) [
    | inr (e, q) ↦ rw (q, build_game) (λ h. cc)
    | inl fine ↦
        rw (fine, build_game)
          (elim (Option-cases (c.marshal_board (new_board fl req gameid))) [
            | inl bad ↦ rw (bad, build_game) (λ h. cc)
            | inr (enc, q) ↦
                rw (q, build_game)
                  (save_game-Founded req id enc gameid d (check_request-WithinLimits fl req fine))
          ])
  ]

  count_game-Founded :
      (req : CreateGameRequest fl.F) (id : ℤ) (d : r.Db)
      → (count_game fl r c srv req d).0 ≡ created id
      → Founded req id (count_game fl r c srv req d).1
  unfolding count_game
  count_game-Founded req id d = elim (Reply-cases (r.incr game_counter d).0) [
    | is_ok gameid e ↦
        rw (e, count_game) (build_game-Founded req id gameid (r.incr game_counter d).1)
    | is_nil e ↦ rw (e, count_game) (λ h. cc)
    | is_failed t e ↦ rw (e, count_game) (λ h. cc)
  ]

  limit_user-Founded :
      (req : CreateGameRequest fl.F) (id cntr : ℤ) (d : r.Db)
      → (limit_user fl r c srv req cntr d).0 ≡ created id
      → (ltb_ℤ srv.daily_user_game_limit cntr ≡ false)
        × Founded req id (limit_user fl r c srv req cntr d).1
  unfolding limit_user
  limit_user-Founded req id cntr d =
      elim (Reply-cases (r.expire (identifier_key req.identifier) (pos 86400000000000) d).0) [
        | is_ok u e ↦
            rw (e, limit_user)
              (elim (Bool-cases (ltb_ℤ srv.daily_user_game_limit cntr)) [
                | inl over ↦ rw over (λ h. cc)
                | inr fine ↦ rw fine (λ h. (refl, count_game-Founded req id _ h))
              ])
        | is_nil e ↦ rw (e, limit_user) (λ h. cc)
        | is_failed t e ↦ rw (e, limit_user) (λ h. cc)
      ]

  -- A game that is created was within the limits and the user's daily count, and stands on a
  -- server of the index.
  pub create_game-Founded :
      (req : CreateGameRequest fl.F) (id : ℤ) (d : r.Db)
      → (create_game fl r c srv req d).0 ≡ created id
      → Counted req d × Founded req id (create_game fl r c srv req d).1
  unfolding create_game
  create_game-Founded req id d = elim (Reply-cases (r.incr (identifier_key req.identifier) d).0) [
    | is_ok cntr e ↦
        rw (e, create_game)
          (λ h.
            let (daily, f) =
              limit_user-Founded req id cntr (r.incr (identifier_key req.identifier) d).1 h in
            (record { cntr = cntr; counted = e; daily = daily }, f))
    | is_nil e ↦ rw (e, create_game) (λ h. cc)
    | is_failed t e ↦ rw (e, create_game) (λ h. cc)
  ]
