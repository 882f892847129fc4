-- ===== src/Orchestrator/Algo/Allocators.antt =====
-- orchestrator/algo/allocators.go.
use orbstrike.Common.{
  ℕ, Bool, true, false, ◌&&◌, ◌||◌, List, [], ◌∷◌, Option, none, some, Text, ℤ, pos, negsuc, ltb_ℤ,
  Map, text_eqb, format_int, atoi, sscanf, ◌==◌, if◌then◌else◌,
}
use orbstrike.Redis.{Redis, Reply, ok, nil, failed}
use orbstrike.Keys.{index_key, gserver, games_suffix, games_key}

pub data AllocError : Type 0 where
  db_nil : AllocError
  db_failed : Text → AllocError
  no_gserver : ℤ → AllocError
  invalid_key : AllocError

-- curKey and curLoad
pub record Best : Type 0 where
  pub key : Text
  pub load : ℤ

-- curLoad<0 || load < curLoad
unfoldable pub replaces : ℕ → Best → Bool
replaces n b = ltb_ℤ b.load (pos 0) || ltb_ℤ (pos n) b.load

unfoldable pub weigh : Text → Reply ℕ → Best → Best
unfolding replaces
weigh k (ok n) b = if replaces n b then record { key = k; load = pos n } else b
weigh k nil b = b
weigh k (failed e) b = b

-- The loop breaks at a server that has just been chosen and holds no game.
unfoldable pub breaks : Reply ℕ → Best → Bool
unfolding replaces
breaks (ok n) b = replaces n b && n == 0
breaks nil b = false
breaks (failed e) b = false

abbrev pub nobody : Best
nobody = record { key = []; load = negsuc 0 }

module _ (r : Redis) where
  open r use {Db, smembers, srem, hlen, hgetall, hset, del}

  -- The loop over the keys of the index.
  unfoldable pub choose : List Text → Text → Best → Db → Best × Db
  unfolding weigh breaks
  choose [] unhandled b d = (b, d)
  choose (k ∷ ks) unhandled b d = elim (text_eqb k unhandled) [
    | true ↦ choose ks unhandled b d
    | false ↦
        let (reply, d') = hlen k d in
        let b' = weigh k reply b in
        elim (breaks reply b) [ true ↦ (b', d') | false ↦ choose ks unhandled b' d' ]
  ]

  -- rdb.HSet(ctx, curKey, gameid, instanceid)
  unfoldable pub put_game : Text → ℤ → ℤ → Db → Option AllocError × Db
  put_game key gameid instance_id d =
      let (reply, d') = hset key (format_int gameid) (format_int instance_id) d in
      elim reply [
        | ok u ↦ (none, d')
        | nil ↦ (some db_nil, d')
        | failed e ↦ (some (db_failed e), d')
      ]

  -- From the chosen key on. `SRem` is called with no member.
  unfoldable pub place_game : Text → ℤ → Db → Option AllocError × Db
  unfolding put_game
  place_game key gameid d =
      if text_eqb key []
      then (some (no_gserver gameid), d)
      else elim (sscanf gserver games_suffix key) [
        | none ↦ (some invalid_key, (srem key [] d).1)
        | some instance_id ↦ put_game key gameid instance_id d
      ]

  unfoldable pub allocate_game : ℤ → Text → Db → Option AllocError × Db
  unfolding choose place_game
  allocate_game gameid unhandled d =
      let (reply, d') = smembers index_key d in
      elim reply [
        | ok keys ↦
            let (best, d'') = choose keys unhandled nobody d' in place_game best.key gameid d''
        | nil ↦ (some db_nil, d')
        | failed e ↦ (some (db_failed e), d')
      ]

  -- The loop over a server's games: `true` is failedAlloc. A key that is no number is skipped.
  unfoldable pub move_games : Map Text Text → Text → Db → Bool × Db
  unfolding allocate_game
  move_games [] unhandled d = (false, d)
  move_games ((game, v) ∷ games) unhandled d = elim (atoi game) [
    | none ↦ move_games games unhandled d
    | some id ↦
        let (err, d') = allocate_game id unhandled d in
        elim err [ none ↦ move_games games unhandled d' | some e ↦ (true, d') ]
  ]

  -- SRem and then Del, which is skipped where SRem fails.
  unfoldable pub drop_server : Text → Db → Db
  drop_server games_key d =
      let (reply, d') = srem index_key (games_key ∷ []) d in
      elim reply [ ok u ↦ (del games_key d').1 | nil ↦ d' | failed e ↦ d' ]

  unfoldable pub finish_server : Text → Bool × Db → Db
  unfolding drop_server
  finish_server games_key (failed_alloc, d) = if failed_alloc then d else drop_server games_key d

  unfoldable pub reallocate_server : Text → Db → Db
  unfolding move_games finish_server
  reallocate_server games_key d =
      let (reply, d') = hgetall games_key d in
      elim reply [
        | ok games ↦ finish_server games_key (move_games games games_key d')
        | nil ↦ (srem index_key (games_key ∷ []) d').1
        | failed e ↦ d'
      ]

  -- It returns nil whatever happens: the result is the database.
  unfoldable pub reallocate_games : List ℤ → Db → Db
  unfolding reallocate_server
  reallocate_games [] d = d
  reallocate_games (id ∷ ids) d = reallocate_games ids (reallocate_server (games_key id) d)
