-- ===== src/Orchestrator/Algo/Searchers.antt =====
-- orchestrator/algo/searchers.go.
use orbstrike.Common.{
  List, [], ◌∷◌, Option, none, some, Text, ℤ, lookup, text_eq, format_int, sscanf,
}
use orbstrike.Redis.{Redis, Reply, ok, nil, failed}
use orbstrike.Keys.{index_key, gserver, game_suffix, addr_key}

-- The pair (address, error); the error of the database is its text.
pub record Found : Type 0 where
  pub addr : Text
  pub err : Option Text

abbrev pub not_found : Found
not_found = record { addr = []; err = none }

-- err and value of a Get that the caller tells apart from redis.Nil
unfoldable pub found_addr : Reply Text → Found
found_addr (ok addr) = record { addr = addr; err = none }
found_addr nil = not_found
found_addr (failed e) = record { addr = []; err = some e }

module _ (r : Redis) where
  open r use {Db, smembers, hgetall, get}

  unfoldable pub search_servers : List Text → Text → Db → Found × Db
  unfolding found_addr
  search_servers [] gameid d = (not_found, d)
  search_servers (key ∷ keys) gameid d =
      let (reply, d') = hgetall key d in
      elim reply [
        | ok games ↦ elim (lookup gameid games) [
          | none ↦ search_servers keys gameid d'
          | some instance_id ↦
              let (addr, d'') = get (addr_key instance_id) d' in (found_addr addr, d'')
        ]
        | nil ↦ search_servers keys gameid d'
        | failed e ↦ search_servers keys gameid d'
      ]

  -- A failed SMembers leaves no servers to search.
  unfoldable pub find_gserver : Text → Db → Found × Db
  unfolding search_servers
  find_gserver gameid d =
      let (reply, d') = smembers index_key d in
      elim reply [
        | ok keys ↦ search_servers keys gameid d'
        | nil ↦ (not_found, d')
        | failed e ↦ (not_found, d')
      ]

  -- A server is unhandled if its address is gone: a failed Get says nothing about it.
  abbrev pub is_gone : Reply Text → List ℤ → ℤ → List ℤ
  is_gone nil ids id = id ∷ ids
  is_gone (ok a) ids id = ids
  is_gone (failed e) ids id = ids

  unfoldable pub find_unhandled_game_maps : List Text → Db → List ℤ × Db
  find_unhandled_game_maps [] d = ([], d)
  find_unhandled_game_maps (key ∷ keys) d = elim (sscanf gserver game_suffix key) [
    | none ↦ find_unhandled_game_maps keys d
    | some id ↦
        let (reply, d') = get (addr_key (format_int id)) d in
        let (ids, d'') = find_unhandled_game_maps keys d' in (is_gone reply ids id, d'')
  ]
