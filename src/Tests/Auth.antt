-- ===== src/Tests/Auth.antt =====
-- The requests of sauth at concrete inputs: a game is created, Ada joins a game and leaves it.
use orbstrike.Common.{
  ◌≡◌, ◌+ℤ◌, refl, [], ◌∷◌, none, some, pos, lookup, insert, text_eq, text_eqb, codes, arith,
  format_int, atoi, sscanf, put_uint64, uint64, to_word, of_word, int32, int_eq, length, ◌≤◌,
}
use orbstrike.Keys.{index_key, games_key, gserver, games_suffix}
use orbstrike.Redis.{ok}
use orbstrike.Redis.Memory.{Store, memory, memory-IsRedis, set_at, hash_at, empty}
use orbstrike.Server.Codec.{Codec}
use orbstrike.Server.Crypto.{decrypt_user_key}
use orbstrike.Server.Sync.{exitqueue_key, queue_key, game_key, remove_players}
use orbstrike.Server.Sync.Queue.{Absent}
use orbstrike.Orchestrator.Crypto.{
  encrypt_user_key, decrypt_user_key as orchestrator_decrypt_user_key,
}
use orbstrike.Orchestrator.Algo.Allocators.{allocate_game}
use orbstrike.Orchestrator.Auth.{AuthServer}
use orbstrike.Orchestrator.Auth.Create.{
  CreateGameRequest, created, create_game, identifier_key, game_counter,
}
use orbstrike.Orchestrator.Auth.Join.{
  JoinGameRequest, joined, join_game, player_counter, max_username_chars,
}
use orbstrike.Orchestrator.Auth.Exit.{ExitGameRequest, exited, exit_game}
use orbstrike.Orchestrator.Auth.Limits.{Counted, Founded, create_game-Founded}
use orbstrike.Orchestrator.Auth.Tickets.{Roomy, join_game-Opens}
use orbstrike.Orchestrator.Auth.Leaves.{exit_game-Absent}
use orbstrike.Tests.Samples.{whole, tagged, tagged-IsAead, ada_key, arena, cids, server}
use orbstrike.Tests.Cluster.{cluster}

abbrev auth : AuthServer
auth = record {
  game_lifetime = pos 3600000000000;
  daily_user_game_limit = pos 10;
  game_join_timeout_sec = pos 5;
  server_secret = [];
}

abbrev small : CreateGameRequest whole.F
small = record {
  identifier = [];
  radius = pos 100;
  maxplayers = pos 2;
  speed = pos 10;
  playerradius = pos 5;
  playerringradius = pos 9;
}

small_created : (create_game whole memory cids auth small cluster).0 ≡ created (pos 1)
unfolding create_game allocate_game identifier_key game_counter game_key set_at hash_at lookup
    index_key games_key sscanf text_eqb codes gserver format_int games_suffix int32 atoi ◌+ℤ◌ insert
small_created = refl

create_game-Founded_example :
    Counted whole memory memory-IsRedis cids auth small cluster
    × Founded whole memory memory-IsRedis cids auth small
        (pos 1)
        (create_game whole memory cids auth small cluster).1
create_game-Founded_example =
    create_game-Founded whole memory memory-IsRedis cids auth small (pos 1) cluster small_created

-- Every board decodes to the arena with seats for five.
abbrev wide : Codec whole.F
wide = record cids { unmarshal_board = λ t. some (record arena { max_players = pos 5 }) }

abbrev pub hosting : Store
hosting = record empty { strings = (game_key (pos 7), []) ∷ [] }

-- The gameserver empties the queue within a second.
abbrev emptied : Store → Store
emptied d = (memory.del queue_key d).1

abbrev ada_joins : JoinGameRequest
ada_joins = record { name = b'A' ∷ []; gameid = pos 7 }

ada_counted : (memory.incr player_counter hosting).0 ≡ ok (pos 1)
unfolding player_counter ◌+ℤ◌ lookup text_eqb game_key codes
ada_counted = refl

ada_joined :
    (join_game whole tagged memory wide auth 0 (some (9 ∷ 9 ∷ [])) emptied ada_joins hosting).0
    ≡ joined (pos 1) ada_key
unfolding join_game player_counter game_key queue_key encrypt_user_key hash_at lookup text_eqb codes
    format_int int32 put_uint64 to_word insert ◌+ℤ◌
ada_joined = refl

join_game-Opens_example :
    (length ada_joins.name ≤ max_username_chars)
    × Roomy whole memory wide (pos 7) (memory.incr player_counter hosting).1
    × (pos 1 ≡ int32 (pos 1))
    × (decrypt_user_key tagged ada_key [] ≡ some (record { id = pos 1; err = none }))
join_game-Opens_example =
    join_game-Opens whole tagged tagged-IsAead memory wide auth emptied 0 (9 ∷ 9 ∷ []) ada_joins
      (pos 1) (pos 1) ada_key hosting refl (omega arith) ada_counted ada_joined

abbrev ada_exits : ExitGameRequest
ada_exits = record { gameid = pos 7; userkey = ada_key }

abbrev leaving : Store
leaving = (memory.hset exitqueue_key (format_int (pos 1)) (format_int (pos 7)) cluster).1

ada_opens :
    orchestrator_decrypt_user_key tagged ada_key [] ≡ some (record { id = pos 1; err = none })
unfolding orchestrator_decrypt_user_key uint64 of_word
ada_opens = refl

ada_exited : exit_game tagged memory auth ada_exits cluster ≡ some (exited, leaving)
unfolding exit_game orchestrator_decrypt_user_key uint64 of_word
ada_exited = refl

-- Another player has left in between.
abbrev later : Store
later = (memory.hset exitqueue_key (format_int (pos 2)) (format_int (pos 7)) leaving).1

bob_leaves :
    memory.field later exitqueue_key (format_int (pos 1))
    ≡ memory.field leaving exitqueue_key (format_int (pos 1))
unfolding hash_at lookup insert text_eqb exitqueue_key codes format_int
bob_leaves = refl

exit_game-Absent_example :
    Absent (pos 7) (int32 (pos 1)) (remove_players memory cids server later).srv
unfolding remove_players
exit_game-Absent_example =
    exit_game-Absent tagged memory memory-IsRedis auth cids ada_exits (pos 1) server cluster leaving
      later (omega arith) (omega arith) ada_opens ada_exited bob_leaves refl
