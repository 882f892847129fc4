-- ===== src/Tests/Boards.antt =====
-- The synchronisation at concrete inputs: the arena, board 7, is loaded.
use orbstrike.Common.{
  ℕ, ◌<◌, ◌≡◌, refl, inl, [], ◌∷◌, none, some, Text, ℤ, pos, lookup, Map, int32, int_eq, text_eq,
  text_eqb, codes, atoi, arith, length,
}
use orbstrike.Redis.Memory.{Store, memory, empty, hash_at}
use orbstrike.Server.Game.{GameBoard}
use orbstrike.Server.Sync.{
  queue_key, add_player, add_queue, remove_queue, add_players, sync_board_states, save_boards,
}
use orbstrike.Server.Sync.Queue.{Sits, Absent, Seatable, add_queue-Sits}
use orbstrike.Server.Sync.Loss.{Foreign, add_players-discards, add_player-overfills}
use orbstrike.Server.Sync.Leaving.{Names, remove_queue-Absent}
use orbstrike.Server.Sync.Boards.{SyncResult, sync_board_states-SyncResult}
use orbstrike.Keys.{games_key}
use orbstrike.Tests.Samples.{cid, cids, arena, server}

-- Cid waits for board 7.
abbrev queue : Map Text Text
queue = ([], b'7' ∷ []) ∷ []

cid-Seatable : Seatable cids [] (b'7' ∷ []) cid server
unfolding atoi lookup int32
cid-Seatable = record {
  board_id = pos 7;
  numbered = refl;
  board = arena;
  loaded = refl;
  decoded = refl;
}

add_queue-Sits_example :
    Sits (int32 cid-Seatable.board_id) (pos 3) (add_queue cids queue server)
    × ((g id : ℤ) → Sits g id server → Sits g id (add_queue cids queue server))
add_queue-Sits_example = add_queue-Sits cids queue [] (b'7' ∷ []) cid server (inl refl) cid-Seatable

add_player-overfills_example :
    (b : GameBoard ℤ) × (lookup
        (int32 cid-Seatable.board_id)
        (add_player cids [] (b'7' ∷ []) server).boards
      ≡ some b)
    × (n : ℕ) × (b.max_players ≡ pos n)
    × (n < length b.players)
unfolding cid-Seatable lookup
add_player-overfills_example =
    add_player-overfills cids [] (b'7' ∷ []) cid server cid-Seatable refl refl

-- Cid waits for board 8, which another server has.
abbrev foreign_queue : Map Text Text
foreign_queue = ([], b'8' ∷ []) ∷ []

abbrev waiting : Store
waiting = record empty { hashes = (queue_key, foreign_queue) ∷ [] }

Foreign-8 : Foreign (b'8' ∷ []) server
unfolding atoi lookup int32
Foreign-8 n h = ground arith

add_players-discards_example :
    add_players memory cids server waiting
    ≡ record { err = none; srv = server; db = (memory.del queue_key waiting).1 }
unfolding hash_at lookup queue_key text_eqb codes
add_players-discards_example =
    add_players-discards cids memory server waiting foreign_queue refl (Foreign-8, tt)

abbrev exits : Map Text Text
exits = (b'2' ∷ [], b'7' ∷ []) ∷ []

bob-Names : Names (b'2' ∷ []) (b'7' ∷ []) (pos 7) (pos 2)
unfolding atoi int32
bob-Names = record {
  board_id = pos 7;
  board_read = refl;
  board = refl;
  player_id = pos 2;
  player_read = refl;
  player = refl;
}

remove_queue-Absent_example : Absent (pos 7) (pos 2) (remove_queue exits server)
remove_queue-Absent_example =
    remove_queue-Absent exits (b'2' ∷ []) (b'7' ∷ []) (pos 7) (pos 2) server (inl refl) bob-Names

sync_board_states-SyncResult_example :
    SyncResult
      (memory.hgetall (games_key (pos 3)) (save_boards memory cids server.boards empty)).0
      server
      (sync_board_states memory cids (pos 3) server empty)
sync_board_states-SyncResult_example = sync_board_states-SyncResult memory cids (pos 3) server empty
