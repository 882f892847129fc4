-- ===== src/Server/Sync.antt =====
-- server/gsync/gsync.go: the gameserver's boards against the shared database. The log is left out.
-- A board is updated through its pointer, which shows in the map; each update runs under the lock.
pub mod Queue
pub mod Loss
pub mod Leaving
pub mod Collecting
pub mod Boards
pub mod Schedule
pub mod Steps
use orbstrike.Common.{
  ℕ, Bool, List, [], ◌∷◌, ◌++◌, Option, none, some, Text, codes, ℤ, int32, Map, lookup, insert,
  delete, int_eq, atoi, format_int,
}
use orbstrike.Redis.{Redis, Reply, ok, nil, failed, keep_ttl}
use orbstrike.Keys.{index_key, games_key}
use orbstrike.Server.Game.{Player, GameBoard}
use orbstrike.Server.State.{Server}
use orbstrike.Server.Codec.{Codec}

pub data SyncError : Type 0 where
  db_nil : SyncError
  db_failed : Text → SyncError

unfoldable pub queue_key : Text
queue_key = codes "game:queue"

unfoldable pub exitqueue_key : Text
exitqueue_key = codes "game:exitqueue"

-- Sprintf("game:%d", id)
unfoldable pub game_key : ℤ → Text
game_key id = codes "game:" ++ format_int id

module _ {F : Type 0} where
  -- srv.Boards[g].Players = players
  unfoldable pub set_board_players : ℤ → GameBoard F → Map ℤ (Player F) → Server F → Server F
  set_board_players g board players s = record s {
    boards = insert g (record board { players = players }) s.boards;
  }

module _ {F : Type 0} (c : Codec F) where
  unfoldable pub seat_player : ℤ → GameBoard F → Text → Server F → Server F
  unfolding set_board_players
  seat_player g board player_str s = elim (c.unmarshal_player player_str) [
    | none ↦ s
    | some p ↦ set_board_players g board (insert p.id p board.players) s
  ]

  -- One entry of the queue: an encoded player, and the number of its board.
  unfoldable pub add_player : Text → Text → Server F → Server F
  unfolding seat_player
  add_player player_str board_id_str s = elim (atoi board_id_str) [
    | none ↦ s
    | some board_id ↦ elim (lookup (int32 board_id) s.boards) [
      | none ↦ s
      | some board ↦ seat_player (int32 board_id) board player_str s
    ]
  ]

  unfoldable pub add_queue : Map Text Text → Server F → Server F
  unfolding add_player
  add_queue [] s = s
  add_queue ((player_str, board_id_str) ∷ queue) s =
      add_queue queue (add_player player_str board_id_str s)

module _ {F : Type 0} where
  unfoldable pub unseat_player : ℤ → GameBoard F → Text → Server F → Server F
  unfolding set_board_players
  unseat_player g board player_id_str s = elim (atoi player_id_str) [
    | none ↦ s
    | some player_id ↦ elim (lookup (int32 player_id) board.players) [
      | none ↦ s
      | some p ↦ set_board_players g board (delete (int32 player_id) board.players) s
    ]
  ]

  -- One entry of the exit queue: the number of a player, and the number of its board.
  unfoldable pub remove_player : Text → Text → Server F → Server F
  unfolding unseat_player
  remove_player player_id_str board_id_str s = elim (atoi board_id_str) [
    | none ↦ s
    | some board_id ↦ elim (lookup (int32 board_id) s.boards) [
      | none ↦ s
      | some board ↦ unseat_player (int32 board_id) board player_id_str s
    ]
  ]

  unfoldable pub remove_queue : Map Text Text → Server F → Server F
  unfolding remove_player
  remove_queue [] s = s
  remove_queue ((player_id_str, board_id_str) ∷ queue) s =
      remove_queue queue (remove_player player_id_str board_id_str s)

-- The error, the server and the database after a call.
pub record Outcome (F : Type 0) (Db : Type 0) : Type 0 where
  pub err : Option SyncError
  pub srv : Server F
  pub db : Db

module _ (r : Redis) {F : Type 0} (c : Codec F) where
  open r use {Db, hgetall, hdel, get, set_string, sadd, del}

  -- A missing queue is no error; the queue is deleted once it is read through.
  unfoldable pub add_players : Server F → Db → Outcome F Db
  unfolding add_queue
  add_players s d =
      let (reply, d') = hgetall queue_key d in
      elim reply [
        | ok queue ↦ record { err = none; srv = add_queue c queue s; db = (del queue_key d').1 }
        | nil ↦ record { err = none; srv = s; db = d' }
        | failed e ↦ record { err = some (db_failed e); srv = s; db = d' }
      ]

  unfoldable pub remove_players : Server F → Db → Outcome F Db
  unfolding remove_queue
  remove_players s d =
      let (reply, d') = hgetall exitqueue_key d in
      elim reply [
        | ok queue ↦ record {
          err = none;
          srv = remove_queue queue s;
          db = (del exitqueue_key d').1;
        }
        | nil ↦ record { err = none; srv = s; db = d' }
        | failed e ↦ record { err = some (db_failed e); srv = s; db = d' }
      ]

  -- Every board is written back; one that cannot be encoded or written is skipped.
  unfoldable pub save_boards : Map ℤ (GameBoard F) → Db → Db
  save_boards [] d = d
  save_boards ((k, board) ∷ boards) d = elim (c.marshal_board board) [
    | none ↦ save_boards boards d
    | some enc ↦ save_boards boards (set_string (game_key k) enc keep_ttl d).1
  ]

  -- A board that is not loaded yet: a game that is gone is taken off the server's map.
  unfoldable pub load_board : Text → Text → ℤ → Map ℤ (GameBoard F) → Db → Map ℤ (GameBoard F) × Db
  load_board games_key strkey key buf d =
      let (reply, d') = get (game_key key) d in
      elim reply [
        | nil ↦ (buf, (hdel games_key strkey d').1)
        | failed e ↦ (buf, d')
        | ok enc ↦ elim (c.unmarshal_board enc) [
          | none ↦ (buf, d')
          | some board ↦ (insert (int32 key) board buf, d')
        ]
      ]

  -- One key of the server's map.
  unfoldable pub collect_one :
      Text → Text → Map ℤ (GameBoard F) → Map ℤ (GameBoard F) → Db → Map ℤ (GameBoard F) × Db
  unfolding load_board
  collect_one games_key strkey boards buf d = elim (atoi strkey) [
    | none ↦ (buf, d)
    | some key ↦ elim (lookup (int32 key) boards) [
      | some board ↦ (insert (int32 key) board buf, d)
      | none ↦ load_board games_key strkey key buf d
    ]
  ]

  unfoldable pub collect :
      Text
      → Map Text Text
      → Map ℤ (GameBoard F)
      → Map ℤ (GameBoard F)
      → Db
      → Map ℤ (GameBoard F) × Db
  unfolding collect_one
  collect games_key [] boards buf d = (buf, d)
  collect games_key ((strkey, v) ∷ games) boards buf d =
      let (buf', d') = collect_one games_key strkey boards buf d in
      collect games_key games boards buf' d'

  unfoldable pub swap_boards : Text → Map Text Text → Server F → Db → Outcome F Db
  unfolding collect
  swap_boards games_key games s d =
      let (buf, d') = collect games_key games s.boards [] d in
      record { err = none; srv = record s { boards = buf }; db = d' }

  unfoldable pub enlist : Text → Map Text Text → Server F → Db → Outcome F Db
  unfolding swap_boards
  enlist games_key games s d =
      let (reply, d') = sadd index_key games_key d in
      elim reply [
        | ok u ↦ swap_boards games_key games s d'
        | nil ↦ record { err = some db_nil; srv = s; db = d' }
        | failed e ↦ record { err = some (db_failed e); srv = s; db = d' }
      ]

  unfoldable pub sync_board_states : ℤ → Server F → Db → Outcome F Db
  unfolding save_boards enlist
  sync_board_states gserver_id s d =
      let (reply, d') = hgetall (games_key gserver_id) (save_boards s.boards d) in
      elim reply [
        | ok games ↦ enlist (games_key gserver_id) games s d'
        | nil ↦ record { err = some db_nil; srv = s; db = d' }
        | failed e ↦ record { err = some (db_failed e); srv = s; db = d' }
      ]
