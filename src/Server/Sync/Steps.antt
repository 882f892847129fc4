-- ===== src/Server/Sync/Steps.antt =====
-- What the synchronisation of server/gsync/gsync.go does to the server under one hold of the lock.
use orbstrike.Common.{int32, insert, delete, int_eq, ◌≡◌, refl, Text, Map, ℤ}
use orbstrike.Redis.{Redis}
use orbstrike.Server.Game.{Player, GameBoard}
use orbstrike.Server.State.{Server}
use orbstrike.Server.Codec.{Codec}
use orbstrike.Server.Sync.{add_player, remove_player, swap_boards, set_board_players}
use orbstrike.Server.Sync.Queue.{seats, skips, add_player-Entry, add_player-seated}
use orbstrike.Server.Sync.Leaving.{Exit, leaves, stays, remove_player-Exit}

-- An entry of the queue or of the exit queue, or the boards that syncBoardStates has collected.
-- Boards are collected by pointer, so they show what the others do until they are stored.
pub data SyncStep (r : Redis) {F : Type 0} (c : Codec F) (s t : Server F) : Type 0 where
  joins : (x y : Text) → t ≡ add_player c x y s → SyncStep r c s t
  exits : (x y : Text) → t ≡ remove_player x y s → SyncStep r c s t
  swaps :
      (key : Text) (games : Map Text Text) (d : r.Db)
      → t ≡ (swap_boards r c key games s d).srv
      → SyncStep r c s t

-- Nothing but the boards has changed.
pub record Aside {F : Type 0} (s t : Server F) : Type 0 where
  pub requests : t.session_requests ≡ s.session_requests
  pub responses : t.session_responses ≡ s.session_responses
  pub secret : t.server_secret ≡ s.server_secret
  pub messages : t.game_over_messages ≡ s.game_over_messages

module _ {F : Type 0} where
  Aside-refl : (s t : Server F) → t ≡ s → Aside s t
  Aside-refl s t q =
      rw q (record { requests = refl; responses = refl; secret = refl; messages = refl })

  Aside-set_board_players :
      (g : ℤ) (b : GameBoard F) (ps : Map ℤ (Player F)) (s t : Server F)
      → t ≡ set_board_players g b ps s
      → Aside s t
  unfolding set_board_players
  Aside-set_board_players g b ps s t q =
      rw q (record { requests = refl; responses = refl; secret = refl; messages = refl })

  Exit-Aside : {x y : Text} {s t : Server F} → Exit x y s t → Aside s t
  Exit-Aside {s} {t} (stays n q) = Aside-refl s t q
  Exit-Aside {s} {t} (leaves g id b w l q) = Aside-set_board_players g b (delete id b.players) s t q

module _ (r : Redis) {F : Type 0} (c : Codec F) where
  add_player-Aside : (x y : Text) (s : Server F) → Aside s (add_player c x y s)
  add_player-Aside x y s = elim (add_player-Entry c x y s) [
    | skips q ↦ Aside-refl s (add_player c x y s) q
    | seats p w ↦
        Aside-set_board_players (int32 w.board_id) w.board (insert p.id p w.board.players) s
          (add_player c x y s) (add_player-seated c x y p s w)
  ]

  pub SyncStep-Aside : (s t : Server F) → SyncStep r c s t → Aside s t
  unfolding swap_boards
  SyncStep-Aside s t (joins x y q) = rw q (add_player-Aside x y s)
  SyncStep-Aside s t (exits x y q) = rw q (Exit-Aside (remove_player-Exit x y s))
  SyncStep-Aside s t (swaps key games d q) =
      rw q (record { requests = refl; responses = refl; secret = refl; messages = refl })
