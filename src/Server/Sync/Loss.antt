-- ===== src/Server/Sync/Loss.antt =====
-- Where the queue of joining players goes wrong: its entries for boards of other servers are
-- discarded, and a full board takes one more player.
use orbstrike.Common.{
  ℕ, ◌<◌, ◌≡◌, refl, ap, inl, inr, [], ◌∷◌, none, some, Text, ℤ, pos, int32, Map, lookup, insert,
  int_eq, eqb_ℤ_iff, delete_absent, atoi, All, arith, length, Option-cases,
}
use orbstrike.Redis.{Redis, ok}
use orbstrike.Server.Game.{Player, GameBoard}
use orbstrike.Server.State.{Server}
use orbstrike.Server.Codec.{Codec}
use orbstrike.Server.Sync.{queue_key, add_player, add_queue, add_players}
use orbstrike.Server.Sync.Queue.{Seatable, add_player-seated, lookup-set_board_players}

-- No board of the server has the number of the entry.
abbrev pub Foreign : {F : Type 0} → Text → Server F → Type 0
Foreign board_id_str s = (n : ℤ) → atoi board_id_str ≡ some n → lookup (int32 n) s.boards ≡ none

module _ {F : Type 0} (c : Codec F) where
  add_player-Foreign :
      (player_str board_id_str : Text) (s : Server F)
      → Foreign board_id_str s
      → add_player c player_str board_id_str s ≡ s
  unfolding add_player
  add_player-Foreign player_str board_id_str s f = elim (Option-cases (atoi board_id_str)) [
    | inl e ↦ rw (e, add_player)
    | inr (n, e) ↦ rw (e, add_player) (rw (f n e, add_player))
  ]

  add_queue-Foreign :
      (queue : Map Text Text) (s : Server F)
      → All (λ e. Foreign e.1 s) queue
      → add_queue c queue s ≡ s
  unfolding add_queue
  add_queue-Foreign [] s f = refl
  add_queue-Foreign ((player_str, board_id_str) ∷ queue) s f =
      rw (add_player-Foreign player_str board_id_str s f.0) (add_queue-Foreign queue s f.1)

  -- The queue is one for all servers: a server that has none of its entries' boards seats nobody,
  -- and still deletes the whole queue.
  pub add_players-discards :
      (r : Redis) (s : Server F) (d : r.Db) (queue : Map Text Text)
      → (r.hgetall queue_key d).0 ≡ ok queue
      → All (λ e. Foreign e.1 s) queue
      → add_players r c s d
        ≡ record { err = none; srv = s; db = (r.del queue_key (r.hgetall queue_key d).1).1 }
  unfolding add_players
  add_players-discards r s d queue e f = rw (e, add_players) (rw (add_queue-Foreign queue s f))

  -- A new player is seated on a full board too: the board then has more players than its maximum.
  pub add_player-overfills :
      (player_str board_id_str : Text) (p : Player F) (s : Server F)
      → (w : Seatable c player_str board_id_str p s) → lookup p.id w.board.players ≡ none
      → w.board.max_players ≡ pos (length w.board.players)
      → (b : GameBoard F) × (lookup
            (int32 w.board_id)
            (add_player c player_str board_id_str s).boards
          ≡ some b)
        × (n : ℕ) × (b.max_players ≡ pos n)
        × (n < length b.players)
  unfolding insert
  add_player-overfills player_str board_id_str p s w new full =
      let ps = insert p.id p w.board.players in
      (
        record (w.board) { players = ps },
        ground (
          arith,
          add_player-seated c player_str board_id_str p s w,
          lookup-set_board_players (int32 w.board_id) (int32 w.board_id) w.board ps s,
          eqb_ℤ_iff (int32 w.board_id) (int32 w.board_id),
        ),
        length w.board.players,
        full,
        omega (arith, ap length (delete_absent p.id w.board.players new)),
      )
