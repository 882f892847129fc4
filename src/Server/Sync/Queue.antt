-- ===== src/Server/Sync/Queue.antt =====
-- What the two queues do to the boards.
use orbstrike.Common.{
  ◌≡◌, sym, ap, ◌∙◌, ◌⊎◌, inl, inr, [], ◌∷◌, none, some, Text, ℤ, int32, Map, lookup, insert,
  int_eq, eqb_ℤ, eqb_ℤ_iff, eq_cases, lookup-insert, atoi, In, arith, some_inj, if◌then◌else◌,
  Option-cases,
}
use orbstrike.Server.Game.{Player, GameBoard}
use orbstrike.Server.State.{Server}
use orbstrike.Server.Codec.{Codec}
use orbstrike.Server.Sync.{set_board_players, seat_player, add_player, add_queue}

module _ {F : Type 0} where
  -- A player `id` is on the loaded board `g`.
  pub record Sits (g id : ℤ) (s : Server F) : Type 0 where
    pub board : GameBoard F
    pub player : Player F
    pub found : lookup g s.boards ≡ some board
    pub present : lookup id board.players ≡ some player

  -- The board `g`, if it is loaded, has no player `id`.
  abbrev pub Absent : ℤ → ℤ → Server F → Type 0
  Absent g id s = (b : GameBoard F) → lookup g s.boards ≡ some b → lookup id b.players ≡ none

  pub lookup-set_board_players :
      (g j : ℤ) (b : GameBoard F) (ps : Map ℤ (Player F)) (s : Server F)
      → lookup j (set_board_players g b ps s).boards
        ≡ (if eqb_ℤ g j then some (record b { players = ps }) else lookup j s.boards)
  unfolding set_board_players
  lookup-set_board_players g j b ps s = lookup-insert g j (record b { players = ps }) s.boards

  Sits-insert :
      (g h id : ℤ) (b : GameBoard F) (p : Player F) (s : Server F)
      → lookup h s.boards ≡ some b
      → Sits g id s
      → Sits g id (set_board_players h b (insert p.id p b.players) s)
  Sits-insert g h id b p s e v = elim (eq_cases h g) [
    | inr ne ↦ record {
      board = v.board;
      player = v.player;
      found =
          ground
            (arith, v, lookup-set_board_players h g b (insert p.id p b.players) s, eqb_ℤ_iff h g);
      present = v.present;
    }
    | inl q ↦ record {
      board = record b { players = insert p.id p b.players };
      player = if eqb_ℤ p.id id then p else v.player;
      found =
          ground (arith, lookup-set_board_players h g b (insert p.id p b.players) s, eqb_ℤ_iff h g);
      present =
          let same : v.board ≡ b =
            some_inj (sym v.found ∙ ap (λ x. lookup x s.boards) (sym q) ∙ e) in
          ground (
            arith,
            ap (λ (x : GameBoard F). lookup id x.players) same,
            v.present,
            lookup-insert p.id id p b.players,
          );
    }
  ]

module _ {F : Type 0} (c : Codec F) where
  -- A queued player that can be seated: the entry decodes and its board is loaded.
  pub record Seatable (player_str board_id_str : Text) (p : Player F) (s : Server F) : Type 0 where
    pub board_id : ℤ
    pub numbered : atoi board_id_str ≡ some board_id
    pub board : GameBoard F
    pub loaded : lookup (int32 board_id) s.boards ≡ some board
    pub decoded : c.unmarshal_player player_str ≡ some p

  pub add_player-seated :
      (player_str board_id_str : Text) (p : Player F) (s : Server F)
      → (w : Seatable player_str board_id_str p s)
      → add_player c player_str board_id_str s
        ≡ set_board_players (int32 w.board_id) w.board (insert p.id p w.board.players) s
  unfolding add_player
  add_player-seated player_str board_id_str p s w =
      rw (w.numbered, add_player) (rw (w.loaded, add_player) (rw (w.decoded, seat_player)))

  -- What an entry does: it seats its player, or nothing.
  pub data Entry (player_str board_id_str : Text) (s t : Server F) : Type 0 where
    seats :
        (p : Player F) → Seatable player_str board_id_str p s → Entry player_str board_id_str s t
    skips : t ≡ s → Entry player_str board_id_str s t

  seat_player-cases :
      (g : ℤ) (b : GameBoard F) (t : Text) (s : Server F)
      → ((p : Player F) × (c.unmarshal_player t ≡ some p)) ⊎ (seat_player c g b t s ≡ s)
  unfolding seat_player
  seat_player-cases g b t s = elim (Option-cases (c.unmarshal_player t)) [
    | inl e ↦ inr (rw (e, seat_player))
    | inr (p, e) ↦ inl (p, e)
  ]

  pub add_player-Entry :
      (player_str board_id_str : Text) (s : Server F)
      → Entry player_str board_id_str s (add_player c player_str board_id_str s)
  unfolding add_player
  add_player-Entry player_str board_id_str s = elim (Option-cases (atoi board_id_str)) [
    | inl e ↦ skips (rw (e, add_player))
    | inr (n, e) ↦ elim (Option-cases (lookup (int32 n) s.boards)) [
      | inl e' ↦ skips (rw (e, add_player) (rw (e', add_player)))
      | inr (b, e') ↦ elim (seat_player-cases (int32 n) b player_str s) [
        | inl (p, e'') ↦
            seats p (record { board_id = n; numbered = e; board = b; loaded = e'; decoded = e'' })
        | inr q ↦ skips (rw (e, add_player) (rw (e', add_player) q))
      ]
    ]
  ]

  Sits-add_player :
      (g id : ℤ) (player_str board_id_str : Text) (s : Server F)
      → Sits g id s
      → Sits g id (add_player c player_str board_id_str s)
  Sits-add_player g id player_str board_id_str s v =
      elim (add_player-Entry player_str board_id_str s) [
        | seats p w ↦
            rw (add_player-seated player_str board_id_str p s w)
              (Sits-insert g (int32 w.board_id) id w.board p s w.loaded v)
        | skips q ↦ rw q v
      ]

  -- A loaded board stays loaded.
  Loaded-add_player :
      (g : ℤ) (player_str board_id_str : Text) (b : GameBoard F) (s : Server F)
      → lookup g s.boards ≡ some b
      → (b' : GameBoard F) × (lookup g (add_player c player_str board_id_str s).boards ≡ some b')
  Loaded-add_player g player_str board_id_str b s h =
      elim (add_player-Entry player_str board_id_str s) [
        | seats p w ↦
            let ps = insert p.id p w.board.players in
            (
              if eqb_ℤ (int32 w.board_id) g then record (w.board) { players = ps } else b,
              ground (
                arith,
                add_player-seated player_str board_id_str p s w,
                lookup-set_board_players (int32 w.board_id) g w.board ps s,
              ),
            )
        | skips q ↦ (b, rw q h)
      ]

  Sits-add_queue :
      (g id : ℤ) (queue : Map Text Text) (s : Server F)
      → Sits g id s
      → Sits g id (add_queue c queue s)
  unfolding add_queue
  Sits-add_queue g id [] s v = v
  Sits-add_queue g id ((player_str, board_id_str) ∷ queue) s v =
      Sits-add_queue g id queue _ (Sits-add_player g id player_str board_id_str s v)

  Sits-seated :
      (player_str board_id_str : Text) (p : Player F) (s : Server F)
      → (w : Seatable player_str board_id_str p s)
      → Sits (int32 w.board_id) p.id (add_player c player_str board_id_str s)
  Sits-seated player_str board_id_str p s w =
      let ps = insert p.id p w.board.players in
      rw (add_player-seated player_str board_id_str p s w) (record {
        board = record (w.board) { players = ps };
        player = p;
        found = ground (
          arith,
          lookup-set_board_players (int32 w.board_id) (int32 w.board_id) w.board ps s,
          eqb_ℤ_iff (int32 w.board_id) (int32 w.board_id),
        );
        present = ground (arith, lookup-insert p.id p.id p w.board.players, eqb_ℤ_iff p.id p.id);
      })

  -- Every entry of the queue that decodes, for a board that is loaded, has its player on that board
  -- once the queue is read through, and whoever was on a board stays there.
  pub add_queue-Sits :
      (queue : Map Text Text) (player_str board_id_str : Text) (p : Player F) (s : Server F)
      → In (player_str, board_id_str) queue
      → (w : Seatable player_str board_id_str p s)
      → Sits (int32 w.board_id) p.id (add_queue c queue s)
        × ((g id : ℤ) → Sits g id s → Sits g id (add_queue c queue s))
  unfolding add_queue
  add_queue-Sits [] player_str board_id_str p s m w = absurd m
  add_queue-Sits ((x, y) ∷ queue) player_str board_id_str p s (inl e) w =
      let ex : x ≡ player_str = ap (λ (q : Text × Text). q.0) e in
      let ey : y ≡ board_id_str = ap (λ (q : Text × Text). q.1) e in
      (
        Sits-add_queue (int32 w.board_id) p.id queue _
            (rw (ex, ey) (Sits-seated player_str board_id_str p s w)),
        λ g id v. Sits-add_queue g id ((x, y) ∷ queue) s v,
      )
  add_queue-Sits ((x, y) ∷ queue) player_str board_id_str p s (inr m) w =
      let (b, l) = Loaded-add_player (int32 w.board_id) x y w.board s w.loaded in
      let w' : Seatable player_str board_id_str p (add_player c x y s) = record {
        board_id = w.board_id;
        numbered = w.numbered;
        board = b;
        loaded = l;
        decoded = w.decoded;
      } in
      (
        (add_queue-Sits queue player_str board_id_str p (add_player c x y s) m w').0,
        λ g id v. Sits-add_queue g id ((x, y) ∷ queue) s v,
      )
