-- ===== src/Server/Sync/Leaving.antt =====
-- What the queue of leaving players does to the boards.
use orbstrike.Common.{
  ◌≡◌, refl, sym, ap, ◌∙◌, inl, inr, [], ◌∷◌, none, some, Text, ℤ, int32, Map, lookup, delete,
  int_eq, eqb_ℤ_iff, eq_cases, lookup-delete, atoi, In, arith, some_inj, Option-cases,
}
use orbstrike.Server.Game.{GameBoard}
use orbstrike.Server.State.{Server}
use orbstrike.Server.Sync.{set_board_players, unseat_player, remove_player, remove_queue}
use orbstrike.Server.Sync.Queue.{Absent, lookup-set_board_players}

-- An entry of the exit queue that names the player `id` of the board `g`.
pub record Names (player_id_str board_id_str : Text) (g id : ℤ) : Type 0 where
  pub board_id : ℤ
  pub board_read : atoi board_id_str ≡ some board_id
  pub board : int32 board_id ≡ g
  pub player_id : ℤ
  pub player_read : atoi player_id_str ≡ some player_id
  pub player : int32 player_id ≡ id

module _ {F : Type 0} where
  -- An entry takes its player off its board, or does nothing.
  pub data Exit (player_id_str board_id_str : Text) (s t : Server F) : Type 0 where
    leaves :
        (g id : ℤ) (b : GameBoard F)
        → Names player_id_str board_id_str g id
        → lookup g s.boards ≡ some b
        → t ≡ set_board_players g b (delete id b.players) s
        → Exit player_id_str board_id_str s t
    stays :
        ((g id : ℤ) → Names player_id_str board_id_str g id → Absent g id s)
        → t ≡ s
        → Exit player_id_str board_id_str s t

module _ {F : Type 0} (player_id_str board_id_str : Text) (s : Server F) where
  unreadable_board :
      atoi board_id_str ≡ none
      → Exit player_id_str board_id_str s (remove_player player_id_str board_id_str s)
  unfolding remove_player
  unreadable_board e = stays (λ g id w b h. cc (e, w.board_read)) (rw (e, remove_player))

  unloaded_board :
      (n : ℤ)
      → atoi board_id_str ≡ some n
      → lookup (int32 n) s.boards ≡ none
      → Exit player_id_str board_id_str s (remove_player player_id_str board_id_str s)
  unfolding remove_player
  unloaded_board n e e' =
      stays
        (λ g id w b h.
          let q : n ≡ w.board_id = some_inj (sym e ∙ w.board_read) in cc (q, w.board, e', h))
        (rw (e, remove_player) (rw (e', remove_player)))

  loaded_board :
      (n : ℤ) (b : GameBoard F)
      → atoi board_id_str ≡ some n
      → lookup (int32 n) s.boards ≡ some b
      → Exit player_id_str board_id_str s (remove_player player_id_str board_id_str s)
  unfolding remove_player
  loaded_board n b e e' = elim (Option-cases (atoi player_id_str)) [
    | inl u ↦
        stays (λ g id w b h. cc (u, w.player_read))
          (rw (e, remove_player) (rw (e', remove_player) (rw (u, unseat_player))))
    | inr (m, u) ↦ elim (Option-cases (lookup (int32 m) b.players)) [
      | inr (p, v) ↦
          leaves (int32 n) (int32 m) b
            (record {
              board_id = n;
              board_read = e;
              board = refl;
              player_id = m;
              player_read = u;
              player = refl;
            })
            e'
            (rw (e, remove_player)
              (rw (e', remove_player) (rw (u, unseat_player) (rw (v, unseat_player)))))
      | inl v ↦
          stays
            (λ g id w b' h.
              let q : n ≡ w.board_id = some_inj (sym e ∙ w.board_read) in
              let q' : m ≡ w.player_id = some_inj (sym u ∙ w.player_read) in
              let same : b ≡ b' = some_inj (
                sym e'
                ∙ ap (λ x. lookup (int32 x) s.boards) q
                ∙ ap (λ x. lookup x s.boards) w.board
                ∙ h) in
              ap (λ (x : GameBoard F). lookup id x.players) (sym same)
              ∙ ap (λ x. lookup x b.players) (sym (ap int32 q' ∙ w.player))
              ∙ v)
            (rw (e, remove_player)
              (rw (e', remove_player) (rw (u, unseat_player) (rw (v, unseat_player)))))
    ]
  ]

  pub remove_player-Exit :
      Exit player_id_str board_id_str s (remove_player player_id_str board_id_str s)
  remove_player-Exit = elim (Option-cases (atoi board_id_str)) [
    | inl e ↦ unreadable_board e
    | inr (n, e) ↦ elim (Option-cases (lookup (int32 n) s.boards)) [
      | inl e' ↦ unloaded_board n e e'
      | inr (b, e') ↦ loaded_board n b e e'
    ]
  ]

module _ {F : Type 0} where
  Absent-Exit :
      (g id : ℤ) (x y : Text) (s t : Server F) → Exit x y s t → Absent g id s → Absent g id t
  Absent-Exit g id x y s t (stays n q) a b h = a b (rw (← q) h)
  Absent-Exit g id x y s t (leaves g' id' b' w l q) a b h = elim (eq_cases g' g) [
    | inr ne ↦
        a b (
          ground
            (arith, lookup-set_board_players g' g b' (delete id' b'.players) s, eqb_ℤ_iff g' g))
    | inl e ↦
        let same : record b' { players = delete id' b'.players } ≡ b =
          ground
            (arith, lookup-set_board_players g' g b' (delete id' b'.players) s, eqb_ℤ_iff g' g) in
        ap (λ (c : GameBoard F). lookup id c.players) (sym same)
        ∙ ground (arith, lookup-delete id' id b'.players, a b' (rw (← e) l))
  ]

  Absent-Names :
      (g id : ℤ) (x y : Text) (s t : Server F) → Exit x y s t → Names x y g id → Absent g id t
  Absent-Names g id x y s t (stays n q) w b h = n g id w b (rw (← q) h)
  Absent-Names g id x y s t (leaves g' id' b' w' l q) w b h =
      let eg : g' ≡ g =
        sym w'.board ∙ ap int32 (some_inj (sym w'.board_read ∙ w.board_read)) ∙ w.board in
      let ei : id' ≡ id =
        sym w'.player ∙ ap int32 (some_inj (sym w'.player_read ∙ w.player_read)) ∙ w.player in
      let same : record b' { players = delete id' b'.players } ≡ b =
        ground
          (arith, lookup-set_board_players g' g b' (delete id' b'.players) s, eqb_ℤ_iff g' g) in
      ap (λ (c : GameBoard F). lookup id c.players) (sym same)
      ∙ ground (arith, lookup-delete id' id b'.players, eqb_ℤ_iff id' id)

  Absent-remove_queue :
      (g id : ℤ) (queue : Map Text Text) (s : Server F)
      → Absent g id s
      → Absent g id (remove_queue queue s)
  unfolding remove_queue
  Absent-remove_queue g id [] s a = a
  Absent-remove_queue g id ((x, y) ∷ queue) s a =
      Absent-remove_queue g id queue (remove_player x y s)
        (Absent-Exit g id x y s (remove_player x y s) (remove_player-Exit x y s) a)

  -- Once the exit queue is read through, no player that an entry names is on the board that the
  -- entry names.
  pub remove_queue-Absent :
      (queue : Map Text Text) (player_id_str board_id_str : Text) (g id : ℤ) (s : Server F)
      → In (player_id_str, board_id_str) queue
      → Names player_id_str board_id_str g id
      → Absent g id (remove_queue queue s)
  unfolding remove_queue
  remove_queue-Absent [] x' y' g id s m w = absurd m
  remove_queue-Absent ((x, y) ∷ queue) x' y' g id s (inl e) w =
      let ex : x ≡ x' = ap (λ (q : Text × Text). q.0) e in
      let ey : y ≡ y' = ap (λ (q : Text × Text). q.1) e in
      Absent-remove_queue g id queue (remove_player x y s) (
        rw (ex, ey)
          (Absent-Names g id x' y' s (remove_player x' y' s) (remove_player-Exit x' y' s) w))
  remove_queue-Absent ((x, y) ∷ queue) x' y' g id s (inr m) w =
      remove_queue-Absent queue x' y' g id (remove_player x y s) m w
