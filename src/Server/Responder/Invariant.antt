-- ===== src/Server/Responder/Invariant.antt =====
-- The well-formedness of the server's boards, kept by `Respond`.
use orbstrike.Common.{
  ℕ, ◌≡◌, sym, ◌∙◌, inl, inr, List, [], ◌∷◌, some, ℤ, Map, lookup, delete, insert, Unique, int_eq,
  eqb_ℤ_iff, IsInt32, int32-IsInt32, arith, some_inj, lookup-insert, lookup-delete, insert-Unique,
  delete-Unique, eq_cases, Bool-cases, Option-cases,
}
use orbstrike.Cipher.{Cipher}
use orbstrike.Server.Game.{Float, Player, GameBoard, Move}
use orbstrike.Server.State.{Server, set_response}
use orbstrike.Server.Responder.Respond.{act, set_players, respond_one, respond}
use orbstrike.Server.Responder.Combat.{with_kills}
use orbstrike.Server.Responder.Action.{lookup-act, act-kills, act-moved, act-Unique}
use orbstrike.Server.Responder.Round.{Round, waiting, refused, died, acted, respond_one-Round}

-- A player stands under its own identifier, and its kills are an int32.
abbrev pub IsKeyed : {F : Type 0} → ℤ → Player F → Type 0
IsKeyed j p = (p.id ≡ j) × IsInt32 p.kills

pub record PlayersOk {F : Type 0} (players : Map ℤ (Player F)) : Type 0 where
  pub unique : Unique players
  pub keyed : (j : ℤ) (p : Player F) → lookup j players ≡ some p → IsKeyed j p

pub record BoardsOk {F : Type 0} (boards : Map ℤ (GameBoard F)) : Type 0 where
  pub unique : Unique boards
  pub each : (g : ℤ) (b : GameBoard F) → lookup g boards ≡ some b → PlayersOk b.players

module _ {F : Type 0} where
  pub delete-PlayersOk :
      (k : ℤ) (players : Map ℤ (Player F)) → PlayersOk players → PlayersOk (delete k players)
  delete-PlayersOk k players v = record {
    unique = delete-Unique k players v.unique;
    keyed = λ j p h. ground (arith, lookup-delete k j players, v.keyed j p);
  }

  pub insert-PlayersOk :
      (k : ℤ) (p : Player F) (players : Map ℤ (Player F))
      → IsKeyed k p
      → PlayersOk players
      → PlayersOk (insert k p players)
  insert-PlayersOk k p players own v = record {
    unique = insert-Unique k p players v.unique;
    keyed = λ j q h. ground (arith, lookup-insert k j p players, v.keyed j q, eqb_ℤ_iff k j);
  }

module _ (fl : Float) (interval : ℤ) (move : Move) (k : ℤ) (player : Player fl.F)
    (players : Map ℤ (Player fl.F)) (here : lookup k players ≡ some player) where
  act_self-IsKeyed :
      (p : Player fl.F)
      → PlayersOk players
      → lookup k (act fl interval move k player players) ≡ some p
      → IsKeyed k p
  act_self-IsKeyed p v h = elim (Bool-cases move.enable_ring) [
    | inl on ↦
        let own = v.keyed k player here in
        let (n, e, l) = act-kills fl interval move k player players here v.unique own.1 on in
        let q : p ≡ with_kills n (record player { ring_enabled = move.enable_ring }) =
          some_inj (sym h ∙ e) in
        rw q (own.0, int32-IsInt32 _)
    | inr off ↦
        ground (arith, v.keyed k player here, act-moved fl interval move k player players here off)
  ]

  act-PlayersOk : PlayersOk players → PlayersOk (act fl interval move k player players)
  act-PlayersOk v = record {
    unique = act-Unique fl interval move k player players here v.unique (v.keyed k player here).1;
    keyed = λ j p h. elim (eq_cases k j) [
      | inl e ↦ rw (← e) (act_self-IsKeyed p v (rw (← e) at h))
      | inr ne ↦ ground (arith, v.keyed j p, lookup-act fl interval move k player players here j ne)
    ];
  }

module _ {F : Type 0} where
  pub insert-BoardsOk :
      (g : ℤ) (b : GameBoard F) (boards : Map ℤ (GameBoard F))
      → PlayersOk b.players
      → BoardsOk boards
      → BoardsOk (insert g b boards)
  insert-BoardsOk g b boards own v = record {
    unique = insert-Unique g b boards v.unique;
    each = λ j c h. elim (eq_cases g j) [
      | inl e ↦
          let q : b ≡ c = ground (arith, lookup-insert g j b boards, eqb_ℤ_iff g j) in rw (← q) own
      | inr ne ↦ v.each j c (ground (arith, lookup-insert g j b boards, eqb_ℤ_iff g j))
    ];
  }

module _ (fl : Float) (c : Cipher) (sid : ℤ) (move : Move) where
  pub Round-BoardsOk :
      {s s' : Server fl.F} → Round fl c sid move s s' → BoardsOk s.boards → BoardsOk s'.boards
  unfolding set_response set_players
  Round-BoardsOk (waiting e full q) v = rw q v
  Round-BoardsOk (refused e idle q) v = rw q v
  Round-BoardsOk (died board k player e idle seat off q) v = rw q (
      insert-BoardsOk move.gameid _ _
        (delete-PlayersOk player.id board.players (v.each move.gameid board seat.found)) v)
  Round-BoardsOk {s} (acted board k player idle seat on q) v = rw q (
      insert-BoardsOk move.gameid _ _
        (act-PlayersOk fl s.response_interval_ms move k player board.players seat.present
          (v.each move.gameid board seat.found))
        v)

module _ (fl : Float) (c : Cipher) where
  -- Answering requests keeps every board well formed: a board stands once, a player stands once on
  -- a board and under its own identifier, and its kills are an int32.
  pub respond-BoardsOk :
      (requests : List (ℤ × Move)) (rolls : ℤ → ℕ) (s s' : Server fl.F)
      → BoardsOk s.boards
      → respond fl c requests rolls s ≡ some s'
      → BoardsOk s'.boards
  unfolding respond
  respond-BoardsOk [] rolls s s' v h = let q : s ≡ s' = some_inj h in rw (← q) v
  respond-BoardsOk ((sid, move) ∷ rest) rolls s s' v h =
      elim (Option-cases (respond_one fl c sid move (rolls sid) s)) [
        | inl panics ↦ ground arith
        | inr (t, e) ↦
            respond-BoardsOk rest rolls t s'
              (Round-BoardsOk fl c sid move (respond_one-Round fl c sid move (rolls sid) s e) v)
              (ground arith)
      ]
