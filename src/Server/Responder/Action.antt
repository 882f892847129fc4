-- ===== src/Server/Responder/Action.antt =====
-- What a request does to the board of its player: `act`, the second half of `Respond`'s loop.
use orbstrike.Common.{
  ℕ, ◌+◌, ◌≡◌, refl, ◌∙◌, inl, inr, ◌≢◌, true, false, ◌&&◌, none, some, ℤ, Map, lookup, insert,
  Unique, int_eq, eqb_ℤ_iff, IsInt32, arith, length, lookup-insert, insert-Unique,
  length-insert_present, if◌then◌else◌, Bool-cases,
}
use orbstrike.Server.Game.{Float, Player, Move, Direction}
use orbstrike.Server.Responder.Respond.{position, attack, walk, stride, act}
use orbstrike.Server.Responder.Combat.{with_kills, struck, attack-kills, lookup-attack}

-- The step of a direction along one axis.
pub data Axis : Type 0 where
  back stay forth : Axis

abbrev pub axes : Direction → Axis × Axis
axes Direction.up = (stay, back)
axes Direction.up_left = (back, back)
axes Direction.up_right = (forth, back)
axes Direction.down = (stay, forth)
axes Direction.down_left = (back, forth)
axes Direction.down_right = (forth, forth)
axes Direction.left = (back, stay)
axes Direction.right = (forth, stay)
axes Direction.none_set = (stay, stay)
axes (Direction.other n) = (stay, stay)

module _ (fl : Float) where
  abbrev pub shift : Axis → fl.F → fl.F → fl.F
  shift back d v = fl.sub v d
  shift stay d v = v
  shift forth d v = fl.add v d

  abbrev pub moved : Direction → fl.F → Player fl.F → Player fl.F
  moved dir d p = record p { x = shift (axes dir).0 d p.x; y = shift (axes dir).1 d p.y }

  walk-moved : (dir : Direction) (d : fl.F) (p : Player fl.F) → walk fl dir d p ≡ moved dir d p
  unfolding walk
  walk-moved Direction.up d p = refl
  walk-moved _ d p = refl

module _ (fl : Float) (interval : ℤ) (move : Move) (k : ℤ) (player : Player fl.F)
    (players : Map ℤ (Player fl.F)) (here : lookup k players ≡ some player) where
  abbrev ready : Player fl.F
  ready = record player { ring_enabled = move.enable_ring }

  lookup-ready : lookup k (insert k ready players) ≡ some ready
  lookup-ready = ground (arith, lookup-insert k k ready players, eqb_ℤ_iff k k)

  -- A request takes off its player's board exactly the players that it hits with the ring on;
  -- with the ring off it takes off none. Every other player but its own is as before.
  pub lookup-act :
      (j : ℤ)
      → k ≢ j
      → lookup j (act fl interval move k player players) ≡ (
          if move.enable_ring
            && struck fl (position fl player) move.hit_players j (lookup j players)
          then none
          else lookup j players)
  unfolding act
  lookup-act j ne = elim (Bool-cases move.enable_ring) [
    | inl on ↦ ground (
      arith,
      lookup-attack fl (position fl player) k move.hit_players j ready (insert k ready players)
          (lookup-ready, on) ne,
      lookup-insert k j ready players,
      eqb_ℤ_iff k j,
    )
    | inr off ↦ ground (
      arith,
      lookup-insert k j (walk fl move.direction (stride fl interval ready) ready) players,
      eqb_ℤ_iff k j,
    )
  ]

  act_on :
      move.enable_ring ≡ true
      → act fl interval move k player players
        ≡ attack fl (position fl player) k move.hit_players (insert k ready players)
  unfolding act
  act_on on = ground arith

  -- The player of a request with the ring on stays where it is, and its kills grow, in int32, by
  -- the number of players that leave the board.
  pub act-kills :
      Unique players
      → IsInt32 player.kills
      → move.enable_ring ≡ true
      → (n : ℕ) × (lookup k (act fl interval move k player players) ≡ some (with_kills n ready))
        × (length (act fl interval move k player players) + n ≡ length players)
  act-kills u i on =
      let (n, a, e, u') =
        attack-kills fl (position fl player) k move.hit_players ready (insert k ready players)
          (insert-Unique k ready players u) (lookup-ready, on) i in
      (
        n,
        rw (act_on on) a.0,
        rw (act_on on) (e ∙ length-insert_present k ready player players u here),
      )

  act_on-Unique :
      Unique players
      → IsInt32 player.kills
      → move.enable_ring ≡ true
      → Unique (act fl interval move k player players)
  act_on-Unique u i on =
      rw (act_on on)
        (attack-kills fl (position fl player) k move.hit_players ready (insert k ready players)
          (insert-Unique k ready players u) (lookup-ready, on) i).3

  pub act-Unique :
      Unique players → IsInt32 player.kills → Unique (act fl interval move k player players)
  unfolding act
  act-Unique u i = elim (Bool-cases move.enable_ring) [
    | inl on ↦ act_on-Unique u i on
    | inr off ↦
        ground (
          arith,
          insert-Unique k (walk fl move.direction (stride fl interval ready) ready) players u,
        )
  ]

  -- The player of a request with the ring off moves by its stride along the axes of the direction,
  -- and no other field of it changes but the ring.
  pub act-moved :
      move.enable_ring ≡ false
      → lookup k (act fl interval move k player players)
        ≡ some (
            moved fl move.direction
              (stride fl interval player)
              (record player { ring_enabled = false }))
  unfolding act stride
  act-moved off = ground (
    arith,
    walk-moved fl move.direction (stride fl interval ready) ready,
    lookup-insert k k (walk fl move.direction (stride fl interval ready) ready) players,
    eqb_ℤ_iff k k,
  )
