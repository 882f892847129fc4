-- ===== src/Server/Responder/Combat.antt =====
-- What a ring attack does to the players of a board.
use orbstrike.Common.{
  ℕ, ◌+◌, ◌≡◌, refl, ◌∙◌, ap, inl, inr, ◌≢◌, Bool, true, false, List, [], ◌∷◌, Option, none, some,
  ℤ, pos, Map, lookup, delete, insert, Unique, int_eq, int32, IsInt32, int32-IsInt32, int32_id,
  +ℤ-zero, int32-+ℤ, ◌+ℤ◌, eqb_ℤ, eqb_ℤ_iff, ◌&&◌, ◌||◌, arith, length, lookup-delete,
  lookup-insert, delete-Unique, insert-Unique, length-delete, length-insert_present, if◌then◌else◌,
  Option-cases, Bool-cases,
}
use orbstrike.Server.Game.{Float, Player}
use orbstrike.Server.Responder.Position.{PlayerPosition}
use orbstrike.Server.Responder.Respond.{add_kill, is_hit, strike, attack}

-- `n` more kills, counted in int32.
abbrev pub with_kills : {F : Type 0} → ℕ → Player F → Player F
with_kills n p = record p { kills = int32 (p.kills +ℤ pos n) }

-- The attacker as a board shows it: its ring is on.
abbrev pub Armed : {F : Type 0} → ℤ → Player F → Map ℤ (Player F) → Type 0
Armed k p players = (lookup k players ≡ some p) × (p.ring_enabled ≡ true)

abbrev pub contains : List ℤ → ℤ → Bool
contains [] j = false
contains (i ∷ is) j = eqb_ℤ i j || contains is j

module _ (fl : Float) (at : PlayerPosition fl.F) where
  abbrev pub hit_by : Option (Player fl.F) → Bool
  hit_by none = false
  hit_by (some tar) = is_hit fl at tar

  -- The players that an attack on `pids` takes off the board.
  abbrev pub struck : List ℤ → ℤ → Option (Player fl.F) → Bool
  struck pids j o = contains pids j && hit_by o

  -- The attacker's own ring protects it.
  not-is_hit : (p : Player fl.F) → p.ring_enabled ≡ true → is_hit fl at p ≡ false
  unfolding is_hit
  not-is_hit p h = ground arith

module _ (fl : Float) (at : PlayerPosition fl.F) (k : ℤ) where
  -- One round of the loop does nothing, or it kills another player.
  pub data Strike (pid : ℤ) (p : Player fl.F) (players q : Map ℤ (Player fl.F)) : Type 0 where
    miss : hit_by fl at (lookup pid players) ≡ false → q ≡ players → Strike pid p players q
    kill :
        (tar : Player fl.F)
        → lookup pid players ≡ some tar
        → is_hit fl at tar ≡ true
        → pid ≢ k
        → q ≡ insert k (record p { kills = int32 (p.kills +ℤ pos 1) }) (delete pid players)
        → Strike pid p players q

  add_kill-delete :
      (pid : ℤ) (p : Player fl.F) (players : Map ℤ (Player fl.F))
      → pid ≢ k
      → lookup k players ≡ some p
      → add_kill fl k (delete pid players)
        ≡ insert k (record p { kills = int32 (p.kills +ℤ pos 1) }) (delete pid players)
  unfolding add_kill
  add_kill-delete pid p players ne h = ground (arith, lookup-delete pid k players, eqb_ℤ_iff pid k)

  strike_found :
      (pid : ℤ) (p tar : Player fl.F) (players : Map ℤ (Player fl.F))
      → Armed k p players
      → lookup pid players ≡ some tar
      → Strike pid p players (strike fl at k pid players)
  unfolding strike
  strike_found pid p tar players h e = elim (Bool-cases (is_hit fl at tar)) [
    | inr off ↦ rw (e, strike) (rw off (miss (rw e off) refl))
    | inl on ↦
        let ne : pid ≢ k = λ q. cc (on, not-is_hit fl at p h.1, e, h.0, q) in
        rw (e, strike) (rw on (kill tar e on ne (add_kill-delete pid p players ne h.0)))
  ]

  pub strike-Strike :
      (pid : ℤ) (p : Player fl.F) (players : Map ℤ (Player fl.F))
      → Armed k p players
      → Strike pid p players (strike fl at k pid players)
  unfolding strike
  strike-Strike pid p players h = elim (Option-cases (lookup pid players)) [
    | inl e ↦ rw (e, strike) (miss (rw e refl) refl)
    | inr (tar, e) ↦ strike_found pid p tar players h e
  ]

  -- Other players: gone if hit, untouched otherwise.
  lookup-Strike :
      (pid j : ℤ) (p : Player fl.F) (players q : Map ℤ (Player fl.F))
      → Strike pid p players q
      → k ≢ j
      → lookup j q
        ≡ (if eqb_ℤ pid j && hit_by fl at (lookup j players) then none else lookup j players)
  lookup-Strike pid j p players q (miss h e) ne = ground (arith, eqb_ℤ_iff pid j)
  lookup-Strike pid j p players q (kill tar l h ne' e) ne = ground (
    arith,
    eqb_ℤ_iff pid j,
    eqb_ℤ_iff k j,
    lookup-delete pid j players,
    lookup-insert k j (record p { kills = int32 (p.kills +ℤ pos 1) }) (delete pid players),
  )

  with_kills-zero : (p : Player fl.F) → IsInt32 p.kills → with_kills 0 p ≡ p
  with_kills-zero p i =
      ap (λ n. record p { kills = n }) (ap int32 (+ℤ-zero p.kills) ∙ int32_id p.kills i)

  with_kills-with_kills :
      (m n : ℕ) (p : Player fl.F) → with_kills n (with_kills m p) ≡ with_kills (m + n) p
  with_kills-with_kills m n p = ap (λ i. record p { kills = i }) (int32-+ℤ p.kills m n)

  lookup-insert_self :
      (p : Player fl.F) (m : Map ℤ (Player fl.F)) → lookup k (insert k p m) ≡ some p
  lookup-insert_self p m = ground (arith, lookup-insert k k p m, eqb_ℤ_iff k k)

  length-kill :
      (pid : ℤ) (p p' tar : Player fl.F) (players : Map ℤ (Player fl.F))
      → Unique players
      → lookup pid players ≡ some tar
      → lookup k players ≡ some p
      → pid ≢ k
      → length (insert k p' (delete pid players)) + 1 ≡ length players
  length-kill pid p p' tar players u l h ne = omega (
    arith,
    length-insert_present k p' p (delete pid players) (delete-Unique pid players u)
        (ground (arith, lookup-delete pid k players, eqb_ℤ_iff pid k)),
    length-delete pid tar players u l,
  )

  -- The attacker keeps its ring, with a kill more for each player that is gone.
  Armed-Strike :
      (pid : ℤ) (p : Player fl.F) (players q : Map ℤ (Player fl.F))
      → Strike pid p players q
      → Unique players
      → Armed k p players
      → IsInt32 p.kills
      → (n : ℕ) × Armed k (with_kills n p) q × (length q + n ≡ length players) × Unique q
  Armed-Strike pid p players q (miss h e) u a i =
      (0, (rw (e, with_kills-zero p i) a.0, a.1), ground arith, rw e u)
  Armed-Strike pid p players q (kill tar l h ne e) u a i = (
    1,
    (rw e (lookup-insert_self _ _), a.1),
    rw e (length-kill pid p _ tar players u l a.0 ne),
    rw e (insert-Unique k _ _ (delete-Unique pid players u)),
  )

  -- An attack adds to the attacker's kills, in int32, the number of players that it takes off the
  -- board, and leaves its other fields and the uniqueness of the keys as they were.
  pub attack-kills :
      (pids : List ℤ) (p : Player fl.F) (players : Map ℤ (Player fl.F))
      → Unique players
      → Armed k p players
      → IsInt32 p.kills
      → (n : ℕ) × Armed k (with_kills n p) (attack fl at k pids players)
        × (length (attack fl at k pids players) + n ≡ length players)
        × Unique (attack fl at k pids players)
  unfolding attack
  attack-kills [] p players u a i = (0, (rw (with_kills-zero p i) a.0, a.1), omega arith, u)
  attack-kills (pid ∷ pids) p players u a i =
      let (m, a', e, u') =
        Armed-Strike pid p players (strike fl at k pid players) (strike-Strike pid p players a) u a
          i in
      let (n, a'', e', u'') =
        attack-kills pids (with_kills m p) (strike fl at k pid players) u' a' (int32-IsInt32 _) in
      (m + n, (a''.0 ∙ ap some (with_kills-with_kills m n p), a.1), omega arith, u'')

  Armed-of_Strike :
      (pid : ℤ) (p : Player fl.F) (players q : Map ℤ (Player fl.F))
      → Strike pid p players q
      → Armed k p players
      → (p' : Player fl.F) × Armed k p' q
  Armed-of_Strike pid p players q (miss h e) a = (p, (rw e a.0, a.1))
  Armed-of_Strike pid p players q (kill tar l h ne e) a =
      (record p { kills = int32 (p.kills +ℤ pos 1) }, (rw e (lookup-insert_self _ _), a.1))

  -- An attack takes off the board exactly the players that it names and that are hit where they
  -- stood before it; every other player but the attacker is as before.
  pub lookup-attack :
      (pids : List ℤ) (j : ℤ) (p : Player fl.F) (players : Map ℤ (Player fl.F))
      → Armed k p players
      → k ≢ j
      → lookup j (attack fl at k pids players)
        ≡ (if struck fl at pids j (lookup j players) then none else lookup j players)
  unfolding attack
  lookup-attack [] j p players a ne = refl
  lookup-attack (pid ∷ pids) j p players a ne =
      let s = strike-Strike pid p players a in
      let (p', a') = Armed-of_Strike pid p players (strike fl at k pid players) s a in
      ground (
        arith,
        lookup-attack pids j p' (strike fl at k pid players) a' ne,
        lookup-Strike pid j p players (strike fl at k pid players) s ne,
      )
