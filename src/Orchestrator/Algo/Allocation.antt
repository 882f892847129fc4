-- ===== src/Orchestrator/Algo/Allocation.antt =====
-- `AllocateGame`: where a game is when it returns no error.
use orbstrike.Common.{
  ◌≡◌, refl, inl, inr, ◌≢◌, true, List, [], ◌∷◌, none, some, Text, ℤ, text_eqb, text_eqb_iff, In,
  All, arith, format_int, sscanf, Bool-cases, Option-cases,
}
use orbstrike.Redis.{Redis, IsRedis, is_ok, is_nil, is_failed, Reply-cases}
use orbstrike.Keys.{index_key, gserver, games_suffix}
use orbstrike.Orchestrator.Algo.Allocators.{nobody, choose, put_game, place_game, allocate_game}
use orbstrike.Orchestrator.Algo.Placement.{choose_key}

-- The game stands in the map `key`, with the instance that the key names.
pub record Allocated (r : Redis) (id : ℤ) (key : Text) (d : r.Db) : Type 0 where
  pub instance_id : ℤ
  pub named : sscanf gserver games_suffix key ≡ some instance_id
  pub held : r.field d key (format_int id) ≡ some (format_int instance_id)

pub All-In : (P : Text → Type 0) (ks : List Text) → ((x : Text) → In x ks → P x) → All P ks
All-In P [] h = tt
All-In P (k ∷ ks) h = (h k (inl refl), All-In P ks (λ x m. h x (inr m)))

module _ (r : Redis) (laws : IsRedis r) (id : ℤ) where
  put_game-none :
      (key : Text) (i : ℤ) (d : r.Db)
      → (put_game r key id i d).0 ≡ none
      → r.field (put_game r key id i d).1 key (format_int id) ≡ some (format_int i)
  unfolding put_game
  put_game-none key i d h = elim (Reply-cases (r.hset key (format_int id) (format_int i) d).0) [
    | is_ok u e ↦ ground (arith, laws.hset_ok key (format_int id) (format_int i) d u e)
    | is_nil e ↦ ground arith
    | is_failed t e ↦ ground arith
  ]

  pub place_game-none :
      (key : Text) (d : r.Db)
      → (place_game r key id d).0 ≡ none
      → (key ≢ []) × Allocated r id key (place_game r key id d).1
  unfolding place_game
  place_game-none key d h = elim (Bool-cases (text_eqb key [])) [
    | inl empty ↦ ground arith
    | inr chosen ↦ elim (Option-cases (sscanf gserver games_suffix key)) [
      | inl bad ↦ ground arith
      | inr (i, e) ↦
          let q : place_game r key id d ≡ put_game r key id i d = rw chosen (rw (e, place_game)) in
          (
            λ n. cc (chosen, (text_eqb_iff key []).1 n),
            rw q (record { instance_id = i; named = e; held = put_game-none key i d (rw q at h) }),
          )
    ]
  ]

  -- The game is now on a listed server other than `u`.
  pub record Moved (u : Text) (d d' : r.Db) : Type 0 where
    pub key : Text
    pub away : key ≢ u
    pub listed : r.member d index_key key ≡ true
    pub allocated : Allocated r id key d'

  -- From the reply to SMembers on.
  chosen_game_none :
      (u : Text) (keys : List Text) (d d' : r.Db)
      → ((x : Text) → In x keys → r.member d index_key x ≡ true)
      → (place_game r (choose r keys u nobody d').0.key id (choose r keys u nobody d').1).0 ≡ none
      → Moved u d
          (place_game r (choose r keys u nobody d').0.key id (choose r keys u nobody d').1).1
  chosen_game_none u keys d d' listed h =
      let (k, i) = choose r keys u nobody d' in
      let (nonempty, a) = place_game-none k.key i h in
      elim (choose_key r laws (λ x. (x ≢ u) × (r.member d index_key x ≡ true)) keys u nobody d'
        (All-In _ keys (λ x m ne. (ne, listed x m))) (inl refl)) [
          | inl empty ↦ absurd (nonempty empty)
          | inr (away, l) ↦ record { key = k.key; away = away; listed = l; allocated = a }
        ]

  -- `AllocateGame` that returns no error has placed the game: on a server of the index other than
  -- the one excluded, in that server's map, with the instance that the map's key names.
  pub allocate_game-Moved :
      (u : Text) (d : r.Db)
      → (allocate_game r id u d).0 ≡ none
      → Moved u d (allocate_game r id u d).1
  unfolding allocate_game
  allocate_game-Moved u d h = elim (Reply-cases (r.smembers index_key d).0) [
    | is_ok keys e ↦
        let d' = (r.smembers index_key d).1 in
        let q : allocate_game r id u d
            ≡ place_game r (choose r keys u nobody d').0.key id (choose r keys u nobody d').1 =
          rw (e, allocate_game) in
        rw q (
          chosen_game_none u keys d d' (λ x m. (laws.smembers_ok index_key d keys e x).0 m)
            (rw q at h))
    | is_nil e ↦ ground arith
    | is_failed t e ↦ ground arith
  ]
