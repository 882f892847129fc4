-- ===== src/Orchestrator/Algo/Placement.antt =====
-- What the allocators do to the games that are placed: `AllocateGame` takes none away, and places
-- the new one on another server than the one that is being emptied.
use orbstrike.Common.{
  ℕ, ◌≡◌, refl, ◌∙◌, ◌⊎◌, inl, inr, ◌≢◌, true, List, [], ◌∷◌, some, Text, ℤ, text_eqb, text_eqb_iff,
  All, arith, format_int, atoi, sscanf, Bool-cases, Option-cases,
}
use orbstrike.Redis.{
  Redis, IsRedis, Same, Reply, ok, nil, failed, is_ok, is_nil, is_failed, Reply-cases,
}
use orbstrike.Keys.{index_key, gserver, games_suffix}
use orbstrike.Orchestrator.Algo.Allocators.{
  Best, replaces, weigh, breaks, nobody, choose, put_game, place_game, allocate_game,
}

-- Nothing that is placed is lost: the sets are the same, and no field goes away.
pub record Grows (r : Redis) (d d' : r.Db) : Type 0 where
  pub sets : (k x : Text) → r.member d' k x ≡ r.member d k x
  pub fields : (k f v : Text) → r.field d k f ≡ some v → (w : Text) × (r.field d' k f ≡ some w)

-- A listed server's map holds the game, under a key that reads as its number.
pub record Placed (r : Redis) (d : r.Db) (id : ℤ) : Type 0 where
  pub key : Text
  pub name : Text
  pub instance_id : Text
  pub listed : r.member d index_key key ≡ true
  pub held : r.field d key name ≡ some instance_id
  pub reads : atoi name ≡ some id

-- The same on a server other than `u`.
pub record Away (r : Redis) (u : Text) (d : r.Db) (id : ℤ) : Type 0 where
  pub placed : Placed r d id
  pub away : placed.key ≢ u

module _ (r : Redis) where
  pub Grows-refl : (d : r.Db) → Grows r d d
  Grows-refl d = record { sets = λ k x. refl; fields = λ k f v h. (v, h) }

  pub Grows-trans : {d e f : r.Db} → Grows r d e → Grows r e f → Grows r d f
  Grows-trans a b = record {
    sets = λ k x. b.sets k x ∙ a.sets k x;
    fields = λ k f v h. let (w, e) = a.fields k f v h in b.fields k f w e;
  }

  pub Grows-Same : {d e : r.Db} → Same r d e → Grows r d e
  Grows-Same s = record { sets = s.sets; fields = λ k f v h. (v, s.hashes k f ∙ h) }

  pub Placed-Grows : {d e : r.Db} (id : ℤ) → Grows r d e → Placed r d id → Placed r e id
  Placed-Grows id g p =
      let (w, h) = g.fields p.key p.name p.instance_id p.held in
      record {
        key = p.key;
        name = p.name;
        instance_id = w;
        listed = g.sets index_key p.key ∙ p.listed;
        held = h;
        reads = p.reads;
      }

  pub Away-Grows : (u : Text) {d e : r.Db} (id : ℤ) → Grows r d e → Away r u d id → Away r u e id
  unfolding Placed-Grows
  Away-Grows u id g a = record { placed = Placed-Grows id g a.placed; away = a.away }

chosen_key :
    (P : Text → Type 0) (k : Text) (reply : Reply ℕ) (b : Best)
    → P k
    → ((b.key ≡ []) ⊎ P b.key)
    → ((weigh k reply b).key ≡ []) ⊎ P (weigh k reply b).key
unfolding weigh
chosen_key P k (ok n) b new old = elim (Bool-cases (replaces n b)) [
  | inl taken ↦ rw taken (inr new)
  | inr left ↦ rw left old
]
chosen_key P k nil b new old = old
chosen_key P k (failed e) b new old = old

module _ (r : Redis) (laws : IsRedis r) where
  pub Grows-choose :
      (ks : List Text) (u : Text) (b : Best) (d : r.Db) → Grows r d (choose r ks u b d).1
  unfolding choose
  Grows-choose [] u b d = Grows-refl r d
  Grows-choose (k ∷ ks) u b d = elim (Bool-cases (text_eqb k u)) [
    | inl skipped ↦ rw (skipped, choose) (Grows-choose ks u b d)
    | inr weighed ↦
        let g = Grows-Same r (laws.hlen_same k d) in
        rw (weighed, choose)
          (elim (Bool-cases (breaks (r.hlen k d).0 b)) [
            | inl stop ↦ rw stop g
            | inr on ↦
                rw on
                  (Grows-trans r g (Grows-choose ks u (weigh k (r.hlen k d).0 b) (r.hlen k d).1))
          ])
  ]

  Grows-hset : (k f v : Text) (d : r.Db) → Grows r d (r.hset k f v d).1
  Grows-hset k f v d = record {
    sets = λ j x. laws.hset_sets k f v d j x;
    fields = λ j g w h. elim (laws.hset_hashes k f v d j g) [
      | inl e ↦ (w, e ∙ h)
      | inr (_, _, e) ↦ (v, e)
    ];
  }

  -- `SRem` with no member changes nothing that is placed.
  Grows-srem_none : (k : Text) (d : r.Db) → Grows r d (r.srem k [] d).1
  Grows-srem_none k d = record {
    sets = λ j x. elim (laws.srem_sets k [] d j x) [ inl e ↦ e | inr (_, m) ↦ absurd m ];
    fields = λ j f v h. (v, laws.srem_hashes k [] d j f ∙ h);
  }

  Grows-put_game :
      (key : Text) (gameid instance_id : ℤ) (d : r.Db)
      → Grows r d (put_game r key gameid instance_id d).1
  unfolding put_game
  Grows-put_game key gameid instance_id d =
      let g = Grows-hset key (format_int gameid) (format_int instance_id) d in ground arith

  Grows-place_game : (key : Text) (gameid : ℤ) (d : r.Db) → Grows r d (place_game r key gameid d).1
  unfolding place_game
  Grows-place_game key gameid d = elim (Bool-cases (text_eqb key [])) [
    | inl empty ↦ rw empty (Grows-refl r d)
    | inr chosen ↦ rw chosen (elim (Option-cases (sscanf gserver games_suffix key)) [
      | inl bad ↦ rw (bad, place_game) (Grows-srem_none key d)
      | inr (i, e) ↦ rw (e, place_game) (Grows-put_game key gameid i d)
    ])
  ]

  pub Grows-allocate_game :
      (gameid : ℤ) (u : Text) (d : r.Db) → Grows r d (allocate_game r gameid u d).1
  unfolding allocate_game
  Grows-allocate_game gameid u d =
      let g = Grows-Same r (laws.smembers_same index_key d) in
      let d' = (r.smembers index_key d).1 in
      elim (Reply-cases (r.smembers index_key d).0) [
        | is_ok keys e ↦
            rw (e, allocate_game)
              (Grows-trans r g (
                Grows-trans r (Grows-choose keys u nobody d') (
                  Grows-place_game (choose r keys u nobody d').0.key gameid
                    (choose r keys u nobody d').1)))
        | is_nil e ↦ rw (e, allocate_game) g
        | is_failed t e ↦ rw (e, allocate_game) g
      ]

  -- The key that the loop chooses is empty, or it is one of the keys other than `u`.
  pub choose_key :
      (P : Text → Type 0) (ks : List Text) (u : Text) (b : Best) (d : r.Db)
      → All (λ k. k ≢ u → P k) ks
      → ((b.key ≡ []) ⊎ P b.key)
      → ((choose r ks u b d).0.key ≡ []) ⊎ P (choose r ks u b d).0.key
  unfolding choose weigh
  choose_key P [] u b d all own = own
  choose_key P (k ∷ ks) u b d all own = elim (Bool-cases (text_eqb k u)) [
    | inl skipped ↦ rw (skipped, choose) (choose_key P ks u b d all.1 own)
    | inr weighed ↦
        let ne : k ≢ u = λ e. cc (weighed, (text_eqb_iff k u).1 e) in
        let chosen = chosen_key P k (r.hlen k d).0 b (all.0 ne) own in
        rw (weighed, choose)
          (elim (Bool-cases (breaks (r.hlen k d).0 b)) [
            | inl stop ↦ rw stop chosen
            | inr on ↦
                rw on (choose_key P ks u (weigh k (r.hlen k d).0 b) (r.hlen k d).1 all.1 chosen)
          ])
  ]
