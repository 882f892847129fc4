-- ===== src/Orchestrator/Algo/Balance.antt =====
-- `AllocateGame`: how many games the server that it takes holds.
use orbstrike.Common.{
  ℕ, ◌≤◌, ◌≡◌, refl, sym, ap, ◌∙◌, ◌⊎◌, inl, inr, ◌≢◌, true, false, List, [], ◌∷◌, none, Text, ℤ,
  pos, negsuc, text_eqb, text_eqb_iff, In, arith, ltb_ℤ, Bool-cases, ◌||◌,
}
use orbstrike.Redis.{
  Redis, IsRedis, Same, Same-trans, Reply, ok, nil, failed, is_ok, is_nil, is_failed, Reply-cases,
}
use orbstrike.Keys.{index_key}
use orbstrike.Orchestrator.Algo.Allocators.{
  Best, replaces, weigh, breaks, nobody, choose, place_game, allocate_game,
}
use orbstrike.Orchestrator.Algo.Allocation.{Allocated, All-In, place_game-none}
use orbstrike.Orchestrator.Algo.Placement.{choose_key}

-- A server has been chosen that holds `m` games at most.
abbrev pub AtMost : Best → ℕ → Type 0
AtMost b m = (n : ℕ) × (b.load ≡ pos n) × (n ≤ m)

weigh-AtMost :
    (k : Text) (reply : Reply ℕ) (b : Best) (m : ℕ) → AtMost b m → AtMost (weigh k reply b) m
unfolding weigh replaces
weigh-AtMost k nil b m h = h
weigh-AtMost k (failed e) b m h = h
weigh-AtMost k (ok n) b m (q, e, l) = elim (Bool-cases (replaces n b)) [
  | inl taken ↦ rw taken (n, refl, ground (arith, e))
  | inr kept ↦ rw kept (q, e, l)
]

kept_load :
    (load : ℤ) (n : ℕ)
    → (ltb_ℤ load (pos 0) || ltb_ℤ (pos n) load) ≡ false
    → (q : ℕ) × (load ≡ pos q) × (q ≤ n)
kept_load (pos q) n h = (q, refl, ground arith)
kept_load (negsuc q) n h = ground arith

weigh-new : (k : Text) (n : ℕ) (b : Best) → AtMost (weigh k (ok n) b) n
unfolding weigh replaces
weigh-new k n b = elim (Bool-cases (replaces n b)) [
  | inl taken ↦ rw taken (n, refl, omega arith)
  | inr kept ↦ rw kept (kept_load b.load n kept)
]

-- The loop stops at a server that holds no game.
breaks_least :
    (k : Text) (reply : Reply ℕ) (b : Best) (m : ℕ)
    → breaks reply b ≡ true
    → AtMost (weigh k reply b) m
unfolding breaks weigh
breaks_least k nil b m h = cc
breaks_least k (failed e) b m h = cc
breaks_least k (ok n) b m h = elim (Bool-cases (replaces n b)) [
  | inl taken ↦ rw taken (n, refl, ground (arith, taken))
  | inr kept ↦ ground (arith, kept)
]

module _ (r : Redis) (laws : IsRedis r) (d : r.Db) where
  -- At some time during the search the server's number of games is not to be had.
  pub record Silent (k : Text) : Type 0 where
    pub meanwhile : r.Db
    pub same : Same r d meanwhile
    pub silent : (n : ℕ) → (r.hlen k meanwhile).0 ≢ ok n

  -- The load of the chosen server is the number of its games.
  abbrev Weighed : Best → Type 0
  Weighed b = (b ≡ nobody) ⊎ (b.load ≡ pos (r.size d b.key))

  module _ (k : Text) (e : r.Db) (s : Same r d e) where
    hlen_size : (n : ℕ) → (r.hlen k e).0 ≡ ok n → n ≡ r.size d k
    hlen_size n h = laws.hlen_ok k e n h ∙ s.sizes k

    hlen-Same : Same r d (r.hlen k e).1
    hlen-Same = Same-trans r s (laws.hlen_same k e)

    weigh-Weighed : (b : Best) → Weighed b → Weighed (weigh k (r.hlen k e).0 b)
    unfolding weigh
    weigh-Weighed b w = elim (Reply-cases (r.hlen k e).0) [
      | is_nil q ↦ rw (q, weigh) w
      | is_failed t q ↦ rw (q, weigh) w
      | is_ok n q ↦
          rw (q, weigh)
            (elim (Bool-cases (replaces n b)) [
              | inl taken ↦ rw taken (inr (ap pos (hlen_size n q)))
              | inr kept ↦ rw kept w
            ])
    ]

    weigh-least : (b : Best) → Silent k ⊎ AtMost (weigh k (r.hlen k e).0 b) (r.size d k)
    weigh-least b = elim (Reply-cases (r.hlen k e).0) [
      | is_nil q ↦ inl (record { meanwhile = e; same = s; silent = λ n h. cc (q, h) })
      | is_failed t q ↦ inl (record { meanwhile = e; same = s; silent = λ n h. cc (q, h) })
      | is_ok n q ↦ inr (rw (q, ← hlen_size n q) (weigh-new k n b))
    ]

  module _ (u : Text) where
    choose-AtMost :
        (ks : List Text) (b : Best) (e : r.Db) (m : ℕ) → AtMost b m → AtMost (choose r ks u b e).0 m
    unfolding choose
    choose-AtMost [] b e m h = h
    choose-AtMost (k ∷ ks) b e m h = elim (Bool-cases (text_eqb k u)) [
      | inl skip ↦ rw (skip, choose) (choose-AtMost ks b e m h)
      | inr look ↦
          let w = weigh-AtMost k (r.hlen k e).0 b m h in
          rw (look, choose)
            (elim (Bool-cases (breaks (r.hlen k e).0 b)) [
              | inl done ↦ rw done w
              | inr on ↦ rw on (choose-AtMost ks (weigh k (r.hlen k e).0 b) (r.hlen k e).1 m w)
            ])
    ]

    choose-Weighed :
        (ks : List Text) (b : Best) (e : r.Db)
        → Same r d e
        → Weighed b
        → Weighed (choose r ks u b e).0
    unfolding choose
    choose-Weighed [] b e s h = h
    choose-Weighed (k ∷ ks) b e s h = elim (Bool-cases (text_eqb k u)) [
      | inl skip ↦ rw (skip, choose) (choose-Weighed ks b e s h)
      | inr look ↦
          let w = weigh-Weighed k e s b h in
          rw (look, choose)
            (elim (Bool-cases (breaks (r.hlen k e).0 b)) [
              | inl done ↦ rw done w
              | inr on ↦
                  rw on (
                    choose-Weighed ks (weigh k (r.hlen k e).0 b) (r.hlen k e).1 (hlen-Same k e s) w)
            ])
    ]

    -- Whatever stands in the list holds as many games as the server chosen, unless it was silent.
    choose-least :
        (j : Text) (ks : List Text) (b : Best) (e : r.Db)
        → Same r d e
        → In j ks
        → j ≢ u
        → Silent j ⊎ AtMost (choose r ks u b e).0 (r.size d j)
    unfolding choose
    choose-least j [] b e s m ne = absurd m
    choose-least j (k ∷ ks) b e s m ne = elim (Bool-cases (text_eqb k u)) [
      | inl skip ↦ elim m [
        | inl q ↦ absurd (ne (sym q ∙ (text_eqb_iff k u).0 skip))
        | inr n ↦ rw (skip, choose) (choose-least j ks b e s n ne)
      ]
      | inr look ↦
          rw (look, choose)
            (elim (Bool-cases (breaks (r.hlen k e).0 b)) [
              | inl done ↦ rw done (inr (breaks_least k (r.hlen k e).0 b (r.size d j) done))
              | inr on ↦ rw on (elim m [
                | inr n ↦
                    choose-least j ks (weigh k (r.hlen k e).0 b) (r.hlen k e).1 (hlen-Same k e s) n
                      ne
                | inl q ↦ elim (weigh-least k e s b) [
                  | inl silent ↦ inl (rw (← q) silent)
                  | inr w ↦ inr (
                      rw (← q)
                        (choose-AtMost ks (weigh k (r.hlen k e).0 b) (r.hlen k e).1 (r.size d k) w))
                ]
              ])
            ])
    ]

  -- A listed server that the game is now on, with as few games as `j` had.
  pub record Balanced (id : ℤ) (u j : Text) (d' : r.Db) : Type 0 where
    pub key : Text
    pub away : key ≢ u
    pub listed : r.member d index_key key ≡ true
    pub allocated : Allocated r id key d'
    pub least : Silent j ⊎ (r.size d key ≤ r.size d j)

  AtMost-size : (b : Best) (m : ℕ) → b.key ≢ [] → Weighed b → AtMost b m → r.size d b.key ≤ m
  AtMost-size b m chosen (inl nobody_yet) h = absurd (chosen (ap (λ x. x.key) nobody_yet))
  AtMost-size b m chosen (inr load) (n, q, l) = ground (arith, load, q)

  chosen_game_least :
      (id : ℤ) (u j : Text) (keys : List Text) (e : r.Db)
      → Same r d e
      → ((x : Text) → In x keys → r.member d index_key x ≡ true)
      → In j keys
      → j ≢ u
      → (place_game r (choose r keys u nobody e).0.key id (choose r keys u nobody e).1).0 ≡ none
      → Balanced id u j
          (place_game r (choose r keys u nobody e).0.key id (choose r keys u nobody e).1).1
  chosen_game_least id u j keys e s listed m ne h =
      let (k, i) = choose r keys u nobody e in
      let (nonempty, a) = place_game-none r laws id k.key i h in
      elim (choose_key r laws (λ x. (x ≢ u) × (r.member d index_key x ≡ true)) keys u nobody e
        (All-In _ keys (λ x w away. (away, listed x w))) (inl refl)) [
          | inl empty ↦ absurd (nonempty empty)
          | inr (away, l) ↦ record {
            key = k.key;
            away = away;
            listed = l;
            allocated = a;
            least = elim (choose-least u j keys nobody e s m ne) [
              | inl silent ↦ inl silent
              | inr most ↦ inr (
                  AtMost-size k (r.size d j) nonempty (choose-Weighed u keys nobody e s (inl refl))
                    most)
            ];
          }
        ]

  -- `AllocateGame` that returns no error has placed the game on a server of the index with the fewest
  -- games: every server of the index but the one excluded held as many at least, unless the database
  -- did not tell its number.
  pub allocate_game-Balanced :
      (id : ℤ) (u j : Text)
      → (allocate_game r id u d).0 ≡ none
      → r.member d index_key j ≡ true
      → j ≢ u
      → Balanced id u j (allocate_game r id u d).1
  unfolding allocate_game
  allocate_game-Balanced id u j h listed ne = elim (Reply-cases (r.smembers index_key d).0) [
    | is_ok keys e ↦
        let d' = (r.smembers index_key d).1 in
        let q : allocate_game r id u d
            ≡ place_game r (choose r keys u nobody d').0.key id (choose r keys u nobody d').1 =
          rw (e, allocate_game) in
        let all = laws.smembers_ok index_key d keys e in
        rw q (
          chosen_game_least id u j keys d' (laws.smembers_same index_key d) (λ x m. (all x).0 m)
            ((all j).1 listed) ne (rw q at h))
    | is_nil e ↦ ground arith
    | is_failed t e ↦ ground arith
  ]
