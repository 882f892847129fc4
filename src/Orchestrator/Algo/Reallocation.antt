-- ===== src/Orchestrator/Algo/Reallocation.antt =====
-- `ReallocateGames` loses no game.
use orbstrike.Common.{
  ◌≡◌, refl, sym, ◌∙◌, inl, inr, ◌≢◌, Bool, true, false, List, [], ◌∷◌, none, some, Text, ℤ, Map,
  lookup, text_eq, text_eqb_iff, eq_cases, All, arith, some_inj, format_int, atoi, atoi-IsInt64,
  IsInt64, atoi-format_int, Option-cases,
}
use orbstrike.Redis.{Redis, IsRedis, is_ok, is_nil, is_failed, Reply-cases}
use orbstrike.Keys.{index_key, games_key, index_key-ne}
use orbstrike.Orchestrator.Algo.Allocators.{
  allocate_game, move_games, drop_server, finish_server, reallocate_server, reallocate_games,
}
use orbstrike.Orchestrator.Algo.Placement.{
  Grows, Grows-refl, Grows-trans, Grows-Same, Placed, Placed-Grows, Away, Away-Grows,
  Grows-allocate_game,
}
use orbstrike.Orchestrator.Algo.Allocation.{Moved, allocate_game-Moved}

Away-Moved :
    (r : Redis) (laws : IsRedis r) (id : ℤ) (u : Text) (d : r.Db)
    → IsInt64 id
    → Moved r laws id u d (allocate_game r id u d).1
    → Away r u (allocate_game r id u d).1 id
Away-Moved r laws id u d range m = record {
  placed = record {
    key = m.key;
    name = format_int id;
    instance_id = format_int m.allocated.instance_id;
    listed = (Grows-allocate_game r laws id u d).sets index_key m.key ∙ m.listed;
    held = m.allocated.held;
    reads = atoi-format_int id range;
  };
  away = m.away;
}

-- All games of a map, read as numbers, are on other servers.
abbrev AllAway : (r : Redis) → Text → r.Db → Map Text Text → Type 0
AllAway r u d games = All (λ g. (id : ℤ) → atoi g.0 ≡ some id → Away r u d id) games

module _ (r : Redis) (laws : IsRedis r) (u : Text) where
  -- The loop takes no game away; if it does not break, all its games are on other servers.
  record Emptied (games : Map Text Text) (d : r.Db) (res : Bool × r.Db) : Type 0 where
    grows : Grows r d res.1
    moved : res.0 ≡ false → AllAway r u res.1 games

  skip_game :
      (game v : Text) (games : Map Text Text) (d : r.Db) (res : Bool × r.Db)
      → atoi game ≡ none
      → Emptied games d res
      → Emptied ((game, v) ∷ games) d res
  skip_game game v games d res e rest = record {
    grows = rest.grows;
    moved = λ f. (λ id h. cc (e, h), rest.moved f);
  }

  next_game :
      (game v : Text) (id : ℤ) (games : Map Text Text) (d : r.Db) (res : Bool × r.Db)
      → atoi game ≡ some id
      → (allocate_game r id u d).0 ≡ none
      → Emptied games (allocate_game r id u d).1 res
      → Emptied ((game, v) ∷ games) d res
  next_game game v id games d res e fine rest = record {
    grows = Grows-trans r (Grows-allocate_game r laws id u d) rest.grows;
    moved = λ f. (
      λ j h.
          let q : id ≡ j = some_inj (sym e ∙ h) in
          rw (← q) (
            Away-Grows r u id rest.grows (
              Away-Moved r laws id u d (atoi-IsInt64 game id e)
                (allocate_game-Moved r laws id u d fine))),
      rest.moved f,
    );
  }

  move_games-Emptied : (games : Map Text Text) (d : r.Db) → Emptied games d (move_games r games u d)
  unfolding move_games
  move_games-Emptied [] d = record { grows = Grows-refl r d; moved = λ f. tt }
  move_games-Emptied ((game, v) ∷ games) d = elim (Option-cases (atoi game)) [
    | inl e ↦ rw (e, move_games) (skip_game game v games d _ e (move_games-Emptied games d))
    | inr (id, e) ↦ elim (Option-cases (allocate_game r id u d).0) [
      | inl fine ↦
          rw (e, move_games)
            (rw (fine, move_games)
              (next_game game v id games d _ e fine
                (move_games-Emptied games (allocate_game r id u d).1)))
      | inr (err, bad) ↦
          rw (e, move_games)
            (rw (bad, move_games)
              (record { grows = Grows-allocate_game r laws id u d; moved = λ f. cc }))
    ]
  ]

all_away :
    (r : Redis) (u : Text) (d : r.Db) (games : Map Text Text) (name v : Text) (id : ℤ)
    → AllAway r u d games
    → lookup name games ≡ some v
    → atoi name ≡ some id
    → Away r u d id
unfolding lookup
all_away r u d [] name v id all h e = cc
all_away r u d ((game, w) ∷ games) name v id all h e = elim (eq_cases game name) [
  | inl q ↦ all.0 id (rw q e)
  | inr ne ↦ all_away r u d games name v id all.1 (ground (arith, text_eqb_iff game name)) e
]

module _ (r : Redis) (laws : IsRedis r) (u : Text) (not_index : index_key ≢ u) where
  -- Taking `u` out of the index, and its map away, leaves what stands elsewhere.
  Placed-srem : (d : r.Db) (id : ℤ) → Away r u d id → Away r u (r.srem index_key (u ∷ []) d).1 id
  Placed-srem d id a = record {
    placed = record {
      key = a.placed.key;
      name = a.placed.name;
      instance_id = a.placed.instance_id;
      listed = elim (laws.srem_sets index_key (u ∷ []) d index_key a.placed.key) [
        | inl same ↦ same ∙ a.placed.listed
        | inr (_, m) ↦ elim m [ inl e ↦ absurd (a.away (sym e)) | inr empty ↦ absurd empty ]
      ];
      held = laws.srem_hashes index_key (u ∷ []) d a.placed.key a.placed.name ∙ a.placed.held;
      reads = a.placed.reads;
    };
    away = a.away;
  }

  Placed-del : (d : r.Db) (id : ℤ) → Away r u d id → Away r u (r.del u d).1 id
  Placed-del d id a = record {
    placed = record {
      key = a.placed.key;
      name = a.placed.name;
      instance_id = a.placed.instance_id;
      listed = laws.del_sets u d index_key a.placed.key not_index ∙ a.placed.listed;
      held = laws.del_hashes u d a.placed.key a.placed.name a.away ∙ a.placed.held;
      reads = a.placed.reads;
    };
    away = a.away;
  }

  Placed-drop_server : (d : r.Db) (id : ℤ) → Away r u d id → Placed r (drop_server r u d) id
  unfolding drop_server
  Placed-drop_server d id a =
      let b = Placed-srem d id a in
      elim (Reply-cases (r.srem index_key (u ∷ []) d).0) [
        | is_ok t e ↦ rw (e, drop_server) (Placed-del (r.srem index_key (u ∷ []) d).1 id b).placed
        | is_nil e ↦ rw (e, drop_server) b.placed
        | is_failed t e ↦ rw (e, drop_server) b.placed
      ]

  -- After the loop: a game of the map has moved, unless the loop broke; any other was never there.
  Placed-finish :
      (games : Map Text Text) (d : r.Db) (res : Bool × r.Db) (id : ℤ)
      → Emptied r laws u games d res
      → ((name : Text) (v : Text) → r.field d u name ≡ some v → lookup name games ≡ some v)
      → Placed r d id
      → Placed r (finish_server r u res) id
  unfolding finish_server
  Placed-finish games d (true, d') id e whole p = Placed-Grows r id e.grows p
  Placed-finish games d (false, d') id e whole p =
      Placed-drop_server d' id (elim (eq_cases p.key u) [
        | inl here ↦
            all_away r u d' games p.name p.instance_id id (e.moved refl)
              (whole p.name p.instance_id (rw (← here) p.held)) p.reads
        | inr away ↦ Away-Grows r u id e.grows (record { placed = p; away = away })
      ])

  Placed-reallocate_server :
      (d : r.Db) (id : ℤ) → Placed r d id → Placed r (reallocate_server r u d) id
  unfolding reallocate_server
  Placed-reallocate_server d id p =
      let g = Grows-Same r (laws.hgetall_same u d) in
      let q = Placed-Grows r id g p in
      let d' = (r.hgetall u d).1 in
      elim (Reply-cases (r.hgetall u d).0) [
        | is_ok games e ↦
            rw (e, reallocate_server)
              (Placed-finish games d' (move_games r games u d') id
                (move_games-Emptied r laws u games d')
                (λ name v h.
                  laws.hgetall_ok u d games e name
                  ∙ sym ((laws.hgetall_same u d).hashes u name)
                  ∙ h)
                q)
        | is_nil e ↦
            let away : p.key ≢ u = λ h. cc (p.held, h, laws.hgetall_nil u d e p.name) in
            rw (e, reallocate_server)
              (Placed-srem d' id (Away-Grows r u id g (record { placed = p; away = away }))).placed
        | is_failed t e ↦ rw (e, reallocate_server) q
      ]

-- Moving the games of failed servers loses none: a game that stood in the map of a listed server,
-- under a key that reads as its number, stands so afterwards, whichever commands fail on the way
-- and in whatever order the maps and sets are visited.
pub reallocate_games-Placed :
    (r : Redis) (laws : IsRedis r) (ids : List ℤ) (d : r.Db) (id : ℤ)
    → All IsInt64 ids
    → Placed r d id
    → Placed r (reallocate_games r ids d) id
unfolding reallocate_games
reallocate_games-Placed r laws [] d id range p = p
reallocate_games-Placed r laws (i ∷ ids) d id range p =
    reallocate_games-Placed r laws ids (reallocate_server r (games_key i) d) id range.1
      (Placed-reallocate_server r laws (games_key i) (index_key-ne i range.0) d id p)
