-- ===== src/Server/Sync/Collecting.antt =====
-- Which boards the loop of `syncBoardStates` collects.
use orbstrike.Common.{
  ◌≡◌, refl, sym, ap, ◌∙◌, ◌⊎◌, inl, inr, [], ◌∷◌, none, some, Text, ℤ, int32, Map, lookup, insert,
  int_eq, eqb_ℤ, eqb_ℤ_iff, eq_cases, lookup-insert, atoi, In, arith, some_inj, if◌then◌else◌,
  Option-cases,
}
use orbstrike.Redis.{Redis, is_ok, is_nil, is_failed, Reply-cases}
use orbstrike.Server.Game.{GameBoard}
use orbstrike.Server.Codec.{Codec}
use orbstrike.Server.Sync.{game_key, load_board, collect_one, collect}

-- A key of the server's game map that reads as the number of the board `g`.
abbrev pub Names : ℤ → Text → Type 0
Names g strkey = (n : ℤ) × (atoi strkey ≡ some n) × (int32 n ≡ g)

pub record Assigned (g : ℤ) (games : Map Text Text) : Type 0 where
  pub strkey : Text
  pub value : Text
  pub listed : In (strkey, value) games
  pub names : Names g strkey

module _ (r : Redis) {F : Type 0} (c : Codec F) (games_key : Text)
    (boards : Map ℤ (GameBoard F)) where
  -- One key adds at most its own board, and the loaded one where there is one.
  data Collects (strkey : Text) (buf buf' : Map ℤ (GameBoard F)) : Type 0 where
    same :
        ((g : ℤ) (b : GameBoard F) → Names g strkey → lookup g boards ≡ some b → ⊥)
        → buf' ≡ buf
        → Collects strkey buf buf'
    adds :
        (g : ℤ) (b : GameBoard F)
        → Names g strkey
        → ((b' : GameBoard F) → lookup g boards ≡ some b' → b' ≡ b)
        → buf' ≡ insert g b buf
        → Collects strkey buf buf'

  other-Names :
      (strkey : Text) (n g : ℤ) (b : GameBoard F)
      → atoi strkey ≡ some n
      → lookup (int32 n) boards ≡ none
      → Names g strkey
      → lookup g boards ≡ some b
      → ⊥
  other-Names strkey n g b e u (m, e', q) h =
      let eq : n ≡ m = some_inj (sym e ∙ e') in cc (eq, q, u, h)

  load_board-Collects :
      (strkey : Text) (n : ℤ) (buf : Map ℤ (GameBoard F)) (d : r.Db)
      → atoi strkey ≡ some n
      → lookup (int32 n) boards ≡ none
      → Collects strkey buf (load_board r c games_key strkey n buf d).0
  unfolding load_board
  load_board-Collects strkey n buf d e u = elim (Reply-cases (r.get (game_key n) d).0) [
    | is_nil q ↦ same (λ g b. other-Names strkey n g b e u) (rw (q, load_board))
    | is_failed t q ↦ same (λ g b. other-Names strkey n g b e u) (rw (q, load_board))
    | is_ok enc q ↦ elim (Option-cases (c.unmarshal_board enc)) [
      | inl q' ↦
          same (λ g b. other-Names strkey n g b e u) (rw (q, load_board) (rw (q', load_board)))
      | inr (b, q') ↦
          adds (int32 n) b (n, e, refl) (λ b' h. cc (u, h))
            (rw (q, load_board) (rw (q', load_board)))
    ]
  ]

  collect_one-Collects :
      (strkey : Text) (buf : Map ℤ (GameBoard F)) (d : r.Db)
      → Collects strkey buf (collect_one r c games_key strkey boards buf d).0
  unfolding collect_one
  collect_one-Collects strkey buf d = elim (Option-cases (atoi strkey)) [
    | inl e ↦ same (λ g b w h. cc (w.1, e)) (rw (e, collect_one))
    | inr (n, e) ↦ elim (Option-cases (lookup (int32 n) boards)) [
      | inl u ↦ rw (e, collect_one) (rw (u, collect_one) (load_board-Collects strkey n buf d e u))
      | inr (b, u) ↦
          adds (int32 n) b (n, e, refl) (λ b' h. some_inj (sym h ∙ u))
            (rw (e, collect_one) (rw (u, collect_one)))
    ]
  ]

  -- Everything in the buffer was loaded, or stands for a board that is not.
  abbrev Agrees : Map ℤ (GameBoard F) → Type 0
  Agrees buf =
      (g : ℤ) (b b' : GameBoard F) → lookup g buf ≡ some b → lookup g boards ≡ some b' → b' ≡ b

  Agrees-Collects :
      (strkey : Text) (buf buf' : Map ℤ (GameBoard F))
      → Collects strkey buf buf'
      → Agrees buf
      → Agrees buf'
  Agrees-Collects strkey buf buf' (same n q) a g b b' h k = a g b b' (rw (← q) h) k
  Agrees-Collects strkey buf buf' (adds j x w l q) a g b b' h k = elim (eq_cases j g) [
    | inl e ↦ l b' (rw e k) ∙ ground (arith, lookup-insert j g x buf, eqb_ℤ_iff j g)
    | inr ne ↦ a g b b' (ground (arith, lookup-insert j g x buf, eqb_ℤ_iff j g)) k
  ]

  -- A board of the buffer stays in it, under another value at most.
  Stays-Collects :
      (strkey : Text) (buf buf' : Map ℤ (GameBoard F)) (g : ℤ) (b : GameBoard F)
      → Collects strkey buf buf'
      → lookup g buf ≡ some b
      → (b' : GameBoard F) × (lookup g buf' ≡ some b')
  Stays-Collects strkey buf buf' g b (same n q) h = (b, rw q h)
  Stays-Collects strkey buf buf' g b (adds j x w l q) h =
      (if eqb_ℤ j g then x else b, ground (arith, lookup-insert j g x buf))

  Loaded-Collects :
      (strkey : Text) (buf buf' : Map ℤ (GameBoard F)) (g : ℤ) (b : GameBoard F)
      → Collects strkey buf buf'
      → Names g strkey
      → lookup g boards ≡ some b
      → lookup g buf' ≡ some b
  Loaded-Collects strkey buf buf' g b (same n q) w h = absurd (n g b w h)
  Loaded-Collects strkey buf buf' g b (adds j x (n, e, ej) l q) (m, e', eg) h =
      let same_board : j ≡ g = sym ej ∙ ap int32 (some_inj (sym e ∙ e')) ∙ eg in
      let same_value : b ≡ x = l b (rw same_board h) in
      ground (arith, lookup-insert j g x buf, eqb_ℤ_iff j g)

  New-Collects :
      (strkey : Text) (buf buf' : Map ℤ (GameBoard F)) (g : ℤ) (x : GameBoard F)
      → Collects strkey buf buf'
      → lookup g buf' ≡ some x
      → (lookup g buf ≡ some x) ⊎ Names g strkey
  New-Collects strkey buf buf' g x (same n q) h = inl (rw (← q) h)
  New-Collects strkey buf buf' g x (adds j y w l q) h = elim (eq_cases j g) [
    | inl e ↦ inr (rw (← e) w)
    | inr ne ↦ inl (ground (arith, lookup-insert j g y buf, eqb_ℤ_iff j g))
  ]

  collect-kept :
      (games : Map Text Text) (buf : Map ℤ (GameBoard F)) (d : r.Db) (g : ℤ) (b : GameBoard F)
      → Agrees buf
      → lookup g boards ≡ some b
      → lookup g buf ≡ some b
      → lookup g (collect r c games_key games boards buf d).0 ≡ some b
  unfolding collect
  collect-kept [] buf d g b a l h = h
  collect-kept ((strkey, v) ∷ games) buf d g b a l h =
      let step = collect_one-Collects strkey buf d in
      let buf' = (collect_one r c games_key strkey boards buf d).0 in
      let a' = Agrees-Collects strkey buf buf' step a in
      let (x, k) = Stays-Collects strkey buf buf' g b step h in
      collect-kept games buf' (collect_one r c games_key strkey boards buf d).1 g b a' l
        (k ∙ ap some (sym (a' g x b k l)))

  pub collect-assigned :
      (games : Map Text Text) (buf : Map ℤ (GameBoard F)) (d : r.Db) (g : ℤ) (b : GameBoard F)
      (strkey v : Text)
      → Agrees buf
      → In (strkey, v) games
      → Names g strkey
      → lookup g boards ≡ some b
      → lookup g (collect r c games_key games boards buf d).0 ≡ some b
  unfolding collect
  collect-assigned [] buf d g b strkey v a m w l = absurd m
  collect-assigned ((x, y) ∷ games) buf d g b strkey v a (inl e) w l =
      let step = collect_one-Collects x buf d in
      let buf' = (collect_one r c games_key x boards buf d).0 in
      let ex : strkey ≡ x = ap (λ (q : Text × Text). q.0) (sym e) in
      collect-kept games buf' (collect_one r c games_key x boards buf d).1 g b
        (Agrees-Collects x buf buf' step a) l (Loaded-Collects x buf buf' g b step (rw ex at w) l)
  collect-assigned ((x, y) ∷ games) buf d g b strkey v a (inr m) w l =
      let buf' = (collect_one r c games_key x boards buf d).0 in
      collect-assigned games buf' (collect_one r c games_key x boards buf d).1 g b strkey v
        (Agrees-Collects x buf buf' (collect_one-Collects x buf d) a) m w l

  pub collect-source :
      (games : Map Text Text) (buf : Map ℤ (GameBoard F)) (d : r.Db) (g : ℤ) (x : GameBoard F)
      → lookup g (collect r c games_key games boards buf d).0 ≡ some x
      → ((y : GameBoard F) × (lookup g buf ≡ some y)) ⊎ Assigned g games
  unfolding collect
  collect-source [] buf d g x h = inl (x, h)
  collect-source ((strkey, v) ∷ games) buf d g x h =
      let buf' = (collect_one r c games_key strkey boards buf d).0 in
      elim (collect-source games buf' (collect_one r c games_key strkey boards buf d).1 g x h) [
        | inr a ↦
            inr (record {
              strkey = a.strkey;
              value = a.value;
              listed = inr a.listed;
              names = a.names;
            })
        | inl (y, k) ↦
            elim (New-Collects strkey buf buf' g y (collect_one-Collects strkey buf d) k) [
              | inl old ↦ inl (y, old)
              | inr w ↦ inr (record { strkey = strkey; value = v; listed = inl refl; names = w })
            ]
      ]
