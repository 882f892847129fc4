-- ===== src/Server/Responder/Split/Dealing.antt =====
-- How the loop of `splitRequestMap` deals the requests out.
use mathlib.Core.List.{append_assoc, append-nil}
use orbstrike.Common.{
  ℕ, zero, suc, ◌+◌, ◌*◌, ◌≤◌, ◌<◌, ◌≡◌, refl, sym, ap, ◌∙◌, inl, inr, true, false, List, [], ◌∷◌,
  ◌++◌, none, some, ℤ, eqb_ℤ_iff, lookup, insert, Unique, int_eq, arith, length, replicate, All,
  leb, leb→le, lookup-insert, delete_absent, length-append, length-replicate, All-append,
  Bool-cases,
}
use orbstrike.Server.Game.{Move}
use orbstrike.Server.Responder.Split.{
  Requests, place, held, moves_of, moves_of-append, moves_of-blank, place_step,
}

abbrev pub Fits : ℕ → List Requests → Type 0
Fits size = All (λ s. length s ≤ size)

-- No slice that is done or begun holds a session that is still to be dealt.
abbrev pub Fresh : Requests → List Requests → Requests → Type 0
Fresh rest done cur =
    (j : ℤ) (v : Move) → lookup j rest ≡ some v → (moves_of j done ≡ []) × (lookup j cur ≡ none)

pub record Dealt (rest : Requests) (size : ℕ) (done : List Requests) (cur : Requests) (e : ℕ)
    : Type 0 where
  pub out : List Requests
  pub returns : place rest size (done ++ cur ∷ replicate e []) (length cur) (length done) ≡ some out
  pub count : length out ≡ length done + suc e
  pub fits : Fits size out
  pub moves :
      (j : ℤ) → moves_of j out ≡ moves_of j done ++ (held (lookup j cur) ++ held (lookup j rest))

pub Fits-blank : (size n : ℕ) → Fits size (replicate n [])
Fits-blank size zero = tt
Fits-blank size (suc n) = (omega arith, Fits-blank size n)

Dealt-out :
    (size : ℕ) (done : List Requests) (cur : Requests) (e : ℕ)
    → length cur ≤ size
    → Fits size done
    → Dealt [] size done cur e
unfolding place lookup
Dealt-out size done cur e small fits = record {
  out = done ++ cur ∷ replicate e [];
  returns = refl;
  count =
      omega
        (arith, length-append done (cur ∷ replicate e []), length-replicate {A = Requests} e []);
  fits =
      All-append (λ s. length s ≤ size) done (cur ∷ replicate e []) fits (small, Fits-blank size e);
  moves = λ j. rw (moves_of-append j done (cur ∷ replicate e []), moves_of-blank j e);
}

length-insert_fresh :
    (k : ℤ) (v : Move) (cur : Requests)
    → lookup k cur ≡ none
    → length (insert k v cur) ≡ suc (length cur)
unfolding insert
length-insert_fresh k v cur h = ap suc (ap length (delete_absent k cur h))

module _ (k : ℤ) (v : Move) (rest : Requests) (size : ℕ) (done : List Requests) (cur : Requests)
    (e : ℕ) (u : Unique ((k, v) ∷ rest)) (fresh : Fresh ((k, v) ∷ rest) done cur) where
  own : (moves_of k done ≡ []) × (lookup k cur ≡ none)
  unfolding lookup
  own = fresh k v (ground (arith, eqb_ℤ_iff k k))

  -- With the new entry in the slice, what is left to deal is still fresh.
  Fresh-rest : Fresh rest done (insert k v cur)
  unfolding lookup
  Fresh-rest j w h = ground (arith, fresh j w, lookup-insert k j v cur, eqb_ℤ_iff k j)

  moves_step :
      (j : ℤ)
      → moves_of j done ++ (held (lookup j (insert k v cur)) ++ held (lookup j rest))
        ≡ moves_of j done ++ (held (lookup j cur) ++ held (lookup j ((k, v) ∷ rest)))
  unfolding lookup
  moves_step j = ground (arith, own, lookup-insert k j v cur, eqb_ℤ_iff k j)

  length_now : length (insert k v cur) ≡ length cur + 1
  length_now = omega (arith, length-insert_fresh k v cur own.1)

  deal_on :
      leb size (length cur + 1) ≡ false
      → Dealt rest size done (insert k v cur) e
      → Dealt ((k, v) ∷ rest) size done cur e
  deal_on more d = record {
    out = d.out;
    returns =
        place_step k v rest size done cur (replicate e []) (length cur)
        ∙ rw (more, ← length_now) d.returns;
    count = d.count;
    fits = d.fits;
    moves = λ j. d.moves j ∙ moves_step j;
  }

  regroup :
      (blank : List Requests)
      → (done ++ insert k v cur ∷ []) ++ [] ∷ blank ≡ done ++ insert k v cur ∷ [] ∷ blank
  regroup blank = append_assoc done (insert k v cur ∷ []) ([] ∷ blank)

  moves_done :
      (j : ℤ)
      → moves_of j (done ++ insert k v cur ∷ [])
        ≡ moves_of j done ++ held (lookup j (insert k v cur))
  moves_done j =
      moves_of-append j done (insert k v cur ∷ []) ∙ ap (◌++◌ (moves_of j done)) (append-nil _)

  Fresh-next : Fresh rest (done ++ insert k v cur ∷ []) []
  unfolding lookup
  Fresh-next j w h = let f = Fresh-rest j w h in (rw (moves_done j) (rw (f.0, f.1) refl), refl)

  deal_next :
      leb size (length cur + 1) ≡ true
      → Dealt rest size (done ++ insert k v cur ∷ []) [] e
      → Dealt ((k, v) ∷ rest) size done cur (suc e)
  unfolding lookup
  deal_next full d = record {
    out = d.out;
    returns =
        place_step k v rest size done cur ([] ∷ replicate e []) (length cur)
        ∙ rw full
            (rw (← regroup (replicate e []), ← length-append done (insert k v cur ∷ [])) d.returns);
    count = omega (arith, d.count, length-append done (insert k v cur ∷ []));
    fits = d.fits;
    moves = λ j.
        d.moves j
        ∙ rw (moves_done j) (
            append_assoc (moves_of j done) (held (lookup j (insert k v cur))) (held (lookup j rest))
            ∙ moves_step j);
  }

module _ (k : ℤ) (v : Move) (size : ℕ) (done : List Requests) (cur : Requests) where
  deal_last :
      Unique ((k, v) ∷ [])
      → Fresh ((k, v) ∷ []) done cur
      → leb size (length cur + 1) ≡ true
      → length cur < size
      → Fits size done
      → Dealt ((k, v) ∷ []) size done cur 0
  unfolding place lookup
  deal_last u fresh full small fits = record {
    out = done ++ insert k v cur ∷ [];
    returns = place_step k v [] size done cur [] (length cur);
    count = omega (arith, length-append done (insert k v cur ∷ []));
    fits =
        All-append (λ s. length s ≤ size) done (insert k v cur ∷ []) fits
          (omega (arith, length_now k v [] size done cur 0 u fresh), tt);
    moves = λ j.
        moves_done k v [] size done cur 0 u fresh j
        ∙ ap (◌++◌ (moves_of j done)) (sym (append-nil _))
        ∙ moves_step k v [] size done cur 0 u fresh j;
  }

-- The slice has just been filled: it was the last one, or dealing goes on with the next.
deal_full :
    (k : ℤ) (v : Move) (rest : Requests) (size : ℕ) (done : List Requests) (cur : Requests) (e : ℕ)
    → Unique ((k, v) ∷ rest)
    → Fresh ((k, v) ∷ rest) done cur
    → leb size (length cur + 1) ≡ true
    → length cur < size
    → Fits size done
    → suc (length rest) + length cur ≤ size * suc e
    → ((e' : ℕ) → length rest ≤ size * suc e' → Dealt rest size (done ++ insert k v cur ∷ []) [] e')
    → Dealt ((k, v) ∷ rest) size done cur e
deal_full k v [] size done cur zero u fresh full small fits room next =
    deal_last k v size done cur u fresh full small fits
deal_full k v (x ∷ rest) size done cur zero u fresh full small fits room next =
    absurd (omega (arith, leb→le size (length cur + 1) full))
deal_full k v rest size done cur (suc e) u fresh full small fits room next =
    deal_next k v rest size done cur e u fresh full
      (next e (omega (arith, leb→le size (length cur + 1) full)))

pub deal :
    (rest : Requests) (size : ℕ) (done : List Requests) (cur : Requests) (e : ℕ)
    → Unique rest
    → Fresh rest done cur
    → length cur < size
    → Fits size done
    → length rest + length cur ≤ size * suc e
    → Dealt rest size done cur e
deal [] size done cur e u fresh small fits room = Dealt-out size done cur e (omega arith) fits
deal ((k, v) ∷ rest) size done cur e u fresh small fits room =
    elim (Bool-cases (leb size (length cur + 1))) [
      | inr more ↦ deal_on k v rest size done cur e u fresh more (
          deal rest size done (insert k v cur) e u.1 (Fresh-rest k v rest size done cur e u fresh)
            (ground (arith, now)) fits (omega (arith, now)))
      | inl full ↦ deal_full k v rest size done cur e u fresh full small fits room λ e' room'.
          deal rest size (done ++ insert k v cur ∷ []) [] e' u.1
            (Fresh-next k v rest size done cur e u fresh) (omega arith)
            (All-append (λ s. length s ≤ size) done (insert k v cur ∷ []) fits
              (omega (arith, now), tt))
            (omega arith)
    ]
  where
    now : length (insert k v cur) ≡ length cur + 1
    now = length_now k v rest size done cur e u fresh
