-- ===== src/Server/Responder/Split/Shares.antt =====
-- `splitRequestMap` deals the requests out: none is lost, none is dealt twice, no slice overflows.
use orbstrike.Common.{
  ℕ, zero, suc, ◌+◌, ◌-◌, ◌*◌, ◌/◌, ◌≤◌, ◌<◌, ◌≡◌, refl, List, [], ◌∷◌, some, ℤ, pos, lookup,
  Unique, int_eq, arith, length, replicate, length-replicate,
}
use orbstrike.Server.Game.{Move}
use orbstrike.Server.Responder.Split.{Requests, split_request_map, held, moves_of, moves_of-blank}
use orbstrike.Server.Responder.Split.Dealing.{Fits, Fits-blank, Dealt, deal}

-- The size of a slice: the number of requests over the number of slices, rounded up.
abbrev pub share : ℕ → ℕ → ℕ
share n d = (n + d - 1) / d

share_enough : (n d : ℕ) → n ≤ share n (suc d) * suc d
share_enough n d = grind arith

pub record Shared (requests : Requests) (d : ℕ) : Type 0 where
  pub slices : List Requests
  pub returns : split_request_map requests (pos d) ≡ some slices
  pub count : length slices ≡ d
  pub fits : Fits (share (length requests) d) slices
  pub moves : (j : ℤ) → moves_of j slices ≡ held (lookup j requests)

split_none : (n : ℕ) → Shared [] (suc n)
unfolding split_request_map lookup
split_none n = record {
  slices = replicate (suc n) [];
  returns = refl;
  count = length-replicate {A = Requests} (suc n) [];
  fits = Fits-blank _ (suc n);
  moves = λ j. moves_of-blank j (suc n);
}

share_pos : (n d : ℕ) → 0 < share (suc n) (suc d)
share_pos n d = grind (arith, share_enough (suc n) d)

split_some :
    (x : ℤ × Move) (requests : Requests) (n : ℕ)
    → Unique (x ∷ requests)
    → Shared (x ∷ requests) (suc n)
unfolding split_request_map lookup
split_some x requests n u = record {
  slices = d.out;
  returns = d.returns;
  count = omega (arith, d.count);
  fits = d.fits;
  moves = d.moves;
}
  where
    d : Dealt (x ∷ requests) (share (suc (length requests)) (suc n)) [] [] n
    d =
        deal (x ∷ requests) (share (suc (length requests)) (suc n)) [] [] n u
          (λ j v h. (refl, refl)) (share_pos (length requests) n) tt
          (omega (arith, share_enough (suc (length requests)) n))

-- Requests dealt into a positive number of slices: the loop never leaves the slices, there are as
-- many of them as asked for, none holds more than its share, and each session's move is in exactly
-- one of them, once.
pub split_request_map-Shared :
    (requests : Requests) (d : ℕ) → 0 < d → Unique requests → Shared requests d
split_request_map-Shared requests zero some_slice u = absurd (omega arith)
split_request_map-Shared [] (suc n) some_slice u = split_none n
split_request_map-Shared (x ∷ requests) (suc n) some_slice u = split_some x requests n u
