-- ===== src/Server/Responder/Schedule/Hands.antt =====
-- How a round of the scheduler hands the requests to the workers.
use orbstrike.Common.{
  ℕ, zero, suc, ◌+◌, ◌^◌, ◌/◌, ◌≤◌, ◌<◌, ◌≡◌, refl, sym, ap, ◌∙◌, ◌⊎◌, inl, inr, true, List, [],
  ◌∷◌, ◌++◌, some, ℤ, pos, negsuc, ◌+ℤ◌, int64_id, quot_ℤ, lookup, int_eq, Unique, ltb, length,
  get_elem?, length-append, All, arith, get_elem?-middle, set-middle, Bool-cases,
}
use mathlib.Core.List.{append_assoc}
use orbstrike.Server.Responder.Split.{Requests, split_request_map, moves_of, held}
use orbstrike.Server.Responder.Split.Shares.{split_request_map-Shared}
use orbstrike.Server.Responder.Pool.{PoolWorker, Pool}
use orbstrike.Server.Responder.Pool.Adjust.{Open, Sized, adjust_workers-Sized}
use orbstrike.Server.Responder.Schedule.{
  Outcome, sent, handed, waits, add_response, hand_out, worker_count, share_out, schedule_round,
}

abbrev pub with_task : Requests → PoolWorker → PoolWorker
with_task slice w = record w { queue = w.queue ++ slice ∷ [] }

-- Each slice stands at the end of the queue of the worker at its place; the workers behind are as
-- they were.
abbrev pub Queued : List Requests → List PoolWorker → List PoolWorker → Type 0
Queued [] ws ws' = ws' ≡ ws
Queued (s ∷ ss) (w ∷ ws) (v ∷ vs) = (v ≡ with_task s w) × Queued ss ws vs
Queued (s ∷ ss) _ _ = ⊥

abbrev pub IsFull : PoolWorker → Type 0
IsFull w = w.capacity ≤ length w.queue

-- The outcomes of handing slices to workers, of which `first` have theirs.
pub data Hands (slices : List Requests) (first ws : List PoolWorker) (p : Pool) (o : Outcome)
    : Type 0 where
  all :
      (vs : List PoolWorker)
      → Queued slices ws vs
      → All Open vs
      → o ≡ handed (record p { workers = first ++ vs })
      → Hands slices first ws p o
  stuck :
      (i : ℕ) (w : PoolWorker)
      → get_elem? ws i ≡ some w
      → IsFull w
      → o ≡ waits (length first + i)
      → Hands slices first ws p o

next_round :
    (s : Requests) (w : PoolWorker) (first ws : List PoolWorker) (slices : List Requests) (p : Pool)
    → Open w
    → ltb (length w.queue) w.capacity ≡ true
    → p.workers ≡ first ++ w ∷ ws
    → hand_out (s ∷ slices) (length first) p
      ≡ hand_out slices (length first + 1) (record p { workers = first ++ with_task s w ∷ ws })
unfolding hand_out add_response
next_round s w first ws slices p o room q =
    let a : add_response s w ≡ sent (with_task s w) = rw (o, room) in
    let g : get_elem? p.workers (length first) ≡ some w = rw q (get_elem?-middle first w ws) in
    rw (g, hand_out)
      (rw (a, hand_out)
        (ap (λ l. hand_out slices (length first + 1) (record p { workers = l }))
          (rw q (set-middle first w (with_task s w) ws))))

Hands-cons :
    (slices : List Requests) (s : Requests) (w : PoolWorker) (first ws : List PoolWorker) (p : Pool)
    {o : Outcome}
    → Open w
    → Hands slices
        (first ++ with_task s w ∷ [])
        ws
        (record p { workers = first ++ with_task s w ∷ ws })
        o
    → Hands (s ∷ slices) first (w ∷ ws) p o
Hands-cons slices s w first ws p c (all vs q o e) =
    all (with_task s w ∷ vs) (refl, q) (c, o)
      (e ∙ ap (λ l. handed (record p { workers = l })) (append_assoc first (with_task s w ∷ []) vs))
Hands-cons slices s w first ws p c (stuck i v g f e) =
    stuck (suc i) v g f (e ∙ ap waits (omega (arith, length-append first (with_task s w ∷ []))))

hand_out-Hands :
    (slices : List Requests) (first ws : List PoolWorker) (p : Pool)
    → length slices ≤ length ws
    → All Open ws
    → p.workers ≡ first ++ ws
    → Hands slices first ws p (hand_out slices (length first) p)
unfolding hand_out add_response
hand_out-Hands [] first ws p l o q = all ws refl o (ap (λ l. handed (record p { workers = l })) q)
hand_out-Hands (s ∷ slices) first [] p l o q = absurd (omega (arith, l))
hand_out-Hands (s ∷ slices) first (w ∷ ws) p l o q =
    elim (Bool-cases (ltb (length w.queue) w.capacity)) [
      | inr none_left ↦ stuck 0 w refl (ground arith) (
          rw (q, get_elem?-middle first w ws, hand_out)
            (rw (o.0, none_left) (ap waits (omega arith))))
      | inl room ↦
          let shape : first ++ with_task s w ∷ ws ≡ (first ++ with_task s w ∷ []) ++ ws =
            sym (append_assoc first (with_task s w ∷ []) ws) in
          let long : length (first ++ with_task s w ∷ []) ≡ length first + 1 =
            length-append first (with_task s w ∷ []) in
          let e = next_round s w first ws slices p o.0 room q in
          let h =
            hand_out-Hands slices (first ++ with_task s w ∷ []) ws
              (record p { workers = first ++ with_task s w ∷ ws }) (omega (arith, l)) o.1 shape in
          rw e (Hands-cons slices s w first ws p o.0 (rw long at h))
    ]

worker_count_lem :
    (n k : ℕ) → n + suc k < 2 ^ 63 → worker_count n (pos (suc k)) ≡ some (pos ((n + k) / suc k))
unfolding worker_count quot_ℤ ◌+ℤ◌
worker_count_lem n k h =
    let sum : pos n +ℤ pos (suc k) ≡ pos (n + suc k) = ground arith in
    let less : pos (n + suc k) +ℤ negsuc 0 ≡ pos (n + k) = ground arith in
    rw (sum, int64_id (pos (n + suc k)) (omega (arith, h), omega arith), less)
      (rw (int64_id (pos (n + k)) (omega (arith, h), omega arith)) refl)

count_pos : (n k : ℕ) → (n ≡ 0) ⊎ (0 < (n + k) / suc k)
count_pos zero k = inl refl
count_pos (suc n) k = inr (grind arith)

-- A round with `n` requests counted and `requests` found under the lock: the pool has the desired
-- size, each session's move is in one slice, once, if any request was counted, and the slices are
-- handed to the workers.
pub record Handing (n desired : ℕ) (requests : Requests) (p : Pool) (o : Outcome) : Type 0 where
  pub sized : Sized desired p
  pub slices : List Requests
  pub moves : (n ≡ 0) × (slices ≡ []) ⊎ ((j : ℤ) → moves_of j slices ≡ held (lookup j requests))
  pub hands : Hands slices [] sized.pool.workers sized.pool o

module _ (requests : Requests) (u : Unique requests) where
  share_out-Handing :
      (n desired : ℕ) (p : Pool) (z : Sized desired p)
      → (n ≡ 0) ⊎ (0 < desired)
      → Handing n desired requests p (share_out requests (pos desired) z.pool)
  unfolding share_out split_request_map
  share_out-Handing n zero p z due = record {
    sized = z;
    slices = [];
    moves = inl (ground arith, refl);
    hands = hand_out-Hands [] [] z.pool.workers z.pool (omega arith) z.open_workers refl;
  }
  share_out-Handing n (suc d) p z due =
      let s = split_request_map-Shared requests (suc d) (omega arith) u in
      record {
        sized = z;
        slices = s.slices;
        moves = inr s.moves;
        hands =
            rw (s.returns, share_out)
              (hand_out-Hands s.slices [] z.pool.workers z.pool (omega (arith, s.count, z.count))
                z.open_workers refl);
      }

-- With a positive number of requests to a worker, channels of a size that is not negative and only
-- open ones in the pool, a round of the scheduler does not panic: it brings the pool to the size
-- for the requests that were counted, deals those that it finds under the lock, each into one
-- slice, unless none was counted, and puts each slice at the end of one worker's queue, unless it waits at a worker whose
-- channel is full.
pub schedule_round-Handing :
    (n k size : ℕ) (requests : Requests) (p : Pool)
    → n + suc k < 2 ^ 63
    → p.max_queue_size ≡ pos size
    → All Open p.workers
    → Unique requests
    → Handing n ((n + k) / suc k) requests p (schedule_round n requests (pos (suc k)) p)
unfolding schedule_round
schedule_round-Handing n k size requests p small sizes o u =
    let z = adjust_workers-Sized ((n + k) / suc k) size p sizes o in
    rw (worker_count_lem n k small, schedule_round)
      (rw (z.returned, schedule_round)
        (share_out-Handing requests u n ((n + k) / suc k) p z (count_pos n k)))
