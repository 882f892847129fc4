-- ===== src/Server/Responder/Schedule.antt =====
-- One round of `StartScheduler` of server/responder/scheduler.go, with `AddResponse` and
-- `StartPoolWorker` of server/responder/poolworker.go. The log and the waiting are left out.
pub mod Hands
pub mod Drain
use orbstrike.Common.{
  ℕ, suc, ◌+◌, List, [], ◌∷◌, ◌++◌, Option, none, some, ℤ, pos, negsuc, ◌+ℤ◌, int64, quot_ℤ, ltb,
  length, get_elem?, set, if◌then◌else◌,
}
use orbstrike.Cipher.{Cipher}
use orbstrike.Server.Game.{Float}
use orbstrike.Server.State.{Server}
use orbstrike.Server.Responder.Respond.{respond}
use orbstrike.Server.Responder.Split.{Requests, split_request_map}
use orbstrike.Server.Responder.Pool.{PoolWorker, Pool, adjust_workers}

-- A send on a channel: it goes through, waits for room, or panics on a closed channel.
pub data Sent : Type 0 where
  sent : PoolWorker → Sent
  full panics : Sent

unfoldable pub add_response : Requests → PoolWorker → Sent
add_response slice w =
    if w.closed
    then panics
    else if ltb (length w.queue) w.capacity
    then sent (record w { queue = w.queue ++ slice ∷ [] })
    else full

-- The outcome of a round: the slices are handed out, the scheduler waits for the worker `i`, or it
-- panics.
pub data Outcome : Type 0 where
  handed : Pool → Outcome
  waits : ℕ → Outcome
  panicked : Outcome

-- The loop over the slices.
unfoldable pub hand_out : List Requests → ℕ → Pool → Outcome
unfolding add_response
hand_out [] i p = handed p
hand_out (slice ∷ slices) i p = elim (get_elem? p.workers i) [
  | none ↦ panicked
  | some w ↦ elim (add_response slice w) [
    | panics ↦ panicked
    | full ↦ waits i
    | sent v ↦ hand_out slices (i + 1) (record p { workers = set p.workers i v })
  ]
]

-- (len(srv.SessionRequests) + srv.RequestPerWorker -1) / srv.RequestPerWorker, in 64 bits
unfoldable pub worker_count : ℕ → ℤ → Option ℤ
worker_count n per_worker = quot_ℤ (int64 (int64 (pos n +ℤ per_worker) +ℤ negsuc 0)) per_worker

-- With a negative count the loop that stops workers comes to the index -1.
unfoldable pub adjust_count : ℤ → Pool → Option Pool
unfolding adjust_workers
adjust_count (pos n) p = adjust_workers n p
adjust_count (negsuc n) p = none

unfoldable pub share_out : Requests → ℤ → Pool → Outcome
unfolding hand_out split_request_map
share_out requests count p = elim (split_request_map requests count) [
  | none ↦ panicked
  | some slices ↦ hand_out slices 0 p
]

-- `n` is the number of requests when they are counted, `requests` are those that are there once the
-- lock is held.
unfoldable pub schedule_round : ℕ → Requests → ℤ → Pool → Outcome
unfolding worker_count adjust_count share_out
schedule_round n requests per_worker p = elim (worker_count n per_worker) [
  | none ↦ panicked
  | some count ↦ elim (adjust_count count p) [
    | none ↦ panicked
    | some q ↦ share_out requests count q
  ]
]

module _ (fl : Float) (c : Cipher) where
  open fl use {F}

  -- The loop of a worker over the tasks that its channel holds, each with its random numbers. On a
  -- closed channel the loop returns after the last one.
  unfoldable pub drain : List (Requests × (ℤ → ℕ)) → Server F → Option (Server F)
  unfolding respond
  drain [] s = some s
  drain ((slice, rolls) ∷ tasks) s = elim (respond fl c slice rolls s) [
    | none ↦ none
    | some s' ↦ drain tasks s'
  ]
