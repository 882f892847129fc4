-- ===== src/Server/Responder/Pool.antt =====
-- server/responder/poolworker.go: the pool and its workers. The log is left out. A panic is `none`.
pub mod Adjust
use orbstrike.Common.{
  ℕ, zero, suc, ◌+◌, ◌-◌, Bool, true, false, List, [], ◌∷◌, ◌++◌, Option, none, some, ℤ, pos,
  negsuc, ltb, ◌==◌, length, get_elem?, set, take, drop, if◌then◌else◌,
}
use orbstrike.Server.Responder.Split.{Requests}

-- The channel of a worker. A task is the closure over a slice of the requests, for which the slice
-- stands.
pub record PoolWorker : Type 0 where
  pub queue : List Requests
  pub capacity : ℕ
  pub closed : Bool

-- `retired` holds the workers that have left the pool: their goroutines read on until their
-- channels are empty.
pub record Pool : Type 0 where
  pub workers : List PoolWorker
  pub max_queue_size : ℤ
  pub retired : List PoolWorker

-- `make` panics on a negative size.
unfoldable pub init_pool_worker : ℤ → Option PoolWorker
init_pool_worker (pos n) = some (record { queue = []; capacity = n; closed = false })
init_pool_worker (negsuc n) = none

-- `close` panics on a closed channel.
unfoldable pub stop_pool_worker : PoolWorker → Option PoolWorker
stop_pool_worker w = if w.closed then none else some (record w { closed = true })

-- The loop that adds workers.
unfoldable pub start_workers : ℕ → ℤ → List PoolWorker → Option (List PoolWorker)
unfolding init_pool_worker
start_workers zero size ws = some ws
start_workers (suc n) size ws = elim (init_pool_worker size) [
  | none ↦ none
  | some w ↦ start_workers n size (ws ++ w ∷ [])
]

-- The loop that stops workers, from the last one on: `i` of them have been stopped.
unfoldable pub stop_workers : (count i : ℕ) → List PoolWorker → Option (List PoolWorker)
unfolding stop_pool_worker
stop_workers zero i ws = some ws
stop_workers (suc n) i ws =
    if ltb i (length ws)
    then elim (get_elem? ws (length ws - i - 1)) [
      | none ↦ none
      | some w ↦ elim (stop_pool_worker w) [
        | none ↦ none
        | some v ↦ stop_workers n (i + 1) (set ws (length ws - i - 1) v)
      ]
    ]
    else none

unfoldable pub grow : ℕ → Pool → Option Pool
unfolding start_workers
grow count p = elim (start_workers count p.max_queue_size p.workers) [
  | none ↦ none
  | some ws ↦ some (record p { workers = ws })
]

unfoldable pub shrink : ℕ → Pool → Option Pool
unfolding stop_workers
shrink count p = elim (stop_workers count 0 p.workers) [
  | none ↦ none
  | some ws ↦ some (record p {
    workers = take (length ws - count) ws;
    retired = p.retired ++ drop (length ws - count) ws;
  })
]

unfoldable pub adjust_workers : ℕ → Pool → Option Pool
unfolding grow shrink
adjust_workers desired p =
    if length p.workers == desired
    then some p
    else if ltb (length p.workers) desired
    then grow (desired - length p.workers) p
    else shrink (length p.workers - desired) p
