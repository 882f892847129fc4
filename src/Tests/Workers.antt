-- ===== src/Tests/Workers.antt =====
-- The pool of workers at a concrete input: three workers become one.
use orbstrike.Common.{[], ◌∷◌, pos, false}
use orbstrike.Server.Responder.Pool.{Pool, PoolWorker}

abbrev busy : PoolWorker
busy = record { queue = [] ∷ []; capacity = 15; closed = false }

abbrev pub trio : Pool
trio = record { workers = busy ∷ busy ∷ busy ∷ []; max_queue_size = pos 15; retired = [] }
