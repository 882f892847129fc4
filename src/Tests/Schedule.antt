-- ===== src/Tests/Schedule.antt =====
-- The scheduler, a worker and the synchronisation at concrete inputs.
use orbstrike.Common.{refl, ◌≡◌, ◌/◌, ◌+◌, [], ◌∷◌, some, pos, arith, lookup, text_eq, int_eq, ℤ}
use orbstrike.Server.State.{Server}
use orbstrike.Server.Responder.Invariant.{BoardsOk}
use orbstrike.Server.Responder.Schedule.{schedule_round, drain}
use orbstrike.Server.Responder.Schedule.Hands.{Handing, schedule_round-Handing}
use orbstrike.Server.Responder.Schedule.Drain.{drain-BoardsOk}
use orbstrike.Tests.Samples.{whole, tagged, tagged-IsAead, ada_issued, strike_bob, server}
use orbstrike.Tests.Responder.{three_requests, server-BoardsOk}
use orbstrike.Tests.Workers.{trio}

-- Three requests, ten to a worker: one worker is left.
schedule_round-Handing_example :
    Handing 3 ((3 + 9) / 10) three_requests trio (schedule_round 3 three_requests (pos 10) trio)
unfolding lookup
schedule_round-Handing_example =
    schedule_round-Handing 3 9 15 three_requests trio (omega arith) refl (refl, (refl, (refl, tt)))
      (refl, (refl, (refl, tt)))

drain-BoardsOk_example :
    (s' : Server ℤ) × (drain whole tagged
        ((three_requests, (λ j. 3)) ∷ ((pos 5, strike_bob) ∷ [], (λ j. 0)) ∷ [])
        server
      ≡ some s')
    × BoardsOk s'.boards
drain-BoardsOk_example =
    drain-BoardsOk whole tagged tagged-IsAead
      ((three_requests, (λ j. 3)) ∷ ((pos 5, strike_bob) ∷ [], (λ j. 0)) ∷ []) server (omega arith)
      ((ada_issued, (ada_issued, (ada_issued, tt))), ((ada_issued, tt), tt)) server-BoardsOk
