-- ===== src/Tests/Streams.antt =====
-- The streams of a gameserver at concrete inputs.
use orbstrike.Common.{ℕ, ◌≡◌, refl, [], none, some, ℤ, pos, lookup, insert, int_eq, ◌≤◌, ◌+◌}
use orbstrike.Redis.Memory.{memory}
use orbstrike.Server.State.{set_response, response, userkey_invalid}
use orbstrike.Server.Stream.{receiving, message, end_of_stream, Answers, stream_step}
use orbstrike.Server.Stream.System.{
  System, after_step, update, stream, IsStart, Reach, start, later,
}
use orbstrike.Server.Stream.System.Sessions.{Owner, Reach-Owner}
use orbstrike.Server.Stream.System.Closing.{Run, here, more, own_steps, rank, Waits, Run-Waits}
use orbstrike.Tests.Samples.{whole, tagged, go_right, server, cids}

abbrev session : ℕ → ℤ
session i = pos i

alone_five : (k : ℕ) → ◌≡◌ {A = ℤ} (session k) (session 5) → k ≡ 5
alone_five k h = cc

abbrev quiet : System ℤ
quiet = record { server = server; pcs = λ i. receiving; tasks = [] }

quiet-IsStart : IsStart whole tagged memory cids session quiet
quiet-IsStart = record {
  fresh = λ i. refl;
  no_requests = refl;
  no_responses = refl;
  no_tasks = refl;
}

-- A move to the right, or the end of the stream.
abbrev moves_right : Answers
moves_right = record { recv = message go_right; send = none }

abbrev hangs_up : Answers
hangs_up = record { recv = end_of_stream; send = none }

abbrev asked : System ℤ
asked =
    after_step (pos 5) 5 moves_right
      (after_step (pos 5) 5 moves_right (after_step (pos 5) 5 moves_right quiet))

asked-Reach : Reach whole tagged memory cids session asked
unfolding stream_step update lookup
asked-Reach =
    later
      (later (later (start quiet-IsStart) (stream 5 moves_right refl refl))
        (stream 5 moves_right refl refl))
      (stream 5 moves_right refl refl)

asked_five : lookup (pos 5) asked.server.session_requests ≡ some go_right
unfolding stream_step update lookup insert
asked_five = refl

Reach-Owner_example : Owner whole tagged memory cids session asked.pcs (pos 5)
Reach-Owner_example =
    Reach-Owner whole tagged memory cids session asked (pos 5) go_right asked-Reach asked_five

-- An error waits for the session 5.
abbrev warned : System ℤ
warned = record quiet { server = set_response (pos 5) (some userkey_invalid) server }

abbrev warned_on : System ℤ
warned_on = after_step (pos 5) 5 hangs_up warned

warned_run : Run whole tagged memory cids session warned warned_on
unfolding update
warned_run = more here (stream 5 hangs_up refl refl)

five_warned : response (pos 5) warned.server ≡ some userkey_invalid
unfolding response lookup set_response insert
five_warned = refl

Run-Waits_example :
    Waits whole tagged memory cids session 5 alone_five userkey_invalid warned_on
    × (own_steps whole tagged memory cids session 5 warned_run ≤ 6)
    × (own_steps whole tagged memory cids session 5 warned_run + rank (warned_on.pcs 5)
        ≤ rank (warned.pcs 5))
Run-Waits_example =
    Run-Waits whole tagged memory cids session 5 alone_five userkey_invalid warned warned_on
      warned_run five_warned
