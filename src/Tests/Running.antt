-- ===== src/Tests/Running.antt =====
-- A launched gameserver at a concrete run.
use orbstrike.Common.{
  atoi, format_int, insert, int32, int_eq, ◌++◌, ◌≡◌, refl, [], ◌∷◌, none, some, codes, ℤ, pos,
  arith, lookup, text_eq, text_eqb,
}
use orbstrike.Server.Responder.Respond.{respond_one}
use orbstrike.Server.Stream.{Answers, message, stream_step}
use orbstrike.Server.Stream.System.{System, after_step, update, Step, stream, schedule, sync}
use orbstrike.Server.Stream.System.Closing.{Run, here, more}
use orbstrike.Server.Main.{cfg_file}
use orbstrike.Server.Main.Running.{booted, server_main-Run}
use orbstrike.Tests.Samples.{whole, tagged, tagged-IsAead, go_right, cids}
use orbstrike.Tests.Auth.{hosting}
use orbstrike.Server.Sync.{swap_boards, game_key}
use orbstrike.Server.Sync.Steps.{swaps}
use orbstrike.Orchestrator.Crypto.Presented.{Presented, issued}
use orbstrike.Redis.Memory.{memory}
use orbstrike.Tests.Startup.{pem, calm, old_log, silent, answers}
use orbstrike.Tests.Launch.{
  config, config_read, gameserver, gameserver_launched, viper, free, sealed_ada,
}

-- The synchronisation loads board 7.
abbrev playing : System ℤ
playing = record (booted gameserver) {
  server = (swap_boards memory cids [] ((b'7' ∷ [], []) ∷ []) gameserver.server hosting).srv;
}

-- Ada's stream 5 asks for a move, and the scheduler hands it out.
abbrev asks : Answers
asks = record { recv = message go_right; send = none }

abbrev asking : System ℤ
asking = after_step (pos 5) 5 asks (after_step (pos 5) 5 asks (after_step (pos 5) 5 asks playing))

abbrev handed_out : System ℤ
handed_out = record asking { tasks = asking.tasks ++ asking.server.session_requests }

handed_run : Run whole tagged memory cids (λ i. pos i) (booted gameserver) handed_out
unfolding update stream_step lookup swap_boards atoi text_eqb game_key codes format_int insert int32
handed_run =
    let loads = sync playing.server (swaps [] ((b'7' ∷ [], []) ∷ []) hosting refl) refl in
    more
      (more (more (more (more here loads) (stream 5 asks refl refl)) (stream 5 asks refl refl))
        (stream 5 asks refl refl))
      (schedule refl)

ada_holds : handed_out.tasks ≡ [] ++ (pos 5, go_right) ∷ []
unfolding update stream_step lookup swap_boards atoi text_eqb game_key codes format_int insert int32
ada_holds = refl

ada_known : Presented tagged config.secret go_right.userkey
ada_known = issued (pos 1) (9 ∷ 9 ∷ []) (omega arith) refl sealed_ada

server_main-Run_example :
    (u : System ℤ) × Step whole tagged memory cids (λ i. pos i) handed_out u
    × (respond_one whole tagged (pos 5) go_right 0 handed_out.server ≡ some u.server)
    × (u.tasks ≡ [])
unfolding cfg_file
server_main-Run_example =
    server_main-Run whole tagged memory cids (λ i. pos i) pem answers free viper calm old_log silent
      ([] ∷ []) tagged-IsAead config gameserver handed_out config_read gameserver_launched
      handed_run [] [] (pos 5) go_right 0 ada_holds ada_known
