-- ===== src/Tests/Relay.antt =====
-- The proxy at concrete inputs.
use orbstrike.Common.{
  true, false, ◌≡◌, ◌≢◌, refl, [], ◌∷◌, List, none, some, Text, ℤ, ℕ, lookup, text_eqb, codes,
  format_int,
}
use orbstrike.Keys.{index_key, games_key, gserver, games_suffix, addr_key, addr_suffix}
use orbstrike.Orchestrator.Algo.Searchers.{find_gserver}
use orbstrike.Redis.Memory.{memory, memory-IsRedis, set_at, hash_at}
use orbstrike.Orchestrator.Proxy.{Grpc, streams, proxy_gameboard}
use orbstrike.Orchestrator.Proxy.Routing.{Routed, proxy_gameboard-Routed}
use orbstrike.Orchestrator.Proxy.Loops.{
  forwarding, reporting, ended, receives, comes_to_end, waiting, Relay, writes, reads, closes,
  start_relay, Relays, here, more, MainPc,
}
use orbstrike.Orchestrator.Proxy.Loops.Carrying.{Carries, Relays-Carries, writer_stuck}
use orbstrike.Tests.Samples.{go_right}
use orbstrike.Tests.Cluster.{addressed, host}

-- A network that answers.
abbrev network : Grpc ℕ
network = record { dial = λ c a. none; open_stream = λ a. none }

-- The metadata of a player of game 7.
abbrev seven : Text → List Text
seven key = (b'7' ∷ []) ∷ []

seven_streams : (proxy_gameboard memory network none (some seven) addressed).0 ≡ streams host
unfolding proxy_gameboard find_gserver set_at hash_at lookup index_key games_key text_eqb codes
    gserver format_int games_suffix addr_key addr_suffix
seven_streams = refl

proxy_gameboard-Routed_example :
    Routed memory memory-IsRedis network none (some seven) host addressed
proxy_gameboard-Routed_example =
    proxy_gameboard-Routed memory memory-IsRedis network none (some seven) host addressed
      seven_streams

-- The reader has a move in its hands, the writer sees the end of its stream.
abbrev reading : Relay ℤ
reading = record (start_relay) {
  reader = record { pc = forwarding go_right; taken = go_right ∷ []; given = []; lost = [] };
}

abbrev both : Relay ℤ
both = record reading { writer = record { pc = reporting none; taken = []; given = []; lost = [] } }

reading_run : Relays start_relay reading
reading_run = more here (reads _ (receives go_right refl refl) refl)

both_run : Relays start_relay both
both_run = more reading_run (writes _ (comes_to_end refl refl) refl)

Relays-Carries_example : Carries both.writer × Carries both.reader
Relays-Carries_example = Relays-Carries both both_run

-- ProxyGameboard has taken the reader's error and returns, the writer comes to report another.
abbrev late : Relay ℤ
late = record {
  main = MainPc.closing none;
  exit = false;
  writer = record { pc = reporting none; taken = []; given = []; lost = [] };
  reader = record { pc = ended; taken = []; given = []; lost = [] };
}

abbrev over : Relay ℤ
over = record late { main = MainPc.returned none; exit = true }

over_run : Relays late over
over_run = more here (closes none refl refl)

writer_stuck_example : (over.main ≢ waiting) × (over.writer.pc ≡ reporting none)
writer_stuck_example = writer_stuck none late over over_run (λ h. cc) refl
