-- ===== src/Tests/Cluster.antt =====
-- The orchestrator at concrete inputs: two servers, 3 and 4, of which 3 holds game 7.
use orbstrike.Common.{
  ◌≡◌, ◌≢◌, Text, true, refl, [], ◌∷◌, none, some, pos, negsuc, lookup, text_eq, text_eqb, codes,
  arith, format_int, atoi, sscanf,
}
use orbstrike.Keys.{
  addr_key, addr_suffix, index_key, games_key, gserver, game_suffix, games_suffix,
  sscanf_part-games_key,
}
use orbstrike.Redis.Memory.{Store, memory, memory-IsRedis, set_at, hash_at, contains}
use orbstrike.Orchestrator.Algo.Allocators.{allocate_game, reallocate_games}
use orbstrike.Orchestrator.Algo.Placement.{Placed}
use orbstrike.Orchestrator.Algo.Allocation.{Moved, allocate_game-Moved}
use orbstrike.Orchestrator.Algo.Balance.{Balanced, allocate_game-Balanced}
use orbstrike.Orchestrator.Algo.Reallocation.{reallocate_games-Placed}
use orbstrike.Server.Crypto.{decrypt_user_key}
use orbstrike.Redis.{Same, ok}
use orbstrike.Orchestrator.Focontroller.{focontroller_key, run_round}
use orbstrike.Orchestrator.Focontroller.Failover.{run_round-Placed, run_round-Same}
use orbstrike.Orchestrator.Crypto.RoundTrip.{decrypt_user_key-encrypt_user_key}
use orbstrike.Orchestrator.Algo.Searchers.{find_gserver}
use orbstrike.Orchestrator.Algo.Location.{Located, find_gserver-Located}
use orbstrike.Tests.Samples.{tagged, tagged-IsAead, ada_key, encrypt_ada}

abbrev pub cluster : Store
cluster = record {
  sets = (index_key, games_key (pos 3) ∷ games_key (pos 4) ∷ []) ∷ [];
  hashes = (games_key (pos 3), (b'7' ∷ [], b'3' ∷ []) ∷ []) ∷ [];
  strings = [];
}

pub cluster-Placed : Placed memory cluster (pos 7)
unfolding contains set_at hash_at lookup index_key games_key atoi text_eqb codes gserver format_int
    games_suffix
cluster-Placed = record {
  key = games_key (pos 3);
  name = b'7' ∷ [];
  instance_id = b'3' ∷ [];
  listed = refl;
  held = refl;
  reads = refl;
}

reallocate_games-Placed_example :
    Placed memory (reallocate_games memory (pos 3 ∷ []) cluster) (pos 7)
reallocate_games-Placed_example =
    reallocate_games-Placed memory memory-IsRedis (pos 3 ∷ []) cluster (pos 7) ((omega arith), tt)
      cluster-Placed

allocate_game_fine : (allocate_game memory (pos 8) (games_key (pos 3)) cluster).0 ≡ none
unfolding allocate_game set_at hash_at lookup index_key games_key sscanf text_eqb codes gserver
    format_int games_suffix
allocate_game_fine = refl

allocate_game-Moved_example :
    Moved memory memory-IsRedis
      (pos 8)
      (games_key (pos 3))
      cluster
      (allocate_game memory (pos 8) (games_key (pos 3)) cluster).1
allocate_game-Moved_example =
    allocate_game-Moved memory memory-IsRedis (pos 8) (games_key (pos 3)) cluster allocate_game_fine

-- Server 4 holds no game, server 3 one.
three_listed : memory.member cluster index_key (games_key (pos 3)) ≡ true
unfolding contains set_at lookup index_key games_key text_eqb codes gserver format_int games_suffix
three_listed = refl

allocated_fine : (allocate_game memory (pos 8) [] cluster).0 ≡ none
unfolding allocate_game set_at hash_at lookup index_key games_key sscanf text_eqb codes gserver
    format_int games_suffix
allocated_fine = refl

three_named : games_key (pos 3) ≢ []
unfolding games_key gserver codes
three_named h = cc

allocate_game-Balanced_example :
    Balanced memory memory-IsRedis cluster
      (pos 8)
      []
      (games_key (pos 3))
      (allocate_game memory (pos 8) [] cluster).1
allocate_game-Balanced_example =
    allocate_game-Balanced memory memory-IsRedis cluster (pos 8) [] (games_key (pos 3))
      allocated_fine three_listed three_named

sscanf_part-games_key_example :
    sscanf gserver game_suffix (games_key (negsuc 41)) ≡ some (negsuc 41)
sscanf_part-games_key_example = sscanf_part-games_key (negsuc 41) (omega arith)

decrypt_user_key-encrypt_user_key_example :
    decrypt_user_key tagged ada_key [] ≡ some (record { id = pos 1; err = none })
decrypt_user_key-encrypt_user_key_example =
    decrypt_user_key-encrypt_user_key tagged tagged-IsAead (pos 1) (omega arith) [] (9 ∷ 9 ∷ [])
      ada_key refl encrypt_ada

run_round-Placed_example : Placed memory (run_round memory (pos 5) (pos 1000) cluster) (pos 7)
run_round-Placed_example =
    run_round-Placed memory memory-IsRedis (pos 5) (pos 1000) cluster (pos 7) cluster-Placed

-- Orchestrator 9 leads.
abbrev led : Store
led = record cluster { strings = (focontroller_key, b'9' ∷ []) ∷ [] }

nine_read : (memory.get focontroller_key led).0 ≡ ok (b'9' ∷ [])
unfolding lookup focontroller_key text_eqb codes
nine_read = refl

nine_kept : (memory.setnx focontroller_key (format_int (pos 5)) (pos 1000) led).1 ≡ led
unfolding lookup focontroller_key text_eqb codes
nine_kept = refl

nine_is : atoi (b'9' ∷ []) ≡ some (pos 9)
unfolding atoi
nine_is = refl

nine_leads :
    (text : Text)
    → (memory.get focontroller_key
        (memory.setnx focontroller_key (format_int (pos 5)) (pos 1000) led).1).0
      ≡ ok text
    → atoi text ≢ some (pos 5)
nine_leads text h q =
    let nine : text ≡ b'9' ∷ [] = cc (rw nine_kept at h, nine_read) in cc (nine, nine_is, q)

run_round-Same_example : Same memory led (run_round memory (pos 5) (pos 1000) led)
run_round-Same_example = run_round-Same memory memory-IsRedis (pos 5) (pos 1000) led nine_leads

-- Server 3 has an address.
abbrev pub addressed : Store
addressed = record cluster { strings = (addr_key (b'3' ∷ []), b'h' ∷ []) ∷ [] }

pub found_seven :
    (find_gserver memory (b'7' ∷ []) addressed).0 ≡ record { addr = b'h' ∷ []; err = none }
unfolding find_gserver set_at hash_at lookup index_key games_key text_eqb codes gserver format_int
    games_suffix addr_key addr_suffix
found_seven = refl

abbrev pub host : Text
host = b'h' ∷ []

pub host_nonempty : host ≢ []
host_nonempty h = cc

find_gserver-Located_example :
    Located memory memory-IsRedis (b'7' ∷ []) host host_nonempty addressed
find_gserver-Located_example =
    find_gserver-Located memory memory-IsRedis (b'7' ∷ []) host host_nonempty addressed found_seven
