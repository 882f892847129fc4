-- ===== src/Orchestrator/Focontroller.antt =====
-- `StartScheduler` of orchestrator/focontroller/focontroller.go: one round of its loop. The log and
-- the waiting are left out.
pub mod Failover
use orbstrike.Common.{
  Bool, false, List, [], ◌∷◌, none, some, Text, codes, ℤ, eqb_ℤ, format_int, atoi, if◌then◌else◌,
}
use orbstrike.Redis.{Redis, ok, nil, failed}
use orbstrike.Keys.{index_key}
use orbstrike.Orchestrator.Algo.Allocators.{reallocate_games}
use orbstrike.Orchestrator.Algo.Searchers.{find_unhandled_game_maps}

unfoldable pub focontroller_key : Text
focontroller_key = codes "orchestrator:focontroller"

module _ (r : Redis) where
  open r use {Db, setnx, get, smembers}

  -- Whether the key, which lapses unless it is set again, names this orchestrator. The error of
  -- SetNX is dropped.
  unfoldable pub leads : ℤ → ℤ → Db → Bool × Db
  unfolding focontroller_key
  leads orchestrator_id threshold d =
      let (reply, d') =
        get focontroller_key (setnx focontroller_key (format_int orchestrator_id) threshold d).1 in
      elim reply [
        | ok text ↦ elim (atoi text) [
          | none ↦ (false, d')
          | some id ↦ (eqb_ℤ id orchestrator_id, d')
        ]
        | nil ↦ (false, d')
        | failed e ↦ (false, d')
      ]

  -- The games of the servers whose addresses are gone are moved.
  unfoldable pub reallocate_unhandled : List Text → Db → Db
  reallocate_unhandled keys d =
      let (ids, d') = find_unhandled_game_maps r keys d in
      elim ids [ [] ↦ d' | id ∷ rest ↦ reallocate_games r (id ∷ rest) d' ]

  -- A failed SMembers leaves no keys.
  unfoldable pub fail_over : Db → Db
  unfolding reallocate_unhandled
  fail_over d =
      let (reply, d') = smembers index_key d in
      elim reply [
        | ok keys ↦ reallocate_unhandled keys d'
        | nil ↦ reallocate_unhandled [] d'
        | failed e ↦ reallocate_unhandled [] d'
      ]

  unfoldable pub run_round : ℤ → ℤ → Db → Db
  unfolding leads fail_over
  run_round orchestrator_id threshold d =
      let (lead, d') = leads orchestrator_id threshold d in if lead then fail_over d' else d'
