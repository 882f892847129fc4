-- ===== src/Orchestrator/Focontroller/Failover.antt =====
-- What a round of the failover controller does to the games that are placed.
use orbstrike.Common.{
  ◌≢◌, refl, ap, ◌∙◌, some, eqb_ℤ, eqb_ℤ_iff, ◌≡◌, inl, inr, false, List, [], ◌∷◌, Text, ℤ, IsInt64,
  All, format_int, sscanf, sscanf-IsInt64, atoi, Option-cases, Bool-cases,
}
use orbstrike.Redis.{
  Redis, IsRedis, Same, Same-refl, Same-trans, ok, is_ok, is_nil, is_failed, Reply-cases,
}
use orbstrike.Keys.{index_key, gserver, game_suffix, addr_key}
use orbstrike.Orchestrator.Algo.Allocators.{reallocate_games}
use orbstrike.Orchestrator.Algo.Searchers.{find_unhandled_game_maps}
use orbstrike.Orchestrator.Algo.Placement.{Grows-Same, Placed, Placed-Grows}
use orbstrike.Orchestrator.Algo.Reallocation.{reallocate_games-Placed}
use orbstrike.Orchestrator.Focontroller.{
  focontroller_key, leads, reallocate_unhandled, fail_over, run_round,
}

module _ (r : Redis) (laws : IsRedis r) where
  Same-leads :
      (orchestrator_id threshold : ℤ) (d : r.Db) → Same r d (leads r orchestrator_id threshold d).1
  unfolding leads
  Same-leads orchestrator_id threshold d =
      let d' = (r.setnx focontroller_key (format_int orchestrator_id) threshold d).1 in
      let s =
        Same-trans r (laws.setnx_same focontroller_key (format_int orchestrator_id) threshold d)
          (laws.get_same focontroller_key d') in
      elim (Reply-cases (r.get focontroller_key d').0) [
        | is_ok text e ↦
            rw (e, leads)
              (elim (Option-cases (atoi text)) [
                | inl bad ↦ rw (bad, leads) s
                | inr (id, q) ↦ rw (q, leads) s
              ])
        | is_nil e ↦ rw (e, leads) s
        | is_failed t e ↦ rw (e, leads) s
      ]

  -- The servers found have numbers in range, and looking for them changes no set or hash.
  find_unhandled_game_maps-Same :
      (keys : List Text) (d : r.Db)
      → All IsInt64 (find_unhandled_game_maps r keys d).0
        × Same r d (find_unhandled_game_maps r keys d).1
  unfolding find_unhandled_game_maps
  find_unhandled_game_maps-Same [] d = (tt, Same-refl r d)
  find_unhandled_game_maps-Same (key ∷ keys) d =
      elim (Option-cases (sscanf gserver game_suffix key)) [
        | inl bad ↦ rw (bad, find_unhandled_game_maps) (find_unhandled_game_maps-Same keys d)
        | inr (id, q) ↦
            let (l, s) =
              find_unhandled_game_maps-Same keys (r.get (addr_key (format_int id)) d).1 in
            let t = Same-trans r (laws.get_same (addr_key (format_int id)) d) s in
            rw (q, find_unhandled_game_maps)
              (elim (Reply-cases (r.get (addr_key (format_int id)) d).0) [
                | is_ok a e ↦ rw e (l, t)
                | is_nil e ↦ rw e ((sscanf-IsInt64 gserver game_suffix key id q, l), t)
                | is_failed x e ↦ rw e (l, t)
              ])
      ]

  any_moved :
      (ids : List ℤ) (d : r.Db) (id : ℤ)
      → All IsInt64 ids
      → Placed r d id
      → Placed r (elim ids [ [] ↦ d | i ∷ rest ↦ reallocate_games r (i ∷ rest) d ]) id
  any_moved [] d id l p = p
  any_moved (i ∷ ids) d id l p = reallocate_games-Placed r laws (i ∷ ids) d id l p

  reallocate_unhandled-Placed :
      (keys : List Text) (d : r.Db) (id : ℤ)
      → Placed r d id
      → Placed r (reallocate_unhandled r keys d) id
  unfolding reallocate_unhandled
  reallocate_unhandled-Placed keys d id p =
      let (l, s) = find_unhandled_game_maps-Same keys d in
      any_moved (find_unhandled_game_maps r keys d).0 (find_unhandled_game_maps r keys d).1 id l
        (Placed-Grows r id (Grows-Same r s) p)

  fail_over-Placed : (d : r.Db) (id : ℤ) → Placed r d id → Placed r (fail_over r d) id
  unfolding fail_over
  fail_over-Placed d id p =
      let q = Placed-Grows r id (Grows-Same r (laws.smembers_same index_key d)) p in
      elim (Reply-cases (r.smembers index_key d).0) [
        | is_ok keys e ↦ rw (e, fail_over) (reallocate_unhandled-Placed keys _ id q)
        | is_nil e ↦ rw (e, fail_over) (reallocate_unhandled-Placed [] _ id q)
        | is_failed t e ↦ rw (e, fail_over) (reallocate_unhandled-Placed [] _ id q)
      ]

  -- A round of the failover controller loses no placed game, whether it leads or not and whichever
  -- commands fail on the way.
  pub run_round-Placed :
      (orchestrator_id threshold : ℤ) (d : r.Db) (id : ℤ)
      → Placed r d id
      → Placed r (run_round r orchestrator_id threshold d) id
  unfolding run_round
  run_round-Placed orchestrator_id threshold d id p =
      let s = Same-leads orchestrator_id threshold d in
      let q = Placed-Grows r id (Grows-Same r s) p in
      elim (Bool-cases (leads r orchestrator_id threshold d).0) [
        | inl lead ↦ rw lead (fail_over-Placed _ id q)
        | inr follows ↦ rw follows q
      ]

  unread_follows :
      (orchestrator_id threshold : ℤ) (d : r.Db)
      → ((text : Text)
          → (r.get focontroller_key
              (r.setnx focontroller_key (format_int orchestrator_id) threshold d).1).0
            ≡ ok text
          → atoi text ≢ some orchestrator_id)
      → (leads r orchestrator_id threshold d).0 ≡ false
  unfolding leads
  unread_follows orchestrator_id threshold d other =
      let d' = (r.setnx focontroller_key (format_int orchestrator_id) threshold d).1 in
      elim (Reply-cases (r.get focontroller_key d').0) [
        | is_nil e ↦ rw (e, leads) refl
        | is_failed t e ↦ rw (e, leads) refl
        | is_ok text e ↦
            rw (e, leads)
              (elim (Option-cases (atoi text)) [
                | inl q ↦ rw (q, leads) refl
                | inr (id, q) ↦
                    rw (q, leads)
                      (elim (Bool-cases (eqb_ℤ id orchestrator_id)) [
                        | inr ne ↦ ne
                        | inl eq ↦
                            absurd
                              (other text e (q ∙ ap some ((eqb_ℤ_iff id orchestrator_id).0 eq)))
                      ])
              ])
      ]

  -- Unless the controller's key, once SetNX was tried, is read as the number of the orchestrator, the
  -- orchestrator changes no set and no hash in its round: not if the key names another one, is no
  -- number or is gone, and not if the reading fails.
  pub run_round-Same :
      (orchestrator_id threshold : ℤ) (d : r.Db)
      → ((text : Text)
          → (r.get focontroller_key
              (r.setnx focontroller_key (format_int orchestrator_id) threshold d).1).0
            ≡ ok text
          → atoi text ≢ some orchestrator_id)
      → Same r d (run_round r orchestrator_id threshold d)
  unfolding run_round
  run_round-Same orchestrator_id threshold d other =
      rw (unread_follows orchestrator_id threshold d other) (Same-leads orchestrator_id threshold d)
