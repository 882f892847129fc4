-- ===== src/Orchestrator/Algo/Location.antt =====
-- `FindGServer`: what an address that it returns belongs to.
use orbstrike.Common.{
  ◌≡◌, refl, sym, ◌∙◌, inl, inr, ◌≢◌, true, List, [], ◌∷◌, none, some, Text, lookup, text_eq, In,
  arith, Option-cases,
}
use orbstrike.Redis.{
  Redis, IsRedis, Same, Same-trans, Reply, ok, nil, failed, is_ok, is_nil, is_failed, Reply-cases,
}
use orbstrike.Keys.{index_key, addr_key}
use orbstrike.Orchestrator.Algo.Searchers.{found_addr, search_servers, find_gserver}

module _ (r : Redis) (laws : IsRedis r) (gameid addr : Text) (some_addr : addr ≢ []) where
  -- The address is the one that a listed server, whose map holds the game, answered to.
  pub record Located (d : r.Db) : Type 0 where
    pub key : Text
    pub instance_id : Text
    pub listed : r.member d index_key key ≡ true
    pub held : r.field d key gameid ≡ some instance_id
    pub asked : r.Db
    pub unchanged : Same r d asked
    pub answered : (r.get (addr_key instance_id) asked).0 ≡ ok addr

  found_addr-ok :
      (reply : Reply Text) → found_addr reply ≡ record { addr = addr; err = none } → reply ≡ ok addr
  unfolding found_addr
  found_addr-ok (ok a) h = ground arith
  found_addr-ok nil h = absurd (ground arith)
  found_addr-ok (failed e) h = cc

  search_servers-Located :
      (keys : List Text) (d d' : r.Db)
      → Same r d d'
      → ((x : Text) → In x keys → r.member d index_key x ≡ true)
      → (search_servers r keys gameid d').0 ≡ record { addr = addr; err = none }
      → Located d
  unfolding search_servers
  search_servers-Located [] d d' s l = λ h. absurd (ground arith)
  search_servers-Located (key ∷ keys) d d' s l =
      let t = Same-trans r s (laws.hgetall_same key d') in
      let rest = search_servers-Located keys d (r.hgetall key d').1 t (λ x m. l x (inr m)) in
      elim (Reply-cases (r.hgetall key d').0) [
        | is_ok games e ↦
            rw (e, search_servers)
              (elim (Option-cases (lookup gameid games)) [
                | inl q ↦ rw (q, search_servers) rest
                | inr (i, q) ↦
                    rw (q, search_servers)
                      (λ h. record {
                        key = key;
                        instance_id = i;
                        listed = l key (inl refl);
                        held =
                            sym (s.hashes key gameid)
                            ∙ sym (laws.hgetall_ok key d' games e gameid)
                            ∙ q;
                        asked = (r.hgetall key d').1;
                        unchanged = t;
                        answered = found_addr-ok _ h;
                      })
              ])
        | is_nil e ↦ rw (e, search_servers) rest
        | is_failed x e ↦ rw (e, search_servers) rest
      ]

  -- An address, not empty, that FindGServer returns without an error is the answer to the address
  -- key of the instance that a map of the index holds for the game.
  pub find_gserver-Located :
      (d : r.Db) → (find_gserver r gameid d).0 ≡ record { addr = addr; err = none } → Located d
  unfolding find_gserver
  find_gserver-Located d = elim (Reply-cases (r.smembers index_key d).0) [
    | is_ok keys e ↦
        rw (e, find_gserver)
          (search_servers-Located keys d (r.smembers index_key d).1 (laws.smembers_same index_key d)
            (λ x m. (laws.smembers_ok index_key d keys e x).0 m))
    | is_nil e ↦ rw (e, find_gserver) (λ h. absurd (ground arith))
    | is_failed t e ↦ rw (e, find_gserver) (λ h. absurd (ground arith))
  ]
