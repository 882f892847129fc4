-- ===== src/Orchestrator/Proxy/Routing.antt =====
-- Where ProxyGameboard sends a player.
use orbstrike.Common.{
  ◌≡◌, ◌≢◌, refl, ap, ◌∙◌, inl, inr, List, [], ◌∷◌, Option, none, some, Text, text_eqb,
  text_eqb_iff, arith, Option-cases, Bool-cases,
}
use orbstrike.Redis.{Redis, IsRedis}
use orbstrike.Orchestrator.Algo.Searchers.{Found, find_gserver}
use orbstrike.Orchestrator.Algo.Location.{Located, find_gserver-Located}
use orbstrike.Orchestrator.Proxy.{
  gameid_md_key, Grpc, streams, connect, look_up, with_gameid, proxy_gameboard,
}

module _ (r : Redis) (laws : IsRedis r) {Credentials : Type 0} (g : Grpc Credentials)
    (gs_credentials : Option Credentials) where
  -- The request names one game, a listed server holds the game and answers with the address, and
  -- the connection and the stream were opened.
  pub record Routed (metadata : Option (Text → List Text)) (address : Text) (d : r.Db)
      : Type 0 where
    pub get : Text → List Text
    pub sent : metadata ≡ some get
    pub gameid : Text
    pub named : get gameid_md_key ≡ gameid ∷ []
    pub some_address : address ≢ []
    pub located : Located r laws gameid address some_address d
    pub dialled : g.dial gs_credentials address ≡ none
    pub opened : g.open_stream address ≡ none

  connect-streams :
      (a address : Text)
      → connect g gs_credentials a ≡ streams address
      → (a ≡ address) × (g.dial gs_credentials a ≡ none) × (g.open_stream a ≡ none)
  unfolding connect
  connect-streams a address h = elim (Option-cases (g.dial gs_credentials a)) [
    | inr (e, q) ↦ ground arith
    | inl q ↦ elim (Option-cases (g.open_stream a)) [
      | inr (e, q') ↦ ground arith
      | inl q' ↦ (ground arith, q, q')
    ]
  ]

  found_is :
      (f : Found) {a : Text} → f.addr ≡ a → f.err ≡ none → f ≡ record { addr = a; err = none }
  found_is f {a} p q =
      ap (λ x. record { addr = x; err = f.err }) p ∙ ap (λ y. record { addr = a; err = y }) q

  look_up-streams :
      (gameid address : Text) (d : r.Db)
      → (look_up r g gs_credentials gameid d).0 ≡ streams address
      → ((find_gserver r gameid d).0 ≡ record { addr = address; err = none })
        × (address ≢ [])
        × (g.dial gs_credentials address ≡ none)
        × (g.open_stream address ≡ none)
  unfolding look_up
  look_up-streams gameid address d h = elim (Option-cases (find_gserver r gameid d).0.err) [
    | inr (e, q) ↦ ground arith
    | inl q ↦ elim (Bool-cases (text_eqb (find_gserver r gameid d).0.addr [])) [
      | inl empty ↦ ground arith
      | inr some_addr ↦
          let (a, dialled, opened) =
            connect-streams (find_gserver r gameid d).0.addr address (ground arith) in
          (
            found_is (find_gserver r gameid d).0 a q,
            λ n. cc (some_addr, (text_eqb_iff (find_gserver r gameid d).0.addr []).1 (a ∙ n)),
            rw a at dialled,
            rw a at opened,
          )
    ]
  ]

  with_gameid-Routed :
      (get : Text → List Text) (l : List Text) (address : Text) (d : r.Db)
      → get gameid_md_key ≡ l
      → (with_gameid r g gs_credentials l d).0 ≡ streams address
      → Routed (some get) address d
  unfolding with_gameid
  with_gameid-Routed get [] address d e h = cc
  with_gameid-Routed get (gameid ∷ other ∷ rest) address d e h = cc
  with_gameid-Routed get (gameid ∷ []) address d e h =
      let (found, ne, dialled, opened) = look_up-streams gameid address d h in
      record {
        get = get;
        sent = refl;
        gameid = gameid;
        named = e;
        some_address = ne;
        located = find_gserver-Located r laws gameid address ne d found;
        dialled = dialled;
        opened = opened;
      }

  -- A request whose streams are joined named exactly one game in its metadata, and goes to the
  -- address of a server of the index whose map holds that game.
  pub proxy_gameboard-Routed :
      (metadata : Option (Text → List Text)) (address : Text) (d : r.Db)
      → (proxy_gameboard r g gs_credentials metadata d).0 ≡ streams address
      → Routed metadata address d
  unfolding proxy_gameboard
  proxy_gameboard-Routed none address d h = cc
  proxy_gameboard-Routed (some get) address d h =
      with_gameid-Routed get (get gameid_md_key) address d refl h
