-- ===== src/Server/Stream/System/Sessions.antt =====
-- The requests that the server keeps belong to streams that have not closed.
use orbstrike.Common.{
  ℕ, ◌≡◌, ◌≢◌, refl, sym, ap, ◌∙◌, inl, inr, true, false, none, some, ℤ, lookup, int_eq, eqb_ℤ_iff,
  eq_cases, arith, lookup-insert, lookup-delete, Bool-cases,
}
use orbstrike.Cipher.{Cipher}
use orbstrike.Redis.{Redis}
use orbstrike.Server.Codec.{Codec}
use orbstrike.Server.Sync.Steps.{SyncStep-Aside}
use orbstrike.Server.Game.{Float, Move}
use orbstrike.Server.State.{Server}
use orbstrike.Server.Responder.Frame.{respond_one-Untouched}
use orbstrike.Server.Stream.{
  Pc, receiving, looking, storing, checking, sending, leaving, closed, Answers, stream_step,
}
use orbstrike.Server.Stream.System.{
  System, update, after_step, is_closed, Step, stream, schedule, answer, sync, Reach, start, later,
}

module _ {F : Type 0} (sid : ℤ) (a : Answers) where
  -- A stream leaves the requests of other sessions alone.
  lookup-stream_step :
      (p : Pc) (s : Server F) (j : ℤ)
      → sid ≢ j
      → lookup j (stream_step sid a p s).1.session_requests ≡ lookup j s.session_requests
  unfolding stream_step
  lookup-stream_step receiving s j ne = refl
  lookup-stream_step (looking m) s j ne = refl
  lookup-stream_step (storing m) s j ne =
      ground (arith, lookup-insert sid j m s.session_requests, eqb_ℤ_iff sid j)
  lookup-stream_step (checking m) s j ne = refl
  lookup-stream_step (sending g) s j ne = refl
  lookup-stream_step (leaving e) s j ne =
      ground (arith, lookup-delete sid j s.session_requests, eqb_ℤ_iff sid j)
  lookup-stream_step (closed e) s j ne = refl

  -- A stream that closes leaves no request behind.
  lookup-closing :
      (p : Pc) (s : Server F)
      → is_closed p ≡ false
      → is_closed (stream_step sid a p s).0 ≡ true
      → lookup sid (stream_step sid a p s).1.session_requests ≡ none
  unfolding stream_step
  lookup-closing receiving s o h = ground arith
  lookup-closing (looking m) s o h = ground arith
  lookup-closing (storing m) s o h = cc
  lookup-closing (checking m) s o h = ground arith
  lookup-closing (sending g) s o h = ground arith
  lookup-closing (leaving e) s o h =
      ground (arith, lookup-delete sid sid s.session_requests, eqb_ℤ_iff sid sid)
  lookup-closing (closed e) s o h = cc

module _ (fl : Float) (c : Cipher) (r : Redis) (codec : Codec (fl.F)) (sid : ℕ → ℤ) where
  -- Every request has a stream of its session that has not closed.
  pub record Owner (pcs : ℕ → Pc) (j : ℤ) : Type 0 where
    pub stream_of : ℕ
    pub drawn : sid stream_of ≡ j
    pub open_stream : is_closed (pcs stream_of) ≡ false

  abbrev pub Owned : System fl.F → Type 0
  Owned s = (j : ℤ) (m : Move) → lookup j s.server.session_requests ≡ some m → Owner s.pcs j

  stream-Owned :
      (i : ℕ) (a : Answers) (s : System fl.F)
      → is_closed (s.pcs i) ≡ false
      → Owned s
      → Owned (after_step (sid i) i a s)
  unfolding update
  stream-Owned i a s o v j m h = elim (eq_cases (sid i) j) [
    | inr ne ↦
        let w = v j m (sym (lookup-stream_step (sid i) a (s.pcs i) s.server j ne) ∙ h) in
        record {
          stream_of = w.stream_of;
          drawn = w.drawn;
          open_stream =
              let other : i ≢ w.stream_of = λ e. ne (ap sid e ∙ w.drawn) in
              ground (arith, w.open_stream);
        }
    | inl e ↦ elim (Bool-cases (is_closed (stream_step (sid i) a (s.pcs i) s.server).0)) [
      | inl shut ↦ absurd (cc (lookup-closing (sid i) a (s.pcs i) s.server o shut, e, h))
      | inr on ↦ record { stream_of = i; drawn = e; open_stream = ground (arith, on) }
    ]
  ]

  Step-Owned : {s t : System fl.F} → Step fl c r codec sid s t → Owned s → Owned t
  Step-Owned {s} (stream i a o q) v = rw q (stream-Owned i a s o v)
  Step-Owned (schedule q) v = rw q v
  Step-Owned {s} (answer before after j m roll server e h q) v =
      let u = respond_one-Untouched fl c j m roll s.server server h in
      rw q (λ k n l. v k n (ap (lookup k) (sym u.requests) ∙ l))
  Step-Owned {s} (sync server w q) v =
      let u = SyncStep-Aside r codec s.server server w in
      rw q (λ k n l. v k n (ap (lookup k) (sym u.requests) ∙ l))

  Reach-Owned : {s : System fl.F} → Reach fl c r codec sid s → Owned s
  unfolding lookup
  Reach-Owned (start v) = λ j m h. cc (v.no_requests, h)
  Reach-Owned (later r st) = Step-Owned st (Reach-Owned r)

  -- Whatever the goroutines have done, a request that the server keeps belongs to a stream of its
  -- session that has not closed.
  pub Reach-Owner :
      (s : System fl.F) (j : ℤ) (m : Move)
      → Reach fl c r codec sid s
      → lookup j s.server.session_requests ≡ some m
      → Owner s.pcs j
  Reach-Owner s j m r h = Reach-Owned r j m h
