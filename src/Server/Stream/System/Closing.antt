-- ===== src/Server/Stream/System/Closing.antt =====
-- An error that waits for a session stays until its stream has closed.
use orbstrike.Common.{
  ℕ, ◌+◌, ◌≤◌, ◌<◌, ◌≡◌, ◌≢◌, ◌⊎◌, refl, ◌∙◌, inl, inr, true, false, some, ℤ, int_eq, eqb_ℤ_iff,
  eq_cases, arith, lookup-delete, ==_iff, ◌==◌, if◌then◌else◌, Bool-cases,
}
use orbstrike.Cipher.{Cipher}
use orbstrike.Redis.{Redis}
use orbstrike.Server.Codec.{Codec}
use orbstrike.Server.Sync.Steps.{SyncStep-Aside}
use orbstrike.Server.Game.{Float, Move}
use orbstrike.Server.State.{Server, Status, response}
use orbstrike.Server.Responder.Respond.{respond_one}
use orbstrike.Server.Responder.Round.{Round, waiting, refused, died, acted, respond_one-Round}
use orbstrike.Server.Responder.Frame.{respond_one-Untouched}
use orbstrike.Server.Stream.{
  Pc, receiving, looking, storing, checking, sending, leaving, closed, Answers, stream_step,
}
use orbstrike.Server.Stream.System.{
  System, update, after_step, is_closed, Step, stream, schedule, answer, sync,
}

-- How many of its own steps a stream has before it closes, once an error waits for it.
abbrev pub rank : Pc → ℕ
rank (sending g) = 6
rank receiving = 5
rank (looking m) = 4
rank (storing m) = 3
rank (checking m) = 2
rank (leaving e) = 1
rank (closed e) = 0

module _ {F : Type 0} (sid : ℤ) (a : Answers) where
  response-stream_step :
      (p : Pc) (s : Server F) (j : ℤ)
      → sid ≢ j
      → response j (stream_step sid a p s).1 ≡ response j s
  unfolding stream_step response
  response-stream_step (leaving e) s j ne =
      ground (arith, lookup-delete sid j s.session_responses, eqb_ℤ_iff sid j)
  response-stream_step receiving s j ne = refl
  response-stream_step (looking m) s j ne = refl
  response-stream_step (storing m) s j ne = refl
  response-stream_step (checking m) s j ne = refl
  response-stream_step (sending g) s j ne = refl
  response-stream_step (closed e) s j ne = refl

  rank-stream_step :
      (p : Pc) (s : Server F) (e : Status)
      → is_closed p ≡ false
      → response sid s ≡ some e
      → rank (stream_step sid a p s).0 < rank p
  unfolding stream_step
  rank-stream_step receiving s e o h = ground arith
  rank-stream_step (looking m) s e o h = ground arith
  rank-stream_step (storing m) s e o h = ground arith
  rank-stream_step (checking m) s e o h = ground arith
  rank-stream_step (sending g) s e o h = ground arith
  rank-stream_step (leaving l) s e o h = ground arith
  rank-stream_step (closed l) s e o h = cc

  -- A step that does not close the stream leaves its response where it is.
  response-open :
      (p : Pc) (s : Server F)
      → is_closed (stream_step sid a p s).0 ≡ false
      → response sid (stream_step sid a p s).1 ≡ response sid s
  unfolding stream_step response
  response-open (leaving e) s o = cc
  response-open receiving s o = refl
  response-open (looking m) s o = refl
  response-open (storing m) s o = refl
  response-open (checking m) s o = refl
  response-open (sending g) s o = refl
  response-open (closed e) s o = refl

module _ (fl : Float) (c : Cipher) (r : Redis) (codec : Codec (fl.F)) (sid : ℕ → ℤ) where
  pub data Run (s : System fl.F) : System fl.F → Type 0 where
    here : Run s s
    more : {t u : System fl.F} → Run s t → Step fl c r codec sid t u → Run s u

  abbrev own_step : ℕ → {s t : System fl.F} → Step fl c r codec sid s t → ℕ
  own_step i (stream k a o q) = if k == i then 1 else 0
  own_step i (schedule q) = 0
  own_step i (answer before after j m roll server e h q) = 0
  own_step i (sync server w q) = 0

  -- The steps that the stream `i` takes in a run.
  abbrev pub own_steps : ℕ → {s t : System fl.F} → Run s t → ℕ
  own_steps i here = 0
  own_steps i (more r st) = own_steps i r + own_step i st

module _ (fl : Float) (c : Cipher) (r : Redis) (codec : Codec (fl.F)) (sid : ℕ → ℤ) (i : ℕ)
    (alone : (k : ℕ) → sid k ≡ sid i → k ≡ i) (e : Status) where
  -- The error still waits, or the stream has closed.
  abbrev pub Waits : System fl.F → Type 0
  Waits s = (response (sid i) s.server ≡ some e) ⊎ (is_closed (s.pcs i) ≡ true)

  rank_le : (p : Pc) → rank p ≤ 6
  rank_le receiving = omega arith
  rank_le (looking m) = omega arith
  rank_le (storing m) = omega arith
  rank_le (checking m) = omega arith
  rank_le (sending g) = omega arith
  rank_le (leaving l) = omega arith
  rank_le (closed l) = omega arith

  rank_closed : (p : Pc) → is_closed p ≡ true → rank p ≡ 0
  rank_closed (closed l) h = refl
  rank_closed receiving h = cc
  rank_closed (looking m) h = cc
  rank_closed (storing m) h = cc
  rank_closed (checking m) h = cc
  rank_closed (sending g) h = cc
  rank_closed (leaving l) h = cc

  kept :
      (j : ℤ) (m : Move) (s s' : Server fl.F)
      → Round fl c j m s s'
      → j ≡ sid i
      → response (sid i) s ≡ some e
      → response (sid i) s' ≡ some e
  kept j m s s' (waiting f w q) n h = rw q h
  kept j m s s' (refused f idle q) n h = cc
  kept j m s s' (died b k p f idle seat off q) n h = cc
  kept j m s s' (acted b k p idle seat on q) n h = cc

  -- A worker does not overwrite an error that waits.
  answer-response :
      (j : ℤ) (m : Move) (roll : ℕ) (s s' : Server fl.F)
      → respond_one fl c j m roll s ≡ some s'
      → response (sid i) s ≡ some e
      → response (sid i) s' ≡ some e
  answer-response j m roll s s' h w = elim (eq_cases j (sid i)) [
    | inr ne ↦ (respond_one-Untouched fl c j m roll s s' h).responses (sid i) ne ∙ w
    | inl q ↦ kept j m s s' (respond_one-Round fl c j m roll s h) q w
  ]

  own-Waits :
      (a : Answers) (s : System fl.F)
      → is_closed (s.pcs i) ≡ false
      → response (sid i) s.server ≡ some e
      → Waits (after_step (sid i) i a s)
        × (1 + rank ((after_step (sid i) i a s).pcs i) ≤ rank (s.pcs i))
  unfolding update
  own-Waits a s o h =
      let l = rank-stream_step (sid i) a (s.pcs i) s.server e o h in
      elim (Bool-cases (is_closed (stream_step (sid i) a (s.pcs i) s.server).0)) [
        | inl shut ↦ (inr (ground (arith, shut)), ground (arith, l))
        | inr on ↦ (inl (response-open (sid i) a (s.pcs i) s.server on ∙ h), ground (arith, l))
      ]

  other-Waits :
      (k : ℕ) (a : Answers) (s : System fl.F)
      → k ≢ i
      → Waits s
      → Waits (after_step (sid k) k a s) × ((after_step (sid k) k a s).pcs i ≡ s.pcs i)
  unfolding update
  other-Waits k a s ne (inl h) = (
    inl (response-stream_step (sid k) a (s.pcs k) s.server (sid i) (λ q. ne (alone k q)) ∙ h),
    ground arith,
  )
  other-Waits k a s ne (inr shut) = (inr (ground arith), ground arith)

  stream-Waits :
      (k : ℕ) (a : Answers) (s : System fl.F)
      → is_closed (s.pcs k) ≡ false
      → Waits s
      → Waits (after_step (sid k) k a s)
        × ((if k == i then 1 else 0) + rank ((after_step (sid k) k a s).pcs i) ≤ rank (s.pcs i))
  stream-Waits k a s o w = elim (Bool-cases (k == i)) [
    | inr ne ↦
        let (v, q) = other-Waits k a s (λ h. cc (ne, (==_iff k i).1 h)) w in
        (v, rw (ne, q) (omega arith))
    | inl eq ↦
        let q : k ≡ i = (==_iff k i).0 eq in
        elim w [
          | inr shut ↦ absurd (cc (q, shut, o))
          | inl h ↦ rw (eq, q) (own-Waits a s (rw q at o) h)
        ]
  ]

  Step-Waits :
      {s t : System fl.F} (st : Step fl c r codec sid s t)
      → Waits s
      → Waits t × (own_step fl c r codec sid i st + rank (t.pcs i) ≤ rank (s.pcs i))
  unfolding response
  Step-Waits {s} (stream k a o q) w = rw q (stream-Waits k a s o w)
  Step-Waits (schedule q) w = rw q (w, omega arith)
  Step-Waits {s} (answer before after j m roll server l h q) (inl v) =
      rw q (inl (answer-response j m roll s.server server h v), omega arith)
  Step-Waits (answer before after j m roll server l h q) (inr v) = rw q (inr v, omega arith)
  Step-Waits {s} (sync server st q) (inl v) =
      let u = SyncStep-Aside r codec s.server server st in
      rw q (inl (ground (arith, u.responses, v)), omega arith)
  Step-Waits (sync server st q) (inr v) = rw q (inr v, omega arith)

  Run-rank :
      (s t : System fl.F) (run : Run fl c r codec sid s t)
      → response (sid i) s.server ≡ some e
      → Waits t × (own_steps fl c r codec sid i run + rank (t.pcs i) ≤ rank (s.pcs i))
  Run-rank s t here h = (inl h, omega arith)
  Run-rank s t (more {t = u} r st) h =
      let (w, l) = Run-rank s u r h in let (w', l') = Step-Waits st w in (w', omega (arith, l, l'))

  -- Once an error waits for a session whose identifier no other stream has drawn, the error waits
  -- until the stream has closed, whatever the others do in between. The stream takes six more steps
  -- of its own at most, and each brings it closer to the end.
  pub Run-Waits :
      (s t : System fl.F) (run : Run fl c r codec sid s t)
      → response (sid i) s.server ≡ some e
      → Waits t
        × (own_steps fl c r codec sid i run ≤ 6)
        × (own_steps fl c r codec sid i run + rank (t.pcs i) ≤ rank (s.pcs i))
  Run-Waits s t run h =
      let (w, l) = Run-rank s t run h in (w, omega (arith, l, rank_le (s.pcs i)), l)
