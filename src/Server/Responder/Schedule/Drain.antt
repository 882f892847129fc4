-- ===== src/Server/Responder/Schedule/Drain.antt =====
-- A worker answers all that its channel holds, and keeps the boards well formed.
use orbstrike.Common.{
  All, Text, ℕ, ◌<◌, ◌≡◌, refl, ◌∙◌, List, [], ◌∷◌, some, ℤ, length, arith, some_inj, inl, inr,
  Option-cases,
}
use orbstrike.Cipher.{Cipher, IsAead}
use orbstrike.Server.Game.{Float}
use orbstrike.Server.State.{Server}
use orbstrike.Server.Responder.Respond.{respond_one, respond}
use orbstrike.Server.Responder.Frame.{respond_one-Untouched}
use orbstrike.Server.Responder.Invariant.{BoardsOk, respond-BoardsOk}
use orbstrike.Server.Responder.Progress.{AllPresented, respond_total}
use orbstrike.Server.Responder.Split.{Requests}
use orbstrike.Server.Responder.Schedule.{drain}

module _ (fl : Float) (c : Cipher) where
  -- Answering requests leaves the messages and the secret as they are.
  settings-respond :
      (requests : Requests) (rolls : ℤ → ℕ) (s s' : Server fl.F)
      → respond fl c requests rolls s ≡ some s'
      → (s'.game_over_messages ≡ s.game_over_messages) × (s'.server_secret ≡ s.server_secret)
  unfolding respond
  settings-respond [] rolls s s' h = let q : s ≡ s' = some_inj h in rw q (refl, refl)
  settings-respond ((sid, move) ∷ rest) rolls s s' h =
      elim (Option-cases (respond_one fl c sid move (rolls sid) s)) [
        | inl panics ↦ ground arith
        | inr (t, e) ↦
            let u = respond_one-Untouched fl c sid move (rolls sid) s t e in
            let (messages, secret) = settings-respond rest rolls t s' (rw (e, respond) at h) in
            (messages ∙ u.messages, secret ∙ u.secret)
      ]

-- Each request of each task has a key that was sealed under the secret, or does not open.
abbrev pub TasksPresented : Cipher → Text → List (Requests × (ℤ → ℕ)) → Type 0
TasksPresented c secret = All (λ t. AllPresented c secret t.0)

module _ (fl : Float) (c : Cipher) (aead : IsAead c) where
  -- With a message to show, and where each request's key was sealed by the orchestrator under the
  -- server's secret or does not open, a worker comes to the end of the tasks that its channel holds
  -- without a panic, and keeps every board well formed.
  pub drain-BoardsOk :
      (tasks : List (Requests × (ℤ → ℕ))) (s : Server fl.F)
      → 0 < length s.game_over_messages
      → TasksPresented c s.server_secret tasks
      → BoardsOk s.boards
      → (s' : Server fl.F) × (drain fl c tasks s ≡ some s') × BoardsOk s'.boards
  unfolding drain
  drain-BoardsOk [] s some_message keys v = (s, refl, v)
  drain-BoardsOk ((slice, rolls) ∷ tasks) s some_message keys v =
      let (t, e) = respond_total fl c aead slice rolls s some_message keys.0 in
      let (messages, secret) = settings-respond fl c slice rolls s t e in
      let (s', d, v') =
        drain-BoardsOk tasks t (rw messages some_message) (rw secret keys.1)
          (respond-BoardsOk fl c slice rolls s t v e) in
      (s', rw (e, drain) d, v')
