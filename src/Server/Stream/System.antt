-- ===== src/Server/Stream/System.antt =====
-- The gameserver as its streams, its workers, its scheduler and its synchronisation, interleaved in
-- any order.
pub mod Sessions
pub mod Closing
use orbstrike.Common.{
  ℕ, Bool, true, false, ◌≡◌, List, [], ◌∷◌, ◌++◌, some, ℤ, Map, ◌==◌, if◌then◌else◌,
}
use orbstrike.Cipher.{Cipher}
use orbstrike.Server.Game.{Float, GameBoard, Move}
use orbstrike.Server.State.{Server}
use orbstrike.Server.Responder.Respond.{respond_one}
use orbstrike.Redis.{Redis}
use orbstrike.Server.Codec.{Codec}
use orbstrike.Server.Sync.Steps.{SyncStep}
use orbstrike.Server.Stream.{Pc, receiving, closed, Answers, stream_step}

unfoldable pub update : ℕ → Pc → (ℕ → Pc) → ℕ → Pc
update i p pcs j = if i == j then p else pcs j

-- `tasks` are the requests that the scheduler has handed to the workers, each with its session. A
-- stream that has not begun stands before its first Recv.
pub record System (F : Type 0) : Type 0 where
  pub server : Server F
  pub pcs : ℕ → Pc
  pub tasks : List (ℤ × Move)

abbrev pub is_closed : Pc → Bool
is_closed (closed e) = true
is_closed _ = false

-- The system after a step of the stream `i`, whose session is `sid`.
abbrev pub after_step : {F : Type 0} → ℤ → ℕ → Answers → System F → System F
after_step sid i a s = record s {
  server = (stream_step sid a (s.pcs i) s.server).1;
  pcs = update i (stream_step sid a (s.pcs i) s.server).0 s.pcs;
}

-- `sid i` is the identifier that the stream `i` has drawn.
module _ (fl : Float) (c : Cipher) (r : Redis) (codec : Codec (fl.F)) (sid : ℕ → ℤ) where
  open fl use {F}

  pub data Step (s t : System F) : Type 0 where
    -- a stream goes on
    stream :
        (i : ℕ) (a : Answers)
        → is_closed (s.pcs i) ≡ false
        → t ≡ after_step (sid i) i a s
        → Step s t
    -- the scheduler hands out the requests that are stored
    schedule : t ≡ record s { tasks = s.tasks ++ s.server.session_requests } → Step s t
    -- a worker answers one of its requests
    answer :
        (before after : List (ℤ × Move)) (j : ℤ) (m : Move) (roll : ℕ) (server : Server F)
        → s.tasks ≡ before ++ (j, m) ∷ after
        → respond_one fl c j m roll s.server ≡ some server
        → t ≡ record s { server = server; tasks = before ++ after }
        → Step s t
    -- the synchronisation changes boards
    sync :
        (server : Server F)
        → SyncStep r codec s.server server
        → t ≡ record s { server = server }
        → Step s t

  -- No stream has begun, and nobody has a request or a response.
  pub record IsStart (s : System F) : Type 0 where
    pub fresh : (i : ℕ) → s.pcs i ≡ receiving
    pub no_requests : s.server.session_requests ≡ []
    pub no_responses : s.server.session_responses ≡ []
    pub no_tasks : s.tasks ≡ []

  pub data Reach : System F → Type 0 where
    start : {s : System F} → IsStart s → Reach s
    later : {s t : System F} → Reach s → Step s t → Reach t
