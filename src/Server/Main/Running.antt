-- ===== src/Server/Main/Running.antt =====
-- A launched gameserver, whatever its goroutines do.
use orbstrike.Common.{
  ◌++◌, ◌∷◌, sym, ap, ℕ, ◌<◌, ◌≡◌, refl, ◌∙◌, [], Option, some, Text, List, ℤ, arith, length, split,
}
use orbstrike.Cipher.{Cipher, IsAead}
use orbstrike.Orchestrator.Crypto.Presented.{Presented}
use orbstrike.Server.Responder.Split.{Requests}
use orbstrike.Tls.{X509}
use orbstrike.Viper.{Viper, complete}
use orbstrike.Logger.{FileAnswers, LogFile, Logger}
use orbstrike.Redis.{Redis}
use orbstrike.Server.Codec.{Codec}
use orbstrike.Server.Sync.Steps.{SyncStep-Aside}
use orbstrike.Server.Game.{Float, Move}
use orbstrike.Server.State.{Server}
use orbstrike.Server.Conf.{Config, load_conig}
use orbstrike.Server.Db.{ClusterOptions}
use orbstrike.Server.Responder.Respond.{respond_one}
use orbstrike.Server.Responder.Frame.{respond_one-Untouched}
use orbstrike.Server.Responder.Progress.{respond_one_total}
use orbstrike.Server.Stream.{
  Pc, receiving, looking, storing, checking, sending, leaving, closed, Answers, stream_step,
}
use orbstrike.Server.Stream.System.{System, Step, stream, schedule, answer, sync}
use orbstrike.Server.Stream.System.Closing.{Run, here, more}
use orbstrike.Server.Main.{cfg_file, Launched, launched, server_main}
use orbstrike.Server.Main.Safety.{server_main-Ready}

length-split : (s : Text) (sep : ℕ) → 0 < length (split s sep)
unfolding split
length-split s sep = omega arith

complete_inj : {C : Type 0} {x y : C} → complete x ≡ complete y → x ≡ y
complete_inj h = cc

-- The gameserver before any stream has begun.
abbrev pub booted : {F : Type 0} {x : X509} → Launched F x → System F
booted l = record { server = l.server; pcs = λ i. receiving; tasks = [] }

module _ {F : Type 0} (sid : ℤ) (a : Answers) where
  settings-stream_step :
      (p : Pc) (s : Server F)
      → ((stream_step sid a p s).1.game_over_messages ≡ s.game_over_messages)
        × ((stream_step sid a p s).1.server_secret ≡ s.server_secret)
  unfolding stream_step
  settings-stream_step (leaving e) s = (refl, refl)
  settings-stream_step receiving s = (refl, refl)
  settings-stream_step (looking m) s = (refl, refl)
  settings-stream_step (storing m) s = (refl, refl)
  settings-stream_step (checking m) s = (refl, refl)
  settings-stream_step (sending g) s = (refl, refl)
  settings-stream_step (closed e) s = (refl, refl)

module _ (fl : Float) (c : Cipher) (r : Redis) (codec : Codec (fl.F)) (sid : ℕ → ℤ) where
  -- A step leaves the messages and the secret as they are.
  settings-Step :
      {s t : System fl.F}
      → Step fl c r codec sid s t
      → (t.server.game_over_messages ≡ s.server.game_over_messages)
        × (t.server.server_secret ≡ s.server.server_secret)
  settings-Step {s} (stream i a o q) = rw q (settings-stream_step (sid i) a (s.pcs i) s.server)
  settings-Step (schedule q) = rw q (refl, refl)
  settings-Step {s} (answer before after j m roll server l h q) =
      let u = respond_one-Untouched fl c j m roll s.server server h in rw q (u.messages, u.secret)
  settings-Step {s} (sync server w q) =
      let u = SyncStep-Aside r codec s.server server w in rw q (u.messages, u.secret)

  settings-Run :
      (s t : System fl.F)
      → Run fl c r codec sid s t
      → (t.server.game_over_messages ≡ s.server.game_over_messages)
        × (t.server.server_secret ≡ s.server.server_secret)
  settings-Run s t here = (refl, refl)
  settings-Run s t (more {t = u} run st) =
      let (messages, secret) = settings-Run s u run in
      let (messages', secret') = settings-Step st in (messages' ∙ messages, secret' ∙ secret)

  module _ (x : X509) (ping : ClusterOptions x → Option Text) (listen : ℤ → Option Text) (v : Viper)
      (a : FileAnswers) (found : LogFile) (logger : Logger) (args : List Text) where
    -- Whatever a launched gameserver's streams, scheduler, workers and synchronisation have done: a
    -- request that a worker holds, and whose key the orchestrator sealed under the secret of the
    -- gameserver's configuration or does not open, can be answered without a panic, and the worker
    -- then no longer holds it.
    pub server_main-Run :
        IsAead c
        → (config : Config) (l : Launched fl.F x) (t : System fl.F)
        → load_conig v (cfg_file args) ≡ complete config
        → server_main fl.F x ping listen v a found logger args ≡ launched l
        → Run fl c r codec sid (booted l) t
        → (before after : Requests) (j : ℤ) (m : Move) (roll : ℕ)
        → t.tasks ≡ before ++ (j, m) ∷ after
        → Presented c config.secret m.userkey
        → (u : System fl.F) × Step fl c r codec sid t u
          × (respond_one fl c j m roll t.server ≡ some u.server)
          × (u.tasks ≡ before ++ after)
    server_main-Run aead config l t read h run before after j m roll held key =
        let ready = server_main-Ready fl.F x ping listen v a found logger args l h in
        let same : config ≡ ready.config = complete_inj (sym read ∙ ready.read) in
        let (messages, secret) = settings-Run (booted l) t run in
        let some_message : 0 < length t.server.game_over_messages =
          rw (messages, ready.serves.messages)
            (length-split ready.config.game_over_messages b'|') in
        let s : t.server.server_secret ≡ config.secret =
          secret ∙ ready.serves.secret ∙ ap (λ y. y.secret) (sym same) in
        let (s', e) = respond_one_total fl c aead j m roll t.server some_message (rw s key) in
        (
          record t { server = s'; tasks = before ++ after },
          answer before after j m roll s' held e refl,
          e,
          refl,
        )
