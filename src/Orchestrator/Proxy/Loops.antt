-- ===== src/Orchestrator/Proxy/Loops.antt =====
-- startWriterLoop and startReaderLoop of orchestrator/socket/proxy/proxy.go, and ProxyGameboard
-- while it waits for them, interleaved in any order. The two loops differ in their streams only: the
-- writer carries boards to the player, the reader carries moves to the gameserver.
pub mod Carrying
use orbstrike.Common.{Bool, true, false, List, [], ◌∷◌, ◌++◌, Option, none, some, Text, ◌≡◌}
use orbstrike.Server.Game.{Move, GameBoard}

-- Before Recv, before Send, before the send on errChan, before the look at exitChan, and after.
pub data LoopPc (M : Type 0) : Type 0 where
  receiving : LoopPc M
  forwarding : M → LoopPc M
  reporting : Option Text → LoopPc M
  polling : LoopPc M
  ended : LoopPc M

-- `taken` are the messages received so far, `given` those that Send took, and `lost` those for which
-- Send failed.
pub record Loop (M : Type 0) : Type 0 where
  pub pc : LoopPc M
  pub taken : List M
  pub given : List M
  pub lost : List M

-- A step of a loop by itself; `exit` says whether exitChan is closed. The loop goes on to its look
-- at exitChan whatever Send answers, since `err` is still that of Recv.
pub data LoopStep {M : Type 0} (exit : Bool) (l l' : Loop M) : Type 0 where
  receives :
      (m : M)
      → l.pc ≡ receiving
      → l' ≡ record l { pc = forwarding m; taken = l.taken ++ m ∷ [] }
      → LoopStep exit l l'
  comes_to_end : l.pc ≡ receiving → l' ≡ record l { pc = reporting none } → LoopStep exit l l'
  fails :
      (e : Text) → l.pc ≡ receiving → l' ≡ record l { pc = reporting (some e) } → LoopStep exit l l'
  forwards :
      (m : M)
      → l.pc ≡ forwarding m
      → l' ≡ record l { pc = polling; given = l.given ++ m ∷ [] }
      → LoopStep exit l l'
  loses :
      (m : M)
      → l.pc ≡ forwarding m
      → l' ≡ record l { pc = polling; lost = l.lost ++ m ∷ [] }
      → LoopStep exit l l'
  goes_on : l.pc ≡ polling → exit ≡ false → l' ≡ record l { pc = receiving } → LoopStep exit l l'
  stops : l.pc ≡ polling → exit ≡ true → l' ≡ record l { pc = ended } → LoopStep exit l l'

-- ProxyGameboard: before its receive from errChan, before close(exitChan), and after its return.
pub data MainPc : Type 0 where
  waiting : MainPc
  closing : Option Text → MainPc
  returned : Option Text → MainPc

pub record Relay (F : Type 0) : Type 0 where
  pub main : MainPc
  pub exit : Bool
  pub writer : Loop (GameBoard F)
  pub reader : Loop Move

-- errChan has no buffer: a loop hands over its error only while ProxyGameboard waits for one.
pub data RelayStep {F : Type 0} (s t : Relay F) : Type 0 where
  writes :
      (l : Loop (GameBoard F))
      → LoopStep s.exit s.writer l
      → t ≡ record s { writer = l }
      → RelayStep s t
  reads : (l : Loop Move) → LoopStep s.exit s.reader l → t ≡ record s { reader = l } → RelayStep s t
  writer_reports :
      (e : Option Text)
      → s.writer.pc ≡ reporting e
      → s.main ≡ waiting
      → t ≡ record s { main = closing e; writer = record (s.writer) { pc = ended } }
      → RelayStep s t
  reader_reports :
      (e : Option Text)
      → s.reader.pc ≡ reporting e
      → s.main ≡ waiting
      → t ≡ record s { main = closing e; reader = record (s.reader) { pc = ended } }
      → RelayStep s t
  closes :
      (e : Option Text)
      → s.main ≡ closing e
      → t ≡ record s { main = returned e; exit = true }
      → RelayStep s t

abbrev idle_loop : {M : Type 0} → Loop M
idle_loop = record { pc = receiving; taken = []; given = []; lost = [] }

abbrev pub start_relay : {F : Type 0} → Relay F
start_relay = record { main = waiting; exit = false; writer = idle_loop; reader = idle_loop }

pub data Relays {F : Type 0} (s : Relay F) : Relay F → Type 0 where
  here : Relays s s
  more : {t u : Relay F} → Relays s t → RelayStep t u → Relays s u
