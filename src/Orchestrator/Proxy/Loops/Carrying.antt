-- ===== src/Orchestrator/Proxy/Loops/Carrying.antt =====
-- What the loops carry over, and how they end.
use orbstrike.Common.{
  Bool, List, [], ◌∷◌, ◌++◌, Option, none, some, Text, ◌≡◌, ◌≢◌, refl, sym, ap, ◌∙◌,
}
use mathlib.Core.List.{append-nil}
use orbstrike.Orchestrator.Proxy.Loops.{
  LoopPc, receiving, forwarding, reporting, ended, Loop, LoopStep, receives, comes_to_end, fails,
  forwards, loses, goes_on, stops, waiting, Relay, RelayStep, writes, reads, writer_reports,
  reader_reports, closes, start_relay, Relays, here, more,
}

-- The message that a loop has received and not yet sent.
abbrev pub pending : {M : Type 0} → LoopPc M → List M
pending (forwarding m) = m ∷ []
pending _ = []

-- `whole` is `given` and `lost` put together, each in its own order.
pub data Merge {M : Type 0} : (given lost whole : List M) → Type 0 where
  nothing : Merge [] [] []
  gives : {g l w : List M} (m : M) → Merge g l w → Merge (g ++ m ∷ []) l (w ++ m ∷ [])
  drops : {g l w : List M} (m : M) → Merge g l w → Merge g (l ++ m ∷ []) (w ++ m ∷ [])

-- But for the message that the loop is about to send, what it received is what it sent and what it
-- lost.
pub record Carries {M : Type 0} (l : Loop M) : Type 0 where
  pub done : List M
  pub merges : Merge l.given l.lost done
  pub spells : l.taken ≡ done ++ pending l.pc

module _ {M : Type 0} where
  Carries-nothing :
      (l : Loop M) (p : LoopPc M)
      → pending p ≡ []
      → Carries l
      → pending l.pc ≡ []
      → Carries (record l { pc = p })
  Carries-nothing l p e v q = record {
    done = v.done;
    merges = v.merges;
    spells = v.spells ∙ ap (λ x. v.done ++ x) (q ∙ sym e);
  }

  LoopStep-Carries : (exit : Bool) (l l' : Loop M) → LoopStep exit l l' → Carries l → Carries l'
  LoopStep-Carries exit l l' (receives m p q) v = rw q (record {
    done = v.done;
    merges = v.merges;
    spells = ap (λ x. x ++ m ∷ []) (v.spells ∙ ap (λ x. v.done ++ pending x) p ∙ append-nil v.done);
  })
  LoopStep-Carries exit l l' (comes_to_end p q) v =
      rw q (Carries-nothing l (reporting none) refl v (ap pending p))
  LoopStep-Carries exit l l' (fails e p q) v =
      rw q (Carries-nothing l (reporting (some e)) refl v (ap pending p))
  LoopStep-Carries exit l l' (forwards m p q) v = rw q (record {
    done = v.done ++ m ∷ [];
    merges = gives m v.merges;
    spells = v.spells ∙ ap (λ x. v.done ++ pending x) p ∙ sym (append-nil (v.done ++ m ∷ []));
  })
  LoopStep-Carries exit l l' (loses m p q) v = rw q (record {
    done = v.done ++ m ∷ [];
    merges = drops m v.merges;
    spells = v.spells ∙ ap (λ x. v.done ++ pending x) p ∙ sym (append-nil (v.done ++ m ∷ []));
  })
  LoopStep-Carries exit l l' (goes_on p x q) v =
      rw q (Carries-nothing l receiving refl v (ap pending p))
  LoopStep-Carries exit l l' (stops p x q) v = rw q (Carries-nothing l ended refl v (ap pending p))

  Carries-idle : Carries {M = M} (record { pc = receiving; taken = []; given = []; lost = [] })
  Carries-idle = record { done = []; merges = nothing; spells = refl }

module _ {F : Type 0} where
  RelayStep-Carries :
      (s t : Relay F)
      → RelayStep s t
      → Carries s.writer × Carries s.reader
      → Carries t.writer × Carries t.reader
  RelayStep-Carries s t (writes l w q) v = rw q (LoopStep-Carries s.exit s.writer l w v.0, v.1)
  RelayStep-Carries s t (reads l w q) v = rw q (v.0, LoopStep-Carries s.exit s.reader l w v.1)
  RelayStep-Carries s t (writer_reports e p m q) v =
      rw q (Carries-nothing s.writer ended refl v.0 (ap pending p), v.1)
  RelayStep-Carries s t (reader_reports e p m q) v =
      rw q (v.0, Carries-nothing s.reader ended refl v.1 (ap pending p))
  RelayStep-Carries s t (closes e m q) v = rw q v

  -- Whatever the interleaving, each message that a loop has received was, in order and once, sent or
  -- lost to a failed Send, but for the one message that the loop is about to send; it sends nothing
  -- else.
  pub Relays-Carries : (s : Relay F) → Relays start_relay s → Carries s.writer × Carries s.reader
  Relays-Carries s here = (Carries-idle, Carries-idle)
  Relays-Carries s (more {t = t} r st) = RelayStep-Carries t s st (Relays-Carries t r)

  stuck_step :
      (e : Option Text) (s t : Relay F)
      → RelayStep s t
      → s.main ≢ waiting
      → s.writer.pc ≡ reporting e
      → (t.main ≢ waiting) × (t.writer.pc ≡ reporting e)
  stuck_step e s t (writes l (receives m p q) _) n w = absurd (cc (p, w))
  stuck_step e s t (writes l (comes_to_end p q) _) n w = absurd (cc (p, w))
  stuck_step e s t (writes l (fails x p q) _) n w = absurd (cc (p, w))
  stuck_step e s t (writes l (forwards m p q) _) n w = absurd (cc (p, w))
  stuck_step e s t (writes l (loses m p q) _) n w = absurd (cc (p, w))
  stuck_step e s t (writes l (goes_on p x q) _) n w = absurd (cc (p, w))
  stuck_step e s t (writes l (stops p x q) _) n w = absurd (cc (p, w))
  stuck_step e s t (reads l st q) n w = rw q (n, w)
  stuck_step e s t (writer_reports x p m q) n w = absurd (n m)
  stuck_step e s t (reader_reports x p m q) n w = absurd (n m)
  stuck_step e s t (closes x m q) n w = rw q (λ h. cc, w)

  -- Once ProxyGameboard has taken an error, a writer loop that comes to report one too is never
  -- taken from: whatever the steps, it stands there for good.
  pub writer_stuck :
      (e : Option Text) (s t : Relay F)
      → Relays s t
      → s.main ≢ waiting
      → s.writer.pc ≡ reporting e
      → (t.main ≢ waiting) × (t.writer.pc ≡ reporting e)
  writer_stuck e s t here n w = (n, w)
  writer_stuck e s t (more {t = u} r st) n w =
      let (n', w') = writer_stuck e s u r n w in stuck_step e u t st n' w'
