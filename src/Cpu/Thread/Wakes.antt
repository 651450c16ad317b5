-- ===== src/Cpu/Thread/Wakes.antt =====
-- fox32/src/main.rs: an interrupt wakes a halted processor.
use fox.Prelude.{ℕ, ◌*◌, ◌≡◌, refl, ap, ◌∙◌, Bool, true, false}
use fox.Outcome.{done}
use fox.Word.{IsU32, u8}
use fox.Memory.{read}
use fox.Cpu.State.{Cpu, Io, always, request}
use fox.Cpu.Interrupt.{interrupt, dispatch}
use fox.Cpu.Interrupt.Laws.{entry, delivered, execute_reti-interrupt}
use fox.Cpu.Control.{execute_reti}
use fox.Cpu.Thread.{wake, raise}

module _ {D : Type 0} (io : Io D) where
  -- A halted processor with interrupts on, that an interrupt wakes without a panic, runs on at the
  -- address that the word of the vector's low byte holds, with interrupts off. Where the handler
  -- returns from there, it returns to the instruction behind the halt, with the flags and the stack
  -- pointer of the halted processor; the pointers are words.
  pub wake-resumes :
      (vector : ℕ) (checks : Bool) (s t : Cpu D)
      → IsU32 s.instruction_pointer
      → IsU32 s.stack_pointer
      → s.flag.interrupt ≡ true
      → wake io vector checks s ≡ done (tt, t)
      → (t.halted ≡ false)
        × (t.flag.interrupt ≡ false)
        × (read 4 s.bus.memory (u8 vector * 4) ≡ done (t.instruction_pointer))
        × (execute_reti always checks t
            ≡ done (
              s.instruction_pointer,
              record t { stack_pointer = s.stack_pointer; flag = s.flag },
            ))
  unfolding wake raise interrupt dispatch
  wake-resumes vector checks s t hip hsp on e =
      let woken : Cpu D = record s { halted = false } in
      let steps =
        entry (u8 vector) checks woken t
          (delivered s.flag.interrupt (dispatch (request (u8 vector))) checks woken on e) in
      (
        ap (λ (u : Cpu D). u.halted) steps.entered_at,
        ap (λ (u : Cpu D). u.flag.interrupt) steps.entered_at,
        steps.vector_read ∙ rw steps.entered_at refl,
        execute_reti-interrupt (u8 vector) checks woken t hip hsp on e,
      )
