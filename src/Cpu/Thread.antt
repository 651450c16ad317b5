-- ===== src/Cpu/Thread.antt =====
-- fox32/src/runtime.rs, the `Runtime` of the processor, and the loop of the `cpu` thread in
-- fox32/src/main.rs. What the channel of the interrupts gives is the argument of a step.
pub mod Wakes
mod Tests
use fox.Prelude.{ℕ, ◌≡◌, Bool, true, false, Option, none, some}
use fox.Outcome.{done}
use fox.Word.{u8}
use fox.Cpu.State.{Cpu, Io, M, ◌>>◌, set_halted, set_interrupt, request}
use fox.Cpu.Interrupt.{interrupt}
use fox.Cpu.Execute.{execute_memory_instruction}

module _ {D : Type 0} where
  abbrev pub halted_get : Cpu D → Bool
  halted_get s = s.halted

  abbrev pub halted_set : Bool → M D (Unit {0})
  halted_set halted = set_halted halted

  abbrev pub flag_interrupt_get : Cpu D → Bool
  flag_interrupt_get s = s.flag.interrupt

  abbrev pub flag_interrupt_set : Bool → M D (Unit {0})
  flag_interrupt_set flag_interrupt = set_interrupt flag_interrupt

  unfoldable pub raise : (vector : ℕ) → M D (Unit {0})
  unfolding interrupt
  raise vector = interrupt (request (u8 vector))

  module _ (io : Io D) where
    unfoldable pub step : M D (Unit {0})
    unfolding execute_memory_instruction
    step = execute_memory_instruction io

    -- The body of the inner loop, with what `try_recv` gives.
    unfoldable pub turn : (received : Option ℕ) → M D (Unit {0})
    unfolding raise step
    turn none = step
    turn (some vector) = raise vector >> step

    -- The end of the outer loop's body, with what `recv` gives.
    unfoldable pub wake : (received : ℕ) → M D (Unit {0})
    unfolding raise
    wake vector = halted_set false >> raise vector

    -- The thread comes from one processor to another, by steps that all return.
    pub data Reaches (checks : Bool) : Cpu D → Cpu D → Type 0 where
      stays : (s : Cpu D) → Reaches checks s s
      turns :
          (received : Option ℕ) (s s' s'' : Cpu D)
          → halted_get s ≡ false
          → turn received checks s ≡ done (tt, s')
          → Reaches checks s' s''
          → Reaches checks s s''
      wakes :
          (vector : ℕ) (s s' s'' : Cpu D)
          → halted_get s ≡ true
          → flag_interrupt_get s ≡ true
          → wake vector checks s ≡ done (tt, s')
          → Reaches checks s' s''
          → Reaches checks s s''
