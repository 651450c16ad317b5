-- ===== src/Asm/Patch/Relative.antt =====
-- fox32asm/src/main.rs and fox32/src/cpu.rs: a relative target is a label for the processor too.
use fox.Prelude.{ℕ, ◌≡◌, ap, Bool, true, false, arith}
use fox.Outcome.{done, ◌>>=◌}
use fox.Word.{IsU32}
use fox.Cpu.State.{Cpu, relative_to_absolute}
use fox.Asm.Patch.{address_word, sub_i32}

-- The word that the assembler writes for a relative target, in a build without overflow checks, leads
-- a processor at the instruction to the label's address.
pub relative_to_absolute-address_word :
    {D : Type 0} (checks : Bool) (s : Cpu D) (address : ℕ)
    → IsU32 address
    → IsU32 s.instruction_pointer
    → (address_word false true address s.instruction_pointer >>= λ w.
        relative_to_absolute w checks s)
      ≡ done (address, s)
unfolding relative_to_absolute address_word sub_i32
relative_to_absolute-address_word checks s address h k = ap (λ (a : ℕ). done (a, s)) (omega arith)
