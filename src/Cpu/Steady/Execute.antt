-- ===== src/Cpu/Steady/Execute.antt =====
-- fox32/src/cpu.rs: `execute_instruction` keeps the invariant of the processor and goes on behind the
-- instruction, whatever the instruction.
use fox.Prelude.{ℕ, Bool}
use fox.Outcome.{Ensures}
use fox.Cpu.State.{Cpu, Io}
use fox.Cpu.Decode.{Instruction}
use fox.Cpu.Arm.{
  guarded, mixed, early, write_only, write_zero, write_zero_carry, zero_carry, zero_only,
}
use fox.Cpu.Alu.{
  execute_add, execute_inc, execute_sub, execute_dec, execute_mul, execute_div, execute_rem,
  execute_and, execute_or, execute_xor, execute_not, execute_sla, execute_rol, execute_sra,
  execute_srl, execute_ror, execute_bse, execute_bcl, execute_bts, execute_cmp, add_op, inc_op,
  sub_op, dec_op, mul_op, div_op, rem_op, and_op, or_op, xor_op, not_op, sla_op, rol_op, sra_op,
  srl_op, ror_op, bse_op, bcl_op, bts_op,
}
use fox.Cpu.Execute.{execute_instruction}
use fox.Cpu.Keeps.{Keeps}
use fox.Cpu.Steady.{Steady}
use fox.Cpu.Steady.Arms.{
  binary-Kept, unary-Kept, write_only-Kept, write_zero-Kept, write_zero_carry-Kept, zero_carry-Kept,
  zero_only-Kept,
}
use fox.Cpu.Steady.Goes.{Goes}
use fox.Cpu.Steady.Compute.{
  add_op-Kept, inc_op-Kept, sub_op-Kept, dec_op-Kept, mul_op-Kept, div_op-Kept, rem_op-Kept,
  and_op-Kept, or_op-Kept, xor_op-Kept, not_op-Kept, sla_op-Kept, rol_op-Kept, sra_op-Kept,
  srl_op-Kept, ror_op-Kept, bse_op-Kept, bcl_op-Kept, bts_op-Kept,
}
use fox.Cpu.Steady.Moves.{
  execute_mov-Kept, execute_movz-Kept, execute_rta-Kept, execute_push-Kept, execute_pop-Kept,
}
use fox.Cpu.Steady.Devices.{IoLaws, execute_in-Kept, execute_out-Kept}
use fox.Cpu.Steady.Jumps.{
  execute_nop-Kept, execute_halt-Kept, execute_brk-Kept, execute_jmp-Kept, execute_call-Kept,
  execute_loop-Kept, execute_rjmp-Kept, execute_rcall-Kept, execute_rloop-Kept, execute_ret-Kept,
  execute_reti-Kept, execute_ise-Kept, execute_icl-Kept,
}

-- Every field of the processor holds a number of its type, and the devices what `I` asks of them.
abbrev pub IsWellFormed : {D : Type 0} → (D → Type 0) → Cpu D → Type 0
IsWellFormed I s = Steady I s.instruction_pointer s

module _ {D : Type 0} (I : D → Type 0) (io : Io D) (laws : IoLaws I io) where
  instruction-Kept :
      (start : ℕ) (i : Instruction)
      → Keeps (Steady I start) (Goes i start) (execute_instruction io i)
  unfolding execute_instruction
  instruction-Kept start Instruction.nop = execute_nop-Kept I start
  instruction-Kept start (Instruction.halt c) = execute_halt-Kept I start c
  instruction-Kept start (Instruction.brk c) = execute_brk-Kept I start c
  instruction-Kept start (Instruction.add z c d s) =
      unfold execute_add in
      binary-Kept I start mixed add_op write_zero_carry (λ z v _. add_op-Kept I start z v)
        (write_zero_carry-Kept I start) z c d s
  instruction-Kept start (Instruction.inc z c s) =
      unfold execute_inc in
      unary-Kept I start guarded inc_op write_zero_carry (inc_op-Kept I start)
        (write_zero_carry-Kept I start) z c s
  instruction-Kept start (Instruction.sub z c d s) =
      unfold execute_sub in
      binary-Kept I start mixed sub_op write_zero_carry (λ z v _. sub_op-Kept I start z v)
        (write_zero_carry-Kept I start) z c d s
  instruction-Kept start (Instruction.dec z c s) =
      unfold execute_dec in
      unary-Kept I start guarded dec_op write_zero_carry (dec_op-Kept I start)
        (write_zero_carry-Kept I start) z c s
  instruction-Kept start (Instruction.mul z c d s) =
      unfold execute_mul in
      binary-Kept I start mixed mul_op write_zero_carry (λ z v _. mul_op-Kept I start z v)
        (write_zero_carry-Kept I start) z c d s
  instruction-Kept start (Instruction.div z c d s) =
      unfold execute_div in
      binary-Kept I start mixed div_op write_zero (λ z v _. div_op-Kept I start z v)
        (write_zero-Kept I start) z c d s
  instruction-Kept start (Instruction.rem z c d s) =
      unfold execute_rem in
      binary-Kept I start mixed rem_op write_zero (λ z v _. rem_op-Kept I start z v)
        (write_zero-Kept I start) z c d s
  instruction-Kept start (Instruction.and z c d s) =
      unfold execute_and in
      binary-Kept I start mixed and_op write_zero (λ z v _. and_op-Kept I start z v)
        (write_zero-Kept I start) z c d s
  instruction-Kept start (Instruction.or z c d s) =
      unfold execute_or in
      binary-Kept I start mixed or_op write_zero (λ z v _. or_op-Kept I start z v)
        (write_zero-Kept I start) z c d s
  instruction-Kept start (Instruction.xor z c d s) =
      unfold execute_xor in
      binary-Kept I start mixed xor_op write_zero (λ z v _. xor_op-Kept I start z v)
        (write_zero-Kept I start) z c d s
  instruction-Kept start (Instruction.not z c s) =
      unfold execute_not in
      unary-Kept I start mixed not_op write_zero (not_op-Kept I start) (write_zero-Kept I start) z c
        s
  instruction-Kept start (Instruction.sla z c d s) =
      unfold execute_sla in
      binary-Kept I start mixed sla_op write_zero_carry (λ z v _. sla_op-Kept I start z v)
        (write_zero_carry-Kept I start) z c d s
  instruction-Kept start (Instruction.rol z c d s) =
      unfold execute_rol in
      binary-Kept I start mixed rol_op write_zero_carry (λ z v _. rol_op-Kept I start z v)
        (write_zero_carry-Kept I start) z c d s
  instruction-Kept start (Instruction.sra z c d s) =
      unfold execute_sra in
      binary-Kept I start mixed sra_op write_zero_carry (λ z v _. sra_op-Kept I start z v)
        (write_zero_carry-Kept I start) z c d s
  instruction-Kept start (Instruction.srl z c d s) =
      unfold execute_srl in
      binary-Kept I start mixed srl_op write_zero_carry (λ z v _. srl_op-Kept I start z v)
        (write_zero_carry-Kept I start) z c d s
  instruction-Kept start (Instruction.ror z c d s) =
      unfold execute_ror in
      binary-Kept I start mixed ror_op write_zero_carry (λ z v _. ror_op-Kept I start z v)
        (write_zero_carry-Kept I start) z c d s
  instruction-Kept start (Instruction.bse z c d s) =
      unfold execute_bse in
      binary-Kept I start early bse_op write_only (λ z v _. bse_op-Kept I start z v)
        (write_only-Kept I start) z c d s
  instruction-Kept start (Instruction.bcl z c d s) =
      unfold execute_bcl in
      binary-Kept I start early bcl_op write_only (λ z v _. bcl_op-Kept I start z v)
        (write_only-Kept I start) z c d s
  instruction-Kept start (Instruction.bts z c d s) =
      unfold execute_bts in
      binary-Kept I start early bts_op zero_only (λ z v _. bts_op-Kept I start z v)
        (zero_only-Kept I start) z c d s
  instruction-Kept start (Instruction.cmp z c d s) =
      unfold execute_cmp in
      binary-Kept I start mixed sub_op zero_carry (λ z v _. sub_op-Kept I start z v)
        (zero_carry-Kept I start) z c d s
  instruction-Kept start (Instruction.mov z c d s) = execute_mov-Kept I start z c d s
  instruction-Kept start (Instruction.movz z c d s) = execute_movz-Kept I start z c d s
  instruction-Kept start (Instruction.jmp c s) = execute_jmp-Kept I start c s
  instruction-Kept start (Instruction.call c s) = execute_call-Kept I start c s
  instruction-Kept start (Instruction.loop c s) = execute_loop-Kept I start c s
  instruction-Kept start (Instruction.rjmp c s) = execute_rjmp-Kept I start c s
  instruction-Kept start (Instruction.rcall c s) = execute_rcall-Kept I start c s
  instruction-Kept start (Instruction.rloop c s) = execute_rloop-Kept I start c s
  instruction-Kept start (Instruction.rta c d s) = execute_rta-Kept I start c d s
  instruction-Kept start (Instruction.push z c s) = execute_push-Kept I start z c s
  instruction-Kept start (Instruction.pop z c s) = execute_pop-Kept I start z c s
  instruction-Kept start (Instruction.ret c) = execute_ret-Kept I start c
  instruction-Kept start (Instruction.reti c) = execute_reti-Kept I start c
  instruction-Kept start (Instruction.«in» c d s) = execute_in-Kept I io laws start c d s
  instruction-Kept start (Instruction.out c d s) = execute_out-Kept I io laws start c d s
  instruction-Kept start (Instruction.ise c) = execute_ise-Kept I start c
  instruction-Kept start (Instruction.icl c) = execute_icl-Kept I start c

  -- An instruction that returns gives the address behind its operands, wrapped at 32 bits, or for a
  -- jump some 32-bit address, and leaves the instruction pointer where it is and every field of the
  -- processor within its type. The calls of the devices keep an invariant of theirs, `I`, and give
  -- words and leave bytes where it holds.
  pub execute_instruction-Steady :
      (i : Instruction) (checks : Bool) (s : Cpu D)
      → IsWellFormed I s
      → Ensures
          (λ r. Goes i s.instruction_pointer r.0 × Steady I s.instruction_pointer r.1)
          (execute_instruction io i checks s)
  execute_instruction-Steady i checks s h = instruction-Kept s.instruction_pointer i checks s h
