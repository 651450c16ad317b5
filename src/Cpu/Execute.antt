-- ===== src/Cpu/Execute.antt =====
-- fox32/src/cpu.rs: `execute_instruction` and `execute_memory_instruction`.
use fox.Prelude.{ℕ, Option, none, some}
use fox.Outcome.{bad_opcode}
use fox.Cpu.State.{M, Io, ◌>>=◌, panics, load, get_ip, set_ip}
use fox.Cpu.Decode.{Instruction, from_half}
use fox.Cpu.Alu.{
  execute_add, execute_inc, execute_sub, execute_dec, execute_mul, execute_div, execute_rem,
  execute_and, execute_or, execute_xor, execute_not, execute_sla, execute_sra, execute_srl,
  execute_rol, execute_ror, execute_bse, execute_bcl, execute_bts, execute_cmp,
}
use fox.Cpu.Move.{
  execute_mov, execute_movz, execute_rta, execute_push, execute_pop, execute_in, execute_out,
}
use fox.Cpu.Control.{
  execute_nop, execute_halt, execute_brk, execute_jmp, execute_call, execute_loop, execute_rjmp,
  execute_rcall, execute_rloop, execute_ret, execute_reti, execute_ise, execute_icl,
}

module _ {D : Type 0} (io : Io D) where
  -- The instruction pointer of the next instruction.
  unfoldable pub execute_instruction : Instruction → M D ℕ
  execute_instruction Instruction.nop = execute_nop
  execute_instruction (Instruction.halt c) = execute_halt c
  execute_instruction (Instruction.brk c) = execute_brk c
  execute_instruction (Instruction.add z c d s) = execute_add z c d s
  execute_instruction (Instruction.inc z c s) = execute_inc z c s
  execute_instruction (Instruction.sub z c d s) = execute_sub z c d s
  execute_instruction (Instruction.dec z c s) = execute_dec z c s
  execute_instruction (Instruction.mul z c d s) = execute_mul z c d s
  execute_instruction (Instruction.div z c d s) = execute_div z c d s
  execute_instruction (Instruction.rem z c d s) = execute_rem z c d s
  execute_instruction (Instruction.and z c d s) = execute_and z c d s
  execute_instruction (Instruction.or z c d s) = execute_or z c d s
  execute_instruction (Instruction.xor z c d s) = execute_xor z c d s
  execute_instruction (Instruction.not z c s) = execute_not z c s
  execute_instruction (Instruction.sla z c d s) = execute_sla z c d s
  execute_instruction (Instruction.rol z c d s) = execute_rol z c d s
  execute_instruction (Instruction.sra z c d s) = execute_sra z c d s
  execute_instruction (Instruction.srl z c d s) = execute_srl z c d s
  execute_instruction (Instruction.ror z c d s) = execute_ror z c d s
  execute_instruction (Instruction.bse z c d s) = execute_bse z c d s
  execute_instruction (Instruction.bcl z c d s) = execute_bcl z c d s
  execute_instruction (Instruction.bts z c d s) = execute_bts z c d s
  execute_instruction (Instruction.cmp z c d s) = execute_cmp z c d s
  execute_instruction (Instruction.mov z c d s) = execute_mov z c d s
  execute_instruction (Instruction.movz z c d s) = execute_movz z c d s
  execute_instruction (Instruction.jmp c s) = execute_jmp c s
  execute_instruction (Instruction.call c s) = execute_call c s
  execute_instruction (Instruction.loop c s) = execute_loop c s
  execute_instruction (Instruction.rjmp c s) = execute_rjmp c s
  execute_instruction (Instruction.rcall c s) = execute_rcall c s
  execute_instruction (Instruction.rloop c s) = execute_rloop c s
  execute_instruction (Instruction.rta c d s) = execute_rta c d s
  execute_instruction (Instruction.push z c s) = execute_push z c s
  execute_instruction (Instruction.pop z c s) = execute_pop z c s
  execute_instruction (Instruction.ret c) = execute_ret c
  execute_instruction (Instruction.reti c) = execute_reti c
  execute_instruction (Instruction.«in» c d s) = execute_in io c d s
  execute_instruction (Instruction.out c d s) = execute_out io c d s
  execute_instruction (Instruction.ise c) = execute_ise c
  execute_instruction (Instruction.icl c) = execute_icl c

  unfoldable pub run_decoded : ℕ → Option Instruction → M D (Unit {0})
  unfolding execute_instruction
  run_decoded opcode none = panics (bad_opcode opcode)
  run_decoded opcode (some instruction) = do next ← execute_instruction instruction; set_ip next

  -- A half that is no instruction is printed, the RAM dumped to a file, and the thread panics.
  unfoldable pub execute_memory_instruction : M D (Unit {0})
  unfolding load from_half run_decoded execute_instruction
  execute_memory_instruction = do
    ip ← get_ip
    opcode ← load 2 ip
    run_decoded opcode (from_half opcode)
