-- ===== src/Cpu/Skipped/Execute.antt =====
-- fox32/src/cpu.rs: an instruction whose condition does not hold.
use fox.Prelude.{◌+◌, ◌%◌, ◌^◌, ◌≡◌, refl, Bool, false, if◌then◌else◌}
use fox.Outcome.{Ensures}
use fox.Word
use fox.Word.{overflowing_sub}
use fox.Cpu.State.{Cpu, Io, pure, ◌>>=◌, ◌>>◌, when, relative_to_absolute, ip_plus}
use fox.Cpu.Decode.{Instruction}
use fox.Cpu.Operand.{width, bytes}
use fox.Cpu.Stack.{push_stack}
use fox.Cpu.Arm.{
  guarded, mixed, early, write_only, write_zero, write_zero_carry, zero_carry, zero_only,
}
use fox.Cpu.Alu.{
  execute_add, execute_inc, execute_sub, execute_dec, execute_mul, execute_div, execute_rem,
  execute_and, execute_or, execute_xor, execute_not, execute_sla, execute_rol, execute_sra,
  execute_srl, execute_ror, execute_bse, execute_bcl, execute_bts, execute_cmp, add_op, inc_op,
  sub_op, dec_op, mul_op, div_op, rem_op, and_op, or_op, xor_op, not_op, sla_op, rol_op, sra_op,
  srl_op, ror_op, bse_op, bcl_op, bts_op,
}
use fox.Cpu.Move.{
  mov_to, execute_mov, movz_to, execute_movz, rta_to, execute_rta, execute_push, pop_to,
  execute_pop, out_to, execute_out,
}
use fox.Cpu.Control.{
  execute_halt, execute_brk, execute_jmp, execute_call, execute_loop, execute_rjmp, execute_rcall,
  execute_rloop, execute_ret, execute_reti, execute_ise, execute_icl,
}
use fox.Cpu.Execute.{execute_instruction}
use fox.Cpu.Steady.Operands.{operand_length}
use fox.Cpu.Steady.Arms.{binary_length}
use fox.Cpu.Skipped.{holds}
use fox.Cpu.Skipped.Arms.{
  Falls, tested, sourced, binary-skipped, unary-skipped, idle, mov_to-skipped, movz_to-skipped,
  rta_to-skipped, pop_to-skipped, out_to-skipped,
}
use fox.Cpu.Skipped.Special.{
  condition_of, Counted, Skips, countdown, countdown-skipped, execute_in-skipped, divided, shifted,
}

module _ {D : Type 0} (io : Io D) (start : Cpu D) where
  skipped :
      (i : Instruction)
      → holds (condition_of i) start.flag ≡ false
      → (checks : Bool) (s : Cpu D) → s ≡ start
      → Ensures (Skips start io checks i) (execute_instruction io i checks s)
  unfolding execute_instruction
  skipped Instruction.nop fails = absurd cc
  skipped (Instruction.halt c) fails =
      unfold execute_halt in tested start (Falls start 2) c _ fails (idle start 2)
  skipped (Instruction.brk c) fails =
      unfold execute_brk in tested start (Falls start 2) c _ fails (idle start 2)
  skipped (Instruction.add z c d s) fails =
      unfold execute_add in
      binary-skipped start mixed add_op write_zero_carry z c d s (λ v x checks t h. (tt, h)) fails
  skipped (Instruction.inc z c s) fails =
      unfold execute_inc in
      unary-skipped start guarded inc_op write_zero_carry z c s (λ x checks t h. (tt, h)) fails
  skipped (Instruction.sub z c d s) fails =
      unfold execute_sub in
      binary-skipped start mixed sub_op write_zero_carry z c d s (λ v x checks t h. (tt, h)) fails
  skipped (Instruction.dec z c s) fails =
      unfold execute_dec in
      unary-skipped start guarded dec_op write_zero_carry z c s (λ x checks t h. (tt, h)) fails
  skipped (Instruction.mul z c d s) fails =
      unfold execute_mul in
      binary-skipped start mixed mul_op write_zero_carry z c d s (λ v x checks t h. (tt, h)) fails
  skipped (Instruction.div z c d s) fails =
      unfold execute_div in
      binary-skipped start mixed div_op write_zero z c d s
        (λ v x. divided start (Word.div x (v % 2 ^ width z))) fails
  skipped (Instruction.rem z c d s) fails =
      unfold execute_rem in
      binary-skipped start mixed rem_op write_zero z c d s
        (λ v x. divided start (Word.rem x (v % 2 ^ width z))) fails
  skipped (Instruction.and z c d s) fails =
      unfold execute_and in
      binary-skipped start mixed and_op write_zero z c d s (λ v x checks t h. (tt, h)) fails
  skipped (Instruction.or z c d s) fails =
      unfold execute_or in
      binary-skipped start mixed or_op write_zero z c d s (λ v x checks t h. (tt, h)) fails
  skipped (Instruction.xor z c d s) fails =
      unfold execute_xor in
      binary-skipped start mixed xor_op write_zero z c d s (λ v x checks t h. (tt, h)) fails
  skipped (Instruction.not z c s) fails =
      unfold execute_not in
      unary-skipped start mixed not_op write_zero z c s (λ x checks t h. (tt, h)) fails
  skipped (Instruction.sla z c d s) fails =
      unfold execute_sla in
      binary-skipped start mixed sla_op write_zero_carry z c d s (λ v x. shifted start z v _ _)
        fails
  skipped (Instruction.rol z c d s) fails =
      unfold execute_rol in
      binary-skipped start mixed rol_op write_zero_carry z c d s (λ v x checks t h. (tt, h)) fails
  skipped (Instruction.sra z c d s) fails =
      unfold execute_sra in
      binary-skipped start mixed sra_op write_zero_carry z c d s (λ v x. shifted start z v _ _)
        fails
  skipped (Instruction.srl z c d s) fails =
      unfold execute_srl in
      binary-skipped start mixed srl_op write_zero_carry z c d s (λ v x. shifted start z v _ _)
        fails
  skipped (Instruction.ror z c d s) fails =
      unfold execute_ror in
      binary-skipped start mixed ror_op write_zero_carry z c d s (λ v x checks t h. (tt, h)) fails
  skipped (Instruction.bse z c d s) fails =
      unfold execute_bse in
      binary-skipped start early bse_op write_only z c d s (λ v x. shifted start z v _ _) fails
  skipped (Instruction.bcl z c d s) fails =
      unfold execute_bcl in
      binary-skipped start early bcl_op write_only z c d s (λ v x. shifted start z v _ _) fails
  skipped (Instruction.bts z c d s) fails =
      unfold execute_bts in
      binary-skipped start early bts_op zero_only z c d s (λ v x. shifted start z v _ _) fails
  skipped (Instruction.cmp z c d s) fails =
      unfold execute_cmp in
      binary-skipped start mixed sub_op zero_carry z c d s (λ v x checks t h. (tt, h)) fails
  skipped (Instruction.mov z c d s) fails =
      unfold execute_mov in
      sourced start (Falls start (binary_length d s)) c s (λ v offset run. mov_to z v run d offset)
        fails λ v. mov_to-skipped start z v d (2 + operand_length s)
  skipped (Instruction.movz z c d s) fails =
      unfold execute_movz in
      sourced start (Falls start (binary_length d s)) c s (λ v offset run. movz_to z v run d offset)
        fails λ v. movz_to-skipped start z v d (2 + operand_length s)
  skipped (Instruction.jmp c s) fails =
      unfold execute_jmp in
      sourced start (Falls start (2 + operand_length s)) c s
        (λ v offset run. if run then pure v else ip_plus offset) fails
        λ v. idle start (2 + operand_length s)
  skipped (Instruction.call c s) fails =
      unfold execute_call in
      sourced start (Falls start (2 + operand_length s)) c s
        (λ v offset run.
          if run then (do next ← ip_plus offset; push_stack 4 next; pure v) else ip_plus offset)
        fails λ v. idle start (2 + operand_length s)
  skipped (Instruction.loop c s) fails =
      unfold execute_loop in
      sourced start (Counted start (2 + operand_length s)) c s
        (λ v offset run. countdown start run offset (pure v)) fails
        λ v. countdown-skipped start (2 + operand_length s) (pure v)
  skipped (Instruction.rjmp c s) fails =
      unfold execute_rjmp in
      sourced start (Falls start (2 + operand_length s)) c s
        (λ v offset run. if run then relative_to_absolute v else ip_plus offset) fails
        λ v. idle start (2 + operand_length s)
  skipped (Instruction.rcall c s) fails =
      unfold execute_rcall in
      sourced start (Falls start (2 + operand_length s)) c s
        (λ v offset run.
          if run
          then (do next ← ip_plus offset; push_stack 4 next; relative_to_absolute v)
          else ip_plus offset)
        fails λ v. idle start (2 + operand_length s)
  skipped (Instruction.rloop c s) fails =
      unfold execute_rloop in
      sourced start (Counted start (2 + operand_length s)) c s
        (λ v offset run. countdown start run offset (relative_to_absolute v)) fails
        λ v. countdown-skipped start (2 + operand_length s) (relative_to_absolute v)
  skipped (Instruction.rta c d s) fails =
      unfold execute_rta in
      sourced start (Falls start (binary_length d s)) c s (λ v offset run. rta_to v run d offset)
        fails λ v. rta_to-skipped start v d (2 + operand_length s)
  skipped (Instruction.push z c s) fails =
      unfold execute_push in
      sourced start (Falls start (2 + operand_length s)) c s
        (λ v offset run. when run (push_stack (bytes z) (v % 2 ^ width z)) >> ip_plus offset) fails
        λ v. idle start (2 + operand_length s)
  skipped (Instruction.pop z c s) fails =
      unfold execute_pop in
      tested start (Falls start (2 + operand_length s)) c (λ run. pop_to z run s) fails
        (pop_to-skipped start z s)
  skipped (Instruction.ret c) fails =
      unfold execute_ret in tested start (Falls start 2) c _ fails (idle start 2)
  skipped (Instruction.reti c) fails =
      unfold execute_reti in tested start (Falls start 2) c _ fails (idle start 2)
  skipped (Instruction.«in» c d s) fails = execute_in-skipped start io c d s fails
  skipped (Instruction.out c d s) fails =
      unfold execute_out in
      sourced start (Falls start (binary_length d s)) c s (λ v offset run. out_to io v run d offset)
        fails λ v. out_to-skipped start io v d (2 + operand_length s)
  skipped (Instruction.ise c) fails =
      unfold execute_ise in tested start (Falls start 2) c _ fails (idle start 2)
  skipped (Instruction.icl c) fails =
      unfold execute_icl in tested start (Falls start 2) c _ fails (idle start 2)

  -- An instruction whose condition does not hold and that returns goes on behind its operands and
  -- changes nothing, but that `loop` and `rloop` still count register 31 down, and that `in` leaves
  -- the devices as the read of the port in its source operand leaves them.
  pub execute_instruction-skipped :
      (i : Instruction) (checks : Bool)
      → holds (condition_of i) start.flag ≡ false
      → Ensures (Skips start io checks i) (execute_instruction io i checks start)
  execute_instruction-skipped i checks fails = skipped i fails checks start refl
