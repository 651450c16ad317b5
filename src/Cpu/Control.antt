-- ===== src/Cpu/Control.antt =====
-- fox32/src/cpu.rs: the arms of `execute_instruction` that jump, and those without operands.
use fox.Prelude.{ℕ, true, false, ◌==◌, if◌then◌else◌}
use fox.Word.{overflowing_sub}
use fox.Cpu.State.{
  M, pure, ◌>>=◌, ◌>>◌, when, check_condition, relative_to_absolute, read_register, write_register,
  ip_plus, set_halted, set_interrupt, set_flag, flag_from_u8, Condition,
}
use fox.Cpu.Decode.{Operand}
use fox.Cpu.Operand.{read_source}
use fox.Cpu.Stack.{push_stack, pop_stack}

module _ {D : Type 0} where
  unfoldable pub execute_nop : M D ℕ
  unfolding ip_plus
  execute_nop = ip_plus 2

  unfoldable pub execute_halt : Condition → M D ℕ
  unfolding check_condition ip_plus
  execute_halt condition = do
    should_run ← check_condition condition
    when should_run (set_halted true)
    ip_plus 2

  -- Printing the registers changes nothing.
  unfoldable pub execute_brk : Condition → M D ℕ
  unfolding check_condition ip_plus
  execute_brk condition = do should_run ← check_condition condition; ip_plus 2

  unfoldable pub execute_jmp : Condition → (source : Operand) → M D ℕ
  unfolding read_source check_condition ip_plus
  execute_jmp condition source = do
    (source_value, offset) ← read_source source
    should_run ← check_condition condition
    if should_run then pure source_value else ip_plus offset

  unfoldable pub execute_call : Condition → (source : Operand) → M D ℕ
  unfolding read_source check_condition push_stack ip_plus
  execute_call condition source = do
    (source_value, offset) ← read_source source
    should_run ← check_condition condition
    if should_run
        then (do next ← ip_plus offset; push_stack 4 next; pure source_value)
        else ip_plus offset

  -- Register 31 counts down whether or not the condition holds.
  unfoldable pub execute_loop : Condition → (source : Operand) → M D ℕ
  unfolding read_source check_condition read_register write_register ip_plus
  execute_loop condition source = do
    (source_value, offset) ← read_source source
    should_run ← check_condition condition
    counter ← read_register 31
    let result = (overflowing_sub 32 counter 1).0
    write_register 31 result
    if should_run
        then (if result == 0 then ip_plus offset else pure source_value)
        else ip_plus offset

  unfoldable pub execute_rjmp : Condition → (source : Operand) → M D ℕ
  unfolding read_source check_condition relative_to_absolute ip_plus
  execute_rjmp condition source = do
    (source_value, offset) ← read_source source
    should_run ← check_condition condition
    if should_run then relative_to_absolute source_value else ip_plus offset

  unfoldable pub execute_rcall : Condition → (source : Operand) → M D ℕ
  unfolding read_source check_condition push_stack relative_to_absolute ip_plus
  execute_rcall condition source = do
    (source_value, offset) ← read_source source
    should_run ← check_condition condition
    if should_run
        then (do next ← ip_plus offset; push_stack 4 next; relative_to_absolute source_value)
        else ip_plus offset

  unfoldable pub execute_rloop : Condition → (source : Operand) → M D ℕ
  unfolding read_source check_condition read_register write_register relative_to_absolute ip_plus
  execute_rloop condition source = do
    (source_value, offset) ← read_source source
    should_run ← check_condition condition
    counter ← read_register 31
    let result = (overflowing_sub 32 counter 1).0
    write_register 31 result
    if should_run
        then (if result == 0 then ip_plus offset else relative_to_absolute source_value)
        else ip_plus offset

  unfoldable pub execute_ret : Condition → M D ℕ
  unfolding check_condition pop_stack ip_plus
  execute_ret condition = do
    should_run ← check_condition condition
    if should_run then pop_stack 4 else ip_plus 2

  unfoldable pub execute_reti : Condition → M D ℕ
  unfolding check_condition pop_stack flag_from_u8 ip_plus
  execute_reti condition = do
    should_run ← check_condition condition
    if should_run then (do f ← pop_stack 1; set_flag (flag_from_u8 f); pop_stack 4) else ip_plus 2

  unfoldable pub execute_ise : Condition → M D ℕ
  unfolding check_condition ip_plus
  execute_ise condition = do
    should_run ← check_condition condition
    when should_run (set_interrupt true)
    ip_plus 2

  unfoldable pub execute_icl : Condition → M D ℕ
  unfolding check_condition ip_plus
  execute_icl condition = do
    should_run ← check_condition condition
    when should_run (set_interrupt false)
    ip_plus 2
