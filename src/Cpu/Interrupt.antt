-- ===== src/Cpu/Interrupt.antt =====
-- fox32/src/cpu.rs: `interrupt`, `handle_interrupt` and `handle_exception`.
pub mod Laws
use fox.Prelude.{ℕ, ◌+◌, ◌*◌, false, Option, none, some}
use fox.Cpu.State.{
  M, pure, ◌>>=◌, ◌>>◌, when, load, get_ip, set_ip, get_flag, set_interrupt, flag_to_u8,
  divide_by_zero, invalid_opcode, Interrupt, exception, request,
}
use fox.Cpu.Stack.{push_stack}

module _ {D : Type 0} where
  unfoldable pub handle_interrupt : (vector : ℕ) → M D (Unit {0})
  unfolding load push_stack flag_to_u8
  handle_interrupt vector = do
    let address_of_pointer = vector * 4
    address ← load 4 address_of_pointer
    ip ← get_ip
    push_stack 4 ip
    f ← get_flag
    push_stack 1 (flag_to_u8 f)
    set_interrupt false
    set_ip address

  -- `if let Some(operand) = operand { .. }`
  unfoldable pub push_operand : Option ℕ → M D (Unit {0})
  unfolding push_stack
  push_operand none = pure tt
  push_operand (some operand) = push_stack 4 operand

  unfoldable pub handle_exception : (vector : ℕ) → (operand : Option ℕ) → M D (Unit {0})
  unfolding load push_stack flag_to_u8 push_operand
  handle_exception vector operand = do
    let address_of_pointer = (256 + vector) * 4
    address ← load 4 address_of_pointer
    ip ← get_ip
    push_stack 4 ip
    f ← get_flag
    push_stack 1 (flag_to_u8 f)
    push_operand operand
    set_interrupt false
    set_ip address

  -- `match interrupt { .. }`
  unfoldable pub dispatch : Interrupt → M D (Unit {0})
  unfolding handle_interrupt handle_exception
  dispatch (request vector) = handle_interrupt vector
  dispatch (exception divide_by_zero) = handle_exception 0 none
  dispatch (exception (invalid_opcode opcode)) = handle_exception 1 (some opcode)

  unfoldable pub interrupt : Interrupt → M D (Unit {0})
  unfolding dispatch handle_interrupt handle_exception
  interrupt i = do f ← get_flag; when f.interrupt (dispatch i)
