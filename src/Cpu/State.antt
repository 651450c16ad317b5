-- ===== src/Cpu/State.antt =====
-- fox32/src/cpu.rs: the state of the processor and the methods that touch one field of it.
-- A method is a value of `M`: it is run under a build (with or without overflow checks) on a
-- processor, and returns a value and the new processor, or panics.
use fox.Prelude.{
  ℕ, ◌+◌, ◌*◌, ◌/◌, ◌%◌, ◌^◌, bit_and, bit_or, Bool, true, false, not, ◌&&◌, ◌||◌, ltb, ◌==◌,
  if◌then◌else◌, update,
}
use fox.Outcome.{Panic, Outcome, done, panic, invalid_register}
use fox.Word.{add_u32}
use fox.Memory.{Memory, read, write}

pub record Flag : Type 0 where
  pub interrupt : Bool
  pub carry : Bool
  pub zero : Bool

abbrev bit : Bool → ℕ
bit true = 1
bit false = 0

-- `u8::from(flag)`; a shift by a constant is a product.
unfoldable pub flag_to_u8 : Flag → ℕ
flag_to_u8 f = bit_or (bit_or (bit f.interrupt * 2 ^ 2) (bit f.carry * 2 ^ 1)) (bit f.zero * 2 ^ 0)

-- `Flag::from(byte)`
unfoldable pub flag_from_u8 : ℕ → Flag
flag_from_u8 byte = record {
  interrupt = not (bit_and (byte / 2 ^ 2) 1 == 0);
  carry = not (bit_and (byte / 2 ^ 1) 1 == 0);
  zero = not (bit_and (byte / 2 ^ 0) 1 == 0);
}

pub data Exception : Type 0 where
  divide_by_zero : Exception
  invalid_opcode : ℕ → Exception

pub data Interrupt : Type 0 where
  exception : Exception → Interrupt
  request : ℕ → Interrupt

pub data Condition : Type 0 where
  always zero not_zero carry not_carry greater_than less_than_equal_to : Condition

-- The part of bus.rs that the processor owns besides memory is a type of devices, `D`.
pub record Bus (D : Type 0) : Type 0 where
  pub memory : Memory
  pub devices : D

-- `Bus::read_io` and `Bus::write_io`, as the processor calls them. Only a write may touch memory.
pub record Io (D : Type 0) : Type 0 where
  pub read_io : (port : ℕ) → D → Outcome (ℕ × D)
  pub write_io : (port word : ℕ) → Bus D → Outcome (Bus D)

-- `register` holds the 32 general registers, by their number.
pub record Cpu (D : Type 0) : Type 0 where
  pub instruction_pointer : ℕ
  pub stack_pointer : ℕ
  pub register : ℕ → ℕ
  pub flag : Flag
  pub halted : Bool
  pub bus : Bus D

abbrev pub M : Type 0 → Type 0 → Type 0
M D A = (checks : Bool) → Cpu D → Outcome (A × Cpu D)

module _ {D : Type 0} where
  -- `Cpu::new(bus)`
  abbrev pub new : Bus D → Cpu D
  new bus = record {
    instruction_pointer = 0xF0000000;
    stack_pointer = 0x00000000;
    register = λ _. 0;
    flag = record { interrupt = false; carry = false; zero = false };
    halted = false;
    bus = bus;
  }

  abbrev pub pure : {A : Type 0} → A → M D A
  pure a checks s = done (a, s)

  infixl 5 ◌>>=◌ ◌>>◌
  abbrev pub ◌>>=◌ : {A B : Type 0} → M D A → (A → M D B) → M D B
  ◌>>=◌ m f checks s = elim (m checks s) [ panic p ↦ panic p | done (a, s') ↦ f a checks s' ]

  abbrev pub ◌>>◌ : {B : Type 0} → M D (Unit {0}) → M D B → M D B
  m >> k = m >>= λ _. k

  abbrev pub panics : {A : Type 0} → Panic → M D A
  panics p checks s = panic p

  -- A call that can panic and touches no field of the processor.
  abbrev pub lift : {A : Type 0} → Outcome A → M D A
  lift r checks s = elim r [ panic p ↦ panic p | done a ↦ done (a, s) ]

  -- `if should_run { .. }`
  abbrev pub when : Bool → M D (Unit {0}) → M D (Unit {0})
  when true m = m
  when false m = pure tt

  -- `a + b` on `u32`
  abbrev pub add : ℕ → ℕ → M D ℕ
  add a b checks = lift (add_u32 checks a b) checks

  abbrev pub get_ip : M D ℕ
  get_ip checks s = done (s.instruction_pointer, s)

  abbrev pub set_ip : ℕ → M D (Unit {0})
  set_ip v checks s = done (tt, record s { instruction_pointer = v })

  abbrev pub get_sp : M D ℕ
  get_sp checks s = done (s.stack_pointer, s)

  abbrev pub set_sp : ℕ → M D (Unit {0})
  set_sp v checks s = done (tt, record s { stack_pointer = v })

  abbrev pub get_flag : M D Flag
  get_flag checks s = done (s.flag, s)

  abbrev pub set_flag : Flag → M D (Unit {0})
  set_flag f checks s = done (tt, record s { flag = f })

  abbrev pub set_zero : Bool → M D (Unit {0})
  set_zero b checks s = done (tt, record s { flag = record (s.flag) { zero = b } })

  abbrev pub set_carry : Bool → M D (Unit {0})
  set_carry b checks s = done (tt, record s { flag = record (s.flag) { carry = b } })

  abbrev pub set_interrupt : Bool → M D (Unit {0})
  set_interrupt b checks s = done (tt, record s { flag = record (s.flag) { interrupt = b } })

  abbrev pub set_halted : Bool → M D (Unit {0})
  set_halted b checks s = done (tt, record s { halted = b })

  -- `self.bus.memory.read_8(address)` and the wider reads, by the number of bytes; the writes.
  unfoldable pub load : (count address : ℕ) → M D ℕ
  load count address checks s = lift (read count (s.bus.memory) address) checks s

  unfoldable pub store : (count address value : ℕ) → M D (Unit {0})
  store count address value checks s = elim (write count (s.bus.memory) address value) [
    | panic p ↦ panic p
    | done m ↦ done (tt, record s { bus = record (s.bus) { memory = m } })
  ]

  unfoldable pub check_condition : Condition → M D Bool
  check_condition always = pure true
  check_condition zero = do f ← get_flag; pure (f.zero)
  check_condition not_zero = do f ← get_flag; pure (not f.zero)
  check_condition carry = do f ← get_flag; pure (f.carry)
  check_condition not_carry = do f ← get_flag; pure (not f.carry)
  check_condition greater_than = do f ← get_flag; pure (not f.carry && not f.zero)
  check_condition less_than_equal_to = do f ← get_flag; pure (f.carry || f.zero)

  -- `self.instruction_pointer.wrapping_add(relative_address)`
  unfoldable pub relative_to_absolute : ℕ → M D ℕ
  relative_to_absolute relative = do ip ← get_ip; pure ((ip + relative) % 2 ^ 32)

  unfoldable pub read_register : ℕ → M D ℕ
  read_register r checks s =
      if ltb r 32
      then done (s.register r, s)
      else if r == 32
      then done (s.stack_pointer, s)
      else panic (invalid_register r)

  unfoldable pub write_register : ℕ → ℕ → M D (Unit {0})
  write_register r word checks s =
      if ltb r 32
      then done (tt, record s { register = update s.register r word })
      else if r == 32
      then done (tt, record s { stack_pointer = word })
      else panic (invalid_register r)

  -- `self.instruction_pointer + instruction_pointer_offset`
  unfoldable pub ip_plus : ℕ → M D ℕ
  ip_plus offset = do ip ← get_ip; add ip offset

  -- What follows the opcode, `offset` bytes into the instruction.
  unfoldable pub fetch : (count offset : ℕ) → M D ℕ
  unfolding load ip_plus
  fetch count offset = do a ← ip_plus offset; load count a
