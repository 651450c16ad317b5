-- ===== src/Cpu/Steady.antt =====
-- The invariant of the processor while it executes one instruction, and that the methods of
-- fox32/src/cpu.rs keep it.
pub mod Operands
pub mod Arms
pub mod Compute
pub mod Moves
pub mod Devices
pub mod Jumps
pub mod Goes
pub mod Execute
use fox.Prelude.{
  ℕ, ◌+◌, ◌%◌, ◌^◌, ◌<◌, ◌≡◌, refl, Bool, true, false, ltb, ◌==◌, if◌then◌else◌, Bool-cases, inl,
  inr, update, arith,
}
use fox.Outcome.{Outcome, done, panic, Ensures, Ensures-if}
use fox.Word.{IsU32, add_u32}
use fox.Memory.{Memory, read, write}
use fox.Memory.Access.{HasBytes, read-lt, write-HasBytes}
use fox.Cpu.State.{
  Cpu, Bus, Io, M, Flag, pure, ◌>>=◌, ◌>>◌, panics, lift, when, add, get_ip, load, store, set_zero,
  set_carry, set_flag, set_interrupt, set_halted, get_sp, set_sp, fetch, ip_plus, read_register,
  write_register, check_condition, Condition, always, zero, not_zero, carry, not_carry,
  greater_than, less_than_equal_to, relative_to_absolute,
}
use fox.Cpu.Keeps.{Keeps, Keeps-bind, Keeps-pure, Keeps-lift}

module _ {D : Type 0} (I : D → Type 0) where
  -- Every field holds a number of its Rust type, the devices hold what `I` asks of them, and the
  -- instruction pointer is still `start`.
  pub record Steady (start : ℕ) (s : Cpu D) : Type 0 where
    pub at_start : s.instruction_pointer ≡ start
    pub start_word : IsU32 start
    pub sp_word : IsU32 s.stack_pointer
    pub register_words : (r : ℕ) → IsU32 (s.register r)
    pub memory_bytes : HasBytes s.bus.memory
    pub devices_typed : I s.bus.devices

abbrev pub AnyUnit : Unit {0} → Type 0
AnyUnit _ = Unit {0}

abbrev pub AnyBool : Bool → Type 0
AnyBool _ = Unit {0}

pub add_u32-wraps :
    (checks : Bool) (a b : ℕ) {start : ℕ}
    → a ≡ start
    → Ensures (λ v. v ≡ (start + b) % 2 ^ 32) (add_u32 checks a b)
add_u32-wraps checks a b e =
    Ensures-if _ (ltb (a + b) (2 ^ 32)) _ _ (λ l. ground arith)
      λ _. Ensures-if _ checks _ _ (λ _. tt) (λ _. rw e refl)

module _ {D : Type 0} (I : D → Type 0) (start : ℕ) where
  abbrev pub Kept : {A : Type 0} → (A → Type 0) → M D A → Type 0
  Kept = Keeps (Steady I start)

  pub load-Kept : (count address : ℕ) → Kept (λ v. v < 256 ^ count) (load count address)
  unfolding load
  load-Kept count address checks s h =
      Keeps-lift (Steady I start) (λ v. v < 256 ^ count) (read count s.bus.memory address)
        (read-lt count s.bus.memory address h.memory_bytes) checks s h

  pub store-Kept : (count address value : ℕ) → Kept AnyUnit (store count address value)
  unfolding store
  store-Kept count address value checks s h =
      after (write count s.bus.memory address value)
        (write-HasBytes count s.bus.memory address value h.memory_bytes)
    where
      after :
          (r : Outcome Memory)
          → Ensures HasBytes r
          → Ensures {A = Unit {0} × Cpu D}
              (λ x. Unit {0} × Steady I start x.1)
              (elim r [
                | panic p ↦ panic p
                | done m ↦ done (tt, record s { bus = record (s.bus) { memory = m } })
              ])
      after (done m) q = (
        tt,
        record {
          at_start = h.at_start;
          start_word = h.start_word;
          sp_word = h.sp_word;
          register_words = h.register_words;
          memory_bytes = q;
          devices_typed = h.devices_typed;
        },
      )
      after (panic e) q = tt

  pub ip_plus-Kept : (offset : ℕ) → Kept (λ v. v ≡ (start + offset) % 2 ^ 32) (ip_plus offset)
  unfolding ip_plus
  ip_plus-Kept offset checks s h =
      Keeps-lift (Steady I start) (λ v. v ≡ (start + offset) % 2 ^ 32)
        (add_u32 checks s.instruction_pointer offset)
        (add_u32-wraps checks s.instruction_pointer offset h.at_start) checks s h

  pub read_register-Kept : (r : ℕ) → Kept IsU32 (read_register r)
  unfolding read_register
  read_register-Kept r checks s h =
      Ensures-if {A = ℕ × Cpu D} _ (ltb r 32) _ _ (λ _. (h.register_words r, h))
        λ _. Ensures-if {A = ℕ × Cpu D} _ (r == 32) _ _ (λ _. (h.sp_word, h)) (λ _. tt)

  pub write_register-Kept : (r v : ℕ) → IsU32 v → Kept AnyUnit (write_register r v)
  unfolding write_register
  write_register-Kept r v hv checks s h =
      Ensures-if {A = Unit {0} × Cpu D} _ (ltb r 32) _ _
        (λ _. (
          tt,
          record {
            at_start = h.at_start;
            start_word = h.start_word;
            sp_word = h.sp_word;
            register_words = λ i. ground (arith, h.register_words i);
            memory_bytes = h.memory_bytes;
            devices_typed = h.devices_typed;
          },
        ))
        λ _.
          Ensures-if {A = Unit {0} × Cpu D} _ (r == 32) _ _
            (λ _. (
              tt,
              record {
                at_start = h.at_start;
                start_word = h.start_word;
                sp_word = hv;
                register_words = h.register_words;
                memory_bytes = h.memory_bytes;
                devices_typed = h.devices_typed;
              },
            ))
            (λ _. tt)

  pub check_condition-Kept : (c : Condition) → Kept AnyBool (check_condition c)
  unfolding check_condition
  check_condition-Kept always checks s h = (tt, h)
  check_condition-Kept _ checks s h = (tt, h)

  pub fetch-Kept : (count offset : ℕ) → Kept (λ v. v < 256 ^ count) (fetch count offset)
  unfolding fetch
  fetch-Kept count offset =
      Keeps-bind (Steady I start) (λ v. v ≡ (start + offset) % 2 ^ 32) (λ v. v < 256 ^ count)
        (ip_plus offset) (λ a. load count a) (ip_plus-Kept offset) λ a _. load-Kept count a

  pub relative_to_absolute-Kept : (v : ℕ) → Kept IsU32 (relative_to_absolute v)
  unfolding relative_to_absolute
  relative_to_absolute-Kept v checks s h = (omega arith, h)

  -- The setters that touch no number.
  pub set_zero-Kept : (b : Bool) → Kept AnyUnit (set_zero b)
  set_zero-Kept b checks s h = (
    tt,
    record {
      at_start = h.at_start;
      start_word = h.start_word;
      sp_word = h.sp_word;
      register_words = h.register_words;
      memory_bytes = h.memory_bytes;
      devices_typed = h.devices_typed;
    },
  )

  pub set_carry-Kept : (b : Bool) → Kept AnyUnit (set_carry b)
  set_carry-Kept b checks s h = (
    tt,
    record {
      at_start = h.at_start;
      start_word = h.start_word;
      sp_word = h.sp_word;
      register_words = h.register_words;
      memory_bytes = h.memory_bytes;
      devices_typed = h.devices_typed;
    },
  )

  pub set_flag-Kept : (f : Flag) → Kept AnyUnit (set_flag f)
  set_flag-Kept f checks s h = (
    tt,
    record {
      at_start = h.at_start;
      start_word = h.start_word;
      sp_word = h.sp_word;
      register_words = h.register_words;
      memory_bytes = h.memory_bytes;
      devices_typed = h.devices_typed;
    },
  )

  pub set_interrupt-Kept : (b : Bool) → Kept AnyUnit (set_interrupt b)
  set_interrupt-Kept b checks s h = set_flag-Kept (record (s.flag) { interrupt = b }) checks s h

  pub set_halted-Kept : (b : Bool) → Kept AnyUnit (set_halted b)
  set_halted-Kept b checks s h = (
    tt,
    record {
      at_start = h.at_start;
      start_word = h.start_word;
      sp_word = h.sp_word;
      register_words = h.register_words;
      memory_bytes = h.memory_bytes;
      devices_typed = h.devices_typed;
    },
  )

  pub set_sp-Kept : (v : ℕ) → IsU32 v → Kept AnyUnit (set_sp v)
  set_sp-Kept v hv checks s h = (
    tt,
    record {
      at_start = h.at_start;
      start_word = h.start_word;
      sp_word = hv;
      register_words = h.register_words;
      memory_bytes = h.memory_bytes;
      devices_typed = h.devices_typed;
    },
  )

  pub get_sp-Kept : Kept IsU32 get_sp
  get_sp-Kept checks s h = (h.sp_word, h)
