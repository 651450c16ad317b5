-- ===== src/Cpu/Registers.antt =====
-- fox32/src/cpu.rs: what the arms that compute do with two registers, down to the bytes of the
-- instruction.
pub mod Arithmetic
use fox.Prelude.{
  ℕ, ◌+◌, ◌%◌, ◌^◌, ◌<◌, ◌≡◌, refl, ap, ◌∙◌, Bool, true, false, not, ◌&&◌, ◌||◌, ltb, leb, ◌==◌,
  if◌then◌else◌, arith,
}
use fox.Outcome.{Outcome, done, panic, arithmetic_overflow, invalid_register}
use fox.Word.{overflowing_sub}
use fox.Memory.{read}
use fox.Cpu.State.{
  Cpu, M, Flag, pure, ◌>>=◌, ◌>>◌, lift, load, fetch, ip_plus, read_register, check_condition,
  always, zero, not_zero, carry, not_carry, greater_than, less_than_equal_to,
}
use fox.Cpu.Decode.{Size, byte, half, word, register}
use fox.Cpu.Operand.{width, read_source, read_register_as, write_register_as}
use fox.Cpu.Arm.{Timing, mixed, Commit, in_register, apply_op, on_destination, binary, zero_carry}
use fox.Cpu.Alu.{sub_op, execute_cmp}
use fox.Cpu.Runs.{runs-bind}
use fox.Cpu.Steady.Operands.{mod-lt-width}

-- An instruction of two registers at the instruction pointer: its bytes behind the opcode half.
pub record HasRegisters {D : Type 0} (s : Cpu D) (destination source : ℕ) : Type 0 where
  pub source_read : read 1 s.bus.memory (s.instruction_pointer + 2) ≡ done source
  pub destination_read : read 1 s.bus.memory (s.instruction_pointer + 3) ≡ done destination
  pub within : s.instruction_pointer + 4 < 2 ^ 32
  pub source_general : source < 32
  pub destination_general : destination < 32

-- The conditions, as the processor tests them in `s`, decide the order of `a` and `b`.
abbrev pub Compared : {D : Type 0} → (checks : Bool) → (a b : ℕ) → Cpu D → Type 0
Compared checks a b s =
    (check_condition zero checks s ≡ done (a == b, s))
    × (check_condition not_zero checks s ≡ done (not (a == b), s))
    × (check_condition carry checks s ≡ done (ltb a b, s))
    × (check_condition not_carry checks s ≡ done (leb b a, s))
    × (check_condition greater_than checks s ≡ done (ltb b a, s))
    × (check_condition less_than_equal_to checks s ≡ done (leb a b, s))

module _ {D : Type 0} (checks : Bool) (s : Cpu D) where
  ip_plus-runs :
      (offset : ℕ)
      → s.instruction_pointer + offset < 2 ^ 32
      → ip_plus offset checks s ≡ done (s.instruction_pointer + offset, s)
  unfolding ip_plus
  ip_plus-runs offset l = on (ltb (s.instruction_pointer + offset) (2 ^ 32)) (ground arith)
    where
      on :
          (b : Bool)
          → b ≡ true
          → lift
              (if b
                then done (s.instruction_pointer + offset)
                else if checks
                then panic arithmetic_overflow
                else done ((s.instruction_pointer + offset) % 2 ^ 32))
              checks
              s
            ≡ done (s.instruction_pointer + offset, s)
      on true e = refl
      on false e = absurd cc

  load-runs :
      (count address v : ℕ)
      → read count s.bus.memory address ≡ done v
      → load count address checks s ≡ done (v, s)
  unfolding load
  load-runs count address v e = ap (λ (r : Outcome ℕ). lift r checks s) e

  fetch-runs :
      (count offset v : ℕ)
      → s.instruction_pointer + offset < 2 ^ 32
      → read count s.bus.memory (s.instruction_pointer + offset) ≡ done v
      → fetch count offset checks s ≡ done (v, s)
  unfolding fetch
  fetch-runs count offset v l e =
      runs-bind (λ a. load count a) checks (ip_plus offset) s (ip_plus-runs offset l)
      ∙ load-runs count (s.instruction_pointer + offset) v e

  pub read_register-runs : (r : ℕ) → r < 32 → read_register r checks s ≡ done (s.register r, s)
  unfolding read_register
  read_register-runs r l = on (ltb r 32) (ground arith)
    where
      on :
          (b : Bool)
          → b ≡ true
          → ◌≡◌ {A = Outcome (ℕ × Cpu D)}
              (if◌then◌else◌ b
                (done (s.register r, s))
                (if r == 32 then done (s.stack_pointer, s) else panic (invalid_register r)))
              (done (s.register r, s))
      on true e = refl
      on false e = absurd cc

  read_register_as-runs :
      (size : Size) (r : ℕ)
      → r < 32
      → read_register_as size r checks s ≡ done (s.register r % 2 ^ width size, s)
  unfolding read_register_as
  read_register_as-runs size r l =
      runs-bind (λ v. pure (v % 2 ^ width size)) checks (read_register r) s (read_register-runs r l)

  read_source-runs :
      (source : ℕ)
      → s.instruction_pointer + 2 < 2 ^ 32
      → read 1 s.bus.memory (s.instruction_pointer + 2) ≡ done source
      → source < 32
      → read_source register checks s ≡ done ((s.register source, 3), s)
  unfolding read_source
  read_source-runs source l e g =
      runs-bind (λ r. read_register r >>= λ v. pure (v, 3)) checks (fetch 1 2) s
        (fetch-runs 1 2 source l e)
      ∙ runs-bind (λ v. pure (v, 3)) checks (read_register source) s (read_register-runs source g)

  -- An operation on the value of the destination, and what it is committed to.
  apply_op-runs :
      (first : Bool) (m : M D ℕ) (write : ℕ → M D (Unit {0})) (op : ℕ → M D (ℕ × Bool))
      (commit : Commit D) (d : ℕ) (x : ℕ × Bool) {s' : Cpu D}
      → m checks s ≡ done (d, s)
      → op d checks s ≡ done (x, s)
      → commit write x checks s ≡ done (tt, s')
      → apply_op first true m write op commit checks s ≡ done (tt, s')
  unfolding apply_op
  apply_op-runs true m write op commit d x hm ho hc =
      runs-bind (λ d. op d >>= λ x. commit write x) checks m s hm
      ∙ runs-bind (λ x. commit write x) checks (op d) s ho
      ∙ hc
  apply_op-runs false m write op commit d x hm ho hc =
      runs-bind (λ d. op d >>= λ x. commit write x) checks m s hm
      ∙ runs-bind (λ x. commit write x) checks (op d) s ho
      ∙ hc

-- The conditions read the flags of the subtraction.
module _ (a b : ℕ) where
  abbrev Decided : (z c : Bool) → Type 0
  Decided z c =
      (z ≡ (a == b))
      × (not z ≡ not (a == b))
      × (c ≡ ltb a b)
      × (not c ≡ leb b a)
      × (not c && not z ≡ ltb b a)
      × (c || z ≡ leb a b)

  decided :
      (size : Size)
      → a < 2 ^ width size
      → b < 2 ^ width size
      → Decided ((overflowing_sub (width size) a b).0 == 0) (overflowing_sub (width size) a b).1
  decided byte ha hb =
      (ground arith, ground arith, ground arith, ground arith, ground arith, ground arith)
  decided half ha hb =
      (ground arith, ground arith, ground arith, ground arith, ground arith, ground arith)
  decided word ha hb =
      (ground arith, ground arith, ground arith, ground arith, ground arith, ground arith)

  compared :
      {D : Type 0} (checks : Bool) (s : Cpu D)
      → Decided s.flag.zero s.flag.carry
      → Compared checks a b s
  unfolding check_condition
  compared {D} checks s (z, nz, c, nc, g, l) = (at z, at nz, at c, at nc, at g, at l)
    where
      at : {x y : Bool} → x ≡ y → ◌≡◌ {A = Outcome (Bool × Cpu D)} (done (x, s)) (done (y, s))
      at e = ap (λ (x : Bool). done (x, s)) e

module _ {D : Type 0} (checks : Bool) (s : Cpu D) (rd rs : ℕ) (at : HasRegisters s rd rs) where
  -- An arm that computes, on two registers, whose operation and commitment return.
  on_registers :
      (t : Timing) (size : Size) (op : ℕ → M D (ℕ × Bool)) (commit : Commit D) (x : ℕ × Bool)
      {s' : Cpu D}
      → op (s.register rd % 2 ^ width size) checks s ≡ done (x, s)
      → commit (write_register_as size rd) x checks s ≡ done (tt, s')
      → s'.instruction_pointer ≡ s.instruction_pointer
      → on_destination t size true op commit register 3 checks s
        ≡ done (s.instruction_pointer + 4, s')
  unfolding on_destination
  on_registers t size op commit x {s'} ho hc hi =
      runs-bind
        (λ r.
          apply_op (in_register t) true (read_register_as size r) (write_register_as size r) op
            commit
          >> ip_plus 4)
        checks (fetch 1 3) s (fetch-runs checks s 1 3 rd (at_three at) at.destination_read)
      ∙ runs-bind (λ _. ip_plus 4) checks
          (apply_op (in_register t) true (read_register_as size rd) (write_register_as size rd) op
            commit)
          s
          (apply_op-runs checks s (in_register t) (read_register_as size rd)
            (write_register_as size rd) op commit (s.register rd % 2 ^ width size) x
            (read_register_as-runs checks s size rd at.destination_general) ho hc)
      ∙ ip_plus-runs checks s' 4 (rw hi (at.within))
      ∙ ap (λ (k : ℕ). next k) hi
    where
      at_three : HasRegisters s rd rs → s.instruction_pointer + 3 < 2 ^ 32
      at_three h = let l : s.instruction_pointer + 4 < 2 ^ 32 = h.within in omega arith

      next : ℕ → Outcome (ℕ × Cpu D)
      next k = done (k + 4, s')

  pub binary-registers :
      (t : Timing) (op : Size → (destination source : ℕ) → M D (ℕ × Bool)) (commit : Commit D)
      (size : Size) (x : ℕ × Bool) {s' : Cpu D}
      → op size (s.register rd % 2 ^ width size) (s.register rs) checks s ≡ done (x, s)
      → commit (write_register_as size rd) x checks s ≡ done (tt, s')
      → s'.instruction_pointer ≡ s.instruction_pointer
      → binary t op commit size always register register checks s
        ≡ done (s.instruction_pointer + 4, s')
  unfolding binary check_condition
  binary-registers t op commit size x {s'} ho hc hi =
      runs-bind
        (λ y. check_condition always >>= λ run.
          on_destination t size run (λ d. op size d y.0) commit register y.1)
        checks (read_source register) s
        (read_source-runs checks s rs (at_two at) at.source_read at.source_general)
      ∙ on_registers t size (λ d. op size d (s.register rs)) commit x ho hc hi
    where
      at_two : HasRegisters s rd rs → s.instruction_pointer + 2 < 2 ^ 32
      at_two h = let l : s.instruction_pointer + 4 < 2 ^ 32 = h.within in omega arith

  -- A comparison of two registers below 32 that stand at the instruction pointer, with no overflow of
  -- it, returns the next instruction pointer and changes the zero and carry flags alone, and each
  -- condition that the processor then tests decides the order of the low parts of the registers.
  pub execute_cmp-Compared :
      (size : Size)
      → (f : Flag) × (execute_cmp size always register register checks s
          ≡ done (s.instruction_pointer + 4, record s { flag = f }))
        × Compared checks
            (s.register rd % 2 ^ width size)
            (s.register rs % 2 ^ width size)
            (record s { flag = f })
        × (f.interrupt ≡ s.flag.interrupt)
  unfolding execute_cmp
  execute_cmp-Compared size =
      let a : ℕ = s.register rd % 2 ^ width size in
      let b : ℕ = s.register rs % 2 ^ width size in
      let x : ℕ × Bool = overflowing_sub (width size) a b in
      let f : Flag = record (s.flag) { zero = x.0 == 0; carry = x.1 } in
      (
        f,
        binary-registers mixed sub_op zero_carry size x {s' = record s { flag = f }} refl refl refl,
        compared a b checks (record s { flag = f })
            (decided a b size (mod-lt-width size (s.register rd))
              (mod-lt-width size (s.register rs))),
        refl,
      )
