-- ===== src/Cpu/Registers/Arithmetic.antt =====
-- fox32/src/cpu.rs: what `add`, `sub` and `mul` leave in a register, in the arithmetic of numbers.
use fox.Prelude.{
  ℕ, ◌+◌, ◌-◌, ◌*◌, ◌/◌, ◌%◌, ◌^◌, ◌<◌, ◌≡◌, refl, ap, ◌∙◌, bit_and, bit_or, Bool, true, false, ltb,
  ◌==◌, update, arith,
}
use fox.Outcome.{done}
use fox.Word.{IsU32, overflowing_add, overflowing_sub, overflowing_mul}
use fox.Word.Bits.{bit_and_shifted, bit_and_mask, bit_or_disjoint}
use fox.Cpu.State.{Cpu, M, ◌>>◌, always, read_register, write_register, set_zero, set_carry}
use fox.Cpu.Decode.{Size, byte, half, word, register}
use fox.Cpu.Operand.{width, write_register_as}
use fox.Cpu.Arm.{mixed, write_zero_carry, binary}
use fox.Cpu.Alu.{add_op, sub_op, mul_op, execute_add, execute_sub, execute_mul}
use fox.Cpu.Runs.{runs-bind}
use fox.Cpu.Steady.Operands.{mod-lt-width}
use fox.Cpu.Registers.{HasRegisters, read_register-runs, binary-registers}

-- The low bits of a register replaced, as the masks of the source do it.
abbrev pub with_low : Size → (old v : ℕ) → ℕ
with_low size old v = old / 2 ^ width size * 2 ^ width size + v

masked_byte :
    (old v : ℕ) → IsU32 old → v < 2 ^ 8 → bit_or (bit_and old 0xFFFFFF00) v ≡ with_low byte old v
masked_byte old v h l =
    rw (bit_and_shifted 8 old 0xFFFFFF, bit_and_mask 24 (old / 2 ^ 8))
      (bit_or_disjoint 8 (old / 2 ^ 8 % 2 ^ 24) v l ∙ omega arith)

masked_half :
    (old v : ℕ) → IsU32 old → v < 2 ^ 16 → bit_or (bit_and old 0xFFFF0000) v ≡ with_low half old v
masked_half old v h l =
    rw (bit_and_shifted 16 old 0xFFFF, bit_and_mask 16 (old / 2 ^ 16))
      (bit_or_disjoint 16 (old / 2 ^ 16 % 2 ^ 16) v l ∙ omega arith)

module _ {D : Type 0} (checks : Bool) (s : Cpu D) where
  write_register-runs :
      (r v : ℕ)
      → r < 32
      → write_register r v checks s ≡ done (tt, record s { register = update s.register r v })
  unfolding write_register
  write_register-runs r v l = let e : ltb r 32 ≡ true = ground arith in rw e refl

  low_written :
      (r v : ℕ) {x : ℕ}
      → r < 32
      → v ≡ x
      → write_register r v checks s ≡ done (tt, record s { register = update s.register r x })
  low_written r v l e =
      write_register-runs r v l
      ∙ ap (λ (y : ℕ). done (tt, record s { register = update s.register r y })) e

  write_register_as-runs :
      (size : Size) (r v : ℕ)
      → r < 32
      → IsU32 (s.register r)
      → v < 2 ^ width size
      → write_register_as size r v checks s
        ≡ done (tt, record s { register = update s.register r (with_low size (s.register r) v) })
  unfolding write_register_as
  write_register_as-runs byte r v l h k =
      runs-bind (λ old. write_register r (bit_or (bit_and old 0xFFFFFF00) v)) checks
        (read_register r) s (read_register-runs checks s r l)
      ∙ low_written r _ l (masked_byte (s.register r) v h k)
  write_register_as-runs half r v l h k =
      runs-bind (λ old. write_register r (bit_or (bit_and old 0xFFFF0000) v)) checks
        (read_register r) s (read_register-runs checks s r l)
      ∙ low_written r _ l (masked_half (s.register r) v h k)
  write_register_as-runs word r v l h k = low_written r v l (omega arith)

-- The sum, the difference and the product of two numbers below `2 ^ w`, with the carry for what does
-- not fit.
abbrev carried : Bool → ℕ
carried true = 1
carried false = 0

abbrev pub Sum : (w a b result : ℕ) → Bool → Type 0
Sum w a b r c = (r < 2 ^ w) × (r + carried c * 2 ^ w ≡ a + b)

abbrev pub Difference : (w a b result : ℕ) → Bool → Type 0
Difference w a b r c = (r < 2 ^ w) × (r + b ≡ a + carried c * 2 ^ w)

abbrev pub Product : (w a b result : ℕ) → Bool → Type 0
Product w a b r c = (r < 2 ^ w) × ((high : ℕ) × (r + high * 2 ^ w ≡ a * b) × (c ≡ ltb 0 high))

module _ (a b : ℕ) where
  sum_lem :
      (size : Size)
      → a < 2 ^ width size
      → b < 2 ^ width size
      → Sum
          (width size)
          a
          b
          (overflowing_add (width size) a b).0
          (overflowing_add (width size) a b).1
  sum_lem byte h k = (mod-lt-width byte (a + b), ground arith)
  sum_lem half h k = (mod-lt-width half (a + b), ground arith)
  sum_lem word h k = (mod-lt-width word (a + b), ground arith)

  difference_lem :
      (size : Size)
      → a < 2 ^ width size
      → b < 2 ^ width size
      → Difference
          (width size)
          a
          b
          (overflowing_sub (width size) a b).0
          (overflowing_sub (width size) a b).1
  difference_lem byte h k = (mod-lt-width byte (a + 2 ^ 8 - b), ground arith)
  difference_lem half h k = (mod-lt-width half (a + 2 ^ 16 - b), ground arith)
  difference_lem word h k = (mod-lt-width word (a + 2 ^ 32 - b), ground arith)

  product_lem :
      (size : Size)
      → Product
          (width size)
          a
          b
          (overflowing_mul (width size) a b).0
          (overflowing_mul (width size) a b).1
  product_lem byte = (mod-lt-width byte (a * b), (a * b / 2 ^ 8, omega arith, ground arith))
  product_lem half = (mod-lt-width half (a * b), (a * b / 2 ^ 16, omega arith, ground arith))
  product_lem word = (mod-lt-width word (a * b), (a * b / 2 ^ 32, omega arith, ground arith))

module _ {D : Type 0} (checks : Bool) (s : Cpu D) (rd rs : ℕ) (at : HasRegisters s rd rs) where
  -- The result in the low part of the destination, and the flags that tell of it.
  abbrev pub with_result : Size → (result : ℕ) → (carry : Bool) → Cpu D
  with_result size v c = record s {
    register = update s.register rd (with_low size (s.register rd) v);
    flag = record (s.flag) { zero = v == 0; carry = c };
  }

  committed :
      (size : Size) (x : ℕ × Bool)
      → IsU32 (s.register rd)
      → x.0 < 2 ^ width size
      → write_zero_carry (write_register_as size rd) x checks s
        ≡ done (tt, with_result size x.0 x.1)
  committed size (v, c) h l =
      runs-bind (λ _. set_zero (v == 0) >> set_carry c) checks (write_register_as size rd v) s
        (write_register_as-runs checks s size rd v at.destination_general h l)

  calculated :
      (op : Size → (destination source : ℕ) → M D (ℕ × Bool)) (size : Size) (x : ℕ × Bool)
      → IsU32 (s.register rd)
      → x.0 < 2 ^ width size
      → op size (s.register rd % 2 ^ width size) (s.register rs) checks s ≡ done (x, s)
      → binary mixed op write_zero_carry size always register register checks s
        ≡ done (s.instruction_pointer + 4, with_result size x.0 x.1)
  calculated op size x h l e =
      binary-registers checks s rd rs at mixed op write_zero_carry size x e (committed size x h l)
        refl

  -- An unconditional instruction returns the address behind its four bytes and writes a result and a
  -- carry of which `Q` holds.
  abbrev pub Calculates : (size : Size) → M D ℕ → (ℕ → Bool → Type 0) → Type 0
  Calculates size m Q =
      (result : ℕ) × ((c : Bool) × (m checks s
          ≡ done (s.instruction_pointer + 4, with_result size result c))
        × Q result c)

  -- Of two registers below 32 that stand at the instruction pointer, with no overflow of it, `add`,
  -- `sub` and `mul` write the sum, the difference and the product of the low parts to the low part of
  -- the destination, whose other bits stay, and the carry says what did not fit. The zero flag tells a
  -- zero result, and nothing else changes. The destination holds a word.
  pub arithmetic-Calculates :
      (size : Size)
      → IsU32 (s.register rd)
      → let a : ℕ = s.register rd % 2 ^ width size in
        let b : ℕ = s.register rs % 2 ^ width size in
        Calculates size (execute_add size always register register) (Sum (width size) a b)
        × Calculates size (execute_sub size always register register) (Difference (width size) a b)
        × Calculates size (execute_mul size always register register) (Product (width size) a b)
  unfolding execute_add execute_sub execute_mul
  arithmetic-Calculates size h =
      let a : ℕ = s.register rd % 2 ^ width size in
      let b : ℕ = s.register rs % 2 ^ width size in
      let ha : a < 2 ^ width size = mod-lt-width size (s.register rd) in
      let hb : b < 2 ^ width size = mod-lt-width size (s.register rs) in
      (
        (
          _,
          (
            _,
            calculated add_op size (overflowing_add (width size) a b) h (sum_lem a b size ha hb).0
                refl,
            sum_lem a b size ha hb,
          ),
        ),
        (
          _,
          (
            _,
            calculated sub_op size (overflowing_sub (width size) a b) h
                (difference_lem a b size ha hb).0 refl,
            difference_lem a b size ha hb,
          ),
        ),
        (
          _,
          (
            _,
            calculated mul_op size (overflowing_mul (width size) a b) h (product_lem a b size).0
                refl,
            product_lem a b size,
          ),
        ),
      )
