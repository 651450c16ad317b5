-- ===== src/Cpu/Steady/Compute.antt =====
-- fox32/src/cpu.rs: the operations of the arms that compute give numbers of their size.
use native.Mathlib.Nat.{div-le_self, mod-le, mod-lt}
use fox.Prelude.{ℕ, ◌*◌, ◌%◌, ◌^◌, ◌<◌, Bool, false, ◌==◌, ltb, arith}
use fox.Outcome.{Ensures, Ensures-if}
use fox.Word.{div, rem, shift_amount, complement}
use fox.Word.Rotate.{shr-lt, power-lt, rotate_left-lt, rotate_right-lt}
use fox.Word.Bits.{bit_and-lt, bit_or-lt, bit_xor-lt}
use fox.Cpu.State.{pure, ◌>>=◌, lift}
use fox.Cpu.Decode.{Size, byte, half, word}
use fox.Cpu.Operand.{width}
use fox.Cpu.Alu.{
  add_op, sub_op, mul_op, div_op, rem_op, and_op, or_op, xor_op, not_op, inc_op, dec_op, amount,
  sla_op, sra_op, srl_op, rol_op, ror_op, bse_op, bcl_op, bts_op,
}
use fox.Cpu.Keeps.{Keeps, Keeps-bind, Keeps-pure, Keeps-lift}
use fox.Cpu.Steady.{Steady}
use fox.Cpu.Steady.Operands.{mod-lt-width}
use fox.Cpu.Steady.Arms.{Fits, KeepsOp}

width_pos : (size : Size) → 0 < width size
width_pos byte = omega arith
width_pos half = omega arith
width_pos word = omega arith

complement-lt : (size : Size) (d : ℕ) → complement (width size) d < 2 ^ width size
complement-lt byte d = omega arith
complement-lt half d = omega arith
complement-lt word d = omega arith

-- A shift amount that is used is below the width.
shift_amount-lt :
    (checks : Bool) (size : Size) (v : ℕ)
    → Ensures (λ n. n < width size) (shift_amount checks (width size) v)
shift_amount-lt checks size v =
    Ensures-if _ (ltb v (width size)) _ _ (λ l. ground arith)
      λ _. Ensures-if _ checks _ _ (λ _. tt) (λ _. mod-lt v (width_pos size))

-- The same operation with a result that fits.
module _ {D : Type 0} (I : D → Type 0) (start : ℕ) where
  pub pure-Kept :
      (size : Size) (v : ℕ) (c : Bool)
      → v < 2 ^ width size
      → Keeps {D = D} (Steady I start) (Fits size) (pure (v, c))
  pure-Kept size v c h = Keeps-pure (Steady I start) (Fits size) (v, c) h

  pub add_op-Kept : (size : Size) (v : ℕ) → KeepsOp I start size (λ d. add_op size d v)
  add_op-Kept size v d h checks s k = (mod-lt-width size _, k)

  pub sub_op-Kept : (size : Size) (v : ℕ) → KeepsOp I start size (λ d. sub_op size d v)
  sub_op-Kept size v d h checks s k = (mod-lt-width size _, k)

  pub mul_op-Kept : (size : Size) (v : ℕ) → KeepsOp I start size (λ d. mul_op size d v)
  mul_op-Kept size v d h checks s k = (mod-lt-width size _, k)

  pub inc_op-Kept : (size : Size) → KeepsOp I start size (inc_op size)
  inc_op-Kept size d h checks s k = (mod-lt-width size _, k)

  pub dec_op-Kept : (size : Size) → KeepsOp I start size (dec_op size)
  dec_op-Kept size d h checks s k = (mod-lt-width size _, k)

  pub div_op-Kept : (size : Size) (v : ℕ) → KeepsOp I start size (λ d. div_op size d v)
  div_op-Kept size v d h =
      Keeps-bind (Steady I start) (λ q. q < 2 ^ width size) (Fits size)
        (lift (div d (v % 2 ^ width size))) (λ q. pure (q, false))
        (Keeps-lift (Steady I start) (λ q. q < 2 ^ width size) (div d (v % 2 ^ width size))
          (Ensures-if _ (v % 2 ^ width size == 0) _ _ (λ _. tt)
            λ _. omega (arith, div-le_self d (v % 2 ^ width size))))
        λ q l. pure-Kept size q false l

  pub rem_op-Kept : (size : Size) (v : ℕ) → KeepsOp I start size (λ d. rem_op size d v)
  rem_op-Kept size v d h =
      Keeps-bind (Steady I start) (λ q. q < 2 ^ width size) (Fits size)
        (lift (rem d (v % 2 ^ width size))) (λ q. pure (q, false))
        (Keeps-lift (Steady I start) (λ q. q < 2 ^ width size) (rem d (v % 2 ^ width size))
          (Ensures-if _ (v % 2 ^ width size == 0) _ _ (λ _. tt)
            λ _. omega (arith, mod-le d (v % 2 ^ width size))))
        λ q l. pure-Kept size q false l

  pub and_op-Kept : (size : Size) (v : ℕ) → KeepsOp I start size (λ d. and_op size d v)
  and_op-Kept size v d h =
      pure-Kept size _ false (bit_and-lt (width size) d _ h (mod-lt-width size v))

  pub or_op-Kept : (size : Size) (v : ℕ) → KeepsOp I start size (λ d. or_op size d v)
  or_op-Kept size v d h =
      pure-Kept size _ false (bit_or-lt (width size) d _ h (mod-lt-width size v))

  pub xor_op-Kept : (size : Size) (v : ℕ) → KeepsOp I start size (λ d. xor_op size d v)
  xor_op-Kept size v d h =
      pure-Kept size _ false (bit_xor-lt (width size) d _ h (mod-lt-width size v))

  pub not_op-Kept : (size : Size) → KeepsOp I start size (not_op size)
  not_op-Kept size d h = pure-Kept size _ false (complement-lt size d)

  pub rol_op-Kept : (size : Size) (v : ℕ) → KeepsOp I start size (λ d. rol_op size d v)
  rol_op-Kept size v d h checks s k = (rotate_left-lt (width size) d v (width_pos size) h, k)

  pub ror_op-Kept : (size : Size) (v : ℕ) → KeepsOp I start size (λ d. ror_op size d v)
  ror_op-Kept size v d h checks s k = (rotate_right-lt (width size) d v (width_pos size) h, k)

  amount-Kept :
      (size : Size) (v : ℕ) → Keeps {D = D} (Steady I start) (λ n. n < width size) (amount size v)
  amount-Kept size v checks =
      Keeps-lift (Steady I start) (λ n. n < width size) (shift_amount checks (width size) v)
        (shift_amount-lt checks size v) checks

  -- An operation that computes from the amount.
  shifting-Kept :
      (size : Size) (v : ℕ) (f : ℕ → ℕ) (c : Bool)
      → ((n : ℕ) → n < width size → f n < 2 ^ width size)
      → Keeps {D = D} (Steady I start) (Fits size) (do n ← amount size v; pure (f n, c))
  shifting-Kept size v f c h =
      Keeps-bind (Steady I start) (λ n. n < width size) (Fits size) (amount size v)
        (λ n. pure (f n, c)) (amount-Kept size v) λ n l. pure-Kept size (f n) c (h n l)

  pub sla_op-Kept : (size : Size) (v : ℕ) → KeepsOp I start size (λ d. sla_op size d v)
  sla_op-Kept size v d h = shifting-Kept size v _ _ λ n l. mod-lt-width size (d * 2 ^ n)

  pub sra_op-Kept : (size : Size) (v : ℕ) → KeepsOp I start size (λ d. sra_op size d v)
  sra_op-Kept size v d h = shifting-Kept size v _ _ λ n l. shr-lt (width size) d n h

  pub srl_op-Kept : (size : Size) (v : ℕ) → KeepsOp I start size (λ d. srl_op size d v)
  srl_op-Kept size v d h = shifting-Kept size v _ _ λ n l. shr-lt (width size) d n h

  pub bse_op-Kept : (size : Size) (v : ℕ) → KeepsOp I start size (λ d. bse_op size d v)
  bse_op-Kept size v d h =
      shifting-Kept size v _ false
        λ n l. bit_or-lt (width size) d (2 ^ n) h (power-lt (width size) n l)

  pub bcl_op-Kept : (size : Size) (v : ℕ) → KeepsOp I start size (λ d. bcl_op size d v)
  bcl_op-Kept size v d h =
      shifting-Kept size v _ false λ n l. bit_and-lt (width size) d _ h (complement-lt size (2 ^ n))

  pub bts_op-Kept : (size : Size) (v : ℕ) → KeepsOp I start size (λ d. bts_op size d v)
  bts_op-Kept size v d h =
      shifting-Kept size v _ false
        λ n l. bit_and-lt (width size) d (2 ^ n) h (power-lt (width size) n l)
