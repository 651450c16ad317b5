-- ===== src/Cpu/Alu.antt =====
-- fox32/src/cpu.rs: the arms of `execute_instruction` that compute: arithmetic, logic, shifts,
-- rotations, single bits and the comparison.
use fox.Prelude.{ℕ, ◌-◌, ◌%◌, ◌^◌, bit_and, bit_or, bit_xor, Bool, false}
use fox.Word.{
  overflowing_add, overflowing_sub, overflowing_mul, div, rem, shift_amount, shl, shr, rotate_left,
  rotate_right, complement, has_bit,
}
use fox.Cpu.State.{M, pure, ◌>>=◌, lift, Condition}
use fox.Cpu.Decode.{Size, Operand}
use fox.Cpu.Operand.{width}
use fox.Cpu.Arm.{
  guarded, mixed, early, binary, unary, write_zero_carry, write_zero, write_only, zero_carry,
  zero_only,
}

abbrev pub Binary : Type 0 → Type 0
Binary D = Size → Condition → (destination source : Operand) → M D ℕ

abbrev pub Unary : Type 0 → Type 0
Unary D = Size → Condition → (source : Operand) → M D ℕ

module _ {D : Type 0} where
  -- The operations. A `source_value as u8` is a remainder by the width of the size.
  abbrev pub add_op : Size → ℕ → ℕ → M D (ℕ × Bool)
  add_op size d v = pure (overflowing_add (width size) d (v % 2 ^ width size))

  abbrev pub sub_op : Size → ℕ → ℕ → M D (ℕ × Bool)
  sub_op size d v = pure (overflowing_sub (width size) d (v % 2 ^ width size))

  abbrev pub mul_op : Size → ℕ → ℕ → M D (ℕ × Bool)
  mul_op size d v = pure (overflowing_mul (width size) d (v % 2 ^ width size))

  abbrev pub div_op : Size → ℕ → ℕ → M D (ℕ × Bool)
  div_op size d v = do q ← lift (div d (v % 2 ^ width size)); pure (q, false)

  abbrev pub rem_op : Size → ℕ → ℕ → M D (ℕ × Bool)
  rem_op size d v = do r ← lift (rem d (v % 2 ^ width size)); pure (r, false)

  abbrev pub and_op : Size → ℕ → ℕ → M D (ℕ × Bool)
  and_op size d v = pure (bit_and d (v % 2 ^ width size), false)

  abbrev pub or_op : Size → ℕ → ℕ → M D (ℕ × Bool)
  or_op size d v = pure (bit_or d (v % 2 ^ width size), false)

  abbrev pub xor_op : Size → ℕ → ℕ → M D (ℕ × Bool)
  xor_op size d v = pure (bit_xor d (v % 2 ^ width size), false)

  -- `!x as u8` complements 32 bits and keeps 8, which are the complement of the low 8.
  abbrev pub not_op : Size → ℕ → M D (ℕ × Bool)
  not_op size d = pure (complement (width size) d, false)

  abbrev pub inc_op : Size → ℕ → M D (ℕ × Bool)
  inc_op size d = pure (overflowing_add (width size) d 1)

  abbrev pub dec_op : Size → ℕ → M D (ℕ × Bool)
  dec_op size d = pure (overflowing_sub (width size) d 1)

  -- The amount of a shift, and `1 << source_value`.
  abbrev pub amount : Size → ℕ → M D ℕ
  amount size v checks = lift (shift_amount checks (width size) v) checks

  -- The carry is taken from a bit of the amount, the top one of the size or the lowest.
  abbrev pub sla_op : Size → ℕ → ℕ → M D (ℕ × Bool)
  sla_op size d v = do n ← amount size v; pure (shl (width size) d n, has_bit v (width size - 1))

  -- The amount is cast to `i32`, which sets the same bits; the value stays unsigned.
  abbrev pub sra_op : Size → ℕ → ℕ → M D (ℕ × Bool)
  sra_op size d v = do n ← amount size v; pure (shr d n, has_bit v 0)

  abbrev pub srl_op : Size → ℕ → ℕ → M D (ℕ × Bool)
  srl_op size d v = do n ← amount size v; pure (shr d n, has_bit v 0)

  abbrev pub rol_op : Size → ℕ → ℕ → M D (ℕ × Bool)
  rol_op size d v = pure (rotate_left (width size) d v, has_bit v (width size - 1))

  abbrev pub ror_op : Size → ℕ → ℕ → M D (ℕ × Bool)
  ror_op size d v = pure (rotate_right (width size) d v, has_bit v 0)

  abbrev pub bse_op : Size → ℕ → ℕ → M D (ℕ × Bool)
  bse_op size d v = do n ← amount size v; pure (bit_or d (2 ^ n), false)

  abbrev pub bcl_op : Size → ℕ → ℕ → M D (ℕ × Bool)
  bcl_op size d v = do n ← amount size v; pure (bit_and d (complement (width size) (2 ^ n)), false)

  abbrev pub bts_op : Size → ℕ → ℕ → M D (ℕ × Bool)
  bts_op size d v = do n ← amount size v; pure (bit_and d (2 ^ n), false)

  unfoldable pub execute_add : Binary D
  unfolding binary
  execute_add = binary mixed add_op write_zero_carry

  unfoldable pub execute_inc : Unary D
  unfolding unary
  execute_inc = unary guarded inc_op write_zero_carry

  unfoldable pub execute_sub : Binary D
  unfolding binary
  execute_sub = binary mixed sub_op write_zero_carry

  unfoldable pub execute_dec : Unary D
  unfolding unary
  execute_dec = unary guarded dec_op write_zero_carry

  unfoldable pub execute_mul : Binary D
  unfolding binary
  execute_mul = binary mixed mul_op write_zero_carry

  unfoldable pub execute_div : Binary D
  unfolding binary
  execute_div = binary mixed div_op write_zero

  unfoldable pub execute_rem : Binary D
  unfolding binary
  execute_rem = binary mixed rem_op write_zero

  unfoldable pub execute_and : Binary D
  unfolding binary
  execute_and = binary mixed and_op write_zero

  unfoldable pub execute_or : Binary D
  unfolding binary
  execute_or = binary mixed or_op write_zero

  unfoldable pub execute_xor : Binary D
  unfolding binary
  execute_xor = binary mixed xor_op write_zero

  unfoldable pub execute_not : Unary D
  unfolding unary
  execute_not = unary mixed not_op write_zero

  unfoldable pub execute_sla : Binary D
  unfolding binary
  execute_sla = binary mixed sla_op write_zero_carry

  unfoldable pub execute_sra : Binary D
  unfolding binary
  execute_sra = binary mixed sra_op write_zero_carry

  unfoldable pub execute_srl : Binary D
  unfolding binary
  execute_srl = binary mixed srl_op write_zero_carry

  unfoldable pub execute_rol : Binary D
  unfolding binary
  execute_rol = binary mixed rol_op write_zero_carry

  unfoldable pub execute_ror : Binary D
  unfolding binary
  execute_ror = binary mixed ror_op write_zero_carry

  unfoldable pub execute_bse : Binary D
  unfolding binary
  execute_bse = binary early bse_op write_only

  unfoldable pub execute_bcl : Binary D
  unfolding binary
  execute_bcl = binary early bcl_op write_only

  unfoldable pub execute_bts : Binary D
  unfolding binary
  execute_bts = binary early bts_op zero_only

  unfoldable pub execute_cmp : Binary D
  unfolding binary
  execute_cmp = binary mixed sub_op zero_carry
