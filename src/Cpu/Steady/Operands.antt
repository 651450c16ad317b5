-- ===== src/Cpu/Steady/Operands.antt =====
-- fox32/src/cpu.rs: operands and the stack keep the invariant, and give numbers of their width.
use fox.Prelude.{ℕ, ◌+◌, ◌%◌, ◌^◌, ◌<◌, ◌≡◌, refl, arith}
use fox.Word.{IsU32, overflowing_add, overflowing_sub}
use fox.Word.Bits.{bit_and-lt, bit_or-lt}
use fox.Cpu.State.{Cpu, pure, ◌>>=◌, ◌>>◌, load, get_sp, set_sp}
use fox.Cpu.Decode.{
  Size, byte, half, word, Operand, register, register_ptr, immediate8, immediate16, immediate32,
  immediate_ptr,
}
use fox.Cpu.Operand.{
  width, bytes, read_source, read_register_as, write_register_as, load_as, store_as,
}
use fox.Cpu.Stack.{push_stack, pop_stack}
use fox.Cpu.Keeps.{Keeps, Keeps-bind, Keeps-pure, Keeps-weaken}
use fox.Cpu.Steady.{
  Steady, AnyUnit, load-Kept, store-Kept, fetch-Kept, read_register-Kept, write_register-Kept,
  set_sp-Kept,
}

-- The bytes that an operand takes in the instruction.
abbrev pub operand_length : Operand → ℕ
operand_length register = 1
operand_length register_ptr = 1
operand_length immediate8 = 1
operand_length immediate16 = 2
operand_length immediate32 = 4
operand_length (immediate_ptr size) = 4

-- What `read_source` returns: a word, and the offset behind the operand.
abbrev pub IsSource : Operand → ℕ × ℕ → Type 0
IsSource o (v, offset) = IsU32 v × (offset ≡ 2 + operand_length o)

pub lt-width : (size : Size) (v : ℕ) → v < 256 ^ bytes size → v < 2 ^ width size
lt-width byte v h = h
lt-width half v h = h
lt-width word v h = h

pub lt-width_word : (size : Size) (v : ℕ) → v < 2 ^ width size → IsU32 v
lt-width_word byte v h = omega arith
lt-width_word half v h = omega arith
lt-width_word word v h = h

pub mod-lt-width : (size : Size) (v : ℕ) → v % 2 ^ width size < 2 ^ width size
mod-lt-width byte v = omega arith
mod-lt-width half v = omega arith
mod-lt-width word v = omega arith

module _ {D : Type 0} (I : D → Type 0) (start : ℕ) where
  abbrev S : Cpu D → Type 0
  S = Steady I start

  pub read_source-Kept : (o : Operand) → Keeps (Steady I start) (IsSource o) (read_source o)
  unfolding read_source
  read_source-Kept register =
      Keeps-bind S (λ r. r < 256 ^ 1) _ _ _ (fetch-Kept I start 1 2)
        λ r _.
          Keeps-bind S IsU32 _ _ _ (read_register-Kept I start r)
            λ v hv. Keeps-pure S (IsSource register) (v, 3) (hv, refl)
  read_source-Kept register_ptr =
      Keeps-bind S (λ r. r < 256 ^ 1) _ _ _ (fetch-Kept I start 1 2)
        λ r _. Keeps-bind S IsU32 _ _ _ (read_register-Kept I start r) λ p _.
          Keeps-bind S IsU32 _ _ _ (load-Kept I start 4 p)
            λ v hv. Keeps-pure S (IsSource register_ptr) (v, 3) (hv, refl)
  read_source-Kept immediate8 =
      Keeps-bind S (λ r. r < 256 ^ 1) _ _ _ (fetch-Kept I start 1 2)
        λ v hv. Keeps-pure S (IsSource immediate8) (v, 3) (omega arith, refl)
  read_source-Kept immediate16 =
      Keeps-bind S (λ r. r < 256 ^ 2) _ _ _ (fetch-Kept I start 2 2)
        λ v hv. Keeps-pure S (IsSource immediate16) (v, 4) (omega arith, refl)
  read_source-Kept immediate32 =
      Keeps-bind S (λ r. r < 256 ^ 4) _ _ _ (fetch-Kept I start 4 2)
        λ v hv. Keeps-pure S (IsSource immediate32) (v, 6) (hv, refl)
  read_source-Kept (immediate_ptr size) =
      Keeps-bind S (λ r. r < 256 ^ 4) _ _ _ (fetch-Kept I start 4 2)
        λ p _.
          Keeps-bind S (λ v. v < 256 ^ bytes size) _ _ _ (load-Kept I start (bytes size) p)
            λ v hv.
              Keeps-pure S (IsSource (immediate_ptr size)) (v, 6)
                (lt-width_word size v (lt-width size v hv), refl)

  pub read_register_as-Kept :
      (size : Size) (r : ℕ) → Keeps S (λ v. v < 2 ^ width size) (read_register_as size r)
  unfolding read_register_as
  read_register_as-Kept size r =
      Keeps-bind S IsU32 _ _ _ (read_register-Kept I start r)
        λ v _. Keeps-pure S (λ v. v < 2 ^ width size) (v % 2 ^ width size) (mod-lt-width size v)

  pub write_register_as-Kept :
      (size : Size) (r v : ℕ) → v < 2 ^ width size → Keeps S AnyUnit (write_register_as size r v)
  unfolding write_register_as
  write_register_as-Kept byte r v hv =
      Keeps-bind S IsU32 _ _ _ (read_register-Kept I start r) λ old ho.
        write_register-Kept I start r _
          (bit_or-lt 32 _ _ (bit_and-lt 32 old 0xFFFFFF00 ho (omega arith)) (omega arith))
  write_register_as-Kept half r v hv =
      Keeps-bind S IsU32 _ _ _ (read_register-Kept I start r) λ old ho.
        write_register-Kept I start r _
          (bit_or-lt 32 _ _ (bit_and-lt 32 old 0xFFFF0000 ho (omega arith)) (omega arith))
  write_register_as-Kept word r v hv = write_register-Kept I start r v hv

  pub load_as-Kept : (size : Size) (p : ℕ) → Keeps S (λ v. v < 2 ^ width size) (load_as size p)
  unfolding load_as
  load_as-Kept size p =
      Keeps-weaken S (λ v. v < 256 ^ bytes size) _ _ (λ v h. lt-width size v h)
        (load-Kept I start (bytes size) p)

  pub store_as-Kept : (size : Size) (p v : ℕ) → Keeps S AnyUnit (store_as size p v)
  unfolding store_as
  store_as-Kept size p v = store-Kept I start (bytes size) p v

  pub push_stack-Kept : (count v : ℕ) → Keeps S AnyUnit (push_stack count v)
  unfolding push_stack
  push_stack-Kept count v checks s h =
      let sp : ℕ = (overflowing_sub 32 s.stack_pointer count).0 in
      store-Kept I start count sp v checks (record s { stack_pointer = sp })
        (set_sp-Kept I start sp (omega arith) checks s h).1

  pub pop_stack-Kept : (count : ℕ) → Keeps S (λ v. v < 256 ^ count) (pop_stack count)
  unfolding pop_stack
  pop_stack-Kept count checks s h =
      Keeps-bind S (λ v. v < 256 ^ count) (λ v. v < 256 ^ count) (load count s.stack_pointer)
        (λ v. do sp ← get_sp; set_sp (overflowing_add 32 sp count).0; pure v)
        (load-Kept I start count s.stack_pointer)
        (λ v hv checks' s' h'. (
          hv,
          (set_sp-Kept I start (overflowing_add 32 s'.stack_pointer count).0 (omega arith) checks'
              s' h').1,
        ))
        checks s h
