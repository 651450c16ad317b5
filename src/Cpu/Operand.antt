-- ===== src/Cpu/Operand.antt =====
-- fox32/src/cpu.rs: `read_source`, and a register or a memory cell at one of the three sizes.
use fox.Prelude.{ℕ, ◌%◌, ◌^◌, bit_and, bit_or}
use fox.Cpu.State.{M, pure, ◌>>=◌, load, store, fetch, read_register, write_register}
use fox.Cpu.Decode.{
  Size, byte, half, word, Operand, register, register_ptr, immediate8, immediate16, immediate32,
  immediate_ptr,
}

-- The bits and the bytes of a size.
abbrev pub width : Size → ℕ
width byte = 8
width half = 16
width word = 32

abbrev pub bytes : Size → ℕ
bytes byte = 1
bytes half = 2
bytes word = 4

module _ {D : Type 0} where
  -- The value, and how far the operand reaches into the instruction.
  unfoldable pub read_source : Operand → M D (ℕ × ℕ)
  unfolding load fetch read_register
  read_source register = do r ← fetch 1 2; value ← read_register r; pure (value, 3)
  read_source register_ptr = do
    r ← fetch 1 2
    pointer ← read_register r
    value ← load 4 pointer
    pure (value, 3)
  read_source immediate8 = do value ← fetch 1 2; pure (value, 3)
  read_source immediate16 = do value ← fetch 2 2; pure (value, 4)
  read_source immediate32 = do value ← fetch 4 2; pure (value, 6)
  read_source (immediate_ptr size) = do
    pointer ← fetch 4 2
    value ← load (bytes size) pointer
    pure (value, 6)

  -- `self.read_register(r) as u8` and the like.
  unfoldable pub read_register_as : Size → ℕ → M D ℕ
  unfolding read_register
  read_register_as size r = do v ← read_register r; pure (v % 2 ^ width size)

  -- `self.write_register(r, (self.read_register(r) & 0xFFFFFF00) | v)` and the like: the bits of
  -- the register above the size stay.
  unfoldable pub write_register_as : Size → ℕ → ℕ → M D (Unit {0})
  unfolding read_register write_register
  write_register_as byte r v = do
    old ← read_register r
    write_register r (bit_or (bit_and old 0xFFFFFF00) v)
  write_register_as half r v = do
    old ← read_register r
    write_register r (bit_or (bit_and old 0xFFFF0000) v)
  write_register_as word r v = write_register r v

  -- The reads and writes through a pointer, by the size.
  unfoldable pub load_as : Size → ℕ → M D ℕ
  unfolding load
  load_as size pointer = load (bytes size) pointer

  unfoldable pub store_as : Size → ℕ → ℕ → M D (Unit {0})
  unfolding store
  store_as size pointer v = store (bytes size) pointer v
