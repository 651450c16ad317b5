-- ===== src/Cpu/Move.antt =====
-- fox32/src/cpu.rs: the arms of `execute_instruction` that move a value: between operands, on and
-- off the stack, and to and from the devices.
use fox.Prelude.{ℕ, ◌+◌, ◌%◌, ◌^◌, bit_and, Bool}
use fox.Outcome.{panic, done, immediate_destination, movz_destination}
use fox.Cpu.State.{
  M, Io, ◌>>=◌, ◌>>◌, panics, when, check_condition, relative_to_absolute, read_register,
  write_register, load, store, fetch, ip_plus, Condition,
}
use fox.Cpu.Decode.{Size, byte, half, word, Operand, register, register_ptr, immediate_ptr}
use fox.Cpu.Operand.{width, bytes, read_source, write_register_as, store_as}
use fox.Cpu.Stack.{push_stack, pop_stack}

-- `source_value & 0x000000FF` and the like.
abbrev pub masked : Size → ℕ → ℕ
masked byte v = bit_and v 0x000000FF
masked half v = bit_and v 0x0000FFFF
masked word v = v

module _ {D : Type 0} where
  unfoldable pub mov_to :
      Size → (value : ℕ) → (run : Bool) → (destination : Operand) → (offset : ℕ) → M D ℕ
  unfolding fetch read_register write_register_as store_as ip_plus
  mov_to size v run register offset = do
    r ← fetch 1 offset
    when run (write_register_as size r (masked size v))
    ip_plus (offset + 1)
  mov_to size v run register_ptr offset = do
    r ← fetch 1 offset
    pointer ← read_register r
    when run (store_as size pointer (v % 2 ^ width size))
    ip_plus (offset + 1)
  mov_to size v run (immediate_ptr _) offset = do
    pointer ← fetch 4 offset
    when run (store_as size pointer (v % 2 ^ width size))
    ip_plus (offset + 4)
  mov_to size v run _ offset = panics immediate_destination

  unfoldable pub execute_mov : Size → Condition → (destination source : Operand) → M D ℕ
  unfolding mov_to read_source check_condition fetch read_register write_register_as store_as
      ip_plus
  execute_mov size condition destination source = do
    (source_value, offset) ← read_source source
    should_run ← check_condition condition
    mov_to size source_value should_run destination offset

  -- The bits of the register above the size are cleared.
  unfoldable pub movz_to :
      Size → (value : ℕ) → (run : Bool) → (destination : Operand) → (offset : ℕ) → M D ℕ
  unfolding fetch write_register ip_plus
  movz_to size v run register offset = do
    r ← fetch 1 offset
    when run (write_register r (masked size v))
    ip_plus (offset + 1)
  movz_to size v run _ offset = panics movz_destination

  unfoldable pub execute_movz : Size → Condition → (destination source : Operand) → M D ℕ
  unfolding movz_to read_source check_condition fetch write_register ip_plus
  execute_movz size condition destination source = do
    (source_value, offset) ← read_source source
    should_run ← check_condition condition
    movz_to size source_value should_run destination offset

  -- The register of a pointer destination holds a relative address too.
  unfoldable pub rta_to :
      (value : ℕ) → (run : Bool) → (destination : Operand) → (offset : ℕ) → M D ℕ
  unfolding fetch read_register write_register store ip_plus relative_to_absolute
  rta_to v run register offset = do
    r ← fetch 1 offset
    when run (do a ← relative_to_absolute v; write_register r a)
    ip_plus (offset + 1)
  rta_to v run register_ptr offset = do
    r ← fetch 1 offset
    relative ← read_register r
    pointer ← relative_to_absolute relative
    when run (do a ← relative_to_absolute v; store 4 pointer a)
    ip_plus (offset + 1)
  rta_to v run (immediate_ptr _) offset = do
    relative ← fetch 4 offset
    pointer ← relative_to_absolute relative
    when run (do a ← relative_to_absolute v; store 4 pointer a)
    ip_plus (offset + 4)
  rta_to v run _ offset = panics immediate_destination

  unfoldable pub execute_rta : Condition → (destination source : Operand) → M D ℕ
  unfolding rta_to read_source check_condition fetch read_register write_register store ip_plus
      relative_to_absolute
  execute_rta condition destination source = do
    (source_value, offset) ← read_source source
    should_run ← check_condition condition
    rta_to source_value should_run destination offset

  unfoldable pub execute_push : Size → Condition → (source : Operand) → M D ℕ
  unfolding read_source check_condition push_stack ip_plus
  execute_push size condition source = do
    (source_value, offset) ← read_source source
    should_run ← check_condition condition
    when should_run (push_stack (bytes size) (source_value % 2 ^ width size))
    ip_plus offset

  unfoldable pub pop_to : Size → (run : Bool) → (destination : Operand) → M D ℕ
  unfolding pop_stack fetch read_register write_register_as store_as ip_plus
  pop_to size run register = do
    r ← fetch 1 2
    when run (do v ← pop_stack (bytes size); write_register_as size r v)
    ip_plus 3
  pop_to size run register_ptr = do
    r ← fetch 1 2
    pointer ← read_register r
    when run (do v ← pop_stack (bytes size); store_as size pointer v)
    ip_plus 3
  pop_to size run (immediate_ptr _) = do
    pointer ← fetch 4 2
    when run (do v ← pop_stack (bytes size); store_as size pointer v)
    ip_plus 6
  pop_to size run _ = panics immediate_destination

  unfoldable pub execute_pop : Size → Condition → (source : Operand) → M D ℕ
  unfolding pop_to check_condition pop_stack fetch read_register write_register_as store_as ip_plus
  execute_pop size condition source = do
    should_run ← check_condition condition
    pop_to size should_run source

  -- The device is read before `should_run` is looked at, and before a pointer is written through.
  module _ (io : Io D) where
    unfoldable pub device_read : (port : ℕ) → M D ℕ
    device_read port checks s = elim (io.read_io port s.bus.devices) [
      | panic p ↦ panic p
      | done (v, d) ↦ done (v, record s { bus = record (s.bus) { devices = d } })
    ]

    unfoldable pub device_write : (port word : ℕ) → M D (Unit {0})
    device_write port w checks s = elim (io.write_io port w s.bus) [
      | panic p ↦ panic p
      | done b ↦ done (tt, record s { bus = b })
    ]

    unfoldable pub in_to :
        (port : ℕ) → (run : Bool) → (destination : Operand) → (offset : ℕ) → M D ℕ
    unfolding device_read fetch read_register write_register store ip_plus
    in_to port run register offset = do
      r ← fetch 1 offset
      value ← device_read port
      when run (write_register r value)
      ip_plus (offset + 1)
    in_to port run register_ptr offset = do
      r ← fetch 1 offset
      pointer ← read_register r
      value ← device_read port
      when run (store 4 pointer value)
      ip_plus (offset + 1)
    in_to port run (immediate_ptr _) offset = do
      pointer ← fetch 4 offset
      value ← device_read port
      when run (store 4 pointer value)
      ip_plus (offset + 4)
    in_to port run _ offset = panics immediate_destination

    unfoldable pub execute_in : Condition → (destination source : Operand) → M D ℕ
    unfolding in_to device_read read_source check_condition fetch read_register write_register store
        ip_plus
    execute_in condition destination source = do
      (source_value, offset) ← read_source source
      should_run ← check_condition condition
      in_to source_value should_run destination offset

    -- The destination holds the port, a pointer destination in memory.
    unfoldable pub out_to :
        (value : ℕ) → (run : Bool) → (destination : Operand) → (offset : ℕ) → M D ℕ
    unfolding device_write fetch read_register load ip_plus
    out_to v run register offset = do
      r ← fetch 1 offset
      when run (do port ← read_register r; device_write port v)
      ip_plus (offset + 1)
    out_to v run register_ptr offset = do
      r ← fetch 1 offset
      pointer ← read_register r
      when run (do port ← load 4 pointer; device_write port v)
      ip_plus (offset + 1)
    out_to v run (immediate_ptr _) offset = do
      pointer ← fetch 4 offset
      when run (do port ← load 4 pointer; device_write port v)
      ip_plus (offset + 4)
    out_to v run _ offset = panics immediate_destination

    unfoldable pub execute_out : Condition → (destination source : Operand) → M D ℕ
    unfolding out_to device_write read_source check_condition fetch read_register load ip_plus
    execute_out condition destination source = do
      (source_value, offset) ← read_source source
      should_run ← check_condition condition
      out_to source_value should_run destination offset
