-- ===== src/Cpu/Stack.antt =====
-- fox32/src/cpu.rs: `push_stack_*` and `pop_stack_*`. The stack grows down; the stack pointer wraps,
-- and the flag of the wrap is not used.
pub mod Laws
use fox.Prelude.{ℕ}
use fox.Word.{overflowing_add, overflowing_sub}
use fox.Cpu.State.{M, pure, ◌>>=◌, ◌>>◌, load, store, get_sp, set_sp}

module _ {D : Type 0} where
  -- 1, 2 and 4 bytes are `push_stack_8`, `push_stack_16` and `push_stack_32`.
  unfoldable pub push_stack : (count value : ℕ) → M D (Unit {0})
  unfolding store
  push_stack count value = do
    sp ← get_sp
    set_sp (overflowing_sub 32 sp count).0
    sp' ← get_sp
    store count sp' value

  unfoldable pub pop_stack : (count : ℕ) → M D ℕ
  unfolding load
  pop_stack count = do
    sp ← get_sp
    value ← load count sp
    sp' ← get_sp
    set_sp (overflowing_add 32 sp' count).0
    pure value
