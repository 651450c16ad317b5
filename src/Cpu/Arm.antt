-- ===== src/Cpu/Arm.antt =====
-- fox32/src/cpu.rs: the common shape of the arms of `execute_instruction` that compute on a
-- destination. They differ in the operation, in what they store and which flags they set, and in
-- whether the computation stands in front of `if should_run` or behind it.
use fox.Prelude.{ℕ, ◌+◌, Bool, true, false, ◌==◌}
use fox.Outcome.{immediate_destination}
use fox.Cpu.State.{
  M, ◌>>=◌, ◌>>◌, panics, when, set_zero, set_carry, check_condition, read_register, fetch, ip_plus,
  Condition,
}
use fox.Cpu.Decode.{Size, Operand, register, register_ptr, immediate_ptr}
use fox.Cpu.Operand.{read_source, read_register_as, write_register_as, load_as, store_as}

-- Where the operation is computed: `guarded` behind the test for both kinds of destination, `mixed`
-- behind it for a register and in front of it for memory, `early` in front of it for both.
pub data Timing : Type 0 where
  guarded mixed early : Timing

abbrev pub in_register : Timing → Bool
in_register guarded = false
in_register mixed = false
in_register early = true

abbrev pub in_memory : Timing → Bool
in_memory guarded = false
in_memory mixed = true
in_memory early = true

-- What an arm does with the result of its operation, and the carry where it has one.
abbrev pub Commit : Type 0 → Type 0
Commit D = (ℕ → M D (Unit {0})) → ℕ × Bool → M D (Unit {0})

module _ {D : Type 0} where
  abbrev pub write_zero_carry : Commit D
  write_zero_carry write (v, c) = do write v; set_zero (v == 0); set_carry c

  abbrev pub write_zero : Commit D
  write_zero write (v, c) = do write v; set_zero (v == 0)

  abbrev pub write_only : Commit D
  write_only write (v, c) = write v

  abbrev pub zero_carry : Commit D
  zero_carry write (v, c) = do set_zero (v == 0); set_carry c

  abbrev pub zero_only : Commit D
  zero_only write (v, c) = set_zero (v == 0)

  unfoldable pub apply_op :
      (first run : Bool)
      → M D ℕ
      → (ℕ → M D (Unit {0}))
      → (ℕ → M D (ℕ × Bool))
      → Commit D
      → M D (Unit {0})
  apply_op true run read write op commit = do d ← read; x ← op d; when run (commit write x)
  apply_op false run read write op commit = when run (do d ← read; x ← op d; commit write x)

  unfoldable pub on_destination :
      Timing
      → Size
      → (run : Bool) → (ℕ → M D (ℕ × Bool))
      → Commit D
      → (destination : Operand) → (offset : ℕ) → M D ℕ
  unfolding apply_op fetch read_register read_register_as write_register_as load_as store_as ip_plus
  on_destination t size run op commit register offset = do
    r ← fetch 1 offset
    apply_op (in_register t) run (read_register_as size r) (write_register_as size r) op commit
    ip_plus (offset + 1)
  on_destination t size run op commit register_ptr offset = do
    r ← fetch 1 offset
    pointer ← read_register r
    apply_op (in_memory t) run (load_as size pointer) (store_as size pointer) op commit
    ip_plus (offset + 1)
  on_destination t size run op commit (immediate_ptr _) offset = do
    pointer ← fetch 4 offset
    apply_op (in_memory t) run (load_as size pointer) (store_as size pointer) op commit
    ip_plus (offset + 4)
  on_destination t size run op commit _ offset = panics immediate_destination

  unfoldable pub binary :
      Timing
      → (Size → (destination source : ℕ) → M D (ℕ × Bool))
      → Commit D
      → Size
      → Condition
      → (destination source : Operand) → M D ℕ
  unfolding on_destination read_source check_condition
  binary t op commit size condition destination source = do
    (source_value, offset) ← read_source source
    should_run ← check_condition condition
    on_destination t size should_run (λ d. op size d source_value) commit destination offset

  unfoldable pub unary :
      Timing
      → (Size → ℕ → M D (ℕ × Bool))
      → Commit D
      → Size
      → Condition
      → (source : Operand) → M D ℕ
  unfolding on_destination check_condition
  unary t op commit size condition source = do
    should_run ← check_condition condition
    on_destination t size should_run (op size) commit source 2
