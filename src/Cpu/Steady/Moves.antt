-- ===== src/Cpu/Steady/Moves.antt =====
-- fox32/src/cpu.rs: the arms that move a value keep the invariant, and continue behind the
-- instruction.
use fox.Prelude.{ℕ, ◌+◌, ◌%◌, ◌^◌, ◌<◌, Bool, arith}
use fox.Word.{IsU32}
use fox.Word.Bits.{bit_and_mask}
use fox.Cpu.State.{
  Cpu, M, ◌>>=◌, ◌>>◌, check_condition, relative_to_absolute, read_register, fetch, ip_plus,
  Condition,
}
use fox.Cpu.Decode.{
  Size, byte, half, word, Operand, register, register_ptr, immediate8, immediate16, immediate32,
  immediate_ptr,
}
use fox.Cpu.Operand.{width, bytes, read_source}
use fox.Cpu.Stack.{pop_stack}
use fox.Cpu.Move.{
  masked, mov_to, execute_mov, movz_to, execute_movz, rta_to, execute_rta, execute_push, pop_to,
  execute_pop,
}
use fox.Cpu.Keeps.{Keeps, Keeps-bind, Keeps-when}
use fox.Cpu.Steady.{
  Steady, AnyUnit, AnyBool, fetch-Kept, ip_plus-Kept, read_register-Kept, write_register-Kept,
  relative_to_absolute-Kept, store-Kept, check_condition-Kept,
}
use fox.Cpu.Steady.Operands.{
  operand_length, IsSource, read_source-Kept, write_register_as-Kept, store_as-Kept,
  push_stack-Kept, pop_stack-Kept, lt-width, lt-width_word,
}
use fox.Cpu.Steady.Arms.{IsNext, binary_length}

masked-lt : (size : Size) (v : ℕ) → IsU32 v → masked size v < 2 ^ width size
masked-lt byte v h = omega (arith, bit_and_mask 8 v)
masked-lt half v h = omega (arith, bit_and_mask 16 v)
masked-lt word v h = h

module _ {D : Type 0} (I : D → Type 0) (start : ℕ) where
  abbrev S : Cpu D → Type 0
  S = Steady I start

  -- An arm on an operand at a register number, and at a pointer in the instruction.
  module _ (Q : ℕ → Type 0) (k : ℕ) where
    pub at_fetched-Kept :
        (count : ℕ) (f : ℕ → M D ℕ) → ((a : ℕ) → Keeps S Q (f a)) → Keeps S Q (fetch count k >>= f)
    at_fetched-Kept count f h =
        Keeps-bind S (λ a. a < 256 ^ count) Q (fetch count k) f (fetch-Kept I start count k)
          λ a _. h a

  -- What stands in front of the jump to the next instruction.
  pub then-IsNext-Kept :
      (offset : ℕ) (m : M D (Unit {0}))
      → Keeps S AnyUnit m
      → Keeps S (IsNext start offset) (m >> ip_plus offset)
  then-IsNext-Kept offset m h =
      Keeps-bind S AnyUnit (IsNext start offset) m (λ _. ip_plus offset) h
        λ _ _. ip_plus-Kept I start offset

  pub through-Kept :
      (Q : ℕ → Type 0) (r : ℕ) (f : ℕ → M D ℕ)
      → ((a : ℕ) → Keeps S Q (f a))
      → Keeps S Q (read_register r >>= f)
  through-Kept Q r f h =
      Keeps-bind S IsU32 Q (read_register r) f (read_register-Kept I start r) λ a _. h a

  mov_to-Kept :
      (size : Size) (v : ℕ) (run : Bool) (destination : Operand) (offset : ℕ)
      → IsU32 v
      → Keeps S
          (IsNext start (offset + operand_length destination))
          (mov_to size v run destination offset)
  unfolding mov_to
  mov_to-Kept size v run register offset h =
      at_fetched-Kept (IsNext start (offset + 1)) offset 1 _ λ r. then-IsNext-Kept (offset + 1) _ (
        Keeps-when S run _
          (write_register_as-Kept I start size r (masked size v) (masked-lt size v h)))
  mov_to-Kept size v run register_ptr offset h =
      at_fetched-Kept (IsNext start (offset + 1)) offset 1 _ λ r.
        through-Kept (IsNext start (offset + 1)) r _ λ p.
          then-IsNext-Kept (offset + 1) _
            (Keeps-when S run _ (store_as-Kept I start size p (v % 2 ^ width size)))
  mov_to-Kept size v run (immediate_ptr _) offset h =
      at_fetched-Kept (IsNext start (offset + 4)) offset 4 _ λ p.
        then-IsNext-Kept (offset + 4) _
          (Keeps-when S run _ (store_as-Kept I start size p (v % 2 ^ width size)))
  mov_to-Kept size v run immediate8 offset h = λ checks s k. tt
  mov_to-Kept size v run immediate16 offset h = λ checks s k. tt
  mov_to-Kept size v run immediate32 offset h = λ checks s k. tt

  -- An arm that reads its source and tests its condition first.
  pub sourced-Kept :
      (Q : ℕ → Type 0) (condition : Condition) (source : Operand) (f : ℕ → ℕ → Bool → M D ℕ)
      → ((v : ℕ) (run : Bool) → IsU32 v → Keeps S Q (f v (2 + operand_length source) run))
      → Keeps S Q
          (do (v, offset) ← read_source source; run ← check_condition condition; f v offset run)
  sourced-Kept Q condition source f h =
      Keeps-bind S (IsSource source) Q (read_source source)
        (λ x. check_condition condition >>= λ run. f x.0 x.1 run) (read_source-Kept I start source)
        λ (v, offset) (hv, e).
          Keeps-bind S AnyBool Q (check_condition condition) (λ run. f v offset run)
            (check_condition-Kept I start condition) λ run _. rw e (h v run hv)

  pub execute_mov-Kept :
      (size : Size) (c : Condition) (destination source : Operand)
      → Keeps S
          (IsNext start (binary_length destination source))
          (execute_mov size c destination source)
  unfolding execute_mov
  execute_mov-Kept size c destination source =
      sourced-Kept (IsNext start (binary_length destination source)) c source
        (λ v offset run. mov_to size v run destination offset)
        λ v run hv. mov_to-Kept size v run destination (2 + operand_length source) hv

  movz_to-Kept :
      (size : Size) (v : ℕ) (run : Bool) (destination : Operand) (offset : ℕ)
      → IsU32 v
      → Keeps S
          (IsNext start (offset + operand_length destination))
          (movz_to size v run destination offset)
  unfolding movz_to
  movz_to-Kept size v run register offset h =
      at_fetched-Kept (IsNext start (offset + 1)) offset 1 _ λ r. then-IsNext-Kept (offset + 1) _ (
        Keeps-when S run _ (
          write_register-Kept I start r (masked size v)
            (lt-width_word size (masked size v) (masked-lt size v h))))
  movz_to-Kept size v run register_ptr offset h = λ checks s k. tt
  movz_to-Kept size v run immediate8 offset h = λ checks s k. tt
  movz_to-Kept size v run immediate16 offset h = λ checks s k. tt
  movz_to-Kept size v run immediate32 offset h = λ checks s k. tt
  movz_to-Kept size v run (immediate_ptr _) offset h = λ checks s k. tt

  pub execute_movz-Kept :
      (size : Size) (c : Condition) (destination source : Operand)
      → Keeps S
          (IsNext start (binary_length destination source))
          (execute_movz size c destination source)
  unfolding execute_movz
  execute_movz-Kept size c destination source =
      sourced-Kept (IsNext start (binary_length destination source)) c source
        (λ v offset run. movz_to size v run destination offset)
        λ v run hv. movz_to-Kept size v run destination (2 + operand_length source) hv

  -- The relative addresses that `rta` makes absolute.
  resolved-Kept :
      {A : Type 0} (Q : A → Type 0) (v : ℕ) (f : ℕ → M D A)
      → ((a : ℕ) → IsU32 a → Keeps S Q (f a))
      → Keeps S Q (relative_to_absolute v >>= f)
  resolved-Kept Q v f h =
      Keeps-bind S IsU32 Q (relative_to_absolute v) f (relative_to_absolute-Kept I start v) h

  rta_to-Kept :
      (v : ℕ) (run : Bool) (destination : Operand) (offset : ℕ)
      → Keeps S
          (IsNext start (offset + operand_length destination))
          (rta_to v run destination offset)
  unfolding rta_to
  rta_to-Kept v run register offset = at_fetched-Kept (IsNext start (offset + 1)) offset 1 _ λ r.
      then-IsNext-Kept (offset + 1) _
        (Keeps-when S run _ (resolved-Kept AnyUnit v _ λ a ha. write_register-Kept I start r a ha))
  rta_to-Kept v run register_ptr offset =
      at_fetched-Kept (IsNext start (offset + 1)) offset 1 _ λ r.
        through-Kept (IsNext start (offset + 1)) r _ λ relative.
          resolved-Kept (IsNext start (offset + 1)) relative _ λ p _.
            then-IsNext-Kept (offset + 1) _
              (Keeps-when S run _ (resolved-Kept AnyUnit v _ λ a _. store-Kept I start 4 p a))
  rta_to-Kept v run (immediate_ptr _) offset =
      at_fetched-Kept (IsNext start (offset + 4)) offset 4 _ λ relative.
        resolved-Kept (IsNext start (offset + 4)) relative _ λ p _.
          then-IsNext-Kept (offset + 4) _
            (Keeps-when S run _ (resolved-Kept AnyUnit v _ λ a _. store-Kept I start 4 p a))
  rta_to-Kept v run immediate8 offset = λ checks s k. tt
  rta_to-Kept v run immediate16 offset = λ checks s k. tt
  rta_to-Kept v run immediate32 offset = λ checks s k. tt

  pub execute_rta-Kept :
      (c : Condition) (destination source : Operand)
      → Keeps S (IsNext start (binary_length destination source)) (execute_rta c destination source)
  unfolding execute_rta
  execute_rta-Kept c destination source =
      sourced-Kept (IsNext start (binary_length destination source)) c source
        (λ v offset run. rta_to v run destination offset)
        λ v run hv. rta_to-Kept v run destination (2 + operand_length source)

  pub execute_push-Kept :
      (size : Size) (c : Condition) (source : Operand)
      → Keeps S (IsNext start (2 + operand_length source)) (execute_push size c source)
  unfolding execute_push
  execute_push-Kept size c source =
      sourced-Kept (IsNext start (2 + operand_length source)) c source _ λ v run hv.
        then-IsNext-Kept (2 + operand_length source) _
          (Keeps-when S run _ (push_stack-Kept I start (bytes size) (v % 2 ^ width size)))

  -- A value taken off the stack.
  popped-Kept :
      (size : Size) (f : ℕ → M D (Unit {0}))
      → ((v : ℕ) → v < 2 ^ width size → Keeps S AnyUnit (f v))
      → Keeps S AnyUnit (pop_stack (bytes size) >>= f)
  popped-Kept size f h =
      Keeps-bind S (λ v. v < 256 ^ bytes size) AnyUnit (pop_stack (bytes size)) f
        (pop_stack-Kept I start (bytes size)) λ v l. h v (lt-width size v l)

  pop_to-Kept :
      (size : Size) (run : Bool) (destination : Operand)
      → Keeps S (IsNext start (2 + operand_length destination)) (pop_to size run destination)
  unfolding pop_to
  pop_to-Kept size run register = at_fetched-Kept (IsNext start 3) 2 1 _ λ r.
      then-IsNext-Kept 3 _
        (Keeps-when S run _ (popped-Kept size _ λ v l. write_register_as-Kept I start size r v l))
  pop_to-Kept size run register_ptr = at_fetched-Kept (IsNext start 3) 2 1 _ λ r.
      through-Kept (IsNext start 3) r _ λ p.
        then-IsNext-Kept 3 _
          (Keeps-when S run _ (popped-Kept size _ λ v _. store_as-Kept I start size p v))
  pop_to-Kept size run (immediate_ptr _) = at_fetched-Kept (IsNext start 6) 2 4 _ λ p.
      then-IsNext-Kept 6 _
        (Keeps-when S run _ (popped-Kept size _ λ v _. store_as-Kept I start size p v))
  pop_to-Kept size run immediate8 = λ checks s k. tt
  pop_to-Kept size run immediate16 = λ checks s k. tt
  pop_to-Kept size run immediate32 = λ checks s k. tt

  pub execute_pop-Kept :
      (size : Size) (c : Condition) (destination : Operand)
      → Keeps S (IsNext start (2 + operand_length destination)) (execute_pop size c destination)
  unfolding execute_pop
  execute_pop-Kept size c destination =
      Keeps-bind S AnyBool (IsNext start (2 + operand_length destination)) (check_condition c)
        (λ run. pop_to size run destination) (check_condition-Kept I start c)
        λ run _. pop_to-Kept size run destination
