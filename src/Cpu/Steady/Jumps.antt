-- ===== src/Cpu/Steady/Jumps.antt =====
-- fox32/src/cpu.rs: the arms that jump, and those without operands, keep the invariant. One that
-- does not jump continues behind the instruction.
use fox.Prelude.{ℕ, ◌+◌, ◌^◌, ◌<◌, Bool, true, false, ◌==◌, if◌then◌else◌, arith}
use fox.Word.{IsU32, overflowing_sub}
use fox.Cpu.State.{
  Cpu, M, pure, ◌>>=◌, ◌>>◌, when, set_halted, set_interrupt, set_flag, flag_from_u8,
  check_condition, relative_to_absolute, read_register, write_register, ip_plus, Condition,
}
use fox.Cpu.Decode.{Operand}
use fox.Cpu.Stack.{push_stack, pop_stack}
use fox.Cpu.Control.{
  execute_nop, execute_halt, execute_brk, execute_jmp, execute_call, execute_loop, execute_rjmp,
  execute_rcall, execute_rloop, execute_ret, execute_reti, execute_ise, execute_icl,
}
use fox.Cpu.Keeps.{Keeps, Keeps-bind, Keeps-when, Keeps-if, Keeps-pure, Keeps-weaken}
use fox.Cpu.Steady.{
  Steady, AnyUnit, AnyBool, ip_plus-Kept, read_register-Kept, write_register-Kept,
  relative_to_absolute-Kept, check_condition-Kept, set_halted-Kept, set_interrupt-Kept,
  set_flag-Kept,
}
use fox.Cpu.Steady.Operands.{operand_length, push_stack-Kept, pop_stack-Kept}
use fox.Cpu.Steady.Arms.{IsNext}
use fox.Cpu.Steady.Moves.{then-IsNext-Kept, sourced-Kept}

module _ {D : Type 0} (I : D → Type 0) (start : ℕ) where
  abbrev S : Cpu D → Type 0
  S = Steady I start

  tested-Kept :
      (Q : ℕ → Type 0) (c : Condition) (f : Bool → M D ℕ)
      → ((run : Bool) → Keeps S Q (f run))
      → Keeps S Q (check_condition c >>= f)
  tested-Kept Q c f h =
      Keeps-bind S AnyBool Q (check_condition c) f (check_condition-Kept I start c) λ run _. h run

  next_word-Kept : (offset : ℕ) → Keeps S IsU32 (ip_plus offset)
  next_word-Kept offset =
      Keeps-weaken S (IsNext start offset) IsU32 (ip_plus offset) (λ a e. omega arith)
        (ip_plus-Kept I start offset)

  pub execute_nop-Kept : Keeps S (IsNext start 2) execute_nop
  unfolding execute_nop
  execute_nop-Kept = ip_plus-Kept I start 2

  pub execute_halt-Kept : (c : Condition) → Keeps S (IsNext start 2) (execute_halt c)
  unfolding execute_halt
  execute_halt-Kept c =
      tested-Kept (IsNext start 2) c (λ run. when run (set_halted true) >> ip_plus 2)
        λ run.
          then-IsNext-Kept I start 2 (when run (set_halted true))
            (Keeps-when S run (set_halted true) (set_halted-Kept I start true))

  pub execute_brk-Kept : (c : Condition) → Keeps S (IsNext start 2) (execute_brk c)
  unfolding execute_brk
  execute_brk-Kept c = tested-Kept (IsNext start 2) c _ λ run. ip_plus-Kept I start 2

  switched-Kept :
      (c : Condition) (b : Bool)
      → Keeps S
          (IsNext start 2)
          (check_condition c >>= λ run. when run (set_interrupt b) >> ip_plus 2)
  switched-Kept c b =
      tested-Kept (IsNext start 2) c (λ run. when run (set_interrupt b) >> ip_plus 2)
        λ run.
          then-IsNext-Kept I start 2 (when run (set_interrupt b))
            (Keeps-when S run (set_interrupt b) (set_interrupt-Kept I start b))

  pub execute_ise-Kept : (c : Condition) → Keeps S (IsNext start 2) (execute_ise c)
  unfolding execute_ise
  execute_ise-Kept c = switched-Kept c true

  pub execute_icl-Kept : (c : Condition) → Keeps S (IsNext start 2) (execute_icl c)
  unfolding execute_icl
  execute_icl-Kept c = switched-Kept c false

  -- A jump that is taken or not.
  jump-Kept :
      (run : Bool) (offset : ℕ) (m : M D ℕ)
      → Keeps S IsU32 m
      → Keeps S IsU32 (if run then m else ip_plus offset)
  jump-Kept run offset m h = Keeps-if S IsU32 run m (ip_plus offset) h (next_word-Kept offset)

  pub execute_jmp-Kept : (c : Condition) (source : Operand) → Keeps S IsU32 (execute_jmp c source)
  unfolding execute_jmp
  execute_jmp-Kept c source =
      sourced-Kept I start IsU32 c source (λ v offset run. if run then pure v else ip_plus offset)
        λ v run hv. jump-Kept run (2 + operand_length source) (pure v) (Keeps-pure S IsU32 v hv)

  pub execute_rjmp-Kept : (c : Condition) (source : Operand) → Keeps S IsU32 (execute_rjmp c source)
  unfolding execute_rjmp
  execute_rjmp-Kept c source =
      sourced-Kept I start IsU32 c source
        (λ v offset run. if run then relative_to_absolute v else ip_plus offset)
        λ v run hv.
          jump-Kept run (2 + operand_length source) (relative_to_absolute v)
            (relative_to_absolute-Kept I start v)

  -- The return address goes on the stack, then the target is reached.
  linked-Kept :
      (offset : ℕ) (m : M D ℕ)
      → Keeps S IsU32 m
      → Keeps S IsU32 (do next ← ip_plus offset; push_stack 4 next; m)
  linked-Kept offset m h =
      Keeps-bind S (IsNext start offset) IsU32 (ip_plus offset) (λ next. push_stack 4 next >> m)
        (ip_plus-Kept I start offset)
        λ next _.
          Keeps-bind S AnyUnit IsU32 (push_stack 4 next) (λ _. m) (push_stack-Kept I start 4 next)
            λ _ _. h

  pub execute_call-Kept : (c : Condition) (source : Operand) → Keeps S IsU32 (execute_call c source)
  unfolding execute_call
  execute_call-Kept c source =
      sourced-Kept I start IsU32 c source
        (λ v offset run.
          if run then (do next ← ip_plus offset; push_stack 4 next; pure v) else ip_plus offset)
        λ v run hv.
          jump-Kept run (2 + operand_length source) _
            (linked-Kept (2 + operand_length source) (pure v) (Keeps-pure S IsU32 v hv))

  pub execute_rcall-Kept :
      (c : Condition) (source : Operand) → Keeps S IsU32 (execute_rcall c source)
  unfolding execute_rcall
  execute_rcall-Kept c source =
      sourced-Kept I start IsU32 c source
        (λ v offset run.
          if run
          then (do next ← ip_plus offset; push_stack 4 next; relative_to_absolute v)
          else ip_plus offset)
        λ v run hv. jump-Kept run (2 + operand_length source) _ (
          linked-Kept (2 + operand_length source) (relative_to_absolute v)
            (relative_to_absolute-Kept I start v))

  -- Register 31 counts down, then the loop is closed or left.
  abbrev countdown : (run : Bool) (offset : ℕ) → M D ℕ → M D ℕ
  countdown run offset m = do
    counter ← read_register 31
    let result = (overflowing_sub 32 counter 1).0
    write_register 31 result
    if run then (if result == 0 then ip_plus offset else m) else ip_plus offset

  countdown-Kept :
      (run : Bool) (offset : ℕ) (m : M D ℕ)
      → Keeps S IsU32 m
      → Keeps S IsU32 (countdown run offset m)
  countdown-Kept run offset m h =
      Keeps-bind S IsU32 IsU32 (read_register 31) _ (read_register-Kept I start 31) λ counter _.
        Keeps-bind S AnyUnit IsU32 (write_register 31 (overflowing_sub 32 counter 1).0) _
          (write_register-Kept I start 31 (overflowing_sub 32 counter 1).0 (omega arith))
          λ _ _. jump-Kept run offset _ (
            Keeps-if S IsU32 ((overflowing_sub 32 counter 1).0 == 0) (ip_plus offset) m
              (next_word-Kept offset) h)

  pub execute_loop-Kept : (c : Condition) (source : Operand) → Keeps S IsU32 (execute_loop c source)
  unfolding execute_loop
  execute_loop-Kept c source =
      sourced-Kept I start IsU32 c source (λ v offset run. countdown run offset (pure v))
        λ v run hv.
          countdown-Kept run (2 + operand_length source) (pure v) (Keeps-pure S IsU32 v hv)

  pub execute_rloop-Kept :
      (c : Condition) (source : Operand) → Keeps S IsU32 (execute_rloop c source)
  unfolding execute_rloop
  execute_rloop-Kept c source =
      sourced-Kept I start IsU32 c source
        (λ v offset run. countdown run offset (relative_to_absolute v))
        λ v run hv.
          countdown-Kept run (2 + operand_length source) (relative_to_absolute v)
            (relative_to_absolute-Kept I start v)

  popped_address-Kept : Keeps S IsU32 (pop_stack 4)
  popped_address-Kept = pop_stack-Kept I start 4

  pub execute_ret-Kept : (c : Condition) → Keeps S IsU32 (execute_ret c)
  unfolding execute_ret
  execute_ret-Kept c =
      tested-Kept IsU32 c (λ run. if run then pop_stack 4 else ip_plus 2)
        λ run. jump-Kept run 2 (pop_stack 4) popped_address-Kept

  pub execute_reti-Kept : (c : Condition) → Keeps S IsU32 (execute_reti c)
  unfolding execute_reti
  execute_reti-Kept c =
      tested-Kept IsU32 c
        (λ run.
          if run then (do f ← pop_stack 1; set_flag (flag_from_u8 f); pop_stack 4) else ip_plus 2)
        λ run.
          jump-Kept run 2 (do f ← pop_stack 1; set_flag (flag_from_u8 f); pop_stack 4)
            (Keeps-bind S (λ v. v < 256 ^ 1) IsU32 (pop_stack 1)
              (λ f. set_flag (flag_from_u8 f) >> pop_stack 4) (pop_stack-Kept I start 1)
              λ f _.
                Keeps-bind S AnyUnit IsU32 (set_flag (flag_from_u8 f)) (λ _. pop_stack 4)
                  (set_flag-Kept I start (flag_from_u8 f)) λ _ _. popped_address-Kept)
