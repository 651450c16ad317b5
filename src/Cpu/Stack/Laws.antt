-- ===== src/Cpu/Stack/Laws.antt =====
-- fox32/src/cpu.rs: what a push leaves behind, and that a pop takes it off again.
use fox.Prelude.{ℕ, ◌^◌, ◌≤◌, ◌<◌, ◌≡◌, refl, ap, ◌∙◌, Bool, arith}
use fox.Outcome.{Outcome, done, panic}
use fox.Word.{IsU32, overflowing_add, overflowing_sub}
use fox.Memory.{Memory, read, write}
use fox.Memory.Access.{read-write}
use fox.Cpu.State.{Cpu, pure, ◌>>=◌, ◌>>◌, lift, get_sp, set_sp, load, store}
use fox.Cpu.Stack.{push_stack, pop_stack}

-- The stack pointer behind a push.
abbrev pub pushed_sp : ℕ → ℕ → ℕ
pushed_sp count sp = (overflowing_sub 32 sp count).0

restored :
    (count sp : ℕ)
    → count ≤ 2 ^ 32
    → IsU32 sp
    → (overflowing_add 32 (pushed_sp count sp) count).0 ≡ sp
restored count sp hc hs = omega arith

module _ {D : Type 0} where
  abbrev pub with_stack : Cpu D → (sp : ℕ) → Memory → Cpu D
  with_stack s sp m = record s { stack_pointer = sp; bus = record (s.bus) { memory = m } }

  -- A push that returns has written the memory below the stack pointer, and nothing else.
  pub pushed :
      (count value : ℕ) (checks : Bool) (s s' : Cpu D)
      → push_stack count value checks s ≡ done (tt, s')
      → (m : Memory) × (write count s.bus.memory (pushed_sp count s.stack_pointer) value ≡ done m)
        × (s' ≡ with_stack s (pushed_sp count s.stack_pointer) m)
  unfolding push_stack store
  pushed count value checks s s' e =
      after (write count s.bus.memory (pushed_sp count s.stack_pointer) value) refl e
    where
      after :
          (r : Outcome Memory)
          → write count s.bus.memory (pushed_sp count s.stack_pointer) value ≡ r
          → ◌≡◌ {A = Outcome (Unit {0} × Cpu D)}
              (elim r [
                | panic p ↦ panic p
                | done m ↦ done (tt, with_stack s (pushed_sp count s.stack_pointer) m)
              ])
              (done (tt, s'))
          → (m : Memory) × (write count s.bus.memory (pushed_sp count s.stack_pointer) value
              ≡ done m)
            × (s' ≡ with_stack s (pushed_sp count s.stack_pointer) m)
      after (done m) w e = (m, w, cc)
      after (panic p) w e = absurd cc

  -- A pop of a value that the memory holds.
  pub pop_stack-at :
      (count value sp : ℕ) (checks : Bool) (s : Cpu D)
      → read count s.bus.memory s.stack_pointer ≡ done value
      → (overflowing_add 32 s.stack_pointer count).0 ≡ sp
      → pop_stack count checks s ≡ done (value, record s { stack_pointer = sp })
  unfolding pop_stack load
  pop_stack-at count value sp checks s e q =
      ap
        (λ (r : Outcome ℕ).
          (lift r >>= λ v. do sp ← get_sp; set_sp (overflowing_add 32 sp count).0; pure v) checks s)
        e
      ∙ ap at_sp q
    where
      at_sp : ℕ → Outcome (ℕ × Cpu D)
      at_sp t = done (value, record s { stack_pointer = t })

  -- What is pushed is popped, and the stack pointer is the one before the push, also when it wraps.
  -- The push returned, and the value fits the width.
  pub pop_stack-push_stack :
      (count value : ℕ) (checks : Bool) (s s' : Cpu D)
      → count ≤ 2 ^ 32
      → value < 256 ^ count
      → IsU32 s.stack_pointer
      → push_stack count value checks s ≡ done (tt, s')
      → pop_stack count checks s' ≡ done (value, record s' { stack_pointer = s.stack_pointer })
  pop_stack-push_stack count value checks s s' hc hv hs e =
      let (m, w, same) = pushed count value checks s s' e in
      rw same (
        pop_stack-at count value s.stack_pointer checks
          (with_stack s (pushed_sp count s.stack_pointer) m)
          (read-write count s.bus.memory (pushed_sp count s.stack_pointer) value w hv)
          (restored count s.stack_pointer hc hs))
