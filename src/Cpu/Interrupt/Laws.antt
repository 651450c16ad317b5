-- ===== src/Cpu/Interrupt/Laws.antt =====
-- fox32/src/cpu.rs: the flags survive their byte, and `reti` undoes an interrupt.
use fox.Prelude.{ℕ, ◌+◌, ◌*◌, ◌≤◌, ◌≡◌, ◌⊎◌, refl, ◌∙◌, Bool, true, false, arith}
use fox.Outcome.{Outcome, done, panic}
use fox.Word.{IsU32, IsU8}
use fox.Memory.{Memory, read, write}
use fox.Memory.Access.{read-write, read-write_apart}
use fox.Cpu.State.{
  Cpu, M, ◌>>=◌, ◌>>◌, lift, when, Flag, flag_to_u8, flag_from_u8, load, always, request,
  set_interrupt, set_ip, set_flag, check_condition, get_ip, get_flag,
}
use fox.Cpu.Runs.{bind-runs, runs-bind}
use fox.Cpu.Interrupt.{interrupt, dispatch, handle_interrupt}
use fox.Cpu.Control.{execute_reti}
use fox.Cpu.Stack.{push_stack, pop_stack}
use fox.Cpu.Stack.Laws.{pushed_sp, with_stack, pushed, pop_stack-at}

-- The byte of the flags gives the flags back.
pub flag_from_u8-flag_to_u8 : (f : Flag) → flag_from_u8 (flag_to_u8 f) ≡ f
unfolding flag_from_u8 flag_to_u8
flag_from_u8-flag_to_u8 f = on f.interrupt f.carry f.zero
  where
    on :
        (i c z : Bool)
        → flag_from_u8 (flag_to_u8 (record { interrupt = i; carry = c; zero = z }))
          ≡ record { interrupt = i; carry = c; zero = z }
    on true true true = refl
    on true true false = refl
    on true false true = refl
    on true false false = refl
    on false true true = refl
    on false true false = refl
    on false false true = refl
    on false false false = refl

flag_to_u8-IsU8 : (f : Flag) → IsU8 (flag_to_u8 f)
unfolding flag_to_u8
flag_to_u8-IsU8 f = on f.interrupt f.carry f.zero
  where
    on : (i c z : Bool) → IsU8 (flag_to_u8 (record { interrupt = i; carry = c; zero = z }))
    on true true true = omega arith
    on true true false = omega arith
    on true false true = omega arith
    on true false false = omega arith
    on false true true = omega arith
    on false true false = omega arith
    on false false true = omega arith
    on false false false = omega arith

-- The two parts of the frame do not meet, wherever the stack pointer wraps.
frame_apart :
    (sp : ℕ)
    → IsU32 sp
    → (pushed_sp 4 sp + 4 ≤ pushed_sp 1 (pushed_sp 4 sp))
      ⊎ (pushed_sp 1 (pushed_sp 4 sp) + 1 ≤ pushed_sp 4 sp)
frame_apart sp h = ground arith

module _ {D : Type 0} where
  -- The processor behind `handle_interrupt`.
  abbrev pub entered : Cpu D → (address sp : ℕ) → Memory → Cpu D
  entered s address sp m = record s {
    instruction_pointer = address;
    stack_pointer = sp;
    flag = record (s.flag) { interrupt = false };
    bus = record (s.bus) { memory = m };
  }

  loaded :
      (count address v : ℕ) (checks : Bool) (s s' : Cpu D)
      → load count address checks s ≡ done (v, s')
      → (read count s.bus.memory address ≡ done v) × (s' ≡ s)
  unfolding load
  loaded count address v checks s s' e = on (read count s.bus.memory address) refl e
    where
      on :
          (r : Outcome ℕ)
          → read count s.bus.memory address ≡ r
          → lift r checks s ≡ done (v, s')
          → (read count s.bus.memory address ≡ done v) × (s' ≡ s)
      on (done a) w e = (cc, cc)
      on (panic p) w e = absurd cc

  -- The steps of an interrupt that is delivered.
  pub record Entry (vector : ℕ) (s s' : Cpu D) : Type 0 where
    pub address : ℕ
    pub m₁ : Memory
    pub m₂ : Memory
    pub vector_read : read 4 s.bus.memory (vector * 4) ≡ done address
    pub ip_written :
        write 4 s.bus.memory (pushed_sp 4 s.stack_pointer) s.instruction_pointer ≡ done m₁
    pub flag_written :
        write 1 m₁ (pushed_sp 1 (pushed_sp 4 s.stack_pointer)) (flag_to_u8 s.flag) ≡ done m₂
    pub entered_at : s' ≡ entered s address (pushed_sp 1 (pushed_sp 4 s.stack_pointer)) m₂

  abbrev from_flag : ℕ → M D (Unit {0})
  from_flag address = do
    f ← get_flag
    push_stack 1 (flag_to_u8 f)
    set_interrupt false
    set_ip address

  abbrev from_ip : ℕ → M D (Unit {0})
  from_ip address = do ip ← get_ip; push_stack 4 ip; from_flag address

  returned :
      {s t : Cpu D} → ◌≡◌ {A = Outcome (Unit {0} × Cpu D)} (done (tt, s)) (done (tt, t)) → t ≡ s
  returned e = cc

  flag_pushed :
      (address : ℕ) (checks : Bool) (s s' : Cpu D)
      → from_flag address checks s ≡ done (tt, s')
      → (m : Memory) × (write 1 s.bus.memory (pushed_sp 1 s.stack_pointer) (flag_to_u8 s.flag)
          ≡ done m)
        × (s' ≡ entered s address (pushed_sp 1 s.stack_pointer) m)
  flag_pushed address checks s s' e =
      let (u, t, p, q) =
        bind-runs (λ _. set_interrupt false >> set_ip address) checks
          (push_stack 1 (flag_to_u8 s.flag)) s e in
      let (m, w, same) = pushed 1 (flag_to_u8 s.flag) checks s t p in
      (m, w, returned (rw same at q))

  pub entry :
      (vector : ℕ) (checks : Bool) (s s' : Cpu D)
      → handle_interrupt vector checks s ≡ done (tt, s')
      → Entry vector s s'
  unfolding handle_interrupt
  entry vector checks s s' e =
      let (address, s₀, e₀, f₀) = bind-runs from_ip checks (load 4 (vector * 4)) s e in
      let (vector_read, same₀) = loaded 4 (vector * 4) address checks s s₀ e₀ in
      let (u, s₁, e₁, f₁) =
        bind-runs (λ _. from_flag address) checks (push_stack 4 s.instruction_pointer) s
          (rw same₀ at f₀) in
      let (m₁, w₁, same₁) = pushed 4 s.instruction_pointer checks s s₁ e₁ in
      let (m₂, w₂, same₂) =
        flag_pushed address checks (with_stack s (pushed_sp 4 s.stack_pointer) m₁) s'
          (rw same₁ at f₁) in
      record {
        address = address;
        m₁ = m₁;
        m₂ = m₂;
        vector_read = vector_read;
        ip_written = w₁;
        flag_written = w₂;
        entered_at = same₂;
      }

  -- The address on the stack is found behind the byte of the flags.
  left :
      (checks : Bool) (s : Cpu D) (address : ℕ) {m₁ m₂ : Memory}
      → IsU32 s.instruction_pointer
      → IsU32 s.stack_pointer
      → write 4 s.bus.memory (pushed_sp 4 s.stack_pointer) s.instruction_pointer ≡ done m₁
      → write 1 m₁ (pushed_sp 1 (pushed_sp 4 s.stack_pointer)) (flag_to_u8 s.flag) ≡ done m₂
      → execute_reti always checks
          (entered s address (pushed_sp 1 (pushed_sp 4 s.stack_pointer)) m₂)
        ≡ done (
          s.instruction_pointer,
          record s { instruction_pointer = address; bus = record (s.bus) { memory = m₂ } },
        )
  unfolding execute_reti check_condition
  left checks s address {m₁} {m₂} hip hsp w₁ w₂ =
      let high : ℕ = pushed_sp 4 s.stack_pointer in
      let low : ℕ = pushed_sp 1 high in
      let byte : ℕ = flag_to_u8 s.flag in
      let inside : Cpu D = entered s address low m₂ in
      let r₁ : read 1 m₂ low ≡ done byte = read-write 1 m₁ low byte w₂ (flag_to_u8-IsU8 s.flag) in
      let r₂ : read 4 m₂ high ≡ done s.instruction_pointer =
        read-write_apart 4 1 m₁ low high byte w₂ (frame_apart s.stack_pointer hsp)
        ∙ read-write 4 s.bus.memory high s.instruction_pointer w₁ hip in
      runs-bind (λ f. set_flag (flag_from_u8 f) >> pop_stack 4) checks (pop_stack 1) inside
        (pop_stack-at 1 byte high checks inside r₁ (omega arith))
      ∙ rw (flag_from_u8-flag_to_u8 s.flag) (
          pop_stack-at 4 s.instruction_pointer s.stack_pointer checks
            (record inside { stack_pointer = high; flag = s.flag }) r₂ (omega arith))

  pub delivered :
      (b : Bool) (m : M D (Unit {0})) (checks : Bool) (s : Cpu D) {r : Outcome (Unit {0} × Cpu D)}
      → b ≡ true
      → when b m checks s ≡ r
      → m checks s ≡ r
  delivered true m checks s on e = e
  delivered false m checks s on e = absurd cc

  -- `reti` at the entry of an interrupt handler returns to the interrupted instruction with the flags
  -- and the stack pointer of before: only the bytes below the stack pointer and the instruction
  -- pointer, which the caller then sets, differ. The interrupt was delivered without a panic; the
  -- pointers are words.
  pub execute_reti-interrupt :
      (vector : ℕ) (checks : Bool) (s s' : Cpu D)
      → IsU32 s.instruction_pointer
      → IsU32 s.stack_pointer
      → s.flag.interrupt ≡ true
      → interrupt (request vector) checks s ≡ done (tt, s')
      → execute_reti always checks s'
        ≡ done (s.instruction_pointer, record s' { stack_pointer = s.stack_pointer; flag = s.flag })
  unfolding interrupt dispatch
  execute_reti-interrupt vector checks s s' hip hsp on e =
      let steps =
        entry vector checks s s'
          (delivered s.flag.interrupt (dispatch (request vector)) checks s on e) in
      rw steps.entered_at (left checks s steps.address hip hsp steps.ip_written steps.flag_written)
