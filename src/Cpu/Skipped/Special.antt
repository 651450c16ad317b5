-- ===== src/Cpu/Skipped/Special.antt =====
-- fox32/src/cpu.rs: the length and the condition of each instruction, and the arms that do something
-- before their condition is looked at.
use fox.Prelude.{
  ℕ, ◌+◌, ◌-◌, ◌%◌, ◌^◌, ◌≡◌, refl, sym, ◌∙◌, ap, Bool, false, ◌==◌, if◌then◌else◌, update,
}
use fox.Outcome.{Outcome, done, panic, Ensures, Ensures-trivial}
use fox.Word.{overflowing_sub}
use fox.Cpu.State.{
  Cpu, M, Io, pure, ◌>>=◌, ◌>>◌, lift, read_register, write_register, ip_plus, Condition, always,
  check_condition,
}
use fox.Cpu.Decode.{
  Size, Operand, register, register_ptr, immediate8, immediate16, immediate32, immediate_ptr,
  Instruction,
}
use fox.Cpu.Alu.{amount}
use fox.Cpu.Operand.{read_source}
use fox.Cpu.Move.{device_read, in_to, execute_in}
use fox.Cpu.Keeps.{Keeps, Keeps-bind, Keeps-lift, Keeps-pure}
use fox.Cpu.Steady.Operands.{operand_length}
use fox.Cpu.Steady.Arms.{IsNext, binary_length}
use fox.Cpu.Skipped.{holds, Any, Same, Leads, ip_plus-Same, read_source-Same}
use fox.Cpu.Skipped.Arms.{Falls, AnyPair, fetched, through, tested}

-- The condition of an instruction; `nop` has none.
abbrev pub condition_of : Instruction → Condition
condition_of Instruction.nop = always
condition_of (Instruction.halt c) = c
condition_of (Instruction.brk c) = c
condition_of (Instruction.add _ c _ _) = c
condition_of (Instruction.inc _ c _) = c
condition_of (Instruction.sub _ c _ _) = c
condition_of (Instruction.dec _ c _) = c
condition_of (Instruction.mul _ c _ _) = c
condition_of (Instruction.div _ c _ _) = c
condition_of (Instruction.rem _ c _ _) = c
condition_of (Instruction.and _ c _ _) = c
condition_of (Instruction.or _ c _ _) = c
condition_of (Instruction.xor _ c _ _) = c
condition_of (Instruction.not _ c _) = c
condition_of (Instruction.sla _ c _ _) = c
condition_of (Instruction.rol _ c _ _) = c
condition_of (Instruction.sra _ c _ _) = c
condition_of (Instruction.srl _ c _ _) = c
condition_of (Instruction.ror _ c _ _) = c
condition_of (Instruction.bse _ c _ _) = c
condition_of (Instruction.bcl _ c _ _) = c
condition_of (Instruction.bts _ c _ _) = c
condition_of (Instruction.cmp _ c _ _) = c
condition_of (Instruction.mov _ c _ _) = c
condition_of (Instruction.movz _ c _ _) = c
condition_of (Instruction.jmp c _) = c
condition_of (Instruction.call c _) = c
condition_of (Instruction.loop c _) = c
condition_of (Instruction.rjmp c _) = c
condition_of (Instruction.rcall c _) = c
condition_of (Instruction.rloop c _) = c
condition_of (Instruction.rta c _ _) = c
condition_of (Instruction.push _ c _) = c
condition_of (Instruction.pop _ c _) = c
condition_of (Instruction.ret c) = c
condition_of (Instruction.reti c) = c
condition_of (Instruction.«in» c _ _) = c
condition_of (Instruction.out c _ _) = c
condition_of (Instruction.ise c) = c
condition_of (Instruction.icl c) = c

-- The bytes of an instruction.
abbrev pub instruction_length : Instruction → ℕ
instruction_length Instruction.nop = 2
instruction_length (Instruction.halt _) = 2
instruction_length (Instruction.brk _) = 2
instruction_length (Instruction.add _ _ d s) = binary_length d s
instruction_length (Instruction.inc _ _ s) = 2 + operand_length s
instruction_length (Instruction.sub _ _ d s) = binary_length d s
instruction_length (Instruction.dec _ _ s) = 2 + operand_length s
instruction_length (Instruction.mul _ _ d s) = binary_length d s
instruction_length (Instruction.div _ _ d s) = binary_length d s
instruction_length (Instruction.rem _ _ d s) = binary_length d s
instruction_length (Instruction.and _ _ d s) = binary_length d s
instruction_length (Instruction.or _ _ d s) = binary_length d s
instruction_length (Instruction.xor _ _ d s) = binary_length d s
instruction_length (Instruction.not _ _ s) = 2 + operand_length s
instruction_length (Instruction.sla _ _ d s) = binary_length d s
instruction_length (Instruction.rol _ _ d s) = binary_length d s
instruction_length (Instruction.sra _ _ d s) = binary_length d s
instruction_length (Instruction.srl _ _ d s) = binary_length d s
instruction_length (Instruction.ror _ _ d s) = binary_length d s
instruction_length (Instruction.bse _ _ d s) = binary_length d s
instruction_length (Instruction.bcl _ _ d s) = binary_length d s
instruction_length (Instruction.bts _ _ d s) = binary_length d s
instruction_length (Instruction.cmp _ _ d s) = binary_length d s
instruction_length (Instruction.mov _ _ d s) = binary_length d s
instruction_length (Instruction.movz _ _ d s) = binary_length d s
instruction_length (Instruction.jmp _ s) = 2 + operand_length s
instruction_length (Instruction.call _ s) = 2 + operand_length s
instruction_length (Instruction.loop _ s) = 2 + operand_length s
instruction_length (Instruction.rjmp _ s) = 2 + operand_length s
instruction_length (Instruction.rcall _ s) = 2 + operand_length s
instruction_length (Instruction.rloop _ s) = 2 + operand_length s
instruction_length (Instruction.rta _ d s) = binary_length d s
instruction_length (Instruction.push _ _ s) = 2 + operand_length s
instruction_length (Instruction.pop _ _ s) = 2 + operand_length s
instruction_length (Instruction.ret _) = 2
instruction_length (Instruction.reti _) = 2
instruction_length (Instruction.«in» _ d s) = binary_length d s
instruction_length (Instruction.out _ d s) = binary_length d s
instruction_length (Instruction.ise _) = 2
instruction_length (Instruction.icl _) = 2

module _ {D : Type 0} (start : Cpu D) where
  -- Register 31 is counted down, and nothing else has changed.
  abbrev pub Counted : ℕ → ℕ × Cpu D → Type 0
  Counted length r =
      IsNext start.instruction_pointer length r.0
      × (r.1 ≡ record start {
        register = update start.register 31 ((start.register 31 + 2 ^ 32 - 1) % 2 ^ 32);
      })

  -- The devices are as the read of the port leaves them, and nothing else has changed.
  abbrev pub Polled : Io D → (port : ℕ) → ℕ → ℕ × Cpu D → Type 0
  Polled io port length r =
      IsNext start.instruction_pointer length r.0
      × ((v : ℕ) × ((d : D) × (io.read_io port start.bus.devices ≡ done (v, d))
            × (r.1 ≡ record start { bus = record (start.bus) { devices = d } })))

  -- The port that is read is what the source operand gives.
  abbrev pub PolledAt : Io D → Bool → (source : Operand) → ℕ → ℕ × Cpu D → Type 0
  PolledAt io checks source length r =
      (port : ℕ) × (read_source source checks start
        ≡ done ((port, 2 + operand_length source), start))
      × Polled io port length r

  -- What is left of an instruction whose condition does not hold.
  abbrev pub Skips : Io D → (checks : Bool) → Instruction → ℕ × Cpu D → Type 0
  Skips io checks (Instruction.loop c s) = Counted (2 + operand_length s)
  Skips io checks (Instruction.rloop c s) = Counted (2 + operand_length s)
  Skips io checks (Instruction.«in» c d s) = PolledAt io checks s (binary_length d s)
  Skips io checks i = Falls start (instruction_length i)

  abbrev pub countdown : (run : Bool) (offset : ℕ) → M D ℕ → M D ℕ
  countdown run offset m = do
    counter ← read_register 31
    let result = (overflowing_sub 32 counter 1).0
    write_register 31 result
    if run then (if result == 0 then ip_plus offset else m) else ip_plus offset

  pub countdown-skipped :
      (length : ℕ) (m : M D ℕ) → Leads start (Counted length) (countdown false length m)
  unfolding read_register write_register
  countdown-skipped length m checks s h =
      ip_plus-Same (counted start) length checks (counted s) (ap counted h)
    where
      counted : Cpu D → Cpu D
      counted t = record t {
        register = update t.register 31 (overflowing_sub 32 (t.register 31) 1).0;
      }

  polled :
      (io : Io D) (port length : ℕ)
      → Leads start (Polled io port length) (device_read io port >>= λ v. pure tt >> ip_plus length)
  unfolding device_read
  polled io port length checks s h =
      after (io.read_io port s.bus.devices)
        (ap (λ (t : Cpu D). io.read_io port t.bus.devices) (sym h))
    where
      asked : D → Cpu D → Cpu D
      asked d t = record t { bus = record (t.bus) { devices = d } }

      behind :
          (d : D) (r : Outcome (ℕ × Cpu D))
          → Ensures (λ x. IsNext start.instruction_pointer length x.0 × (x.1 ≡ asked d start)) r
          → (v : ℕ) → io.read_io port start.bus.devices ≡ done (v, d)
          → Ensures (Polled io port length) r
      behind d (done x) (e, q) v g = (e, (v, (d, g, q)))
      behind d (panic p) q v g = tt

      after :
          (r : Outcome (ℕ × D))
          → io.read_io port start.bus.devices ≡ r
          → let answer : Outcome (ℕ × Cpu D) = elim r [
            | panic p ↦ panic p
            | done (v, d) ↦ done (v, asked d s)
          ] in
            Ensures
              (Polled io port length)
              (elim answer [ panic p ↦ panic p | done (v, s') ↦ ip_plus length checks s' ])
      after (done (v, d)) g =
          behind d (ip_plus length checks (asked d s))
            (ip_plus-Same (asked d start) length checks (asked d s) (ap (asked d) h)) v g
      after (panic p) g = tt

  pub in_to-skipped :
      (io : Io D) (port : ℕ) (destination : Operand) (offset : ℕ)
      → Leads start
          (Polled io port (offset + operand_length destination))
          (in_to io port false destination offset)
  unfolding in_to
  in_to-skipped io port register offset =
      fetched start (Polled io port (offset + 1)) 1 offset _ λ r. polled io port (offset + 1)
  in_to-skipped io port register_ptr offset =
      fetched start (Polled io port (offset + 1)) 1 offset _
        λ r. through start (Polled io port (offset + 1)) r _ λ p. polled io port (offset + 1)
  in_to-skipped io port (immediate_ptr _) offset =
      fetched start (Polled io port (offset + 4)) 4 offset _ λ p. polled io port (offset + 4)
  in_to-skipped io port immediate8 offset = λ checks s k. tt
  in_to-skipped io port immediate16 offset = λ checks s k. tt
  in_to-skipped io port immediate32 offset = λ checks s k. tt

  pub execute_in-skipped :
      (io : Io D) (c : Condition) (destination source : Operand)
      → holds c start.flag ≡ false
      → (checks : Bool) (t : Cpu D) → t ≡ start
      → Ensures
          (PolledAt io checks source (binary_length destination source))
          (execute_in io c destination source checks t)
  unfolding execute_in
  execute_in-skipped io c destination source fails checks t h =
      after (read_source source checks t) refl (read_source-Same start source checks t h)
    where
      at :
          (port : ℕ) (r : Outcome (ℕ × Cpu D))
          → read_source source checks start ≡ done ((port, 2 + operand_length source), start)
          → Ensures (Polled io port (binary_length destination source)) r
          → Ensures (PolledAt io checks source (binary_length destination source)) r
      at port (done x) e q = (port, e, q)
      at port (panic p) e q = tt

      after :
          (r : Outcome ((ℕ × ℕ) × Cpu D))
          → read_source source checks t ≡ r
          → Ensures (λ x. (x.0.1 ≡ 2 + operand_length source) × (x.1 ≡ start)) r
          → Ensures (PolledAt io checks source (binary_length destination source)) (elim r [
            | panic p ↦ panic p
            | done (x, s) ↦ (check_condition c >>= λ run. in_to io x.0 run destination x.1) checks s
          ])
      after (done ((port, offset), s)) e (o, q) =
          at port _ (sym (ap (read_source source checks) h) ∙ e ∙ rw (o, q) refl) (
            tested start (Polled io port (binary_length destination source)) c
              (λ run. in_to io port run destination offset) fails
              (rw o (in_to-skipped io port destination (2 + operand_length source))) checks s q)
      after (panic p) e q = tt

  -- The operations that can panic.
  pub divided :
      (r : Outcome ℕ) → Keeps (Same start) (AnyPair start) (lift r >>= λ q. pure (q, false))
  divided r =
      Keeps-bind (Same start) Any (AnyPair start) (lift r) (λ q. pure (q, false))
        (Keeps-lift (Same start) Any r (Ensures-trivial r))
        λ q _. Keeps-pure (Same start) (AnyPair start) (q, false) tt

  pub shifted :
      (size : Size) (v : ℕ) (f : ℕ → ℕ) (c : Bool)
      → Keeps (Same start) (AnyPair start) (do n ← amount size v; pure (f n, c))
  shifted size v f c =
      Keeps-bind (Same start) Any (AnyPair start) (amount size v) (λ n. pure (f n, c))
        (λ checks. Keeps-lift (Same start) Any _ (Ensures-trivial _) checks)
        λ n _. Keeps-pure (Same start) (AnyPair start) (f n, c) tt
