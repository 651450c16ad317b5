-- ===== src/Cpu/Skipped/Arms.antt =====
-- fox32/src/cpu.rs: the arms whose condition does not hold only find out where the next instruction
-- is.
use fox.Prelude.{ℕ, ◌+◌, ◌≡◌, ◌∙◌, Bool, true, false}
use fox.Cpu.State.{
  Cpu, M, Io, pure, ◌>>=◌, ◌>>◌, check_condition, relative_to_absolute, read_register, fetch,
  ip_plus, Condition,
}
use fox.Cpu.Decode.{
  Size, Operand, register, register_ptr, immediate8, immediate16, immediate32, immediate_ptr,
}
use fox.Cpu.Operand.{read_source}
use fox.Cpu.Arm.{Timing, Commit, apply_op, on_destination, binary, unary}
use fox.Cpu.Move.{mov_to, movz_to, rta_to, pop_to, out_to}
use fox.Cpu.Keeps.{Keeps, Keeps-bind, Keeps-pure}
use fox.Cpu.Steady.Operands.{operand_length}
use fox.Cpu.Steady.Arms.{IsNext, binary_length}
use fox.Cpu.Skipped.{
  holds, Any, Same, Leads, Leads-bind, ip_plus-Same, read_register-Same, check_condition-Same,
  relative_to_absolute-Same, fetch-Same, read_register_as-Same, load_as-Same, read_source-Same,
}

module _ {D : Type 0} (start : Cpu D) where
  abbrev S : Cpu D → Type 0
  S = Same start

  -- The next instruction pointer behind `length` bytes, and nothing changed.
  abbrev pub Falls : ℕ → ℕ × Cpu D → Type 0
  Falls length r = IsNext start.instruction_pointer length r.0 × (r.1 ≡ start)

  abbrev pub AnyPair : ℕ × Bool → Type 0
  AnyPair _ = Unit {0}

  pub fetched :
      (R : ℕ × Cpu D → Type 0) (count k : ℕ) (f : ℕ → M D ℕ)
      → ((a : ℕ) → Leads start R (f a))
      → Leads start R (fetch count k >>= f)
  fetched R count k f h =
      Leads-bind start Any R (fetch count k) f (fetch-Same start count k) λ a _. h a

  pub through :
      (R : ℕ × Cpu D → Type 0) (r : ℕ) (f : ℕ → M D ℕ)
      → ((a : ℕ) → Leads start R (f a))
      → Leads start R (read_register r >>= f)
  through R r f h =
      Leads-bind start Any R (read_register r) f (read_register-Same start r) λ a _. h a

  resolved :
      (R : ℕ × Cpu D → Type 0) (v : ℕ) (f : ℕ → M D ℕ)
      → ((a : ℕ) → Leads start R (f a))
      → Leads start R (relative_to_absolute v >>= f)
  resolved R v f h =
      Leads-bind start Any R (relative_to_absolute v) f (relative_to_absolute-Same start v)
        λ a _. h a

  pub tested :
      (R : ℕ × Cpu D → Type 0) (c : Condition) (f : Bool → M D ℕ)
      → holds c start.flag ≡ false
      → Leads start R (f false)
      → Leads start R (check_condition c >>= f)
  tested R c f fails h =
      Leads-bind start (λ b. b ≡ holds c start.flag) R (check_condition c) f
        (check_condition-Same start c) λ run e. on run (e ∙ fails)
    where
      on : (run : Bool) → run ≡ false → Leads start R (f run)
      on true e = absurd cc
      on false e = h

  pub sourced :
      (R : ℕ × Cpu D → Type 0) (c : Condition) (source : Operand) (f : ℕ → ℕ → Bool → M D ℕ)
      → holds c start.flag ≡ false
      → ((v : ℕ) → Leads start R (f v (2 + operand_length source) false))
      → Leads start R (do (v, offset) ← read_source source; run ← check_condition c; f v offset run)
  sourced R c source f fails h =
      Leads-bind start (λ x. x.1 ≡ 2 + operand_length source) R (read_source source)
        (λ x. check_condition c >>= λ run. f x.0 x.1 run) (read_source-Same start source)
        λ (v, offset) e. tested R c (λ run. f v offset run) fails (rw e (h v))

  apply_op-Same :
      (first : Bool) (read : M D ℕ) (write : ℕ → M D (Unit {0})) (op : ℕ → M D (ℕ × Bool))
      (commit : Commit D)
      → Keeps S Any read
      → ((d : ℕ) → Keeps S AnyPair (op d))
      → Keeps S (λ _. Unit {0}) (apply_op first false read write op commit)
  unfolding apply_op
  apply_op-Same true read write op commit hr ho =
      Keeps-bind S Any (λ _. Unit {0}) read (λ d. op d >>= λ x. pure tt) hr
        λ d _.
          Keeps-bind S AnyPair (λ _. Unit {0}) (op d) (λ x. pure tt) (ho d)
            λ x _. Keeps-pure S (λ _. Unit {0}) tt tt
  apply_op-Same false read write op commit hr ho = Keeps-pure S (λ _. Unit {0}) tt tt

  module _ (t : Timing) (size : Size) (op : ℕ → M D (ℕ × Bool)) (commit : Commit D)
      (ho : (d : ℕ) → Keeps S AnyPair (op d)) where
    applied :
        (length : ℕ) (m : M D (Unit {0}))
        → Keeps S (λ _. Unit {0}) m
        → Leads start (Falls length) (m >> ip_plus length)
    applied length m h =
        Leads-bind start (λ _. Unit {0}) (Falls length) m (λ _. ip_plus length) h
          λ _ _. ip_plus-Same start length

    on_destination-skipped :
        (destination : Operand) (offset : ℕ)
        → Leads start
            (Falls (offset + operand_length destination))
            (on_destination t size false op commit destination offset)
    unfolding on_destination
    on_destination-skipped register offset = fetched (Falls (offset + 1)) 1 offset _ λ r.
        applied (offset + 1) _
          (apply_op-Same _ _ _ op commit (read_register_as-Same start size r) ho)
    on_destination-skipped register_ptr offset = fetched (Falls (offset + 1)) 1 offset _ λ r.
        through (Falls (offset + 1)) r _
          λ p. applied (offset + 1) _ (apply_op-Same _ _ _ op commit (load_as-Same start size p) ho)
    on_destination-skipped (immediate_ptr _) offset =
        fetched (Falls (offset + 4)) 4 offset _
          λ p. applied (offset + 4) _ (apply_op-Same _ _ _ op commit (load_as-Same start size p) ho)
    on_destination-skipped immediate8 offset = λ checks s k. tt
    on_destination-skipped immediate16 offset = λ checks s k. tt
    on_destination-skipped immediate32 offset = λ checks s k. tt

  pub binary-skipped :
      (t : Timing) (op : Size → (destination source : ℕ) → M D (ℕ × Bool)) (commit : Commit D)
      (size : Size) (c : Condition) (destination source : Operand)
      → ((v d : ℕ) → Keeps S AnyPair (op size d v))
      → holds c start.flag ≡ false
      → Leads start
          (Falls (binary_length destination source))
          (binary t op commit size c destination source)
  unfolding binary
  binary-skipped t op commit size c destination source ho fails =
      sourced (Falls (binary_length destination source)) c source
        (λ v offset run. on_destination t size run (λ d. op size d v) commit destination offset)
        fails
        λ v.
          on_destination-skipped t size (λ d. op size d v) commit (ho v) destination
            (2 + operand_length source)

  pub unary-skipped :
      (t : Timing) (op : Size → ℕ → M D (ℕ × Bool)) (commit : Commit D) (size : Size)
      (c : Condition) (source : Operand)
      → ((d : ℕ) → Keeps S AnyPair (op size d))
      → holds c start.flag ≡ false
      → Leads start (Falls (2 + operand_length source)) (unary t op commit size c source)
  unfolding unary
  unary-skipped t op commit size c source ho fails =
      tested (Falls (2 + operand_length source)) c
        (λ run. on_destination t size run (op size) commit source 2) fails
        (on_destination-skipped t size (op size) commit ho source 2)

  -- Nothing is left to do but to go on.
  pub idle : (length : ℕ) → Leads start (Falls length) (ip_plus length)
  idle length = ip_plus-Same start length

  pub mov_to-skipped :
      (size : Size) (v : ℕ) (destination : Operand) (offset : ℕ)
      → Leads start
          (Falls (offset + operand_length destination))
          (mov_to size v false destination offset)
  unfolding mov_to
  mov_to-skipped size v register offset =
      fetched (Falls (offset + 1)) 1 offset _ λ r. idle (offset + 1)
  mov_to-skipped size v register_ptr offset =
      fetched (Falls (offset + 1)) 1 offset _
        λ r. through (Falls (offset + 1)) r _ λ p. idle (offset + 1)
  mov_to-skipped size v (immediate_ptr _) offset =
      fetched (Falls (offset + 4)) 4 offset _ λ p. idle (offset + 4)
  mov_to-skipped size v immediate8 offset = λ checks s k. tt
  mov_to-skipped size v immediate16 offset = λ checks s k. tt
  mov_to-skipped size v immediate32 offset = λ checks s k. tt

  pub movz_to-skipped :
      (size : Size) (v : ℕ) (destination : Operand) (offset : ℕ)
      → Leads start
          (Falls (offset + operand_length destination))
          (movz_to size v false destination offset)
  unfolding movz_to
  movz_to-skipped size v register offset =
      fetched (Falls (offset + 1)) 1 offset _ λ r. idle (offset + 1)
  movz_to-skipped size v register_ptr offset = λ checks s k. tt
  movz_to-skipped size v (immediate_ptr _) offset = λ checks s k. tt
  movz_to-skipped size v immediate8 offset = λ checks s k. tt
  movz_to-skipped size v immediate16 offset = λ checks s k. tt
  movz_to-skipped size v immediate32 offset = λ checks s k. tt

  pub rta_to-skipped :
      (v : ℕ) (destination : Operand) (offset : ℕ)
      → Leads start
          (Falls (offset + operand_length destination))
          (rta_to v false destination offset)
  unfolding rta_to
  rta_to-skipped v register offset = fetched (Falls (offset + 1)) 1 offset _ λ r. idle (offset + 1)
  rta_to-skipped v register_ptr offset = fetched (Falls (offset + 1)) 1 offset _ λ r.
      through (Falls (offset + 1)) r _ λ a. resolved (Falls (offset + 1)) a _ λ p. idle (offset + 1)
  rta_to-skipped v (immediate_ptr _) offset =
      fetched (Falls (offset + 4)) 4 offset _
        λ a. resolved (Falls (offset + 4)) a _ λ p. idle (offset + 4)
  rta_to-skipped v immediate8 offset = λ checks s k. tt
  rta_to-skipped v immediate16 offset = λ checks s k. tt
  rta_to-skipped v immediate32 offset = λ checks s k. tt

  pub pop_to-skipped :
      (size : Size) (destination : Operand)
      → Leads start (Falls (2 + operand_length destination)) (pop_to size false destination)
  unfolding pop_to
  pop_to-skipped size register = fetched (Falls 3) 1 2 _ λ r. idle 3
  pop_to-skipped size register_ptr = fetched (Falls 3) 1 2 _ λ r. through (Falls 3) r _ λ p. idle 3
  pop_to-skipped size (immediate_ptr _) = fetched (Falls 6) 4 2 _ λ p. idle 6
  pop_to-skipped size immediate8 = λ checks s k. tt
  pop_to-skipped size immediate16 = λ checks s k. tt
  pop_to-skipped size immediate32 = λ checks s k. tt

  pub out_to-skipped :
      (io : Io D) (v : ℕ) (destination : Operand) (offset : ℕ)
      → Leads start
          (Falls (offset + operand_length destination))
          (out_to io v false destination offset)
  unfolding out_to
  out_to-skipped io v register offset =
      fetched (Falls (offset + 1)) 1 offset _ λ r. idle (offset + 1)
  out_to-skipped io v register_ptr offset =
      fetched (Falls (offset + 1)) 1 offset _
        λ r. through (Falls (offset + 1)) r _ λ p. idle (offset + 1)
  out_to-skipped io v (immediate_ptr _) offset =
      fetched (Falls (offset + 4)) 4 offset _ λ p. idle (offset + 4)
  out_to-skipped io v immediate8 offset = λ checks s k. tt
  out_to-skipped io v immediate16 offset = λ checks s k. tt
  out_to-skipped io v immediate32 offset = λ checks s k. tt
