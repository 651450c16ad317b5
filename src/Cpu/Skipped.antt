-- ===== src/Cpu/Skipped.antt =====
-- fox32/src/cpu.rs: what an instruction reads leaves the processor as it is, and a condition is the
-- flags' alone.
pub mod Arms
pub mod Special
pub mod Execute
use fox.Prelude.{
  ℕ, ◌+◌, ◌%◌, ◌^◌, ◌≡◌, refl, ap, Bool, true, false, not, ◌&&◌, ◌||◌, ltb, ◌==◌, arith,
}
use fox.Outcome.{Outcome, done, panic, Ensures, Ensures-if, Ensures-trivial}
use fox.Memory.{read}
use fox.Word.{add_u32}
use fox.Cpu.State.{
  Cpu, M, Flag, pure, ◌>>=◌, load, fetch, ip_plus, read_register, check_condition,
  relative_to_absolute, Condition, always, zero, not_zero, carry, not_carry, greater_than,
  less_than_equal_to,
}
use fox.Cpu.Decode.{
  Size, Operand, register, register_ptr, immediate8, immediate16, immediate32, immediate_ptr,
}
use fox.Cpu.Operand.{width, bytes, read_source, read_register_as, load_as}
use fox.Cpu.Keeps.{Keeps, Keeps-bind, Keeps-pure, Keeps-lift}
use fox.Cpu.Steady.{add_u32-wraps}
use fox.Cpu.Steady.Operands.{operand_length}
use fox.Cpu.Steady.Arms.{IsNext}

-- A condition, by the flags: after a comparison, carry is "below" and zero is "equal".
abbrev pub holds : Condition → Flag → Bool
holds always f = true
holds zero f = f.zero
holds not_zero f = not f.zero
holds carry f = f.carry
holds not_carry f = not f.carry
holds greater_than f = not f.carry && not f.zero
holds less_than_equal_to f = f.carry || f.zero

abbrev pub Any : ℕ → Type 0
Any _ = Unit {0}

module _ {D : Type 0} (start : Cpu D) where
  abbrev pub Same : Cpu D → Type 0
  Same s = s ≡ start

  -- What `m` returns from `start`, if it returns.
  abbrev pub Leads : {A : Type 0} → (A × Cpu D → Type 0) → M D A → Type 0
  Leads R m = (checks : Bool) (s : Cpu D) → s ≡ start → Ensures R (m checks s)

  pub Leads-bind :
      {A B : Type 0} (Q : A → Type 0) (R : B × Cpu D → Type 0) (m : M D A) (f : A → M D B)
      → Keeps Same Q m
      → ((a : A) → Q a → Leads R (f a))
      → Leads R (m >>= f)
  Leads-bind Q R m f h k checks s p = after (m checks s) (h checks s p)
    where
      after :
          (r : Outcome (_ × Cpu D))
          → Ensures (λ x. Q x.0 × Same x.1) r
          → Ensures R (elim r [ panic e ↦ panic e | done (a, s') ↦ f a checks s' ])
      after (done (a, s')) (q, p') = k a q checks s' p'
      after (panic e) q = tt

  pub load-Same : (count address : ℕ) → Keeps Same Any (load count address)
  unfolding load
  load-Same count address checks s h =
      Keeps-lift Same Any (read count s.bus.memory address) (Ensures-trivial _) checks s h

  pub ip_plus-Same :
      (offset : ℕ) → Keeps Same (IsNext start.instruction_pointer offset) (ip_plus offset)
  unfolding ip_plus
  ip_plus-Same offset checks s h =
      Keeps-lift Same (IsNext start.instruction_pointer offset)
        (add_u32 checks s.instruction_pointer offset)
        (add_u32-wraps checks s.instruction_pointer offset
          (ap (λ (t : Cpu D). t.instruction_pointer) h))
        checks s h

  pub read_register-Same : (r : ℕ) → Keeps Same Any (read_register r)
  unfolding read_register
  read_register-Same r checks s h =
      Ensures-if {A = ℕ × Cpu D} _ (ltb r 32) _ _ (λ _. (tt, h))
        λ _. Ensures-if {A = ℕ × Cpu D} _ (r == 32) _ _ (λ _. (tt, h)) (λ _. tt)

  pub check_condition-Same :
      (c : Condition) → Keeps Same (λ b. b ≡ holds c start.flag) (check_condition c)
  unfolding check_condition
  check_condition-Same always checks s h = (refl, h)
  check_condition-Same zero checks s h = (ap (λ (t : Cpu D). holds zero t.flag) h, h)
  check_condition-Same not_zero checks s h = (ap (λ (t : Cpu D). holds not_zero t.flag) h, h)
  check_condition-Same carry checks s h = (ap (λ (t : Cpu D). holds carry t.flag) h, h)
  check_condition-Same not_carry checks s h = (ap (λ (t : Cpu D). holds not_carry t.flag) h, h)
  check_condition-Same greater_than checks s h =
      (ap (λ (t : Cpu D). holds greater_than t.flag) h, h)
  check_condition-Same less_than_equal_to checks s h =
      (ap (λ (t : Cpu D). holds less_than_equal_to t.flag) h, h)

  pub relative_to_absolute-Same : (v : ℕ) → Keeps Same Any (relative_to_absolute v)
  unfolding relative_to_absolute
  relative_to_absolute-Same v checks s h = (tt, h)

  pub fetch-Same : (count offset : ℕ) → Keeps Same Any (fetch count offset)
  unfolding fetch
  fetch-Same count offset =
      Keeps-bind Same (IsNext start.instruction_pointer offset) Any (ip_plus offset)
        (λ a. load count a) (ip_plus-Same offset) λ a _. load-Same count a

  pub read_register_as-Same : (size : Size) (r : ℕ) → Keeps Same Any (read_register_as size r)
  unfolding read_register_as
  read_register_as-Same size r =
      Keeps-bind Same Any Any _ _ (read_register-Same r)
        λ v _. Keeps-pure Same Any (v % 2 ^ width size) tt

  pub load_as-Same : (size : Size) (p : ℕ) → Keeps Same Any (load_as size p)
  unfolding load_as
  load_as-Same size p = load-Same (bytes size) p

  abbrev Behind : Operand → ℕ × ℕ → Type 0
  Behind o x = x.1 ≡ 2 + operand_length o

  pub read_source-Same :
      (o : Operand) → Keeps Same (λ x. x.1 ≡ 2 + operand_length o) (read_source o)
  unfolding read_source
  read_source-Same register = Keeps-bind Same Any (Behind register) _ _ (fetch-Same 1 2) λ r _.
      Keeps-bind Same Any (Behind register) _ _ (read_register-Same r)
        λ v _. Keeps-pure Same (Behind register) (v, 3) refl
  read_source-Same register_ptr =
      Keeps-bind Same Any (Behind register_ptr) _ _ (fetch-Same 1 2) λ r _.
        Keeps-bind Same Any (Behind register_ptr) _ _ (read_register-Same r) λ p _.
          Keeps-bind Same Any (Behind register_ptr) _ _ (load-Same 4 p)
            λ v _. Keeps-pure Same (Behind register_ptr) (v, 3) refl
  read_source-Same immediate8 =
      Keeps-bind Same Any (Behind immediate8) _ _ (fetch-Same 1 2)
        λ v _. Keeps-pure Same (Behind immediate8) (v, 3) refl
  read_source-Same immediate16 =
      Keeps-bind Same Any (Behind immediate16) _ _ (fetch-Same 2 2)
        λ v _. Keeps-pure Same (Behind immediate16) (v, 4) refl
  read_source-Same immediate32 =
      Keeps-bind Same Any (Behind immediate32) _ _ (fetch-Same 4 2)
        λ v _. Keeps-pure Same (Behind immediate32) (v, 6) refl
  read_source-Same (immediate_ptr size) =
      Keeps-bind Same Any (Behind (immediate_ptr size)) _ _ (fetch-Same 4 2) λ p _.
        Keeps-bind Same Any (Behind (immediate_ptr size)) _ _ (load-Same (bytes size) p)
          λ v _. Keeps-pure Same (Behind (immediate_ptr size)) (v, 6) refl
