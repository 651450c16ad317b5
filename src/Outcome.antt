-- ===== src/Outcome.antt =====
-- What a Rust call does: it returns a value, or the thread panics. A panic ends the emulator's
-- `cpu` thread, or the assembler, so no state is kept behind it.
pub mod Ends
use mathlib.Core.Path.{subst}
use fox.Prelude.{ℕ, ◌≡◌, refl, Bool, true, false, if◌then◌else◌, ◌⊎◌, inl, inr}

pub data Panic : Type 0 where
  -- memory.rs: `find_unwrapped`, `arrayslice`, and `checked_add(..).expect(..)`
  unmapped_memory : ℕ → Panic
  slice_out_of_range tail_overflow : Panic
  -- cpu.rs: a register number above 32, an immediate operand as a destination, a bad opcode
  invalid_register : ℕ → Panic
  immediate_destination movz_destination : Panic
  bad_opcode : ℕ → Panic
  -- the operators of Rust: `+` and `<<` under overflow checks, `/` and `%` by zero
  arithmetic_overflow divide_by_zero : Panic
  -- bus.rs and disk.rs: what a device's port refuses
  device : Panic
  -- main.rs of fox32asm: a node that is no instruction, or an operand that has no encoding
  bad_node : Panic
  -- main.rs of fox32asm: `unwrap` of a missing pair or of a text that is no number, a rule or a text
  -- that the parser does not know, a register above 32, and recursion deeper than the fuel
  missing_pair bad_number unsupported register_out_of_range no_fuel : Panic
  -- main.rs of fox32asm: an origin that is not ahead, a label that is not defined, an index out of
  -- range
  origin_behind label_not_found index_out_of_range : Panic

pub data Outcome {ℓ} (A : Type ℓ) : Type ℓ where
  done : A → Outcome A
  panic : Panic → Outcome A

infixl 5 ◌>>=◌
abbrev pub ◌>>=◌ {ℓ κ} : {A : Type ℓ} {B : Type κ} → Outcome A → (A → Outcome B) → Outcome B
done a >>= f = f a
panic p >>= f = panic p

-- `P` holds of the value, if there is one.
abbrev pub Ensures {ℓ κ} : {A : Type ℓ} → (A → Type κ) → Outcome A → Type κ
Ensures P (done a) = P a
Ensures P (panic p) = Unit

pub Ensures-trivial {ℓ} : {A : Type ℓ} (r : Outcome A) → Ensures (λ _. Unit {0}) r
Ensures-trivial (done a) = tt
Ensures-trivial (panic p) = tt

pub Ensures-bind {ℓ κ μ ν} :
    {A : Type ℓ} {B : Type κ} (P : A → Type μ) (Q : B → Type ν) (r : Outcome A) (f : A → Outcome B)
    → Ensures P r
    → ((a : A) → P a → Ensures Q (f a))
    → Ensures Q (r >>= f)
Ensures-bind P Q (done a) f h k = k a h
Ensures-bind P Q (panic p) f h k = tt

pub Ensures-done {ℓ κ} :
    {A : Type ℓ} (P : A → Type κ) (r : Outcome A) {a : A} → r ≡ done a → Ensures P r → P a
Ensures-done P r e h = subst (Ensures P) e h

pub >>=-eq-done {ℓ κ} :
    {A : Type ℓ} {B : Type κ} (m : Outcome A) (f : A → Outcome B) {b : B}
    → (m >>= f) ≡ done b
    → (a : A) × (m ≡ done a) × (f a ≡ done b)
>>=-eq-done (done a) f e = (a, refl, e)
>>=-eq-done (panic p) f e = cc

pub bind_congr {ℓ κ} :
    {A : Type ℓ} {B : Type κ} (m : Outcome A) {f g : A → Outcome B}
    → ((a : A) → m ≡ done a → f a ≡ g a)
    → (m >>= f) ≡ (m >>= g)
bind_congr (done a) h = h a refl
bind_congr (panic p) h = refl

pub Ensures-if {ℓ κ} :
    {A : Type ℓ} (P : A → Type κ) (b : Bool) (x y : Outcome A)
    → (b ≡ true → Ensures P x)
    → (b ≡ false → Ensures P y)
    → Ensures P (if b then x else y)
Ensures-if P true x y h k = h refl
Ensures-if P false x y h k = k refl

pub Outcome-cases {ℓ} :
    {A : Type ℓ} (r : Outcome A) → ((a : A) × (r ≡ done a)) ⊎ ((p : Panic) × (r ≡ panic p))
Outcome-cases (done a) = inl (a, refl)
Outcome-cases (panic p) = inr (p, refl)

-- A first call of which nothing matters.
pub after {ℓ κ μ} :
    {A : Type ℓ} {B : Type κ} (Q : B → Type μ) (m : Outcome A) (f : A → Outcome B)
    → ((a : A) → Ensures Q (f a))
    → Ensures Q (m >>= f)
after Q (done a) f h = h a
after Q (panic p) f h = tt
