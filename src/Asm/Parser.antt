-- ===== src/Asm/Parser.antt =====
-- fox32asm/src/main.rs: the state of the parser, and its functions that read the state or recur.
pub mod Build
pub mod Sized
pub mod Operands
pub mod Sound
pub mod Ends
pub mod Fuel
pub mod Numbers
pub mod Bounds
mod Tests
use fox.Outcome.{Outcome, done, panic, Panic}
use fox.Asm.Ast.{Size, Condition}

-- The statics `CURRENT_SIZE` and `CURRENT_CONDITION`.
pub record Parser : Type 0 where
  pub current_size : Size
  pub current_condition : Condition

abbrev pub P {ℓ} : Type ℓ → Type ℓ
P A = Parser → Outcome (A × Parser)

abbrev pub pure {ℓ} : {A : Type ℓ} → A → P A
pure a s = done (a, s)

infixl 5 ◌>>=◌ ◌>>◌
abbrev pub ◌>>=◌ {ℓ κ} : {A : Type ℓ} {B : Type κ} → P A → (A → P B) → P B
◌>>=◌ m f s = elim (m s) [ panic p ↦ panic p | done (a, s') ↦ f a s' ]

abbrev pub ◌>>◌ {ℓ} : {B : Type ℓ} → P (Unit {0}) → P B → P B
m >> k = m >>= λ _. k

abbrev pub lift {ℓ} : {A : Type ℓ} → Outcome A → P A
lift r s = elim r [ panic p ↦ panic p | done a ↦ done (a, s) ]

abbrev pub panics {ℓ} : {A : Type ℓ} → Panic → P A
panics p s = panic p

abbrev pub get_size : P Size
get_size s = done (s.current_size, s)

abbrev pub set_size : Size → P (Unit {0})
set_size z s = done (tt, record s { current_size = z })

abbrev pub get_condition : P Condition
get_condition s = done (s.current_condition, s)

abbrev pub set_condition : Condition → P (Unit {0})
set_condition c s = done (tt, record s { current_condition = c })
