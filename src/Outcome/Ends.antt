-- ===== src/Outcome/Ends.antt =====
-- A call that ends otherwise than for lack of fuel.
use fox.Prelude.{Bool, true, false, if◌then◌else◌}
use fox.Outcome.{Outcome, done, panic, ◌>>=◌, Panic, no_fuel}

-- A panic of the source, not of the fuel.
abbrev pub IsOwn : Panic → Type 0
IsOwn no_fuel = ⊥
IsOwn _ = Unit

-- The call ends, with a value of which `Q` holds or with a panic of the source.
abbrev pub Ends {ℓ} : {A : Type ℓ} → (A → Type 0) → Outcome A → Type 0
Ends Q (done a) = Q a
Ends Q (panic p) = IsOwn p

abbrev pub Any {ℓ} : {A : Type ℓ} → A → Type 0
Any a = Unit

pub Ends-bind {ℓ κ} :
    {A : Type ℓ} {B : Type κ} (R : A → Type 0) (Q : B → Type 0) (m : Outcome A) (f : A → Outcome B)
    → Ends R m
    → ((a : A) → R a → Ends Q (f a))
    → Ends Q (m >>= f)
Ends-bind R Q (done a) f h k = k a h
Ends-bind R Q (panic p) f h k = h

pub Ends-if {ℓ} :
    {A : Type ℓ} (Q : A → Type 0) (b : Bool) (x y : Outcome A)
    → Ends Q x
    → Ends Q y
    → Ends Q (if b then x else y)
Ends-if Q true x y h k = h
Ends-if Q false x y h k = k
