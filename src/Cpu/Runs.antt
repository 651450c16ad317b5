-- ===== src/Cpu/Runs.antt =====
-- Methods that return: what each part of a sequence returned, and the sequence from its parts.
use fox.Prelude.{Bool, ◌≡◌, refl, ap}
use fox.Outcome.{Outcome, done, panic}
use fox.Cpu.State.{Cpu, M, ◌>>=◌}

module _ {D A B : Type 0} (f : A → M D B) (checks : Bool) where
  -- What follows the first method of a sequence.
  abbrev continue : Outcome (A × Cpu D) → Outcome (B × Cpu D)
  continue r = elim r [ panic p ↦ panic p | done (a, s') ↦ f a checks s' ]

  pub bind-runs :
      (m : M D A) (s : Cpu D) {b : B} {t : Cpu D}
      → (m >>= f) checks s ≡ done (b, t)
      → (a : A) × (s' : Cpu D) × (m checks s ≡ done (a, s')) × (f a checks s' ≡ done (b, t))
  bind-runs m s {b} {t} e = on (m checks s) refl e
    where
      on :
          (r : Outcome (A × Cpu D))
          → m checks s ≡ r
          → continue r ≡ done (b, t)
          → (a : A) × (s' : Cpu D) × (m checks s ≡ done (a, s')) × (f a checks s' ≡ done (b, t))
      on (done (a, s')) w e = (a, s', w, e)
      on (panic p) w e = absurd cc

  pub runs-bind :
      (m : M D A) (s : Cpu D) {a : A} {s' : Cpu D}
      → m checks s ≡ done (a, s')
      → (m >>= f) checks s ≡ f a checks s'
  runs-bind m s e = ap continue e
