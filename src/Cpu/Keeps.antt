-- ===== src/Cpu/Keeps.antt =====
-- Postconditions of the processor's methods: what holds of the value and of the processor after a
-- method that returns, if `P` holds before.
use fox.Prelude.{Bool, true, false, ◌≡◌, if◌then◌else◌}
use fox.Outcome.{Outcome, done, panic, Ensures, Panic}
use fox.Cpu.State.{Cpu, M, pure, ◌>>=◌, panics, lift, when}

module _ {D : Type 0} where
  -- `P` is kept, and `Q` holds of the value.
  abbrev pub Keeps : {A : Type 0} → (Cpu D → Type 0) → (A → Type 0) → M D A → Type 0
  Keeps P Q m = (checks : Bool) (s : Cpu D) → P s → Ensures (λ r. Q r.0 × P r.1) (m checks s)

  -- The processor is unchanged, and `Q` holds of the value.
  abbrev pub Reads : {A : Type 0} → (Cpu D → Type 0) → (A → Type 0) → M D A → Type 0
  Reads P Q m = (checks : Bool) (s : Cpu D) → P s → Ensures (λ r. Q r.0 × (r.1 ≡ s)) (m checks s)

  module _ (P : Cpu D → Type 0) where
    pub Keeps-bind :
        {A B : Type 0} (Q : A → Type 0) (R : B → Type 0) (m : M D A) (f : A → M D B)
        → Keeps P Q m
        → ((a : A) → Q a → Keeps P R (f a))
        → Keeps P R (m >>= f)
    Keeps-bind Q R m f h k checks s p = after (m checks s) (h checks s p)
      where
        after :
            (r : Outcome (_ × Cpu D))
            → Ensures (λ x. Q x.0 × P x.1) r
            → Ensures
                (λ x. R x.0 × P x.1)
                (elim r [ panic e ↦ panic e | done (a, s') ↦ f a checks s' ])
        after (done (a, s')) (q, p') = k a q checks s' p'
        after (panic e) h = tt

    pub Keeps-pure : {A : Type 0} (Q : A → Type 0) (a : A) → Q a → Keeps P Q (pure a)
    Keeps-pure Q a q checks s p = (q, p)

    pub Keeps-panics : {A : Type 0} (Q : A → Type 0) (e : Panic) → Keeps P Q (panics e)
    Keeps-panics Q e checks s p = tt

    pub Keeps-lift :
        {A : Type 0} (Q : A → Type 0) (r : Outcome A) → Ensures Q r → Keeps P Q (lift r)
    Keeps-lift Q (done a) q checks s p = (q, p)
    Keeps-lift Q (panic e) q checks s p = tt

    pub Keeps-when :
        (run : Bool) (m : M D (Unit {0}))
        → Keeps P (λ _. Unit {0}) m
        → Keeps P (λ _. Unit {0}) (when run m)
    Keeps-when true m h = h
    Keeps-when false m h = λ checks s p. (tt, p)

    pub Keeps-if :
        {A : Type 0} (Q : A → Type 0) (b : Bool) (m n : M D A)
        → Keeps P Q m
        → Keeps P Q n
        → Keeps P Q (if b then m else n)
    Keeps-if Q true m n h k = h
    Keeps-if Q false m n h k = k

    pub Keeps-weaken :
        {A : Type 0} (Q R : A → Type 0) (m : M D A)
        → ((a : A) → Q a → R a)
        → Keeps P Q m
        → Keeps P R m
    Keeps-weaken Q R m imp h checks s p = after (m checks s) (h checks s p)
      where
        after :
            (r : Outcome (_ × Cpu D))
            → Ensures (λ x. Q x.0 × P x.1) r
            → Ensures (λ x. R x.0 × P x.1) r
        after (done (a, s')) (q, p') = (imp a q, p')
        after (panic e) h = tt
