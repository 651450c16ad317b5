-- ===== src/Asm/Patch/Bytes.antt =====
-- fox32asm/src/main.rs: what a list holds after an element, or several in a row, have been set.
use fox.Prelude.{
  ℕ, zero, suc, ◌+◌, ◌≤◌, ◌<◌, ◌≡◌, ◌≢◌, refl, ap, ◌∙◌, ◌⊎◌, inl, inr, Bool, true, false, Option,
  none, some, List, [], ◌∷◌, length, if◌then◌else◌, ◌%◌, ◌^◌, ◌&&◌, ltb, ltb_iff, arith,
}
use fox.Word.{add_u32}
use fox.Outcome.{Outcome, done, panic, ◌>>=◌, arithmetic_overflow, Ensures}
use fox.Asm.Patch.{get_at, set_at, set_bytes}

-- The call gives a value of which `Q` holds, or an overflow check stops it.
abbrev pub Gives {ℓ} : {A : Type ℓ} → (checks : Bool) → (A → Type 0) → Outcome A → Type 0
Gives checks Q (done a) = Q a
Gives checks Q (panic p) = (checks ≡ true) × (p ≡ arithmetic_overflow)

pub Gives-bind {ℓ κ} :
    {A : Type ℓ} {B : Type κ} (checks : Bool) (R : A → Type 0) (Q : B → Type 0) (m : Outcome A)
    (f : A → Outcome B)
    → Gives checks R m
    → ((a : A) → R a → Gives checks Q (f a))
    → Gives checks Q (m >>= f)
Gives-bind checks R Q (done a) f h k = k a h
Gives-bind checks R Q (panic p) f h k = h

pub Gives-weaken {ℓ} :
    {A : Type ℓ} (checks : Bool) (R Q : A → Type 0) (m : Outcome A)
    → Gives checks R m
    → ((a : A) → R a → Q a)
    → Gives checks Q m
Gives-weaken checks R Q (done a) h k = k a h
Gives-weaken checks R Q (panic p) h k = h

pub Gives-Ensures {ℓ} :
    {A : Type ℓ} (checks : Bool) (Q : A → Type 0) (m : Outcome A) → Gives checks Q m → Ensures Q m
Gives-Ensures checks Q (done a) h = h
Gives-Ensures checks Q (panic p) h = tt

pub checked-Gives {ℓ} :
    {A : Type ℓ} (checks o : Bool) (Q : A → Type 0) (x : A)
    → Q x
    → Gives checks Q (if checks && o then panic arithmetic_overflow else done x)
checked-Gives false o Q x h = h
checked-Gives true false Q x h = h
checked-Gives true true Q x h = (refl, refl)

wrapped-Gives :
    (checks o : Bool) (n : ℕ)
    → (o ≡ true → n < 2 ^ 32)
    → Gives checks
        (λ w. w ≡ n % 2 ^ 32)
        (if o then done n else if checks then panic arithmetic_overflow else done (n % 2 ^ 32))
wrapped-Gives checks true n h = let b = h refl in omega arith
wrapped-Gives true false n h = (refl, refl)
wrapped-Gives false false n h = refl

pub add_u32-Gives :
    (checks : Bool) (a b : ℕ) → Gives checks (λ w. w ≡ (a + b) % 2 ^ 32) (add_u32 checks a b)
add_u32-Gives checks a b =
    wrapped-Gives checks (ltb (a + b) (2 ^ 32)) (a + b) ((ltb_iff (a + b) (2 ^ 32)).0)

-- The element at an index, if there is one.
unfoldable pub at : {A : Type 0} → List A → ℕ → Option A
at [] i = none
at (x ∷ xs) zero = some x
at (x ∷ xs) (suc i) = at xs i

module _ {A : Type 0} where
  pub at-below : (xs : List A) (i : ℕ) → i < length xs → (x : A) × (at xs i ≡ some x)
  unfolding at
  at-below [] i h = absurd (omega arith)
  at-below (x ∷ xs) zero h = (x, refl)
  at-below (x ∷ xs) (suc i) h = at-below xs i (omega arith)

  pub at-lt : (xs : List A) (i : ℕ) {x : A} → at xs i ≡ some x → i < length xs
  unfolding at
  at-lt [] i e = cc
  at-lt (y ∷ xs) zero e = omega arith
  at-lt (y ∷ xs) (suc i) e = omega (arith, at-lt xs i e)

  pub get_at-done : (xs : List A) (i : ℕ) {x : A} → at xs i ≡ some x → get_at xs i ≡ done x
  unfolding at get_at
  get_at-done [] i e = cc
  get_at-done (y ∷ xs) zero e = cc
  get_at-done (y ∷ xs) (suc i) e = get_at-done xs i e

  -- The list with the element at `i` set to `y`.
  pub record IsUpdated (xs : List A) (i : ℕ) (y : A) (ys : List A) : Type 0 where
    pub same_length : length ys ≡ length xs
    pub there : at ys i ≡ some y
    pub elsewhere : (j : ℕ) → j ≢ i → at ys j ≡ at xs j

  behind_head : (x y : A) (xs : List A) (j : ℕ) → j ≢ 0 → at (y ∷ xs) j ≡ at (x ∷ xs) j
  unfolding at
  behind_head x y xs zero ne = absurd (ne refl)
  behind_head x y xs (suc j) ne = refl

  below_head :
      (x : A) (xs ys : List A) (i : ℕ)
      → ((j : ℕ) → j ≢ i → at ys j ≡ at xs j)
      → (j : ℕ) → j ≢ suc i
      → at (x ∷ ys) j ≡ at (x ∷ xs) j
  unfolding at
  below_head x xs ys i same zero ne = refl
  below_head x xs ys i same (suc j) ne = same j λ e. ne (ap suc e)

  pub set_at-IsUpdated :
      (xs : List A) (i : ℕ) (y : A)
      → i < length xs
      → (ys : List A) × (set_at xs i y ≡ done ys) × IsUpdated xs i y ys
  unfolding set_at at
  set_at-IsUpdated [] i y h = absurd (omega arith)
  set_at-IsUpdated (x ∷ xs) zero y h =
      (y ∷ xs, refl, record { same_length = refl; there = refl; elsewhere = behind_head x y xs })
  set_at-IsUpdated (x ∷ xs) (suc i) y h =
      let (ys, e, s) = set_at-IsUpdated xs i y (omega arith) in
      (
        x ∷ ys,
        ap (λ (r : Outcome (List A)). r >>= λ zs. done (x ∷ zs)) e,
        record {
          same_length = ap suc s.same_length;
          there = s.there;
          elsewhere = below_head x xs ys i s.elsewhere;
        },
      )

-- The bytes `bs` stand at `i` and behind.
abbrev pub Holds : List ℕ → (i : ℕ) → List ℕ → Type 0
Holds xs i [] = Unit
Holds xs i (b ∷ bs) = (at xs i ≡ some b) × Holds xs (suc i) bs

pub Holds-same :
    (xs ys : List ℕ) (i : ℕ) (bs : List ℕ)
    → ((j : ℕ) → i ≤ j → j < i + length bs → at ys j ≡ at xs j)
    → Holds xs i bs
    → Holds ys i bs
Holds-same xs ys i [] same h = tt
Holds-same xs ys i (b ∷ bs) same (e, h) = (
  same i (omega arith) (omega arith) ∙ e,
  Holds-same xs ys (suc i) bs (λ j l u. same j (omega arith) (omega arith)) h,
)

-- The list with `bs` written from `i` on.
pub record IsWritten (xs : List ℕ) (i : ℕ) (bs ys : List ℕ) : Type 0 where
  pub same_length : length ys ≡ length xs
  pub written : Holds ys i bs
  pub outside : (j : ℕ) → (j < i) ⊎ (i + length bs ≤ j) → at ys j ≡ at xs j

pub set_bytes-IsWritten :
    (xs : List ℕ) (i : ℕ) (bs : List ℕ)
    → i + length bs ≤ length xs
    → (ys : List ℕ) × (set_bytes i bs xs ≡ done ys) × IsWritten xs i bs ys
unfolding set_bytes
set_bytes-IsWritten xs i [] h =
    (xs, refl, record { same_length = refl; written = tt; outside = λ j o. refl })
set_bytes-IsWritten xs i (b ∷ bs) h =
    let (ys, e, s) = set_at-IsUpdated xs i b (omega arith) in
    let l : length ys ≡ length xs = s.same_length in
    let (zs, e', w) = set_bytes-IsWritten ys (suc i) bs (omega arith) in
    (
      zs,
      ap (λ (r : Outcome (List ℕ)). r >>= set_bytes (suc i) bs) e ∙ e',
      record {
        same_length = w.same_length ∙ l;
        written = (w.outside i (inl (omega arith)) ∙ s.there, w.written);
        outside = λ j o. elim o [
          | inl b ↦ w.outside j (inl (omega arith)) ∙ s.elsewhere j (λ e. omega arith)
          | inr a ↦ w.outside j (inr (omega arith)) ∙ s.elsewhere j (λ e. omega arith)
        ];
      },
    )
