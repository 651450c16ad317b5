-- ===== src/Word/Rotate.antt =====
-- The bounds of shifted and rotated words.
use native.Mathlib.Nat.{
  two-pow-succ, pow-le-pow_right, one-le-pow, div-le_self, div-lt_iff_lt-mul, mod-lt, mod-eq_of_lt,
  div-add-mod, mul-add-mod_self_left, mul-le-mul_right, mul-lt-mul_of_pos_left,
}
use fox.Prelude.{ℕ, zero, suc, ◌+◌, ◌-◌, ◌*◌, ◌/◌, ◌%◌, ◌^◌, ◌<◌, ◌≤◌, ◌≡◌, ap, ◌∙◌, arith}
use fox.Word.{rotate_left, rotate_right, shr}

pub shr-lt : (w a n : ℕ) → a < 2 ^ w → shr a n < 2 ^ w
shr-lt w a n h = omega (arith, div-le_self a (2 ^ n))

pub power-lt : (w n : ℕ) → n < w → 2 ^ n < 2 ^ w
power-lt w n h =
    omega (
      arith,
      two-pow-succ n,
      one-le-pow n 2 (omega arith),
      pow-le-pow_right {n = 2} (omega arith) h,
    )

pow_sum : (j k : ℕ) → 2 ^ j * 2 ^ k ≡ 2 ^ (j + k)
pow_sum zero k = let z : 0 + k ≡ k = omega arith in rw z (omega arith)
pow_sum (suc j) k =
    let e : suc j + k ≡ suc (j + k) = omega arith in
    rw (e, two-pow-succ j, two-pow-succ (j + k)) (omega (arith, pow_sum j k))

powers : (w k : ℕ) → k < w → 2 ^ k * 2 ^ (w - k) ≡ 2 ^ w
powers w k h = pow_sum k (w - k) ∙ ap (λ (t : ℕ). 2 ^ t) (omega arith)

-- The low part moves up and the high part down: they do not meet.
turned-lt : (A B a : ℕ) → 0 < A → 0 < B → a < A * B → (a * A) % (A * B) + a / B < A * B
turned-lt A B a hA hB h =
    let q : ℕ = a / B in
    let r : ℕ = a % B in
    let hr : r < B = mod-lt a hB in
    let hq : q < A = (div-lt_iff_lt-mul hB).1 h in
    let split : B * q + r ≡ a = div-add-mod a B in
    let fits : suc r * A ≤ B * A = mul-le-mul_right A hr in
    let low : (a * A) % (A * B) ≡ A * r =
      ap (λ (t : ℕ). t % (A * B)) (omega (arith, ap (λ (t : ℕ). t * A) split))
      ∙ mul-add-mod_self_left (A * B) q (A * r)
      ∙ mod-eq_of_lt (mul-lt-mul_of_pos_left hr hA) in
    omega (arith, low, hq, fits)

pub rotate_left-lt : (w a n : ℕ) → 0 < w → a < 2 ^ w → rotate_left w a n < 2 ^ w
rotate_left-lt w a n hw h =
    let e : 2 ^ (n % w) * 2 ^ (w - n % w) ≡ 2 ^ w = powers w (n % w) (mod-lt n hw) in
    rw e at (
      turned-lt (2 ^ (n % w)) (2 ^ (w - n % w)) a (one-le-pow (n % w) 2 (omega arith))
        (one-le-pow (w - n % w) 2 (omega arith)) (rw e h))

pub rotate_right-lt : (w a n : ℕ) → 0 < w → a < 2 ^ w → rotate_right w a n < 2 ^ w
rotate_right-lt w a n hw h =
    let e : 2 ^ (w - n % w) * 2 ^ (n % w) ≡ 2 ^ w = omega (arith, powers w (n % w) (mod-lt n hw)) in
    omega (
      arith,
      rw e at (
          turned-lt (2 ^ (w - n % w)) (2 ^ (n % w)) a (one-le-pow (w - n % w) 2 (omega arith))
            (one-le-pow (n % w) 2 (omega arith)) (rw e h)),
    )
