-- ===== src/Word/Bits.antt =====
-- `&`, `|` and `^` at variables: on words in range, with the masks and the shifted bits that the
-- program writes, and bit by bit.
mod Step
use Prim.Native.Nat.{min, max}
use native.Mathlib.Nat.{
  pow-suc, one-le-pow, div-div-eq-div-mul, mod-eq-sub-div-mul, div-mul-le_self,
}
use fox.Prelude.{
  ℕ, zero, suc, ◌+◌, ◌-◌, ◌*◌, ◌/◌, ◌%◌, ◌^◌, ◌<◌, bit_and, bit_or, bit_xor, ◌≡◌, refl, ap, arith,
}
use Step.{bit_and_step, bit_or_step, bit_xor_step, differ-le-one}

bit_and-zero_fuel : (n a : ℕ) → a < n → bit_and a 0 ≡ 0
bit_and-zero_fuel zero a h = absurd (omega arith)
bit_and-zero_fuel (suc n) zero h = omega (arith, bit_and_step 0 0)
bit_and-zero_fuel (suc n) (suc a) h =
    omega (arith, bit_and_step (suc a) 0, bit_and-zero_fuel n (suc a / 2) (omega arith))

pub bit_and-zero : (a : ℕ) → bit_and a 0 ≡ 0
bit_and-zero a = bit_and-zero_fuel (suc a) a (omega arith)

bit_or-zero_fuel : (n a : ℕ) → a < n → bit_or a 0 ≡ a
bit_or-zero_fuel zero a h = absurd (omega arith)
bit_or-zero_fuel (suc n) zero h = omega (arith, bit_or_step 0 0)
bit_or-zero_fuel (suc n) (suc a) h =
    omega (arith, bit_or_step (suc a) 0, bit_or-zero_fuel n (suc a / 2) (omega arith))

pub bit_or-zero : (a : ℕ) → bit_or a 0 ≡ a
bit_or-zero a = bit_or-zero_fuel (suc a) a (omega arith)

bit_or_comm_fuel : (n a b : ℕ) → a + b < n → bit_or a b ≡ bit_or b a
bit_or_comm_fuel zero a b h = absurd (omega arith)
bit_or_comm_fuel (suc n) zero zero h = refl
bit_or_comm_fuel (suc n) zero (suc b) h = omega (
  arith,
  bit_or_step 0 (suc b),
  bit_or_step (suc b) 0,
  bit_or_comm_fuel n 0 (suc b / 2) (omega arith),
)
bit_or_comm_fuel (suc n) (suc a) b h = omega (
  arith,
  bit_or_step (suc a) b,
  bit_or_step b (suc a),
  bit_or_comm_fuel n (suc a / 2) (b / 2) (omega arith),
)

pub bit_or_comm : (a b : ℕ) → bit_or a b ≡ bit_or b a
bit_or_comm a b = bit_or_comm_fuel (a + b + 1) a b (omega arith)

pub bit_and-lt : (w a b : ℕ) → a < 2 ^ w → b < 2 ^ w → bit_and a b < 2 ^ w
bit_and-lt zero zero zero h k = omega (arith, bit_and-zero 0)
bit_and-lt zero zero (suc b) h k = absurd (omega arith)
bit_and-lt zero (suc a) b h k = absurd (omega arith)
bit_and-lt (suc w) a b h k =
    let half =
      bit_and-lt w (a / 2) (b / 2) (omega (arith, pow-suc 2 w)) (omega (arith, pow-suc 2 w)) in
    omega (arith, pow-suc 2 w, bit_and_step a b, half)

pub bit_or-lt : (w a b : ℕ) → a < 2 ^ w → b < 2 ^ w → bit_or a b < 2 ^ w
bit_or-lt zero zero zero h k = omega (arith, bit_or-zero 0)
bit_or-lt zero zero (suc b) h k = absurd (omega arith)
bit_or-lt zero (suc a) b h k = absurd (omega arith)
bit_or-lt (suc w) a b h k =
    let half =
      bit_or-lt w (a / 2) (b / 2) (omega (arith, pow-suc 2 w)) (omega (arith, pow-suc 2 w)) in
    omega (arith, pow-suc 2 w, bit_or_step a b, half)

pub bit_xor-lt : (w a b : ℕ) → a < 2 ^ w → b < 2 ^ w → bit_xor a b < 2 ^ w
bit_xor-lt zero zero zero h k = omega arith
bit_xor-lt zero zero (suc b) h k = absurd (omega arith)
bit_xor-lt zero (suc a) b h k = absurd (omega arith)
bit_xor-lt (suc w) a b h k =
    let half =
      bit_xor-lt w (a / 2) (b / 2) (omega (arith, pow-suc 2 w)) (omega (arith, pow-suc 2 w)) in
    omega (arith, pow-suc 2 w, bit_xor_step a b, differ-le-one a b, half)

halve_shifted : (k m : ℕ) → m * 2 ^ suc k ≡ 2 * (m * 2 ^ k)
halve_shifted k m = omega (arith, ap (λ (t : ℕ). m * t) (pow-suc 2 k))

halve_quotient : (k a : ℕ) → a / 2 / 2 ^ k ≡ a / 2 ^ suc k
halve_quotient k a = rw (div-div-eq-div-mul, pow-suc) (ap (λ (t : ℕ). a / t) (omega arith))

halve_remainder : (k a : ℕ) → a % 2 ^ suc k ≡ a / 2 % 2 ^ k * 2 + a % 2
halve_remainder k a = omega (
  arith,
  mod-eq-sub-div-mul a (2 ^ suc k),
  mod-eq-sub-div-mul (a / 2) (2 ^ k),
  div-mul-le_self (a / 2) (2 ^ k),
  halve_quotient k a,
  halve_shifted k (a / 2 / 2 ^ k),
  ap (λ (t : ℕ). t * 2 ^ suc k) (halve_quotient k a),
)

-- `a & (m << k)` keeps the bits of `m` above the lowest `k`.
pub bit_and_shifted : (k a m : ℕ) → bit_and a (m * 2 ^ k) ≡ bit_and (a / 2 ^ k) m * 2 ^ k
bit_and_shifted zero a m =
    let m_one : m * 1 ≡ m = omega arith in
    let a_one : a / 1 ≡ a = omega arith in rw (m_one, a_one) (omega arith)
bit_and_shifted (suc k) a m = ground (
  arith,
  bit_and_step a (m * 2 ^ suc k),
  halve_shifted k m,
  halve_shifted k (bit_and (a / 2 ^ suc k) m),
  halve_quotient k a,
  bit_and_shifted k (a / 2) m,
)

-- `(q << k) | r` is a sum where `r` has `k` bits.
pub bit_or_disjoint : (k q r : ℕ) → r < 2 ^ k → bit_or (q * 2 ^ k) r ≡ q * 2 ^ k + r
bit_or_disjoint zero q r h = ground (arith, bit_or-zero q)
bit_or_disjoint (suc k) q r h = ground (
  arith,
  pow-suc 2 k,
  bit_or_step (q * 2 ^ suc k) r,
  halve_shifted k q,
  bit_or_disjoint k q (r / 2) (omega (arith, pow-suc 2 k)),
)

-- A mask of the `k` lowest bits is the remainder.
pub bit_and_mask : (k a : ℕ) → bit_and a (2 ^ k - 1) ≡ a % 2 ^ k
bit_and_mask zero a = ground (arith, bit_and-zero a)
bit_and_mask (suc k) a = ground (
  arith,
  one-le-pow k 2,
  pow-suc 2 k,
  bit_and_step a (2 ^ suc k - 1),
  halve_remainder k a,
  bit_and_mask k (a / 2),
)
