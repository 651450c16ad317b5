-- ===== src/Word/Bits/Step.antt =====
-- One binary digit of `&`, `|` and `^`. The native operations stand for `bitwise`, a recursion on
-- digits with fuel; the equations here have none.
use Prim.Native.Nat.{
  min, max, differ, digits, bitwise, bit_and-bitwise, bit_or-bitwise, bit_xor-bitwise,
}
use fox.Prelude.{ℕ, zero, suc, ◌+◌, ◌*◌, ◌/◌, ◌%◌, ◌≤◌, bit_and, bit_or, bit_xor, ◌≡◌, refl, arith}

module _ (rest : ℕ → ℕ) (digit : ℕ → ℕ → ℕ) where
  -- Fuel beyond the first number changes nothing.
  enough_fuel : (x y i j : ℕ) → x ≤ i → x ≤ j → digits rest digit i x y ≡ digits rest digit j x y
  enough_fuel zero y zero zero li lj = refl
  enough_fuel zero y zero (suc j) li lj = refl
  enough_fuel zero y (suc i) zero li lj = refl
  enough_fuel zero y (suc i) (suc j) li lj = refl
  enough_fuel (suc x) y zero j li lj = absurd (omega arith)
  enough_fuel (suc x) y (suc i) zero li lj = absurd (omega arith)
  enough_fuel (suc x) y (suc i) (suc j) li lj =
      let less = enough_fuel (suc x / 2) (y / 2) i j (omega arith) (omega arith) in rw less

  one_digit :
      (x y : ℕ)
      → bitwise rest digit (suc x) y
        ≡ bitwise rest digit (suc x / 2) (y / 2) * 2 + digit (suc x % 2) (y % 2)
  one_digit x y =
      let same = enough_fuel (suc x / 2) (y / 2) x (suc x / 2) (omega arith) (omega arith) in
      rw same

pub bit_and_step : (x y : ℕ) → bit_and x y ≡ bit_and (x / 2) (y / 2) * 2 + min (x % 2) (y % 2)
bit_and_step zero y = simp bit_and-bitwise (omega arith)
bit_and_step (suc x) y = simp bit_and-bitwise (one_digit (λ t. zero) min x y)

pub bit_or_step : (x y : ℕ) → bit_or x y ≡ bit_or (x / 2) (y / 2) * 2 + max (x % 2) (y % 2)
bit_or_step zero y = simp bit_or-bitwise (omega arith)
bit_or_step (suc x) y = simp bit_or-bitwise (one_digit (λ t. t) max x y)

differ_zero : (y : ℕ) → y ≡ y / 2 * 2 + differ 0 (y % 2)
differ_zero y = omega arith

pub bit_xor_step : (x y : ℕ) → bit_xor x y ≡ bit_xor (x / 2) (y / 2) * 2 + differ (x % 2) (y % 2)
bit_xor_step zero y = simp bit_xor-bitwise (differ_zero y)
bit_xor_step (suc x) y = simp bit_xor-bitwise (one_digit (λ t. t) differ x y)

differ_cases : (a b : ℕ) → a ≤ 1 → b ≤ 1 → differ a b ≤ 1
differ_cases zero b h k = k
differ_cases (suc zero) zero h k = h
differ_cases (suc zero) (suc b) h k = omega arith
differ_cases (suc (suc a)) b h k = absurd (omega arith)

pub differ-le-one : (a b : ℕ) → differ (a % 2) (b % 2) ≤ 1
differ-le-one a b = differ_cases (a % 2) (b % 2) (omega arith) (omega arith)
