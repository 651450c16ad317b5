-- ===== src/Word.antt =====
-- The unsigned integers of Rust as native numbers: the casts, the `overflowing_*` operations, the
-- operators whose overflow checks depend on the build, and little-endian bytes. A `usize` has 64 bits.
pub mod Bits
pub mod Bytes
pub mod Rotate
use fox.Prelude.{
  ℕ, ◌+◌, ◌-◌, ◌*◌, ◌/◌, ◌%◌, ◌^◌, ◌<◌, bit_and, Bool, not, ltb, leb, ◌==◌, if◌then◌else◌,
}
use fox.Outcome.{Outcome, done, panic, arithmetic_overflow, divide_by_zero}

abbrev pub u8 : ℕ → ℕ
u8 n = n % 2 ^ 8

abbrev pub u16 : ℕ → ℕ
u16 n = n % 2 ^ 16

abbrev pub u32 : ℕ → ℕ
u32 n = n % 2 ^ 32

abbrev pub IsU8 : ℕ → Type 0
IsU8 n = n < 2 ^ 8

abbrev pub IsU32 : ℕ → Type 0
IsU32 n = n < 2 ^ 32

-- `a.overflowing_add(b)` and the like at `w` bits: the wrapped result, and whether it wrapped.
abbrev pub overflowing_add : ℕ → ℕ → ℕ → ℕ × Bool
overflowing_add w a b = ((a + b) % 2 ^ w, leb (2 ^ w) (a + b))

abbrev pub overflowing_sub : ℕ → ℕ → ℕ → ℕ × Bool
overflowing_sub w a b = ((a + 2 ^ w - b) % 2 ^ w, ltb a b)

abbrev pub overflowing_mul : ℕ → ℕ → ℕ → ℕ × Bool
overflowing_mul w a b = (a * b % 2 ^ w, leb (2 ^ w) (a * b))

-- `a / b` and `a % b`, in every build.
abbrev pub div : ℕ → ℕ → Outcome ℕ
div a b = if b == 0 then panic divide_by_zero else done (a / b)

abbrev pub rem : ℕ → ℕ → Outcome ℕ
rem a b = if b == 0 then panic divide_by_zero else done (a % b)

-- `a + b` on `u32`: a panic under overflow checks, the wrapped sum without.
abbrev pub add_u32 : (checks : Bool) → ℕ → ℕ → Outcome ℕ
add_u32 checks a b =
    if ltb (a + b) (2 ^ 32)
    then done (a + b)
    else if checks
    then panic arithmetic_overflow
    else done ((a + b) % 2 ^ 32)

-- The amount by which `<<` and `>>` shift a word of `w` bits: a panic under overflow checks if it
-- is not below `w`, else its low bits.
abbrev pub shift_amount : (checks : Bool) → ℕ → ℕ → Outcome ℕ
shift_amount checks w n =
    if ltb n w then done n else if checks then panic arithmetic_overflow else done (n % w)

abbrev pub shl : ℕ → ℕ → ℕ → ℕ
shl w a n = a * 2 ^ n % 2 ^ w

abbrev pub shr : ℕ → ℕ → ℕ
shr a n = a / 2 ^ n

-- `a.rotate_left(n)`: the bits that leave at the top enter at the bottom.
abbrev pub rotate_left : ℕ → ℕ → ℕ → ℕ
rotate_left w a n = a * 2 ^ (n % w) % 2 ^ w + a / 2 ^ (w - n % w)

abbrev pub rotate_right : ℕ → ℕ → ℕ → ℕ
rotate_right w a n = a / 2 ^ (n % w) + a * 2 ^ (w - n % w) % 2 ^ w

-- `!a` at `w` bits.
abbrev pub complement : ℕ → ℕ → ℕ
complement w a = 2 ^ w - 1 - a

-- `a & (1 << k) != 0`
abbrev pub has_bit : ℕ → ℕ → Bool
has_bit a k = not (bit_and a (2 ^ k) == 0)
