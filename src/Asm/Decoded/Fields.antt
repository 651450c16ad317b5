-- ===== src/Asm/Decoded/Fields.antt =====
-- The fields of an opcode half of fox32/src/cpu.rs, put together from the numbers of the encoding
-- tables, are what `from_half` takes out.
use fox.Prelude.{ℕ, ◌+◌, ◌*◌, ◌/◌, ◌^◌, ◌<◌, bit_and, ◌≡◌, ◌≢◌, refl, ◌∙◌, some, arith}
use fox.Word.{u8}
use fox.Word.Bits.{bit_and_mask, bit_and_shifted}
use fox.Cpu.Decode.{
  from_half, decode_size, decode_source, decode_destination, decode_condition, decode_opcode,
  decode_fields,
}
use fox.Asm.Ast.{Size, Condition}
use fox.Asm.Meaning.{Kind, reg, reg_ptr, imm, imm_ptr, operand_of, size_of, condition_of}

abbrev pub half_of : (s d c op z : ℕ) → ℕ
half_of s d c op z = s + d * 4 + c * 16 + (op + z * 64) * 256

module _ (s d c op z : ℕ) (hs : s < 4) (hd : d < 4) (hc : c < 8) (ho : op < 64) (hz : z < 4) where
  abbrev half : ℕ
  half = half_of s d c op z

  size_bits : bit_and (u8 (half / 2 ^ 14)) 0b11 ≡ z
  size_bits = omega (arith, bit_and_mask 2 (u8 (half / 2 ^ 14)))

  opcode_bits : bit_and (u8 (half / 2 ^ 8)) 0b111111 ≡ op
  opcode_bits = omega (arith, bit_and_mask 6 (u8 (half / 2 ^ 8)))

  source_bits : bit_and (u8 (bit_and half 0x000F)) 0b11 ≡ s
  source_bits = omega (arith, bit_and_mask 2 (u8 (bit_and half 0x000F)), bit_and_mask 4 half)

  destination_bits : bit_and (u8 (bit_and half 0x000F / 2 ^ 2)) 0b11 ≡ d
  destination_bits =
      omega (arith, bit_and_mask 2 (u8 (bit_and half 0x000F / 2 ^ 2)), bit_and_mask 4 half)

  condition_bits : u8 (bit_and half 0x00F0) ≡ c * 16
  condition_bits = omega (arith, bit_and_shifted 4 half 15, bit_and_mask 4 (half / 2 ^ 4))

  from_half-half_of : from_half half ≡ decode_fields z op s d (c * 16)
  from_half-half_of =
      unfold from_half in rw (size_bits, opcode_bits, source_bits, destination_bits, condition_bits)

-- The numbers of the encoding tables.
abbrev pub kind_number : Kind → ℕ
kind_number reg = 0
kind_number reg_ptr = 1
kind_number imm = 2
kind_number imm_ptr = 3

abbrev pub condition_number : Condition → ℕ
condition_number Condition.always = 0
condition_number Condition.zero = 1
condition_number Condition.not_zero = 2
condition_number Condition.carry = 3
condition_number Condition.not_carry = 4
condition_number Condition.greater_than = 5
condition_number Condition.less_than_equal_to = 6

abbrev pub size_number : Size → ℕ
size_number Size.byte = 0
size_number Size.half = 1
size_number Size.word = 2

decode_size_lem : (z : Size) → decode_size (size_number z) ≡ some (size_of z)
unfolding decode_size
decode_size_lem Size.byte = refl
decode_size_lem _ = refl

decode_source_lem :
    (z : Size) (k : Kind) → decode_source (size_of z) (kind_number k) ≡ some (operand_of z k)
unfolding decode_source
decode_source_lem Size.byte reg = refl
decode_source_lem Size.half reg = refl
decode_source_lem Size.word reg = refl
decode_source_lem _ _ = refl

decode_destination_lem :
    (z : Size) (k : Kind)
    → k ≢ imm
    → decode_destination (size_of z) (kind_number k) ≡ some (operand_of z k)
unfolding decode_destination
decode_destination_lem z imm h = absurd (h refl)
decode_destination_lem Size.byte reg h = refl
decode_destination_lem Size.half reg h = refl
decode_destination_lem Size.word reg h = refl
decode_destination_lem _ _ h = refl

decode_condition_lem :
    (c : Condition) → decode_condition (condition_number c * 16) ≡ some (condition_of c)
unfolding decode_condition
decode_condition_lem Condition.always = refl
decode_condition_lem _ = refl

decode_fields_lem :
    (z : Size) (op : ℕ) (s d : Kind) (c : Condition)
    → d ≢ imm
    → decode_fields (size_number z) op (kind_number s) (kind_number d) (condition_number c * 16)
      ≡ decode_opcode op (size_of z) (condition_of c) (operand_of z d) (operand_of z s)
decode_fields_lem z op s d c h =
    unfold decode_fields in
    simp (
      decode_size_lem z,
      decode_source_lem z s,
      decode_destination_lem z d h,
      decode_condition_lem c,
    )

kind_number-lt : (k : Kind) → kind_number k < 4
kind_number-lt reg = omega arith
kind_number-lt _ = omega arith

condition_number-lt : (c : Condition) → condition_number c < 8
condition_number-lt Condition.always = omega arith
condition_number-lt _ = omega arith

size_number-lt : (z : Size) → size_number z < 4
size_number-lt Size.byte = omega arith
size_number-lt _ = omega arith

-- A half put together from the numbers of the tables decodes field by field.
pub from_half_of_numbers :
    (z : Size) (op : ℕ) (s d : Kind) (c : Condition)
    → op < 64
    → d ≢ imm
    → from_half (half_of (kind_number s) (kind_number d) (condition_number c) op (size_number z))
      ≡ decode_opcode op (size_of z) (condition_of c) (operand_of z d) (operand_of z s)
from_half_of_numbers z op s d c ho h =
    from_half-half_of (kind_number s) (kind_number d) (condition_number c) op (size_number z)
      (kind_number-lt s) (kind_number-lt d) (condition_number-lt c) ho (size_number-lt z)
    ∙ decode_fields_lem z op s d c h
