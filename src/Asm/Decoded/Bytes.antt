-- ===== src/Asm/Decoded/Bytes.antt =====
-- The two opcode bytes of fox32asm/src/main.rs as sums of the numbers of the encoding tables.
use fox.Prelude.{
  ℕ, ◌+◌, ◌*◌, ◌<◌, bit_or, Bool, true, ◌&&◌, ◌==◌, ==_iff, ◌≡◌, ◌≢◌, refl, ap, ◌∙◌, some, [], ◌∷◌,
  arith,
}
use fox.Word.Bytes.{from_le_bytes}
use fox.Word.Bits.{bit_or-zero, bit_or_comm, bit_or_disjoint}
use fox.Cpu.Decode.{Instruction, from_half, decode_opcode}
use fox.Asm.Ast.{Size, Condition}
use fox.Asm.Encode.{size_to_byte, condition_to_byte}
use fox.Asm.Meaning.{Kind, reg, reg_ptr, imm, imm_ptr, operand_of, size_of, condition_of}
use fox.Asm.Decoded.Fields.{kind_number, condition_number, size_number, from_half_of_numbers}

all_kinds : (Kind → Bool) → Bool
all_kinds p = p reg && p reg_ptr && p imm && p imm_ptr

all_kinds_sound : (p : Kind → Bool) → all_kinds p ≡ true → (k : Kind) → p k ≡ true
unfolding all_kinds
all_kinds_sound p h reg = ground arith
all_kinds_sound p h reg_ptr = ground arith
all_kinds_sound p h imm = ground arith
all_kinds_sound p h imm_ptr = ground arith

-- The bytes that the assembler computes, as sums of those numbers.
abbrev low_byte_holds : Condition → Kind → Kind → Bool
low_byte_holds c s d =
    bit_or (bit_or (condition_to_byte c) (kind_number s)) (kind_number d * 4)
    == kind_number s + kind_number d * 4 + condition_number c * 16

low_byte_table : (c : Condition) → all_kinds (λ s. all_kinds (low_byte_holds c s)) ≡ true
unfolding condition_to_byte all_kinds
low_byte_table Condition.always = refl
low_byte_table _ = refl

low_byte :
    (c : Condition) (s d : Kind)
    → bit_or (bit_or (condition_to_byte c) (kind_number s)) (kind_number d * 4)
      ≡ kind_number s + kind_number d * 4 + condition_number c * 16
low_byte c s d =
    let row = all_kinds_sound (λ s. all_kinds (low_byte_holds c s)) (low_byte_table c) s in
    (==_iff _ _).0 (all_kinds_sound (low_byte_holds c s) row d)

high_byte : (op : ℕ) (z : Size) → op < 64 → bit_or op (size_to_byte z) ≡ op + size_number z * 64
unfolding size_to_byte
high_byte op Size.byte h = omega (arith, bit_or-zero op)
high_byte op Size.half h = omega (arith, bit_or_comm op 64, bit_or_disjoint 6 1 op h)
high_byte op Size.word h = omega (arith, bit_or_comm op 128, bit_or_disjoint 6 2 op h)

two_bytes : (a b : ℕ) → from_le_bytes (a ∷ b ∷ []) ≡ a + b * 256
unfolding from_le_bytes
two_bytes a b = omega arith

-- The half that the bytes make, and what it decodes to.
pub half_decodes :
    (z : Size) (op : ℕ) (s d : Kind) (c : Condition) {i : Instruction}
    → op < 64
    → d ≢ imm
    → decode_opcode op (size_of z) (condition_of c) (operand_of z d) (operand_of z s) ≡ some i
    → from_half (
        from_le_bytes (
          bit_or (bit_or (condition_to_byte c) (kind_number s)) (kind_number d * 4)
          ∷ bit_or op (size_to_byte z)
          ∷ []))
      ≡ some i
half_decodes z op s d c ho hd e =
    rw (low_byte c s d, high_byte op z ho)
      (ap from_half (two_bytes _ _) ∙ from_half_of_numbers z op s d c ho hd ∙ e)
