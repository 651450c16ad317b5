-- ===== src/Asm/Decoded.antt =====
-- fox32asm/src/main.rs against fox32/src/cpu.rs: the two opcode bytes of a node and what the processor
-- decodes them to.
mod Fields
mod Bytes
pub mod Tables
pub mod Assembled
pub mod Fetched
use fox.Prelude.{
  ℕ, ◌+◌, ◌*◌, ◌/◌, ◌%◌, ◌^◌, ◌<◌, bit_and, bit_or, Bool, true, ◌&&◌, ◌==◌, ==_iff, ◌⊎◌, inl, inr,
  ◌≡◌, ◌≢◌, refl, ap, ◌∙◌, Option, none, some, [], ◌∷◌, length, arith,
}
use fox.Outcome.{Outcome, done, panic, ◌>>=◌, bad_node}
use fox.Word.{u8}
use fox.Word.Bytes.{from_le_bytes}
use fox.Word.Bits.{bit_and_mask, bit_and_shifted, bit_or-zero, bit_or_comm, bit_or_disjoint}
use fox.Cpu.State as State
use fox.Cpu.Decode as Decode
use fox.Cpu.Decode.{
  Instruction, from_half, decode_size, decode_source, decode_destination, decode_condition,
  decode_opcode, decode_fields,
}
use fox.Asm.Ast.{InstructionZero, InstructionOne, InstructionTwo, Size, Condition, AstNode}
use fox.Asm.Encode.{
  instruction_to_byte, condition_source_destination_to_byte, size_to_byte, zero_opcode, one_opcode,
  two_opcode, source_to_byte, destination_to_byte, condition_to_byte,
}
use fox.Asm.Meaning.{
  Kind, reg, reg_ptr, imm, imm_ptr, operand_of, size_of, condition_of, meaning, zero_meaning,
  one_meaning, two_meaning, source_kind, destination_kind,
}
use Fields.{kind_number}
use Bytes.{half_decodes}
use Tables.{
  two_opcode_lem, one_opcode_lem, zero_opcode_lem, source_to_byte_lem, destination_to_byte_lem,
}

-- The two opcode bytes of a node, which the processor reads as a half with the first one low, and the
-- instruction that it decodes that half to.
abbrev pub DecodesTo : Instruction → AstNode → Type 0
DecodesTo i node =
    (first second : ℕ) × (condition_source_destination_to_byte node ≡ done first)
    × (instruction_to_byte node ≡ done second)
    × (from_half (from_le_bytes (first ∷ second ∷ [])) ≡ some i)

pub two_decodes :
    (z : Size) (c : Condition) (i : InstructionTwo) (lhs rhs : AstNode) (d s : Kind)
    → d ≢ imm
    → destination_to_byte lhs ≡ done (kind_number d * 4)
    → source_to_byte rhs ≡ done (kind_number s)
    → DecodesTo
        (two_meaning i (size_of z) (condition_of c) (operand_of z d) (operand_of z s))
        (AstNode.operation_two z c i lhs rhs)
two_decodes z c i lhs rhs d s hd ed es =
    let (ho, e) = two_opcode_lem i (size_of z) (condition_of c) (operand_of z d) (operand_of z s) in
    (
      bit_or (bit_or (condition_to_byte c) (kind_number s)) (kind_number d * 4),
      bit_or (two_opcode i) (size_to_byte z),
      (unfold condition_source_destination_to_byte in rw (ed, es) refl),
      (unfold instruction_to_byte in refl),
      half_decodes z (two_opcode i) s d c ho hd e,
    )

pub one_decodes :
    (z : Size) (c : Condition) (i : InstructionOne) (operand : AstNode) (s : Kind)
    → source_to_byte operand ≡ done (kind_number s)
    → DecodesTo
        (one_meaning i (size_of z) (condition_of c) (operand_of z s))
        (AstNode.operation_one z c i operand)
one_decodes z c i operand s es =
    let (ho, e) =
      one_opcode_lem i (size_of z) (condition_of c) (operand_of z reg) (operand_of z s) in
    (
      bit_or (bit_or (condition_to_byte c) (kind_number s)) 0,
      bit_or (one_opcode i) (size_to_byte z),
      (unfold condition_source_destination_to_byte in rw es refl),
      (unfold instruction_to_byte in refl),
      half_decodes z (one_opcode i) s reg c ho (cc) e,
    )

pub zero_decodes :
    (c : Condition) (i : InstructionZero)
    → DecodesTo (zero_meaning i (condition_of c)) (AstNode.operation_zero c i)
zero_decodes c i =
    let (ho, e) =
      zero_opcode_lem i (size_of Size.word) (condition_of c) (operand_of Size.word reg)
        (operand_of Size.word reg) in
    (
      bit_or (bit_or (condition_to_byte c) 0) 0,
      bit_or (zero_opcode i) (size_to_byte Size.word),
      (unfold condition_source_destination_to_byte in refl),
      (unfold instruction_to_byte in refl),
      half_decodes Size.word (zero_opcode i) reg reg c ho (cc) e,
    )
