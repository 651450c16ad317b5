-- ===== src/Asm/Decoded/Tables.antt =====
-- The opcode and operand tables of fox32asm/src/main.rs against those of fox32/src/cpu.rs.
use fox.Prelude.{◌*◌, ◌<◌, ◌⊎◌, inl, inr, ◌≡◌, ◌≢◌, refl, none, some, arith}
use fox.Outcome.{done, panic, bad_node}
use fox.Cpu.State as State
use fox.Cpu.Decode as Decode
use fox.Cpu.Decode.{
  Instruction, from_half, decode_size, decode_source, decode_destination, decode_condition,
  decode_opcode, decode_fields,
}
use fox.Asm.Ast.{InstructionZero, InstructionOne, InstructionTwo, AstNode}
use fox.Asm.Encode.{zero_opcode, one_opcode, two_opcode, source_to_byte, destination_to_byte}
use fox.Asm.Meaning.{
  Kind, reg, reg_ptr, imm, imm_ptr, zero_meaning, one_meaning, two_meaning, source_kind,
  destination_kind,
}
use fox.Asm.Decoded.Fields.{kind_number}

pub two_opcode_lem :
    (i : InstructionTwo) (z : Decode.Size) (c : State.Condition) (d s : Decode.Operand)
    → (two_opcode i < 64) × (decode_opcode (two_opcode i) z c d s ≡ some (two_meaning i z c d s))
unfolding two_opcode decode_opcode
two_opcode_lem InstructionTwo.add z c d s = (omega arith, refl)
two_opcode_lem _ z c d s = (omega arith, refl)

pub one_opcode_lem :
    (i : InstructionOne) (z : Decode.Size) (c : State.Condition) (d s : Decode.Operand)
    → (one_opcode i < 64) × (decode_opcode (one_opcode i) z c d s ≡ some (one_meaning i z c s))
unfolding one_opcode decode_opcode
one_opcode_lem InstructionOne.inc z c d s = (omega arith, refl)
one_opcode_lem _ z c d s = (omega arith, refl)

pub zero_opcode_lem :
    (i : InstructionZero) (z : Decode.Size) (c : State.Condition) (d s : Decode.Operand)
    → (zero_opcode i < 64) × (decode_opcode (zero_opcode i) z c d s ≡ some (zero_meaning i c))
unfolding zero_opcode decode_opcode
zero_opcode_lem InstructionZero.nop z c d s = (omega arith, refl)
zero_opcode_lem _ z c d s = (omega arith, refl)

pub source_to_byte_lem :
    (node : AstNode)
    → ((k : Kind) × (source_kind node ≡ some k) × (source_to_byte node ≡ done (kind_number k)))
      ⊎ ((source_kind node ≡ none) × (source_to_byte node ≡ panic bad_node))
unfolding source_to_byte
source_to_byte_lem (AstNode.register r) = inl (reg, refl, refl)
source_to_byte_lem (AstNode.register_pointer r) = inl (reg_ptr, refl, refl)
source_to_byte_lem (AstNode.immediate8 v) = inl (imm, refl, refl)
source_to_byte_lem (AstNode.immediate16 v) = inl (imm, refl, refl)
source_to_byte_lem (AstNode.immediate32 v) = inl (imm, refl, refl)
source_to_byte_lem (AstNode.label_operand name size r) = inl (imm, refl, refl)
source_to_byte_lem (AstNode.immediate_pointer p) = inl (imm_ptr, refl, refl)
source_to_byte_lem (AstNode.label_operand_pointer name r) = inl (imm_ptr, refl, refl)
source_to_byte_lem _ = inr (refl, refl)

pub destination_to_byte_lem :
    (node : AstNode)
    → ((k : Kind) × (destination_kind node ≡ some k)
        × (k ≢ imm)
        × (destination_to_byte node ≡ done (kind_number k * 4)))
      ⊎ ((destination_kind node ≡ none) × (destination_to_byte node ≡ panic bad_node))
unfolding destination_to_byte
destination_to_byte_lem (AstNode.register r) = inl (reg, refl, cc, refl)
destination_to_byte_lem (AstNode.register_pointer r) = inl (reg_ptr, refl, cc, refl)
destination_to_byte_lem (AstNode.immediate_pointer p) = inl (imm_ptr, refl, cc, refl)
destination_to_byte_lem (AstNode.label_operand_pointer name r) = inl (imm_ptr, refl, cc, refl)
destination_to_byte_lem _ = inr (refl, refl)
