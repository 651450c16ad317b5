-- ===== src/Asm/Encode.antt =====
-- fox32asm/src/main.rs: `assemble_node`, from a node to the bytes of one instruction and the places
-- in them where a label's address is to be written.
use Prim.Native.String.{String}
use Prim.Native.Char.{code}
use fox.Prelude.{
  ℕ, ◌+◌, ◌/◌, ◌%◌, ◌^◌, bit_or, ltb, Bool, List, [], ◌∷◌, ◌++◌, length, if◌then◌else◌,
}
use fox.Outcome.{Outcome, done, panic, ◌>>=◌, bad_node}
use fox.Word.Bytes.{to_le_bytes}
use text.Mathlib.Text.{◌==◌}
use fox.Asm.Ast.{InstructionZero, InstructionOne, InstructionTwo, Size, Condition, AstNode}

-- A place for an address in the instruction `instruction`, by its number in the output. The source
-- shares the instruction's bytes with the output through an `Rc`; a number stands for that.
pub record BackpatchTarget : Type 0 where
  pub index : ℕ
  pub size : Size
  pub is_relative : Bool
  pub instruction : ℕ

-- `LABEL_TARGETS`, by the label's name.
abbrev pub LabelTargets : Type 0
LabelTargets = List (String × List BackpatchTarget)

unfoldable pub size_to_byte : Size → ℕ
size_to_byte Size.byte = 0b00000000
size_to_byte Size.half = 0b01000000
size_to_byte Size.word = 0b10000000

unfoldable pub zero_opcode : InstructionZero → ℕ
zero_opcode InstructionZero.nop = 0x00
zero_opcode InstructionZero.halt = 0x10
zero_opcode InstructionZero.brk = 0x20
zero_opcode InstructionZero.ret = 0x2A
zero_opcode InstructionZero.reti = 0x3A
zero_opcode InstructionZero.ise = 0x0C
zero_opcode InstructionZero.icl = 0x1C

unfoldable pub one_opcode : InstructionOne → ℕ
one_opcode InstructionOne.inc = 0x11
one_opcode InstructionOne.dec = 0x31
one_opcode InstructionOne.not = 0x33
one_opcode InstructionOne.jmp = 0x08
one_opcode InstructionOne.call = 0x18
one_opcode InstructionOne.loop = 0x28
one_opcode InstructionOne.rjmp = 0x09
one_opcode InstructionOne.rcall = 0x19
one_opcode InstructionOne.rloop = 0x29
one_opcode InstructionOne.push = 0x0A
one_opcode InstructionOne.pop = 0x1A

unfoldable pub two_opcode : InstructionTwo → ℕ
two_opcode InstructionTwo.add = 0x01
two_opcode InstructionTwo.sub = 0x21
two_opcode InstructionTwo.mul = 0x02
two_opcode InstructionTwo.div = 0x22
two_opcode InstructionTwo.rem = 0x32
two_opcode InstructionTwo.and = 0x03
two_opcode InstructionTwo.or = 0x13
two_opcode InstructionTwo.xor = 0x23
two_opcode InstructionTwo.sla = 0x04
two_opcode InstructionTwo.sra = 0x05
two_opcode InstructionTwo.srl = 0x15
two_opcode InstructionTwo.rol = 0x24
two_opcode InstructionTwo.ror = 0x25
two_opcode InstructionTwo.bse = 0x06
two_opcode InstructionTwo.bcl = 0x16
two_opcode InstructionTwo.bts = 0x26
two_opcode InstructionTwo.cmp = 0x07
two_opcode InstructionTwo.mov = 0x17
two_opcode InstructionTwo.movz = 0x27
two_opcode InstructionTwo.rta = 0x39
two_opcode InstructionTwo.«in» = 0x0B
two_opcode InstructionTwo.out = 0x1B

unfoldable pub instruction_to_byte : AstNode → Outcome ℕ
unfolding size_to_byte zero_opcode one_opcode two_opcode
instruction_to_byte (AstNode.operation_zero c i) =
    done (bit_or (zero_opcode i) (size_to_byte Size.word))
instruction_to_byte (AstNode.operation_one size c i operand) =
    done (bit_or (one_opcode i) (size_to_byte size))
instruction_to_byte (AstNode.operation_two size c i lhs rhs) =
    done (bit_or (two_opcode i) (size_to_byte size))
instruction_to_byte _ = panic bad_node

unfoldable pub source_to_byte : AstNode → Outcome ℕ
source_to_byte (AstNode.register r) = done 0x00
source_to_byte (AstNode.register_pointer r) = done 0x01
source_to_byte (AstNode.immediate8 v) = done 0x02
source_to_byte (AstNode.immediate16 v) = done 0x02
source_to_byte (AstNode.immediate32 v) = done 0x02
source_to_byte (AstNode.label_operand name size r) = done 0x02
source_to_byte (AstNode.immediate_pointer p) = done 0x03
source_to_byte (AstNode.label_operand_pointer name r) = done 0x03
source_to_byte _ = panic bad_node

unfoldable pub destination_to_byte : AstNode → Outcome ℕ
destination_to_byte (AstNode.register r) = done 0x00
destination_to_byte (AstNode.register_pointer r) = done 0x04
destination_to_byte (AstNode.immediate_pointer p) = done 0x0C
destination_to_byte (AstNode.label_operand_pointer name r) = done 0x0C
destination_to_byte _ = panic bad_node

unfoldable pub condition_to_byte : Condition → ℕ
condition_to_byte Condition.always = 0x00
condition_to_byte Condition.zero = 0x10
condition_to_byte Condition.not_zero = 0x20
condition_to_byte Condition.carry = 0x30
condition_to_byte Condition.not_carry = 0x40
condition_to_byte Condition.greater_than = 0x50
condition_to_byte Condition.less_than_equal_to = 0x60

unfoldable pub condition_source_destination_to_byte : AstNode → Outcome ℕ
unfolding source_to_byte destination_to_byte condition_to_byte
condition_source_destination_to_byte (AstNode.operation_zero c i) =
    done (bit_or (bit_or (condition_to_byte c) 0x00) 0x00)
condition_source_destination_to_byte (AstNode.operation_one size c i operand) = do
  source ← source_to_byte operand
  done (bit_or (bit_or (condition_to_byte c) source) 0x00)
condition_source_destination_to_byte (AstNode.operation_two size c i lhs rhs) = do
  source ← source_to_byte rhs
  destination ← destination_to_byte lhs
  done (bit_or (bit_or (condition_to_byte c) source) destination)
condition_source_destination_to_byte _ = panic bad_node

-- The bytes of the instruction so far, and the table of the whole program.
pub record Assembling : Type 0 where
  pub value : List ℕ
  pub label_targets : LabelTargets

unfoldable pub add_target : String → BackpatchTarget → LabelTargets → LabelTargets
add_target name t [] = (name, t ∷ []) ∷ []
add_target name t ((other, targets) ∷ table) =
    if name == other
    then (other, targets ++ t ∷ []) ∷ table
    else (other, targets) ∷ add_target name t table

abbrev pub size_bytes : Size → ℕ
size_bytes Size.byte = 1
size_bytes Size.half = 2
size_bytes Size.word = 4

abbrev pub placeholder : Size → List ℕ
placeholder Size.byte = 0xAB ∷ []
placeholder Size.half = 0xAB ∷ 0xAB ∷ []
placeholder Size.word = 0xAB ∷ 0xAB ∷ 0xAB ∷ 0xAB ∷ []

-- `id` is the number that the instruction will have.
unfoldable pub generate_backpatch_immediate :
    (id : ℕ) (name : String) → Size → (is_relative : Bool) → Assembling → Assembling
unfolding add_target
generate_backpatch_immediate id name size is_relative a = record {
  value = a.value ++ placeholder size;
  label_targets =
      add_target name
        (record {
          index = length a.value;
          size = size;
          is_relative = is_relative;
          instruction = id;
        })
        a.label_targets;
}

abbrev push_bytes : List ℕ → Assembling → Assembling
push_bytes bs a = record a { value = a.value ++ bs }

-- The first `match` of `node_to_immediate_values`, on the source operand.
unfoldable pub source_values : (id : ℕ) → AstNode → Assembling → Outcome Assembling
unfolding generate_backpatch_immediate to_le_bytes
source_values id (AstNode.register r) a = done (push_bytes (r ∷ []) a)
source_values id (AstNode.register_pointer r) a = done (push_bytes (r ∷ []) a)
source_values id (AstNode.immediate8 v) a = done (push_bytes (v ∷ []) a)
source_values id (AstNode.immediate16 v) a = done (push_bytes (to_le_bytes 2 v) a)
source_values id (AstNode.immediate32 v) a = done (push_bytes (to_le_bytes 4 v) a)
source_values id (AstNode.immediate_pointer p) a = done (push_bytes (to_le_bytes 4 p) a)
source_values id (AstNode.label_operand name size r) a =
    done (generate_backpatch_immediate id name size r a)
source_values id (AstNode.label_operand_pointer name r) a =
    done (generate_backpatch_immediate id name Size.word r a)
source_values id _ a = panic bad_node

-- The second `match`, on the destination operand.
unfoldable pub destination_values : (id : ℕ) → AstNode → Assembling → Outcome Assembling
unfolding generate_backpatch_immediate to_le_bytes
destination_values id (AstNode.register r) a = done (push_bytes (r ∷ []) a)
destination_values id (AstNode.register_pointer r) a = done (push_bytes (r ∷ []) a)
destination_values id (AstNode.immediate_pointer p) a = done (push_bytes (to_le_bytes 4 p) a)
destination_values id (AstNode.label_operand name size r) a =
    done (generate_backpatch_immediate id name size r a)
destination_values id (AstNode.label_operand_pointer name r) a =
    done (generate_backpatch_immediate id name Size.word r a)
destination_values id _ a = panic bad_node

unfoldable pub node_to_immediate_values : (id : ℕ) → AstNode → Assembling → Outcome Assembling
unfolding source_values destination_values generate_backpatch_immediate to_le_bytes
node_to_immediate_values id (AstNode.operation_zero c i) a = done a
node_to_immediate_values id (AstNode.operation_one size c i operand) a = source_values id operand a
node_to_immediate_values id (AstNode.operation_two size c i lhs rhs) a = do
  a' ← source_values id rhs a
  destination_values id lhs a'
node_to_immediate_values id _ a = panic bad_node

-- The UTF-8 bytes of a character.
abbrev utf8 : ℕ → List ℕ
utf8 c =
    if ltb c 0x80
    then c ∷ []
    else if ltb c 0x800
    then (0xC0 + c / 2 ^ 6) ∷ (0x80 + c % 2 ^ 6) ∷ []
    else if ltb c 0x10000
    then (0xE0 + c / 2 ^ 12) ∷ (0x80 + c / 2 ^ 6 % 2 ^ 6) ∷ (0x80 + c % 2 ^ 6) ∷ []
    else (0xF0 + c / 2 ^ 18)
      ∷ (0x80 + c / 2 ^ 12 % 2 ^ 6)
      ∷ (0x80 + c / 2 ^ 6 % 2 ^ 6)
      ∷ (0x80 + c % 2 ^ 6)
      ∷ []

-- `string.as_bytes()`
abbrev pub as_bytes : String → List ℕ
as_bytes String.[] = []
as_bytes (String.◌∷◌ c s) = utf8 (code c) ++ as_bytes s

unfoldable pub assemble_operation : (id : ℕ) → AstNode → LabelTargets → Outcome Assembling
unfolding condition_source_destination_to_byte instruction_to_byte node_to_immediate_values
assemble_operation id node table = do
  first ← condition_source_destination_to_byte node
  second ← instruction_to_byte node
  node_to_immediate_values id node (record { value = first ∷ second ∷ []; label_targets = table })

unfoldable pub assemble_node : (id : ℕ) → AstNode → LabelTargets → Outcome Assembling
unfolding assemble_operation condition_source_destination_to_byte instruction_to_byte
    node_to_immediate_values
assemble_node id (AstNode.data_byte v) table =
    done (record { value = v ∷ []; label_targets = table })
assemble_node id (AstNode.data_half v) table =
    done (record { value = to_le_bytes 2 v; label_targets = table })
assemble_node id (AstNode.data_word v) table =
    done (record { value = to_le_bytes 4 v; label_targets = table })
assemble_node id (AstNode.data_str s) table =
    done (record { value = as_bytes s; label_targets = table })
assemble_node id (AstNode.label_operand name size r) table =
    done
      (generate_backpatch_immediate id name size r (record { value = []; label_targets = table }))
assemble_node id node table = assemble_operation id node table
