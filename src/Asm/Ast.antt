-- ===== src/Asm/Ast.antt =====
-- fox32asm/src/main.rs: the nodes that the parser builds and the assembler reads.
use Prim.Native.String.{String}
use fox.Prelude.{ℕ, Bool, List}

pub data InstructionZero : Type 0 where
  nop halt brk ret reti ise icl : InstructionZero

pub data InstructionOne : Type 0 where
  inc dec not jmp call loop rjmp rcall rloop push pop : InstructionOne

pub data InstructionTwo : Type 0 where
  add sub mul div rem and or xor sla sra srl rol ror bse bcl bts cmp mov movz rta : InstructionTwo
  «in» out : InstructionTwo

pub data Size : Type 0 where
  byte half word : Size

pub data Condition : Type 0 where
  always zero not_zero carry not_carry greater_than less_than_equal_to : Condition

pub data LabelKind : Type 0 where
  internal external global : LabelKind

pub data AstNode : Type 0 where
  operation_zero : Condition → InstructionZero → AstNode
  operation_one : Size → Condition → InstructionOne → (operand : AstNode) → AstNode
  operation_two : Size → Condition → InstructionTwo → (lhs rhs : AstNode) → AstNode
  immediate8 immediate16 immediate32 : ℕ → AstNode
  register : ℕ → AstNode
  immediate_pointer : ℕ → AstNode
  register_pointer : ℕ → AstNode
  constant : (name : String) → (address : ℕ) → AstNode
  label_define : (name : String) → LabelKind → AstNode
  label_operand : (name : String) → Size → (is_relative : Bool) → AstNode
  label_operand_pointer : (name : String) → (is_relative : Bool) → AstNode
  data_byte data_half data_word : ℕ → AstNode
  data_str : String → AstNode
  data_fill : (value size : ℕ) → AstNode
  included_binary : List ℕ → AstNode
  origin origin_padded : ℕ → AstNode
