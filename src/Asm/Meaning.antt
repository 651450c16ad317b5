-- ===== src/Asm/Meaning.antt =====
-- What a node of fox32asm/src/main.rs means as an instruction of fox32/src/cpu.rs, told by names
-- alone: the specification of the assembler's encoding.
use fox.Prelude.{Option, none, some}
use fox.Cpu.State as State
use fox.Cpu.Decode as Decode
use fox.Cpu.Decode.{Instruction, Operand}
use fox.Asm.Ast.{InstructionZero, InstructionOne, InstructionTwo, Size, Condition, AstNode}

abbrev pub size_of : Size → Decode.Size
size_of Size.byte = Decode.Size.byte
size_of Size.half = Decode.Size.half
size_of Size.word = Decode.Size.word

abbrev pub condition_of : Condition → State.Condition
condition_of Condition.always = State.Condition.always
condition_of Condition.zero = State.Condition.zero
condition_of Condition.not_zero = State.Condition.not_zero
condition_of Condition.carry = State.Condition.carry
condition_of Condition.not_carry = State.Condition.not_carry
condition_of Condition.greater_than = State.Condition.greater_than
condition_of Condition.less_than_equal_to = State.Condition.less_than_equal_to

-- The four ways to give an operand.
pub data Kind : Type 0 where
  reg reg_ptr imm imm_ptr : Kind

abbrev pub operand_of : Size → Kind → Operand
operand_of size reg = Operand.register
operand_of size reg_ptr = Operand.register_ptr
operand_of Size.byte imm = Operand.immediate8
operand_of Size.half imm = Operand.immediate16
operand_of Size.word imm = Operand.immediate32
operand_of size imm_ptr = Operand.immediate_ptr (size_of size)

abbrev pub source_kind : AstNode → Option Kind
source_kind (AstNode.register r) = some reg
source_kind (AstNode.register_pointer r) = some reg_ptr
source_kind (AstNode.immediate8 v) = some imm
source_kind (AstNode.immediate16 v) = some imm
source_kind (AstNode.immediate32 v) = some imm
source_kind (AstNode.label_operand name size r) = some imm
source_kind (AstNode.immediate_pointer p) = some imm_ptr
source_kind (AstNode.label_operand_pointer name r) = some imm_ptr
source_kind _ = none

-- A destination is no immediate value, and no label but through a pointer.
abbrev pub destination_kind : AstNode → Option Kind
destination_kind (AstNode.register r) = some reg
destination_kind (AstNode.register_pointer r) = some reg_ptr
destination_kind (AstNode.immediate_pointer p) = some imm_ptr
destination_kind (AstNode.label_operand_pointer name r) = some imm_ptr
destination_kind _ = none

abbrev pub zero_meaning : InstructionZero → State.Condition → Instruction
zero_meaning InstructionZero.nop c = Instruction.nop
zero_meaning InstructionZero.halt c = Instruction.halt c
zero_meaning InstructionZero.brk c = Instruction.brk c
zero_meaning InstructionZero.ret c = Instruction.ret c
zero_meaning InstructionZero.reti c = Instruction.reti c
zero_meaning InstructionZero.ise c = Instruction.ise c
zero_meaning InstructionZero.icl c = Instruction.icl c

abbrev pub one_meaning : InstructionOne → Decode.Size → State.Condition → Operand → Instruction
one_meaning InstructionOne.inc z c s = Instruction.inc z c s
one_meaning InstructionOne.dec z c s = Instruction.dec z c s
one_meaning InstructionOne.not z c s = Instruction.not z c s
one_meaning InstructionOne.jmp z c s = Instruction.jmp c s
one_meaning InstructionOne.call z c s = Instruction.call c s
one_meaning InstructionOne.loop z c s = Instruction.loop c s
one_meaning InstructionOne.rjmp z c s = Instruction.rjmp c s
one_meaning InstructionOne.rcall z c s = Instruction.rcall c s
one_meaning InstructionOne.rloop z c s = Instruction.rloop c s
one_meaning InstructionOne.push z c s = Instruction.push z c s
one_meaning InstructionOne.pop z c s = Instruction.pop z c s

abbrev pub two_meaning :
    InstructionTwo → Decode.Size → State.Condition → (destination source : Operand) → Instruction
two_meaning InstructionTwo.add z c d s = Instruction.add z c d s
two_meaning InstructionTwo.sub z c d s = Instruction.sub z c d s
two_meaning InstructionTwo.mul z c d s = Instruction.mul z c d s
two_meaning InstructionTwo.div z c d s = Instruction.div z c d s
two_meaning InstructionTwo.rem z c d s = Instruction.rem z c d s
two_meaning InstructionTwo.and z c d s = Instruction.and z c d s
two_meaning InstructionTwo.or z c d s = Instruction.or z c d s
two_meaning InstructionTwo.xor z c d s = Instruction.xor z c d s
two_meaning InstructionTwo.sla z c d s = Instruction.sla z c d s
two_meaning InstructionTwo.sra z c d s = Instruction.sra z c d s
two_meaning InstructionTwo.srl z c d s = Instruction.srl z c d s
two_meaning InstructionTwo.rol z c d s = Instruction.rol z c d s
two_meaning InstructionTwo.ror z c d s = Instruction.ror z c d s
two_meaning InstructionTwo.bse z c d s = Instruction.bse z c d s
two_meaning InstructionTwo.bcl z c d s = Instruction.bcl z c d s
two_meaning InstructionTwo.bts z c d s = Instruction.bts z c d s
two_meaning InstructionTwo.cmp z c d s = Instruction.cmp z c d s
two_meaning InstructionTwo.mov z c d s = Instruction.mov z c d s
two_meaning InstructionTwo.movz z c d s = Instruction.movz z c d s
two_meaning InstructionTwo.rta z c d s = Instruction.rta c d s
two_meaning InstructionTwo.«in» z c d s = Instruction.«in» c d s
two_meaning InstructionTwo.out z c d s = Instruction.out c d s

abbrev pub two_with :
    InstructionTwo → Size → Condition → Option Kind → Option Kind → Option Instruction
two_with i size c none s = none
two_with i size c (some d) none = none
two_with i size c (some d) (some s) =
    some (two_meaning i (size_of size) (condition_of c) (operand_of size d) (operand_of size s))

abbrev pub one_with : InstructionOne → Size → Condition → Option Kind → Option Instruction
one_with i size c none = none
one_with i size c (some s) =
    some (one_meaning i (size_of size) (condition_of c) (operand_of size s))

-- `none` is a node that is no instruction, or has an operand that the instruction set lacks.
abbrev pub meaning : AstNode → Option Instruction
meaning (AstNode.operation_zero c i) = some (zero_meaning i (condition_of c))
meaning (AstNode.operation_one size c i operand) = one_with i size c (source_kind operand)
meaning (AstNode.operation_two size c i lhs rhs) =
    two_with i size c (destination_kind lhs) (source_kind rhs)
meaning _ = none
