-- ===== src/Asm/Length.antt =====
-- fox32asm/src/main.rs: an assembled instruction is as long as the processor takes it to be.
use fox.Prelude.{
  ℕ, ◌+◌, ◌≡◌, inl, inr, refl, ap, sym, ◌∙◌, List, [], ◌∷◌, ◌++◌, length, length-append, bit_or,
  Option, none, some,
}
use fox.Outcome.{Outcome, done}
use fox.Word.Bytes.{to_le_bytes, length-to_le_bytes}
use fox.Cpu.Decode as Decode
use fox.Cpu.Decode.{Instruction, Operand}
use fox.Cpu.State as State
use fox.Cpu.Steady.Operands.{operand_length}
use fox.Cpu.Steady.Arms.{binary_length}
use fox.Cpu.Skipped.Special.{instruction_length}
use fox.Asm.Ast.{InstructionZero, InstructionOne, InstructionTwo, Size, Condition, AstNode}
use fox.Asm.Encode.{
  Assembling, LabelTargets, source_to_byte, destination_to_byte, condition_to_byte, one_opcode,
  two_opcode, size_to_byte, placeholder, source_values, destination_values,
  node_to_immediate_values, assemble_node, assemble_operation, instruction_to_byte,
  condition_source_destination_to_byte, generate_backpatch_immediate,
}
use fox.Asm.Meaning.{
  Kind, imm, operand_of, size_of, condition_of, source_kind, destination_kind, zero_meaning,
  one_meaning, two_meaning, meaning,
}
use fox.Asm.Decoded.Tables.{source_to_byte_lem, destination_to_byte_lem}

-- An immediate operand has the size of its instruction, as the parser builds it.
abbrev pub IsSizedOperand : Size → AstNode → Type 0
IsSizedOperand z (AstNode.immediate8 v) = z ≡ Size.byte
IsSizedOperand z (AstNode.immediate16 v) = z ≡ Size.half
IsSizedOperand z (AstNode.immediate32 v) = z ≡ Size.word
IsSizedOperand z (AstNode.label_operand name size r) = size ≡ z
IsSizedOperand z _ = Unit {0}

abbrev pub IsSized : AstNode → Type 0
IsSized (AstNode.operation_one z c i operand) = IsSizedOperand z operand
IsSized (AstNode.operation_two z c i lhs rhs) = IsSizedOperand z rhs
IsSized _ = Unit {0}

-- The bytes of an operand behind what is there.
abbrev Adds : Size → ℕ → Option Kind → Outcome Assembling → Type 0
Adds z n none r = Unit {0}
Adds z n (some k) r =
    (a : Assembling) × (r ≡ done a) × (length a.value ≡ n + operand_length (operand_of z k))

bytes-length : (xs : List ℕ) (n v : ℕ) → length (xs ++ to_le_bytes n v) ≡ length xs + n
bytes-length xs n v =
    length-append xs (to_le_bytes n v) ∙ ap (λ (t : ℕ). length xs + t) (length-to_le_bytes n v)

placeholder-length : (z : Size) → length (placeholder z) ≡ operand_length (operand_of z imm)
placeholder-length Size.byte = refl
placeholder-length Size.half = refl
placeholder-length Size.word = refl

label-Adds :
    (id : ℕ) (z size : Size) (a : Assembling) (name : _) (r : _)
    → size ≡ z
    → Adds z (length a.value) (some imm) (done (generate_backpatch_immediate id name size r a))
unfolding generate_backpatch_immediate
label-Adds id z size a name r e = (
  generate_backpatch_immediate id name size r a,
  refl,
  length-append a.value (placeholder size)
      ∙ ap (λ (t : ℕ). length a.value + t)
          (ap (λ (t : Size). length (placeholder t)) e ∙ placeholder-length z),
)

source_values-Adds :
    (id : ℕ) (z : Size) (o : AstNode) (a : Assembling)
    → IsSizedOperand z o
    → Adds z (length a.value) (source_kind o) (source_values id o a)
unfolding source_values
source_values-Adds id z (AstNode.register r) a h = (_, refl, length-append a.value (r ∷ []))
source_values-Adds id z (AstNode.register_pointer r) a h = (_, refl, length-append a.value (r ∷ []))
source_values-Adds id Size.byte (AstNode.immediate8 v) a h =
    (_, refl, length-append a.value (v ∷ []))
source_values-Adds id Size.half (AstNode.immediate8 v) a h = absurd cc
source_values-Adds id Size.word (AstNode.immediate8 v) a h = absurd cc
source_values-Adds id Size.byte (AstNode.immediate16 v) a h = absurd cc
source_values-Adds id Size.half (AstNode.immediate16 v) a h = (_, refl, bytes-length a.value 2 v)
source_values-Adds id Size.word (AstNode.immediate16 v) a h = absurd cc
source_values-Adds id Size.byte (AstNode.immediate32 v) a h = absurd cc
source_values-Adds id Size.half (AstNode.immediate32 v) a h = absurd cc
source_values-Adds id Size.word (AstNode.immediate32 v) a h = (_, refl, bytes-length a.value 4 v)
source_values-Adds id z (AstNode.immediate_pointer p) a h = (_, refl, bytes-length a.value 4 p)
source_values-Adds id z (AstNode.label_operand name size r) a h = label-Adds id z size a name r h
source_values-Adds id z (AstNode.label_operand_pointer name r) a h =
    let (b, e, l) = label-Adds id Size.word Size.word a name r refl in (b, e, l)
source_values-Adds id z _ a h = tt

destination_values-Adds :
    (id : ℕ) (z : Size) (o : AstNode) (a : Assembling)
    → Adds z (length a.value) (destination_kind o) (destination_values id o a)
unfolding destination_values
destination_values-Adds id z (AstNode.register r) a = (_, refl, length-append a.value (r ∷ []))
destination_values-Adds id z (AstNode.register_pointer r) a =
    (_, refl, length-append a.value (r ∷ []))
destination_values-Adds id z (AstNode.immediate_pointer p) a = (_, refl, bytes-length a.value 4 p)
destination_values-Adds id z (AstNode.label_operand_pointer name r) a =
    let (b, e, l) = label-Adds id Size.word Size.word a name r refl in (b, e, l)
destination_values-Adds id z _ a = tt

zero_length :
    (i : InstructionZero) (c : State.Condition) → instruction_length (zero_meaning i c) ≡ 2
zero_length InstructionZero.nop c = refl
zero_length InstructionZero.halt c = refl
zero_length InstructionZero.brk c = refl
zero_length InstructionZero.ret c = refl
zero_length InstructionZero.reti c = refl
zero_length InstructionZero.ise c = refl
zero_length InstructionZero.icl c = refl

one_length :
    (i : InstructionOne) (z : Decode.Size) (c : State.Condition) (s : Operand)
    → instruction_length (one_meaning i z c s) ≡ 2 + operand_length s
one_length InstructionOne.inc z c s = refl
one_length InstructionOne.dec z c s = refl
one_length InstructionOne.not z c s = refl
one_length InstructionOne.jmp z c s = refl
one_length InstructionOne.call z c s = refl
one_length InstructionOne.loop z c s = refl
one_length InstructionOne.rjmp z c s = refl
one_length InstructionOne.rcall z c s = refl
one_length InstructionOne.rloop z c s = refl
one_length InstructionOne.push z c s = refl
one_length InstructionOne.pop z c s = refl

two_length :
    (i : InstructionTwo) (z : Decode.Size) (c : State.Condition) (d s : Operand)
    → instruction_length (two_meaning i z c d s) ≡ binary_length d s
two_length InstructionTwo.add z c d s = refl
two_length InstructionTwo.sub z c d s = refl
two_length InstructionTwo.mul z c d s = refl
two_length InstructionTwo.div z c d s = refl
two_length InstructionTwo.rem z c d s = refl
two_length InstructionTwo.and z c d s = refl
two_length InstructionTwo.or z c d s = refl
two_length InstructionTwo.xor z c d s = refl
two_length InstructionTwo.sla z c d s = refl
two_length InstructionTwo.sra z c d s = refl
two_length InstructionTwo.srl z c d s = refl
two_length InstructionTwo.rol z c d s = refl
two_length InstructionTwo.ror z c d s = refl
two_length InstructionTwo.bse z c d s = refl
two_length InstructionTwo.bcl z c d s = refl
two_length InstructionTwo.bts z c d s = refl
two_length InstructionTwo.cmp z c d s = refl
two_length InstructionTwo.mov z c d s = refl
two_length InstructionTwo.movz z c d s = refl
two_length InstructionTwo.rta z c d s = refl
two_length InstructionTwo.«in» z c d s = refl
two_length InstructionTwo.out z c d s = refl

-- What an assembled node has to be, if it means an instruction.
abbrev pub Fills : Option Instruction → Outcome Assembling → Type 0
Fills none r = Unit {0}
Fills (some i) r = (a : Assembling) × (r ≡ done a) × (length a.value ≡ instruction_length i)

module _ (id : ℕ) (table : LabelTargets) where
  -- The two bytes of the opcode half.
  abbrev opened : (first second : ℕ) → Assembling
  opened first second = record { value = first ∷ second ∷ []; label_targets = table }

  one-Fills :
      (z : Size) (c : Condition) (i : InstructionOne) (operand : AstNode) (k : Kind) (n : ℕ)
      → IsSizedOperand z operand
      → source_kind operand ≡ some k
      → source_to_byte operand ≡ done n
      → Fills
          (some (one_meaning i (size_of z) (condition_of c) (operand_of z k)))
          (assemble_operation id (AstNode.operation_one z c i operand) table)
  unfolding assemble_operation condition_source_destination_to_byte instruction_to_byte
      node_to_immediate_values
  one-Fills z c i operand k n h e f =
      let start : Assembling =
        opened (bit_or (bit_or (condition_to_byte c) n) 0)
          (bit_or (one_opcode i) (size_to_byte z)) in
      let (a, run, l) : Adds z 2 (some k) (source_values id operand start) =
        rw e at (source_values-Adds id z operand start h) in
      (a, rw f run, l ∙ sym (one_length i (size_of z) (condition_of c) (operand_of z k)))

  two-Fills :
      (z : Size) (c : Condition) (i : InstructionTwo) (lhs rhs : AstNode) (d s : Kind) (m n : ℕ)
      → IsSizedOperand z rhs
      → source_kind rhs ≡ some s
      → source_to_byte rhs ≡ done n
      → destination_kind lhs ≡ some d
      → destination_to_byte lhs ≡ done m
      → Fills
          (some (two_meaning i (size_of z) (condition_of c) (operand_of z d) (operand_of z s)))
          (assemble_operation id (AstNode.operation_two z c i lhs rhs) table)
  unfolding assemble_operation condition_source_destination_to_byte instruction_to_byte
      node_to_immediate_values
  two-Fills z c i lhs rhs d s m n h e f g k =
      let start : Assembling =
        opened (bit_or (bit_or (condition_to_byte c) n) m)
          (bit_or (two_opcode i) (size_to_byte z)) in
      let (a, run, l) : Adds z 2 (some s) (source_values id rhs start) =
        rw e at (source_values-Adds id z rhs start h) in
      let (b, run', l') : Adds z (length a.value) (some d) (destination_values id lhs a) =
        rw g at (destination_values-Adds id z lhs a) in
      (
        b,
        rw (f, k, run) run',
        l'
            ∙ ap (λ (t : ℕ). t + operand_length (operand_of z d)) l
            ∙ sym (two_length i (size_of z) (condition_of c) (operand_of z d) (operand_of z s)),
      )

  -- Every node that means an instruction is assembled without a panic, to as many bytes as the
  -- processor steps over, if its immediate operand has the size of the instruction.
  pub assemble_node-length :
      (node : AstNode) → IsSized node → Fills (meaning node) (assemble_node id node table)
  unfolding assemble_node assemble_operation condition_source_destination_to_byte
      instruction_to_byte node_to_immediate_values
  assemble_node-length (AstNode.operation_zero c i) h =
      (_, refl, sym (zero_length i (condition_of c)))
  assemble_node-length (AstNode.operation_one z c i operand) h = elim (source_to_byte_lem operand) [
    | inl (s, k, e) ↦ rw k (one-Fills z c i operand s _ h k e)
    | inr (k, e) ↦ rw k tt
  ]
  assemble_node-length (AstNode.operation_two z c i lhs rhs) h =
      elim (destination_to_byte_lem lhs) [
        | inl (d, l, hd, f) ↦ elim (source_to_byte_lem rhs) [
          | inl (s, k, e) ↦ rw (l, k) (two-Fills z c i lhs rhs d s _ _ h k e l f)
          | inr (k, e) ↦ rw (l, k) tt
        ]
        | inr (l, f) ↦ rw l tt
      ]
  assemble_node-length _ h = tt
