-- ===== src/Asm/Decoded/Assembled.antt =====
-- fox32asm/src/main.rs against fox32/src/cpu.rs: the processor decodes the first two bytes of an
-- assembled operation to the instruction that the operation means.
use fox.Prelude.{ℕ, ◌≡◌, refl, ap, ◌∙◌, inl, inr, Option, none, some, List, [], ◌∷◌, ◌++◌}
use fox.Outcome.{Outcome, done, panic, bad_node}
use fox.Word.Bytes.{from_le_bytes}
use fox.Cpu.Decode.{Instruction, from_half}
use fox.Asm.Ast.{Size, AstNode}
use fox.Asm.Encode.{
  Assembling, LabelTargets, source_values, destination_values, node_to_immediate_values,
  assemble_node, assemble_operation, instruction_to_byte, condition_source_destination_to_byte,
  generate_backpatch_immediate,
}
use fox.Asm.Meaning.{Kind, meaning, source_kind, destination_kind}
use fox.Asm.Decoded.{DecodesTo, zero_decodes, one_decodes, two_decodes}
use fox.Asm.Decoded.Tables.{source_to_byte_lem, destination_to_byte_lem}

-- The nodes that the assembler takes for instructions.
abbrev pub IsOperation : AstNode → Type 0
IsOperation (AstNode.operation_zero c i) = Unit {0}
IsOperation (AstNode.operation_one z c i operand) = Unit {0}
IsOperation (AstNode.operation_two z c i lhs rhs) = Unit {0}
IsOperation _ = ⊥

-- The bytes of an operand stand behind what is there.
abbrev Extends : List ℕ → Option Kind → Outcome Assembling → Type 0
Extends before none r = Unit {0}
Extends before (some k) r =
    (a : Assembling) × (r ≡ done a) × ((more : List ℕ) × (a.value ≡ before ++ more))

source_values-Extends :
    (id : ℕ) (o : AstNode) (a : Assembling) → Extends a.value (source_kind o) (source_values id o a)
unfolding source_values generate_backpatch_immediate
source_values-Extends id (AstNode.register r) a = (_, refl, (_, refl))
source_values-Extends id (AstNode.register_pointer r) a = (_, refl, (_, refl))
source_values-Extends id (AstNode.immediate8 v) a = (_, refl, (_, refl))
source_values-Extends id (AstNode.immediate16 v) a = (_, refl, (_, refl))
source_values-Extends id (AstNode.immediate32 v) a = (_, refl, (_, refl))
source_values-Extends id (AstNode.immediate_pointer p) a = (_, refl, (_, refl))
source_values-Extends id (AstNode.label_operand name size r) a = (_, refl, (_, refl))
source_values-Extends id (AstNode.label_operand_pointer name r) a = (_, refl, (_, refl))
source_values-Extends id _ a = tt

destination_values-Extends :
    (id : ℕ) (o : AstNode) (a : Assembling)
    → Extends a.value (destination_kind o) (destination_values id o a)
unfolding destination_values generate_backpatch_immediate
destination_values-Extends id (AstNode.register r) a = (_, refl, (_, refl))
destination_values-Extends id (AstNode.register_pointer r) a = (_, refl, (_, refl))
destination_values-Extends id (AstNode.immediate_pointer p) a = (_, refl, (_, refl))
destination_values-Extends id (AstNode.label_operand_pointer name r) a = (_, refl, (_, refl))
destination_values-Extends id _ a = tt

-- What an assembled operation has to be, by its meaning.
abbrev pub Opens : Option Instruction → Outcome Assembling → Type 0
Opens none r = r ≡ panic bad_node
Opens (some i) r =
    (a : Assembling) × (r ≡ done a)
    × ((first second : ℕ) × ((rest : List ℕ) × (a.value ≡ first ∷ second ∷ rest)
          × (from_half (from_le_bytes (first ∷ second ∷ [])) ≡ some i)))

module _ (id : ℕ) (table : LabelTargets) where
  -- The operands are assembled behind the two opcode bytes.
  opened :
      (node : AstNode) (first second : ℕ)
      → condition_source_destination_to_byte node ≡ done first
      → instruction_to_byte node ≡ done second
      → assemble_operation id node table
        ≡ node_to_immediate_values id node
            (record { value = first ∷ second ∷ []; label_targets = table })
  unfolding assemble_operation
  opened node first second e f = rw (e, f) refl

  zero-Opens :
      (c : _) (i : _) (m : Instruction)
      → DecodesTo m (AstNode.operation_zero c i)
      → Opens (some m) (assemble_operation id (AstNode.operation_zero c i) table)
  unfolding node_to_immediate_values
  zero-Opens c i m (first, second, e, f, d) = (
    record { value = first ∷ second ∷ []; label_targets = table },
    opened _ first second e f,
    (first, second, ([], refl, d)),
  )

  one-Opens :
      (z : Size) (c : _) (i : _) (operand : AstNode) (s : Kind) (m : Instruction)
      → source_kind operand ≡ some s
      → DecodesTo m (AstNode.operation_one z c i operand)
      → Opens (some m) (assemble_operation id (AstNode.operation_one z c i operand) table)
  unfolding node_to_immediate_values
  one-Opens z c i operand s m k (first, second, e, f, d) =
      let (a, run, (more, v)) : Extends (first ∷ second ∷ []) (some s)
          (source_values id operand _) =
        rw k at (
          source_values-Extends id operand
            (record { value = first ∷ second ∷ []; label_targets = table })) in
      (a, opened _ first second e f ∙ run, (first, second, (more, v, d)))

  two-Opens :
      (z : Size) (c : _) (i : _) (lhs rhs : AstNode) (d s : Kind) (m : Instruction)
      → destination_kind lhs ≡ some d
      → source_kind rhs ≡ some s
      → DecodesTo m (AstNode.operation_two z c i lhs rhs)
      → Opens (some m) (assemble_operation id (AstNode.operation_two z c i lhs rhs) table)
  unfolding node_to_immediate_values
  two-Opens z c i lhs rhs d s m l k (first, second, e, f, h) =
      let (a, run, (more, v)) : Extends (first ∷ second ∷ []) (some s) (source_values id rhs _) =
        rw k at (
          source_values-Extends id rhs
            (record { value = first ∷ second ∷ []; label_targets = table })) in
      let (b, run', (more', v')) : Extends a.value (some d) (destination_values id lhs a) =
        rw l at (destination_values-Extends id lhs a) in
      (
        b,
        opened _ first second e f ∙ rw run run',
        (first, second, (more ++ more', v' ∙ ap (λ (xs : List ℕ). xs ++ more') v, h)),
      )

  -- An operation that means an instruction is assembled without a panic, and the processor decodes its
  -- first two bytes, the first one low, to that instruction. The assembler panics at an operation that
  -- means none.
  pub from_half-assemble_node :
      (node : AstNode) → IsOperation node → Opens (meaning node) (assemble_node id node table)
  unfolding assemble_node assemble_operation
  from_half-assemble_node (AstNode.operation_zero c i) h = zero-Opens c i _ (zero_decodes c i)
  from_half-assemble_node (AstNode.operation_one z c i operand) h =
      elim (source_to_byte_lem operand) [
        | inl (s, k, e) ↦ rw k (one-Opens z c i operand s _ k (one_decodes z c i operand s e))
        | inr (k, e) ↦ rw k (unfold condition_source_destination_to_byte in rw e refl)
      ]
  from_half-assemble_node (AstNode.operation_two z c i lhs rhs) h =
      elim (destination_to_byte_lem lhs) [
        | inl (d, l, hd, f) ↦ elim (source_to_byte_lem rhs) [
          | inl (s, k, e) ↦
              rw (l, k) (two-Opens z c i lhs rhs d s _ l k (two_decodes z c i lhs rhs d s hd f e))
          | inr (k, e) ↦ rw (l, k) (unfold condition_source_destination_to_byte in rw e refl)
        ]
        | inr (l, f) ↦ elim (source_to_byte_lem rhs) [
          | inl (s, k, e) ↦ rw l (unfold condition_source_destination_to_byte in rw (e, f) refl)
          | inr (k, e) ↦ rw l (unfold condition_source_destination_to_byte in rw e refl)
        ]
      ]
  from_half-assemble_node _ h = absurd h
