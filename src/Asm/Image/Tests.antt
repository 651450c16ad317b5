-- ===== src/Asm/Image/Tests.antt =====
-- fox32asm/src/main.rs: a small program, from its nodes to the bytes of the output.
use Prim.Native.String.{String}
use fox.Prelude.{ℕ, ◌≡◌, refl, Bool, true, false, List, [], ◌∷◌, ◌++◌, inl, inr, arith}
use fox.Outcome.{done, ◌>>=◌}
use fox.Asm.Ast.{InstructionOne, InstructionTwo, Size, Condition, LabelKind, AstNode}
use fox.Asm.Encode.{BackpatchTarget, LabelTargets, assemble_node}
use mathlib.Core.Path.{subst}
use fox.Asm.Patch.{Patching, address_word, label_address, perform_backpatching, backpatch_labels}
use fox.Asm.Patch.Relocations.{relocations, perform_backpatching-relocations}
use fox.Asm.Patch.Bytes.{Gives, at}
use fox.Asm.Patch.Table.{IsEntry, IsIn}
use fox.Asm.Layout.{Layout, layout_nodes, empty_layout}
use fox.Cpu.State.{Cpu, new, relative_to_absolute}
use fox.Memory.{zeroed}
use fox.Asm.Patch.Targets.{InBounds}
use fox.Asm.Patch.Relative.{relative_to_absolute-address_word}
use fox.Asm.Image.{assemble}
use fox.Asm.Image.Laws.{Linked, assemble-Linked}

-- `org 0x800`, `start: mov.16 r1, start`, `rjmp start`
abbrev program : List AstNode
program =
    AstNode.origin 0x800
    ∷ AstNode.label_define "start" LabelKind.internal
    ∷ AstNode.operation_two Size.half Condition.always InstructionTwo.mov (AstNode.register 1)
        (AstNode.label_operand "start" Size.half false)
    ∷ AstNode.operation_one Size.word Condition.always InstructionOne.rjmp
        (AstNode.label_operand "start" Size.word true)
    ∷ []

abbrev same_order : LabelTargets → LabelTargets
same_order table = table

assembled :
    assemble true false same_order program
    ≡ done (0x02 ∷ 0x57 ∷ 0x00 ∷ 0x08 ∷ 1 ∷ 0x02 ∷ 0x89 ∷ 0xFB ∷ 0xFF ∷ 0xFF ∷ 0xFF ∷ [])
unfolding assemble layout_nodes assemble_node backpatch_labels
assembled = refl

assembled_fxf :
    assemble true true same_order program
    ≡ done (
        b'F' ∷ b'X' ∷ b'F' ∷ 0 ∷ 11 ∷ 0 ∷ 0 ∷ 0 ∷ 0x24 ∷ 0 ∷ 0 ∷ 0 ∷ 0 ∷ 0 ∷ 0 ∷ 0 ∷ 0 ∷ 0 ∷ 0 ∷ 0
        ∷ 0 ∷ 0 ∷ 0 ∷ 0 ∷ 0 ∷ 0 ∷ 0 ∷ 0 ∷ 8 ∷ 0 ∷ 0 ∷ 0 ∷ 0x2F ∷ 0 ∷ 0 ∷ 0 ∷ 0x02 ∷ 0x57 ∷ 0x00
        ∷ 0x08 ∷ 1 ∷ 0x02 ∷ 0x89 ∷ 0xFB ∷ 0xFF ∷ 0xFF ∷ 0xFF ∷ 0x02 ∷ 0x08 ∷ 0 ∷ 0 ∷ 0x07 ∷ 0x08 ∷ 0
        ∷ 0 ∷ [])
unfolding assemble layout_nodes assemble_node backpatch_labels
assembled_fxf = refl

-- The layout of the program, before its labels are resolved.
abbrev laid_out : Layout
laid_out = record {
  instructions =
      record { value = 0x02 ∷ 0x57 ∷ 0xAB ∷ 0xAB ∷ 1 ∷ []; address = 0x800 }
      ∷ record { value = 0x02 ∷ 0x89 ∷ 0xAB ∷ 0xAB ∷ 0xAB ∷ 0xAB ∷ []; address = 0x805 }
      ∷ [];
  current_address = 0x80B;
  label_targets =
      (
        "start",
        record { index = 2; size = Size.half; is_relative = false; instruction = 0 }
            ∷ record { index = 2; size = Size.word; is_relative = true; instruction = 1 }
            ∷ [],
      )
      ∷ [];
  label_addresses = ("start", (0x800, false)) ∷ [];
}

laid_out_lem : layout_nodes true program empty_layout ≡ done laid_out
unfolding layout_nodes assemble_node
laid_out_lem = refl

start_address : label_address "start" laid_out.label_addresses ≡ done (0x800, false)
unfolding label_address
start_address = refl

assemble-Linked_example :
    Gives true
      (λ bytes.
        (n : String) (t : BackpatchTarget)
        → IsEntry n t laid_out.label_targets
        → (address : ℕ) × (is_const : Bool) × (label_address n laid_out.label_addresses
            ≡ done (address, is_const))
          × Linked 0x800 laid_out.instructions bytes t address)
      (assemble true false same_order program)
assemble-Linked_example =
    assemble-Linked true same_order program 0x800 laid_out (refl, omega arith, (tt, (tt, (tt, tt))))
      laid_out_lem (λ n t. (λ i. i, λ i. i)) (((0x800, false), start_address), tt)

-- A processor at the second instruction of the program.
abbrev at_rjmp : Cpu (Unit {0})
at_rjmp = record (new (record { memory = zeroed; devices = tt })) { instruction_pointer = 0x805 }

relative_to_absolute-address_word_example :
    (address_word false true 0x800 0x805 >>= λ w. relative_to_absolute w true at_rjmp)
    ≡ done (0x800, at_rjmp)
relative_to_absolute-address_word_example =
    relative_to_absolute-address_word true at_rjmp 0x800 (omega arith) (omega arith)

-- The two targets of `start`, of which the second is relative.
abbrev start_targets : List BackpatchTarget
start_targets =
    record { index = 2; size = Size.half; is_relative = false; instruction = 0 }
    ∷ record { index = 2; size = Size.word; is_relative = true; instruction = 1 }
    ∷ []

start_targets-InBounds :
    (t : BackpatchTarget) → IsIn t start_targets → InBounds laid_out.instructions t
unfolding at
start_targets-InBounds t (inl e) = subst (InBounds laid_out.instructions) e (_, refl, omega arith)
start_targets-InBounds t (inr (inl e)) =
    subst (InBounds laid_out.instructions) e (_, refl, omega arith)
start_targets-InBounds t (inr (inr i)) = absurd i

abbrev unpatched : Patching
unpatched = record { instructions = laid_out.instructions; reloc_addresses = [] }

perform_backpatching-relocations_example :
    Gives true
      (λ s'. s'.reloc_addresses ≡ [] ++ relocations false laid_out.instructions start_targets)
      (perform_backpatching true start_targets 0x800 false unpatched)
perform_backpatching-relocations_example =
    perform_backpatching-relocations true start_targets 0x800 false unpatched start_targets-InBounds
