-- ===== src/Asm/Tests.antt =====
-- fox32asm/src/main.rs: runs of the model on concrete nodes.
use fox.Prelude.{◌≡◌, true, [], ◌∷◌, refl, update, arith}
use fox.Outcome.{done}
use fox.Memory.{ram, slice_bytes}
use fox.Memory.Find.{in_ram}
use fox.Cpu.State.{Cpu, Io, new, zero, set_ip, ◌>>=◌}
use fox.Cpu.Decode.{Instruction, half, register, register_ptr}
use fox.Cpu.Execute.{execute_instruction, execute_memory_instruction}
use fox.Asm.Ast.{InstructionTwo, Size, Condition, AstNode}
use fox.Asm.Encode.{Assembling, assemble_node}
use fox.Asm.Length.{Fills, assemble_node-length}
use fox.Asm.Meaning.{meaning}
use fox.Asm.Decoded.Fetched.{Holds, opcode_bytes, execute_memory_instruction-assemble_node}
use fox.Asm.Decoded.Assembled.{Opens, from_half-assemble_node}

-- `add.16 ifz r1, [r2]`
abbrev add_node : AstNode
add_node =
    AstNode.operation_two Size.half Condition.zero InstructionTwo.add (AstNode.register 1)
      (AstNode.register_pointer 2)

from_half-assemble_node_example : Opens (meaning add_node) (assemble_node 0 add_node [])
from_half-assemble_node_example = from_half-assemble_node 0 [] add_node tt

-- A processor that stands at this node.
abbrev silent : Io (Unit {0})
silent = record { read_io = λ port d. done (0, d); write_io = λ port w b. done b }

abbrev standing : Cpu (Unit {0})
standing =
    record (new (record {
      memory = record { ram = update (update (λ _. 0) 0x100 0x11) 0x101 0x41; rom = λ _. 0 };
      devices = tt;
    })) { instruction_pointer = 0x100; stack_pointer = 0x1000 }

abbrev add_bytes : Assembling
add_bytes = record { value = 0x11 ∷ 0x41 ∷ 2 ∷ 1 ∷ []; label_targets = [] }

add_run : assemble_node 0 add_node [] ≡ done add_bytes
unfolding assemble_node
add_run = refl

standing-Holds : Holds standing.bus.memory 0x100 (opcode_bytes add_bytes.value)
unfolding slice_bytes
standing-Holds = (record { region = ram; offset = 0x100 }, in_ram (omega arith), refl)

execute_memory_instruction-assemble_node_example :
    execute_memory_instruction silent true standing
    ≡ (execute_instruction silent (Instruction.add half zero register register_ptr) >>= set_ip) true
        standing
execute_memory_instruction-assemble_node_example =
    execute_memory_instruction-assemble_node silent true standing 0 add_node [] refl add_run
      standing-Holds

-- `add.16 ifz r1, 0x1234`
abbrev add_immediate : AstNode
add_immediate =
    AstNode.operation_two Size.half Condition.zero InstructionTwo.add (AstNode.register 1)
      (AstNode.immediate16 0x1234)

assemble_node-length_example : Fills (meaning add_immediate) (assemble_node 0 add_immediate [])
assemble_node-length_example = assemble_node-length 0 [] add_immediate refl
