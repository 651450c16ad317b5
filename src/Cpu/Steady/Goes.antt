-- ===== src/Cpu/Steady/Goes.antt =====
-- fox32/src/cpu.rs: where execution goes on behind each instruction.
use fox.Prelude.{ℕ, ◌+◌}
use fox.Word.{IsU32}
use fox.Cpu.Decode.{Instruction}
use fox.Cpu.Steady.Operands.{operand_length}
use fox.Cpu.Steady.Arms.{IsNext, binary_length}

-- Where execution goes on: behind the instruction, or for a jump at some word.
abbrev pub Goes : Instruction → (start next : ℕ) → Type 0
Goes Instruction.nop start next = IsNext start 2 next
Goes (Instruction.halt _) start next = IsNext start 2 next
Goes (Instruction.brk _) start next = IsNext start 2 next
Goes (Instruction.add _ _ d s) start next = IsNext start (binary_length d s) next
Goes (Instruction.inc _ _ s) start next = IsNext start (2 + operand_length s) next
Goes (Instruction.sub _ _ d s) start next = IsNext start (binary_length d s) next
Goes (Instruction.dec _ _ s) start next = IsNext start (2 + operand_length s) next
Goes (Instruction.mul _ _ d s) start next = IsNext start (binary_length d s) next
Goes (Instruction.div _ _ d s) start next = IsNext start (binary_length d s) next
Goes (Instruction.rem _ _ d s) start next = IsNext start (binary_length d s) next
Goes (Instruction.and _ _ d s) start next = IsNext start (binary_length d s) next
Goes (Instruction.or _ _ d s) start next = IsNext start (binary_length d s) next
Goes (Instruction.xor _ _ d s) start next = IsNext start (binary_length d s) next
Goes (Instruction.not _ _ s) start next = IsNext start (2 + operand_length s) next
Goes (Instruction.sla _ _ d s) start next = IsNext start (binary_length d s) next
Goes (Instruction.rol _ _ d s) start next = IsNext start (binary_length d s) next
Goes (Instruction.sra _ _ d s) start next = IsNext start (binary_length d s) next
Goes (Instruction.srl _ _ d s) start next = IsNext start (binary_length d s) next
Goes (Instruction.ror _ _ d s) start next = IsNext start (binary_length d s) next
Goes (Instruction.bse _ _ d s) start next = IsNext start (binary_length d s) next
Goes (Instruction.bcl _ _ d s) start next = IsNext start (binary_length d s) next
Goes (Instruction.bts _ _ d s) start next = IsNext start (binary_length d s) next
Goes (Instruction.cmp _ _ d s) start next = IsNext start (binary_length d s) next
Goes (Instruction.mov _ _ d s) start next = IsNext start (binary_length d s) next
Goes (Instruction.movz _ _ d s) start next = IsNext start (binary_length d s) next
Goes (Instruction.jmp _ _) start next = IsU32 next
Goes (Instruction.call _ _) start next = IsU32 next
Goes (Instruction.loop _ _) start next = IsU32 next
Goes (Instruction.rjmp _ _) start next = IsU32 next
Goes (Instruction.rcall _ _) start next = IsU32 next
Goes (Instruction.rloop _ _) start next = IsU32 next
Goes (Instruction.rta _ d s) start next = IsNext start (binary_length d s) next
Goes (Instruction.push _ _ s) start next = IsNext start (2 + operand_length s) next
Goes (Instruction.pop _ _ s) start next = IsNext start (2 + operand_length s) next
Goes (Instruction.ret _) start next = IsU32 next
Goes (Instruction.reti _) start next = IsU32 next
Goes (Instruction.«in» _ d s) start next = IsNext start (binary_length d s) next
Goes (Instruction.out _ d s) start next = IsNext start (binary_length d s) next
Goes (Instruction.ise _) start next = IsNext start 2 next
Goes (Instruction.icl _) start next = IsNext start 2 next
