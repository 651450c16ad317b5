-- ===== src/Asm/Decoded/Fetched.antt =====
-- fox32asm/src/main.rs against fox32/src/cpu.rs: a processor that stands at an assembled operation
-- executes what the operation means.
use mathlib.Core.Path.{subst}
use fox.Prelude.{ℕ, ◌≡◌, sym, ap, ◌∙◌, Bool, some, List, [], ◌∷◌, length}
use fox.Outcome.{Outcome, done}
use fox.Word.Bytes.{from_le_bytes}
use fox.Memory.{Memory, Slice, slice_bytes, read}
use fox.Memory.Find.{Mapped, find_unwrapped-Mapped}
use fox.Cpu.State.{Cpu, Io, ◌>>=◌, lift, load, set_ip}
use fox.Cpu.Runs.{runs-bind}
use fox.Cpu.Decode.{Instruction, from_half}
use fox.Cpu.Execute.{execute_instruction, run_decoded, execute_memory_instruction}
use fox.Asm.Ast.{AstNode}
use fox.Asm.Encode.{Assembling, LabelTargets, assemble_node}
use fox.Asm.Meaning.{meaning}
use fox.Asm.Decoded.Assembled.{IsOperation, Opens, from_half-assemble_node}

-- The first two bytes, which no label is written over.
abbrev pub opcode_bytes : List ℕ → List ℕ
opcode_bytes (first ∷ second ∷ rest) = first ∷ second ∷ []
opcode_bytes _ = []

-- The memory holds the bytes from the address on.
abbrev pub Holds : Memory → (address : ℕ) → List ℕ → Type 0
Holds m address bs = (s : Slice) × Mapped (length bs) address s × (slice_bytes (length bs) m s ≡ bs)

assembled_once : {a b : Assembling} → done a ≡ done b → a ≡ b
assembled_once e = cc

read-Holds :
    (m : Memory) (address first second : ℕ)
    → Holds m address (first ∷ second ∷ [])
    → read 2 m address ≡ done (from_le_bytes (first ∷ second ∷ []))
unfolding read
read-Holds m address first second (s, mapped, same) =
    rw (find_unwrapped-Mapped 2 address mapped) (ap (λ (bs : List ℕ). done (from_le_bytes bs)) same)

meaning-IsOperation : (node : AstNode) {i : Instruction} → meaning node ≡ some i → IsOperation node
meaning-IsOperation (AstNode.operation_zero c i) e = tt
meaning-IsOperation (AstNode.operation_one z c i operand) e = tt
meaning-IsOperation (AstNode.operation_two z c i lhs rhs) e = tt
meaning-IsOperation _ e = absurd cc

module _ {D : Type 0} (io : Io D) (checks : Bool) (s : Cpu D) where
  half_loaded :
      (half : ℕ)
      → read 2 s.bus.memory s.instruction_pointer ≡ done half
      → load 2 s.instruction_pointer checks s ≡ done (half, s)
  unfolding load
  half_loaded half r = ap (λ (o : Outcome ℕ). lift o checks s) r

  fetched :
      (i : Instruction) (half : ℕ)
      → read 2 s.bus.memory s.instruction_pointer ≡ done half
      → from_half half ≡ some i
      → execute_memory_instruction io checks s ≡ (execute_instruction io i >>= set_ip) checks s
  unfolding execute_memory_instruction run_decoded
  fetched i half r d =
      runs-bind (λ o. run_decoded io o (from_half o)) checks (load 2 s.instruction_pointer) s
        (half_loaded half r)
      ∙ ap (λ o. run_decoded io half o checks s) d

  -- Where the memory holds the two opcode bytes of an assembled operation at the instruction pointer,
  -- the processor executes the instruction that the operation means and goes on where that leads.
  pub execute_memory_instruction-assemble_node :
      (id : ℕ) (node : AstNode) (table : LabelTargets) {i : Instruction} {a : Assembling}
      → meaning node ≡ some i
      → assemble_node id node table ≡ done a
      → Holds s.bus.memory s.instruction_pointer (opcode_bytes a.value)
      → execute_memory_instruction io checks s ≡ (execute_instruction io i >>= set_ip) checks s
  execute_memory_instruction-assemble_node id node table {i} {a} m run h =
      let (b, run', (first, second, (rest, v, d))) : Opens (some i) (assemble_node id node table) =
        subst (λ o. Opens o (assemble_node id node table)) m
          (from_half-assemble_node id table node (meaning-IsOperation node m)) in
      let value : a.value ≡ first ∷ second ∷ rest =
        ap (λ (c : Assembling). c.value) (assembled_once (sym run ∙ run')) ∙ v in
      fetched i (from_le_bytes (first ∷ second ∷ []))
        (read-Holds s.bus.memory s.instruction_pointer first second
          (subst (λ bs. Holds s.bus.memory s.instruction_pointer (opcode_bytes bs)) value h))
        d
