-- ===== src/Lib.antt =====
-- fox32, an emulator of a 32-bit computer, and fox32asm, its assembler: a model of the processor, the
-- memory, and the assembler from the parse tree to the output, with the theorems listed at the end.
--
-- The emulator runs one processor on a bus that owns the memory and the devices. The processor
-- fetches a 16-bit half at its instruction pointer, decodes it, reads the operands behind it, and
-- executes it, which returns the next instruction pointer. The assembler reads a parse tree
-- into nodes, turns a node into those bytes, and writes the labels' addresses into them. The two share
-- the encoding and nothing else, so the model holds both.
--
-- Which file models what (paths from the repository's root):
--   * Outcome: a Rust call that returns or panics; a panic carries its cause.
--   * Word: the unsigned integers of Rust, with the wrapped and the checked operations written out.
--     Its children hold the laws of bytes, bits, shifts and rotations.
--   * Memory: fox32/src/memory.rs. `find`, `find_unwrapped` and `arrayslice` keep their names; `read`
--     and `write` take the number of bytes in place of the suffix 8, 16 or 32.
--   * Cpu.State, Cpu.Decode, Cpu.Operand, Cpu.Stack, Cpu.Interrupt: the types and methods of
--     fox32/src/cpu.rs. A method takes a processor, and whether the build checks for overflow.
--   * Cpu.Arm, Cpu.Alu, Cpu.Move, Cpu.Control, Cpu.Execute: `execute_instruction`, one definition
--     `execute_<name>` for each arm, and `execute_memory_instruction`. The arms that compute repeat one
--     text at three sizes and three kinds of destination; Cpu.Arm writes that text once, with the
--     operation, what it stores, and whether it computes before or behind the test of the condition
--     as arguments.
--   * Cpu.Thread: the `Runtime` of the processor in fox32/src/runtime.rs, and the loop of the `cpu`
--     thread in fox32/src/main.rs, as a relation of steps; what the channel of the interrupts gives is
--     chosen freely.
--   * Cpu.Keeps, Cpu.Runs, Cpu.Steady, Cpu.Skipped, Cpu.Registers, Cpu.Thread.Wakes and the modules
--     named Laws: proofs about these.
--   * Asm.Ast, Asm.Encode: the nodes and `assemble_node` of fox32asm/src/main.rs. Asm.Meaning says what
--     a node means by the names alone; Asm.Decoded compares the two and what the processor executes, and
--     Asm.Length compares the lengths.
--   * Asm.Pair, Asm.Text, Asm.Value, Asm.Parser: `parse`, `build_ast_from_expression` and what they
--     call, over the trees of the parser library. A tree is any tree of the rules of fox32.pest, also
--     one that the grammar does not give. The statics CURRENT_SIZE and CURRENT_CONDITION are a state
--     that is passed on. Asm.Parser.Sized and Asm.Parser.Sound follow the sizes of the operands,
--     Asm.Parser.Ends and Asm.Parser.Fuel the recursion, and Asm.Parser.Bounds the numbers.
--   * Asm.Patch: `BackpatchTarget`, `AssembledInstruction` and `perform_backpatching`. The output is a
--     list, and a target names its instruction by the number, where the source shares an `Rc`.
--   * Asm.Layout, Asm.Image: the loop of `main` over the nodes, and the bytes of the output, with the
--     header and the relocations of an FXF file. The hash map of the targets is a list; the order in
--     which it is read is an argument.
--   * Device: fox32/src/bus.rs, disk.rs, keyboard.rs, mouse.rs and audio.rs, and the overlays of main.rs.
--     Device.Parts and Device.Disk are the devices, and Device.Bus the two calls for a port. Files, the
--     dialog for a file, the ring buffer of the keyboard and the terminal are the fields of a `Host`;
--     what a theorem needs of them is in `HostTypes` and `RingLaws`. The locks are left out: one call is
--     one step.
--   * The modules named Tests run the model on concrete input.
--
-- The parser takes fuel, which bounds the depth of its recursion: the number of the tree's pairs is
-- enough. No other definition uses fuel: an instruction has no loop, and the reads and writes
-- recurse on the number of bytes.
--
-- The theorems about the processor take the devices as a parameter: a type of their state and the two
-- calls of an `Io`. Where a theorem needs it, `IoLaws` says of an invariant of the devices that a read
-- keeps it and gives a 32-bit word, and that a write of a word keeps it and leaves bytes in memory.
-- Device.Served gives these laws for the bus of the emulator, with the Rust types of its fields as the
-- invariant.
--
-- Not modelled: the other threads, the window and the drawing of fox32/src/main.rs, the dump of the
-- memory to a file and what is printed, the pest parser and the inclusion of text files in the
-- assembler, and fox32core, which is written in C.
pub mod Prelude
pub mod Outcome
pub mod Word
pub mod Memory
pub mod Cpu
pub mod Device
pub mod Asm
