-- ===== src/Cpu.antt =====
-- fox32/src/cpu.rs, the interpreter of the emulator's "rust" runtime.
mod Tests
pub mod State
pub mod Decode
pub mod Operand
pub mod Stack
pub mod Interrupt
pub mod Arm
pub mod Alu
pub mod Move
pub mod Control
pub mod Execute
pub mod Runs
pub mod Keeps
pub mod Steady
pub mod Skipped
pub mod Registers
pub mod Thread
