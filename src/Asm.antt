-- ===== src/Asm.antt =====
-- fox32asm/src/main.rs, the assembler.
mod Tests
pub mod Ast
pub mod Encode
pub mod Meaning
pub mod Decoded
pub mod Length
pub mod Pair
pub mod Text
pub mod Value
pub mod Parser
pub mod Patch
pub mod Layout
pub mod Image
