-- ===== src/Asm/Image.antt =====
-- fox32asm/src/main.rs: the rest of `main`, from the nodes to the bytes of the output file. `order`
-- is the order in which the hash map of the targets is read, and `is_fxf` whether the output's name
-- ends so.
pub mod Laws
mod Tests
use fox.Prelude.{ℕ, ◌+◌, ◌*◌, ◌%◌, ◌^◌, Bool, List, [], ◌∷◌, ◌++◌, length, if◌then◌else◌}
use fox.Outcome.{Outcome, done, ◌>>=◌}
use fox.Word.{add_u32}
use fox.Word.Bytes.{to_le_bytes}
use fox.Asm.Ast.{AstNode}
use fox.Asm.Encode.{LabelTargets}
use fox.Asm.Patch.{AssembledInstruction, Patching, set_bytes, backpatch_labels}
use fox.Asm.Layout.{Layout, empty_layout, layout_nodes}

abbrev pub fxf_reloc_size : ℕ
fxf_reloc_size = 0x1C

abbrev pub fxf_reloc_ptr : ℕ
fxf_reloc_ptr = 0x20

-- The bytes of the instructions, one after the other.
unfoldable pub code_bytes : List AssembledInstruction → List ℕ
code_bytes [] = []
code_bytes (a ∷ l) = a.value ++ code_bytes l

-- The header, with the size and the pointer of the table of relocations still zero.
unfoldable pub fxf_header : (code_size : ℕ) → List ℕ
unfolding to_le_bytes
fxf_header code_size =
    b'F' ∷ b'X' ∷ b'F' ∷ 0 ∷ to_le_bytes 4 (code_size % 2 ^ 32)
    ++ to_le_bytes 4 0x24
    ++ to_le_bytes 4 0
    ++ to_le_bytes 4 0
    ++ to_le_bytes 4 0
    ++ to_le_bytes 4 0
    ++ to_le_bytes 4 0
    ++ to_le_bytes 4 0

unfoldable pub reloc_bytes : List ℕ → List ℕ
reloc_bytes [] = []
reloc_bytes (address ∷ table) = to_le_bytes 4 address ++ reloc_bytes table

-- `reloc_table_size += 4` for each address, on `u32`.
unfoldable pub reloc_table_size : (checks : Bool) → List ℕ → (size : ℕ) → Outcome ℕ
reloc_table_size checks [] size = done size
reloc_table_size checks (address ∷ table) size = do
  next ← add_u32 checks size 4
  reloc_table_size checks table next

-- The header is completed behind the code and the table of relocations.
unfoldable pub fxf_image : (checks : Bool) → Patching → Outcome (List ℕ)
unfolding code_bytes fxf_header reloc_bytes reloc_table_size
fxf_image checks s = do
  let code = code_bytes s.instructions
  let binary = fxf_header (length code) ++ code
  let with_table = binary ++ reloc_bytes s.reloc_addresses
  size ← reloc_table_size checks s.reloc_addresses 0
  sized ← set_bytes fxf_reloc_size (to_le_bytes 4 size) with_table
  set_bytes fxf_reloc_ptr (to_le_bytes 4 (length binary % 2 ^ 32)) sized

unfoldable pub image : (checks is_fxf : Bool) → Patching → Outcome (List ℕ)
unfolding fxf_image code_bytes
image checks is_fxf s = if is_fxf then fxf_image checks s else done (code_bytes s.instructions)

unfoldable pub assemble :
    (checks is_fxf : Bool) → (order : LabelTargets → LabelTargets) → List AstNode → Outcome (List ℕ)
unfolding image
assemble checks is_fxf order nodes = do
  s ← layout_nodes checks nodes empty_layout
  p ←
      backpatch_labels checks s.label_addresses (order s.label_targets)
        (record { instructions = s.instructions; reloc_addresses = [] })
  image checks is_fxf p
