-- ===== src/Asm/Layout.antt =====
-- fox32asm/src/main.rs: the loop of `main` that gives each node its address and its bytes.
pub mod Framed
pub mod Placed
use Prim.Native.String.{String}
use fox.Prelude.{
  ℕ, zero, suc, ◌-◌, ◌%◌, ◌^◌, Bool, true, false, ltb, List, [], ◌∷◌, ◌++◌, length, if◌then◌else◌,
}
use fox.Outcome.{Outcome, done, panic, ◌>>=◌, origin_behind}
use fox.Word.{add_u32}
use fox.Asm.Ast.{AstNode}
use fox.Asm.Encode.{Assembling, LabelTargets, assemble_node}
use fox.Asm.Patch.{AssembledInstruction, LabelAddresses}

-- The locals of `main`, and the two tables of labels.
pub record Layout : Type 0 where
  pub instructions : List AssembledInstruction
  pub current_address : ℕ
  pub label_targets : LabelTargets
  pub label_addresses : LabelAddresses

abbrev pub empty_layout : Layout
empty_layout = record {
  instructions = [];
  current_address = 0;
  label_targets = [];
  label_addresses = [];
}

-- `vec![value; size]`
unfoldable pub repeated : (value size : ℕ) → List ℕ
repeated v zero = []
repeated v (suc n) = v ∷ repeated v n

-- `table.insert(name, ..)`: the newest address is found first.
abbrev insert_label : String → (address : ℕ) → (is_const : Bool) → Layout → Layout
insert_label name address is_const s = record s {
  label_addresses = (name, (address, is_const)) ∷ s.label_addresses;
}

-- Bytes that have no address of their own: the `Rc` of the address stays zero.
abbrev pub push_data : List ℕ → Layout → Layout
push_data bs s = record s {
  instructions = s.instructions ++ record { value = bs; address = 0 } ∷ [];
}

unfoldable pub push_assembled : (checks : Bool) → AstNode → Layout → Outcome Layout
push_assembled checks node s = do
  a ← assemble_node (length s.instructions) node s.label_targets
  next ← add_u32 checks s.current_address (length a.value % 2 ^ 32)
  done (record {
    instructions = s.instructions ++ record { value = a.value; address = s.current_address } ∷ [];
    current_address = next;
    label_targets = a.label_targets;
    label_addresses = s.label_addresses;
  })

unfoldable pub layout_node : (checks : Bool) → AstNode → Layout → Outcome Layout
unfolding repeated push_assembled
layout_node checks (AstNode.label_define name kind) s =
    done (insert_label name s.current_address false s)
layout_node checks (AstNode.constant name address) s = done (insert_label name address true s)
layout_node checks (AstNode.origin o) s =
    if ltb s.current_address o then done (record s { current_address = o }) else panic origin_behind
layout_node checks (AstNode.origin_padded o) s =
    if ltb s.current_address o
    then done (push_data (repeated 0 (o - s.current_address)) (record s { current_address = o }))
    else panic origin_behind
layout_node checks (AstNode.data_fill v n) s = do
  next ← add_u32 checks s.current_address n
  done (push_data (repeated v n) (record s { current_address = next }))
layout_node checks (AstNode.included_binary bs) s = do
  next ← add_u32 checks s.current_address (length bs % 2 ^ 32)
  done (push_data bs (record s { current_address = next }))
layout_node checks node s = push_assembled checks node s

unfoldable pub layout_nodes : (checks : Bool) → List AstNode → Layout → Outcome Layout
unfolding layout_node
layout_nodes checks [] s = done s
layout_nodes checks (node ∷ nodes) s = do
  s' ← layout_node checks node s
  layout_nodes checks nodes s'
