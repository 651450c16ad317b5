-- ===== src/Asm/Parser/Build.antt =====
-- fox32asm/src/main.rs: `build_ast_from_expression` and what it calls. `read_binary` is the file
-- system under the source's directory, for `#include_bin`.
use fox.Prelude.{ℕ, zero, suc, ◌^◌, ◌%◌, Bool, true, false, List, [], ◌∷◌}
use fox.Outcome.{Outcome, done, panic, missing_pair, unsupported, no_fuel}
use fox.Asm.Ast.{Size, Condition, AstNode}
use fox.Asm.Pair.{
  Rule, Pair, Pairs, nil, cons, pair, as_rule, as_str, into_inner, next, first_inner,
}
use fox.Asm.Value.{
  parse_size, parse_condition, operand_node, parse_label, include_binary_file,
  parse_instruction_zero, parse_instruction_one, parse_instruction_two,
}
use fox.Asm.Parser.{
  P, pure, ◌>>=◌, ◌>>◌, lift, panics, get_size, set_size, get_condition, set_condition,
}

-- Behind a pointer's pair is the pair of its value.
unfoldable pub operand_pair : (is_pointer : Bool) → Pair → Outcome Pair
operand_pair true p = first_inner p
operand_pair false p = done p

unfoldable pub parse_operand : Pair → (is_pointer : Bool) → P AstNode
unfolding operand_pair operand_node
parse_operand p is_pointer = do
  size ← get_size
  v ← lift (operand_pair is_pointer p)
  lift (operand_node size is_pointer (as_rule v) v)

-- `if let AstNode::Immediate32(word) = ast`, with a panic otherwise.
abbrev pub immediate_of : AstNode → Outcome ℕ
immediate_of (AstNode.immediate32 v) = done v
immediate_of _ = panic unsupported

unfoldable pub parse_immediate : Pair → P ℕ
unfolding parse_operand
parse_immediate p = do ast ← parse_operand p false; lift (immediate_of ast)

unfoldable pub parse_constant : Pairs → P AstNode
unfolding parse_immediate
parse_constant ps = do
  set_size Size.word
  (name, operands) ← lift (next ps)
  text ← lift (first_inner name)
  (operand, rest) ← lift (next operands)
  address ← parse_immediate operand
  pure (AstNode.constant (as_str text) address)

-- A word of data is a number, or a label's address.
abbrev pub word_node : AstNode → Outcome AstNode
word_node (AstNode.immediate32 v) = done (AstNode.data_word v)
word_node (AstNode.label_operand name size r) = done (AstNode.label_operand name size r)
word_node _ = panic unsupported

unfoldable pub data_node : Rule → Pair → P AstNode
unfolding parse_immediate parse_operand
data_node Rule.data_byte p = do
  v ← lift (first_inner p)
  n ← parse_immediate v
  pure (AstNode.data_byte (n % 2 ^ 8))
data_node Rule.data_half p = do
  v ← lift (first_inner p)
  n ← parse_immediate v
  pure (AstNode.data_half (n % 2 ^ 16))
data_node Rule.data_word p = do
  v ← lift (first_inner p)
  ast ← parse_operand v false
  lift (word_node ast)
data_node Rule.data_str p = do
  quoted ← lift (first_inner p)
  body ← lift (first_inner quoted)
  pure (AstNode.data_str (as_str body))
data_node Rule.data_fill p = do
  v ← lift (first_inner p)
  value ← parse_immediate v
  (_, rest) ← lift (next (into_inner p))
  (w, _) ← lift (next rest)
  size ← parse_immediate w
  pure (AstNode.data_fill (value % 2 ^ 8) size)
data_node _ p = panics unsupported

unfoldable pub parse_data : Pair → P AstNode
unfolding data_node
parse_data p = data_node (as_rule p) p

unfoldable pub origin_node : Rule → Pair → P AstNode
unfolding parse_immediate
origin_node Rule.origin_no_padding p = do
  v ← lift (first_inner p)
  address ← parse_immediate v
  pure (AstNode.origin address)
origin_node Rule.origin_padding p = do
  v ← lift (first_inner p)
  address ← parse_immediate v
  pure (AstNode.origin_padded address)
origin_node _ p = panics unsupported

unfoldable pub parse_origin : Pair → P AstNode
unfolding origin_node
parse_origin p = origin_node (as_rule p) p

-- The size behind the name of an instruction, a word if there is none, and the pairs behind it.
unfoldable pub size_of_pairs : Rule → Pair → Pairs → Outcome (Size × Pairs)
unfolding parse_size
size_of_pairs Rule.size p ps = elim (parse_size p) [
  | panic e ↦ panic e
  | done size ↦ done (size, ps)
]
size_of_pairs _ p ps = done (Size.word, cons p ps)

unfoldable pub with_size : Pairs → Outcome (Size × Pairs)
unfolding size_of_pairs
with_size nil = panic missing_pair
with_size (cons p ps) = size_of_pairs (as_rule p) p ps

-- `again` is `build_ast_from_expression`, on the operands.
unfoldable pub conditional_node :
    (again : Pair → P AstNode) → Condition → Rule → Pair → Pairs → P AstNode
unfolding with_size parse_instruction_zero parse_instruction_one parse_instruction_two
conditional_node again c Rule.instruction_zero p ps = lift (parse_instruction_zero p c)
conditional_node again c Rule.instruction_one p ps = do
  (size, operands) ← lift (with_size ps)
  set_size size
  (operand, rest) ← lift (next operands)
  ast ← again operand
  lift (parse_instruction_one p ast size c)
conditional_node again c Rule.instruction_two p ps = do
  (size, operands) ← lift (with_size ps)
  set_size size
  (lhs, others) ← lift (next operands)
  (rhs, rest) ← lift (next others)
  lhs_ast ← again lhs
  rhs_ast ← again rhs
  lift (parse_instruction_two p lhs_ast rhs_ast size c)
conditional_node again c _ p ps = panics unsupported

unfoldable pub parse_instruction : (again : Pair → P AstNode) → Pair → P AstNode
unfolding conditional_node
parse_instruction again (pair Rule.instruction_conditional text ps) = do
  c ← get_condition
  (p, operands) ← lift (next ps)
  conditional_node again c (as_rule p) p operands
parse_instruction again _ = panics unsupported

-- The first `match` of `build_ast_from_expression`: whether the pair is a pointer, and the pairs
-- that are left, after the condition has been set.
unfoldable pub heading : Pairs → P (Bool × Pairs)
unfolding parse_condition
heading (cons (pair Rule.condition text inner) ps) = do
  c ← lift (parse_condition (pair Rule.condition text inner))
  set_condition c
  pure (false, ps)
heading (cons (pair Rule.operand_value_ptr text inner) ps) =
    pure (true, cons (pair Rule.operand_value_ptr text inner) ps)
heading (cons p ps) = pure (false, cons p ps)
heading nil = panics missing_pair

module _ (read_binary : List ℕ → Outcome (List ℕ)) where
  -- The second `match`.
  unfoldable pub build_rule :
      (again : Pair → P AstNode) → Rule → (is_pointer : Bool) → Pairs → P AstNode
  unfolding parse_instruction parse_operand parse_constant parse_label parse_data parse_origin
      include_binary_file
  build_rule again Rule.assembly is_pointer ps = do (p, rest) ← lift (next ps); again p
  build_rule again Rule.instruction is_pointer ps = do
    (p, rest) ← lift (next ps)
    parse_instruction again p
  build_rule again Rule.operand is_pointer ps = do
    (p, rest) ← lift (next ps)
    parse_operand p is_pointer
  build_rule again Rule.constant is_pointer ps = parse_constant ps
  build_rule again Rule.label is_pointer ps = do
    (p, rest) ← lift (next ps)
    lift (parse_label p rest)
  build_rule again Rule.data_ is_pointer ps = do (p, rest) ← lift (next ps); parse_data p
  build_rule again Rule.origin is_pointer ps = do (p, rest) ← lift (next ps); parse_origin p
  build_rule again Rule.include_bin is_pointer ps = do
    (p, rest) ← lift (next ps)
    lift (include_binary_file read_binary p)
  build_rule again _ is_pointer ps = panics unsupported

  -- The fuel bounds the depth of the recursion.
  unfoldable pub build_ast_from_expression : (fuel : ℕ) → Pair → P AstNode
  unfolding build_rule heading
  build_ast_from_expression zero p = panics no_fuel
  build_ast_from_expression (suc fuel) (pair rule text inner) = do
    set_condition Condition.always
    (is_pointer, ps) ← heading inner
    build_rule (build_ast_from_expression fuel) rule is_pointer ps

  -- The loop of `parse` over the pairs of the program.
  unfoldable pub parse : (fuel : ℕ) → Pairs → P (List AstNode)
  unfolding build_ast_from_expression
  parse fuel nil = pure []
  parse fuel (cons (pair Rule.eoi text inner) ps) = pure []
  parse fuel (cons p ps) = do
    node ← build_ast_from_expression fuel p
    nodes ← parse fuel ps
    pure (node ∷ nodes)
