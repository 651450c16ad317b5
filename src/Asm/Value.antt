-- ===== src/Asm/Value.antt =====
-- fox32asm/src/main.rs: the functions of the parser that read one pair and keep no state.
use Prim.Native.String.{String}
use fox.Prelude.{ℕ, ◌^◌, ◌%◌, Bool, true, false, List, [], ◌∷◌}
use fox.Outcome.{Outcome, done, panic, ◌>>=◌, missing_pair, unsupported}
use fox.Asm.Ast.{
  InstructionZero, InstructionOne, InstructionTwo, Size, Condition, LabelKind, AstNode,
}
use fox.Asm.Pair.{Rule, Pair, Pairs, nil, cons, as_rule, as_str, first_inner}
use fox.Asm.Text.{chars, parse_number, first_char, register_number, match_text, trim}

abbrev pub size_names : List (String × Size)
size_names = (".8", Size.byte) ∷ (".16", Size.half) ∷ (".32", Size.word) ∷ []

unfoldable pub parse_size : Pair → Outcome Size
unfolding match_text
parse_size p = match_text (as_str p) size_names

abbrev pub condition_names : List (String × Condition)
condition_names =
    (("ifz", Condition.zero)
      ∷ ("ifnz", Condition.not_zero)
      ∷ ("ifc", Condition.carry)
      ∷ ("ifnc", Condition.not_carry)
      ∷ ("ifgt", Condition.greater_than)
      ∷ ("ifgteq", Condition.not_carry)
      ∷ ("iflt", Condition.carry)
      ∷ ("iflteq", Condition.less_than_equal_to)
      ∷ [])

unfoldable pub parse_condition : Pair → Outcome Condition
unfolding match_text
parse_condition p = match_text (as_str p) condition_names

-- The node of an immediate value, which its four notations share.
unfoldable pub immediate_node : Size → (is_pointer : Bool) → ℕ → AstNode
immediate_node size true v = AstNode.immediate_pointer v
immediate_node Size.byte false v = AstNode.immediate8 (v % 2 ^ 8)
immediate_node Size.half false v = AstNode.immediate16 (v % 2 ^ 16)
immediate_node Size.word false v = AstNode.immediate32 v

unfoldable pub register_node : (is_pointer : Bool) → ℕ → AstNode
register_node true r = AstNode.register_pointer r
register_node false r = AstNode.register r

unfoldable pub label_node : Size → (is_pointer : Bool) → String → AstNode
label_node size true name = AstNode.label_operand_pointer name false
label_node size false name = AstNode.label_operand name size false

-- The `match` on the rule of the operand's value.
unfoldable pub value_node : Size → (is_pointer : Bool) → Rule → Pair → Outcome AstNode
unfolding parse_number first_char register_number immediate_node register_node label_node
value_node size is_pointer Rule.immediate_bin v = do
  body ← first_inner v
  n ← parse_number 2 (as_str body)
  done (immediate_node size is_pointer n)
value_node size is_pointer Rule.immediate_hex v = do
  body ← first_inner v
  n ← parse_number 16 (as_str body)
  done (immediate_node size is_pointer n)
value_node size is_pointer Rule.immediate_dec v = do
  body ← first_inner v
  n ← parse_number 10 (as_str body)
  done (immediate_node size is_pointer n)
value_node size is_pointer Rule.immediate_char v = do
  body ← first_inner v
  n ← first_char (chars (as_str body))
  done (immediate_node size is_pointer n)
value_node size is_pointer Rule.register v = do
  number ← first_inner v
  r ← register_number (as_str number)
  done (register_node is_pointer r)
value_node size is_pointer Rule.label_name v = done (label_node size is_pointer (as_str v))
value_node size is_pointer _ v = panic unsupported

unfoldable pub operand_node : Size → (is_pointer : Bool) → Rule → Pair → Outcome AstNode
unfolding value_node
operand_node size is_pointer Rule.operand_value p = do
  v ← first_inner p
  value_node size is_pointer (as_rule v) v
operand_node size is_pointer _ p = panic unsupported

unfoldable pub kind_of : Rule → Outcome LabelKind
kind_of Rule.label_external = done LabelKind.external
kind_of Rule.label_global = done LabelKind.global
kind_of _ = panic unsupported

-- The pair behind a label's kind is its name.
unfoldable pub label_of : Rule → Pair → (next : Pairs) → Outcome AstNode
unfolding kind_of
label_of Rule.label_kind p nil = panic missing_pair
label_of Rule.label_kind p (cons name ps) = do
  inner ← first_inner p
  kind ← kind_of (as_rule inner)
  done (AstNode.label_define (as_str name) kind)
label_of _ p ps = done (AstNode.label_define (as_str p) LabelKind.internal)

unfoldable pub parse_label : Pair → (next : Pairs) → Outcome AstNode
unfolding label_of
parse_label p ps = label_of (as_rule p) p ps

-- `read_binary` is the file system, under the directory of the source file.
unfoldable pub include_binary_file :
    (read_binary : List ℕ → Outcome (List ℕ)) → Pair → Outcome AstNode
include_binary_file read_binary p = do
  path ← first_inner p
  binary ← read_binary (trim (chars (as_str path)))
  done (AstNode.included_binary binary)

abbrev pub zero_names : List (String × InstructionZero)
zero_names =
    (("nop", InstructionZero.nop)
      ∷ ("halt", InstructionZero.halt)
      ∷ ("brk", InstructionZero.brk)
      ∷ ("ret", InstructionZero.ret)
      ∷ ("reti", InstructionZero.reti)
      ∷ ("ise", InstructionZero.ise)
      ∷ ("icl", InstructionZero.icl)
      ∷ [])

unfoldable pub parse_instruction_zero : Pair → Condition → Outcome AstNode
unfolding match_text
parse_instruction_zero p c = do
  i ← match_text (as_str p) zero_names
  done (AstNode.operation_zero c i)

-- `*is_relative = true`, of the two nodes that have it.
unfoldable pub make_relative : AstNode → AstNode
make_relative (AstNode.label_operand name size r) = AstNode.label_operand name size true
make_relative (AstNode.label_operand_pointer name r) = AstNode.label_operand_pointer name true
make_relative node = node

-- The instructions whose arm makes a label relative.
unfoldable pub one_operand : InstructionOne → AstNode → AstNode
unfolding make_relative
one_operand InstructionOne.rjmp operand = make_relative operand
one_operand InstructionOne.rcall operand = make_relative operand
one_operand InstructionOne.rloop operand = make_relative operand
one_operand _ operand = operand

abbrev pub one_names : List (String × InstructionOne)
one_names =
    (("inc", InstructionOne.inc)
      ∷ ("dec", InstructionOne.dec)
      ∷ ("not", InstructionOne.not)
      ∷ ("jmp", InstructionOne.jmp)
      ∷ ("call", InstructionOne.call)
      ∷ ("loop", InstructionOne.loop)
      ∷ ("rjmp", InstructionOne.rjmp)
      ∷ ("rcall", InstructionOne.rcall)
      ∷ ("rloop", InstructionOne.rloop)
      ∷ ("push", InstructionOne.push)
      ∷ ("pop", InstructionOne.pop)
      ∷ [])

unfoldable pub parse_instruction_one :
    Pair → (operand : AstNode) → Size → Condition → Outcome AstNode
unfolding match_text one_operand
parse_instruction_one p operand size c = do
  i ← match_text (as_str p) one_names
  done (AstNode.operation_one size c i (one_operand i operand))

unfoldable pub two_operand : InstructionTwo → AstNode → AstNode
unfolding make_relative
two_operand InstructionTwo.rta operand = make_relative operand
two_operand _ operand = operand

abbrev pub two_names : List (String × InstructionTwo)
two_names =
    (("add", InstructionTwo.add)
      ∷ ("sub", InstructionTwo.sub)
      ∷ ("mul", InstructionTwo.mul)
      ∷ ("div", InstructionTwo.div)
      ∷ ("rem", InstructionTwo.rem)
      ∷ ("and", InstructionTwo.and)
      ∷ ("or", InstructionTwo.or)
      ∷ ("xor", InstructionTwo.xor)
      ∷ ("sla", InstructionTwo.sla)
      ∷ ("sra", InstructionTwo.sra)
      ∷ ("srl", InstructionTwo.srl)
      ∷ ("rol", InstructionTwo.rol)
      ∷ ("ror", InstructionTwo.ror)
      ∷ ("bse", InstructionTwo.bse)
      ∷ ("bcl", InstructionTwo.bcl)
      ∷ ("bts", InstructionTwo.bts)
      ∷ ("cmp", InstructionTwo.cmp)
      ∷ ("mov", InstructionTwo.mov)
      ∷ ("movz", InstructionTwo.movz)
      ∷ ("rta", InstructionTwo.rta)
      ∷ ("in", InstructionTwo.«in»)
      ∷ ("out", InstructionTwo.out)
      ∷ [])

unfoldable pub parse_instruction_two :
    Pair → (lhs rhs : AstNode) → Size → Condition → Outcome AstNode
unfolding match_text two_operand
parse_instruction_two p lhs rhs size c = do
  i ← match_text (as_str p) two_names
  done (AstNode.operation_two size c i (two_operand i lhs) (two_operand i rhs))
