-- ===== src/Asm/Parser/Fuel.antt =====
-- fox32asm/src/main.rs: `build_ast_from_expression` recurs into smaller trees only.
use fox.Prelude.{ℕ, zero, suc, ◌+◌, ◌≤◌, Bool, List, arith}
use fox.Outcome.{Outcome, done, panic}
use fox.Outcome.Ends.{Ends, Any, Ends-bind}
use fox.Asm.Ast.{Size, Condition, AstNode}
use fox.Asm.Pair.{Rule, Pair, Pairs, nil, cons, pair, as_rule, as_str, next, first_inner}
use fox.Asm.Text.{match_text, chars, trim}
use fox.Asm.Value.{
  parse_size, parse_condition, parse_label, include_binary_file, parse_instruction_zero,
  parse_instruction_one, parse_instruction_two, size_names, condition_names, zero_names, one_names,
  two_names,
}
use fox.Asm.Parser.{Parser, P}
use fox.Asm.Parser.Build.{
  parse_data, parse_origin, conditional_node, parse_instruction, heading, build_rule,
  build_ast_from_expression, with_size, size_of_pairs, parse,
}
use fox.Asm.Parser.Ends.{
  pair_count, pairs_count, BothBelow, lifted, stepped, lifted-last, match_text-Ends,
  first_inner-Ends, next-Ends, parse_operand-Ends, parse_constant-Ends, data_node-Ends,
  origin_node-Ends, label_of-Ends,
}

-- The size, and pairs that are not more.
abbrev SizedBelow : ℕ → Size × Pairs → Type 0
SizedBelow n (z, ps) = pairs_count ps ≤ n

-- The size that was read, with the pairs behind it.
sized-Ends :
    (n : ℕ) (ps : Pairs) (r : Outcome Size)
    → Ends Any r
    → pairs_count ps ≤ n
    → Ends (SizedBelow n) (elim r [ panic e ↦ panic e | done size ↦ done (size, ps) ])
sized-Ends n ps (done z) h k = k
sized-Ends n ps (panic e) h k = h

size_of_pairs-Ends :
    (n : ℕ) (r : Rule) (p : Pair) (ps : Pairs)
    → pair_count p + pairs_count ps ≤ n
    → Ends (SizedBelow n) (size_of_pairs r p ps)
unfolding size_of_pairs parse_size pairs_count
size_of_pairs-Ends n Rule.size p ps h =
    sized-Ends n ps (parse_size p) (match_text-Ends (as_str p) size_names) (omega arith)
size_of_pairs-Ends n _ p ps h = omega arith

with_size-Ends : (n : ℕ) (ps : Pairs) → pairs_count ps ≤ n → Ends (SizedBelow n) (with_size ps)
unfolding with_size pairs_count
with_size-Ends n nil h = tt
with_size-Ends n (cons p ps) h = size_of_pairs-Ends n (as_rule p) p ps h

instruction_zero-Ends : (p : Pair) (c : Condition) → Ends Any (parse_instruction_zero p c)
unfolding parse_instruction_zero
instruction_zero-Ends p c =
    Ends-bind Any Any (match_text (as_str p) zero_names) (λ i. done (AstNode.operation_zero c i))
      (match_text-Ends (as_str p) zero_names) λ i h. tt

instruction_one-Ends :
    (p : Pair) (o : AstNode) (z : Size) (c : Condition) → Ends Any (parse_instruction_one p o z c)
unfolding parse_instruction_one
instruction_one-Ends p o z c =
    Ends-bind Any Any (match_text (as_str p) one_names) _ (match_text-Ends (as_str p) one_names)
      λ i h. tt

instruction_two-Ends :
    (p : Pair) (lhs rhs : AstNode) (z : Size) (c : Condition)
    → Ends Any (parse_instruction_two p lhs rhs z c)
unfolding parse_instruction_two
instruction_two-Ends p lhs rhs z c =
    Ends-bind Any Any (match_text (as_str p) two_names) _ (match_text-Ends (as_str p) two_names)
      λ i h. tt

-- A parser that ends on every tree of at most `n` pairs.
abbrev EndsBelow : ℕ → (Pair → P AstNode) → Type 0
EndsBelow n again = (p : Pair) (s : Parser) → pair_count p ≤ n → Ends Any (again p s)

conditional_node-Ends :
    (n : ℕ) (again : Pair → P AstNode)
    → EndsBelow n again
    → (c : Condition) (r : Rule) (p : Pair) (ps : Pairs) (s : Parser) → pairs_count ps ≤ n
    → Ends Any (conditional_node again c r p ps s)
unfolding conditional_node
conditional_node-Ends n again h c Rule.instruction_zero p ps s b =
    lifted-last _ s (instruction_zero-Ends p c)
conditional_node-Ends n again h c Rule.instruction_one p ps s b =
    lifted (SizedBelow n) Any (with_size ps) _ s (with_size-Ends n ps b) λ (size, operands) b.
      let s' : Parser = record s { current_size = size } in
      lifted (BothBelow n) Any (next operands) _ s' (next-Ends n operands b)
        λ (operand, rest) (b, _).
          stepped Any Any (again operand) _ s' (h operand s' b)
            λ ast s'' k. lifted-last _ s'' (instruction_one-Ends p ast size c)
conditional_node-Ends n again h c Rule.instruction_two p ps s b =
    lifted (SizedBelow n) Any (with_size ps) _ s (with_size-Ends n ps b) λ (size, operands) b.
      let s' : Parser = record s { current_size = size } in
      lifted (BothBelow n) Any (next operands) _ s' (next-Ends n operands b)
        λ (lhs, others) (bl, b).
          lifted (BothBelow n) Any (next others) _ s' (next-Ends n others b) λ (rhs, rest) (br, b).
            stepped Any Any (again lhs) _ s' (h lhs s' bl) λ a s₁ k.
              stepped Any Any (again rhs) _ s₁ (h rhs s₁ br)
                λ a' s₂ k'. lifted-last _ s₂ (instruction_two-Ends p a a' size c)
conditional_node-Ends n again h c _ p ps s b = tt

parse_instruction-Ends :
    (n : ℕ) (again : Pair → P AstNode)
    → EndsBelow n again
    → (p : Pair) (s : Parser) → pair_count p ≤ n
    → Ends Any (parse_instruction again p s)
unfolding parse_instruction pair_count
parse_instruction-Ends n again h (pair Rule.instruction_conditional text ps) s b =
    lifted (BothBelow n) Any (next ps) _ s (next-Ends n ps (omega arith)) λ (p, operands) (_, b).
      conditional_node-Ends n again h s.current_condition (as_rule p) p operands s b
parse_instruction-Ends n again h _ s b = tt

abbrev HeadBelow : ℕ → Bool × Pairs → Type 0
HeadBelow n (ip, ps) = pairs_count ps ≤ n

abbrev HeadingBelow : ℕ → (Bool × Pairs) × Parser → Type 0
HeadingBelow n (h, s) = HeadBelow n h

heading-Ends :
    (n : ℕ) (ps : Pairs) (s : Parser) → pairs_count ps ≤ n → Ends (HeadingBelow n) (heading ps s)
unfolding heading pairs_count parse_condition
heading-Ends n (cons (pair Rule.condition text inner) ps) s b =
    lifted Any (HeadingBelow n) (parse_condition (pair Rule.condition text inner)) _ s
      (match_text-Ends text condition_names) λ c h. omega arith
heading-Ends n (cons (pair Rule.operand_value_ptr text inner) ps) s b = b
heading-Ends n (cons p ps) s b = b
heading-Ends n nil s b = tt

module _ (read_binary : List ℕ → Outcome (List ℕ))
    (ends : (path : List ℕ) → Ends Any (read_binary path)) where
  include_binary_file-Ends : (p : Pair) → Ends Any (include_binary_file read_binary p)
  unfolding include_binary_file
  include_binary_file-Ends p = Ends-bind Any Any (first_inner p) _ (first_inner-Ends p) λ path h.
      Ends-bind Any Any (read_binary (trim (chars (as_str path)))) _ (ends _) λ binary h. tt

  build_rule-Ends :
      (n : ℕ) (again : Pair → P AstNode)
      → EndsBelow n again
      → (r : Rule) (ip : Bool) (ps : Pairs) (s : Parser) → pairs_count ps ≤ n
      → Ends Any (build_rule read_binary again r ip ps s)
  unfolding build_rule parse_label parse_data parse_origin
  build_rule-Ends n again h Rule.assembly ip ps s b =
      lifted (BothBelow n) Any (next ps) _ s (next-Ends n ps b) λ (p, rest) (b, _). h p s b
  build_rule-Ends n again h Rule.instruction ip ps s b =
      lifted (BothBelow n) Any (next ps) _ s (next-Ends n ps b)
        λ (p, rest) (b, _). parse_instruction-Ends n again h p s b
  build_rule-Ends n again h Rule.operand ip ps s b =
      lifted (BothBelow n) Any (next ps) _ s (next-Ends n ps b)
        λ (p, rest) b. parse_operand-Ends p ip s
  build_rule-Ends n again h Rule.constant ip ps s b = parse_constant-Ends ps s
  build_rule-Ends n again h Rule.label ip ps s b =
      lifted (BothBelow n) Any (next ps) _ s (next-Ends n ps b)
        λ (p, rest) b. lifted-last _ s (label_of-Ends (as_rule p) p rest)
  build_rule-Ends n again h Rule.data_ ip ps s b =
      lifted (BothBelow n) Any (next ps) _ s (next-Ends n ps b)
        λ (p, rest) b. data_node-Ends (as_rule p) p s
  build_rule-Ends n again h Rule.origin ip ps s b =
      lifted (BothBelow n) Any (next ps) _ s (next-Ends n ps b)
        λ (p, rest) b. origin_node-Ends (as_rule p) p s
  build_rule-Ends n again h Rule.include_bin ip ps s b =
      lifted (BothBelow n) Any (next ps) _ s (next-Ends n ps b)
        λ (p, rest) b. lifted-last _ s (include_binary_file-Ends p)
  build_rule-Ends n again h _ ip ps s b = tt

  build_ast_from_expression-Ends :
      (fuel : ℕ) → EndsBelow fuel (build_ast_from_expression read_binary fuel)
  unfolding build_ast_from_expression pair_count
  build_ast_from_expression-Ends zero (pair rule text inner) s b = absurd (omega arith)
  build_ast_from_expression-Ends (suc fuel) (pair rule text inner) s b =
      let s₀ : Parser = record s { current_condition = Condition.always } in
      stepped (HeadBelow fuel) Any (heading inner) _ s₀ (heading-Ends fuel inner s₀ (omega arith))
        λ (ip, ps) s₁ b.
          build_rule-Ends fuel _ (build_ast_from_expression-Ends fuel) rule ip ps s₁ b

  pub parse-Ends :
      (fuel : ℕ) (ps : Pairs) (s : Parser)
      → pairs_count ps ≤ fuel
      → Ends Any (parse read_binary fuel ps s)
  unfolding parse pairs_count
  parse-Ends fuel nil s b = tt
  parse-Ends fuel (cons (pair Rule.eoi text inner) ps) s b = tt
  parse-Ends fuel (cons p ps) s b =
      stepped Any Any (build_ast_from_expression read_binary fuel p) _ s
        (build_ast_from_expression-Ends fuel p s (omega arith))
        λ node s₁ h.
          stepped Any Any (parse read_binary fuel ps) _ s₁ (parse-Ends fuel ps s₁ (omega arith))
            λ nodes s₂ k. tt
