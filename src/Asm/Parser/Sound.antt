-- ===== src/Asm/Parser/Sound.antt =====
-- fox32asm/src/main.rs: what `build_ast_from_expression` builds, `assemble_node` assembles.
use fox.Prelude.{ℕ, zero, suc, ◌≡◌, refl, sym, ◌∙◌, inl, inr, Bool, List, Option, All}
use mathlib.Core.Path.{subst}
use fox.Outcome.{Outcome, done, panic, Ensures, after}
use fox.Asm.Ast.{Size, Condition, AstNode}
use fox.Asm.Pair.{Rule, Pair, Pairs, nil, cons, pair, as_rule, as_str, next}
use fox.Asm.Value.{
  one_operand, zero_names, one_names, two_names, two_operand, parse_instruction_zero,
  parse_instruction_one, parse_instruction_two, parse_label, include_binary_file, parse_condition,
}
use fox.Asm.Text.{match_text}
use fox.Asm.Parser.{Parser, P}
use fox.Asm.Parser.Build.{
  parse_data, parse_origin, conditional_node, parse_instruction, heading, build_rule,
  build_ast_from_expression, with_size, parse,
}
use fox.Asm.Parser.Sized.{
  IsSound, Built, IsInert, lifted, stepped, inert-Built, parse_operand-Built, parse_constant-Built,
  data_node-Built, origin_node-Built, label_of-IsInert, include_binary_file-IsInert,
}
use fox.Asm.Meaning.{meaning}
use fox.Asm.Encode.{LabelTargets, assemble_node}
use fox.Cpu.Decode.{Instruction}
use fox.Asm.Length.{IsSizedOperand, Fills, assemble_node-length}
use fox.Asm.Parser.Operands.{one-IsSound, two-IsSound}

-- What the operands are built by: a parser that gives sound nodes.
abbrev Builds : (Pair → P AstNode) → Type 0
Builds again = (p : Pair) (s : Parser) → Ensures (Built s) (again p s)

parse_instruction_zero-IsInert :
    (p : Pair) (c : Condition) → Ensures IsInert (parse_instruction_zero p c)
unfolding parse_instruction_zero
parse_instruction_zero-IsInert p c =
    after IsInert (match_text (as_str p) zero_names) (λ i. done (AstNode.operation_zero c i))
      λ i. (inl tt, refl)

parse_instruction_one-IsInert :
    (p : Pair) (o : AstNode) (z : Size) (c : Condition) (s s' : Parser)
    → s.current_size ≡ z
    → Built s (o, s')
    → Ensures IsInert (parse_instruction_one p o z c)
unfolding parse_instruction_one
parse_instruction_one-IsInert p o z c s s' e b =
    after IsInert (match_text (as_str p) one_names)
      (λ i. done (AstNode.operation_one z c i (one_operand i o)))
      λ i. (one-IsSound z c i s s' o e b, refl)

parse_instruction_two-IsInert :
    (p : Pair) (lhs rhs : AstNode) (z : Size) (c : Condition) (s s' s'' : Parser)
    → s.current_size ≡ z
    → Built s (lhs, s')
    → Built s' (rhs, s'')
    → Ensures IsInert (parse_instruction_two p lhs rhs z c)
unfolding parse_instruction_two
parse_instruction_two-IsInert p lhs rhs z c s s' s'' e b b' =
    after IsInert (match_text (as_str p) two_names)
      (λ i. done (AstNode.operation_two z c i (two_operand i lhs) (two_operand i rhs)))
      λ i. (two-IsSound z c i s s' s'' lhs rhs e b b', refl)

conditional_node-Built :
    (again : Pair → P AstNode)
    → Builds again
    → (c : Condition) (r : Rule) (p : Pair) (ps : Pairs) (s : Parser)
    → Ensures (Built s) (conditional_node again c r p ps s)
unfolding conditional_node parse_instruction_zero parse_instruction_one parse_instruction_two
conditional_node-Built again h c Rule.instruction_zero p ps s =
    inert-Built s s (parse_instruction_zero p c) (parse_instruction_zero-IsInert p c)
conditional_node-Built again h c Rule.instruction_one p ps s =
    lifted (Built s) (with_size ps) _ s λ (size, operands).
      let s₀ : Parser = record s { current_size = size } in
      lifted (Built s) (next operands) _ s₀ λ (operand, rest).
        stepped (Built s) (Built s₀) (again operand) _ s₀ (h operand s₀) λ ast s₁ b.
          inert-Built s s₁ (parse_instruction_one p ast size c)
            (parse_instruction_one-IsInert p ast size c s₀ s₁ refl b)
conditional_node-Built again h c Rule.instruction_two p ps s =
    lifted (Built s) (with_size ps) _ s λ (size, operands).
      let s₀ : Parser = record s { current_size = size } in
      lifted (Built s) (next operands) _ s₀ λ (lhs, others).
        lifted (Built s) (next others) _ s₀ λ (rhs, rest).
          stepped (Built s) (Built s₀) (again lhs) _ s₀ (h lhs s₀) λ a s₁ b.
            stepped (Built s) (Built s₁) (again rhs) _ s₁ (h rhs s₁) λ a' s₂ b'.
              inert-Built s s₂ (parse_instruction_two p a a' size c)
                (parse_instruction_two-IsInert p a a' size c s₀ s₁ s₂ refl b b')
conditional_node-Built again h c _ p ps s = tt

parse_instruction-Built :
    (again : Pair → P AstNode)
    → Builds again
    → (p : Pair) (s : Parser) → Ensures (Built s) (parse_instruction again p s)
unfolding parse_instruction
parse_instruction-Built again h (pair Rule.instruction_conditional text ps) s =
    lifted (Built s) (next ps) _ s
      λ (p, operands). conditional_node-Built again h s.current_condition (as_rule p) p operands s
parse_instruction-Built again h _ s = tt

abbrev Sizes : Parser → (Bool × Pairs) × Parser → Type 0
Sizes s (h, s') = s'.current_size ≡ s.current_size

heading-Sizes : (ps : Pairs) (s : Parser) → Ensures (Sizes s) (heading ps s)
unfolding heading
heading-Sizes (cons (pair Rule.condition text inner) ps) s =
    lifted (Sizes s) (parse_condition (pair Rule.condition text inner)) _ s λ c. refl
heading-Sizes (cons (pair Rule.operand_value_ptr text inner) ps) s = refl
heading-Sizes (cons p ps) s = refl
heading-Sizes nil s = tt

resized :
    (s s' s'' : Parser) (node : AstNode)
    → s'.current_size ≡ s.current_size
    → Built s' (node, s'')
    → Built s (node, s'')
resized s s' s'' node e (h, inl k) = (h, inl k)
resized s s' s'' node e (h, inr (k, l)) =
    (h, inr (subst (λ (t : Size). IsSizedOperand t node) e k, l ∙ e))

resized-Ensures :
    (s s' : Parser) (r : Outcome (AstNode × Parser))
    → s'.current_size ≡ s.current_size
    → Ensures (Built s') r
    → Ensures (Built s) r
resized-Ensures s s' (done (node, s'')) e h = resized s s' s'' node e h
resized-Ensures s s' (panic p) e h = tt

Fills-IsSound :
    (id : ℕ) (table : LabelTargets) (node : AstNode)
    → IsSound node
    → Fills (meaning node) (assemble_node id node table)
Fills-IsSound id table node (inl h) = assemble_node-length id table node h
Fills-IsSound id table node (inr e) =
    subst (λ (m : Option Instruction). Fills m (assemble_node id node table)) (sym e) tt

-- A node that the assembler's next pass turns into the bytes of its meaning.
abbrev pub IsAssembled : AstNode → Type 0
IsAssembled node =
    (id : ℕ) (table : LabelTargets) → Fills (meaning node) (assemble_node id node table)

abbrev pub AllAssembled : List AstNode × Parser → Type 0
AllAssembled (nodes, s) = All IsAssembled nodes

module _ (read_binary : List ℕ → Outcome (List ℕ)) where
  build_rule-Built :
      (again : Pair → P AstNode)
      → Builds again
      → (r : Rule) (ip : Bool) (ps : Pairs) (s : Parser)
      → Ensures (Built s) (build_rule read_binary again r ip ps s)
  unfolding build_rule parse_label parse_data parse_origin
  build_rule-Built again h Rule.assembly ip ps s = lifted (Built s) (next ps) _ s λ (p, rest). h p s
  build_rule-Built again h Rule.instruction ip ps s =
      lifted (Built s) (next ps) _ s λ (p, rest). parse_instruction-Built again h p s
  build_rule-Built again h Rule.operand ip ps s =
      lifted (Built s) (next ps) _ s λ (p, rest). parse_operand-Built p ip s
  build_rule-Built again h Rule.constant ip ps s = parse_constant-Built ps s
  build_rule-Built again h Rule.label ip ps s =
      lifted (Built s) (next ps) _ s
        λ (p, rest). inert-Built s s (parse_label p rest) (label_of-IsInert (as_rule p) p rest)
  build_rule-Built again h Rule.data_ ip ps s =
      lifted (Built s) (next ps) _ s λ (p, rest). data_node-Built (as_rule p) p s
  build_rule-Built again h Rule.origin ip ps s =
      lifted (Built s) (next ps) _ s λ (p, rest). origin_node-Built (as_rule p) p s
  build_rule-Built again h Rule.include_bin ip ps s = lifted (Built s) (next ps) _ s λ (p, rest).
      inert-Built s s (include_binary_file read_binary p)
        (include_binary_file-IsInert read_binary p)
  build_rule-Built again h _ ip ps s = tt

  build_ast_from_expression-Built : (fuel : ℕ) → Builds (build_ast_from_expression read_binary fuel)
  unfolding build_ast_from_expression
  build_ast_from_expression-Built zero p s = tt
  build_ast_from_expression-Built (suc fuel) (pair rule text inner) s =
      let s₀ : Parser = record s { current_condition = Condition.always } in
      stepped (Built s) (Sizes s₀) (heading inner) _ s₀ (heading-Sizes inner s₀) λ (ip, ps) s₁ e.
        resized-Ensures s s₁ _ e
          (build_rule-Built _ (build_ast_from_expression-Built fuel) rule ip ps s₁)

  pub parse-IsAssembled :
      (fuel : ℕ) (ps : Pairs) (s : Parser) → Ensures AllAssembled (parse read_binary fuel ps s)
  unfolding parse
  parse-IsAssembled fuel nil s = tt
  parse-IsAssembled fuel (cons (pair Rule.eoi text inner) ps) s = tt
  parse-IsAssembled fuel (cons p ps) s =
      stepped AllAssembled (Built s) (build_ast_from_expression read_binary fuel p) _ s
        (build_ast_from_expression-Built fuel p s)
        λ node s₁ (h, _).
          stepped AllAssembled AllAssembled (parse read_binary fuel ps) _ s₁
            (parse-IsAssembled fuel ps s₁)
            λ nodes s₂ k. ((λ id table. Fills-IsSound id table node h), k)
