-- ===== src/Asm/Parser/Numbers.antt =====
-- fox32asm/src/main.rs: the numbers of data and origins, which the parser reads as operands.
use fox.Prelude.{ℕ, ◌%◌, ◌^◌, ◌≡◌, false}
use fox.Outcome.{Ensures}
use fox.Asm.Ast.{Size, AstNode}
use fox.Asm.Pair.{Rule, Pair, as_rule, first_inner, next, into_inner}
use fox.Asm.Parser.{Parser, lift, ◌>>=◌, pure}
use fox.Asm.Parser.Build.{
  parse_operand, parse_immediate, immediate_of, data_node, parse_data, origin_node, parse_origin,
}
use fox.Asm.Parser.Sized.{ReadAt, lifted, stepped, parse_operand-OperandOf}
use fox.Asm.Length.{IsSizedOperand}

-- The current size is a word.
abbrev pub AtWord {ℓ} : {A : Type ℓ} → Parser → A × Parser → Type 0
AtWord s x = s.current_size ≡ Size.word

immediate_of-AtWord :
    (s t : Parser) (ast : AstNode)
    → IsSizedOperand s.current_size ast
    → Ensures (AtWord s) (lift (immediate_of ast) t)
immediate_of-AtWord s t (AstNode.immediate32 v) h = h
immediate_of-AtWord s t _ h = tt

parse_immediate-AtWord : (p : Pair) (s : Parser) → Ensures (AtWord s) (parse_immediate p s)
unfolding parse_immediate
parse_immediate-AtWord p s =
    stepped (AtWord s) (ReadAt s) (parse_operand p false) _ s (parse_operand-OperandOf p false s)
      λ ast t ((h, _), _). immediate_of-AtWord s t ast h

-- The rules of data that are numbers only.
abbrev IsNumeric : Rule → Type 0
IsNumeric Rule.data_word = ⊥
IsNumeric Rule.data_str = ⊥
IsNumeric _ = Unit

-- A node of the number in the first inner pair.
number-AtWord :
    (p : Pair) (s : Parser) (f : ℕ → AstNode)
    → Ensures (AtWord s) ((lift (first_inner p) >>= λ v. parse_immediate v >>= λ n. pure (f n)) s)
number-AtWord p s f = lifted (AtWord s) (first_inner p) _ s λ v.
    stepped (AtWord s) (AtWord s) (parse_immediate v) _ s (parse_immediate-AtWord v s) λ n t h. h

origin_node-AtWord : (r : Rule) (p : Pair) (s : Parser) → Ensures (AtWord s) (origin_node r p s)
unfolding origin_node
origin_node-AtWord Rule.origin_no_padding p s = number-AtWord p s AstNode.origin
origin_node-AtWord Rule.origin_padding p s = number-AtWord p s AstNode.origin_padded
origin_node-AtWord _ p s = tt

data_node-AtWord :
    (r : Rule) (p : Pair) (s : Parser) → IsNumeric r → Ensures (AtWord s) (data_node r p s)
unfolding data_node
data_node-AtWord Rule.data_byte p s h = number-AtWord p s λ n. AstNode.data_byte (n % 2 ^ 8)
data_node-AtWord Rule.data_half p s h = number-AtWord p s λ n. AstNode.data_half (n % 2 ^ 16)
data_node-AtWord Rule.data_word p s h = absurd h
data_node-AtWord Rule.data_str p s h = absurd h
data_node-AtWord Rule.data_fill p s h = lifted (AtWord s) (first_inner p) _ s λ v.
    stepped (AtWord s) (AtWord s) (parse_immediate v) _ s (parse_immediate-AtWord v s) λ n t e.
      lifted (AtWord s) (next (into_inner p)) _ t λ (_, rest).
        lifted (AtWord s) (next rest) _ t λ (w, _).
          stepped (AtWord s) (AtWord t) (parse_immediate w) _ t (parse_immediate-AtWord w t)
            λ m t' _. e
data_node-AtWord _ p s h = tt

-- Data of bytes, of halves and of a repeated byte, and an origin, are parsed only while the current
-- size is a word: the size that the last instruction left stops the assembler otherwise.
pub numbers-AtWord :
    (p : Pair) (s : Parser)
    → IsNumeric (as_rule p)
    → Ensures (AtWord s) (parse_data p s) × Ensures (AtWord s) (parse_origin p s)
unfolding parse_data parse_origin
numbers-AtWord p s h = (data_node-AtWord (as_rule p) p s h, origin_node-AtWord (as_rule p) p s)
