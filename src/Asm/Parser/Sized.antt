-- ===== src/Asm/Parser/Sized.antt =====
-- fox32asm/src/main.rs: the nodes that the parser builds have operands of their instruction's size,
-- so that what it builds is assembled.
use fox.Prelude.{ℕ, ◌≡◌, refl, sym, ◌⊎◌, inl, inr, Bool, true, false, List, none}
use mathlib.Core.Path.{subst}
use fox.Outcome.{Outcome, done, panic, Ensures, Ensures-trivial, after}
use fox.Asm.Ast.{Size, AstNode}
use fox.Asm.Pair.{Rule, Pair, Pairs, nil, cons, as_rule, as_str, first_inner, next, into_inner}
use fox.Asm.Text.{chars, parse_number, first_char, register_number, trim}
use fox.Asm.Value.{
  value_node, operand_node, immediate_node, register_node, label_node, label_of, kind_of,
  include_binary_file,
}
use fox.Asm.Parser.{Parser, P, ◌>>=◌, lift}
use fox.Asm.Parser.Build.{
  parse_operand, operand_pair, parse_immediate, word_node, parse_constant, data_node, origin_node,
}
use fox.Asm.Meaning.{meaning, source_kind}
use fox.Asm.Length.{IsSized, IsSizedOperand}

-- A node that is assembled, or that is no instruction.
abbrev pub IsSound : AstNode → Type 0
IsSound node = IsSized node ⊎ (meaning node ≡ none)

-- What the parser gives from the state `s`: a sound node, which is no operand, or one of the
-- current size that leaves the size alone.
abbrev pub Built : Parser → AstNode × Parser → Type 0
Built s (node, s') =
    IsSound node
    × ((source_kind node ≡ none)
        ⊎ (IsSizedOperand s.current_size node × (s'.current_size ≡ s.current_size)))

module _ {ℓ κ μ} {A : Type ℓ} {B : Type κ} (Q : B × Parser → Type μ) where
  -- A step of which only the state behind it matters.
  pub lifted :
      (m : Outcome A) (f : A → P B) (s : Parser)
      → ((a : A) → Ensures Q (f a s))
      → Ensures Q ((lift m >>= f) s)
  lifted (done a) f s h = h a
  lifted (panic p) f s h = tt

  continued {ν} :
      (R : A × Parser → Type ν) (r : Outcome (A × Parser)) (f : A → P B)
      → Ensures R r
      → ((a : A) (s' : Parser) → R (a, s') → Ensures Q (f a s'))
      → Ensures Q (elim r [ panic p ↦ panic p | done (a, s') ↦ f a s' ])
  continued R (done (a, s')) f h k = k a s' h
  continued R (panic p) f h k = tt

  pub stepped {ν} :
      (R : A × Parser → Type ν) (m : P A) (f : A → P B) (s : Parser)
      → Ensures R (m s)
      → ((a : A) (s' : Parser) → R (a, s') → Ensures Q (f a s'))
      → Ensures Q ((m >>= f) s)
  stepped R m f s h k = continued R (m s) f h k

  -- A step of which nothing matters.
  pub passed :
      (m : P A) (f : A → P B) (s : Parser)
      → ((a : A) (s' : Parser) → Ensures Q (f a s'))
      → Ensures Q ((m >>= f) s)
  passed m f s k = stepped (λ _. Unit {0}) m f s (Ensures-trivial (m s)) λ a s' h. k a s'

pub placed {ℓ κ μ} :
    {A : Type ℓ} (R : A → Type κ) (Q : A × Parser → Type μ) (r : Outcome A) (s : Parser)
    → Ensures R r
    → ((a : A) → R a → Q (a, s))
    → Ensures Q (lift r s)
placed R Q (done a) s h k = k a h
placed R Q (panic p) s h k = tt

immediate_node-IsSizedOperand :
    (z : Size) (ip : Bool) (v : ℕ)
    → IsSizedOperand z (immediate_node z ip v) × IsSound (immediate_node z ip v)
unfolding immediate_node
immediate_node-IsSizedOperand z true v = (tt, inl tt)
immediate_node-IsSizedOperand Size.byte false v = (refl, inl tt)
immediate_node-IsSizedOperand Size.half false v = (refl, inl tt)
immediate_node-IsSizedOperand Size.word false v = (refl, inl tt)

abbrev OperandOf : Size → AstNode → Type 0
OperandOf z node = IsSizedOperand z node × IsSound node

register_node-OperandOf : (z : Size) (ip : Bool) (r : ℕ) → OperandOf z (register_node ip r)
unfolding register_node
register_node-OperandOf z true r = (tt, inl tt)
register_node-OperandOf z false r = (tt, inl tt)

value_node-OperandOf :
    (z : Size) (ip : Bool) (r : Rule) (p : Pair) → Ensures (OperandOf z) (value_node z ip r p)
unfolding value_node label_node
value_node-OperandOf z ip Rule.immediate_bin p = after (OperandOf z) (first_inner p) _ λ body.
    after (OperandOf z) (parse_number 2 (as_str body)) _ λ n. immediate_node-IsSizedOperand z ip n
value_node-OperandOf z ip Rule.immediate_hex p = after (OperandOf z) (first_inner p) _ λ body.
    after (OperandOf z) (parse_number 16 (as_str body)) _ λ n. immediate_node-IsSizedOperand z ip n
value_node-OperandOf z ip Rule.immediate_dec p = after (OperandOf z) (first_inner p) _ λ body.
    after (OperandOf z) (parse_number 10 (as_str body)) _ λ n. immediate_node-IsSizedOperand z ip n
value_node-OperandOf z ip Rule.immediate_char p = after (OperandOf z) (first_inner p) _ λ body.
    after (OperandOf z) (first_char (chars (as_str body))) _
      λ n. immediate_node-IsSizedOperand z ip n
value_node-OperandOf z ip Rule.register p = after (OperandOf z) (first_inner p) _ λ body.
    after (OperandOf z) (register_number (as_str body)) _ λ n. register_node-OperandOf z ip n
value_node-OperandOf z true Rule.label_name p = (tt, inl tt)
value_node-OperandOf z false Rule.label_name p = (refl, inl tt)
value_node-OperandOf z ip _ p = tt

operand_node-OperandOf :
    (z : Size) (ip : Bool) (r : Rule) (p : Pair) → Ensures (OperandOf z) (operand_node z ip r p)
unfolding operand_node
operand_node-OperandOf z ip Rule.operand_value p =
    after (OperandOf z) (first_inner p) _ λ v. value_node-OperandOf z ip (as_rule v) v
operand_node-OperandOf z ip _ p = tt

pub parse_operand-Built :
    (p : Pair) (ip : Bool) (s : Parser) → Ensures (Built s) (parse_operand p ip s)
unfolding parse_operand
parse_operand-Built p ip s = lifted (Built s) (operand_pair ip p) _ s λ v.
    placed (OperandOf s.current_size) (Built s) _ s
      (operand_node-OperandOf s.current_size ip (as_rule v) v) λ node (h, k). (k, inr (h, refl))

-- A node that is neither an operand nor an operation.
abbrev pub IsInert : AstNode → Type 0
IsInert node = IsSound node × (source_kind node ≡ none)

pub inert-Built :
    (s t : Parser) (r : Outcome AstNode) → Ensures IsInert r → Ensures (Built s) (lift r t)
inert-Built s t r h = placed IsInert (Built s) r t h λ node (h, k). (h, inl k)

pub parse_constant-Built : (ps : Pairs) (s : Parser) → Ensures (Built s) (parse_constant ps s)
unfolding parse_constant
parse_constant-Built ps s =
    let s' : Parser = record s { current_size = Size.word } in
    lifted (Built s) (next ps) _ s' λ (name, operands).
      lifted (Built s) (first_inner name) _ s' λ text.
        lifted (Built s) (next operands) _ s' λ (operand, rest).
          passed (Built s) (parse_immediate operand) _ s' λ address s''. (inl tt, inl refl)

word_node-Built :
    (s : Parser) (ast : AstNode)
    → OperandOf s.current_size ast
    → Ensures (Built s) (lift (word_node ast) s)
word_node-Built s (AstNode.immediate32 v) h = (inl tt, inl refl)
word_node-Built s (AstNode.label_operand name size r) (h, k) = (inl tt, inr (h, refl))
word_node-Built s _ h = tt

-- An operand, and the state it was read in.
abbrev pub ReadAt : Parser → AstNode × Parser → Type 0
ReadAt s (node, s') = OperandOf s.current_size node × (s' ≡ s)

pub parse_operand-OperandOf :
    (p : Pair) (ip : Bool) (s : Parser) → Ensures (ReadAt s) (parse_operand p ip s)
unfolding parse_operand
parse_operand-OperandOf p ip s = lifted (ReadAt s) (operand_pair ip p) _ s λ v.
    placed (OperandOf s.current_size) (ReadAt s) _ s
      (operand_node-OperandOf s.current_size ip (as_rule v) v) λ node h. (h, refl)

pub data_node-Built : (r : Rule) (p : Pair) (s : Parser) → Ensures (Built s) (data_node r p s)
unfolding data_node
data_node-Built Rule.data_byte p s =
    lifted (Built s) (first_inner p) _ s
      λ v. passed (Built s) (parse_immediate v) _ s λ n s'. (inl tt, inl refl)
data_node-Built Rule.data_half p s =
    lifted (Built s) (first_inner p) _ s
      λ v. passed (Built s) (parse_immediate v) _ s λ n s'. (inl tt, inl refl)
data_node-Built Rule.data_word p s = lifted (Built s) (first_inner p) _ s λ v.
    stepped (Built s) (ReadAt s) (parse_operand v false) _ s (parse_operand-OperandOf v false s)
      λ ast s' (h, e).
        subst (λ (t : Parser). Ensures (Built s) (lift (word_node ast) t)) (sym e)
          (word_node-Built s ast h)
data_node-Built Rule.data_str p s =
    lifted (Built s) (first_inner p) _ s
      λ v. lifted (Built s) (first_inner v) _ s λ body. (inl tt, inl refl)
data_node-Built Rule.data_fill p s = lifted (Built s) (first_inner p) _ s λ v.
    passed (Built s) (parse_immediate v) _ s λ n s'.
      lifted (Built s) (next (into_inner p)) _ s' λ (_, rest).
        lifted (Built s) (next rest) _ s'
          λ (w, _). passed (Built s) (parse_immediate w) _ s' λ m s''. (inl tt, inl refl)
data_node-Built _ p s = tt

pub origin_node-Built : (r : Rule) (p : Pair) (s : Parser) → Ensures (Built s) (origin_node r p s)
unfolding origin_node
origin_node-Built Rule.origin_no_padding p s =
    lifted (Built s) (first_inner p) _ s
      λ v. passed (Built s) (parse_immediate v) _ s λ n s'. (inl tt, inl refl)
origin_node-Built Rule.origin_padding p s =
    lifted (Built s) (first_inner p) _ s
      λ v. passed (Built s) (parse_immediate v) _ s λ n s'. (inl tt, inl refl)
origin_node-Built _ p s = tt

pub label_of-IsInert : (r : Rule) (p : Pair) (ps : Pairs) → Ensures IsInert (label_of r p ps)
unfolding label_of
label_of-IsInert Rule.label_kind p nil = tt
label_of-IsInert Rule.label_kind p (cons name ps) =
    after IsInert (first_inner p) _
      λ inner. after IsInert (kind_of (as_rule inner)) _ λ kind. (inl tt, refl)
label_of-IsInert _ p ps = (inl tt, refl)

pub include_binary_file-IsInert :
    (read_binary : List ℕ → Outcome (List ℕ)) (p : Pair)
    → Ensures IsInert (include_binary_file read_binary p)
unfolding include_binary_file
include_binary_file-IsInert read_binary p =
    after IsInert (first_inner p) _
      λ path. after IsInert (read_binary (trim (chars (as_str path)))) _ λ binary. (inl tt, refl)
