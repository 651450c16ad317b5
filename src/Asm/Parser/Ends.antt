-- ===== src/Asm/Parser/Ends.antt =====
-- fox32asm/src/main.rs: the functions of the parser that do not recur end.
use Prim.Native.String.{String}
use fox.Prelude.{
  ℕ, suc, ◌+◌, ◌≤◌, ◌^◌, ◌%◌, Bool, true, false, List, [], ◌∷◌, Option, none, some, ltb,
  if◌then◌else◌, arith,
}
use fox.Outcome.{Outcome, done, panic}
use fox.Outcome.Ends.{Ends, Any, Ends-bind, Ends-if}
use fox.Asm.Ast.{Size, AstNode}
use fox.Asm.Pair.{
  Rule, Pair, Pairs, nil, cons, pair, as_rule, as_str, into_inner, next, first_inner,
}
use text.Mathlib.Text.{◌==◌ as same_text}
use fox.Asm.Text.{match_text, parse_number, unwrap_number, first_char, register_number, chars}
use fox.Asm.Value.{value_node, operand_node, label_of, kind_of}
use fox.Asm.Parser.{Parser, P, ◌>>=◌, lift, pure}
use fox.Asm.Parser.Build.{
  parse_operand, operand_pair, parse_immediate, immediate_of, word_node, parse_constant, data_node,
  origin_node,
}

-- The number of pairs in a tree.
unfoldable mutual
  pub pair_count : Pair → ℕ
  pair_count (pair r text ps) = suc (pairs_count ps)

  pub pairs_count : Pairs → ℕ
  pairs_count nil = 0
  pairs_count (cons p ps) = pair_count p + pairs_count ps

module _ {ℓ κ} {A : Type ℓ} {B : Type κ} (R : A → Type 0) (Q : B × Parser → Type 0) where
  pub lifted :
      (m : Outcome A) (f : A → P B) (s : Parser)
      → Ends R m
      → ((a : A) → R a → Ends Q (f a s))
      → Ends Q ((lift m >>= f) s)
  lifted (done a) f s h k = k a h
  lifted (panic p) f s h k = h

module _ {ℓ κ} {A : Type ℓ} {B : Type κ} (R : A → Type 0) (Q : B × Parser → Type 0) where
  -- What holds of the value, whatever the state is.
  abbrev pub Of : A × Parser → Type 0
  Of (a, s) = R a

  continued :
      (r : Outcome (A × Parser)) (f : A → P B)
      → Ends Of r
      → ((a : A) (s : Parser) → R a → Ends Q (f a s))
      → Ends Q (elim r [ panic p ↦ panic p | done (a, s) ↦ f a s ])
  continued (done (a, s)) f h k = k a s h
  continued (panic p) f h k = h

  pub stepped :
      (m : P A) (f : A → P B) (s : Parser)
      → Ends Of (m s)
      → ((a : A) (s : Parser) → R a → Ends Q (f a s))
      → Ends Q ((m >>= f) s)
  stepped m f s h k = continued (m s) f h k

pub lifted-last {ℓ} : {A : Type ℓ} (r : Outcome A) (s : Parser) → Ends Any r → Ends Any (lift r s)
lifted-last (done a) s h = tt
lifted-last (panic p) s h = h

pub match_text-Ends {ℓ} :
    {A : Type ℓ} (text : String) (names : List (String × A)) → Ends Any (match_text text names)
unfolding match_text
match_text-Ends text [] = tt
match_text-Ends text ((name, a) ∷ names) =
    Ends-if Any (same_text text name) _ _ tt (match_text-Ends text names)

unwrap_number-Ends : (n : Option ℕ) → Ends Any (unwrap_number n)
unwrap_number-Ends none = tt
unwrap_number-Ends (some n) = tt

parse_number-Ends : (radix : ℕ) (body : String) → Ends Any (parse_number radix body)
unfolding parse_number
parse_number-Ends radix body = unwrap_number-Ends _

first_char-Ends : (cs : List ℕ) → Ends Any (first_char cs)
unfolding first_char
first_char-Ends [] = tt
first_char-Ends (c ∷ cs) = tt

register_number-Ends : (text : String) → Ends Any (register_number text)
unfolding register_number
register_number-Ends text =
    Ends-bind Any Any (if same_text text "sp" then done 32 else unwrap_number _) _
      (Ends-if Any (same_text text "sp") _ _ tt (unwrap_number-Ends _))
      λ n h. Ends-if Any (ltb 32 n) _ _ tt tt

-- The pairs that a pair or a list of pairs gives are smaller.
abbrev pub Below : ℕ → Pair → Type 0
Below n p = pair_count p ≤ n

abbrev pub BothBelow : ℕ → Pair × Pairs → Type 0
BothBelow n (p, ps) = (pair_count p ≤ n) × (pairs_count ps ≤ n)

pub first_inner-Ends : (p : Pair) → Ends Any (first_inner p)
first_inner-Ends (pair r text nil) = tt
first_inner-Ends (pair r text (cons p ps)) = tt

pub next-Ends : (n : ℕ) (ps : Pairs) → pairs_count ps ≤ n → Ends (BothBelow n) (next ps)
unfolding pairs_count
next-Ends n nil h = tt
next-Ends n (cons p ps) h = (omega arith, omega arith)

value_node-Ends : (z : Size) (ip : Bool) (r : Rule) (p : Pair) → Ends Any (value_node z ip r p)
unfolding value_node
value_node-Ends z ip Rule.immediate_bin p =
    Ends-bind Any Any (first_inner p) _ (first_inner-Ends p) λ body h.
      Ends-bind Any Any (parse_number 2 (as_str body)) _ (parse_number-Ends 2 (as_str body))
        λ n k. tt
value_node-Ends z ip Rule.immediate_hex p =
    Ends-bind Any Any (first_inner p) _ (first_inner-Ends p) λ body h.
      Ends-bind Any Any (parse_number 16 (as_str body)) _ (parse_number-Ends 16 (as_str body))
        λ n k. tt
value_node-Ends z ip Rule.immediate_dec p =
    Ends-bind Any Any (first_inner p) _ (first_inner-Ends p) λ body h.
      Ends-bind Any Any (parse_number 10 (as_str body)) _ (parse_number-Ends 10 (as_str body))
        λ n k. tt
value_node-Ends z ip Rule.immediate_char p =
    Ends-bind Any Any (first_inner p) _ (first_inner-Ends p) λ body h.
      Ends-bind Any Any (first_char (chars (as_str body))) _ (first_char-Ends (chars (as_str body)))
        λ n k. tt
value_node-Ends z ip Rule.register p =
    Ends-bind Any Any (first_inner p) _ (first_inner-Ends p) λ body h.
      Ends-bind Any Any (register_number (as_str body)) _ (register_number-Ends (as_str body))
        λ n k. tt
value_node-Ends z ip Rule.label_name p = tt
value_node-Ends z ip _ p = tt

operand_node-Ends : (z : Size) (ip : Bool) (r : Rule) (p : Pair) → Ends Any (operand_node z ip r p)
unfolding operand_node
operand_node-Ends z ip Rule.operand_value p =
    Ends-bind Any Any (first_inner p) _ (first_inner-Ends p)
      λ v h. value_node-Ends z ip (as_rule v) v
operand_node-Ends z ip _ p = tt

operand_pair-Ends : (ip : Bool) (p : Pair) → Ends Any (operand_pair ip p)
unfolding operand_pair
operand_pair-Ends true p = first_inner-Ends p
operand_pair-Ends false p = tt

pub parse_operand-Ends : (p : Pair) (ip : Bool) (s : Parser) → Ends Any (parse_operand p ip s)
unfolding parse_operand
parse_operand-Ends p ip s =
    lifted Any Any (operand_pair ip p) _ s (operand_pair-Ends ip p)
      λ v h. lifted-last _ s (operand_node-Ends s.current_size ip (as_rule v) v)

immediate_of-Ends : (ast : AstNode) → Ends Any (immediate_of ast)
immediate_of-Ends (AstNode.immediate32 v) = tt
immediate_of-Ends _ = tt

parse_immediate-Ends : (p : Pair) (s : Parser) → Ends Any (parse_immediate p s)
unfolding parse_immediate
parse_immediate-Ends p s =
    stepped Any Any (parse_operand p false) _ s (parse_operand-Ends p false s)
      λ ast s' h. lifted-last _ s' (immediate_of-Ends ast)

-- The step and the last value of a node that holds one number.
abbrev any_count : (ps : Pairs) → Ends (BothBelow (pairs_count ps)) (next ps)
any_count ps = next-Ends (pairs_count ps) ps (omega arith)

pub parse_constant-Ends : (ps : Pairs) (s : Parser) → Ends Any (parse_constant ps s)
unfolding parse_constant
parse_constant-Ends ps s =
    let s' : Parser = record s { current_size = Size.word } in
    lifted (BothBelow _) Any (next ps) _ s' (any_count ps) λ (name, operands) h.
      lifted Any Any (first_inner name) _ s' (first_inner-Ends name) λ text h.
        lifted (BothBelow _) Any (next operands) _ s' (any_count operands) λ (operand, rest) h.
          stepped Any Any (parse_immediate operand) _ s' (parse_immediate-Ends operand s')
            λ address s'' h. tt

word_node-Ends : (ast : AstNode) → Ends Any (word_node ast)
word_node-Ends (AstNode.immediate32 v) = tt
word_node-Ends (AstNode.label_operand name size r) = tt
word_node-Ends _ = tt

-- The nodes made of the number in the first inner pair.
number-Ends :
    (p : Pair) (s : Parser) (f : ℕ → AstNode)
    → Ends Any ((lift (first_inner p) >>= λ v. parse_immediate v >>= λ n. pure (f n)) s)
number-Ends p s f =
    lifted Any Any (first_inner p) _ s (first_inner-Ends p)
      λ v h. stepped Any Any (parse_immediate v) _ s (parse_immediate-Ends v s) λ n s' k. tt

pub data_node-Ends : (r : Rule) (p : Pair) (s : Parser) → Ends Any (data_node r p s)
unfolding data_node
data_node-Ends Rule.data_byte p s = number-Ends p s λ n. AstNode.data_byte (n % 2 ^ 8)
data_node-Ends Rule.data_half p s = number-Ends p s λ n. AstNode.data_half (n % 2 ^ 16)
data_node-Ends Rule.data_word p s = lifted Any Any (first_inner p) _ s (first_inner-Ends p) λ v h.
    stepped Any Any (parse_operand v false) _ s (parse_operand-Ends v false s)
      λ ast s' k. lifted-last _ s' (word_node-Ends ast)
data_node-Ends Rule.data_str p s =
    lifted Any Any (first_inner p) _ s (first_inner-Ends p)
      λ v h. lifted Any Any (first_inner v) _ s (first_inner-Ends v) λ body k. tt
data_node-Ends Rule.data_fill p s = lifted Any Any (first_inner p) _ s (first_inner-Ends p) λ v h.
    stepped Any Any (parse_immediate v) _ s (parse_immediate-Ends v s) λ n s' h.
      lifted (BothBelow _) Any (next (into_inner p)) _ s' (any_count (into_inner p)) λ (_, rest) h.
        lifted (BothBelow _) Any (next rest) _ s' (any_count rest) λ (w, _) h.
          stepped Any Any (parse_immediate w) _ s' (parse_immediate-Ends w s') λ m s'' h. tt
data_node-Ends _ p s = tt

pub origin_node-Ends : (r : Rule) (p : Pair) (s : Parser) → Ends Any (origin_node r p s)
unfolding origin_node
origin_node-Ends Rule.origin_no_padding p s = number-Ends p s AstNode.origin
origin_node-Ends Rule.origin_padding p s = number-Ends p s AstNode.origin_padded
origin_node-Ends _ p s = tt

kind_of-Ends : (r : Rule) → Ends Any (kind_of r)
unfolding kind_of
kind_of-Ends Rule.label_external = tt
kind_of-Ends Rule.label_global = tt
kind_of-Ends _ = tt

pub label_of-Ends : (r : Rule) (p : Pair) (ps : Pairs) → Ends Any (label_of r p ps)
unfolding label_of
label_of-Ends Rule.label_kind p nil = tt
label_of-Ends Rule.label_kind p (cons name ps) =
    Ends-bind Any Any (first_inner p) _ (first_inner-Ends p) λ inner h.
      Ends-bind Any Any (kind_of (as_rule inner)) _ (kind_of-Ends (as_rule inner)) λ kind h. tt
label_of-Ends _ p ps = tt
