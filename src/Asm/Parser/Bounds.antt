-- ===== src/Asm/Parser/Bounds.antt =====
-- fox32asm/src/main.rs: the numbers in the operands that the parser reads fit their Rust types.
use fox.Prelude.{
  ℕ, ◌+◌, ◌*◌, ◌^◌, ◌<◌, ◌≤◌, ◌≡◌, refl, Bool, true, false, ◌&&◌, ltb, ltb_iff, ◌==◌, Option, none,
  some, List, [], ◌∷◌, if◌then◌else◌, arith,
}
use Prim.Native.String.{String}
use text.Mathlib.Text.{◌==◌ as same_text}
use fox.Outcome.{Outcome, done, ◌>>=◌, Ensures, Ensures-bind, Ensures-if, after}
use fox.Asm.Ast.{Size, AstNode}
use fox.Asm.Pair.{Rule, Pair, as_rule, as_str, first_inner}
use fox.Asm.Text.{
  chars, digits, from_str_radix, unwrap_number, remove_underscores, parse_number, first_char,
  register_number, digit_value,
}
use fox.Asm.Value.{immediate_node, register_node, label_node, value_node, operand_node}
use fox.Asm.Parser.{Parser}
use fox.Asm.Parser.Build.{operand_pair, parse_operand}
use fox.Asm.Parser.Sized.{lifted, placed}

-- A number, if there is one, is below the bound.
abbrev Fits : (bound : ℕ) → Option ℕ → Type 0
Fits bound none = Unit
Fits bound (some n) = n < bound

Fits-if :
    (bound : ℕ) (a b : Bool) (r : Option ℕ)
    → (b ≡ true → Fits bound r)
    → Fits bound (if a && b then r else none)
Fits-if bound true true r h = h refl
Fits-if bound true false r h = tt
Fits-if bound false b r h = tt

digits-Fits :
    (bound radix acc : ℕ) (cs : List ℕ) → acc < bound → Fits bound (digits bound radix acc cs)
unfolding digits
digits-Fits bound radix acc [] h = h
digits-Fits bound radix acc (c ∷ cs) h =
    let next : ℕ = acc * radix + digit_value c in
    Fits-if bound (ltb (digit_value c) radix) (ltb next bound) (digits bound radix next cs)
      λ e. digits-Fits bound radix next cs ((ltb_iff next bound).0 e)

from_str_radix-Fits :
    (bound radix : ℕ) (cs : List ℕ) → 0 < bound → Fits bound (from_str_radix bound radix cs)
unfolding from_str_radix
from_str_radix-Fits bound radix [] h = tt
from_str_radix-Fits bound radix (c ∷ []) h = digits-Fits bound radix 0 (c ∷ []) h
from_str_radix-Fits bound radix (c ∷ d ∷ cs) h = signed (c == b'+')
  where
    signed :
        (b : Bool)
        → Fits bound
            (if b then digits bound radix 0 (d ∷ cs) else digits bound radix 0 (c ∷ d ∷ cs))
    signed true = digits-Fits bound radix 0 (d ∷ cs) h
    signed false = digits-Fits bound radix 0 (c ∷ d ∷ cs) h

unwrap_number-lt :
    (bound : ℕ) (n : Option ℕ) → Fits bound n → Ensures (λ v. v < bound) (unwrap_number n)
unwrap_number-lt bound none h = tt
unwrap_number-lt bound (some n) h = h

parse_number-lt : (radix : ℕ) (body : String) → Ensures (λ v. v < 2 ^ 32) (parse_number radix body)
unfolding parse_number
parse_number-lt radix body =
    unwrap_number-lt (2 ^ 32) (from_str_radix (2 ^ 32) radix (remove_underscores (chars body)))
      (from_str_radix-Fits (2 ^ 32) radix (remove_underscores (chars body)) (omega arith))

first_char-lt : (cs : List ℕ) → Ensures (λ v. v < 2 ^ 32) (first_char cs)
unfolding first_char
first_char-lt [] = tt
first_char-lt (c ∷ cs) = omega arith

register_number-le : (text : String) → Ensures (λ r. r ≤ 32) (register_number text)
unfolding register_number
register_number-le text =
    after (λ r. r ≤ 32) (if same_text text "sp" then done 32 else unwrap_number _) _
      λ n. Ensures-if (λ r. r ≤ 32) (ltb 32 n) _ _ (λ _. tt) λ e. ground (arith, e)

-- The numbers of an operand are in the range of its constructor.
abbrev pub IsInRange : AstNode → Type 0
IsInRange (AstNode.immediate8 v) = v < 2 ^ 8
IsInRange (AstNode.immediate16 v) = v < 2 ^ 16
IsInRange (AstNode.immediate32 v) = v < 2 ^ 32
IsInRange (AstNode.immediate_pointer v) = v < 2 ^ 32
IsInRange (AstNode.register r) = r ≤ 32
IsInRange (AstNode.register_pointer r) = r ≤ 32
IsInRange (AstNode.label_operand name size r) = Unit
IsInRange (AstNode.label_operand_pointer name r) = Unit
IsInRange _ = ⊥

immediate_node-IsInRange :
    (z : Size) (ip : Bool) (v : ℕ) → v < 2 ^ 32 → IsInRange (immediate_node z ip v)
unfolding immediate_node
immediate_node-IsInRange z true v h = h
immediate_node-IsInRange Size.byte false v h = omega arith
immediate_node-IsInRange Size.half false v h = omega arith
immediate_node-IsInRange Size.word false v h = h

register_node-IsInRange : (ip : Bool) (r : ℕ) → r ≤ 32 → IsInRange (register_node ip r)
unfolding register_node
register_node-IsInRange true r h = h
register_node-IsInRange false r h = h

-- An immediate value of a number that was read.
immediate-IsInRange :
    (z : Size) (ip : Bool) (r : Outcome ℕ)
    → Ensures (λ v. v < 2 ^ 32) r
    → Ensures IsInRange (r >>= λ n. done (immediate_node z ip n))
immediate-IsInRange z ip r h = Ensures-bind _ IsInRange r _ h (immediate_node-IsInRange z ip)

value_node-IsInRange :
    (z : Size) (ip : Bool) (r : Rule) (p : Pair) → Ensures IsInRange (value_node z ip r p)
unfolding value_node label_node
value_node-IsInRange z ip Rule.immediate_bin p = after IsInRange (first_inner p) _ λ body.
    immediate-IsInRange z ip (parse_number 2 (as_str body)) (parse_number-lt 2 (as_str body))
value_node-IsInRange z ip Rule.immediate_hex p = after IsInRange (first_inner p) _ λ body.
    immediate-IsInRange z ip (parse_number 16 (as_str body)) (parse_number-lt 16 (as_str body))
value_node-IsInRange z ip Rule.immediate_dec p = after IsInRange (first_inner p) _ λ body.
    immediate-IsInRange z ip (parse_number 10 (as_str body)) (parse_number-lt 10 (as_str body))
value_node-IsInRange z ip Rule.immediate_char p = after IsInRange (first_inner p) _ λ body.
    immediate-IsInRange z ip (first_char (chars (as_str body)))
      (first_char-lt (chars (as_str body)))
value_node-IsInRange z ip Rule.register p = after IsInRange (first_inner p) _ λ body.
    Ensures-bind _ IsInRange (register_number (as_str body)) _ (register_number-le (as_str body))
      (register_node-IsInRange ip)
value_node-IsInRange z true Rule.label_name p = tt
value_node-IsInRange z false Rule.label_name p = tt
value_node-IsInRange z ip _ p = tt

operand_node-IsInRange :
    (z : Size) (ip : Bool) (r : Rule) (p : Pair) → Ensures IsInRange (operand_node z ip r p)
unfolding operand_node
operand_node-IsInRange z ip Rule.operand_value p =
    after IsInRange (first_inner p) _ λ v. value_node-IsInRange z ip (as_rule v) v
operand_node-IsInRange z ip _ p = tt

abbrev pub ReadInRange : AstNode × Parser → Type 0
ReadInRange (node, s) = IsInRange node

-- Whatever the tree and the current size are, an operand that is read is an immediate value, a register or
-- a label, and its number fits its Rust type; a register is at most 32.
pub parse_operand-IsInRange :
    (p : Pair) (ip : Bool) (s : Parser) → Ensures ReadInRange (parse_operand p ip s)
unfolding parse_operand
parse_operand-IsInRange p ip s = lifted ReadInRange (operand_pair ip p) _ s λ v.
    placed IsInRange ReadInRange _ s (operand_node-IsInRange s.current_size ip (as_rule v) v)
      λ node h. h
