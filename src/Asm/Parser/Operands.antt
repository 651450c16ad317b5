-- ===== src/Asm/Parser/Operands.antt =====
-- fox32asm/src/main.rs: an instruction of operands of its size is assembled, relative or not.
use fox.Prelude.{◌≡◌, refl, sym, ap, ◌∙◌, ◌⊎◌, inl, inr, Option, none, some}
use mathlib.Core.Path.{subst}
use fox.Asm.Ast.{InstructionOne, InstructionTwo, Size, Condition, AstNode}
use fox.Asm.Value.{make_relative, one_operand, two_operand}
use fox.Asm.Parser.{Parser}
use fox.Asm.Parser.Sized.{IsSound, Built}
use fox.Asm.Meaning.{Kind, source_kind, destination_kind, two_with, one_with}
use fox.Asm.Length.{IsSizedOperand}

source_kind-make_relative : (o : AstNode) → source_kind (make_relative o) ≡ source_kind o
unfolding make_relative
source_kind-make_relative (AstNode.label_operand name size r) = refl
source_kind-make_relative (AstNode.label_operand_pointer name r) = refl
source_kind-make_relative _ = refl

destination_kind-make_relative :
    (o : AstNode) → destination_kind (make_relative o) ≡ destination_kind o
unfolding make_relative
destination_kind-make_relative (AstNode.label_operand name size r) = refl
destination_kind-make_relative (AstNode.label_operand_pointer name r) = refl
destination_kind-make_relative _ = refl

make_relative-IsSizedOperand :
    (z : Size) (o : AstNode) → IsSizedOperand z o → IsSizedOperand z (make_relative o)
unfolding make_relative
make_relative-IsSizedOperand z (AstNode.label_operand name size r) h = h
make_relative-IsSizedOperand z (AstNode.label_operand_pointer name r) h = h
make_relative-IsSizedOperand z _ h = h

-- An operand, or the same operand made relative.
abbrev Alike : AstNode → AstNode → Type 0
Alike o o' = (o' ≡ o) ⊎ (o' ≡ make_relative o)

one_operand-Alike : (i : InstructionOne) (o : AstNode) → Alike o (one_operand i o)
unfolding one_operand
one_operand-Alike InstructionOne.rjmp o = inr refl
one_operand-Alike InstructionOne.rcall o = inr refl
one_operand-Alike InstructionOne.rloop o = inr refl
one_operand-Alike _ o = inl refl

two_operand-Alike : (i : InstructionTwo) (o : AstNode) → Alike o (two_operand i o)
unfolding two_operand
two_operand-Alike InstructionTwo.rta o = inr refl
two_operand-Alike _ o = inl refl

Alike-source_kind : (o o' : AstNode) → Alike o o' → source_kind o' ≡ source_kind o
Alike-source_kind o o' (inl e) = ap source_kind e
Alike-source_kind o o' (inr e) = ap source_kind e ∙ source_kind-make_relative o

Alike-destination_kind : (o o' : AstNode) → Alike o o' → destination_kind o' ≡ destination_kind o
Alike-destination_kind o o' (inl e) = ap destination_kind e
Alike-destination_kind o o' (inr e) = ap destination_kind e ∙ destination_kind-make_relative o

Alike-IsSizedOperand :
    (z : Size) (o o' : AstNode) → Alike o o' → IsSizedOperand z o → IsSizedOperand z o'
Alike-IsSizedOperand z o o' (inl e) h = subst (IsSizedOperand z) (sym e) h
Alike-IsSizedOperand z o o' (inr e) h =
    subst (IsSizedOperand z) (sym e) (make_relative-IsSizedOperand z o h)

-- What is no source is no destination.
destination_kind-none : (o : AstNode) → source_kind o ≡ none → destination_kind o ≡ none
destination_kind-none (AstNode.register r) e = cc
destination_kind-none (AstNode.register_pointer r) e = cc
destination_kind-none (AstNode.immediate_pointer p) e = cc
destination_kind-none (AstNode.label_operand_pointer name r) e = cc
destination_kind-none _ e = refl

pub one-IsSound :
    (z : Size) (c : Condition) (i : InstructionOne) (s s' : Parser) (o : AstNode)
    → s.current_size ≡ z
    → Built s (o, s')
    → IsSound (AstNode.operation_one z c i (one_operand i o))
one-IsSound z c i s s' o ez (_, inl e) =
    let k : source_kind (one_operand i o) ≡ none =
      Alike-source_kind o _ (one_operand-Alike i o) ∙ e in
    inr (ap (one_with i z c) k)
one-IsSound z c i s s' o ez (_, inr (h, _)) = inl (
    Alike-IsSizedOperand z o _ (one_operand-Alike i o)
      (subst (λ (t : Size). IsSizedOperand t o) ez h))

two_with-none :
    (i : InstructionTwo) (z : Size) (c : Condition) (d : Option Kind) → two_with i z c d none ≡ none
two_with-none i z c none = refl
two_with-none i z c (some d) = refl

pub two-IsSound :
    (z : Size) (c : Condition) (i : InstructionTwo) (s s' s'' : Parser) (lhs rhs : AstNode)
    → s.current_size ≡ z
    → Built s (lhs, s')
    → Built s' (rhs, s'')
    → IsSound (AstNode.operation_two z c i (two_operand i lhs) (two_operand i rhs))
two-IsSound z c i s s' s'' lhs rhs ez (_, inl e) b =
    let k : destination_kind (two_operand i lhs) ≡ none =
      Alike-destination_kind lhs _ (two_operand-Alike i lhs) ∙ destination_kind-none lhs e in
    inr (ap (λ (d : Option Kind). two_with i z c d (source_kind (two_operand i rhs))) k)
two-IsSound z c i s s' s'' lhs rhs ez a (_, inl e) =
    let k : source_kind (two_operand i rhs) ≡ none =
      Alike-source_kind rhs _ (two_operand-Alike i rhs) ∙ e in
    inr (ap (two_with i z c (destination_kind (two_operand i lhs))) k ∙ two_with-none i z c _)
two-IsSound z c i s s' s'' lhs rhs ez (_, inr (_, e)) (_, inr (h, _)) = inl (
    Alike-IsSizedOperand z rhs _ (two_operand-Alike i rhs)
      (subst (λ (t : Size). IsSizedOperand t rhs) (e ∙ ez) h))
