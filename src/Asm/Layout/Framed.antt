-- ===== src/Asm/Layout/Framed.antt =====
-- fox32asm/src/main.rs: the targets in the table are places in the output, each with bytes of its own.
use Prim.Native.String.{String}
use text.Mathlib.Text.{◌==◌ as same_text}
use text.Mathlib.TextEquality.{eq_iff}
use mathlib.Core.Path.{subst}
use fox.Prelude.{
  ℕ, ◌+◌, ◌≤◌, ◌<◌, ◌≡◌, refl, sym, ap, ◌∙◌, ◌⊎◌, inl, inr, Bool, true, false, List, [], ◌∷◌, ◌++◌,
  length, length-append, if◌then◌else◌, arith,
}
use fox.Outcome.{Ensures, Ensures-bind, after}
use fox.Word.Bytes.{to_le_bytes}
use fox.Asm.Ast.{Size, AstNode}
use fox.Asm.Encode.{
  BackpatchTarget, LabelTargets, Assembling, add_target, size_bytes, placeholder, as_bytes,
  generate_backpatch_immediate, source_values, destination_values, node_to_immediate_values,
  assemble_operation, assemble_node, condition_source_destination_to_byte, instruction_to_byte,
}
use fox.Asm.Patch.Targets.{Apart}
use fox.Asm.Patch.Table.{IsIn, IsEntry, IsCompatible}

snoc-IsIn :
    (t x : BackpatchTarget) (ts : List BackpatchTarget)
    → IsIn t (ts ++ x ∷ [])
    → (x ≡ t) ⊎ IsIn t ts
snoc-IsIn t x [] (inl e) = inl e
snoc-IsIn t x [] (inr i) = absurd i
snoc-IsIn t x (u ∷ ts) (inl e) = inr (inl e)
snoc-IsIn t x (u ∷ ts) (inr i) = elim (snoc-IsIn t x ts i) [ inl e ↦ inl e | inr j ↦ inr (inr j) ]

-- The entries of a table whose first label may be the one that gets the target.
entries-if :
    (name n m : String) (x t : BackpatchTarget) (ts : List BackpatchTarget)
    (table more : LabelTargets)
    → (IsEntry n t more → ((name ≡ n) × (x ≡ t)) ⊎ IsEntry n t table)
    → (b : Bool) → same_text name m ≡ b
    → IsEntry n t (if b then (m, ts ++ x ∷ []) ∷ table else (m, ts) ∷ more)
    → ((name ≡ n) × (x ≡ t)) ⊎ IsEntry n t ((m, ts) ∷ table)
entries-if name n m x t ts table more again true e (inl (f, j)) = elim (snoc-IsIn t x ts j) [
  | inl g ↦ inl ((eq_iff name m).0 e ∙ f, g)
  | inr k ↦ inr (inl (f, k))
]
entries-if name n m x t ts table more again true e (inr j) = inr (inr j)
entries-if name n m x t ts table more again false e (inl j) = inr (inl j)
entries-if name n m x t ts table more again false e (inr j) = elim (again j) [
  | inl k ↦ inl k
  | inr k ↦ inr (inr k)
]

-- The entries of the table with a target added.
add_target-IsEntry :
    (name n : String) (x t : BackpatchTarget) (table : LabelTargets)
    → IsEntry n t (add_target name x table)
    → ((name ≡ n) × (x ≡ t)) ⊎ IsEntry n t table
unfolding add_target
add_target-IsEntry name n x t [] (inl (e, inl f)) = inl (e, f)
add_target-IsEntry name n x t [] (inl (e, inr i)) = absurd i
add_target-IsEntry name n x t [] (inr i) = absurd i
add_target-IsEntry name n x t ((m, ts) ∷ table) i =
    entries-if name n m x t ts table (add_target name x table) (add_target-IsEntry name n x t table)
      (same_text name m) refl i

placeholder-size : (z : Size) → length (placeholder z) ≡ size_bytes z
placeholder-size Size.byte = refl
placeholder-size Size.half = refl
placeholder-size Size.word = refl

-- While the instruction with the number `id` is assembled: its own targets are in what it has so far,
-- and the others are the old ones.
pub record Framing (id : ℕ) (Old : BackpatchTarget → Type 0) (a : Assembling) : Type 0 where
  pub places :
      (n : String) (t : BackpatchTarget)
      → IsEntry n t a.label_targets
      → Old t ⊎ ((t.instruction ≡ id) × (t.index + size_bytes t.size ≤ length a.value))
  pub compatible : IsCompatible a.label_targets

-- Bytes behind what is there.
push-Framing :
    (id : ℕ) (Old : BackpatchTarget → Type 0) (a : Assembling) (bs : List ℕ)
    → Framing id Old a
    → Framing id Old (record a { value = a.value ++ bs })
push-Framing id Old a bs f = record {
  places = λ n t i. elim (f.places n t i) [
    | inl b ↦ inl b
    | inr (e, h) ↦ inr (e, omega (arith, length-append a.value bs))
  ];
  compatible = f.compatible;
}

-- The place behind what is there is apart from the places before.
fresh-Apart :
    (id : ℕ) (Old : BackpatchTarget → Type 0) (a : Assembling) (x t : BackpatchTarget)
    → ((t : BackpatchTarget) → Old t → t.instruction < id)
    → x.instruction ≡ id
    → x.index ≡ length a.value
    → Old t ⊎ ((t.instruction ≡ id) × (t.index + size_bytes t.size ≤ length a.value))
    → Apart t x × Apart x t
fresh-Apart id Old a x t h e i (inl b) =
    let k : t.instruction < id = h t b in (inl (λ same. omega arith), inl (λ same. omega arith))
fresh-Apart id Old a x t h e i (inr (_, k)) = (inr (inl (omega arith)), inr (inr (omega arith)))

module _ (id : ℕ) (Old : BackpatchTarget → Type 0)
    (old : (t : BackpatchTarget) → Old t → t.instruction < id) where
  generate-Framing :
      (name : String) (size : Size) (r : Bool) (a : Assembling)
      → Framing id Old a
      → Framing id Old (generate_backpatch_immediate id name size r a)
  unfolding generate_backpatch_immediate
  generate-Framing name size r a f =
      let x : BackpatchTarget = record {
        index = length a.value;
        size = size;
        is_relative = r;
        instruction = id;
      } in
      record {
        places = λ n t i. elim (add_target-IsEntry name n x t a.label_targets i) [
          | inl (_, e) ↦ inr (
            sym (ap (λ (u : BackpatchTarget). u.instruction) e),
            subst
                (λ (u : BackpatchTarget).
                  u.index + size_bytes u.size ≤ length (a.value ++ placeholder size))
                e (omega (arith, length-append a.value (placeholder size), placeholder-size size)),
          )
          | inr j ↦ elim (f.places n t j) [
            | inl b ↦ inl b
            | inr (e, h) ↦ inr (e, omega (arith, length-append a.value (placeholder size)))
          ]
        ];
        compatible = λ n m t u i j. elim (add_target-IsEntry name n x t a.label_targets i) [
          | inl (e, e') ↦ elim (add_target-IsEntry name m x u a.label_targets j) [
            | inl (g, g') ↦ inl (sym e ∙ g, sym e' ∙ g')
            | inr k ↦ inr (
                subst (λ (v : BackpatchTarget). Apart v u) e'
                  (fresh-Apart id Old a x u old refl refl (f.places m u k)).1)
          ]
          | inr k ↦ elim (add_target-IsEntry name m x u a.label_targets j) [
            | inl (g, g') ↦ inr (
                subst (λ (v : BackpatchTarget). Apart t v) g'
                  (fresh-Apart id Old a x t old refl refl (f.places n t k)).0)
            | inr k' ↦ f.compatible n m t u k k'
          ]
        ];
      }

  source_values-Framing :
      (o : AstNode) (a : Assembling)
      → Framing id Old a
      → Ensures (Framing id Old) (source_values id o a)
  unfolding source_values
  source_values-Framing (AstNode.register r) a f = push-Framing id Old a (r ∷ []) f
  source_values-Framing (AstNode.register_pointer r) a f = push-Framing id Old a (r ∷ []) f
  source_values-Framing (AstNode.immediate8 v) a f = push-Framing id Old a (v ∷ []) f
  source_values-Framing (AstNode.immediate16 v) a f = push-Framing id Old a (to_le_bytes 2 v) f
  source_values-Framing (AstNode.immediate32 v) a f = push-Framing id Old a (to_le_bytes 4 v) f
  source_values-Framing (AstNode.immediate_pointer p) a f =
      push-Framing id Old a (to_le_bytes 4 p) f
  source_values-Framing (AstNode.label_operand name size r) a f = generate-Framing name size r a f
  source_values-Framing (AstNode.label_operand_pointer name r) a f =
      generate-Framing name Size.word r a f
  source_values-Framing _ a f = tt

  destination_values-Framing :
      (o : AstNode) (a : Assembling)
      → Framing id Old a
      → Ensures (Framing id Old) (destination_values id o a)
  unfolding destination_values
  destination_values-Framing (AstNode.register r) a f = push-Framing id Old a (r ∷ []) f
  destination_values-Framing (AstNode.register_pointer r) a f = push-Framing id Old a (r ∷ []) f
  destination_values-Framing (AstNode.immediate_pointer p) a f =
      push-Framing id Old a (to_le_bytes 4 p) f
  destination_values-Framing (AstNode.label_operand name size r) a f =
      generate-Framing name size r a f
  destination_values-Framing (AstNode.label_operand_pointer name r) a f =
      generate-Framing name Size.word r a f
  destination_values-Framing _ a f = tt

  node_to_immediate_values-Framing :
      (o : AstNode) (a : Assembling)
      → Framing id Old a
      → Ensures (Framing id Old) (node_to_immediate_values id o a)
  unfolding node_to_immediate_values
  node_to_immediate_values-Framing (AstNode.operation_zero c i) a f = f
  node_to_immediate_values-Framing (AstNode.operation_one z c i o) a f = source_values-Framing o a f
  node_to_immediate_values-Framing (AstNode.operation_two z c i lhs rhs) a f =
      Ensures-bind (Framing id Old) (Framing id Old) (source_values id rhs a) _
        (source_values-Framing rhs a f) (destination_values-Framing lhs)
  node_to_immediate_values-Framing _ a f = tt

  -- The table alone, before any byte is there.
  begin-Framing :
      (table : LabelTargets) (bs : List ℕ)
      → Framing id Old (record { value = []; label_targets = table })
      → Framing id Old (record { value = bs; label_targets = table })
  begin-Framing table bs f = push-Framing id Old (record { value = []; label_targets = table }) bs f

  assemble_operation-Framing :
      (o : AstNode) (table : LabelTargets)
      → Framing id Old (record { value = []; label_targets = table })
      → Ensures (Framing id Old) (assemble_operation id o table)
  unfolding assemble_operation
  assemble_operation-Framing o table f =
      after (Framing id Old) (condition_source_destination_to_byte o) _ λ first.
        after (Framing id Old) (instruction_to_byte o) _ λ second.
          node_to_immediate_values-Framing o _ (begin-Framing table (first ∷ second ∷ []) f)

  pub assemble_node-Framing :
      (o : AstNode) (table : LabelTargets)
      → Framing id Old (record { value = []; label_targets = table })
      → Ensures (Framing id Old) (assemble_node id o table)
  unfolding assemble_node
  assemble_node-Framing (AstNode.data_byte v) table f = begin-Framing table (v ∷ []) f
  assemble_node-Framing (AstNode.data_half v) table f = begin-Framing table (to_le_bytes 2 v) f
  assemble_node-Framing (AstNode.data_word v) table f = begin-Framing table (to_le_bytes 4 v) f
  assemble_node-Framing (AstNode.data_str s) table f = begin-Framing table (as_bytes s) f
  assemble_node-Framing (AstNode.label_operand name size r) table f =
      generate-Framing name size r _ f
  assemble_node-Framing node table f = assemble_operation-Framing node table f
