-- ===== src/Asm/Image/Laws.antt =====
-- fox32asm/src/main.rs: the output holds, at the place of every label, what the label's address asks for.
use Prim.Native.String.{String}
use mathlib.Core.Path.{subst}
use fox.Prelude.{
  ℕ, zero, suc, ◌+◌, ◌%◌, ◌^◌, ◌<◌, ◌≡◌, ◌↔◌, refl, sym, ap, ◌∙◌, Bool, false, none, some, List, [],
  ◌∷◌, ◌++◌, All, length, ltb, arith,
}
use fox.Outcome.{done, Ensures, Ensures-done, Ensures-bind, Ensures-if}
use fox.Word.Bytes.{to_le_bytes}
use fox.Asm.Ast.{AstNode}
use fox.Asm.Encode.{BackpatchTarget, LabelTargets, size_bytes}
use fox.Asm.Patch.{AssembledInstruction, label_address, backpatch_labels}
use fox.Asm.Patch.Bytes.{Gives, Gives-bind, at, Holds}
use fox.Asm.Patch.Targets.{target_word, PatchedAs}
use fox.Asm.Patch.Kept.{SameShape, shape}
use fox.Asm.Patch.Table.{IsEntry, IsDefined, backpatch_labels-Resolved}
use fox.Asm.Layout.{Layout, empty_layout, layout_node, layout_nodes}
use fox.Asm.Layout.Placed.{Placed, Home, offset, total, IsContiguous, layout_nodes-Placed}
use fox.Asm.Image.{code_bytes, image, assemble}

at-front : (xs ys : List ℕ) (i : ℕ) {b : ℕ} → at xs i ≡ some b → at (xs ++ ys) i ≡ some b
unfolding at
at-front [] ys i e = cc
at-front (x ∷ xs) ys zero e = e
at-front (x ∷ xs) ys (suc i) e = at-front xs ys i e

at-behind : (xs ys : List ℕ) (i j : ℕ) → j ≡ length xs + i → at (xs ++ ys) j ≡ at ys i
unfolding at
at-behind [] ys i j e = ap (at ys) (omega arith)
at-behind (x ∷ xs) ys i zero e = absurd (omega arith)
at-behind (x ∷ xs) ys i (suc j) e = at-behind xs ys i j (omega arith)

-- A byte of an instruction is a byte of the output.
code-at :
    (l : List AssembledInstruction) (k : ℕ) (a : AssembledInstruction) (j n b : ℕ)
    → at l k ≡ some a
    → at a.value j ≡ some b
    → n ≡ offset l k + j
    → at (code_bytes l) n ≡ some b
unfolding at code_bytes offset
code-at [] k a j n b e f h = cc
code-at (c ∷ l) zero a j n b e f h =
    let same : c ≡ a = cc in
    let i : n ≡ j = omega arith in
    at-front c.value (code_bytes l) n
      (ap (λ (d : AssembledInstruction). at d.value n) same ∙ ap (at a.value) i ∙ f)
code-at (c ∷ l) (suc k) a j n b e f h =
    at-behind c.value (code_bytes l) (offset l k + j) n (omega arith)
    ∙ code-at l k a j (offset l k + j) b e f refl

code-Holds :
    (l : List AssembledInstruction) (k : ℕ) (a : AssembledInstruction) (i n : ℕ) (bs : List ℕ)
    → at l k ≡ some a
    → n ≡ offset l k + i
    → Holds a.value i bs
    → Holds (code_bytes l) n bs
code-Holds l k a i n [] e m h = tt
code-Holds l k a i n (b ∷ bs) e m (f, h) =
    (code-at l k a i n b e f m, code-Holds l k a (suc i) (suc n) bs e (omega arith) h)

length-shape :
    (a b : AssembledInstruction)
    → shape (some b) ≡ shape (some a)
    → (length b.value ≡ length a.value) × (b.address ≡ a.address)
length-shape a b e =
    let h : (length b.value, b.address) ≡ (length a.value, a.address) = cc in
    (ap (λ (x : ℕ × ℕ). x.0) h, ap (λ (x : ℕ × ℕ). x.1) h)

offset-same :
    (l l' : List AssembledInstruction) → SameShape l l' → (k : ℕ) → offset l' k ≡ offset l k
unfolding offset at
offset-same [] [] s k = refl
offset-same [] (b ∷ l') s k = let e : shape (some b) ≡ none = s 0 in cc
offset-same (a ∷ l) [] s k = let e : none ≡ shape (some a) = s 0 in cc
offset-same (a ∷ l) (b ∷ l') s zero = refl
offset-same (a ∷ l) (b ∷ l') s (suc k) =
    let (n, _) = length-shape a b (s 0) in omega (arith, offset-same l l' (λ j. s (suc j)) k)

-- The program is loaded at `base`: it has no plain `org` but as its first node.
abbrev pub StartsAt : ℕ → List AstNode → Type 0
StartsAt base [] = base ≡ 0
StartsAt base (AstNode.origin o ∷ nodes) = (o ≡ base) × (o < 2 ^ 32) × All IsContiguous nodes
StartsAt base (node ∷ nodes) = (base ≡ 0) × IsContiguous node × All IsContiguous nodes

start-Placed :
    (base : ℕ) → base < 2 ^ 32 → Placed base (record empty_layout { current_address = base })
unfolding total
start-Placed base h = record {
  reached = omega arith;
  homes = λ n t i. absurd i;
  compatible = λ n m t u i. absurd i;
}

program-Placed :
    (checks : Bool) (base : ℕ) (nodes : List AstNode)
    → StartsAt base nodes
    → Ensures (Placed base) (layout_nodes checks nodes empty_layout)
unfolding layout_nodes layout_node
program-Placed checks base [] h =
    subst (λ (b : ℕ). Placed b empty_layout) (sym h) (start-Placed 0 (omega arith))
program-Placed checks base (AstNode.origin o ∷ nodes) (e, h, hs) =
    Ensures-bind (Placed base) (Placed base) (layout_node checks (AstNode.origin o) empty_layout)
      (layout_nodes checks nodes)
      (Ensures-if (Placed base) (ltb 0 o) _ _
        (λ _.
          subst (λ (b : ℕ). Placed b (record empty_layout { current_address = o })) e
            (start-Placed o h))
        (λ _. tt))
      λ s p. layout_nodes-Placed base checks nodes s hs p
program-Placed checks base (node ∷ nodes) (e, h, hs) =
    layout_nodes-Placed base checks (node ∷ nodes) empty_layout (h, hs)
      (subst (λ (b : ℕ). Placed b empty_layout) (sym e) (start-Placed 0 (omega arith)))

-- The place of the target `t` in the output holds the bytes that `address` asks for; the instruction
-- is at its distance from the start of the output, behind `base`.
abbrev pub Linked :
    (base : ℕ) → List AssembledInstruction → List ℕ → BackpatchTarget → (address : ℕ) → Type 0
Linked base l bytes t address = Holds bytes (offset l t.instruction + t.index) (
    to_le_bytes (size_bytes t.size)
      (target_word t.is_relative address ((base + offset l t.instruction) % 2 ^ 32)))

patched-Linked :
    (base address : ℕ) (l l' : List AssembledInstruction) (t : BackpatchTarget)
    → SameShape l l'
    → Home base l t
    → PatchedAs l' t address
    → Linked base l (code_bytes l') t address
patched-Linked base address l l' t same (a, e, _, own) (b, f, h) =
    let (_, n) = length-shape a b (sym (ap shape f) ∙ same t.instruction ∙ ap shape e) in
    code-Holds l' t.instruction b t.index _ _ f
      (ap (λ (m : ℕ). m + t.index) (sym (offset-same l l' same t.instruction)))
      (subst
        (λ (o : ℕ).
          Holds b.value t.index
            (to_le_bytes (size_bytes t.size) (target_word t.is_relative address o)))
        (n ∙ own) h)

-- Every label that an instruction or a word of data names is resolved in the output, in whichever
-- order the table is read, if it is defined; nothing but an overflow check stops the assembler then.
pub assemble-Linked :
    (checks : Bool) (order : LabelTargets → LabelTargets) (nodes : List AstNode) (base : ℕ)
    (s : Layout)
    → StartsAt base nodes
    → layout_nodes checks nodes empty_layout ≡ done s
    → ((n : String) (t : BackpatchTarget)
        → IsEntry n t (order s.label_targets) ↔ IsEntry n t s.label_targets)
    → IsDefined s.label_addresses (order s.label_targets)
    → Gives checks
        (λ bytes.
          (n : String) (t : BackpatchTarget)
          → IsEntry n t s.label_targets
          → (address : ℕ) × (is_const : Bool) × (label_address n s.label_addresses
              ≡ done (address, is_const))
            × Linked base s.instructions bytes t address)
        (assemble checks false order nodes)
unfolding assemble image
assemble-Linked checks order nodes base s starts run same defined =
    let p : Placed base s =
      Ensures-done (Placed base) (layout_nodes checks nodes empty_layout) run
        (program-Placed checks base nodes starts) in
    rw run (
      Gives-bind checks _ _
        (backpatch_labels checks s.label_addresses (order s.label_targets)
          (record { instructions = s.instructions; reloc_addresses = [] }))
        (image checks false)
        (backpatch_labels-Resolved checks s.label_addresses (order s.label_targets)
          (record { instructions = s.instructions; reloc_addresses = [] })
          (λ n t i. let (a, e, h, _) = p.homes n t ((same n t).0 i) in (a, e, h))
          (λ n m t u i j. p.compatible n m t u ((same n t).0 i) ((same m u).0 j)) defined)
        λ q (shapes, resolved) n t i.
          let (address, is_const, e, h) = resolved n t ((same n t).1 i) in
          (
            address,
            is_const,
            e,
            patched-Linked base address s.instructions q.instructions t shapes (p.homes n t i) h,
          ))
