-- ===== src/Asm/Layout/Placed.antt =====
-- fox32asm/src/main.rs: in a program without a plain `org` behind its first node, the address of an
-- instruction is its distance from the start of the output.
use Prim.Native.String.{String}
use fox.Prelude.{
  ℕ, zero, suc, ◌+◌, ◌-◌, ◌%◌, ◌^◌, ◌≤◌, ◌<◌, ◌≡◌, refl, sym, ap, ◌∙◌, inl, inr, Bool, some, List,
  [], ◌∷◌, ◌++◌, All, ltb, ltb_iff, length, arith,
}
use fox.Outcome.{Ensures, Ensures-bind, Ensures-if}
use fox.Word.{add_u32}
use fox.Asm.Ast.{AstNode}
use fox.Asm.Encode.{BackpatchTarget, size_bytes, assemble_node}
use fox.Asm.Patch.{AssembledInstruction}
use fox.Asm.Patch.Bytes.{at, at-lt, Gives-Ensures, add_u32-Gives}
use fox.Asm.Patch.Table.{IsEntry, IsCompatible}
use fox.Asm.Layout.{Layout, push_data, repeated, push_assembled, layout_node, layout_nodes}
use fox.Asm.Layout.Framed.{Framing, assemble_node-Framing}

-- The number of bytes in front of the instruction with the number `k`.
unfoldable pub offset : List AssembledInstruction → (k : ℕ) → ℕ
offset [] k = 0
offset (a ∷ l) zero = 0
offset (a ∷ l) (suc k) = length a.value + offset l k

-- All bytes.
unfoldable pub total : List AssembledInstruction → ℕ
total [] = 0
total (a ∷ l) = length a.value + total l

total-snoc :
    (l : List AssembledInstruction) (a : AssembledInstruction)
    → total (l ++ a ∷ []) ≡ total l + length a.value
unfolding total
total-snoc [] a = omega arith
total-snoc (b ∷ l) a = omega (arith, total-snoc l a)

offset-snoc :
    (l : List AssembledInstruction) (a : AssembledInstruction) (k : ℕ)
    → k < length l
    → offset (l ++ a ∷ []) k ≡ offset l k
unfolding offset
offset-snoc [] a k h = absurd (omega arith)
offset-snoc (b ∷ l) a zero h = refl
offset-snoc (b ∷ l) a (suc k) h =
    ap (λ (n : ℕ). length b.value + n) (offset-snoc l a k (omega arith))

offset-last :
    (l : List AssembledInstruction) (a : AssembledInstruction)
    → offset (l ++ a ∷ []) (length l) ≡ total l
unfolding offset total
offset-last [] a = refl
offset-last (b ∷ l) a = ap (λ (n : ℕ). length b.value + n) (offset-last l a)

at-snoc :
    (l : List AssembledInstruction) (a : AssembledInstruction) (k : ℕ)
    → k < length l
    → at (l ++ a ∷ []) k ≡ at l k
unfolding at
at-snoc [] a k h = absurd (omega arith)
at-snoc (b ∷ l) a zero h = refl
at-snoc (b ∷ l) a (suc k) h = at-snoc l a k (omega arith)

at-last :
    (l : List AssembledInstruction) (a : AssembledInstruction)
    → at (l ++ a ∷ []) (length l) ≡ some a
unfolding at
at-last [] a = refl
at-last (b ∷ l) a = at-last l a

-- The target's place is in its instruction, and that instruction is where its address says.
abbrev pub Home : (base : ℕ) → List AssembledInstruction → BackpatchTarget → Type 0
Home base l t =
    (a : AssembledInstruction) × (at l t.instruction ≡ some a)
    × (t.index + size_bytes t.size ≤ length a.value)
    × (a.address ≡ (base + offset l t.instruction) % 2 ^ 32)

pub Home-lt :
    (base : ℕ) (l : List AssembledInstruction) (t : BackpatchTarget)
    → Home base l t
    → t.instruction < length l
Home-lt base l t (a, e, _, _) = at-lt l t.instruction e

Home-snoc :
    (base : ℕ) (l : List AssembledInstruction) (b : AssembledInstruction) (t : BackpatchTarget)
    → Home base l t
    → Home base (l ++ b ∷ []) t
Home-snoc base l b t (a, e, h, k) =
    let n : t.instruction < length l = at-lt l t.instruction e in
    (
      a,
      at-snoc l b t.instruction n ∙ e,
      h,
      k ∙ ap (λ (m : ℕ). (base + m) % 2 ^ 32) (sym (offset-snoc l b t.instruction n)),
    )

-- What holds between two nodes, in an output that starts at the address `base`.
pub record Placed (base : ℕ) (s : Layout) : Type 0 where
  pub reached : s.current_address ≡ (base + total s.instructions) % 2 ^ 32
  pub homes :
      (n : String) (t : BackpatchTarget) → IsEntry n t s.label_targets → Home base s.instructions t
  pub compatible : IsCompatible s.label_targets

length-repeated : (v n : ℕ) → length (repeated v n) ≡ n
unfolding repeated
length-repeated v zero = refl
length-repeated v (suc n) = ap suc (length-repeated v n)

add_u32-Ensures :
    (checks : Bool) (a b : ℕ) → Ensures (λ w. w ≡ (a + b) % 2 ^ 32) (add_u32 checks a b)
add_u32-Ensures checks a b = Gives-Ensures checks _ (add_u32 checks a b) (add_u32-Gives checks a b)

-- A node that leaves no gap in front of what follows.
abbrev pub IsContiguous : AstNode → Type 0
IsContiguous (AstNode.origin o) = ⊥
IsContiguous (AstNode.origin_padded o) = o < 2 ^ 32
IsContiguous _ = Unit

module _ (base : ℕ) where
  data-Placed :
      (s : Layout) (bs : List ℕ) (next : ℕ)
      → Placed base s
      → next ≡ (s.current_address + length bs) % 2 ^ 32
      → Placed base (push_data bs (record s { current_address = next }))
  data-Placed s bs next p e =
      let r : s.current_address ≡ (base + total s.instructions) % 2 ^ 32 = p.reached in
      record {
        reached = omega (arith, total-snoc s.instructions (record { value = bs; address = 0 }));
        homes = λ n t i. Home-snoc base s.instructions _ t (p.homes n t i);
        compatible = p.compatible;
      }

  push_assembled-Placed :
      (checks : Bool) (node : AstNode) (s : Layout)
      → Placed base s
      → Ensures (Placed base) (push_assembled checks node s)
  unfolding push_assembled
  push_assembled-Placed checks node s p =
      let id : ℕ = length s.instructions in
      let r : s.current_address ≡ (base + total s.instructions) % 2 ^ 32 = p.reached in
      let Old : BackpatchTarget → Type 0 = Home base s.instructions in
      Ensures-bind (Framing id Old) (Placed base) (assemble_node id node s.label_targets) _
        (assemble_node-Framing id Old (Home-lt base s.instructions) node s.label_targets
          (record { places = λ n t i. inl (p.homes n t i); compatible = p.compatible }))
        λ a f.
          let here : AssembledInstruction = record {
            value = a.value;
            address = s.current_address;
          } in
          Ensures-bind _ (Placed base) (add_u32 checks s.current_address (length a.value % 2 ^ 32))
            _ (add_u32-Ensures checks s.current_address (length a.value % 2 ^ 32))
            λ next e. record {
              reached = omega (arith, total-snoc s.instructions here);
              homes = λ n t i. elim (f.places n t i) [
                | inl old ↦ Home-snoc base s.instructions here t old
                | inr (same, h) ↦ (
                  here,
                  ap (at (s.instructions ++ here ∷ [])) same ∙ at-last s.instructions here,
                  h,
                  r
                      ∙ ap (λ (m : ℕ). (base + m) % 2 ^ 32)
                          (sym (
                            ap (offset (s.instructions ++ here ∷ [])) same
                            ∙ offset-last s.instructions here)),
                )
              ];
              compatible = f.compatible;
            }

  layout_node-Placed :
      (checks : Bool) (node : AstNode) (s : Layout)
      → IsContiguous node
      → Placed base s
      → Ensures (Placed base) (layout_node checks node s)
  unfolding layout_node
  layout_node-Placed checks (AstNode.label_define name kind) s h p = record {
    reached = p.reached;
    homes = p.homes;
    compatible = p.compatible;
  }
  layout_node-Placed checks (AstNode.constant name address) s h p = record {
    reached = p.reached;
    homes = p.homes;
    compatible = p.compatible;
  }
  layout_node-Placed checks (AstNode.origin o) s h p = absurd h
  layout_node-Placed checks (AstNode.origin_padded o) s h p =
      Ensures-if (Placed base) (ltb s.current_address o) _ _
        (λ b.
          let less : s.current_address < o = (ltb_iff s.current_address o).0 b in
          let n : length (repeated 0 (o - s.current_address)) ≡ o - s.current_address =
            length-repeated 0 _ in
          data-Placed s (repeated 0 (o - s.current_address)) o p (omega arith))
        (λ b. tt)
  layout_node-Placed checks (AstNode.data_fill v n) s h p =
      Ensures-bind _ (Placed base) (add_u32 checks s.current_address n) _
        (add_u32-Ensures checks s.current_address n)
        λ next e. data-Placed s (repeated v n) next p (omega (arith, length-repeated v n))
  layout_node-Placed checks (AstNode.included_binary bs) s h p =
      Ensures-bind _ (Placed base) (add_u32 checks s.current_address (length bs % 2 ^ 32)) _
        (add_u32-Ensures checks s.current_address (length bs % 2 ^ 32))
        λ next e. data-Placed s bs next p (omega arith)
  layout_node-Placed checks node s h p = push_assembled-Placed checks node s p

  pub layout_nodes-Placed :
      (checks : Bool) (nodes : List AstNode) (s : Layout)
      → All IsContiguous nodes
      → Placed base s
      → Ensures (Placed base) (layout_nodes checks nodes s)
  unfolding layout_nodes
  layout_nodes-Placed checks [] s h p = p
  layout_nodes-Placed checks (node ∷ nodes) s (h, hs) p =
      Ensures-bind (Placed base) (Placed base) (layout_node checks node s) _
        (layout_node-Placed checks node s h p) λ s' p'. layout_nodes-Placed checks nodes s' hs p'
