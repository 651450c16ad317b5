-- ===== src/Asm/Patch/Table.antt =====
-- fox32asm/src/main.rs: backpatching every target of every label.
use Prim.Native.String.{String}
use mathlib.Core.Path.{subst}
use fox.Prelude.{ℕ, ◌≡◌, refl, sym, ap, ◌∙◌, ◌⊎◌, inl, inr, Bool, List, [], ◌∷◌}
use fox.Outcome.{done}
use fox.Asm.Encode.{BackpatchTarget, LabelTargets}
use fox.Asm.Patch.{
  AssembledInstruction, Patching, patch_target, perform_backpatching, LabelAddresses, label_address,
  backpatch_labels,
}
use fox.Asm.Patch.Bytes.{Gives, Gives-bind, Gives-weaken}
use fox.Asm.Patch.Targets.{InBounds, PatchedAs, Apart, IsPatched, patch_target-IsPatched}
use fox.Asm.Patch.Kept.{
  SameShape, IsPatched-InBounds, IsPatched-PatchedAs, IsPatched-SameShape, IsPatched-here,
}

abbrev pub IsIn : {A : Type 0} → A → List A → Type 0
IsIn x [] = ⊥
IsIn x (y ∷ ys) = (y ≡ x) ⊎ IsIn x ys

-- Writing the target `t` for `address` leaves what `u` asks for `address'`.
abbrev Settles : BackpatchTarget → ℕ → BackpatchTarget → ℕ → Type 0
Settles t address u address' = ((t ≡ u) × (address ≡ address')) ⊎ Apart t u

step-PatchedAs :
    (t u : BackpatchTarget) (address address' : ℕ) (l l' : List AssembledInstruction)
    → IsPatched t address l l'
    → Settles t address u address'
    → PatchedAs l u address'
    → PatchedAs l' u address'
step-PatchedAs t u address address' l l' p (inl (same, e)) h =
    subst (λ (v : BackpatchTarget). PatchedAs l' v address') same
      (subst (PatchedAs l' t) e (IsPatched-here t address l l' p))
step-PatchedAs t u address address' l l' p (inr d) h =
    IsPatched-PatchedAs t u address address' l l' p d h

-- What the targets of one label, with its address, do to the output.
record Performed (ts : List BackpatchTarget) (address : ℕ) (l l' : List AssembledInstruction)
    : Type 0 where
  same_shape : SameShape l l'
  kept_bounds : (u : BackpatchTarget) → InBounds l u → InBounds l' u
  kept :
      (u : BackpatchTarget) (address' : ℕ)
      → ((t : BackpatchTarget) → IsIn t ts → Settles t address u address')
      → PatchedAs l u address'
      → PatchedAs l' u address'
  patched : (t : BackpatchTarget) → IsIn t ts → PatchedAs l' t address

perform_backpatching-Performed :
    (checks : Bool) (ts : List BackpatchTarget) (address : ℕ) (is_const : Bool) (s : Patching)
    → ((t : BackpatchTarget) → IsIn t ts → InBounds s.instructions t)
    → ((t u : BackpatchTarget) → IsIn t ts → IsIn u ts → (t ≡ u) ⊎ Apart t u)
    → Gives checks
        (λ s'. Performed ts address s.instructions s'.instructions)
        (perform_backpatching checks ts address is_const s)
unfolding perform_backpatching
perform_backpatching-Performed checks [] address is_const s b d = record {
  same_shape = λ k. refl;
  kept_bounds = λ u h. h;
  kept = λ u a k h. h;
  patched = λ t i. absurd i;
}
perform_backpatching-Performed checks (t ∷ ts) address is_const s b d =
    let Q : Patching → Type 0 = λ s'. Performed (t ∷ ts) address s.instructions s'.instructions in
    Gives-bind checks (λ s'. IsPatched t address s.instructions s'.instructions) Q
      (patch_target checks address is_const t s) _
      (patch_target-IsPatched checks address is_const t s (b t (inl refl)))
      λ s₁ p.
        Gives-weaken checks (λ s'. Performed ts address s₁.instructions s'.instructions) Q _
          (perform_backpatching-Performed checks ts address is_const s₁
            (λ u i. IsPatched-InBounds t u address s.instructions s₁.instructions p (b u (inr i)))
            (λ u v i j. d u v (inr i) (inr j)))
          λ s' q. record {
            same_shape = λ k.
                q.same_shape k ∙ IsPatched-SameShape t address s.instructions s₁.instructions p k;
            kept_bounds = λ u h.
                q.kept_bounds u (IsPatched-InBounds t u address s.instructions s₁.instructions p h);
            kept = λ u a k h.
                q.kept u a (λ v i. k v (inr i))
                  (step-PatchedAs t u address a s.instructions s₁.instructions p (k t (inl refl))
                    h);
            patched = λ u i. elim i [
              | inl same ↦
                  q.kept u address
                    (λ v j. elim (d v u (inr j) (inl same)) [
                      | inl e ↦ inl (e, refl)
                      | inr a ↦ inr a
                    ])
                    (subst (λ (v : BackpatchTarget). PatchedAs s₁.instructions v address) same
                      (IsPatched-here t address s.instructions s₁.instructions p))
              | inr i ↦ q.patched u i
            ];
          }

abbrev pub IsEntry : String → BackpatchTarget → LabelTargets → Type 0
IsEntry n t [] = ⊥
IsEntry n t ((m, ts) ∷ table) = ((m ≡ n) × IsIn t ts) ⊎ IsEntry n t table

-- Two targets of a table are one, or have no byte in common.
abbrev pub IsCompatible : LabelTargets → Type 0
IsCompatible table =
    (n m : String) (t u : BackpatchTarget)
    → IsEntry n t table
    → IsEntry m u table
    → ((n ≡ m) × (t ≡ u)) ⊎ Apart t u

abbrev pub IsDefined : LabelAddresses → LabelTargets → Type 0
IsDefined addresses [] = Unit
IsDefined addresses ((n, ts) ∷ table) =
    ((a : ℕ × Bool) × (label_address n addresses ≡ done a)) × IsDefined addresses table

-- The place of the target holds what its label's address asks for.
abbrev pub Resolved : LabelAddresses → List AssembledInstruction → String → BackpatchTarget → Type 0
Resolved addresses l n t =
    (address : ℕ) × (is_const : Bool) × (label_address n addresses ≡ done (address, is_const))
    × PatchedAs l t address

module _ (checks : Bool) (addresses : LabelAddresses) where
  -- Writing a table's targets leaves what `u` asks for `address'`.
  abbrev Unharmed : LabelTargets → BackpatchTarget → ℕ → Type 0
  Unharmed table u address' =
      (m : String) (t : BackpatchTarget) (a : ℕ) (c : Bool)
      → IsEntry m t table
      → label_address m addresses ≡ done (a, c)
      → Settles t a u address'

  record Backpatched (table : LabelTargets) (l l' : List AssembledInstruction) : Type 0 where
    same_shape : SameShape l l'
    kept_bounds : (u : BackpatchTarget) → InBounds l u → InBounds l' u
    kept :
        (u : BackpatchTarget) (address' : ℕ)
        → Unharmed table u address'
        → PatchedAs l u address'
        → PatchedAs l' u address'
    resolved : (n : String) (t : BackpatchTarget) → IsEntry n t table → Resolved addresses l' n t

  backpatch_labels-Backpatched :
      (table : LabelTargets) (s : Patching)
      → ((n : String) (t : BackpatchTarget) → IsEntry n t table → InBounds s.instructions t)
      → IsCompatible table
      → IsDefined addresses table
      → Gives checks
          (λ s'. Backpatched table s.instructions s'.instructions)
          (backpatch_labels checks addresses table s)
  unfolding backpatch_labels
  backpatch_labels-Backpatched [] s b d f = record {
    same_shape = λ k. refl;
    kept_bounds = λ u h. h;
    kept = λ u a k h. h;
    resolved = λ n t i. absurd i;
  }
  backpatch_labels-Backpatched ((m, ts) ∷ table) s b d (((a, c), e), f) =
      let Q : Patching → Type 0 =
        λ s'. Backpatched ((m, ts) ∷ table) s.instructions s'.instructions in
      rw e (
        Gives-bind checks (λ s'. Performed ts a s.instructions s'.instructions) Q
          (perform_backpatching checks ts a c s) _
          (perform_backpatching-Performed checks ts a c s (λ t i. b m t (inl (refl, i)))
            (λ t u i j. elim (d m m t u (inl (refl, i)) (inl (refl, j))) [
              | inl (_, same) ↦ inl same
              | inr far ↦ inr far
            ]))
          λ s₁ p.
            Gives-weaken checks (λ s'. Backpatched table s₁.instructions s'.instructions) Q _
              (backpatch_labels-Backpatched table s₁ (λ n t i. p.kept_bounds t (b n t (inr i)))
                (λ n n' t u i j. d n n' t u (inr i) (inr j)) f)
              λ s' q. record {
                same_shape = λ k. q.same_shape k ∙ p.same_shape k;
                kept_bounds = λ u h. q.kept_bounds u (p.kept_bounds u h);
                kept = λ u a' k h.
                    q.kept u a' (λ n t a₁ c₁ i. k n t a₁ c₁ (inr i))
                      (p.kept u a' (λ t i. k m t a c (inl (refl, i)) e) h);
                resolved = λ n t i. elim i [
                  | inl (same, i) ↦ (
                    a,
                    c,
                    ap (λ (x : String). label_address x addresses) (sym same) ∙ e,
                    q.kept t a
                        (λ n' u a₁ c₁ j e₁. elim (d n' m u t (inr j) (inl (refl, i))) [
                          | inl (other, e₂) ↦
                              let k : done (a₁, c₁) ≡ done (a, c) =
                                sym e₁ ∙ ap (λ (x : String). label_address x addresses) other ∙ e in
                              inl (e₂, cc)
                          | inr far ↦ inr far
                        ])
                        (p.patched t i),
                  )
                  | inr i ↦ q.resolved n t i
                ];
              })

  -- After backpatching, the place of every target of the table holds what its label asks for, and
  -- nothing but an overflow check stops the loop.
  pub backpatch_labels-Resolved :
      (table : LabelTargets) (s : Patching)
      → ((n : String) (t : BackpatchTarget) → IsEntry n t table → InBounds s.instructions t)
      → IsCompatible table
      → IsDefined addresses table
      → Gives checks
          (λ s'.
            SameShape s.instructions s'.instructions
            × ((n : String) (t : BackpatchTarget)
                → IsEntry n t table
                → Resolved addresses s'.instructions n t))
          (backpatch_labels checks addresses table s)
  backpatch_labels-Resolved table s b d f =
      Gives-weaken checks (λ s'. Backpatched table s.instructions s'.instructions) _ _
        (backpatch_labels-Backpatched table s b d f) λ s' q. (q.same_shape, q.resolved)
