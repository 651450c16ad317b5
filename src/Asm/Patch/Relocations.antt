-- ===== src/Asm/Patch/Relocations.antt =====
-- fox32asm/src/main.rs: the table of relocations, `RELOC_ADDRESSES`.
use mathlib.Core.List.{append-nil, append_assoc}
use fox.Prelude.{
  ℕ, ◌+◌, ◌%◌, ◌^◌, ◌≡◌, refl, sym, ap, ◌∙◌, inl, inr, Bool, true, false, Option, none, some, List,
  [], ◌∷◌, ◌++◌,
}
use fox.Outcome.{Outcome, done, panic}
use fox.Word.{add_u32}
use fox.Asm.Encode.{BackpatchTarget}
use fox.Asm.Patch.{
  AssembledInstruction, Patching, write, get_backpatch_location, push_reloc, patch_target,
  perform_backpatching,
}
use fox.Asm.Patch.Bytes.{
  Gives, Gives-bind, Gives-weaken, add_u32-Gives, at, at-lt, get_at-done, set_at-IsUpdated,
}
use fox.Asm.Patch.Targets.{InBounds, IsRewritten, write-IsRewritten, patch_target-IsPatched}
use fox.Asm.Patch.Kept.{SameShape, shape, IsPatched-SameShape, IsPatched-InBounds}
use fox.Asm.Patch.Table.{IsIn}

Gives-both {ℓ} :
    {A : Type ℓ} (checks : Bool) (Q S : A → Type 0) (r : Outcome A)
    → Gives checks Q r
    → Gives checks S r
    → Gives checks (λ a. Q a × S a) r
Gives-both checks Q S (done a) h k = (h, k)
Gives-both checks Q S (panic p) h k = h

abbrev address_in : Option (ℕ × ℕ) → ℕ
address_in none = 0
address_in (some (len, address)) = address

-- The address of the target's place: the instruction's, and the index.
abbrev pub location : List AssembledInstruction → BackpatchTarget → ℕ
location l t = (address_in (shape (at l t.instruction)) + t.index % 2 ^ 32) % 2 ^ 32

-- What a label adds to the table: nothing for a constant, else the place of each of its targets.
unfoldable pub relocations :
    (is_const : Bool) → List AssembledInstruction → List BackpatchTarget → List ℕ
relocations true l ts = []
relocations false l [] = []
relocations false l (t ∷ ts) = location l t ∷ relocations false l ts

relocations-same :
    (is_const : Bool) (l l' : List AssembledInstruction) (ts : List BackpatchTarget)
    → SameShape l l'
    → relocations is_const l' ts ≡ relocations is_const l ts
unfolding relocations
relocations-same true l l' ts s = refl
relocations-same false l l' [] s = refl
relocations-same false l l' (t ∷ ts) s =
    ap
      (λ (o : Option (ℕ × ℕ)). (address_in o + t.index % 2 ^ 32) % 2 ^ 32 ∷ relocations false l' ts)
      (s t.instruction)
    ∙ ap (λ (r : List ℕ). location l t ∷ r) (relocations-same false l l' ts s)

push_reloc-relocations :
    (checks is_const : Bool) (t : BackpatchTarget) (a b : AssembledInstruction)
    (l : List AssembledInstruction) (table : List ℕ)
    → at l t.instruction ≡ some a
    → b.address ≡ a.address
    → Gives checks
        (λ table'. table' ≡ table ++ relocations is_const l (t ∷ []))
        (push_reloc checks is_const t b table)
unfolding push_reloc get_backpatch_location relocations
push_reloc-relocations checks true t a b l table e f = sym (append-nil table)
push_reloc-relocations checks false t a b l table e f =
    Gives-bind checks _ (λ table'. table' ≡ table ++ location l t ∷ [])
      (add_u32 checks b.address (t.index % 2 ^ 32)) _
      (add_u32-Gives checks b.address (t.index % 2 ^ 32))
      λ n h.
        ap (λ (m : ℕ). table ++ m ∷ [])
          (h
            ∙ ap (λ (m : ℕ). (m + t.index % 2 ^ 32) % 2 ^ 32)
                (f ∙ sym (ap (λ (o : Option AssembledInstruction). address_in (shape o)) e)))

patch_target-relocations :
    (checks : Bool) (address : ℕ) (is_const : Bool) (t : BackpatchTarget) (s : Patching)
    → InBounds s.instructions t
    → Gives checks
        (λ s'.
          s'.reloc_addresses ≡ s.reloc_addresses ++ relocations is_const s.instructions (t ∷ []))
        (patch_target checks address is_const t s)
unfolding patch_target
patch_target-relocations checks address is_const t s (a, e, h) =
    let l : List AssembledInstruction = s.instructions in
    let Q : Patching → Type 0 =
      λ s'. s'.reloc_addresses ≡ s.reloc_addresses ++ relocations is_const l (t ∷ []) in
    rw (get_at-done l t.instruction e) (
      Gives-bind checks (IsRewritten t address a) Q (write checks t t.size address a) _
        (write-IsRewritten checks t address a h)
        λ b w.
          let (l', run, is) = set_at-IsUpdated l t.instruction b (at-lt l t.instruction e) in
          rw run (
            Gives-bind checks _ Q (push_reloc checks is_const t b s.reloc_addresses) _
              (push_reloc-relocations checks is_const t a b l s.reloc_addresses e w.same_address)
              λ table k. k))

relocations-cons :
    (is_const : Bool) (l : List AssembledInstruction) (t : BackpatchTarget)
    (ts : List BackpatchTarget)
    → relocations is_const l (t ∷ []) ++ relocations is_const l ts ≡ relocations is_const l (t ∷ ts)
unfolding relocations
relocations-cons true l t ts = refl
relocations-cons false l t ts = refl

-- A label adds to the table of relocations exactly the places of its targets, the relative ones
-- too, in their order, and nothing if it is a constant.
pub perform_backpatching-relocations :
    (checks : Bool) (ts : List BackpatchTarget) (address : ℕ) (is_const : Bool) (s : Patching)
    → ((t : BackpatchTarget) → IsIn t ts → InBounds s.instructions t)
    → Gives checks
        (λ s'. s'.reloc_addresses ≡ s.reloc_addresses ++ relocations is_const s.instructions ts)
        (perform_backpatching checks ts address is_const s)
unfolding perform_backpatching
perform_backpatching-relocations checks [] address is_const s b = none_left is_const
  where
    none_left :
        (c : Bool) → s.reloc_addresses ≡ s.reloc_addresses ++ relocations c s.instructions []
    none_left true = unfold relocations in sym (append-nil s.reloc_addresses)
    none_left false = unfold relocations in sym (append-nil s.reloc_addresses)
perform_backpatching-relocations checks (t ∷ ts) address is_const s b =
    let l : List AssembledInstruction = s.instructions in
    let Q : Patching → Type 0 =
      λ s'. s'.reloc_addresses ≡ s.reloc_addresses ++ relocations is_const l (t ∷ ts) in
    Gives-bind checks _ Q (patch_target checks address is_const t s) _
      (Gives-both checks _ _ (patch_target checks address is_const t s)
        (patch_target-IsPatched checks address is_const t s (b t (inl refl)))
        (patch_target-relocations checks address is_const t s (b t (inl refl))))
      λ s₁ (p, e).
        Gives-weaken checks _ Q (perform_backpatching checks ts address is_const s₁)
          (perform_backpatching-relocations checks ts address is_const s₁
            (λ u i. IsPatched-InBounds t u address l s₁.instructions p (b u (inr i))))
          λ s' k.
            k
            ∙ ap (λ (r : List ℕ). s₁.reloc_addresses ++ r)
                (relocations-same is_const l s₁.instructions ts
                  (IsPatched-SameShape t address l s₁.instructions p))
            ∙ ap (λ (r : List ℕ). r ++ relocations is_const l ts) e
            ∙ append_assoc s.reloc_addresses (relocations is_const l (t ∷ []))
                (relocations is_const l ts)
            ∙ ap (λ (r : List ℕ). s.reloc_addresses ++ r) (relocations-cons is_const l t ts)
