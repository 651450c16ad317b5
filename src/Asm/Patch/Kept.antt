-- ===== src/Asm/Patch/Kept.antt =====
-- fox32asm/src/main.rs: what one patched target leaves of the output and of the other targets.
use mathlib.Core.Path.{subst}
use fox.Prelude.{
  ℕ, ◌+◌, ◌≤◌, ◌≡◌, ◌≢◌, sym, ap, ◌∙◌, ◌⊎◌, inl, inr, Option, none, some, List, length, arith,
}
use fox.Word.Bytes.{to_le_bytes, length-to_le_bytes}
use fox.Asm.Encode.{BackpatchTarget, size_bytes}
use fox.Asm.Patch.{AssembledInstruction}
use fox.Asm.Patch.Bytes.{at, Holds, Holds-same}
use fox.Asm.Patch.Targets.{InBounds, PatchedAs, target_word, Apart, IsRewritten, IsPatched}

-- An instruction is the target's own, or another.
own-cases : (m n : ℕ) → (m ≡ n) ⊎ (m ≢ n)
own-cases m n = ground arith

pub IsPatched-InBounds :
    (t u : BackpatchTarget) (address : ℕ) (l l' : List AssembledInstruction)
    → IsPatched t address l l'
    → InBounds l u
    → InBounds l' u
IsPatched-InBounds t u address l l' p (a, e, h) = elim (own-cases u.instruction t.instruction) [
  | inl same ↦
      let same_value : some a ≡ some p.before = sym e ∙ ap (at l) same ∙ p.at_before in
      let r : IsRewritten t address p.before p.behind = p.rewritten in
      let n : length p.behind.value ≡ length p.before.value = r.same_length in
      let k : a ≡ p.before = cc in
      (
        p.behind,
        ap (at l') same ∙ p.at_behind,
        subst (λ (m : ℕ). u.index + size_bytes u.size ≤ m)
            (ap (λ (b : AssembledInstruction). length b.value) k ∙ sym n) h,
      )
  | inr other ↦ (a, p.elsewhere u.instruction other ∙ e, h)
]

-- A target of the same place keeps its word, if it asks for the same address.
pub IsPatched-PatchedAs :
    (t u : BackpatchTarget) (address address' : ℕ) (l l' : List AssembledInstruction)
    → IsPatched t address l l'
    → Apart t u
    → PatchedAs l u address'
    → PatchedAs l' u address'
IsPatched-PatchedAs t u address address' l l' p d (a, e, h) =
    elim (own-cases u.instruction t.instruction) [
      | inl same ↦
          let r : IsRewritten t address p.before p.behind = p.rewritten in
          let same_value : some a ≡ some p.before = sym e ∙ ap (at l) same ∙ p.at_before in
          let k : a ≡ p.before = cc in
          let own : a.address ≡ p.behind.address =
            ap (λ (b : AssembledInstruction). b.address) k ∙ sym r.same_address in
          let bytes : ℕ → List ℕ =
            λ own. to_le_bytes (size_bytes u.size) (target_word u.is_relative address' own) in
          let n : length (bytes p.behind.address) ≡ size_bytes u.size =
            length-to_le_bytes (size_bytes u.size) _ in
          (
            p.behind,
            ap (at l') same ∙ p.at_behind,
            Holds-same p.before.value p.behind.value u.index (bytes p.behind.address)
                (λ j below above. r.outside j (elim d [
                  | inl different ↦ absurd (different (sym same))
                  | inr (inl front) ↦ inr (omega arith)
                  | inr (inr back) ↦ inl (omega arith)
                ]))
                (subst (λ (v : List ℕ). Holds v u.index (bytes p.behind.address))
                  (ap (λ (b : AssembledInstruction). b.value) k)
                  (subst (λ (o : ℕ). Holds a.value u.index (bytes o)) own h)),
          )
      | inr other ↦ (a, p.elsewhere u.instruction other ∙ e, h)
    ]

-- How long an instruction is, and where it is.
abbrev pub shape : Option AssembledInstruction → Option (ℕ × ℕ)
shape none = none
shape (some a) = some (length a.value, a.address)

abbrev pub SameShape : List AssembledInstruction → List AssembledInstruction → Type 0
SameShape l l' = (k : ℕ) → shape (at l' k) ≡ shape (at l k)

pub IsPatched-SameShape :
    (t : BackpatchTarget) (address : ℕ) (l l' : List AssembledInstruction)
    → IsPatched t address l l'
    → SameShape l l'
IsPatched-SameShape t address l l' p k = elim (own-cases k t.instruction) [
  | inl same ↦
      let r : IsRewritten t address p.before p.behind = p.rewritten in
      let n : length p.behind.value ≡ length p.before.value = r.same_length in
      let e : p.behind.address ≡ p.before.address = r.same_address in
      ap shape (ap (at l') same ∙ p.at_behind)
      ∙ ap (λ (m : ℕ). some (m, p.behind.address)) n
      ∙ ap (λ (m : ℕ). some (length p.before.value, m)) e
      ∙ sym (ap shape (ap (at l) same ∙ p.at_before))
  | inr other ↦ ap shape (p.elsewhere k other)
]

pub IsPatched-here :
    (t : BackpatchTarget) (address : ℕ) (l l' : List AssembledInstruction)
    → IsPatched t address l l'
    → PatchedAs l' t address
IsPatched-here t address l l' p =
    let r : IsRewritten t address p.before p.behind = p.rewritten in
    (
      p.behind,
      p.at_behind,
      subst
          (λ (o : ℕ).
            Holds p.behind.value t.index
              (to_le_bytes (size_bytes t.size) (target_word t.is_relative address o)))
          (sym r.same_address) r.place,
    )
