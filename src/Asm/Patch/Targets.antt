-- ===== src/Asm/Patch/Targets.antt =====
-- fox32asm/src/main.rs: what backpatching does to one target's place, and to the places of others.
use mathlib.Core.Path.{subst}
use fox.Prelude.{
  ℕ, ◌+◌, ◌-◌, ◌%◌, ◌^◌, ◌≤◌, ◌<◌, ◌≡◌, ◌≢◌, refl, sym, ◌⊎◌, inl, inr, Bool, true, false, some,
  List, length, if◌then◌else◌, arith,
}
use fox.Outcome.{Outcome, done, ◌>>=◌}
use fox.Word.Bytes.{to_le_bytes, length-to_le_bytes}
use fox.Word.{add_u32}
use fox.Asm.Encode.{BackpatchTarget, size_bytes}
use fox.Asm.Patch.{
  AssembledInstruction, Patching, sub_i32, sub_overflows, address_word, write,
  get_backpatch_location, push_reloc, patch_target,
}
use fox.Asm.Patch.Bytes.{
  Gives, checked-Gives, add_u32-Gives, Gives-bind, at, at-lt, get_at-done, set_at-IsUpdated, Holds,
  set_bytes-IsWritten,
}

-- The place of a target is in its instruction.
abbrev pub InBounds : List AssembledInstruction → BackpatchTarget → Type 0
InBounds l t =
    (a : AssembledInstruction) × (at l t.instruction ≡ some a)
    × (t.index + size_bytes t.size ≤ length a.value)

-- The word that a target asks for: the label's address, or its distance from the instruction.
abbrev pub target_word : (is_relative : Bool) → (address own : ℕ) → ℕ
target_word is_relative address own =
    if is_relative then (address + 2 ^ 32 - own) % 2 ^ 32 else address

-- The low bytes of that word stand at the target's place.
abbrev pub PatchedAs : List AssembledInstruction → BackpatchTarget → (address : ℕ) → Type 0
PatchedAs l t address =
    (a : AssembledInstruction) × (at l t.instruction ≡ some a)
    × Holds a.value t.index
        (to_le_bytes (size_bytes t.size) (target_word t.is_relative address a.address))

-- Two targets whose places have no byte in common.
abbrev pub Apart : BackpatchTarget → BackpatchTarget → Type 0
Apart t u =
    (t.instruction ≢ u.instruction)
    ⊎ ((t.index + size_bytes t.size ≤ u.index) ⊎ (u.index + size_bytes u.size ≤ t.index))

-- The instruction `a` with the target's place written, and nothing else.
pub record IsRewritten (t : BackpatchTarget) (address : ℕ) (a b : AssembledInstruction)
    : Type 0 where
  pub same_address : b.address ≡ a.address
  pub same_length : length b.value ≡ length a.value
  pub place :
      Holds b.value t.index
        (to_le_bytes (size_bytes t.size) (target_word t.is_relative address a.address))
  pub outside :
      (j : ℕ) → (j < t.index) ⊎ (t.index + size_bytes t.size ≤ j) → at b.value j ≡ at a.value j

sub_i32-Gives :
    (checks : Bool) (a b : ℕ)
    → Gives checks (λ w. w ≡ (a + 2 ^ 32 - b) % 2 ^ 32) (sub_i32 checks a b)
unfolding sub_i32
sub_i32-Gives checks a b = checked-Gives checks (sub_overflows a b) _ _ refl

address_word-Gives :
    (checks is_relative : Bool) (address own : ℕ)
    → Gives checks
        (λ w. w ≡ target_word is_relative address own)
        (address_word checks is_relative address own)
unfolding address_word
address_word-Gives checks true address own = sub_i32-Gives checks address own
address_word-Gives checks false address own = refl

pub write-IsRewritten :
    (checks : Bool) (t : BackpatchTarget) (address : ℕ) (a : AssembledInstruction)
    → t.index + size_bytes t.size ≤ length a.value
    → Gives checks (IsRewritten t address a) (write checks t t.size address a)
unfolding write
write-IsRewritten checks t address a h =
    Gives-bind checks _ (IsRewritten t address a)
      (address_word checks t.is_relative address a.address) _
      (address_word-Gives checks t.is_relative address a.address)
      λ w e.
        let l : length (to_le_bytes (size_bytes t.size) w) ≡ size_bytes t.size =
          length-to_le_bytes (size_bytes t.size) w in
        let (ys, run, is) =
          set_bytes-IsWritten a.value t.index (to_le_bytes (size_bytes t.size) w) (omega arith) in
        subst
          (λ (r : Outcome (List ℕ)).
            Gives checks (IsRewritten t address a) (r >>= λ v. done (record a { value = v })))
          (sym run)
          (record {
            same_address = refl;
            same_length = is.same_length;
            place =
                subst (λ (v : ℕ). Holds ys t.index (to_le_bytes (size_bytes t.size) v)) e
                  is.written;
            outside = λ j o. is.outside j (elim o [ inl b ↦ inl b | inr b ↦ inr (omega arith) ]);
          })

push_reloc-Gives :
    (checks is_const : Bool) (t : BackpatchTarget) (a : AssembledInstruction) (table : List ℕ)
    → Gives checks (λ _. Unit {0}) (push_reloc checks is_const t a table)
unfolding push_reloc get_backpatch_location
push_reloc-Gives checks true t a table = tt
push_reloc-Gives checks false t a table =
    Gives-bind checks _ (λ _. Unit) (add_u32 checks a.address (t.index % 2 ^ 32)) _
      (add_u32-Gives checks a.address (t.index % 2 ^ 32)) λ location h. tt

-- The list `l` with one target's place written, and nothing else.
pub record IsPatched (t : BackpatchTarget) (address : ℕ) (l l' : List AssembledInstruction)
    : Type 0 where
  pub before : AssembledInstruction
  pub behind : AssembledInstruction
  pub at_before : at l t.instruction ≡ some before
  pub at_behind : at l' t.instruction ≡ some behind
  pub rewritten : IsRewritten t address before behind
  pub same_count : length l' ≡ length l
  pub elsewhere : (k : ℕ) → k ≢ t.instruction → at l' k ≡ at l k

pub patch_target-IsPatched :
    (checks : Bool) (address : ℕ) (is_const : Bool) (t : BackpatchTarget) (s : Patching)
    → InBounds s.instructions t
    → Gives checks
        (λ s'. IsPatched t address s.instructions s'.instructions)
        (patch_target checks address is_const t s)
unfolding patch_target
patch_target-IsPatched checks address is_const t s (a, e, h) =
    let Q : Patching → Type 0 = λ s'. IsPatched t address s.instructions s'.instructions in
    rw (get_at-done s.instructions t.instruction e) (
      Gives-bind checks (IsRewritten t address a) Q (write checks t t.size address a) _
        (write-IsRewritten checks t address a h)
        λ b w.
          let (l', run, is) =
            set_at-IsUpdated s.instructions t.instruction b
              (at-lt s.instructions t.instruction e) in
          rw run (
            Gives-bind checks _ Q (push_reloc checks is_const t b s.reloc_addresses) _
              (push_reloc-Gives checks is_const t b s.reloc_addresses)
              λ table _. record {
                before = a;
                behind = b;
                at_before = e;
                at_behind = is.there;
                rewritten = w;
                same_count = is.same_length;
                elsewhere = is.elsewhere;
              }))
