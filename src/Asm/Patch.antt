-- ===== src/Asm/Patch.antt =====
-- fox32asm/src/main.rs: the methods of `BackpatchTarget`, and the loop that writes the labels'
-- addresses into the assembled instructions. An index that is out of range panics.
pub mod Bytes
pub mod Targets
pub mod Kept
pub mod Table
pub mod Relative
pub mod Relocations
use Prim.Native.String.{String}
use text.Mathlib.Text.{◌==◌ as same_text}
use fox.Prelude.{
  ℕ, zero, suc, ◌+◌, ◌-◌, ◌%◌, ◌^◌, Bool, true, false, ◌&&◌, not, ltb, List, [], ◌∷◌, ◌++◌,
  if◌then◌else◌,
}
use fox.Outcome.{
  Outcome, done, panic, ◌>>=◌, arithmetic_overflow, label_not_found, index_out_of_range,
}
use fox.Word.{add_u32}
use fox.Word.Bytes.{to_le_bytes}
use fox.Asm.Ast.{Size}
use fox.Asm.Encode.{BackpatchTarget, LabelTargets, size_bytes}

pub record AssembledInstruction : Type 0 where
  pub value : List ℕ
  pub address : ℕ

-- `items[index]`, read and written.
unfoldable pub get_at : {A : Type 0} → List A → (index : ℕ) → Outcome A
get_at [] i = panic index_out_of_range
get_at (x ∷ xs) zero = done x
get_at (x ∷ xs) (suc i) = get_at xs i

unfoldable pub set_at : {A : Type 0} → List A → (index : ℕ) → A → Outcome (List A)
set_at [] i y = panic index_out_of_range
set_at (x ∷ xs) zero y = done (y ∷ xs)
set_at (x ∷ xs) (suc i) y = do ys ← set_at xs i y; done (x ∷ ys)

-- The bytes from an index on, one after the other.
unfoldable pub set_bytes : (index : ℕ) → (bytes : List ℕ) → List ℕ → Outcome (List ℕ)
unfolding set_at
set_bytes i [] xs = done xs
set_bytes i (b ∷ bs) xs = do ys ← set_at xs i b; set_bytes (suc i) bs ys

abbrev is_negative : ℕ → Bool
is_negative a = not (ltb a (2 ^ 31))

-- The sign of the difference is wrong.
abbrev sub_overflows : ℕ → ℕ → Bool
sub_overflows a b =
    if is_negative a
    then not (is_negative b) && not (is_negative ((a + 2 ^ 32 - b) % 2 ^ 32))
    else is_negative b && is_negative ((a + 2 ^ 32 - b) % 2 ^ 32)

-- `a as i32 - b as i32`, as a word.
unfoldable pub sub_i32 : (checks : Bool) → ℕ → ℕ → Outcome ℕ
sub_i32 checks a b =
    if checks && sub_overflows a b
    then panic arithmetic_overflow
    else done ((a + 2 ^ 32 - b) % 2 ^ 32)

-- The word whose bytes are `address_bytes`; `own` is `self.instruction.get_address()`.
unfoldable pub address_word : (checks is_relative : Bool) → (address own : ℕ) → Outcome ℕ
unfolding sub_i32
address_word checks is_relative address own =
    if is_relative then sub_i32 checks address own else done address

-- `self.write(size, address)`, on the instruction that the target shares.
unfoldable pub write :
    (checks : Bool)
    → BackpatchTarget
    → Size
    → (address : ℕ) → AssembledInstruction
    → Outcome AssembledInstruction
unfolding address_word set_bytes
write checks t size address a = do
  w ← address_word checks t.is_relative address a.address
  value ← set_bytes t.index (to_le_bytes (size_bytes size) w) a.value
  done (record a { value = value })

unfoldable pub get_backpatch_location :
    (checks : Bool) → BackpatchTarget → AssembledInstruction → Outcome ℕ
get_backpatch_location checks t a = add_u32 checks a.address (t.index % 2 ^ 32)

-- The output, and `RELOC_ADDRESSES`.
pub record Patching : Type 0 where
  pub instructions : List AssembledInstruction
  pub reloc_addresses : List ℕ

-- A label that is no constant moves with the program.
unfoldable pub push_reloc :
    (checks is_const : Bool) → BackpatchTarget → AssembledInstruction → List ℕ → Outcome (List ℕ)
unfolding get_backpatch_location
push_reloc checks true t a table = done table
push_reloc checks false t a table = do
  location ← get_backpatch_location checks t a
  done (table ++ location ∷ [])

-- The body of the loop of `perform_backpatching`.
unfoldable pub patch_target :
    (checks : Bool)
    → (address : ℕ) → (is_const : Bool) → BackpatchTarget
    → Patching
    → Outcome Patching
unfolding get_at set_at write push_reloc
patch_target checks address is_const t s = do
  a ← get_at s.instructions t.instruction
  a' ← write checks t t.size address a
  instructions ← set_at s.instructions t.instruction a'
  reloc_addresses ← push_reloc checks is_const t a' s.reloc_addresses
  done (record { instructions = instructions; reloc_addresses = reloc_addresses })

unfoldable pub perform_backpatching :
    (checks : Bool)
    → List BackpatchTarget
    → (address : ℕ) → (is_const : Bool) → Patching
    → Outcome Patching
unfolding patch_target
perform_backpatching checks [] address is_const s = done s
perform_backpatching checks (t ∷ ts) address is_const s = do
  s' ← patch_target checks address is_const t s
  perform_backpatching checks ts address is_const s'

-- `LABEL_ADDRESSES`: the address of a label, and whether it is a constant.
abbrev pub LabelAddresses : Type 0
LabelAddresses = List (String × (ℕ × Bool))

unfoldable pub label_address : String → LabelAddresses → Outcome (ℕ × Bool)
label_address name [] = panic label_not_found
label_address name ((other, a) ∷ table) =
    let rest = label_address name table in if same_text name other then done a else rest

-- The loop of `main` over the table of targets.
unfoldable pub backpatch_labels :
    (checks : Bool) → LabelAddresses → LabelTargets → Patching → Outcome Patching
unfolding label_address perform_backpatching
backpatch_labels checks addresses [] s = done s
backpatch_labels checks addresses ((name, targets) ∷ table) s = do
  (address, is_const) ← label_address name addresses
  s' ← perform_backpatching checks targets address is_const s
  backpatch_labels checks addresses table s'
