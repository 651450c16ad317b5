-- ===== src/Cpu/Decode.antt =====
-- fox32/src/cpu.rs: the instructions and `Instruction::from_half`, which decodes the opcode half.
use fox.Prelude.{ℕ, ◌/◌, ◌^◌, bit_and, Option, none, some, List, [], ◌∷◌, ◌==◌, if◌then◌else◌}
use fox.Word.{u8}
use fox.Cpu.State.{
  Condition, always, zero, not_zero, carry, not_carry, greater_than, less_than_equal_to,
}

pub data Size : Type 0 where
  byte half word : Size

pub data Operand : Type 0 where
  register register_ptr immediate8 immediate16 immediate32 : Operand
  immediate_ptr : Size → Operand

pub data Instruction : Type 0 where
  nop : Instruction
  halt brk : Condition → Instruction
  add : Size → Condition → Operand → Operand → Instruction
  inc : Size → Condition → Operand → Instruction
  sub : Size → Condition → Operand → Operand → Instruction
  dec : Size → Condition → Operand → Instruction
  mul div rem : Size → Condition → Operand → Operand → Instruction
  and or xor : Size → Condition → Operand → Operand → Instruction
  not : Size → Condition → Operand → Instruction
  sla rol sra srl ror : Size → Condition → Operand → Operand → Instruction
  bse bcl bts : Size → Condition → Operand → Operand → Instruction
  cmp mov movz : Size → Condition → Operand → Operand → Instruction
  jmp call loop : Condition → Operand → Instruction
  rjmp rcall rloop : Condition → Operand → Instruction
  rta : Condition → Operand → Operand → Instruction
  push pop : Size → Condition → Operand → Instruction
  ret reti : Condition → Instruction
  «in» out : Condition → Operand → Operand → Instruction
  ise icl : Condition → Instruction

infixl 5 ◌>>=◌
abbrev ◌>>=◌ : {A B : Type 0} → Option A → (A → Option B) → Option B
none >>= f = none
some a >>= f = f a

-- The `match` on the two size bits; a missing value is the early `return None`.
unfoldable pub decode_size : ℕ → Option Size
decode_size bits =
    if bits == 0x00
    then some byte
    else if bits == 0x01
    then some half
    else if bits == 0x02
    then some word
    else none

unfoldable pub immediate : Size → Operand
immediate byte = immediate8
immediate half = immediate16
immediate word = immediate32

unfoldable pub decode_source : Size → ℕ → Option Operand
unfolding immediate
decode_source size bits =
    if bits == 0x00
    then some register
    else if bits == 0x01
    then some register_ptr
    else if bits == 0x02
    then some (immediate size)
    else if bits == 0x03
    then some (immediate_ptr size)
    else none

unfoldable pub decode_destination : Size → ℕ → Option Operand
decode_destination size bits =
    if bits == 0x00
    then some register
    else if bits == 0x01
    then some register_ptr
    else if bits == 0x03
    then some (immediate_ptr size)
    else none

unfoldable pub decode_condition : ℕ → Option Condition
decode_condition bits =
    if bits == 0x00
    then some always
    else if bits == 0x10
    then some zero
    else if bits == 0x20
    then some not_zero
    else if bits == 0x30
    then some carry
    else if bits == 0x40
    then some not_carry
    else if bits == 0x50
    then some greater_than
    else if bits == 0x60
    then some less_than_equal_to
    else none

-- The first arm whose number is the scrutinee's; `none` is the arm `_ => None`.
select {ℓ} : {A : Type ℓ} → ℕ → List (ℕ × A) → Option A
select n [] = none
select n ((k, a) ∷ arms) = if n == k then some a else select n arms

unfoldable pub decode_opcode : ℕ → Size → Condition → Operand → Operand → Option Instruction
unfolding select
decode_opcode opcode size condition destination source = select opcode (
    (0x00, nop)
    ∷ (0x10, halt condition)
    ∷ (0x20, brk condition)
    ∷ (0x01, add size condition destination source)
    ∷ (0x11, inc size condition source)
    ∷ (0x21, sub size condition destination source)
    ∷ (0x31, dec size condition source)
    ∷ (0x02, mul size condition destination source)
    ∷ (0x22, div size condition destination source)
    ∷ (0x32, rem size condition destination source)
    ∷ (0x03, and size condition destination source)
    ∷ (0x13, or size condition destination source)
    ∷ (0x23, xor size condition destination source)
    ∷ (0x33, not size condition source)
    ∷ (0x04, sla size condition destination source)
    ∷ (0x24, rol size condition destination source)
    ∷ (0x05, sra size condition destination source)
    ∷ (0x15, srl size condition destination source)
    ∷ (0x25, ror size condition destination source)
    ∷ (0x06, bse size condition destination source)
    ∷ (0x16, bcl size condition destination source)
    ∷ (0x26, bts size condition destination source)
    ∷ (0x07, cmp size condition destination source)
    ∷ (0x17, mov size condition destination source)
    ∷ (0x27, movz size condition destination source)
    ∷ (0x08, jmp condition source)
    ∷ (0x18, call condition source)
    ∷ (0x28, loop condition source)
    ∷ (0x09, rjmp condition source)
    ∷ (0x19, rcall condition source)
    ∷ (0x29, rloop condition source)
    ∷ (0x39, rta condition destination source)
    ∷ (0x0A, push size condition source)
    ∷ (0x1A, pop size condition source)
    ∷ (0x2A, ret condition)
    ∷ (0x3A, reti condition)
    ∷ (0x0B, «in» condition destination source)
    ∷ (0x1B, out condition destination source)
    ∷ (0x0C, ise condition)
    ∷ (0x1C, icl condition)
    ∷ [])

-- The fields of the half, each shifted and masked, in the order of the source.
unfoldable pub decode_fields : (size opcode source destination condition : ℕ) → Option Instruction
unfolding decode_size decode_source decode_destination decode_condition
decode_fields size_bits opcode source_bits destination_bits condition_bits = do
  size ← decode_size size_bits
  source ← decode_source size source_bits
  destination ← decode_destination size destination_bits
  condition ← decode_condition condition_bits
  decode_opcode opcode size condition destination source

unfoldable pub from_half : ℕ → Option Instruction
unfolding decode_fields decode_opcode
from_half h =
    decode_fields (bit_and (u8 (h / 2 ^ 14)) 0b00000011) (bit_and (u8 (h / 2 ^ 8)) 0b00111111)
      (bit_and (u8 (bit_and h 0x000F)) 0b00000011)
      (bit_and (u8 (bit_and h 0x000F / 2 ^ 2)) 0b00000011) (u8 (bit_and h 0x00F0))
