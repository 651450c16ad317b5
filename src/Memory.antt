-- ===== src/Memory.antt =====
-- fox32/src/memory.rs: the 64 MiB of RAM and the 512 KiB of ROM, how an address finds its bytes, and
-- the reads and writes of 8, 16 and 32 bits. An array of bytes is a function from its indices; that
-- an index is within the array is what `find` and `arrayslice` check.
pub mod Find
pub mod Access
mod Tests
use fox.Prelude.{
  ℕ, zero, suc, ◌+◌, ◌-◌, ◌*◌, ◌^◌, ◌≤◌, ◌<◌, ◌≡◌, Bool, ◌&&◌, Option, none, some, List, [], ◌∷◌,
  ltb, leb, if◌then◌else◌, update,
}
use fox.Outcome.{Outcome, done, panic, ◌>>=◌, unmapped_memory, slice_out_of_range, tail_overflow}
use fox.Word.Bytes.{to_le_bytes, from_le_bytes}

abbrev pub memory_ram_size : ℕ
memory_ram_size = 0x04000000

abbrev pub memory_rom_size : ℕ
memory_rom_size = 0x00080000

abbrev pub memory_ram_start : ℕ
memory_ram_start = 0x00000000

abbrev pub memory_rom_start : ℕ
memory_rom_start = 0xF0000000

pub record Memory : Type 0 where
  pub ram : ℕ → ℕ
  pub rom : ℕ → ℕ

pub data Region : Type 0 where
  ram rom : Region

-- A slice of one of the two arrays, by the index of its first byte.
pub record Slice : Type 0 where
  pub region : Region
  pub offset : ℕ

abbrev pub array_len : Region → ℕ
array_len ram = memory_ram_size
array_len rom = memory_rom_size

-- The `assert!` comes before the pointer is made.
unfoldable pub arrayslice : (slice_len : ℕ) → Region → (offset : ℕ) → Outcome Slice
arrayslice slice_len region offset =
    if leb (slice_len + offset) (array_len region)
    then done (record { region = region; offset = offset })
    else panic slice_out_of_range

-- `head.checked_add(S).expect(..)` on a 64-bit `usize`.
unfoldable pub checked_tail : ℕ → ℕ → Outcome ℕ
checked_tail head size =
    if ltb (head + size) (2 ^ 64) then done (head + size) else panic tail_overflow

abbrev pub in_region : (start size head tail : ℕ) → Bool
in_region start size head tail = leb start head && leb (tail - start) size

unfoldable pub find : (size address : ℕ) → Outcome (Option Slice)
unfolding checked_tail arrayslice
find size address = do
  let head = address
  tail ← checked_tail head size
  if in_region memory_ram_start memory_ram_size head tail
      then (do s ← arrayslice size ram (head - memory_ram_start); done (some s))
      else if in_region memory_rom_start memory_rom_size head tail
      then (do s ← arrayslice size rom (head - memory_rom_start); done (some s))
      else done none

unfoldable pub find_unwrapped : (size address : ℕ) → Outcome Slice
unfolding find
find_unwrapped size address = do
  found ← find size address
  elim found [ none ↦ panic (unmapped_memory address) | some s ↦ done s ]

abbrev pub array : Memory → Region → ℕ → ℕ
array m ram = m.ram
array m rom = m.rom

-- `count` bytes of an array from an index on, and the array with bytes stored there.
unfoldable pub bytes_from : (count : ℕ) → (ℕ → ℕ) → ℕ → List ℕ
bytes_from zero a i = []
bytes_from (suc n) a i = a i ∷ bytes_from n a (i + 1)

unfoldable pub with_bytes : List ℕ → (ℕ → ℕ) → ℕ → ℕ → ℕ
with_bytes [] a i = a
with_bytes (b ∷ bs) a i = with_bytes bs (update a i b) (i + 1)

unfoldable pub slice_bytes : ℕ → Memory → Slice → List ℕ
unfolding bytes_from
slice_bytes count m s = bytes_from count (array m s.region) s.offset

-- `*slice = bytes`
store_in : Region → List ℕ → ℕ → Memory → Memory
store_in ram bs i m = record m { ram = with_bytes bs m.ram i }
store_in rom bs i m = record m { rom = with_bytes bs m.rom i }

unfoldable pub with_slice : List ℕ → Slice → Memory → Memory
unfolding with_bytes store_in
with_slice bs s m = store_in s.region bs s.offset m

-- `read_8`, `read_16` and `read_32` at 1, 2 and 4 bytes, and the writes.
unfoldable pub read : (count : ℕ) → Memory → (address : ℕ) → Outcome ℕ
unfolding find_unwrapped slice_bytes from_le_bytes
read count m address = do
  s ← find_unwrapped count address
  done (from_le_bytes (slice_bytes count m s))

unfoldable pub write : (count : ℕ) → Memory → (address value : ℕ) → Outcome Memory
unfolding find_unwrapped with_slice to_le_bytes
write count m address value = do
  s ← find_unwrapped count address
  done (with_slice (to_le_bytes count value) s m)

abbrev pub read_8 : Memory → ℕ → Outcome ℕ
read_8 = read 1

abbrev pub read_16 : Memory → ℕ → Outcome ℕ
read_16 = read 2

abbrev pub read_32 : Memory → ℕ → Outcome ℕ
read_32 = read 4

abbrev pub write_8 : Memory → ℕ → ℕ → Outcome Memory
write_8 = write 1

abbrev pub write_16 : Memory → ℕ → ℕ → Outcome Memory
write_16 = write 2

abbrev pub write_32 : Memory → ℕ → ℕ → Outcome Memory
write_32 = write 4

-- `MemoryBuffer::new`: both arrays are allocated zeroed.
abbrev pub zeroed : Memory
zeroed = record { ram = λ _. 0; rom = λ _. 0 }
