-- ===== src/Memory/Tests.antt =====
-- fox32/src/memory.rs: runs of the model on concrete memories.
use fox.Prelude.{◌≡◌, ◌⊎◌, inr, refl, arith}
use fox.Outcome.{Outcome, done, panic, unmapped_memory}
use fox.Memory.{Memory, Slice, find, find_unwrapped, arrayslice, checked_tail, read, write, zeroed}
use fox.Memory.Find.{Mapped, IsUnmapped, find_unwrapped_total}
use fox.Memory.Access.{read-write, read-write_apart}

abbrev stored : Outcome Memory → Memory
stored (done m) = m
stored (panic e) = zeroed

-- A word across a boundary of the ROM, and the one behind it.
abbrev rom_written : Memory
rom_written = stored (write 4 zeroed 0xF0000010 0x12345678)

rom_run : write 4 zeroed 0xF0000010 0x12345678 ≡ done rom_written
unfolding write find_unwrapped find arrayslice checked_tail
rom_run = refl

read-write_example : read 4 rom_written 0xF0000010 ≡ done 0x12345678
read-write_example = read-write 4 zeroed 0xF0000010 0x12345678 rom_run (omega arith)

read-write_apart_example : read 2 rom_written 0xF0000014 ≡ read 2 zeroed 0xF0000014
read-write_apart_example =
    read-write_apart 2 4 zeroed 0xF0000010 0xF0000014 0x12345678 rom_run (inr (omega arith))

-- The last word of the RAM is found, the one behind it is not.
find_unwrapped_total_example :
    ((s : Slice) × Mapped 4 0x04000000 s × (find_unwrapped 4 0x04000000 ≡ done s))
    ⊎ (IsUnmapped 4 0x04000000 × (find_unwrapped 4 0x04000000 ≡ panic (unmapped_memory 0x04000000)))
find_unwrapped_total_example = find_unwrapped_total 4 0x04000000 (omega arith)
