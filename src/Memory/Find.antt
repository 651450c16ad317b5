-- ===== src/Memory/Find.antt =====
-- Which addresses `find` maps, and where.
use fox.Prelude.{
  ℕ, ◌+◌, ◌-◌, ◌^◌, ◌≤◌, ◌<◌, ◌≡◌, ◌⊎◌, inl, inr, arith, Bool-cases, ◌≢◌, sym, ◌∙◌, leb, ◌&&◌,
}
use mathlib.Core.Path.{subst}
use fox.Outcome.{done, panic, unmapped_memory}
use fox.Memory.{Slice, ram, rom, find_unwrapped, memory_ram_size, memory_rom_start, memory_rom_size}

-- Where `size` bytes at an address lie, by the memory map alone.
pub data Mapped (size address : ℕ) : Slice → Type 0 where
  in_ram :
      address + size ≤ memory_ram_size
      → Mapped size address (record { region = ram; offset = address })
  in_rom :
      (offset : ℕ)
      → address ≡ memory_rom_start + offset
      → offset + size ≤ memory_rom_size
      → Mapped size address (record { region = rom; offset = offset })

abbrev pub IsUnmapped : (size address : ℕ) → Type 0
IsUnmapped size address =
    (memory_ram_size < address + size)
    × ((address < memory_rom_start) ⊎ (memory_rom_start + memory_rom_size < address + size))

-- A mapped slice is what `find_unwrapped` returns.
pub find_unwrapped-Mapped :
    (size address : ℕ) {s : Slice} → Mapped size address s → find_unwrapped size address ≡ done s
unfolding find_unwrapped
find_unwrapped-Mapped size address (in_ram h) = ground arith
find_unwrapped-Mapped size address (in_rom offset e h) = ground arith

pub find_unwrapped-IsUnmapped :
    (size address : ℕ)
    → address + size < 2 ^ 64
    → IsUnmapped size address
    → find_unwrapped size address ≡ panic (unmapped_memory address)
unfolding find_unwrapped
find_unwrapped-IsUnmapped size address fits h = ground arith

-- Every address is mapped in one place or unmapped.
pub Mapped-cases :
    (size address : ℕ) → ((s : Slice) × Mapped size address s) ⊎ IsUnmapped size address
Mapped-cases size address = elim (Bool-cases (leb (address + size) memory_ram_size)) [
  | inl low ↦ inl (record { region = ram; offset = address }, in_ram (ground arith))
  | inr high ↦
      elim (Bool-cases (
        leb memory_rom_start address
        && leb (address + size) (memory_rom_start + memory_rom_size))) [
          | inl inside ↦ inl (
            record { region = rom; offset = address - memory_rom_start },
            in_rom (address - memory_rom_start) (ground arith) (ground arith),
          )
          | inr outside ↦ inr (ground arith, ground arith)
        ]
]

-- For an address and a size of the instruction set, `find_unwrapped` returns the mapped slice or
-- panics because the address is unmapped; the other panics of the code are never reached.
pub find_unwrapped_total :
    (size address : ℕ)
    → address + size < 2 ^ 64
    → ((s : Slice) × Mapped size address s × (find_unwrapped size address ≡ done s))
      ⊎ (IsUnmapped size address × (find_unwrapped size address ≡ panic (unmapped_memory address)))
find_unwrapped_total size address fits = elim (Mapped-cases size address) [
  | inl (s, m) ↦ inl (s, m, find_unwrapped-Mapped size address m)
  | inr u ↦ inr (u, find_unwrapped-IsUnmapped size address fits u)
]

not_found :
    (size address : ℕ) (s : Slice) → IsUnmapped size address → find_unwrapped size address ≢ done s
unfolding find_unwrapped
not_found size address s h = ground arith

done-injective : {s t : Slice} → done s ≡ done t → s ≡ t
done-injective e = cc

-- What `find_unwrapped` returns is mapped.
pub Mapped-of_find_unwrapped :
    (size address : ℕ) {s : Slice} → find_unwrapped size address ≡ done s → Mapped size address s
Mapped-of_find_unwrapped size address {s} e = elim (Mapped-cases size address) [
  | inl (t, m) ↦
      subst (Mapped size address) (done-injective (sym (find_unwrapped-Mapped size address m) ∙ e))
        m
  | inr u ↦ absurd (not_found size address s u e)
]
