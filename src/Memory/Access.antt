-- ===== src/Memory/Access.antt =====
-- Reads after writes, at every width.
use fox.Prelude.{
  ℕ, zero, suc, ◌+◌, ◌^◌, ◌≤◌, ◌<◌, ◌≡◌, ◌⊎◌, refl, ap, List, [], ◌∷◌, length, arith, update,
}
use fox.Outcome.{done, Ensures, Ensures-bind, Ensures-trivial, >>=-eq-done, bind_congr}
use fox.Word.Bytes.{
  to_le_bytes, from_le_bytes, IsBytes, length-to_le_bytes, to_le_bytes-IsBytes,
  from_le_bytes-to_le_bytes, from_le_bytes-lt,
}
use fox.Memory.{
  Memory, Slice, Region, ram, rom, array, find_unwrapped, bytes_from, with_bytes, slice_bytes,
  with_slice, read, write,
}
use fox.Memory.Find.{Mapped, in_ram, in_rom, find_unwrapped-Mapped, Mapped-of_find_unwrapped}

-- One byte of an array after a store.
with_bytes_before : (bs : List ℕ) (a : ℕ → ℕ) (i j : ℕ) → j < i → with_bytes bs a i j ≡ a j
unfolding with_bytes
with_bytes_before [] a i j h = refl
with_bytes_before (b ∷ bs) a i j h = ground (arith, with_bytes_before bs (update a i b) (i + 1) j)

with_bytes_after :
    (bs : List ℕ) (a : ℕ → ℕ) (i j : ℕ) → i + length bs ≤ j → with_bytes bs a i j ≡ a j
unfolding with_bytes
with_bytes_after [] a i j h = refl
with_bytes_after (b ∷ bs) a i j h = ground (arith, with_bytes_after bs (update a i b) (i + 1) j)

bytes_from-with_bytes :
    (bs : List ℕ) (a : ℕ → ℕ) (i : ℕ) → bytes_from (length bs) (with_bytes bs a i) i ≡ bs
unfolding bytes_from with_bytes
bytes_from-with_bytes [] a i = refl
bytes_from-with_bytes (b ∷ bs) a i = ground (
  arith,
  with_bytes_before bs (update a i b) (i + 1) i,
  bytes_from-with_bytes bs (update a i b) (i + 1),
)

-- A store outside the bytes that are read.
bytes_from_apart :
    (n : ℕ) (bs : List ℕ) (a : ℕ → ℕ) (i j : ℕ)
    → (j + n ≤ i) ⊎ (i + length bs ≤ j)
    → bytes_from n (with_bytes bs a i) j ≡ bytes_from n a j
unfolding bytes_from
bytes_from_apart zero bs a i j h = refl
bytes_from_apart (suc n) bs a i j h = ground (
  arith,
  with_bytes_before bs a i j,
  with_bytes_after bs a i j,
  bytes_from_apart n bs a i (j + 1),
)

-- The memory behind a write: the slice at the address holds the bytes of the value.
pub written :
    (n : ℕ) (m : Memory) (address value : ℕ) {m' : Memory}
    → write n m address value ≡ done m'
    → (s : Slice) × Mapped n address s × (m' ≡ with_slice (to_le_bytes n value) s m)
unfolding write
written n m address value e =
    let (s, found, same) = >>=-eq-done (find_unwrapped n address) _ e in
    (s, Mapped-of_find_unwrapped n address found, cc)

slice_bytes-with_slice :
    (bs : List ℕ) (m : Memory) (s : Slice) → slice_bytes (length bs) (with_slice bs s m) s ≡ bs
slice_bytes-with_slice bs m s = on s.region
  where
    on :
        (r : Region)
        → slice_bytes
            (length bs)
            (with_slice bs (record { region = r; offset = s.offset }) m)
            (record { region = r; offset = s.offset })
          ≡ bs
    on ram = unfold slice_bytes with_slice in bytes_from-with_bytes bs m.ram s.offset
    on rom = unfold slice_bytes with_slice in bytes_from-with_bytes bs m.rom s.offset

stored_bytes :
    (n : ℕ) (m : Memory) (s : Slice) (value : ℕ)
    → slice_bytes n (with_slice (to_le_bytes n value) s m) s ≡ to_le_bytes n value
stored_bytes n m s value =
    rw (length-to_le_bytes n value) at (slice_bytes-with_slice (to_le_bytes n value) m s)

read-with_slice :
    (n : ℕ) (m : Memory) (address value : ℕ) {s : Slice}
    → Mapped n address s
    → value < 256 ^ n
    → read n (with_slice (to_le_bytes n value) s m) address ≡ done value
unfolding read
read-with_slice n m address value {s} mapped fits =
    rw (find_unwrapped-Mapped n address mapped, stored_bytes n m s value)
      (ap done (from_le_bytes-to_le_bytes n value fits))

-- What is written is read back, at every width.
pub read-write :
    (n : ℕ) (m : Memory) (address value : ℕ) {m' : Memory}
    → write n m address value ≡ done m'
    → value < 256 ^ n
    → read n m' address ≡ done value
read-write n m address value {m'} e fits =
    let (s, mapped, same) = written n m address value e in
    rw same (read-with_slice n m address value mapped fits)

slice_bytes_apart :
    (k n : ℕ) (bs : List ℕ) (m : Memory) (a b : ℕ) {s t : Slice}
    → Mapped n a s
    → Mapped k b t
    → length bs ≡ n
    → (b + k ≤ a) ⊎ (a + n ≤ b)
    → slice_bytes k (with_slice bs s m) t ≡ slice_bytes k m t
unfolding slice_bytes with_slice
slice_bytes_apart k n bs m a b (in_ram h) (in_ram l) e apart =
    bytes_from_apart k bs m.ram a b (omega arith)
slice_bytes_apart k n bs m a b (in_ram h) (in_rom j f l) e apart = refl
slice_bytes_apart k n bs m a b (in_rom i f h) (in_ram l) e apart = refl
slice_bytes_apart k n bs m a b (in_rom i f h) (in_rom j g l) e apart =
    bytes_from_apart k bs m.rom i j (omega arith)

read_apart :
    (k n : ℕ) (m : Memory) (a b value : ℕ) {s : Slice}
    → Mapped n a s
    → (b + k ≤ a) ⊎ (a + n ≤ b)
    → read k (with_slice (to_le_bytes n value) s m) b ≡ read k m b
unfolding read
read_apart k n m a b value {s} mapped apart = bind_congr (find_unwrapped k b) λ t found.
    ap (λ bs. done (from_le_bytes bs))
      (slice_bytes_apart k n (to_le_bytes n value) m a b mapped (Mapped-of_find_unwrapped k b found)
        (length-to_le_bytes n value) apart)

-- A write changes no byte outside its own: every read apart from it is unchanged, also one that
-- panics.
pub read-write_apart :
    (k n : ℕ) (m : Memory) (a b value : ℕ) {m' : Memory}
    → write n m a value ≡ done m'
    → (b + k ≤ a) ⊎ (a + n ≤ b)
    → read k m' b ≡ read k m b
read-write_apart k n m a b value {m'} e apart =
    let (s, mapped, same) = written n m a value e in
    rw same (read_apart k n m a b value mapped apart)

-- Every byte of both arrays is below 256.
pub record HasBytes (m : Memory) : Type 0 where
  pub ram_bytes : (i : ℕ) → m.ram i < 256
  pub rom_bytes : (i : ℕ) → m.rom i < 256

pub with_bytes-lt :
    (bs : List ℕ) (a : ℕ → ℕ) (i : ℕ)
    → IsBytes bs
    → ((j : ℕ) → a j < 256)
    → (j : ℕ) → with_bytes bs a i j < 256
unfolding with_bytes
with_bytes-lt [] a i hb h j = h j
with_bytes-lt (b ∷ bs) a i hb h j =
    with_bytes-lt bs (update a i b) (i + 1) hb.1 (λ l. ground (arith, h l)) j

with_slice-HasBytes :
    (bs : List ℕ) (s : Slice) (m : Memory) → IsBytes bs → HasBytes m → HasBytes (with_slice bs s m)
with_slice-HasBytes bs s m hb h = on s.region
  where
    on : (r : Region) → HasBytes (with_slice bs (record { region = r; offset = s.offset }) m)
    on ram =
        unfold with_slice in
        record {
          ram_bytes = with_bytes-lt bs m.ram s.offset hb h.ram_bytes;
          rom_bytes = h.rom_bytes;
        }
    on rom =
        unfold with_slice in
        record {
          ram_bytes = h.ram_bytes;
          rom_bytes = with_bytes-lt bs m.rom s.offset hb h.rom_bytes;
        }

pub write-HasBytes :
    (n : ℕ) (m : Memory) (address value : ℕ)
    → HasBytes m
    → Ensures HasBytes (write n m address value)
unfolding write
write-HasBytes n m address value h =
    Ensures-bind (λ _. Unit {0}) HasBytes (find_unwrapped n address) _ (Ensures-trivial _)
      λ s _. with_slice-HasBytes (to_le_bytes n value) s m (to_le_bytes-IsBytes n value) h

bytes_from-IsBytes :
    (n : ℕ) (a : ℕ → ℕ) (i : ℕ) → ((j : ℕ) → a j < 256) → IsBytes (bytes_from n a i)
unfolding bytes_from
bytes_from-IsBytes zero a i h = tt
bytes_from-IsBytes (suc n) a i h = (h i, bytes_from-IsBytes n a (i + 1) h)

length-bytes_from : (n : ℕ) (a : ℕ → ℕ) (i : ℕ) → length (bytes_from n a i) ≡ n
unfolding bytes_from
length-bytes_from zero a i = refl
length-bytes_from (suc n) a i = ap suc (length-bytes_from n a (i + 1))

from_bytes-lt :
    (n : ℕ) (a : ℕ → ℕ) (i : ℕ) → ((j : ℕ) → a j < 256) → from_le_bytes (bytes_from n a i) < 256 ^ n
from_bytes-lt n a i h =
    rw (length-bytes_from n a i) at
      (from_le_bytes-lt (bytes_from n a i) (bytes_from-IsBytes n a i h))

array-lt : (m : Memory) (r : Region) → HasBytes m → (j : ℕ) → array m r j < 256
array-lt m ram h = h.ram_bytes
array-lt m rom h = h.rom_bytes

-- A read gives a number of its width.
pub read-lt :
    (n : ℕ) (m : Memory) (address : ℕ) → HasBytes m → Ensures (λ v. v < 256 ^ n) (read n m address)
unfolding read
read-lt n m address h =
    Ensures-bind (λ _. Unit {0}) (λ v. v < 256 ^ n) (find_unwrapped n address) _ (Ensures-trivial _)
      λ s _. from_bytes-lt n (array m s.region) s.offset (array-lt m s.region h)
