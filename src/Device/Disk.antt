-- ===== src/Device/Disk.antt =====
-- fox32/src/disk.rs: the four disks and the buffer in memory.
use fox.Prelude.{
  ℕ, zero, suc, ◌+◌, ◌*◌, Option, none, some, List, [], ◌∷◌, ltb, leb, if◌then◌else◌, update,
}
use fox.Outcome.{Outcome, done, panic, ◌>>=◌, index_out_of_range, slice_out_of_range, device}
use fox.Memory.{Memory, memory_ram_size, bytes_from, with_bytes}
use fox.Device.{Host}

pub record Disk (F : Type 0) : Type 0 where
  pub file : F
  pub size : ℕ
  pub current_sector : ℕ

-- The array of four disks is a function from its indices; `disk_at` and `set_disk` check the index.
pub record DiskController (F : Type 0) : Type 0 where
  pub disk : ℕ → Option (Disk F)
  pub buffer_pointer : ℕ

abbrev pub new_controller : {F : Type 0} → DiskController F
new_controller = record { disk = λ i. none; buffer_pointer = 0x00000000 }

-- `[0u8; n]` with the bytes that were read in front.
unfoldable pub padded : (n : ℕ) → List ℕ → List ℕ
padded zero bs = []
padded (suc n) [] = 0 ∷ padded n []
padded (suc n) (b ∷ bs) = b ∷ padded n bs

module _ {F R W : Type 0} (host : Host F R W) where
  -- `Disk::new(file)`
  unfoldable pub new_disk : F → Outcome (Disk F)
  new_disk file = do
    size ← host.file_len file
    done (record { file = file; size = size; current_sector = 0 })

  -- `self.disk[disk_id as usize]`
  unfoldable pub disk_at : DiskController F → (id : ℕ) → Outcome (Option (Disk F))
  disk_at c id = if ltb id 4 then done (c.disk id) else panic index_out_of_range

  unfoldable pub set_disk :
      (id : ℕ) → Option (Disk F) → DiskController F → Outcome (DiskController F)
  set_disk id d c =
      if ltb id 4 then done (record c { disk = update c.disk id d }) else panic index_out_of_range

  unfoldable pub insert : F → (id : ℕ) → DiskController F → Outcome (DiskController F)
  unfolding new_disk set_disk
  insert file id c = do disk ← new_disk file; set_disk id (some disk) c

  unfoldable pub remove : (id : ℕ) → DiskController F → Outcome (DiskController F)
  unfolding set_disk
  remove id c = set_disk id none c

  unfoldable pub disk_mut : (id : ℕ) → DiskController F → Outcome (Disk F)
  unfolding disk_at
  disk_mut id c = do d ← disk_at c id; elim d [ none ↦ panic device | some disk ↦ done disk ]

  unfoldable pub get_size : (id : ℕ) → DiskController F → Outcome ℕ
  unfolding disk_mut
  get_size id c = do disk ← disk_mut id c; done (disk.size)

  unfoldable pub get_current_sector : (id : ℕ) → DiskController F → Outcome ℕ
  unfolding disk_mut
  get_current_sector id c = do disk ← disk_mut id c; done (disk.current_sector)

  unfoldable pub set_current_sector :
      (id sector : ℕ) → DiskController F → Outcome (DiskController F)
  unfolding disk_mut set_disk
  set_current_sector id sector c = do
    disk ← disk_mut id c
    file ← host.seek disk.file (sector * 512)
    set_disk id (some (record disk { file = file; current_sector = sector })) c

  -- `ram[self.buffer_pointer..self.buffer_pointer+512]`
  unfoldable pub buffer_in_ram : DiskController F → Outcome (Unit {0})
  buffer_in_ram c =
      if leb (c.buffer_pointer + 512) memory_ram_size then done tt else panic slice_out_of_range

  unfoldable pub read_into_memory :
      (id : ℕ) → DiskController F → Memory → Outcome (DiskController F × Memory)
  unfolding disk_mut set_disk buffer_in_ram padded with_bytes
  read_into_memory id c m = do
    disk ← disk_mut id c
    (bytes, file) ← host.read disk.file 512
    _ ← buffer_in_ram c
    c' ← set_disk id (some (record disk { file = file })) c
    done (c', record m { ram = with_bytes (padded 512 bytes) m.ram c.buffer_pointer })

  unfoldable pub write_from_memory :
      (id : ℕ) → DiskController F → Memory → Outcome (DiskController F)
  unfolding disk_mut set_disk buffer_in_ram bytes_from
  write_from_memory id c m = do
    disk ← disk_mut id c
    _ ← buffer_in_ram c
    (n, file) ← host.write disk.file (bytes_from 512 m.ram c.buffer_pointer)
    set_disk id (some (record disk { file = file })) c
