-- ===== src/Device.antt =====
-- fox32/src/bus.rs and the devices on the bus: the disks, the keyboard, the mouse, the audio and the
-- overlays of the display. What is not the emulator's own code is a parameter, a `Host`.
pub mod Disk
pub mod Parts
pub mod Bus
pub mod Typed
pub mod Calls
pub mod Served
pub mod Settings
pub mod Panics
pub mod Fifo
mod Tests
use fox.Prelude.{ℕ, Option, List}
use fox.Outcome.{Outcome}

-- Files, the dialog for a disk image, the ring buffer of the keyboard, and the terminal. `F` are the
-- open files, `R` the ring buffers of scancodes, and `W` is the rest of the world. A call whose error
-- the emulator unwraps panics.
pub record Host (F R W : Type 0) : Type 0 where
  pub file_len : F → Outcome ℕ
  pub seek : F → (position : ℕ) → Outcome F
  pub read : F → (count : ℕ) → Outcome (List ℕ × F)
  pub write : F → List ℕ → Outcome (ℕ × F)
  pub select_file : W → Outcome (Option F × W)
  -- The producer's `push` gives nothing back where the buffer is full, and the consumer's `pop` where
  -- it is empty.
  pub new_ring : (capacity : ℕ) → R
  pub push : R → (scancode : ℕ) → Option R
  pub pop : R → Option (ℕ × R)
  pub warn : W → W
  pub print : (character : ℕ) → W → Outcome W
