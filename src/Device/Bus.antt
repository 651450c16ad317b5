-- ===== src/Device/Bus.antt =====
-- fox32/src/bus.rs: the devices, and the reads and writes of a port.
use fox.Prelude.{
  ℕ, ◌/◌, ◌^◌, bit_and, bit_or, Bool, true, false, not, ◌&&◌, ltb, leb, ◌==◌, none, some,
  if◌then◌else◌, update,
}
use fox.Outcome.{Outcome, done, panic, ◌>>=◌, device}
use fox.Word.{u8, u16, u32, shl, complement, has_bit}
use fox.Cpu.State.{Io}
use fox.Cpu.State as State
use fox.Device.{Host}
use fox.Device.Parts.{Overlay, Overlays, get_overlay, Mouse, Audio, pop_key}
use fox.Device.Disk.{
  DiskController, disk_at, insert, remove, set_current_sector, read_into_memory, write_from_memory,
}

-- The fields of the bus besides the memory, and the world outside.
pub record Devices (F R W : Type 0) : Type 0 where
  pub disk_controller : DiskController F
  pub audio : Audio
  pub keyboard : R
  pub mouse : Mouse
  pub overlays : Overlays
  pub world : W

abbrev pub in_range : (first last port : ℕ) → Bool
in_range first last port = leb first port && leb port last

abbrev pub bit_of : Bool → ℕ
bit_of true = 1
bit_of false = 0

-- `(high << 16) | low`, of numbers cast to words.
unfoldable pub halves : (high low : ℕ) → ℕ
halves high low = bit_or (shl 32 (u32 high) 16) (u32 low)

-- `word & 0x0000FFFF` and `(word & 0xFFFF0000) >> 16`
abbrev pub low_half : ℕ → ℕ
low_half word = bit_and word 0x0000FFFF

abbrev pub high_half : ℕ → ℕ
high_half word = bit_and word 0xFFFF0000 / 2 ^ 16

abbrev pub overlay_number : ℕ → ℕ
overlay_number port = bit_and port 0x000000FF

abbrev pub overlay_setting : ℕ → ℕ
overlay_setting port = bit_and port 0x0000FF00 / 2 ^ 8

abbrev pub mouse_setting : ℕ → ℕ
mouse_setting port = u8 (bit_and port 0x000000FF)

abbrev pub disk_operation : ℕ → ℕ
disk_operation port = bit_and port 0x0000F000 / 2 ^ 8

unfoldable pub read_overlay : (setting : ℕ) → Overlay → Outcome ℕ
unfolding halves
read_overlay setting o =
    if setting == 0x00
    then done (halves o.y o.x)
    else if setting == 0x01
    then done (halves o.height o.width)
    else if setting == 0x02
    then done o.framebuffer_pointer
    else if setting == 0x03
    then done (bit_of o.enabled)
    else panic device

unfoldable pub write_overlay : (setting word : ℕ) → Overlay → Outcome Overlay
write_overlay setting word o =
    if setting == 0x00
    then done (record o { x = low_half word; y = high_half word })
    else if setting == 0x01
    then done (record o { width = low_half word; height = high_half word })
    else if setting == 0x02
    then done (record o { framebuffer_pointer = word })
    else if setting == 0x03
    then done (record o { enabled = not (word == 0) })
    else panic device

-- The states of the buttons, bit by bit.
unfoldable pub buttons : Mouse → ℕ
buttons m =
    let clicked = if m.clicked then bit_or 0x00 0b001 else 0x00 in
    let released = if m.released then bit_or clicked 0b010 else clicked in
    if m.held then bit_or released 0b100 else bit_and released (complement 8 0b100)

unfoldable pub read_mouse : (setting : ℕ) → Mouse → Outcome ℕ
unfolding buttons halves
read_mouse setting m =
    if setting == 0x00
    then done (buttons m)
    else if setting == 0x01
    then done (halves m.y m.x)
    else panic device

unfoldable pub write_mouse : (setting word : ℕ) → Mouse → Outcome Mouse
write_mouse setting word m =
    if setting == 0x00
    then done
        (record m { clicked = has_bit word 0; released = has_bit word 1; held = has_bit word 2 })
    else if setting == 0x01
    then done (record m { x = u16 (low_half word); y = u16 (high_half word) })
    else panic device

module _ {F R W : Type 0} (host : Host F R W) where
  -- `if id > 3 { panic!("invalid disk ID") }`
  abbrev pub checked_id : {A : Type 0} → (id : ℕ) → Outcome A → Outcome A
  checked_id id r = if ltb 3 id then panic device else r

  unfoldable pub read_disk : (operation id : ℕ) → DiskController F → Outcome ℕ
  unfolding disk_at
  read_disk operation id c =
      if operation == 0x10
      then checked_id id
          (do d ← disk_at host c id; done (elim d [ none ↦ 0 | some disk ↦ u32 disk.size ]))
      else if operation == 0x20
      then done (u32 c.buffer_pointer)
      else panic device

  unfoldable pub read_io : (port : ℕ) → Devices F R W → Outcome (ℕ × Devices F R W)
  unfolding get_overlay read_overlay read_mouse pop_key read_disk
  read_io port d =
      if in_range 0x80000000 0x8000031F port
      then (do
        o ← get_overlay d.overlays (overlay_number port)
        v ← read_overlay (overlay_setting port) o
        done (v, d))
      else if in_range 0x80000400 0x80000401 port
      then (do v ← read_mouse (mouse_setting port) d.mouse; done (v, d))
      else if port == 0x80000500
      then (let (scancode, keyboard) = pop_key host d.keyboard in
          done (scancode, record d { keyboard = keyboard }))
      else if port == 0x80000600
      then done (bit_of d.audio.playing, d)
      else if in_range 0x80001000 0x80002003 port
      then (do v ← read_disk (disk_operation port) (u8 port) d.disk_controller; done (v, d))
      else done (0, d)

  abbrev Machine : Type 0
  Machine = State.Bus (Devices F R W)

  abbrev with_devices : Devices F R W → Machine → Machine
  with_devices d b = record b { devices = d }

  abbrev with_controller : DiskController F → Machine → Machine
  with_controller c b = with_devices (record (b.devices) { disk_controller = c }) b

  -- The file that was chosen, if one was, is inserted.
  unfoldable pub request_disk : (id : ℕ) → Machine → Outcome Machine
  unfolding insert
  request_disk id b = do
    (file, world) ← host.select_file b.devices.world
    c ← elim file [
      | none ↦ done b.devices.disk_controller
      | some f ↦ insert host f id b.devices.disk_controller
    ]
    done (with_devices (record (b.devices) { disk_controller = c; world = world }) b)

  unfoldable pub read_sector : (id sector : ℕ) → Machine → Outcome Machine
  unfolding set_current_sector read_into_memory
  read_sector id sector b = do
    c ← set_current_sector host id sector b.devices.disk_controller
    (c', m) ← read_into_memory host id c b.memory
    done (with_controller c' (record b { memory = m }))

  unfoldable pub write_sector : (id sector : ℕ) → Machine → Outcome Machine
  unfolding set_current_sector write_from_memory
  write_sector id sector b = do
    c ← set_current_sector host id sector b.devices.disk_controller
    c' ← write_from_memory host id c b.memory
    done (with_controller c' b)

  unfoldable pub write_disk : (operation id word : ℕ) → Machine → Outcome Machine
  unfolding request_disk read_sector write_sector remove
  write_disk operation id word b =
      if operation == 0x10
      then checked_id id (request_disk id b)
      else if operation == 0x20
      then done (with_controller (record (b.devices.disk_controller) { buffer_pointer = word }) b)
      else if operation == 0x30
      then checked_id id (read_sector id word b)
      else if operation == 0x40
      then checked_id id (write_sector id word b)
      else if operation == 0x50
      then checked_id id
          (do c ← remove host id b.devices.disk_controller; done (with_controller c b))
      else panic device

  unfoldable pub set_overlay : (number setting word : ℕ) → Machine → Outcome Machine
  unfolding get_overlay write_overlay
  set_overlay number setting word b = do
    o ← get_overlay b.devices.overlays number
    o' ← write_overlay setting word o
    let os = record (b.devices.overlays) { overlay = update b.devices.overlays.overlay number o' }
    done (with_devices (record (b.devices) { overlays = os }) b)

  unfoldable pub write_io : (port word : ℕ) → Machine → Outcome Machine
  unfolding set_overlay write_mouse write_disk
  write_io port word b =
      if port == 0x00000000
      then (do
        world ← host.print (u8 word) b.devices.world
        done (with_devices (record (b.devices) { world = world }) b))
      else if in_range 0x80000000 0x8000031F port
      then set_overlay (overlay_number port) (overlay_setting port) word b
      else if in_range 0x80000400 0x80000401 port
      then (do
        m ← write_mouse (mouse_setting port) word b.devices.mouse
        done (with_devices (record (b.devices) { mouse = m }) b))
      else if port == 0x80000600
      then done (
          with_devices
            (record (b.devices) {
              audio = record { playing = not (word == 0); current_buffer_is_0 = true };
            })
            b)
      else if in_range 0x80001000 0x80005003 port
      then write_disk (disk_operation port) (u8 port) word b
      else done b

  -- The calls that the processor makes.
  abbrev pub bus_io : Io (Devices F R W)
  bus_io = record { read_io = read_io; write_io = write_io }
