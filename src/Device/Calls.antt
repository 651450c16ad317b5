-- ===== src/Device/Calls.antt =====
-- fox32/src/bus.rs: both calls keep the devices and the memory within their types.
use fox.Prelude.{
  ℕ, zero, suc, Bool, true, false, ◌==◌, ltb, Option, none, some, List, [], ◌∷◌, if◌then◌else◌,
  update, arith,
}
use fox.Outcome.{Outcome, done, Ensures, Ensures-bind, Ensures-if, after}
use fox.Word.{IsU32, u8, u32}
use fox.Word.Bytes.{IsBytes}
use fox.Memory.{Memory}
use fox.Memory.Access.{HasBytes, with_bytes-lt}
use fox.Cpu.State as State
use fox.Device.{Host}
use fox.Device.Parts.{Overlay, get_overlay, pop_key, unwrap_or_default}
use fox.Device.Disk.{
  Disk, DiskController, disk_at, disk_mut, set_current_sector, set_disk, buffer_in_ram, padded,
  read_into_memory, write_from_memory, remove, insert,
}
use fox.Device.Bus.{
  Devices, overlay_number, overlay_setting, read_overlay, write_overlay, read_mouse, write_mouse,
  read_disk, read_io, request_disk, read_sector, write_sector, write_disk, set_overlay, write_io,
  in_range, mouse_setting, disk_operation,
}
use fox.Device.Typed.{
  IsTyped, IsTypedOverlay, IsTypedMouse, HostTypes, IsWordPopped, read_overlay-IsU32,
  read_mouse-IsU32, write_overlay-IsTyped, write_mouse-IsTyped, bit_of-IsU32,
}

padded-IsBytes : (n : ℕ) (bs : List ℕ) → IsBytes bs → IsBytes (padded n bs)
unfolding padded
padded-IsBytes zero bs h = tt
padded-IsBytes (suc n) [] h = (omega arith, padded-IsBytes n [] tt)
padded-IsBytes (suc n) (b ∷ bs) (h, hs) = (h, padded-IsBytes n bs hs)

updated-IsTyped :
    (f : ℕ → Overlay) (n : ℕ) (o : Overlay)
    → ((i : ℕ) → IsTypedOverlay (f i))
    → IsTypedOverlay o
    → (i : ℕ) → IsTypedOverlay (update f n o i)
updated-IsTyped f n o h k i = chosen (n == i)
  where
    chosen : (b : Bool) → IsTypedOverlay (if b then o else f i)
    chosen true = k
    chosen false = h i

module _ {F R W : Type 0} (host : Host F R W) (types : HostTypes host) where
  abbrev pub Given : ℕ × Devices F R W → Type 0
  Given (v, d) = IsU32 v × IsTyped d

  -- The machine, with the devices and the memory within their types.
  abbrev pub IsTypedMachine : State.Bus (Devices F R W) → Type 0
  IsTypedMachine b = HasBytes b.memory × IsTyped b.devices

  read_disk-IsU32 : (op id : ℕ) (c : DiskController F) → Ensures IsU32 (read_disk host op id c)
  unfolding read_disk
  read_disk-IsU32 op id c =
      Ensures-if IsU32 (op == 0x10) _ _
        (λ _.
          Ensures-if IsU32 (ltb 3 id) _ _ (λ _. tt)
            (λ _. after IsU32 (disk_at host c id) _ λ d. sized d))
        λ _. Ensures-if IsU32 (op == 0x20) _ _ (λ _. omega arith) λ _. tt
    where
      sized : (d : Option (Disk F)) → IsU32 (elim d [ none ↦ 0 | some disk ↦ u32 disk.size ])
      sized none = omega arith
      sized (some disk) = omega arith

  popped-IsU32 : (r : Option (ℕ × R)) (k : R) → IsWordPopped r → IsU32 (unwrap_or_default r k).0
  popped-IsU32 none k h = omega arith
  popped-IsU32 (some (v, k')) k h = h

  get_overlay-IsTyped :
      (d : Devices F R W) (n : ℕ) → IsTyped d → Ensures IsTypedOverlay (get_overlay d.overlays n)
  unfolding get_overlay
  get_overlay-IsTyped d n h =
      Ensures-if IsTypedOverlay (ltb n d.overlays.count) _ _ (λ _. h.overlays n) (λ _. tt)

  pub read_io-IsTyped :
      (port : ℕ) (d : Devices F R W) → IsTyped d → Ensures Given (read_io host port d)
  unfolding read_io pop_key
  read_io-IsTyped port d h =
      Ensures-if Given (in_range 0x80000000 0x8000031F port) _ _
        (λ _.
          Ensures-bind IsTypedOverlay Given (get_overlay d.overlays (overlay_number port)) _
            (get_overlay-IsTyped d (overlay_number port) h)
            λ o k.
              Ensures-bind IsU32 Given (read_overlay (overlay_setting port) o) _
                (read_overlay-IsU32 (overlay_setting port) o k) λ v l. (l, h))
        λ _.
          Ensures-if Given (in_range 0x80000400 0x80000401 port) _ _
            (λ _.
              Ensures-bind IsU32 Given (read_mouse (mouse_setting port) d.mouse) _
                (read_mouse-IsU32 (mouse_setting port) d.mouse) λ v k. (k, h))
            λ _.
              Ensures-if Given (port == 0x80000500) _ _
                (λ _. (
                  popped-IsU32 (host.pop d.keyboard) d.keyboard (types.pop-IsU32 d.keyboard),
                  record { overlays = h.overlays; mouse = h.mouse },
                ))
                λ _.
                  Ensures-if Given (port == 0x80000600) _ _ (λ _. (bit_of-IsU32 d.audio.playing, h))
                    λ _.
                      Ensures-if Given (in_range 0x80001000 0x80002003 port) _ _
                        (λ _.
                          Ensures-bind IsU32 Given
                            (read_disk host (disk_operation port) (u8 port) d.disk_controller) _
                            (read_disk-IsU32 (disk_operation port) (u8 port) d.disk_controller)
                            λ v k. (k, h))
                        λ _. (omega arith, h)

  read_into_memory-HasBytes :
      (id : ℕ) (c : DiskController F) (m : Memory)
      → HasBytes m
      → Ensures (λ x. HasBytes x.1) (read_into_memory host id c m)
  unfolding read_into_memory
  read_into_memory-HasBytes id c m h =
      let Q : DiskController F × Memory → Type 0 = λ x. HasBytes x.1 in
      after Q (disk_mut host id c) _ λ disk.
        Ensures-bind (λ x. IsBytes x.0) Q (host.read disk.file 512) _
          (types.read-IsBytes disk.file 512)
          λ (bytes, file) k. after Q (buffer_in_ram host c) _ λ _.
            after Q (set_disk host id (some (record disk { file = file })) c) _ λ c'. record {
              ram_bytes =
                  with_bytes-lt (padded 512 bytes) m.ram c.buffer_pointer
                    (padded-IsBytes 512 bytes k) h.ram_bytes;
              rom_bytes = h.rom_bytes;
            }

  -- Another part of the devices leaves the overlays and the mouse alone.
  abbrev Q : State.Bus (Devices F R W) → Type 0
  Q = IsTypedMachine

  write_disk-IsTyped :
      (op id w : ℕ) (b : State.Bus (Devices F R W))
      → IsTypedMachine b
      → Ensures IsTypedMachine (write_disk host op id w b)
  unfolding write_disk request_disk read_sector write_sector
  write_disk-IsTyped op id w b (hm, h) =
      let c : DiskController F = b.devices.disk_controller in
      Ensures-if Q (op == 0x10) _ _
        (λ _.
          Ensures-if Q (ltb 3 id) _ _ (λ _. tt)
            λ _. after Q (host.select_file b.devices.world) _ λ (file, world).
              after Q (inserted file) _
                λ c'. (hm, record { overlays = h.overlays; mouse = h.mouse }))
        λ _.
          Ensures-if Q (op == 0x20) _ _
            (λ _. (hm, record { overlays = h.overlays; mouse = h.mouse }))
            λ _.
              Ensures-if Q (op == 0x30) _ _
                (λ _.
                  Ensures-if Q (ltb 3 id) _ _ (λ _. tt)
                    λ _. after Q (set_current_sector host id w c) _ λ c₁.
                      Ensures-bind (λ x. HasBytes x.1) Q (read_into_memory host id c₁ b.memory) _
                        (read_into_memory-HasBytes id c₁ b.memory hm)
                        λ (c₂, m) k. (k, record { overlays = h.overlays; mouse = h.mouse }))
                λ _.
                  Ensures-if Q (op == 0x40) _ _
                    (λ _.
                      Ensures-if Q (ltb 3 id) _ _ (λ _. tt)
                        λ _. after Q (set_current_sector host id w c) _ λ c₁.
                          after Q (write_from_memory host id c₁ b.memory) _
                            λ c₂. (hm, record { overlays = h.overlays; mouse = h.mouse }))
                    λ _.
                      Ensures-if Q (op == 0x50) _ _
                        (λ _.
                          Ensures-if Q (ltb 3 id) _ _ (λ _. tt)
                            λ _.
                              after Q (remove host id c) _
                                λ c'. (hm, record { overlays = h.overlays; mouse = h.mouse }))
                        λ _. tt
    where
      inserted : Option F → Outcome (DiskController F)
      inserted file = elim file [
        | none ↦ done b.devices.disk_controller
        | some f ↦ insert host f id b.devices.disk_controller
      ]

  set_overlay-IsTyped :
      (n z w : ℕ) (b : State.Bus (Devices F R W))
      → IsU32 w
      → IsTypedMachine b
      → Ensures IsTypedMachine (set_overlay host n z w b)
  unfolding set_overlay
  set_overlay-IsTyped n z w b hw (hm, h) =
      Ensures-bind IsTypedOverlay Q (get_overlay b.devices.overlays n) _
        (get_overlay-IsTyped b.devices n h)
        λ o k.
          Ensures-bind IsTypedOverlay Q (write_overlay z w o) _ (write_overlay-IsTyped z w o hw k)
            λ o' k'. (
              hm,
              record {
                overlays = updated-IsTyped b.devices.overlays.overlay n o' h.overlays k';
                mouse = h.mouse;
              },
            )

  pub write_io-IsTyped :
      (port w : ℕ) (b : State.Bus (Devices F R W))
      → IsU32 w
      → IsTypedMachine b
      → Ensures IsTypedMachine (write_io host port w b)
  unfolding write_io
  write_io-IsTyped port w b hw (hm, h) =
      Ensures-if Q (port == 0x00000000) _ _
        (λ _.
          after Q (host.print (u8 w) b.devices.world) _
            λ world. (hm, record { overlays = h.overlays; mouse = h.mouse }))
        λ _.
          Ensures-if Q (in_range 0x80000000 0x8000031F port) _ _
            (λ _. set_overlay-IsTyped (overlay_number port) (overlay_setting port) w b hw (hm, h))
            λ _.
              Ensures-if Q (in_range 0x80000400 0x80000401 port) _ _
                (λ _.
                  Ensures-bind IsTypedMouse Q (write_mouse (mouse_setting port) w b.devices.mouse) _
                    (write_mouse-IsTyped (mouse_setting port) w b.devices.mouse h.mouse)
                    λ m k. (hm, record { overlays = h.overlays; mouse = k }))
                λ _.
                  Ensures-if Q (port == 0x80000600) _ _
                    (λ _. (hm, record { overlays = h.overlays; mouse = h.mouse }))
                    λ _.
                      Ensures-if Q (in_range 0x80001000 0x80005003 port) _ _
                        (λ _. write_disk-IsTyped (disk_operation port) (u8 port) w b (hm, h))
                        λ _. (hm, h)
