-- ===== src/Device/Settings.antt =====
-- fox32/src/bus.rs: the settings of an overlay, as a program writes them and reads them back.
use fox.Prelude.{
  ℕ, zero, suc, ◌+◌, ◌*◌, ◌/◌, ◌%◌, ◌^◌, ◌<◌, ◌≡◌, ◌≢◌, refl, ap, ◌∙◌, bit_or, true, false, ◌==◌,
  ltb, ltb_iff, ==_iff, if◌then◌else◌, update, arith,
}
use fox.Outcome.{done, ◌>>=◌}
use fox.Word.{IsU32, u32, shl}
use fox.Word.Bits.{bit_or_disjoint, bit_and_mask, bit_and_shifted}
use fox.Cpu.State as State
use fox.Device.{Host}
use fox.Device.Parts.{Overlay, Overlays, get_overlay}
use fox.Device.Bus.{
  Devices, halves, low_half, high_half, overlay_number, overlay_setting, read_overlay,
  write_overlay, read_io, set_overlay, write_io, in_range,
}
use fox.Device.Typed.{low_half_lem, high_half_lem}

-- The halves of a word make the word.
halves_lem : (w : ℕ) → IsU32 w → halves (high_half w) (low_half w) ≡ w
unfolding halves
halves_lem w h =
    let e : u32 (high_half w) ≡ w / 2 ^ 16 = omega (arith, high_half_lem w) in
    let f : u32 (low_half w) ≡ w % 2 ^ 16 = omega (arith, low_half_lem w) in
    let g : w / 2 ^ 16 * 2 ^ 16 % 2 ^ 32 ≡ w / 2 ^ 16 * 2 ^ 16 = omega arith in
    ap (λ (t : ℕ). bit_or (shl 32 t 16) (u32 (low_half w))) e
    ∙ ap (λ (t : ℕ). bit_or (shl 32 (w / 2 ^ 16) 16) t) f
    ∙ ap (λ (t : ℕ). bit_or t (w % 2 ^ 16)) g
    ∙ omega (arith, bit_or_disjoint 16 (w / 2 ^ 16) (w % 2 ^ 16) (omega arith))

-- The position, the size and the pointer of an overlay are read as they were written.
write_overlay-read_overlay :
    (z w : ℕ) (o : Overlay)
    → z < 3
    → IsU32 w
    → (o' : Overlay) × (write_overlay z w o ≡ done o') × (read_overlay z o' ≡ done w)
unfolding write_overlay read_overlay
write_overlay-read_overlay zero w o h k = (_, refl, ap done (halves_lem w k))
write_overlay-read_overlay (suc zero) w o h k = (_, refl, ap done (halves_lem w k))
write_overlay-read_overlay (suc (suc zero)) w o h k = (_, refl, refl)
write_overlay-read_overlay (suc (suc (suc z))) w o h k = absurd (omega arith)

-- The port of the setting `z` of the overlay `n`.
abbrev pub overlay_port : (z n : ℕ) → ℕ
overlay_port z n = 0x80000000 + z * 2 ^ 8 + n

port-number : (z n : ℕ) → n < 2 ^ 8 → overlay_number (overlay_port z n) ≡ n
port-number z n h = omega (arith, bit_and_mask 8 (overlay_port z n))

port-setting : (z n : ℕ) → z < 4 → n < 2 ^ 8 → overlay_setting (overlay_port z n) ≡ z
port-setting z n h k =
    omega
      (arith, bit_and_shifted 8 (overlay_port z n) 0xFF, bit_and_mask 8 (overlay_port z n / 2 ^ 8))

port-in_range :
    (z n : ℕ) → z < 3 → n < 2 ^ 8 → in_range 0x80000000 0x8000031F (overlay_port z n) ≡ true
port-in_range z n h k = ground arith

not_terminal : (z n : ℕ) → (overlay_port z n == 0x00000000) ≡ false
not_terminal z n = ground arith

module _ {F R W : Type 0} (host : Host F R W) where
  -- The bus passes a write to the overlay.
  write_io-overlay :
      (z n w : ℕ) (b : State.Bus (Devices F R W))
      → z < 3
      → n < 2 ^ 8
      → write_io host (overlay_port z n) w b ≡ set_overlay host n z w b
  unfolding write_io
  write_io-overlay z n w b h k =
      rw
        (
          not_terminal z n,
          port-in_range z n h k,
          port-number z n k,
          port-setting z n (omega arith) k,
        )
        refl

  read_io-overlay :
      (z n : ℕ) (d : Devices F R W)
      → z < 3
      → n < 2 ^ 8
      → read_io host (overlay_port z n) d
        ≡ (get_overlay d.overlays n >>= λ o. read_overlay z o >>= λ v. done (v, d))
  unfolding read_io
  read_io-overlay z n d h k =
      rw (port-in_range z n h k, port-number z n k, port-setting z n (omega arith) k) refl

  -- What a program writes to the position, the size or the pointer of an overlay, it reads there, and
  -- the other overlays are as they were.
  pub read_io-write_io :
      (z n w : ℕ) (b : State.Bus (Devices F R W))
      → z < 3
      → n < 2 ^ 8
      → n < b.devices.overlays.count
      → IsU32 w
      → (b' : State.Bus (Devices F R W)) × (write_io host (overlay_port z n) w b ≡ done b')
        × (read_io host (overlay_port z n) b'.devices ≡ done (w, b'.devices))
        × ((i : ℕ) → i ≢ n → b'.devices.overlays.overlay i ≡ b.devices.overlays.overlay i)
  unfolding set_overlay get_overlay
  read_io-write_io z n w b h k c hw =
      let (o', e, f) = write_overlay-read_overlay z w (b.devices.overlays.overlay n) h hw in
      let inside : ltb n b.devices.overlays.count ≡ true =
        (ltb_iff n b.devices.overlays.count).1 c in
      let here : (n == n) ≡ true = (==_iff n n).1 refl in
      let overlays : Overlays = record (b.devices.overlays) {
        overlay = update b.devices.overlays.overlay n o';
      } in
      let b' : State.Bus (Devices F R W) = record b {
        devices = record (b.devices) { overlays = overlays };
      } in
      (
        b',
        write_io-overlay z n w b h k ∙ rw (inside, e) refl,
        read_io-overlay z n b'.devices h k ∙ rw (inside, here, f) refl,
        λ i ne. other i n ne o' (b.devices.overlays.overlay i),
      )
    where
      other : (i n : ℕ) → i ≢ n → (o' o : Overlay) → (if n == i then o' else o) ≡ o
      other i n ne o' o = ground arith
