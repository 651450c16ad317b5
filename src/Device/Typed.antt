-- ===== src/Device/Typed.antt =====
-- fox32/src/bus.rs: the devices stay within their Rust types, and give words.
use fox.Prelude.{ℕ, ◌/◌, ◌%◌, ◌^◌, ◌<◌, ◌≡◌, Bool, true, false, ◌==◌, Option, none, some, arith}
use fox.Outcome.{Ensures, Ensures-if}
use fox.Word.{IsU32, u32, shl}
use fox.Word.Bits.{bit_or-lt, bit_and_mask, bit_and_shifted}
use fox.Word.Bytes.{IsBytes}
use fox.Device.{Host}
use fox.Device.Parts.{Overlay, Mouse}
use fox.Device.Bus.{
  Devices, halves, low_half, high_half, read_overlay, write_overlay, buttons, read_mouse,
  write_mouse, bit_of,
}

pub low_half_lem : (w : ℕ) → low_half w ≡ w % 2 ^ 16
low_half_lem w = bit_and_mask 16 w

pub high_half_lem : (w : ℕ) → high_half w ≡ w / 2 ^ 16 % 2 ^ 16
high_half_lem w = omega (arith, bit_and_shifted 16 w 0xFFFF, bit_and_mask 16 (w / 2 ^ 16))

halves-IsU32 : (h l : ℕ) → IsU32 (halves h l)
unfolding halves
halves-IsU32 h l = bit_or-lt 32 (shl 32 (u32 h) 16) (u32 l) (omega arith) (omega arith)

pub bit_of-IsU32 : (b : Bool) → IsU32 (bit_of b)
bit_of-IsU32 true = omega arith
bit_of-IsU32 false = omega arith

-- Every field is a number of its Rust type.
pub record IsTypedOverlay (o : Overlay) : Type 0 where
  pub width_usize : o.width < 2 ^ 64
  pub height_usize : o.height < 2 ^ 64
  pub x_usize : o.x < 2 ^ 64
  pub y_usize : o.y < 2 ^ 64
  pub framebuffer_word : IsU32 o.framebuffer_pointer

pub record IsTypedMouse (m : Mouse) : Type 0 where
  pub x_half : m.x < 2 ^ 16
  pub y_half : m.y < 2 ^ 16

pub record IsTyped {F R W : Type 0} (d : Devices F R W) : Type 0 where
  pub overlays : (i : ℕ) → IsTypedOverlay (d.overlays.overlay i)
  pub mouse : IsTypedMouse d.mouse

-- What the types of the libraries say: a file gives bytes, and a buffer of scancodes gives words.
abbrev pub IsWordPopped : {R : Type 0} → Option (ℕ × R) → Type 0
IsWordPopped none = Unit
IsWordPopped (some (v, r)) = IsU32 v

pub record HostTypes {F R W : Type 0} (host : Host F R W) : Type 0 where
  pub read-IsBytes : (f : F) (n : ℕ) → Ensures (λ x. IsBytes x.0) (host.read f n)
  pub pop-IsU32 : (r : R) → IsWordPopped (host.pop r)

pub read_overlay-IsU32 : (z : ℕ) (o : Overlay) → IsTypedOverlay o → Ensures IsU32 (read_overlay z o)
unfolding read_overlay
read_overlay-IsU32 z o h =
    Ensures-if IsU32 (z == 0x00) _ _ (λ _. halves-IsU32 o.y o.x)
      λ _.
        Ensures-if IsU32 (z == 0x01) _ _ (λ _. halves-IsU32 o.height o.width)
          λ _.
            Ensures-if IsU32 (z == 0x02) _ _ (λ _. h.framebuffer_word)
              λ _. Ensures-if IsU32 (z == 0x03) _ _ (λ _. bit_of-IsU32 o.enabled) λ _. tt

pub write_overlay-IsTyped :
    (z w : ℕ) (o : Overlay)
    → IsU32 w
    → IsTypedOverlay o
    → Ensures IsTypedOverlay (write_overlay z w o)
unfolding write_overlay
write_overlay-IsTyped z w o hw h =
    let l : low_half w < 2 ^ 64 = omega (arith, low_half_lem w) in
    let u : high_half w < 2 ^ 64 = omega (arith, high_half_lem w) in
    Ensures-if IsTypedOverlay (z == 0x00) _ _
      (λ _. record {
        width_usize = h.width_usize;
        height_usize = h.height_usize;
        x_usize = l;
        y_usize = u;
        framebuffer_word = h.framebuffer_word;
      })
      λ _.
        Ensures-if IsTypedOverlay (z == 0x01) _ _
          (λ _. record {
            width_usize = l;
            height_usize = u;
            x_usize = h.x_usize;
            y_usize = h.y_usize;
            framebuffer_word = h.framebuffer_word;
          })
          λ _.
            Ensures-if IsTypedOverlay (z == 0x02) _ _
              (λ _. record {
                width_usize = h.width_usize;
                height_usize = h.height_usize;
                x_usize = h.x_usize;
                y_usize = h.y_usize;
                framebuffer_word = hw;
              })
              λ _.
                Ensures-if IsTypedOverlay (z == 0x03) _ _
                  (λ _. record {
                    width_usize = h.width_usize;
                    height_usize = h.height_usize;
                    x_usize = h.x_usize;
                    y_usize = h.y_usize;
                    framebuffer_word = h.framebuffer_word;
                  })
                  λ _. tt

buttons-IsU32 :
    (c r h : Bool) (x y : ℕ)
    → IsU32 (buttons (record { x = x; y = y; clicked = c; released = r; held = h }))
unfolding buttons
buttons-IsU32 true true true x y = omega arith
buttons-IsU32 true true false x y = omega arith
buttons-IsU32 true false true x y = omega arith
buttons-IsU32 true false false x y = omega arith
buttons-IsU32 false true true x y = omega arith
buttons-IsU32 false true false x y = omega arith
buttons-IsU32 false false true x y = omega arith
buttons-IsU32 false false false x y = omega arith

pub read_mouse-IsU32 : (z : ℕ) (m : Mouse) → Ensures IsU32 (read_mouse z m)
unfolding read_mouse
read_mouse-IsU32 z m =
    Ensures-if IsU32 (z == 0x00) _ _ (λ _. buttons-IsU32 m.clicked m.released m.held m.x m.y)
      λ _. Ensures-if IsU32 (z == 0x01) _ _ (λ _. halves-IsU32 m.y m.x) λ _. tt

pub write_mouse-IsTyped :
    (z w : ℕ) (m : Mouse) → IsTypedMouse m → Ensures IsTypedMouse (write_mouse z w m)
unfolding write_mouse
write_mouse-IsTyped z w m h =
    Ensures-if IsTypedMouse (z == 0x00) _ _ (λ _. record { x_half = h.x_half; y_half = h.y_half })
      λ _.
        Ensures-if IsTypedMouse (z == 0x01) _ _
          (λ _. record { x_half = omega arith; y_half = omega arith }) λ _. tt
