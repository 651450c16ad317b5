-- ===== src/Device/Parts.antt =====
-- fox32/src/keyboard.rs, mouse.rs, audio.rs and the `Overlay` of main.rs: the small devices.
use fox.Prelude.{ℕ, Bool, true, false, Option, none, some, ltb, if◌then◌else◌}
use fox.Outcome.{Outcome, done, panic, index_out_of_range}
use fox.Device.{Host}

pub record Overlay : Type 0 where
  pub enabled : Bool
  pub width : ℕ
  pub height : ℕ
  pub x : ℕ
  pub y : ℕ
  pub framebuffer_pointer : ℕ

-- The vector of the overlays, by its length and its elements.
pub record Overlays : Type 0 where
  pub count : ℕ
  pub overlay : ℕ → Overlay

-- `vec![Overlay { .. }; 32]`
abbrev pub new_overlays : Overlays
new_overlays = record {
  count = 32;
  overlay = λ i. record {
    enabled = false;
    width = 16;
    height = 16;
    x = 0;
    y = 0;
    framebuffer_pointer = 0;
  };
}

unfoldable pub get_overlay : Overlays → (number : ℕ) → Outcome Overlay
get_overlay os n = if ltb n os.count then done (os.overlay n) else panic index_out_of_range

pub record Mouse : Type 0 where
  pub x : ℕ
  pub y : ℕ
  pub clicked : Bool
  pub released : Bool
  pub held : Bool

abbrev pub new_mouse : Mouse
new_mouse = record { x = 0; y = 0; clicked = false; released = false; held = false }

pub record Audio : Type 0 where
  pub current_buffer_is_0 : Bool
  pub playing : Bool

abbrev pub new_audio : Audio
new_audio = record { current_buffer_is_0 = true; playing = false }

-- `unwrap_or_default()`, with the buffer that is left.
abbrev pub unwrap_or_default : {R : Type 0} → Option (ℕ × R) → R → ℕ × R
unwrap_or_default none keyboard = (0, keyboard)
unwrap_or_default (some popped) keyboard = popped

-- The buffer with the scancode, or the old one and a warning.
abbrev pub stored_or : {R W : Type 0} → Option R → R → (warned world : W) → R × W
stored_or none keyboard warned world = (keyboard, warned)
stored_or (some keyboard') keyboard warned world = (keyboard', world)

module _ {F R W : Type 0} (host : Host F R W) where
  -- `Keyboard::new()`
  abbrev pub new_keyboard : R
  new_keyboard = host.new_ring 32

  -- `Keyboard::push`: a scancode that finds the buffer full is dropped, with a warning.
  unfoldable pub push_key : (scancode : ℕ) → R → W → R × W
  push_key scancode keyboard world =
      stored_or (host.push keyboard scancode) keyboard (host.warn world) world

  -- `Keyboard::pop`
  unfoldable pub pop_key : R → ℕ × R
  pop_key keyboard = unwrap_or_default (host.pop keyboard) keyboard
