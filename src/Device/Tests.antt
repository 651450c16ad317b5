-- ===== src/Device/Tests.antt =====
-- fox32/src/bus.rs: runs of the devices with a small host.
use fox.Prelude.{
  ℕ, ◌%◌, ◌^◌, ◌≡◌, ◌≢◌, refl, Bool, true, false, ltb, ltb_iff, Option, none, some, List, [], ◌∷◌,
  ◌++◌, length, if◌then◌else◌, arith,
}
use fox.Outcome.{done, panic, device, Ensures}
use fox.Memory.{zeroed}
use fox.Cpu.State as State
use fox.Cpu.State.{Cpu, always}
use fox.Cpu.Decode.{Instruction, register, immediate32}
use fox.Cpu.Execute.{execute_instruction}
use fox.Cpu.Steady.{Steady}
use fox.Cpu.Steady.Goes.{Goes}
use fox.Cpu.Steady.Execute.{IsWellFormed, execute_instruction-Steady}
use fox.Device.{Host}
use fox.Device.Parts.{new_overlays, new_mouse, new_audio, new_keyboard}
use fox.Device.Disk.{new_controller}
use fox.Device.Bus.{Devices, read_io, write_io, bus_io}
use fox.Device.Typed.{HostTypes, IsTyped, IsWordPopped}
use fox.Device.Served.{bus_io-IoLaws}
use fox.Device.Panics.{PanicsIf, Refuses, read_io_total}
use fox.Device.Settings.{overlay_port, read_io-write_io}
use fox.Device.Fifo.{
  RingLaws, Pushed, Popped, key, poll, queue_answers, keyboard_answers, shown,
  keyboard_answers-queue_answers,
}

-- A buffer is its capacity and the list of its scancodes.
abbrev Ring : Type 0
Ring = ℕ × List ℕ

abbrev push_list : Ring → ℕ → Option Ring
push_list (n, r) v = if ltb (length r) n then some (n, r ++ v ∷ []) else none

abbrev pop_list : Ring → Option (ℕ × Ring)
pop_list (n, []) = none
pop_list (n, v ∷ r) = some (v, (n, r))

abbrev pop_word : Ring → Option (ℕ × Ring)
pop_word (n, []) = none
pop_word (n, v ∷ r) = some (v % 2 ^ 32, (n, r))

-- Every file holds the same three bytes, and no file is chosen.
abbrev host_of : (Ring → Option (ℕ × Ring)) → Host (Unit {0}) Ring (Unit {0})
host_of pop = record {
  file_len = λ f. done 3;
  seek = λ f position. done f;
  read = λ f count. done (1 ∷ 2 ∷ 3 ∷ [], f);
  write = λ f bytes. panic device;
  select_file = λ w. done (none, w);
  new_ring = λ n. (n, []);
  push = push_list;
  pop = pop;
  warn = λ w. w;
  print = λ c w. done w;
}

abbrev typed_host : Host (Unit {0}) Ring (Unit {0})
typed_host = host_of pop_word

typed_host-HostTypes : HostTypes typed_host
typed_host-HostTypes = record {
  read-IsBytes = λ f n. (omega arith, (omega arith, (omega arith, tt)));
  pop-IsU32 = popped;
}
  where
    popped : (r : Ring) → IsWordPopped (pop_word r)
    popped (n, []) = tt
    popped (n, v ∷ r) = omega arith

abbrev idle : Devices (Unit {0}) Ring (Unit {0})
idle = record {
  disk_controller = new_controller;
  audio = new_audio;
  keyboard = (32, 30 ∷ []);
  mouse = new_mouse;
  overlays = new_overlays;
  world = tt;
}

idle-IsTyped : IsTyped idle
idle-IsTyped = record {
  overlays = λ i. record {
    width_usize = omega arith;
    height_usize = omega arith;
    x_usize = omega arith;
    y_usize = omega arith;
    framebuffer_word = omega arith;
  };
  mouse = record { x_half = omega arith; y_half = omega arith };
}

abbrev machine : State.Bus (Devices (Unit {0}) Ring (Unit {0}))
machine = record { memory = zeroed; devices = idle }

-- A processor on this bus, amid a program, and a write to a port.
abbrev on_bus : Cpu (Devices (Unit {0}) Ring (Unit {0}))
on_bus = record (State.new machine) { instruction_pointer = 0x100; stack_pointer = 0x1000 }

on_bus-IsWellFormed : IsWellFormed IsTyped on_bus
on_bus-IsWellFormed = record {
  at_start = refl;
  start_word = omega arith;
  sp_word = omega arith;
  register_words = λ r. omega arith;
  memory_bytes = record { ram_bytes = λ i. omega arith; rom_bytes = λ i. omega arith };
  devices_typed = idle-IsTyped;
}

abbrev out_word : Instruction
out_word = Instruction.out always register immediate32

execute_instruction-Steady_example :
    Ensures
      (λ r. Goes out_word 0x100 r.0 × Steady IsTyped 0x100 r.1)
      (execute_instruction (bus_io typed_host) out_word true on_bus)
execute_instruction-Steady_example =
    execute_instruction-Steady IsTyped (bus_io typed_host)
      (bus_io-IoLaws typed_host typed_host-HostTypes) out_word true on_bus on_bus-IsWellFormed

read_io-write_io_example :
    (b' : State.Bus (Devices (Unit {0}) Ring (Unit {0}))) × (write_io typed_host
        (overlay_port 0 31)
        0x00100020
        machine
      ≡ done b')
    × (read_io typed_host (overlay_port 0 31) b'.devices ≡ done (0x00100020, b'.devices))
    × ((i : ℕ) → i ≢ 31 → b'.devices.overlays.overlay i ≡ machine.devices.overlays.overlay i)
read_io-write_io_example =
    read_io-write_io typed_host 0 31 0x00100020 machine (omega arith) (omega arith) (omega arith)
      (omega arith)

abbrev list_host : Host (Unit {0}) Ring (Unit {0})
list_host = host_of pop_list

abbrev places : Ring → ℕ
places (n, r) = n

abbrev stored : Ring → List ℕ
stored (n, r) = r

list_laws : RingLaws list_host
list_laws = record {
  contents = stored;
  capacity = places;
  new_ring-capacity = λ n. refl;
  new_ring-contents = λ n. refl;
  push-Pushed = λ (n, r) v. pushed n r v (ltb (length r) n) refl;
  pop-Popped = popped;
}
  where
    popped : (r : Ring) → Popped stored places r (pop_list r)
    popped (n, []) = refl
    popped (n, v ∷ r) = (refl, refl)

    pushed :
        (n : ℕ) (r : List ℕ) (v : ℕ) (b : Bool)
        → ltb (length r) n ≡ b
        → Pushed stored places (n, r) v (if b then some (n, r ++ v ∷ []) else none)
    pushed n r v true e = ((ltb_iff (length r) n).0 e, refl, refl)
    pushed n r v false e = ground (arith, e)

keyboard_answers-queue_answers_example :
    shown list_host list_laws
      (keyboard_answers list_host (key 7 ∷ poll ∷ poll ∷ []) (new_keyboard list_host) tt)
    ≡ queue_answers (key 7 ∷ poll ∷ poll ∷ []) []
unfolding list_laws
keyboard_answers-queue_answers_example =
    keyboard_answers-queue_answers list_host list_laws (key 7 ∷ poll ∷ poll ∷ [])
      (new_keyboard list_host) tt refl

-- The overlay with the number 255.
read_io_total_example :
    PanicsIf (Refuses typed_host 0x800002FF idle) (read_io typed_host 0x800002FF idle)
read_io_total_example = read_io_total typed_host 0x800002FF idle
