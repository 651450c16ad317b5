-- ===== src/Cpu/Steady/Devices.antt =====
-- fox32/src/cpu.rs: `in` and `out` keep the invariant, for devices that give words and store bytes.
use fox.Prelude.{ℕ, ◌+◌, ◌<◌, ◌^◌, Bool}
use fox.Outcome.{Outcome, done, panic, Ensures}
use fox.Word.{IsU32}
use fox.Memory.Access.{HasBytes}
use fox.Cpu.State.{Cpu, Bus, Io, M, ◌>>=◌, Condition}
use fox.Cpu.Decode.{
  Operand, register, register_ptr, immediate8, immediate16, immediate32, immediate_ptr,
}
use fox.Cpu.Move.{device_read, device_write, in_to, execute_in, out_to, execute_out}
use fox.Cpu.Keeps.{Keeps, Keeps-bind, Keeps-when}
use fox.Cpu.Steady.{Steady, AnyUnit, read_register-Kept, write_register-Kept, load-Kept, store-Kept}
use fox.Cpu.Steady.Operands.{operand_length}
use fox.Cpu.Steady.Arms.{IsNext, binary_length}
use fox.Cpu.Steady.Moves.{at_fetched-Kept, then-IsNext-Kept, through-Kept, sourced-Kept}

-- What the processor relies on, with an invariant of the devices: they give a word, and a word that
-- is written leaves bytes in memory.
pub record IoLaws {D : Type 0} (I : D → Type 0) (io : Io D) : Type 0 where
  pub read_io-Keeps :
      (port : ℕ) (d : D) → I d → Ensures (λ x. IsU32 x.0 × I x.1) (io.read_io port d)
  pub write_io-Keeps :
      (port w : ℕ) (b : Bus D)
      → IsU32 w
      → HasBytes b.memory
      → I b.devices
      → Ensures (λ b'. HasBytes b'.memory × I b'.devices) (io.write_io port w b)

module _ {D : Type 0} (I : D → Type 0) (io : Io D) (laws : IoLaws I io) (start : ℕ) where
  abbrev S : Cpu D → Type 0
  S = Steady I start

  device_read-Kept : (port : ℕ) → Keeps S IsU32 (device_read io port)
  unfolding device_read
  device_read-Kept port checks s h =
      after (io.read_io port s.bus.devices) (laws.read_io-Keeps port s.bus.devices h.devices_typed)
    where
      after :
          (r : Outcome (ℕ × D))
          → Ensures (λ x. IsU32 x.0 × I x.1) r
          → Ensures {A = ℕ × Cpu D}
              (λ x. IsU32 x.0 × S x.1)
              (elim r [
                | panic p ↦ panic p
                | done (v, d) ↦ done (v, record s { bus = record (s.bus) { devices = d } })
              ])
      after (done (v, d)) (q, i) = (
        q,
        record {
          at_start = h.at_start;
          start_word = h.start_word;
          sp_word = h.sp_word;
          register_words = h.register_words;
          memory_bytes = h.memory_bytes;
          devices_typed = i;
        },
      )
      after (panic e) q = tt

  device_write-Kept : (port w : ℕ) → IsU32 w → Keeps S AnyUnit (device_write io port w)
  unfolding device_write
  device_write-Kept port w hw checks s h =
      after (io.write_io port w s.bus)
        (laws.write_io-Keeps port w s.bus hw h.memory_bytes h.devices_typed)
    where
      after :
          (r : Outcome (Bus D))
          → Ensures (λ b. HasBytes b.memory × I b.devices) r
          → Ensures {A = Unit {0} × Cpu D}
              (λ x. Unit {0} × S x.1)
              (elim r [ panic p ↦ panic p | done b ↦ done (tt, record s { bus = b }) ])
      after (done b) (q, i) = (
        tt,
        record {
          at_start = h.at_start;
          start_word = h.start_word;
          sp_word = h.sp_word;
          register_words = h.register_words;
          memory_bytes = q;
          devices_typed = i;
        },
      )
      after (panic e) q = tt

  -- A device that is read first.
  received-Kept :
      (Q : ℕ → Type 0) (port : ℕ) (f : ℕ → M D ℕ)
      → ((v : ℕ) → IsU32 v → Keeps S Q (f v))
      → Keeps S Q (device_read io port >>= f)
  received-Kept Q port f h = Keeps-bind S IsU32 Q (device_read io port) f (device_read-Kept port) h

  in_to-Kept :
      (port : ℕ) (run : Bool) (destination : Operand) (offset : ℕ)
      → Keeps S
          (IsNext start (offset + operand_length destination))
          (in_to io port run destination offset)
  unfolding in_to
  in_to-Kept port run register offset =
      at_fetched-Kept I start (IsNext start (offset + 1)) offset 1 _ λ r.
        received-Kept (IsNext start (offset + 1)) port _ λ v hv.
          then-IsNext-Kept I start (offset + 1) _
            (Keeps-when S run _ (write_register-Kept I start r v hv))
  in_to-Kept port run register_ptr offset =
      at_fetched-Kept I start (IsNext start (offset + 1)) offset 1 _ λ r.
        through-Kept I start (IsNext start (offset + 1)) r _ λ p.
          received-Kept (IsNext start (offset + 1)) port _ λ v _.
            then-IsNext-Kept I start (offset + 1) _ (Keeps-when S run _ (store-Kept I start 4 p v))
  in_to-Kept port run (immediate_ptr _) offset =
      at_fetched-Kept I start (IsNext start (offset + 4)) offset 4 _ λ p.
        received-Kept (IsNext start (offset + 4)) port _ λ v _.
          then-IsNext-Kept I start (offset + 4) _ (Keeps-when S run _ (store-Kept I start 4 p v))
  in_to-Kept port run immediate8 offset = λ checks s k. tt
  in_to-Kept port run immediate16 offset = λ checks s k. tt
  in_to-Kept port run immediate32 offset = λ checks s k. tt

  pub execute_in-Kept :
      (c : Condition) (destination source : Operand)
      → Keeps S
          (IsNext start (binary_length destination source))
          (execute_in io c destination source)
  unfolding execute_in
  execute_in-Kept c destination source =
      sourced-Kept I start (IsNext start (binary_length destination source)) c source
        (λ v offset run. in_to io v run destination offset)
        λ v run hv. in_to-Kept v run destination (2 + operand_length source)

  out_to-Kept :
      (v : ℕ) (run : Bool) (destination : Operand) (offset : ℕ)
      → IsU32 v
      → Keeps S
          (IsNext start (offset + operand_length destination))
          (out_to io v run destination offset)
  unfolding out_to
  out_to-Kept v run register offset hv =
      at_fetched-Kept I start (IsNext start (offset + 1)) offset 1 _ λ r.
        then-IsNext-Kept I start (offset + 1) _ (
          Keeps-when S run _ (
            Keeps-bind S IsU32 AnyUnit _ _ (read_register-Kept I start r)
              λ p _. device_write-Kept p v hv))
  out_to-Kept v run register_ptr offset hv =
      at_fetched-Kept I start (IsNext start (offset + 1)) offset 1 _ λ r.
        through-Kept I start (IsNext start (offset + 1)) r _ λ p.
          then-IsNext-Kept I start (offset + 1) _ (
            Keeps-when S run _ (
              Keeps-bind S (λ a. a < 256 ^ 4) AnyUnit _ _ (load-Kept I start 4 p)
                λ q _. device_write-Kept q v hv))
  out_to-Kept v run (immediate_ptr _) offset hv =
      at_fetched-Kept I start (IsNext start (offset + 4)) offset 4 _ λ p.
        then-IsNext-Kept I start (offset + 4) _ (
          Keeps-when S run _ (
            Keeps-bind S (λ a. a < 256 ^ 4) AnyUnit _ _ (load-Kept I start 4 p)
              λ q _. device_write-Kept q v hv))
  out_to-Kept v run immediate8 offset hv = λ checks s k. tt
  out_to-Kept v run immediate16 offset hv = λ checks s k. tt
  out_to-Kept v run immediate32 offset hv = λ checks s k. tt

  pub execute_out-Kept :
      (c : Condition) (destination source : Operand)
      → Keeps S
          (IsNext start (binary_length destination source))
          (execute_out io c destination source)
  unfolding execute_out
  execute_out-Kept c destination source =
      sourced-Kept I start (IsNext start (binary_length destination source)) c source
        (λ v offset run. out_to io v run destination offset)
        λ v run hv. out_to-Kept v run destination (2 + operand_length source) hv
