-- ===== src/Cpu/Steady/Arms.antt =====
-- fox32/src/cpu.rs: the arms that compute keep the invariant, and continue behind the instruction.
use fox.Prelude.{ℕ, ◌+◌, ◌%◌, ◌^◌, ◌<◌, ◌≡◌, Bool, true, false, ◌==◌}
use fox.Cpu.State.{Cpu, M, ◌>>=◌, ◌>>◌, when, set_zero, set_carry, check_condition, Condition}
use fox.Cpu.Decode.{
  Size, Operand, register, register_ptr, immediate8, immediate16, immediate32, immediate_ptr,
}
use fox.Cpu.Operand.{width, read_source}
use fox.Cpu.Arm.{
  Timing, Commit, write_zero_carry, write_zero, write_only, zero_carry, zero_only, apply_op,
  on_destination, binary, unary,
}
use fox.Word.{IsU32}
use fox.Cpu.Keeps.{Keeps, Keeps-bind, Keeps-when}
use fox.Cpu.Steady.{
  Steady, AnyUnit, AnyBool, fetch-Kept, ip_plus-Kept, read_register-Kept, set_zero-Kept,
  set_carry-Kept, check_condition-Kept,
}
use fox.Cpu.Steady.Operands.{
  operand_length, IsSource, read_source-Kept, read_register_as-Kept, write_register_as-Kept,
  load_as-Kept, store_as-Kept,
}

-- The result fits the size.
abbrev pub Fits : Size → ℕ × Bool → Type 0
Fits size (v, c) = v < 2 ^ width size

-- The next instruction pointer behind an instruction of `length` bytes.
abbrev pub IsNext : (start length next : ℕ) → Type 0
IsNext start length next = next ≡ (start + length) % 2 ^ 32

module _ {D : Type 0} (I : D → Type 0) (start : ℕ) where
  abbrev S : Cpu D → Type 0
  S = Steady I start

  -- An operation on a destination of the size.
  abbrev pub KeepsOp : Size → (ℕ → M D (ℕ × Bool)) → Type 0
  KeepsOp size op = (d : ℕ) → d < 2 ^ width size → Keeps S (Fits size) (op d)

  abbrev pub KeepsCommit : Size → Commit D → Type 0
  KeepsCommit size commit =
      (write : ℕ → M D (Unit {0})) (x : ℕ × Bool)
      → ((v : ℕ) → v < 2 ^ width size → Keeps S AnyUnit (write v))
      → Fits size x
      → Keeps S AnyUnit (commit write x)

  -- The flags that follow a result.
  flags-Kept : (v : ℕ) (c : Bool) → Keeps S AnyUnit (set_zero (v == 0) >> set_carry c)
  flags-Kept v c =
      Keeps-bind S AnyUnit AnyUnit (set_zero (v == 0)) (λ _. set_carry c)
        (set_zero-Kept I start (v == 0)) λ _ _. set_carry-Kept I start c

  pub write_zero_carry-Kept : (size : Size) → KeepsCommit size write_zero_carry
  write_zero_carry-Kept size write (v, c) hw hv =
      Keeps-bind S AnyUnit AnyUnit (write v) (λ _. set_zero (v == 0) >> set_carry c) (hw v hv)
        λ _ _. flags-Kept v c

  pub write_zero-Kept : (size : Size) → KeepsCommit size write_zero
  write_zero-Kept size write (v, c) hw hv =
      Keeps-bind S AnyUnit AnyUnit (write v) (λ _. set_zero (v == 0)) (hw v hv)
        λ _ _. set_zero-Kept I start (v == 0)

  pub write_only-Kept : (size : Size) → KeepsCommit size write_only
  write_only-Kept size write (v, c) hw hv = hw v hv

  pub zero_carry-Kept : (size : Size) → KeepsCommit size zero_carry
  zero_carry-Kept size write (v, c) hw hv = flags-Kept v c

  pub zero_only-Kept : (size : Size) → KeepsCommit size zero_only
  zero_only-Kept size write (v, c) hw hv = set_zero-Kept I start (v == 0)

  apply_op-Kept :
      (size : Size) (first run : Bool) (read : M D ℕ) (write : ℕ → M D (Unit {0}))
      (op : ℕ → M D (ℕ × Bool)) (commit : Commit D)
      → Keeps S (λ v. v < 2 ^ width size) read
      → ((v : ℕ) → v < 2 ^ width size → Keeps S AnyUnit (write v))
      → KeepsOp size op
      → KeepsCommit size commit
      → Keeps S AnyUnit (apply_op first run read write op commit)
  unfolding apply_op
  apply_op-Kept size true run read write op commit hr hw ho hc =
      Keeps-bind S (λ v. v < 2 ^ width size) AnyUnit read
        (λ d. op d >>= λ x. when run (commit write x)) hr
        λ d hd.
          Keeps-bind S (Fits size) AnyUnit (op d) (λ x. when run (commit write x)) (ho d hd)
            λ x hx. Keeps-when S run (commit write x) (hc write x hw hx)
  apply_op-Kept size false run read write op commit hr hw ho hc =
      Keeps-when S run (read >>= λ d. op d >>= λ x. commit write x) (
        Keeps-bind S (λ v. v < 2 ^ width size) AnyUnit read (λ d. op d >>= λ x. commit write x) hr
          λ d hd.
            Keeps-bind S (Fits size) AnyUnit (op d) (λ x. commit write x) (ho d hd)
              λ x hx. hc write x hw hx)

  module _ (t : Timing) (size : Size) (run : Bool) (op : ℕ → M D (ℕ × Bool)) (commit : Commit D)
      (ho : KeepsOp size op) (hc : KeepsCommit size commit) where
    pub on_destination-Kept :
        (destination : Operand) (offset : ℕ)
        → Keeps S
            (IsNext start (offset + operand_length destination))
            (on_destination t size run op commit destination offset)
    unfolding on_destination
    on_destination-Kept register offset =
        Keeps-bind S (λ r. r < 256 ^ 1) (IsNext start (offset + 1)) _ _
          (fetch-Kept I start 1 offset)
          λ r _.
            Keeps-bind S AnyUnit (IsNext start (offset + 1)) _ _
              (apply_op-Kept size _ run _ _ op commit (read_register_as-Kept I start size r)
                (write_register_as-Kept I start size r) ho hc)
              λ _ _. ip_plus-Kept I start (offset + 1)
    on_destination-Kept register_ptr offset =
        Keeps-bind S (λ r. r < 256 ^ 1) (IsNext start (offset + 1)) _ _
          (fetch-Kept I start 1 offset)
          λ r _.
            Keeps-bind S (λ v. v < 2 ^ 32) (IsNext start (offset + 1)) _ _
              (read_register-Kept I start r)
              λ p _.
                Keeps-bind S AnyUnit (IsNext start (offset + 1)) _ _
                  (apply_op-Kept size _ run _ _ op commit (load_as-Kept I start size p)
                    (λ v _. store_as-Kept I start size p v) ho hc)
                  λ _ _. ip_plus-Kept I start (offset + 1)
    on_destination-Kept (immediate_ptr _) offset =
        Keeps-bind S (λ r. r < 256 ^ 4) (IsNext start (offset + 4)) _ _
          (fetch-Kept I start 4 offset)
          λ p _.
            Keeps-bind S AnyUnit (IsNext start (offset + 4)) _ _
              (apply_op-Kept size _ run _ _ op commit (load_as-Kept I start size p)
                (λ v _. store_as-Kept I start size p v) ho hc)
              λ _ _. ip_plus-Kept I start (offset + 4)
    on_destination-Kept immediate8 offset = λ checks s h. tt
    on_destination-Kept immediate16 offset = λ checks s h. tt
    on_destination-Kept immediate32 offset = λ checks s h. tt

-- The bytes of an instruction with a destination and a source, and with one operand.
abbrev pub binary_length : (destination source : Operand) → ℕ
binary_length destination source = 2 + operand_length source + operand_length destination

module _ {D : Type 0} (I : D → Type 0) (start : ℕ) where
  module _ (t : Timing) (op : Size → (destination source : ℕ) → M D (ℕ × Bool)) (commit : Commit D)
      (ho : (size : Size) (v : ℕ) → IsU32 v → KeepsOp I start size (λ d. op size d v))
      (hc : (size : Size) → KeepsCommit I start size commit) (size : Size)
      (condition : Condition) where
    pub binary-Kept :
        (destination source : Operand)
        → Keeps
            (Steady I start)
            (IsNext start (binary_length destination source))
            (binary t op commit size condition destination source)
    unfolding binary
    binary-Kept destination source =
        Keeps-bind (Steady I start) (IsSource source)
          (IsNext start (binary_length destination source)) (read_source source) _
          (read_source-Kept I start source)
          λ (v, offset) (hv, e).
            Keeps-bind (Steady I start) AnyBool (IsNext start (binary_length destination source))
              (check_condition condition) _ (check_condition-Kept I start condition)
              λ run _. behind v offset run hv e
      where
        behind :
            (v offset : ℕ) (run : Bool)
            → IsU32 v
            → offset ≡ 2 + operand_length source
            → Keeps
                (Steady I start)
                (IsNext start (binary_length destination source))
                (on_destination t size run (λ d. op size d v) commit destination offset)
        behind v offset run hv e = rw e (
            on_destination-Kept I start t size run (λ d. op size d v) commit (ho size v hv)
              (hc size) destination (2 + operand_length source))

  module _ (t : Timing) (op : Size → ℕ → M D (ℕ × Bool)) (commit : Commit D)
      (ho : (size : Size) → KeepsOp I start size (op size))
      (hc : (size : Size) → KeepsCommit I start size commit) (size : Size)
      (condition : Condition) where
    pub unary-Kept :
        (source : Operand)
        → Keeps
            (Steady I start)
            (IsNext start (2 + operand_length source))
            (unary t op commit size condition source)
    unfolding unary
    unary-Kept source =
        Keeps-bind (Steady I start) AnyBool (IsNext start (2 + operand_length source))
          (check_condition condition) _ (check_condition-Kept I start condition)
          λ run _.
            on_destination-Kept I start t size run (op size) commit (ho size) (hc size) source 2
