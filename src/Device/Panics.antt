-- ===== src/Device/Panics.antt =====
-- fox32/src/bus.rs: the ports that a program cannot read without ending the emulator's thread.
use fox.Prelude.{
  ℕ, ◌*◌, ◌/◌, ◌%◌, ◌^◌, ◌<◌, ◌≤◌, ◌≡◌, refl, ◌⊎◌, inl, inr, true, false, ◌==◌, ltb, leb, ltb_iff,
  leb_iff, ==_iff, Bool-cases, arith,
}
use fox.Outcome.{Outcome, done, panic, Panic}
use fox.Word.{u8}
use fox.Word.Bits.{bit_and_mask, bit_and_shifted}
use fox.Device.{Host}
use fox.Device.Parts.{Overlay, get_overlay, Mouse}
use fox.Device.Disk.{DiskController, disk_at}
use fox.Device.Bus.{
  Devices, overlay_number, overlay_setting, mouse_setting, disk_operation, read_overlay, read_mouse,
  read_disk, read_io, in_range,
}

overlay_setting_lem : (port : ℕ) → overlay_setting port ≡ port / 2 ^ 8 % 2 ^ 8
overlay_setting_lem port = omega (arith, bit_and_shifted 8 port 0xFF, bit_and_mask 8 (port / 2 ^ 8))

disk_operation_lem : (port : ℕ) → disk_operation port ≡ port / 2 ^ 12 % 2 ^ 4 * 2 ^ 4
disk_operation_lem port = omega (arith, bit_and_shifted 12 port 0xF, bit_and_mask 4 (port / 2 ^ 12))

in_range_lem :
    (first last port : ℕ) → in_range first last port ≡ true → (first ≤ port) × (port ≤ last)
in_range_lem first last port e = ground (arith, e)

-- An overlay has four settings.
read_overlay-Returned : (z : ℕ) (o : Overlay) → z < 4 → (v : ℕ) × (read_overlay z o ≡ done v)
unfolding read_overlay
read_overlay-Returned z o h = elim (Bool-cases (z == 0x00)) [
  | inl e ↦ rw e (_, refl)
  | inr e ↦ elim (Bool-cases (z == 0x01)) [
    | inl f ↦ rw (e, f) (_, refl)
    | inr f ↦ elim (Bool-cases (z == 0x02)) [
      | inl g ↦ rw (e, f, g) (_, refl)
      | inr g ↦ let k : (z == 0x03) ≡ true = ground (arith, e, f, g, h) in rw (e, f, g, k) (_, refl)
    ]
  ]
]

read_mouse-Returned : (z : ℕ) (m : Mouse) → z < 2 → (v : ℕ) × (read_mouse z m ≡ done v)
unfolding read_mouse
read_mouse-Returned z m h = elim (Bool-cases (z == 0x00)) [
  | inl e ↦ rw e (_, refl)
  | inr e ↦ let k : (z == 0x01) ≡ true = ground (arith, e, h) in rw (e, k) (_, refl)
]

-- A call that panics if `Bad` holds, and returns otherwise.
abbrev pub PanicsIf {ℓ} : {A : Type ℓ} → Type 0 → Outcome A → Type ℓ
PanicsIf {A = A} Bad r = (Bad × (p : Panic) × (r ≡ panic p)) ⊎ ((Bad → ⊥) × (a : A) × (r ≡ done a))

refused {ℓ} :
    {A : Type ℓ} {Bad : Type 0} {r : Outcome A} → Bad → (p : Panic) × (r ≡ panic p) → PanicsIf Bad r
refused bad (p, e) = inl (bad, p, e)

accepted {ℓ} :
    {A : Type ℓ} {Bad : Type 0} {r : Outcome A}
    → (Bad → ⊥)
    → (a : A) × (r ≡ done a)
    → PanicsIf Bad r
accepted good (a, e) = inr (good, a, e)

-- An operation that a read may ask a disk for.
disk_operation-cases :
    (port : ℕ)
    → 0x80001000 ≤ port
    → port ≤ 0x80002003
    → ((disk_operation port ≡ 0x10) × (port ≤ 0x80001FFF))
      ⊎ ((disk_operation port ≡ 0x20) × (0x80001FFF < port))
disk_operation-cases port l h = elim (Bool-cases (leb port 0x80001FFF)) [
  | inl e ↦
      let k : port ≤ 0x80001FFF = (leb_iff port 0x80001FFF).0 e in
      inl (omega (arith, disk_operation_lem port), k)
  | inr e ↦
      let k : 0x80001FFF < port = ground (arith, e) in
      inr (omega (arith, disk_operation_lem port), k)
]

module _ {F R W : Type 0} (host : Host F R W) where
  read_disk_total :
      (op id : ℕ) (c : DiskController F)
      → (op ≡ 0x10) ⊎ (op ≡ 0x20)
      → PanicsIf ((op ≡ 0x10) × (3 < id)) (read_disk host op id c)
  unfolding read_disk disk_at
  read_disk_total op id c (inl e) =
      let first : (op == 0x10) ≡ true = (==_iff op 0x10).1 e in
      elim (Bool-cases (ltb 3 id)) [
        | inl f ↦ refused (e, (ltb_iff 3 id).0 f) (rw (first, f) (_, refl))
        | inr f ↦
            let below : ltb id 4 ≡ true = ground (arith, f) in
            accepted (λ (_, bad). ground (arith, f, bad)) (rw (first, f, below) (_, refl))
      ]
  read_disk_total op id c (inr e) =
      let not_first : (op == 0x10) ≡ false = ground (arith, e) in
      let second : (op == 0x20) ≡ true = (==_iff op 0x20).1 e in
      accepted (λ (bad, _). omega arith) (rw (not_first, second) (_, refl))

  -- The ports of an overlay that is not there, and of a disk that no slot has.
  abbrev pub Refuses : (port : ℕ) → Devices F R W → Type 0
  Refuses port d =
      ((0x80000000 ≤ port) × (port ≤ 0x8000031F) × (d.overlays.count ≤ port % 2 ^ 8))
      ⊎ ((0x80001000 ≤ port) × (port ≤ 0x80001FFF) × (3 < port % 2 ^ 8))

  read_overlay_total :
      (port : ℕ) (d : Devices F R W)
      → in_range 0x80000000 0x8000031F port ≡ true
      → PanicsIf (Refuses port d) (read_io host port d)
  unfolding read_io get_overlay
  read_overlay_total port d e =
      let (low, high) = in_range_lem 0x80000000 0x8000031F port e in
      let n : overlay_number port ≡ port % 2 ^ 8 = bit_and_mask 8 port in
      elim (Bool-cases (ltb (overlay_number port) d.overlays.count)) [
        | inl f ↦
            let inside : overlay_number port < d.overlays.count =
              (ltb_iff (overlay_number port) d.overlays.count).0 f in
            let (v, g) =
              read_overlay-Returned (overlay_setting port)
                (d.overlays.overlay (overlay_number port))
                (omega (arith, overlay_setting_lem port)) in
            accepted (λ bad. elim bad [ inl (_, _, k) ↦ omega arith | inr (k, _, _) ↦ omega arith ])
              (rw (e, f, g) (_, refl))
        | inr f ↦ refused (inl (low, high, ground (arith, f, n))) (rw (e, f) (_, refl))
      ]

  read_port_total :
      (port : ℕ) (d : Devices F R W)
      → in_range 0x80001000 0x80002003 port ≡ true
      → PanicsIf (Refuses port d) (read_io host port d)
  unfolding read_io
  read_port_total port d e =
      let (low, high) = in_range_lem 0x80001000 0x80002003 port e in
      let a : in_range 0x80000000 0x8000031F port ≡ false = ground arith in
      let b : in_range 0x80000400 0x80000401 port ≡ false = ground arith in
      let c : (port == 0x80000500) ≡ false = ground arith in
      let k : (port == 0x80000600) ≡ false = ground arith in
      let cases : ((disk_operation port ≡ 0x10) × (port ≤ 0x80001FFF))
          ⊎ ((disk_operation port ≡ 0x20) × (0x80001FFF < port)) =
        disk_operation-cases port low high in
      elim (read_disk_total (disk_operation port) (u8 port) d.disk_controller
        (elim cases [ inl (o, _) ↦ inl o | inr (o, _) ↦ inr o ])) [
          | inl ((f, g), p, h) ↦
              refused (inr (low, elim cases [ inl (_, u) ↦ u | inr (o, _) ↦ omega arith ], g))
                (rw (a, b, c, k, e, h) (_, refl))
          | inr (n, v, h) ↦
              accepted
                (λ bad. elim bad [
                  | inl (_, u, _) ↦ omega arith
                  | inr (_, u, g) ↦ n (elim cases [ inl (o, _) ↦ o | inr (_, v) ↦ omega arith ], g)
                ])
                (rw (a, b, c, k, e, h) (_, refl))
        ]

  -- A read of a port panics exactly if it asks an overlay that is not there, or a disk that no slot has.
  pub read_io_total :
      (port : ℕ) (d : Devices F R W) → PanicsIf (Refuses port d) (read_io host port d)
  unfolding read_io
  read_io_total port d = elim (Bool-cases (in_range 0x80000000 0x8000031F port)) [
    | inl e ↦ read_overlay_total port d e
    | inr e ↦ elim (Bool-cases (in_range 0x80001000 0x80002003 port)) [
      | inl f ↦ read_port_total port d f
      | inr f ↦
          let good : Refuses port d → ⊥ = λ bad. elim bad [
            | inl (l, h, _) ↦ ground (arith, e, l, h)
            | inr (l, h, _) ↦ ground (arith, f, l, h)
          ] in
          elim (Bool-cases (in_range 0x80000400 0x80000401 port)) [
            | inl g ↦
                let (l, h) = in_range_lem 0x80000400 0x80000401 port g in
                let (v, k) =
                  read_mouse-Returned (mouse_setting port) d.mouse
                    (omega (arith, bit_and_mask 8 port)) in
                accepted good (rw (e, g, k) (_, refl))
            | inr g ↦ elim (Bool-cases (port == 0x80000500)) [
              | inl h ↦ accepted good (rw (e, g, h) (_, refl))
              | inr h ↦ elim (Bool-cases (port == 0x80000600)) [
                | inl k ↦ accepted good (rw (e, g, h, k) (_, refl))
                | inr k ↦ accepted good (rw (e, g, h, k, f) (_, refl))
              ]
            ]
          ]
    ]
  ]
