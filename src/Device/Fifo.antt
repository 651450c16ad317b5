-- ===== src/Device/Fifo.antt =====
-- fox32/src/keyboard.rs: the keyboard is a queue of at most 32 scancodes.
use fox.Prelude.{
  ℕ, ◌<◌, ◌≤◌, ◌≡◌, refl, sym, ap, ◌∙◌, true, ltb, ltb_iff, Bool-cases, Option, none, some, List,
  [], ◌∷◌, ◌++◌, length, if◌then◌else◌, inl, inr, arith,
}
use fox.Device.{Host}
use fox.Device.Parts.{push_key, pop_key, unwrap_or_default, stored_or}

-- What the ring buffer's documentation says: `contents` are the scancodes that are not read yet, the
-- oldest first, and `capacity` is the number of its places, which stays.
abbrev pub Pushed : {R : Type 0} → (R → List ℕ) → (R → ℕ) → R → ℕ → Option R → Type 0
Pushed contents capacity r v none = capacity r ≤ length (contents r)
Pushed contents capacity r v (some r') =
    (length (contents r) < capacity r)
    × (contents r' ≡ contents r ++ v ∷ [])
    × (capacity r' ≡ capacity r)

abbrev pub Popped : {R : Type 0} → (R → List ℕ) → (R → ℕ) → R → Option (ℕ × R) → Type 0
Popped contents capacity r none = contents r ≡ []
Popped contents capacity r (some (v, r')) =
    (contents r ≡ v ∷ contents r') × (capacity r' ≡ capacity r)

pub record RingLaws {F R W : Type 0} (host : Host F R W) : Type 0 where
  pub contents : R → List ℕ
  pub capacity : R → ℕ
  pub new_ring-capacity : (n : ℕ) → capacity (host.new_ring n) ≡ n
  pub new_ring-contents : (n : ℕ) → contents (host.new_ring n) ≡ []
  pub push-Pushed : (r : R) (v : ℕ) → Pushed contents capacity r v (host.push r v)
  pub pop-Popped : (r : R) → Popped contents capacity r (host.pop r)

-- A key goes down or up, or the processor reads the keyboard's port.
pub data KeyEvent : Type 0 where
  key : (scancode : ℕ) → KeyEvent
  poll : KeyEvent

-- The queue that the keyboard promises: its answers, and what is left. It drops what finds it full,
-- and answers 0 when it is empty.
abbrev pub offer : ℕ → List ℕ → List ℕ
offer v q = if ltb (length q) 32 then q ++ v ∷ [] else q

unfoldable pub queue_answers : List KeyEvent → List ℕ → List ℕ × List ℕ
queue_answers [] q = ([], q)
queue_answers (key v ∷ es) q = queue_answers es (offer v q)
queue_answers (poll ∷ es) [] = let (answers, rest) = queue_answers es [] in (0 ∷ answers, rest)
queue_answers (poll ∷ es) (v ∷ q) = let (answers, rest) = queue_answers es q in (v ∷ answers, rest)

module _ {F R W : Type 0} (host : Host F R W) where
  -- The same events on the keyboard.
  unfoldable pub keyboard_answers : List KeyEvent → R → W → List ℕ × R
  unfolding push_key pop_key
  keyboard_answers [] r w = ([], r)
  keyboard_answers (key v ∷ es) r w =
      let (r', w') = push_key host v r w in keyboard_answers es r' w'
  keyboard_answers (poll ∷ es) r w =
      let (v, r') = pop_key host r in
      let (answers, rest) = keyboard_answers es r' w in (v ∷ answers, rest)

module _ {F R W : Type 0} (host : Host F R W) (laws : RingLaws host) where
  -- The answers, and the scancodes that are left in the buffer.
  abbrev pub shown : List ℕ × R → List ℕ × List ℕ
  shown (answers, r) = (answers, laws.contents r)

  push_key-offer :
      (v : ℕ) (r : R) (w : W)
      → laws.capacity r ≡ 32
      → (laws.contents (push_key host v r w).0 ≡ offer v (laws.contents r))
        × (laws.capacity (push_key host v r w).0 ≡ 32)
  unfolding push_key
  push_key-offer v r w c = pushed (host.push r v) (laws.push-Pushed r v)
    where
      pushed :
          (p : Option R)
          → Pushed laws.contents laws.capacity r v p
          → (laws.contents (stored_or p r (host.warn w) w).0 ≡ offer v (laws.contents r))
            × (laws.capacity (stored_or p r (host.warn w) w).0 ≡ 32)
      pushed none h = elim (Bool-cases (ltb (length (laws.contents r)) 32)) [
        | inl e ↦
            let k : length (laws.contents r) < 32 = (ltb_iff (length (laws.contents r)) 32).0 e in
            absurd (omega arith)
        | inr e ↦ rw e (refl, c)
      ]
      pushed (some r') (h, e, s) =
          let l : length (laws.contents r) < 32 = omega arith in
          let k : ltb (length (laws.contents r)) 32 ≡ true =
            (ltb_iff (length (laws.contents r)) 32).1 l in
          rw k (e, s ∙ c)

  -- One more answer in front.
  abbrev answered : ℕ → List ℕ × List ℕ → List ℕ × List ℕ
  answered v (answers, rest) = (v ∷ answers, rest)

  -- Whatever the keys and the reads are, a keyboard whose buffer has the 32 places of a new one answers
  -- as a queue of at most 32 scancodes does, and is left with the same contents.
  pub keyboard_answers-queue_answers :
      (es : List KeyEvent) (r : R) (w : W)
      → laws.capacity r ≡ 32
      → shown (keyboard_answers host es r w) ≡ queue_answers es (laws.contents r)
  unfolding keyboard_answers queue_answers
  keyboard_answers-queue_answers [] r w c = refl
  keyboard_answers-queue_answers (key v ∷ es) r w c =
      let (e, c') = push_key-offer v r w c in
      keyboard_answers-queue_answers es (push_key host v r w).0 (push_key host v r w).1 c'
      ∙ ap (queue_answers es) e
  keyboard_answers-queue_answers (poll ∷ es) r w c =
      polled (host.pop r) (laws.pop-Popped r) (λ r'. keyboard_answers-queue_answers es r' w)
    where
      polled :
          (p : Option (ℕ × R))
          → Popped laws.contents laws.capacity r p
          → ((r' : R)
              → laws.capacity r' ≡ 32
              → shown (keyboard_answers host es r' w) ≡ queue_answers es (laws.contents r'))
          → answered
              (unwrap_or_default p r).0
              (shown (keyboard_answers host es (unwrap_or_default p r).1 w))
            ≡ queue_answers (poll ∷ es) (laws.contents r)
      polled none e again =
          ap (answered 0) (again r c ∙ ap (queue_answers es) e)
          ∙ sym (ap (queue_answers (poll ∷ es)) e)
      polled (some (v, r')) (e, s) again =
          ap (answered v) (again r' (s ∙ c)) ∙ sym (ap (queue_answers (poll ∷ es)) e)
