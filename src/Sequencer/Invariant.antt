-- ===== src/Sequencer/Invariant.antt =====
-- What holds of the window of include/tick/sequencer.hpp between any two of its steps.
use tickerplant.Prelude.{
  ◌∙◌, ap, ℕ, ◌+◌, ◌-◌, ◌%◌, ◌^◌, ◌≤◌, ◌<◌, ◌≡◌, true, List, [], ◌∷◌, arith, count, All, u64_mod,
  u32_mod,
}
use tickerplant.Prelude.Bits.{bit_and-mask, pow-pos, mod-injective_window}
use tickerplant.Sequencer.State.{Sequencer, Slot, Delivery, slot_index, slot_of, holds, stored}

-- The ring has a power of two of slots, and a slot's length fits its 32 bits.
pub record IsRing (capacity mask max_payload : ℕ) : Type 0 where
  pub width : ℕ
  pub size : capacity ≡ 2 ^ width
  pub masked : mask ≡ capacity - 1
  pub narrow : max_payload < u32_mod

abbrev pub RingOf : Sequencer → Type 0
RingOf s = IsRing s.capacity s.mask s.max_payload

-- A present slot at index `i` holds a sequence of that index, inside the window.
pub record IsPlaced (capacity expected i : ℕ) (sl : Slot) : Type 0 where
  pub home : sl.seq % capacity ≡ i
  pub above : expected ≤ sl.seq
  pub below : sl.seq < expected + capacity
  pub room : sl.seq + capacity < u64_mod

-- The calls of the sink, newest first, have falling sequences, all below `n`.
abbrev pub Below : ℕ → List Delivery → Type 0
Below n [] = Unit {0}
Below n ((q, p) ∷ ds) = (q < n) × Below q ds

-- `P` is what is known of every message that came in.
pub record Window (P : Delivery → Type 0) (s : Sequencer) : Type 0 where
  pub ring : RingOf s
  pub counted : s.pending ≡ count s.capacity (λ i. (s.slots i).present)
  pub bounded : s.expected + s.capacity ≤ u64_mod
  pub placed :
      (i : ℕ)
      → i < s.capacity
      → (s.slots i).present ≡ true
      → IsPlaced s.capacity s.expected i (s.slots i)
  pub genuine :
      (i : ℕ)
      → i < s.capacity
      → (s.slots i).present ≡ true
      → P ((s.slots i).seq, stored (s.slots i))
  pub ordered : Below s.expected s.sent
  pub sent_genuine : All P s.sent

pub capacity_pos : (s : Sequencer) → RingOf s → 0 < s.capacity
capacity_pos s r = omega (arith, r.size, pow-pos r.width)

-- The masked index is the remainder by the capacity.
pub slot_index-mod : (s : Sequencer) → RingOf s → (q : ℕ) → slot_index s q ≡ q % s.capacity
unfolding slot_index
slot_index-mod s r q = rw (r.masked, r.size) (bit_and-mask r.width q)

pub slot_index-lt : (s : Sequencer) → RingOf s → (q : ℕ) → slot_index s q < s.capacity
slot_index-lt s r q = omega (arith, slot_index-mod s r q, capacity_pos s r)

module _ {P : Delivery → Type 0} {s : Sequencer} (w : Window P s) where
  -- Inside the window a present slot at the index of `q` is the slot of `q`.
  pub present-holds :
      (q : ℕ)
      → s.expected ≤ q
      → q < s.expected + s.capacity
      → (s.slots (slot_index s q)).present ≡ true
      → (s.slots (slot_index s q)).seq ≡ q
  present-holds q lo hi e =
      let at = w.placed (slot_index s q) (slot_index-lt s w.ring q) e in
      let same : (s.slots (slot_index s q)).seq % s.capacity ≡ q % s.capacity =
        omega (arith, at.home, slot_index-mod s w.ring q) in
      mod-injective_window s.expected _ q s.capacity at.above at.below lo hi same

  pub present-eq-holds :
      (q : ℕ)
      → s.expected ≤ q
      → q < s.expected + s.capacity
      → (s.slots (slot_index s q)).present ≡ holds s q
  unfolding holds slot_of
  present-eq-holds q lo hi = ground (arith, present-holds q lo hi)

  -- A present slot is the slot of the sequence in it.
  pub placed-holds :
      (i : ℕ) → i < s.capacity → (s.slots i).present ≡ true → holds s (s.slots i).seq ≡ true
  unfolding holds slot_of
  placed-holds i h k =
      let home : slot_index s (s.slots i).seq ≡ i =
        slot_index-mod s w.ring (s.slots i).seq ∙ (w.placed i h k).home in
      ground (arith, home, ap s.slots home)

pub Below-mono : (m n : ℕ) (ds : List Delivery) → m ≤ n → Below m ds → Below n ds
Below-mono m n [] h b = tt
Below-mono m n ((q, p) ∷ ds) h b = (omega arith, b.1)
