-- ===== src/Sequencer/Steps.antt =====
-- One round of the loops of include/tick/sequencer.hpp keeps the window as it should be.
use tickerplant.Prelude.{
  ℕ, suc, ◌+◌, ◌%◌, ◌≤◌, ◌<◌, ◌≡◌, ◌≢◌, true, false, arith, count, u64_mod, ◌==◌, sym, ap, ◌∙◌,
  subst, count_change, count-pos, count-le, add64, sub64,
}
use tickerplant.Sequencer.State.{Sequencer, Delivery, slot_index, slot_of, holds, stored}
use tickerplant.Sequencer.Window.{release_front, advance, drop_one}
use tickerplant.Sequencer.Invariant.{
  Window, capacity_pos, slot_index-mod, slot_index-lt, present-holds, present-eq-holds,
  placed-holds, Below-mono,
}

module _ {P : Delivery → Type 0} {s : Sequencer} (w : Window P s)
    (e : holds s s.expected ≡ true) where
  at_front : (s.slots (slot_index s s.expected)).present ≡ true
  at_front = ground (arith, present-eq-holds w s.expected, capacity_pos s w.ring)

  pub front_seq : (s.slots (slot_index s s.expected)).seq ≡ s.expected
  front_seq =
      present-holds w s.expected (omega arith) (omega (arith, capacity_pos s w.ring)) at_front

  pub front_room : s.expected + s.capacity < u64_mod
  front_room =
      let at = w.placed _ (slot_index-lt s w.ring s.expected) at_front in
      omega (arith, at.room, front_seq)

  pub pending_bounds : (0 < s.pending) × (s.pending ≤ s.capacity)
  pending_bounds = omega (
    arith,
    w.counted,
    count-pos s.capacity _ (λ i. (s.slots i).present) (slot_index-lt s w.ring s.expected) at_front,
    count-le s.capacity (λ i. (s.slots i).present),
  )

  -- Delivering the message at the front leaves one message less.
  pub release-pending : suc (advance (release_front s)).pending ≡ s.pending
  unfolding advance release_front sub64
  release-pending = omega (arith, pending_bounds, front_room)

  pub release-expected : (advance (release_front s)).expected ≡ s.expected + 1
  unfolding advance release_front add64
  release-expected = omega (arith, front_room, capacity_pos s w.ring)

  released : (i : ℕ) → ((release_front s).slots i).present ≡ true → i ≢ slot_index s s.expected
  unfolding release_front slot_of
  released i k = ground arith

  count_released :
      count s.capacity (λ i. ((release_front s).slots i).present) + 1
      ≡ count s.capacity (λ i. (s.slots i).present)
  unfolding release_front slot_of
  count_released =
      let change =
        count_change s.capacity (slot_index s s.expected) (λ i. (s.slots i).present)
          (λ i. ((release_front s).slots i).present) (slot_index-lt s w.ring s.expected)
          (λ j ne. ground arith) in
      ground (arith, change, at_front)

  pub release-Window : Window P (advance (release_front s))
  unfolding advance release_front slot_of
  release-Window = record {
    ring = w.ring;
    counted = omega (arith, release-pending, w.counted, count_released);
    bounded = omega (arith, release-expected, front_room);
    placed = λ i h k.
        let ne : (i == slot_index s s.expected) ≡ false = ground (arith, released i k) in
        let at = w.placed i h (rw ne at k) in
        let past : (s.slots i).seq ≢ s.expected = λ same. released i k (
          sym at.home ∙ ap (λ q. q % s.capacity) same ∙ sym (slot_index-mod s w.ring s.expected)) in
        rw (release-expected, ne)
          (record {
            home = at.home;
            above = omega (arith, at.above, past);
            below = omega (arith, at.below);
            room = at.room;
          });
    genuine = λ i h k.
        let ne : (i == slot_index s s.expected) ≡ false = ground (arith, released i k) in
        rw ne (w.genuine i h (rw ne at k));
    ordered = (omega (arith, release-expected), w.ordered);
    sent_genuine = (
      subst (λ q. P (q, stored (slot_of s s.expected))) front_seq
          (w.genuine _ (slot_index-lt s w.ring s.expected) at_front),
      w.sent_genuine,
    );
  }

module _ {P : Delivery → Type 0} {s : Sequencer} (w : Window P s)
    (room : s.expected + s.capacity < u64_mod) (e : holds s s.expected ≡ false) where
  -- A missing sequence at the front is passed over; nothing held is lost.
  pub pass-expected : (advance (drop_one s)).expected ≡ s.expected + 1
  unfolding advance drop_one add64
  pass-expected = omega (arith, room, capacity_pos s w.ring)

  pub pass-Window : Window P (advance (drop_one s))
  unfolding advance drop_one
  pass-Window = record {
    ring = w.ring;
    counted = w.counted;
    bounded = omega (arith, pass-expected);
    placed = λ i h k.
        let at = w.placed i h k in
        let past : (s.slots i).seq ≢ s.expected =
          λ same. absurd (ground (arith, ap (holds s) same, placed-holds w i h k)) in
        rw pass-expected (record {
          home = at.home;
          above = omega (arith, at.above, past);
          below = omega (arith, at.below);
          room = at.room;
        });
    genuine = w.genuine;
    ordered = Below-mono s.expected _ s.sent (omega (arith, pass-expected)) w.ordered;
    sent_genuine = w.sent_genuine;
  }
