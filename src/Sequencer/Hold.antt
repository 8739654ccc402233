-- ===== src/Sequencer/Hold.antt =====
-- Storing an early message in the window of include/tick/sequencer.hpp.
use tickerplant.Prelude.{
  ℕ, ◌+◌, ◌%◌, ◌≤◌, ◌<◌, ◌≡◌, ◌≢◌, true, false, ◌++◌, arith, inl, inr, refl, sym, ◌∙◌, Option, ◌==◌,
  Bool-cases, u64_mod, add64, subst, count, count_change, count-le, length, drop, take, ap,
  take_append, u32_mod, ==_iff,
}
use tickerplant.Prelude.Bits.{mod-injective_window}
use tickerplant.Sequencer.State.{Sequencer, Delivery, LineId, Payload, holds, slot_of, slot_index}
use tickerplant.Sequencer.Ingest.{store}
use tickerplant.Sequencer.Invariant.{
  Window, capacity_pos, slot_index-lt, slot_index-mod, present-eq-holds,
}
use tickerplant.Sequencer.Valid.{IsValid, Takes}

-- What `memcpy` wrote is what is read back.
stored_lem : (p rest : Payload) → length p < u32_mod → take (length p % u32_mod) (p ++ rest) ≡ p
stored_lem p rest h =
    let e : length p % u32_mod ≡ length p = omega arith in rw e (take_append p rest)

module _ {P : Delivery → Type 0} (q : ℕ) (p : Payload) (now : ℕ) (line : Option LineId)
    {s : Sequencer} (v : IsValid P s) (early : s.expected < q) (near : q < s.expected + s.capacity)
    (room : q + s.capacity < u64_mod) (fresh : holds s q ≡ false) (fits : length p ≤ s.max_payload)
    (known : P (q, p)) where
  abbrev here : ℕ
  here = slot_index s q

  here_lt : here < s.capacity
  here_lt = slot_index-lt s v.window.ring q

  vacant : (s.slots here).present ≡ false
  vacant = present-eq-holds v.window q (omega arith) near ∙ fresh

  count_stored :
      count s.capacity (λ i. ((store q p now line s).slots i).present)
      ≡ count s.capacity (λ i. (s.slots i).present) + 1
  unfolding store
  count_stored =
      let change =
        count_change s.capacity here (λ i. (s.slots i).present)
          (λ i. ((store q p now line s).slots i).present) here_lt (λ j ne. ground arith) in
      ground (arith, change, vacant)

  stored-pending : (store q p now line s).pending ≡ s.pending + 1
  unfolding store add64
  stored-pending = omega (
    arith,
    v.window.counted,
    count_stored,
    count-le s.capacity (λ i. ((store q p now line s).slots i).present),
    room,
  )

  stored_at : (store q p now line s).slots here ≡ record {
    seq = q;
    len = length p % u32_mod;
    present = true;
    bytes = p ++ drop (length p) (s.slots here).bytes;
  }
  unfolding store
  stored_at = ground arith

  stored_elsewhere : (i : ℕ) → i ≢ here → (store q p now line s).slots i ≡ s.slots i
  unfolding store
  stored_elsewhere i ne = ground arith

  store-Window : Window P (store q p now line s)
  unfolding store slot_of
  store-Window = record {
    ring = v.window.ring;
    counted = stored-pending ∙ omega (arith, v.window.counted) ∙ sym count_stored;
    bounded = v.window.bounded;
    placed = λ i h k. elim (Bool-cases (i == here)) [
      | inl y ↦ rw y (record {
        home = omega (arith, slot_index-mod s v.window.ring q, (==_iff i here).0 y);
        above = omega arith;
        below = near;
        room = room;
      })
      | inr n ↦ rw n (v.window.placed i h (rw n at k))
    ];
    genuine = λ i h k. elim (Bool-cases (i == here)) [
      | inl y ↦ rw y (
          subst (λ b. P (q, b))
            (sym (
              stored_lem p (drop (length p) (s.slots here).bytes)
                (omega (arith, v.window.ring.narrow))))
            known)
      | inr n ↦ rw n (v.window.genuine i h (rw n at k))
    ];
    ordered = v.window.ordered;
    sent_genuine = v.window.sent_genuine;
  }

  -- The message can be found at its sequence, and every other one still can.
  pub store-holds : holds (store q p now line s) q ≡ true
  unfolding holds slot_of store
  store-holds = ground arith

  store-keeps : (r : ℕ) → holds s r ≡ true → holds (store q p now line s) r ≡ true
  unfolding holds slot_of store
  store-keeps r h = elim (Bool-cases (slot_index s r == here)) [
    | inl y ↦ ground (arith, vacant, ap s.slots ((==_iff (slot_index s r) here).0 y))
    | inr n ↦ ground arith
  ]

  front_elsewhere : slot_index s s.expected ≢ here
  front_elsewhere e = omega (
    arith,
    mod-injective_window s.expected s.expected q s.capacity (omega arith)
        (omega (arith, capacity_pos s v.window.ring)) (omega arith) near
        (sym (slot_index-mod s v.window.ring s.expected) ∙ e ∙ slot_index-mod s v.window.ring q),
  )

  store_front : holds (store q p now line s) s.expected ≡ false
  unfolding holds slot_of store
  store_front = ground (arith, front_elsewhere, v.front)

  pub store-Takes : Takes P s (store q p now line s)
  unfolding store
  store-Takes = record {
    valid = record {
      window = store-Window;
      front = store_front;
      running = v.running;
      idle = ground arith;
      busy = λ e. omega (arith, stored-pending);
    };
    fixed = record { capacity = refl; max_payload = refl; started = refl };
    forward = omega arith;
    keeps = λ r h. inr (store-keeps r h);
    fate = inr (λ first u. u);
    one_way = ground arith;
  }
