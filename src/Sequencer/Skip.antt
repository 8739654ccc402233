-- ===== src/Sequencer/Skip.antt =====
-- Giving up on missing sequences in include/tick/sequencer.hpp: `skip_to`, and the room that a
-- message beyond the window makes for itself.
use tickerplant.Prelude.{
  ℕ, zero, suc, ◌+◌, ◌-◌, ◌≤◌, ◌<◌, ◌≡◌, Bool, true, false, arith, inl, inr, refl, sym, ap, ◌∙◌,
  Bool-cases, u64_mod, leb, leb→le, count-false, ltb,
}
use tickerplant.Sequencer.State.{
  Sequencer, Delivery, FeedState, holds, slot_of, slot_index, enter_stale,
}
use tickerplant.Sequencer.Window.{abandon, skip_to, skip_loop, skip_one}
use tickerplant.Sequencer.Ingest.{make_room}
use tickerplant.Sequencer.Invariant.{Window, Below-mono, capacity_pos, slot_index-lt}
use tickerplant.Sequencer.Front.{
  Advances, Advances-refl, Advances-trans, drain-Advances, drain_limit, skip_loop-Advances,
}
use tickerplant.Sequencer.Relabel.{Relabels-Advances, Relabels-holds, enter_stale-Relabels}
use tickerplant.Sequencer.Valid.{IsValid}

-- What is held lies inside the window.
pub held_bounds :
    {P : Delivery → Type 0} {s : Sequencer} (w : Window P s) (q : ℕ)
    → holds s q ≡ true
    → (s.expected ≤ q) × (q < s.expected + s.capacity) × (q + s.capacity < u64_mod)
unfolding holds slot_of
held_bounds {s = s} w q h =
    let present : (s.slots (slot_index s q)).present ≡ true = ground arith in
    let at = w.placed (slot_index s q) (slot_index-lt s w.ring q) present in
    ground (arith, at.above, at.below, at.room)

-- A jump over the whole window abandons everything in it.
module _ {P : Delivery → Type 0} {s : Sequencer} (w : Window P s) (target : ℕ)
    (far : s.expected + s.capacity ≤ target) (room : target + s.capacity ≤ u64_mod) where
  abandon_empty : (q : ℕ) → holds (abandon target s) q ≡ false
  unfolding holds slot_of abandon
  abandon_empty q = refl

  abandon-Advances : Advances P s (abandon target s)
  unfolding abandon
  abandon-Advances = record {
    window = record {
      ring = w.ring;
      counted = sym (count-false s.capacity);
      bounded = room;
      placed = λ i h k. absurd (ground arith);
      genuine = λ i h k. absurd (ground arith);
      ordered = Below-mono s.expected target s.sent (omega arith) w.ordered;
      sent_genuine = w.sent_genuine;
    };
    fixed = record { capacity = refl; max_payload = refl; started = refl };
    forward = omega arith;
    fewer = omega arith;
    keeps = λ q h. inl (omega (arith, held_bounds w q h));
    only = λ q h. absurd (ground (arith, abandon_empty q));
  }

-- What `skip_to` does: the front is at the target or past it, and stops where everything held ends.
pub record Skips (P : Delivery → Type 0) (target : ℕ) (s : Sequencer) (r : Sequencer × Bool)
    : Type 0 where
  pub advances : Advances P s r.0
  pub front : holds r.0 (r.0).expected ≡ false
  pub reached : target ≤ (r.0).expected
  pub limit :
      (n : ℕ)
      → s.expected ≤ n
      → target ≤ n
      → ((q : ℕ) → holds s q ≡ true → q < n)
      → (r.0).expected ≤ n
  pub wiped : r.1 ≡ true → ((r.0).expected ≡ target) × ((q : ℕ) → holds r.0 q ≡ false)
  pub state : (r.0).state ≡ s.state

skip_one_state : (s : Sequencer) → (skip_one s).state ≡ s.state
unfolding skip_one
skip_one_state s = ground arith

skip_loop_state : (f target : ℕ) (s : Sequencer) → (skip_loop f target s).state ≡ s.state
unfolding skip_loop
skip_loop_state zero target s = refl
skip_loop_state (suc f) target s = elim (Bool-cases (ltb s.expected target)) [
  | inr e ↦ rw (e, skip_loop) refl
  | inl e ↦ rw (e, skip_loop) (skip_loop_state f target (skip_one s) ∙ skip_one_state s)
]

module _ {P : Delivery → Type 0} {s : Sequencer} (w : Window P s)
    (front : holds s s.expected ≡ false) (target : ℕ) (room : target + s.capacity ≤ u64_mod) where
  pub skip_to-Skips : Skips P target s (skip_to target s)
  unfolding skip_to
  skip_to-Skips = elim (Bool-cases (leb target s.expected)) [
    | inl back ↦
        let le = leb→le target s.expected back in
        rw (back, skip_to)
          (record {
            advances = Advances-refl w;
            front = front;
            reached = le;
            limit = λ n lo t up. lo;
            wiped = λ e. absurd (ground arith);
            state = refl;
          })
    | inr ahead ↦ elim (Bool-cases (leb s.capacity (target - s.expected))) [
      | inl wide ↦
          let far : s.expected + s.capacity ≤ target = ground arith in
          let a = abandon-Advances w target far room in
          rw (ahead, wide, skip_to)
            (record {
              advances = a;
              front = abandon_empty w target far room target;
              reached = omega arith;
              limit = λ n lo t up. t;
              wiped = λ e. (refl, abandon_empty w target far room);
              state = refl;
            })
      | inr close ↦
          let (a, there) =
            skip_loop-Advances (target - s.expected) target s w (ground arith) room
              (ground arith) in
          let (b, stop, same, run) = drain-Advances a.window in
          rw (ahead, close, skip_to)
            (record {
              advances = Advances-trans a b;
              front = stop;
              reached = omega (arith, there, b.forward);
              limit = λ n lo t up.
                  drain_limit n a.window (omega (arith, there)) (λ q h. up q (a.only q h));
              wiped = λ e. absurd (ground arith);
              state = same ∙ skip_loop_state (target - s.expected) target s;
            })
    ]
  ]

pub enter_stale_state : (s : Sequencer) → (enter_stale s).state ≡ FeedState.stale
unfolding enter_stale
enter_stale_state s = refl

-- After `make_room` the message lies in the window, or is owed, and is not held.
pub record MakesRoom (P : Delivery → Type 0) (q : ℕ) (s t : Sequencer) : Type 0 where
  pub advances : Advances P s t
  pub front : holds t t.expected ≡ false
  pub ahead : t.expected ≤ q
  pub near : q < t.expected + t.capacity
  pub fresh : holds t q ≡ false
  pub state : t.state ≡ FeedState.stale

module _ {P : Delivery → Type 0} {s : Sequencer} (v : IsValid P s) (q : ℕ)
    (far : s.expected + s.capacity ≤ q) (room : q + s.capacity < u64_mod) where
  not_held : {u : Sequencer} → Advances P s u → holds u q ≡ false
  not_held {u} a = elim (Bool-cases (holds u q)) [
    | inl h ↦ absurd (omega (arith, held_bounds v.window q (a.only q h)))
    | inr n ↦ n
  ]

  after_stale :
      {u : Sequencer}
      → Advances P s u
      → holds u u.expected ≡ false
      → u.expected ≤ q
      → q < u.expected + s.capacity
      → MakesRoom P q s (enter_stale u)
  after_stale {u} a f lo hi =
      let r = enter_stale-Relabels u in
      record {
        advances = Advances-trans a (Relabels-Advances a.window r);
        front = ap (holds (enter_stale u)) r.expected ∙ Relabels-holds r u.expected ∙ f;
        ahead = omega (arith, r.expected);
        near = omega (arith, r.expected, r.capacity, a.fixed.capacity);
        fresh = Relabels-holds r q ∙ not_held a;
        state = enter_stale_state u;
      }

  pub make_room-MakesRoom : MakesRoom P q s (make_room q s)
  unfolding make_room
  make_room-MakesRoom =
      let pos = capacity_pos s v.window.ring in
      let target = q - (s.capacity - 1) in
      let k = skip_to-Skips v.window v.front target (omega arith) in
      let below =
        k.limit q (omega arith) (omega arith) (λ r h. omega (arith, held_bounds v.window r h)) in
      elim (Bool-cases (skip_to target s).1) [
        | inr kept ↦
            rw (kept, make_room) (after_stale k.advances k.front below (omega (arith, k.reached)))
        | inl wiped ↦
            let (at, nothing) = k.wiped wiped in
            let t = (skip_to target s).0 in
            let k2 =
              skip_to-Skips k.advances.window k.front q
                (omega (arith, k.advances.fixed.capacity)) in
            rw (wiped, make_room)
              (after_stale (Advances-trans k.advances k2.advances) k2.front
                (k2.limit q below (omega arith) (λ r h. absurd (ground (arith, nothing r))))
                (omega (arith, k2.reached)))
      ]
