-- ===== src/Sequencer/Accept.antt =====
-- Every branch of `ingest` in include/tick/sequencer.hpp keeps the invariant.
use tickerplant.Prelude.{
  ℕ, ◌+◌, ◌-◌, ◌≤◌, ◌<◌, ◌≡◌, ◌⊎◌, true, false, arith, inl, inr, refl, ◌∙◌, Option, Bool-cases,
  u64_mod, leb, ltb, ltb→lt, ltb→ge, length, ◌==◌, ==_iff,
}
use tickerplant.Sequencer.State.{Sequencer, Delivery, FeedState, LineId, Payload, holds, slot_of}
use tickerplant.Sequencer.Window.{deliver_now}
use tickerplant.Sequencer.Ingest.{duplicate, hold, make_room, overflow, ingest_started}
use tickerplant.Sequencer.Front.{Advances}
use tickerplant.Sequencer.Relabel.{duplicate-Relabels, drop_one-Relabels}
use tickerplant.Sequencer.Valid.{IsValid, Takes, Relabels-Takes, deliver_now-Takes}
use tickerplant.Sequencer.Hold.{store-holds, store-Takes}
use tickerplant.Sequencer.Skip.{make_room-MakesRoom}

-- A sequence that has been dealt with: delivered or given up below the front, or held.
abbrev pub Covered : Sequencer → ℕ → Type 0
Covered s q = (q < s.expected) ⊎ (holds s q ≡ true)

-- A message was taken in, and it is covered if its payload fits a slot.
pub record Accepts (P : Delivery → Type 0) (q : ℕ) (p : Payload) (s t : Sequencer) : Type 0 where
  pub takes : Takes P s t
  pub covers : length p ≤ s.max_payload → Covered t q

module _ {P : Delivery → Type 0} (q : ℕ) (p : Payload) (now : ℕ) (line : Option LineId)
    {s : Sequencer} (v : IsValid P s) (room : q + s.capacity < u64_mod) (known : P (q, p)) where
  hold-Accepts :
      s.expected < q
      → q < s.expected + s.capacity
      → holds s q ≡ false
      → Accepts P q p s (hold q p now line s).0
  unfolding hold
  hold-Accepts early near fresh = elim (Bool-cases (ltb s.max_payload (length p))) [
    | inl wide ↦
        rw (wide, hold)
          (record {
            takes = Relabels-Takes v (drop_one-Relabels s) refl;
            covers = λ fits. absurd (ground arith);
          })
    | inr fits ↦
        let ok = ltb→ge s.max_payload (length p) fits in
        rw (fits, hold)
          (record {
            takes = store-Takes q p now line v early near room fresh ok known;
            covers = λ _. inr (store-holds q p now line v early near room fresh ok known);
          })
  ]

  duplicate-Accepts : Covered s q → Accepts P q p s (duplicate s)
  unfolding duplicate holds slot_of
  duplicate-Accepts c = record {
    takes = Relabels-Takes v (duplicate-Relabels s) refl;
    covers = λ _. c;
  }

  deliver-Accepts : q ≡ s.expected → Accepts P q p s (deliver_now q p now line s)
  deliver-Accepts here =
      let (t, past) = deliver_now-Takes q p now line v here (omega arith) known in
      record { takes = t; covers = λ _. inl past }

-- What is taken in after the window has moved and the feed has gone stale.
stale-Takes :
    {P : Delivery → Type 0} {s t u : Sequencer}
    → Advances P s t
    → t.state ≡ FeedState.stale
    → Takes P t u
    → Takes P s u
stale-Takes a e k = record {
  valid = k.valid;
  fixed = record {
    capacity = k.fixed.capacity ∙ a.fixed.capacity;
    max_payload = k.fixed.max_payload ∙ a.fixed.max_payload;
    started = k.fixed.started ∙ a.fixed.started;
  };
  forward = omega (arith, a.forward, k.forward);
  keeps = λ q h. elim (a.keeps q h) [
    | inl below ↦ inl (omega (arith, k.forward))
    | inr held ↦ k.keeps q held
  ];
  fate = inl (k.one_way e);
  one_way = λ _. k.one_way e;
}

module _ {P : Delivery → Type 0} (q : ℕ) (p : Payload) (now : ℕ) (line : Option LineId)
    {s : Sequencer} (v : IsValid P s) (room : q + s.capacity < u64_mod) (known : P (q, p)) where
  overflow-Accepts : s.expected + s.capacity ≤ q → Accepts P q p s (overflow q p now line s).0
  unfolding overflow
  overflow-Accepts far =
      let m = make_room-MakesRoom v q far room in
      let t = make_room q s in
      let valid : IsValid P t = record {
        window = m.advances.window;
        front = m.front;
        running = m.advances.fixed.started ∙ v.running;
        idle = λ e. absurd (ground (arith, m.state));
        busy = λ e. absurd (ground (arith, m.state));
      } in
      let room_t : q + t.capacity < u64_mod = omega (arith, m.advances.fixed.capacity) in
      let same : t.max_payload ≡ s.max_payload = m.advances.fixed.max_payload in
      elim (Bool-cases (q == t.expected)) [
        | inl owed ↦
            let k =
              deliver-Accepts q p now line valid room_t known ((==_iff q t.expected).0 owed) in
            rw (owed, overflow)
              (record {
                takes = stale-Takes m.advances m.state k.takes;
                covers = λ fits. k.covers (omega (arith, same));
              })
        | inr early ↦
            let k =
              hold-Accepts q p now line valid room_t known (ground (arith, m.ahead)) m.near
                m.fresh in
            rw (early, overflow)
              (record {
                takes = stale-Takes m.advances m.state k.takes;
                covers = λ fits. k.covers (omega (arith, same));
              })
      ]

  pub ingest_started-Accepts : Accepts P q p s (ingest_started q p now line s).0
  unfolding ingest_started
  ingest_started-Accepts = elim (Bool-cases (ltb q s.expected)) [
    | inl old ↦
        rw (old, ingest_started)
          (duplicate-Accepts q p now line v room known (inl (ltb→lt q s.expected old)))
    | inr new ↦ elim (Bool-cases (q == s.expected)) [
      | inl owed ↦
          rw (new, owed, ingest_started)
            (deliver-Accepts q p now line v room known ((==_iff q s.expected).0 owed))
      | inr early ↦ elim (Bool-cases (holds s q)) [
        | inl again ↦
            rw (new, early, again, ingest_started)
              (duplicate-Accepts q p now line v room known (inr again))
        | inr fresh ↦ elim (Bool-cases (leb s.capacity (q - s.expected))) [
          | inl far ↦
              rw (new, early, fresh, far, ingest_started)
                (overflow-Accepts (ground (arith, ltb→ge q s.expected new)))
          | inr near ↦
              rw (new, early, fresh, near, ingest_started)
                (hold-Accepts q p now line v room known (ground arith) (ground arith) fresh)
        ]
      ]
    ]
  ]
