-- ===== src/Sequencer/Valid.antt =====
-- What holds of a sequencer (include/tick/sequencer.hpp) between two calls, and what a call may do.
use tickerplant.Prelude.{
  ℕ, ◌+◌, ◌≤◌, ◌<◌, ◌≡◌, ◌⊎◌, true, false, ◌||◌, arith, inl, inr, refl, sym, ap, ◌∙◌, Option,
  u64_mod, add64, subst,
}
use tickerplant.Sequencer.State.{
  Sequencer, Delivery, FeedState, LineId, Payload, holds, credit_line, is_synced, is_gap,
  is_recovering, slot_of,
}
use tickerplant.Sequencer.Window.{settle, drain, advance, call_sink, deliver_now, drop_one}
use tickerplant.Sequencer.Invariant.{Window, capacity_pos}
use tickerplant.Sequencer.Front.{
  IsFixed, Advances, Unbroken, Advances-trans, drain-Advances, pass-Advances,
}
use tickerplant.Sequencer.Relabel.{
  Relabels, Relabels-Advances, Relabels-holds, settle-Relabels, credit_line-Relabels,
}

-- The window is well formed, the front is not held, and the feed state agrees with what is held.
pub record IsValid (P : Delivery → Type 0) (s : Sequencer) : Type 0 where
  pub window : Window P s
  pub front : holds s s.expected ≡ false
  pub running : s.started ≡ true
  pub idle : is_synced s.state ≡ true → s.pending ≡ 0
  pub busy : (is_gap s.state || is_recovering s.state) ≡ true → 0 < s.pending

-- A call keeps the invariant and all that was held, keeps a stale feed stale, and leaves the
-- deliveries unbroken unless it makes the feed stale.
pub record Takes (P : Delivery → Type 0) (s t : Sequencer) : Type 0 where
  pub valid : IsValid P t
  pub fixed : IsFixed s t
  pub forward : s.expected ≤ t.expected
  pub keeps : (q : ℕ) → holds s q ≡ true → (q < t.expected) ⊎ (holds t q ≡ true)
  pub fate :
      (t.state ≡ FeedState.stale)
      ⊎ ((first : ℕ) → Unbroken first s.expected s.sent → Unbroken first t.expected t.sent)
  pub one_way : s.state ≡ FeedState.stale → t.state ≡ FeedState.stale

pub Takes-trans :
    {P : Delivery → Type 0} {s t u : Sequencer} → Takes P s t → Takes P t u → Takes P s u
Takes-trans a b = record {
  valid = b.valid;
  fixed = record {
    capacity = b.fixed.capacity ∙ a.fixed.capacity;
    max_payload = b.fixed.max_payload ∙ a.fixed.max_payload;
    started = b.fixed.started ∙ a.fixed.started;
  };
  forward = omega (arith, a.forward, b.forward);
  keeps = λ q h. elim (a.keeps q h) [
    | inl below ↦ inl (omega (arith, b.forward))
    | inr held ↦ b.keeps q held
  ];
  fate = elim a.fate [
    | inl gone ↦ inl (b.one_way gone)
    | inr kept ↦ elim b.fate [
      | inl gone ↦ inl gone
      | inr kept' ↦ inr (λ first u. kept' first (kept first u))
    ]
  ];
  one_way = λ e. b.one_way (a.one_way e);
}

-- A change of counters, clocks and the feed state is such a call, where the new state agrees with
-- what is held.
pub relabelled-Takes :
    {P : Delivery → Type 0} {s t : Sequencer}
    → IsValid P s
    → Relabels s t
    → (is_synced t.state ≡ true → t.pending ≡ 0)
    → ((is_gap t.state || is_recovering t.state) ≡ true → 0 < t.pending)
    → (s.state ≡ FeedState.stale → t.state ≡ FeedState.stale)
    → Takes P s t
relabelled-Takes {P} {s} {t} v r idle busy one_way =
    let a = Relabels-Advances v.window r in
    record {
      valid = record {
        window = a.window;
        front = ap (holds t) r.expected ∙ Relabels-holds r s.expected ∙ v.front;
        running = r.started ∙ v.running;
        idle = idle;
        busy = busy;
      };
      fixed = a.fixed;
      forward = a.forward;
      keeps = a.keeps;
      fate = inr (λ first u. rw (r.expected, r.sent) u);
      one_way = one_way;
    }

pub Relabels-Takes :
    {P : Delivery → Type 0} {s t : Sequencer}
    → IsValid P s
    → Relabels s t
    → t.state ≡ s.state
    → Takes P s t
Relabels-Takes v r same =
    relabelled-Takes v r (λ e. r.pending ∙ v.idle (rw same at e))
      (λ e. rw r.pending (v.busy (rw same at e))) (λ e. same ∙ e)

-- `settle` brings the feed state in line with what is held.
module _ {P : Delivery → Type 0} (now : ℕ) {s : Sequencer} (w : Window P s)
    (front : holds s s.expected ≡ false) (running : s.started ≡ true)
    (idle : is_synced s.state ≡ true → s.pending ≡ 0) where
  pub settle-IsValid : IsValid P (settle now s)
  unfolding settle
  settle-IsValid =
      let r = settle-Relabels now s in
      record {
        window = (Relabels-Advances w r).window;
        front = ap (holds (settle now s)) r.expected ∙ Relabels-holds r s.expected ∙ front;
        running = r.started ∙ running;
        idle = ground arith;
        busy = ground arith;
      }

pub settle_stale :
    (now : ℕ) (s : Sequencer) → s.state ≡ FeedState.stale → (settle now s).state ≡ FeedState.stale
unfolding settle
settle_stale now s e = ground arith

module _ {P : Delivery → Type 0} (q : ℕ) (p : Payload) {s : Sequencer} (w : Window P s)
    (front : holds s s.expected ≡ false) (here : q ≡ s.expected)
    (room : s.expected + s.capacity < u64_mod) (known : P (q, p)) where
  -- The sink gets the message that is owed, and the front moves past it.
  direct-Advances : Advances P s (advance (call_sink q p s))
  unfolding advance call_sink drop_one holds slot_of add64
  direct-Advances =
      let a = pass-Advances w room front in
      let b = a.window in
      record {
        window = record {
          ring = b.ring;
          counted = b.counted;
          bounded = b.bounded;
          placed = b.placed;
          genuine = b.genuine;
          ordered = (omega (arith, capacity_pos s w.ring), rw here w.ordered);
          sent_genuine = (known, w.sent_genuine);
        };
        fixed = record { capacity = refl; max_payload = refl; started = refl };
        forward = a.forward;
        fewer = a.fewer;
        keeps = a.keeps;
        only = a.only;
      }

  direct-Unbroken :
      (first : ℕ)
      → Unbroken first s.expected s.sent
      → Unbroken first (advance (call_sink q p s)).expected (advance (call_sink q p s)).sent
  unfolding advance call_sink add64
  direct-Unbroken first u = (omega (arith, capacity_pos s w.ring), rw here u)

  direct_state : (advance (call_sink q p s)).state ≡ s.state
  unfolding advance call_sink
  direct_state = refl

  direct_past : q < (advance (call_sink q p s)).expected
  unfolding advance call_sink add64
  direct_past = omega (arith, capacity_pos s w.ring)

module _ {P : Delivery → Type 0} (q : ℕ) (p : Payload) (now : ℕ) (line : Option LineId)
    {s : Sequencer} (v : IsValid P s) (here : q ≡ s.expected)
    (room : s.expected + s.capacity < u64_mod) (known : P (q, p)) where
  -- Delivering the message that is owed keeps everything, and moves the front past it.
  pub deliver_now-Takes :
      Takes P s (deliver_now q p now line s) × (q < (deliver_now q p now line s).expected)
  unfolding deliver_now
  deliver_now-Takes =
      let s1 = credit_line line s in
      let r = credit_line-Relabels line s in
      let a1 = Relabels-Advances v.window r in
      let front1 : holds s1 s1.expected ≡ false =
        ap (holds s1) r.expected ∙ Relabels-holds r s.expected ∙ v.front in
      let here1 : q ≡ s1.expected = here ∙ sym r.expected in
      let room1 : s1.expected + s1.capacity < u64_mod = omega (arith, r.expected, r.capacity) in
      let s2 = advance (call_sink q p s1) in
      let a2 = direct-Advances q p a1.window front1 here1 room1 known in
      let (a3, stop, same, run) = drain-Advances a2.window in
      let s3 = drain s2 in
      let r4 = settle-Relabels now s3 in
      let all =
        Advances-trans a1
          (Advances-trans a2 (Advances-trans a3 (Relabels-Advances a3.window r4))) in
      let kept : s3.state ≡ s.state = same in
      (
        record {
          valid =
              settle-IsValid now a3.window stop (a3.fixed.started ∙ v.running)
                (λ e. omega (arith, a3.fewer, v.idle (subst (λ f. is_synced f ≡ true) kept e)));
          fixed = all.fixed;
          forward = all.forward;
          keeps = all.keeps;
          fate = inr (λ first u.
              rw (r4.expected, r4.sent)
                (run first (
                  direct-Unbroken q p a1.window front1 here1 room1 known first
                    (rw (r.expected, r.sent) u))));
          one_way = λ e. settle_stale now s3 (kept ∙ e);
        },
        omega (arith, r4.expected, a3.forward, direct_past q p a1.window front1 here1 room1 known),
      )
