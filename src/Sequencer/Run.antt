-- ===== src/Sequencer/Run.antt =====
-- The invariant of include/tick/sequencer.hpp along any sequence of calls after a `reset`.
use tickerplant.Prelude.{
  ℕ, ◌+◌, ◌<◌, ◌≡◌, ◌≤◌, Bool, true, false, List, [], ◌∷◌, inl, inr, refl, sym, ap, ◌∙◌, All,
  u64_mod, arith, Option, some, none, count-false, subst,
}
use tickerplant.Sequencer.State.{Sequencer, Delivery, LineId, Payload, holds, slot_of}
use tickerplant.Sequencer.Ingest.{
  ingest, ingest_started, reset, begin, finish, on_message, on_retransmit,
}
use tickerplant.Sequencer.Invariant.{RingOf, Below}
use tickerplant.Sequencer.Relabel.{Relabels-holds, count_recovered-Relabels}
use tickerplant.Sequencer.Valid.{IsValid, Takes, Takes-trans, Relabels-Takes}
use tickerplant.Sequencer.Accept.{Accepts, ingest_started-Accepts}
use tickerplant.Sequencer.Clock.{poll-Takes, idle-Takes}
use tickerplant.Sequencer.Events.{
  Event, message, retransmit, tick, step, run, step-message, step-retransmit, step-tick, run-nil,
  run-cons, Known, HasRoom,
}

-- A new session starts with an empty window and a synced feed.
pub reset-IsValid :
    {P : Delivery → Type 0} (first : ℕ) (s : Sequencer)
    → RingOf s
    → first + s.capacity ≤ u64_mod
    → Below first s.sent
    → All P s.sent
    → IsValid P (reset first s)
unfolding reset holds slot_of
reset-IsValid first s ring room below known = record {
  window = record {
    ring = ring;
    counted = sym (count-false s.capacity);
    bounded = room;
    placed = λ i h k. absurd (cc);
    genuine = λ i h k. absurd (cc);
    ordered = below;
    sent_genuine = known;
  };
  front = refl;
  running = refl;
  idle = λ e. refl;
  busy = λ e. absurd (cc);
}

pub begin_lem : (q : ℕ) (s : Sequencer) → s.started ≡ true → begin q s ≡ s
unfolding begin
begin_lem q s e = ground arith

pub ingest_lem :
    (q : ℕ) (p : Payload) (now : ℕ) (line : Option LineId) (s : Sequencer)
    → ingest q p now line s ≡ ingest_started q p now line (begin q s)
unfolding ingest
ingest_lem q p now line s = refl

pub on_message_lem :
    (line : LineId) (q : ℕ) (p : Payload) (now : ℕ) (s : Sequencer)
    → on_message line q p now s ≡ (ingest q p now (some line) s).0
unfolding on_message
on_message_lem line q p now s = refl

on_retransmit_lem :
    (q : ℕ) (p : Payload) (now : ℕ) (s : Sequencer)
    → on_retransmit q p now s ≡ finish now (ingest q p now none s)
unfolding on_retransmit
on_retransmit_lem q p now s = refl

-- The counters of a retransmitted message change nothing else.
finish-Accepts :
    {P : Delivery → Type 0} (q : ℕ) (p : Payload) (now : ℕ) {s : Sequencer} (t : Sequencer)
    (taken : Bool)
    → Accepts P q p s t
    → Accepts P q p s (finish now (t, taken))
unfolding finish
finish-Accepts q p now t false a = a
finish-Accepts q p now t true a =
    let r = count_recovered-Relabels now t in
    record {
      takes = Takes-trans a.takes (Relabels-Takes a.takes.valid r refl);
      covers = λ fits. elim (a.covers fits) [
        | inl below ↦ inl below
        | inr held ↦ inr (Relabels-holds r q ∙ held)
      ];
    }

module _ {P : Delivery → Type 0} (q : ℕ) (p : Payload) (now : ℕ) {s : Sequencer} (v : IsValid P s)
    (room : q + s.capacity < u64_mod) (known : P (q, p)) where
  pub ingest-Accepts : (line : Option LineId) → Accepts P q p s (ingest q p now line s).0
  ingest-Accepts line =
      subst (λ r. Accepts P q p s r.0)
        (sym
          (ingest_lem q p now line s ∙ ap (ingest_started q p now line) (begin_lem q s v.running)))
        (ingest_started-Accepts q p now line v room known)

  pub on_message-Accepts : (line : LineId) → Accepts P q p s (on_message line q p now s)
  on_message-Accepts line =
      subst (Accepts P q p s) (sym (on_message_lem line q p now s)) (ingest-Accepts (some line))

  pub on_retransmit-Accepts : Accepts P q p s (on_retransmit q p now s)
  on_retransmit-Accepts =
      let r = ingest q p now none s in
      subst (Accepts P q p s) (sym (on_retransmit_lem q p now s))
        (finish-Accepts q p now r.0 r.1 (ingest-Accepts none))

-- One event keeps the invariant.
pub step-Takes :
    {P : Delivery → Type 0} (e : Event) {s : Sequencer}
    → IsValid P s
    → HasRoom s.capacity e
    → Known P e
    → Takes P s (step e s)
step-Takes {P} (message line q p now) {s} v room known =
    subst (Takes P s) (sym (step-message line q p now s))
      (on_message-Accepts q p now v room known line).takes
step-Takes {P} (retransmit q p now) {s} v room known =
    subst (Takes P s) (sym (step-retransmit q p now s))
      (on_retransmit-Accepts q p now v room known).takes
step-Takes {P} (tick now) {s} v room known =
    subst (Takes P s) (sym (step-tick now s)) (poll-Takes now v)

pub run-Takes :
    {P : Delivery → Type 0} (es : List Event) {s : Sequencer}
    → IsValid P s
    → All (HasRoom s.capacity) es
    → All (Known P) es
    → Takes P s (run s es)
run-Takes {P} [] {s} v room known = subst (Takes P s) (sym (run-nil s)) (idle-Takes v)
run-Takes {P} (e ∷ es) {s} v room known =
    let k = step-Takes e v room.0 known.0 in
    subst (Takes P s) (sym (run-cons e es s))
      (Takes-trans k (run-Takes es k.valid (rw k.fixed.capacity room.1) known.1))
