-- ===== src/Sequencer/Relabel.antt =====
-- The parts of include/tick/sequencer.hpp that touch counters, clocks and the feed state only: the
-- window, the front and the sink are as before.
use tickerplant.Prelude.{ℕ, ◌≡◌, arith, inr, refl, subst, Option}
use tickerplant.Sequencer.State.{
  Sequencer, Delivery, LineId, holds, credit_line, enter_stale, slot_of,
}
use tickerplant.Sequencer.Window.{settle, drop_one}
use tickerplant.Sequencer.Ingest.{duplicate, count_recovered}
use tickerplant.Sequencer.Invariant.{Window}
use tickerplant.Sequencer.Front.{Advances}

pub record Relabels (s t : Sequencer) : Type 0 where
  pub cfg : t.cfg ≡ s.cfg
  pub capacity : t.capacity ≡ s.capacity
  pub mask : t.mask ≡ s.mask
  pub max_payload : t.max_payload ≡ s.max_payload
  pub slots : t.slots ≡ s.slots
  pub expected : t.expected ≡ s.expected
  pub pending : t.pending ≡ s.pending
  pub started : t.started ≡ s.started
  pub sent : t.sent ≡ s.sent

-- The labels of `t` on the rest of `s`.
abbrev labelled : Sequencer → Sequencer → Sequencer
labelled s t = record s {
  stats = t.stats;
  state = t.state;
  gap_since_ns = t.gap_since_ns;
  recovery_deadline_ns = t.recovery_deadline_ns;
  recovery_end = t.recovery_end;
  recovery_attempts = t.recovery_attempts;
}

labelled-eq : {s t : Sequencer} → Relabels s t → labelled s t ≡ t
labelled-eq r = ground (arith, r.slots, r.cfg)

labelled-Advances :
    {P : Delivery → Type 0} {s : Sequencer} (t : Sequencer)
    → Window P s
    → Advances P s (labelled s t)
unfolding holds slot_of
labelled-Advances t w = record {
  window = record {
    ring = w.ring;
    counted = w.counted;
    bounded = w.bounded;
    placed = w.placed;
    genuine = w.genuine;
    ordered = w.ordered;
    sent_genuine = w.sent_genuine;
  };
  fixed = record { capacity = refl; max_payload = refl; started = refl };
  forward = omega arith;
  fewer = omega arith;
  keeps = λ q h. inr h;
  only = λ q h. h;
}

pub Relabels-Advances :
    {P : Delivery → Type 0} {s t : Sequencer} → Window P s → Relabels s t → Advances P s t
Relabels-Advances {P} {s} {t} w r = subst (Advances P s) (labelled-eq r) (labelled-Advances t w)

pub Relabels-holds : {s t : Sequencer} → Relabels s t → (q : ℕ) → holds t q ≡ holds s q
unfolding holds slot_of
Relabels-holds r q = ground (arith, r.slots, r.mask)

pub settle-Relabels : (now : ℕ) (s : Sequencer) → Relabels s (settle now s)
unfolding settle
settle-Relabels now s = ground arith

pub credit_line-Relabels : (line : Option LineId) (s : Sequencer) → Relabels s (credit_line line s)
unfolding credit_line
credit_line-Relabels line s = ground arith

pub enter_stale-Relabels : (s : Sequencer) → Relabels s (enter_stale s)
unfolding enter_stale
enter_stale-Relabels s = ground arith

pub duplicate-Relabels : (s : Sequencer) → Relabels s (duplicate s)
unfolding duplicate
duplicate-Relabels s = ground arith

pub drop_one-Relabels : (s : Sequencer) → Relabels s (drop_one s)
unfolding drop_one
drop_one-Relabels s = ground arith

pub count_recovered-Relabels : (now : ℕ) (s : Sequencer) → Relabels s (count_recovered now s)
unfolding count_recovered
count_recovered-Relabels now s = ground arith
