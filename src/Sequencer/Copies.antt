-- ===== src/Sequencer/Copies.antt =====
-- The second copy of a message in include/tick/sequencer.hpp.
use tickerplant.Prelude.{
  ℕ, ◌+◌, ◌<◌, ◌≤◌, ◌≡◌, ◌∙◌, true, false, Option, some, arith, u64_mod, ap, inl, inr, ltb,
  Bool-cases, length, lt→ltb, ◌==◌, ==_iff,
}
use tickerplant.Sequencer.State.{Sequencer, Delivery, LineId, Payload, holds}
use tickerplant.Sequencer.Ingest.{ingest_started, duplicate, on_message}
use tickerplant.Sequencer.Valid.{IsValid}
use tickerplant.Sequencer.Accept.{Covered}
use tickerplant.Sequencer.Run.{on_message-Accepts, on_message_lem, ingest_lem, begin_lem}

-- On a running sequencer a message goes straight to its branch.
on_message-started :
    (line : LineId) (q : ℕ) (p : Payload) (now : ℕ) (s : Sequencer)
    → s.started ≡ true
    → on_message line q p now s ≡ (ingest_started q p now (some line) s).0
on_message-started line q p now s e =
    on_message_lem line q p now s
    ∙ ap (λ r. r.0)
        (ingest_lem q p now (some line) s
          ∙ ap (ingest_started q p now (some line)) (begin_lem q s e))

Covered-duplicate :
    (q : ℕ) (p : Payload) (now : ℕ) (line : Option LineId) (s : Sequencer)
    → holds s s.expected ≡ false
    → Covered s q
    → ingest_started q p now line s ≡ (duplicate s, false)
unfolding ingest_started
Covered-duplicate q p now line s front (inl below) = rw (lt→ltb q s.expected below, ingest_started)
Covered-duplicate q p now line s front (inr held) = elim (Bool-cases (ltb q s.expected)) [
  | inl old ↦ rw (old, ingest_started)
  | inr new ↦ elim (Bool-cases (q == s.expected)) [
    | inl owed ↦ absurd (ground (arith, ap (holds s) ((==_iff q s.expected).0 owed)))
    | inr early ↦ rw (new, early, held, ingest_started)
  ]
]

-- Once a message that fits a slot has come in on one line, any copy of its sequence on either line
-- changes nothing but the count of duplicates: the sink is not called again, and neither the
-- window nor the feed state nor a line's wins move.
pub second_copy_ignored :
    {P : Delivery → Type 0} (q : ℕ) (p p' : Payload) (now now' : ℕ) (line line' : LineId)
    {s : Sequencer}
    → IsValid P s
    → q + s.capacity < u64_mod
    → P (q, p)
    → length p ≤ s.max_payload
    → on_message line' q p' now' (on_message line q p now s) ≡ duplicate (on_message line q p now s)
second_copy_ignored q p p' now now' line line' {s} v room known fits =
    let a = on_message-Accepts q p now v room known line in
    let t = on_message line q p now s in
    on_message-started line' q p' now' t a.takes.valid.running
    ∙ ap (λ r. r.0) (Covered-duplicate q p' now' (some line') t a.takes.valid.front (a.covers fits))
