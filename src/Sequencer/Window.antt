-- ===== src/Sequencer/Window.antt =====
-- include/tick/sequencer.hpp: what moves the front of the stream. `drain`, `settle`, `deliver_now`
-- and `skip_to`, with the bodies of their loops as functions of their own.
use tickerplant.Prelude.{
  ℕ, zero, suc, ◌+◌, ◌-◌, Bool, true, false, ◌&&◌, ◌||◌, Option, ◌∷◌, ltb, leb, ◌==◌, update, inc64,
  add64, sub64, if◌then◌else◌,
}
use tickerplant.Sequencer.State.{
  LineId, FeedState, is_gap, is_recovering, Payload, Sequencer, slot_index, slot_of, holds, stored,
  credit_line, clear_recovery,
}

-- `sink(expected_, ...); s.present = false; --pending_; ++stats_.accepted;`
unfoldable pub release_front : Sequencer → Sequencer
unfolding slot_index slot_of
release_front s = record s {
  sent = (s.expected, stored (slot_of s s.expected)) ∷ s.sent;
  slots =
      update s.slots (slot_index s s.expected) (record (slot_of s s.expected) { present = false });
  pending = sub64 s.pending 1;
  stats = record (s.stats) { accepted = inc64 s.stats.accepted };
}

-- `++expected_`
unfoldable pub advance : Sequencer → Sequencer
advance s = record s { expected = inc64 s.expected }

-- The loop of `drain`, a round for each message that is ready.
unfoldable pub drain_loop : ℕ → Sequencer → Sequencer
unfolding holds release_front advance
drain_loop zero s = s
drain_loop (suc f) s = elim (holds s s.expected) [
  | true ↦ drain_loop f (advance (release_front s))
  | false ↦ s
]

-- Each round empties a slot, so the loop has at most `capacity_` rounds.
unfoldable pub drain : Sequencer → Sequencer
unfolding drain_loop
drain s = drain_loop (s.capacity + 1) s

unfoldable pub settle : ℕ → Sequencer → Sequencer
unfolding clear_recovery
settle now s =
    if s.pending == 0
    then (if is_gap s.state || is_recovering s.state
        then clear_recovery (record s {
          stats = record (s.stats) { gaps_recovered = inc64 s.stats.gaps_recovered };
          state = FeedState.synced;
        })
        else s)
    else (if is_recovering s.state && leb s.recovery_end s.expected
        then clear_recovery (record s {
          stats = record (s.stats) {
            gaps_recovered = inc64 s.stats.gaps_recovered;
            gaps_detected = inc64 s.stats.gaps_detected;
          };
          state = FeedState.gap;
          gap_since_ns = now;
        })
        else s)

-- `sink(sequence, payload); ++stats_.accepted;`
unfoldable pub call_sink : ℕ → Payload → Sequencer → Sequencer
call_sink q p s = record s {
  sent = (q, p) ∷ s.sent;
  stats = record (s.stats) { accepted = inc64 s.stats.accepted };
}

unfoldable pub deliver_now : ℕ → Payload → ℕ → Option LineId → Sequencer → Sequencer
unfolding credit_line call_sink advance drain settle
deliver_now q p now line s = settle now (drain (advance (call_sink q p (credit_line line s))))

-- `++stats_.messages_dropped`
unfoldable pub drop_one : Sequencer → Sequencer
drop_one s = record s {
  stats = record (s.stats) { messages_dropped = inc64 s.stats.messages_dropped };
}

-- The body of the loop of `skip_to`.
unfoldable pub skip_one : Sequencer → Sequencer
unfolding holds release_front drop_one advance
skip_one s = advance (if holds s s.expected then release_front s else drop_one s)

-- `while (expected_ < target)`
unfoldable pub skip_loop : ℕ → ℕ → Sequencer → Sequencer
unfolding skip_one
skip_loop zero target s = s
skip_loop (suc f) target s = elim (ltb s.expected target) [
  | true ↦ skip_loop f target (skip_one s)
  | false ↦ s
]

-- `for (Slot& s : slots_) s.present = false; pending_ = 0;`
unfoldable pub wipe : Sequencer → Sequencer
wipe s = record s { slots = λ i. record (s.slots i) { present = false }; pending = 0 }

-- The jump by more than the window, which abandons all that is held.
unfoldable pub abandon : ℕ → Sequencer → Sequencer
unfolding wipe
abandon target s = record (wipe s) {
  stats = record (s.stats) {
    messages_dropped = add64 s.stats.messages_dropped (target - s.expected);
  };
  expected = target;
}

-- The second part is the value that `skip_to` returns: whether the whole window was wiped.
unfoldable pub skip_to : ℕ → Sequencer → Sequencer × Bool
unfolding abandon skip_loop drain
skip_to target s =
    if leb target s.expected
    then (s, false)
    else (if leb s.capacity (target - s.expected)
        then (abandon target s, true)
        else (drain (skip_loop (target - s.expected) target s), false))
