-- ===== src/Sequencer/Ingest.antt =====
-- include/tick/sequencer.hpp: construction, `reset`, and where a message enters: `ingest`,
-- `on_message`, `on_retransmit`. The branches of `ingest` are functions of their own.
use tickerplant.Prelude.{
  ℕ, ◌-◌, Bool, true, false, Option, none, some, [], ltb, leb, ◌==◌, update, inc64, add64,
  if◌then◌else◌, length, replicate, u32_mod, ◌%◌,
}
use tickerplant.Pow2.{round_up_pow2}
use tickerplant.Sequencer.State.{
  LineId, FeedState, is_synced, is_recovering, Payload, Slot, Sequencer, Config, no_stats,
  slot_index, slot_of, holds, memcpy, credit, clear_recovery, enter_stale,
}
use tickerplant.Sequencer.Window.{deliver_now, drop_one, skip_to}
use mathlib.Core.Option

-- `n == 0 ? 1 : n`
abbrev pub at_least_one : ℕ → ℕ
at_least_one n = if n == 0 then 1 else n

abbrev pub empty_slot : ℕ → Slot
empty_slot width = record { seq = 0; len = 0; present = false; bytes = replicate width 0 }

abbrev pub initial : Config → ℕ → Sequencer
initial cfg capacity = record {
  cfg = record cfg { max_recovery_attempts = at_least_one cfg.max_recovery_attempts };
  capacity = capacity;
  mask = capacity - 1;
  max_payload = at_least_one cfg.max_payload;
  slots = λ i. empty_slot (at_least_one cfg.max_payload);
  stats = no_stats;
  expected = 0;
  pending = 0;
  gap_since_ns = 0;
  recovery_deadline_ns = 0;
  recovery_end = 0;
  recovery_attempts = 0;
  state = FeedState.synced;
  started = false;
  sent = [];
}

-- The constructor; `none` where the rounding of the window does not end.
unfoldable pub make : Config → Option Sequencer
make cfg = Option.map (initial cfg) (round_up_pow2 (at_least_one cfg.reorder_window))

unfoldable pub reset : ℕ → Sequencer → Sequencer
unfolding clear_recovery
reset first s = clear_recovery (record s {
  slots = λ i. record (s.slots i) { present = false };
  pending = 0;
  expected = first;
  state = FeedState.synced;
  started = true;
  gap_since_ns = 0;
})

-- `++stats_.duplicates; return false;`
unfoldable pub duplicate : Sequencer → Sequencer
duplicate s = record s { stats = record (s.stats) { duplicates = inc64 s.stats.duplicates } }

-- The writes of `ingest` to the slot, the counters and the clock of a first hole.
unfoldable pub store : ℕ → Payload → ℕ → Option LineId → Sequencer → Sequencer
unfolding slot_index slot_of
store q p now line s =
    let first_hole = s.pending == 0 in
    let held = inc64 s.pending in
    record s {
      slots = update s.slots (slot_index s q) (record {
        seq = q;
        len = length p % u32_mod;
        present = true;
        bytes = memcpy ((slot_of s q).bytes) p;
      });
      pending = held;
      stats = credit line (record (s.stats) {
        window_high_water =
            if ltb s.stats.window_high_water held then held else s.stats.window_high_water;
        out_of_order = inc64 s.stats.out_of_order;
        gaps_detected = if first_hole then inc64 s.stats.gaps_detected else s.stats.gaps_detected;
      });
      gap_since_ns = if first_hole then now else s.gap_since_ns;
      state = if is_synced s.state then FeedState.gap else s.state;
    }

-- From the test of the payload's width to the end of `ingest`.
unfoldable pub hold : ℕ → Payload → ℕ → Option LineId → Sequencer → Sequencer × Bool
unfolding drop_one store
hold q p now line s =
    if ltb s.max_payload (length p) then (drop_one s, false) else (store q p now line s, true)

-- The two skips of a message beyond the window.
unfoldable pub make_room : ℕ → Sequencer → Sequencer
unfolding skip_to enter_stale
make_room q s =
    let (t, wiped) = skip_to (q - (s.capacity - 1)) s in
    enter_stale (if wiped then (skip_to q t).0 else t)

unfoldable pub overflow : ℕ → Payload → ℕ → Option LineId → Sequencer → Sequencer × Bool
unfolding make_room deliver_now hold
overflow q p now line s =
    let t = make_room q s in
    if q == t.expected then (deliver_now q p now line t, true) else hold q p now line t

-- `ingest` once the stream has a start.
unfoldable pub ingest_started : ℕ → Payload → ℕ → Option LineId → Sequencer → Sequencer × Bool
unfolding duplicate deliver_now holds overflow hold
ingest_started q p now line s =
    if ltb q s.expected
    then (duplicate s, false)
    else (if q == s.expected
        then (deliver_now q p now line s, true)
        else (if holds s q
            then (duplicate s, false)
            else (if leb s.capacity (q - s.expected)
                then overflow q p now line s
                else hold q p now line s)))

-- `if (!started_) reset(sequence);`
unfoldable pub begin : ℕ → Sequencer → Sequencer
unfolding reset
begin q s = if s.started then s else reset q s

unfoldable pub ingest : ℕ → Payload → ℕ → Option LineId → Sequencer → Sequencer × Bool
unfolding ingest_started begin
ingest q p now line s = ingest_started q p now line (begin q s)

unfoldable pub on_message : LineId → ℕ → Payload → ℕ → Sequencer → Sequencer
unfolding ingest
on_message line q p now s = (ingest q p now (some line) s).0

-- `++stats_.from_recovery` and the restart of the deadline.
unfoldable pub count_recovered : ℕ → Sequencer → Sequencer
count_recovered now s = record s {
  stats = record (s.stats) { from_recovery = inc64 s.stats.from_recovery };
  recovery_deadline_ns =
      if is_recovering s.state then add64 now s.cfg.recovery_timeout_ns else s.recovery_deadline_ns;
}

-- What `on_retransmit` does with the result of `ingest`.
unfoldable pub finish : ℕ → Sequencer × Bool → Sequencer
unfolding count_recovered
finish now (s, taken) = if taken then count_recovered now s else s

unfoldable pub on_retransmit : ℕ → Payload → ℕ → Sequencer → Sequencer
unfolding ingest finish
on_retransmit q p now s = finish now (ingest q p now none s)
