-- ===== src/Sequencer/State.antt =====
-- The state of include/tick/sequencer.hpp: configuration, counters, the ring of slots and the
-- sink, and the helpers that read one slot. A sequence, a time and a counter is a uint64_t.
use Prim.Native.Nat.{bit_and}
use tickerplant.Prelude.{
  ℕ, Bool, true, false, ◌&&◌, Option, none, some, List, ◌++◌, ◌==◌, length, take, drop, inc64,
}

pub data LineId : Type 0 where
  a b : LineId

pub data FeedState : Type 0 where
  synced gap recovering stale : FeedState

abbrev pub is_synced : FeedState → Bool
is_synced FeedState.synced = true
is_synced _ = false

abbrev pub is_gap : FeedState → Bool
is_gap FeedState.gap = true
is_gap _ = false

abbrev pub is_recovering : FeedState → Bool
is_recovering FeedState.recovering = true
is_recovering _ = false

abbrev pub is_stale : FeedState → Bool
is_stale FeedState.stale = true
is_stale _ = false

abbrev pub Payload : Type 0
Payload = List ℕ

-- One call of the sink: the sequence and the bytes.
abbrev pub Delivery : Type 0
Delivery = ℕ × Payload

pub record Config : Type 0 where
  pub reorder_window : ℕ
  pub gap_grace_ns : ℕ
  pub recovery_timeout_ns : ℕ
  pub max_recovery_attempts : ℕ
  pub max_payload : ℕ

pub record Stats : Type 0 where
  pub accepted : ℕ
  pub duplicates : ℕ
  pub out_of_order : ℕ
  pub gaps_detected : ℕ
  pub gaps_recovered : ℕ
  pub messages_dropped : ℕ
  pub window_high_water : ℕ
  pub wins_a : ℕ
  pub wins_b : ℕ
  pub recovery_requests : ℕ
  pub recovery_retries : ℕ
  pub from_recovery : ℕ

-- A slot, with the `max_payload` bytes of `bytes_` that belong to it.
pub record Slot : Type 0 where
  pub seq : ℕ
  pub len : ℕ
  pub present : Bool
  pub bytes : List ℕ

-- `slots` is read at masked indices only, so at none beyond the vector. `sent` is what the sink
-- has been called with, the newest call first.
pub record Sequencer : Type 0 where
  pub cfg : Config
  pub capacity : ℕ
  pub mask : ℕ
  pub max_payload : ℕ
  pub slots : ℕ → Slot
  pub stats : Stats
  pub expected : ℕ
  pub pending : ℕ
  pub gap_since_ns : ℕ
  pub recovery_deadline_ns : ℕ
  pub recovery_end : ℕ
  pub recovery_attempts : ℕ
  pub state : FeedState
  pub started : Bool
  pub sent : List Delivery

abbrev pub no_stats : Stats
no_stats = record {
  accepted = 0;
  duplicates = 0;
  out_of_order = 0;
  gaps_detected = 0;
  gaps_recovered = 0;
  messages_dropped = 0;
  window_high_water = 0;
  wins_a = 0;
  wins_b = 0;
  recovery_requests = 0;
  recovery_retries = 0;
  from_recovery = 0;
}

-- `seq & mask_`
unfoldable pub slot_index : Sequencer → ℕ → ℕ
slot_index s q = bit_and q s.mask

unfoldable pub slot_of : Sequencer → ℕ → Slot
unfolding slot_index
slot_of s q = s.slots (slot_index s q)

-- `s.present && s.seq == sequence`
unfoldable pub holds : Sequencer → ℕ → Bool
unfolding slot_of
holds s q = (slot_of s q).present && ((slot_of s q).seq == q)

-- `memcpy` over the front of a slot's bytes.
abbrev pub memcpy : List ℕ → Payload → List ℕ
memcpy old p = p ++ drop (length p) old

-- The bytes that `std::span(bytes_of(q), s.len)` shows.
abbrev pub stored : Slot → Payload
stored sl = take sl.len sl.bytes

abbrev pub credit : Option LineId → Stats → Stats
credit none t = t
credit (some LineId.a) t = record t { wins_a = inc64 t.wins_a }
credit (some LineId.b) t = record t { wins_b = inc64 t.wins_b }

unfoldable pub credit_line : Option LineId → Sequencer → Sequencer
credit_line line s = record s { stats = credit line s.stats }

unfoldable pub clear_recovery : Sequencer → Sequencer
clear_recovery s = record s { recovery_attempts = 0; recovery_deadline_ns = 0; recovery_end = 0 }

unfoldable pub enter_stale : Sequencer → Sequencer
unfolding clear_recovery
enter_stale s = clear_recovery (record s { state = FeedState.stale })
