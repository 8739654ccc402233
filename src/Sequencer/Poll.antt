-- ===== src/Sequencer/Poll.antt =====
-- include/tick/sequencer.hpp: the state machine moved by time alone. `poll`, and the request that
-- it builds from the run of sequences missing at the front.
use tickerplant.Prelude.{
  ℕ, zero, suc, ◌+◌, Bool, ◌&&◌, not, Option, none, some, ltb, leb, ◌==◌, inc64, add64, mul64,
  if◌then◌else◌,
}
use tickerplant.Recovery.Request.{RetransmitRequest}
use tickerplant.Sequencer.State.{FeedState, Sequencer, holds, enter_stale}
use tickerplant.Sequencer.Window.{skip_to}

-- The loop of `missing_run`, at offset `i` with `n` offsets left.
unfoldable pub missing_from : ℕ → ℕ → Sequencer → ℕ
unfolding holds
missing_from zero i s = s.capacity
missing_from (suc n) i s =
    let rest = missing_from n (i + 1) s in if holds s (add64 s.expected i) then i else rest

unfoldable pub missing_run : Sequencer → ℕ
unfolding missing_from
missing_run s = missing_from s.capacity 0 s

abbrev pub wire_count : ℕ → ℕ
wire_count run = if ltb 65535 run then 65535 else run

unfoldable pub issue_request : Sequencer → Sequencer × Option RetransmitRequest
unfolding missing_run
issue_request s =
    let n = wire_count (missing_run s) in
    (
      record s { recovery_end = add64 s.expected n },
      some (record { first_sequence = s.expected; count = n }),
    )

unfoldable pub skip_hole : Sequencer → Sequencer
unfolding missing_run skip_to
skip_hole s = (skip_to (add64 s.expected (missing_run s)) s).0

-- Three quarters of the window are in use.
unfoldable pub under_pressure : Sequencer → Bool
unfolding mul64
under_pressure s = leb (mul64 s.capacity 3) (mul64 s.pending 4)

-- The first request for a hole, up to the call of `issue_request`.
unfoldable pub start_request : ℕ → Sequencer → Sequencer
start_request now s = record s {
  state = FeedState.recovering;
  recovery_attempts = 1;
  recovery_deadline_ns = add64 now s.cfg.recovery_timeout_ns;
  stats = record (s.stats) { recovery_requests = inc64 s.stats.recovery_requests };
}

-- A retry, up to the call of `issue_request`. The attempts are below their maximum here, so the
-- 32 bit counter does not wrap.
unfoldable pub retry_request : ℕ → Sequencer → Sequencer
retry_request now s = record s {
  recovery_attempts = s.recovery_attempts + 1;
  stats = record (s.stats) {
    recovery_requests = inc64 s.stats.recovery_requests;
    recovery_retries = inc64 s.stats.recovery_retries;
  };
  recovery_deadline_ns = add64 now s.cfg.recovery_timeout_ns;
}

unfoldable pub poll_gap : ℕ → Sequencer → Sequencer × Option RetransmitRequest
unfolding under_pressure start_request issue_request
poll_gap now s =
    if not (under_pressure s) && ltb now (add64 s.gap_since_ns s.cfg.gap_grace_ns)
    then (s, none)
    else issue_request (start_request now s)

unfoldable pub poll_recovering : ℕ → Sequencer → Sequencer × Option RetransmitRequest
unfolding skip_hole enter_stale retry_request issue_request
poll_recovering now s =
    if ltb now s.recovery_deadline_ns
    then (s, none)
    else (if leb s.cfg.max_recovery_attempts s.recovery_attempts
        then (enter_stale (skip_hole s), none)
        else issue_request (retry_request now s))

unfoldable pub poll_stale : ℕ → Sequencer → Sequencer × Option RetransmitRequest
unfolding skip_hole
poll_stale now s =
    if not (s.pending == 0) && leb (add64 s.gap_since_ns s.cfg.gap_grace_ns) now
    then (record (skip_hole s) { gap_since_ns = now }, none)
    else (s, none)

-- The arm of each feed state.
unfoldable pub poll_in : FeedState → ℕ → Sequencer → Sequencer × Option RetransmitRequest
unfolding poll_gap poll_recovering poll_stale
poll_in FeedState.synced now s = (s, none)
poll_in FeedState.gap now s = poll_gap now s
poll_in FeedState.recovering now s = poll_recovering now s
poll_in FeedState.stale now s = poll_stale now s

unfoldable pub poll : ℕ → Sequencer → Sequencer × Option RetransmitRequest
unfolding poll_in
poll now s = poll_in s.state now s
