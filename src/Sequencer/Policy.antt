-- ===== src/Sequencer/Policy.antt =====
-- When include/tick/sequencer.hpp asks for a retransmission, for what, and when it gives up.
use tickerplant.Prelude.{
  ℕ, ◌+◌, ◌<◌, ◌≤◌, ◌≡◌, ◌∙◌, true, false, ◌&&◌, not, some, none, refl, arith, ap, sym, inl, inr,
  ltb, leb, add64, add64_fits, Bool-cases,
}
use tickerplant.Recovery.Request.{RetransmitRequest}
use tickerplant.Sequencer.State.{Sequencer, Delivery, FeedState, holds}
use tickerplant.Sequencer.Poll.{
  missing_run, wire_count, issue_request, under_pressure, start_request, retry_request, poll_gap,
  poll_recovering, poll_stale, poll_in, poll,
}
use tickerplant.Sequencer.Relabel.{Relabels, Relabels-holds}
use tickerplant.Sequencer.Valid.{IsValid}
use tickerplant.Sequencer.Missing.{run_ends, missing_run-IsHole}
use tickerplant.Sequencer.Clock.{
  start_request-Relabels, retry_request-Relabels, start_request-Takes, retry_request-Takes,
}

-- A request `r`, made in the state `s` at the time `now`, that leaves the state `t`.
pub record Asks (now : ℕ) (s : Sequencer) (r : RetransmitRequest) (t : Sequencer) : Type 0 where
  pub first : r.first_sequence ≡ s.expected
  pub some_wanted : 0 < r.count
  pub fits : r.count ≤ 65535
  pub missing : (q : ℕ) → s.expected ≤ q → q < s.expected + r.count → holds s q ≡ false
  pub whole : r.count < 65535 → holds s (s.expected + r.count) ≡ true
  pub remembered : t.recovery_end ≡ s.expected + r.count
  pub state : t.state ≡ FeedState.recovering
  pub deadline : t.recovery_deadline_ns ≡ add64 now s.cfg.recovery_timeout_ns

module _ {P : Delivery → Type 0} (now : ℕ) (s t : Sequencer) (v : IsValid P t)
    (waiting : 0 < t.pending) (l : Relabels s t) (asking : t.state ≡ FeedState.recovering)
    (due : t.recovery_deadline_ns ≡ add64 now s.cfg.recovery_timeout_ns) (r : RetransmitRequest)
    (e : (issue_request t).1 ≡ some r) where
  issue_request-Asks : Asks now s r (issue_request t).0
  unfolding issue_request
  issue_request-Asks =
      let hole = missing_run-IsHole v waiting in
      let (inside, room) = run_ends v waiting in
      let n = wire_count (missing_run t) in
      let first : r.first_sequence ≡ t.expected = ground arith in
      let count : r.count ≡ n = ground arith in
      let short : n ≤ missing_run t = ground arith in
      record {
        first = first ∙ l.expected;
        some_wanted = ground (arith, hole.some_missing);
        fits = ground arith;
        missing = λ q lo hi.
            sym (Relabels-holds l q)
            ∙ hole.missing q (omega (arith, l.expected)) (omega (arith, l.expected));
        whole = λ h.
            let all : n ≡ missing_run t = ground arith in
            let at : s.expected + r.count ≡ t.expected + missing_run t =
              omega (arith, l.expected) in
            sym (Relabels-holds l (s.expected + r.count)) ∙ ap (holds t) at ∙ hole.held_behind;
        remembered = add64_fits t.expected n (omega arith) ∙ omega (arith, l.expected);
        state = asking;
        deadline = due;
      }

-- `poll` in each feed state.
module _ {P : Delivery → Type 0} (now : ℕ) {s : Sequencer} (v : IsValid P s)
    (r : RetransmitRequest) where
  poll_gap-Asks :
      s.state ≡ FeedState.gap → (poll_gap now s).1 ≡ some r → Asks now s r (poll_gap now s).0
  unfolding poll_gap
  poll_gap-Asks e =
      elim (Bool-cases
        (not (under_pressure s) && ltb now (add64 s.gap_since_ns s.cfg.gap_grace_ns))) [
          | inl wait ↦ rw (wait, poll_gap) (λ h. absurd (cc))
          | inr act ↦
              let k = start_request-Takes now v e in
              let l = start_request-Relabels now s in
              rw (act, poll_gap)
                (issue_request-Asks now s (start_request now s) k.valid
                  (rw l.pending (v.busy (rw e refl))) l refl refl r)
        ]

  poll_recovering-Asks :
      s.state ≡ FeedState.recovering
      → (poll_recovering now s).1 ≡ some r
      → Asks now s r (poll_recovering now s).0
  unfolding poll_recovering
  poll_recovering-Asks e = elim (Bool-cases (ltb now s.recovery_deadline_ns)) [
    | inl wait ↦ rw (wait, poll_recovering) (λ h. absurd (cc))
    | inr late ↦ elim (Bool-cases (leb s.cfg.max_recovery_attempts s.recovery_attempts)) [
      | inl spent ↦ rw (late, spent, poll_recovering) (λ h. absurd (cc))
      | inr retry ↦
          let k = retry_request-Takes now v in
          let l = retry_request-Relabels now s in
          rw (late, retry, poll_recovering)
            (issue_request-Asks now s (retry_request now s) k.valid
              (rw l.pending (v.busy (rw e refl))) l e refl r)
    ]
  ]

  poll_stale_quiet : (poll_stale now s).1 ≡ none
  unfolding poll_stale
  poll_stale_quiet = ground arith

  poll_in-Asks :
      (f : FeedState)
      → s.state ≡ f
      → (poll_in f now s).1 ≡ some r
      → Asks now s r (poll_in f now s).0
  unfolding poll_in
  poll_in-Asks FeedState.synced e h = absurd (cc)
  poll_in-Asks FeedState.gap e h = poll_gap-Asks e h
  poll_in-Asks FeedState.recovering e h = poll_recovering-Asks e h
  poll_in-Asks FeedState.stale e h = absurd (cc poll_stale_quiet)

  -- Whenever `poll` hands back a request, it is for a run of sequences that starts at the next one
  -- expected, is not empty, fits 16 bits, and holds no sequence that is already in the window; and
  -- it is the whole hole, up to a held sequence, unless it has the largest count. The state then
  -- remembers the end of the range and is Recovering with a fresh deadline.
  pub poll-Asks : (poll now s).1 ≡ some r → Asks now s r (poll now s).0
  unfolding poll
  poll-Asks = poll_in-Asks s.state refl
