-- ===== src/Sequencer/Clock.antt =====
-- `poll` of include/tick/sequencer.hpp keeps the invariant, and asks for what is missing.
use tickerplant.Prelude.{
  ℕ, ◌+◌, ◌<◌, ◌≡◌, false, ◌&&◌, not, arith, inl, inr, refl, ap, sym, ◌∙◌, Bool-cases, add64,
  add64_fits, ltb, leb, ◌==◌,
}
use tickerplant.Sequencer.State.{Sequencer, Delivery, FeedState, holds, enter_stale}
use tickerplant.Sequencer.Poll.{
  missing_run, issue_request, skip_hole, under_pressure, start_request, retry_request, poll_gap,
  poll_recovering, poll_stale, poll_in, poll,
}
use tickerplant.Sequencer.Front.{Advances}
use tickerplant.Sequencer.Relabel.{
  Relabels, Relabels-Advances, Relabels-holds, enter_stale-Relabels,
}
use tickerplant.Sequencer.Valid.{IsValid, Takes, Takes-trans, Relabels-Takes, relabelled-Takes}
use tickerplant.Sequencer.Skip.{skip_to-Skips, enter_stale_state}
use tickerplant.Sequencer.Missing.{run_ends, missing_run-IsHole}

-- A move of the front that leaves the feed stale.
module _ {P : Delivery → Type 0} {s t u : Sequencer} (v : IsValid P s) (a : Advances P s t)
    (front : holds t t.expected ≡ false) (r : Relabels t u) (e : u.state ≡ FeedState.stale) where
  pub stale_move-Takes : Takes P s u
  stale_move-Takes =
      let b = Relabels-Advances a.window r in
      record {
        valid = record {
          window = b.window;
          front = ap (holds u) r.expected ∙ Relabels-holds r t.expected ∙ front;
          running = r.started ∙ a.fixed.started ∙ v.running;
          idle = λ h. absurd (ground (arith, e));
          busy = λ h. absurd (ground (arith, e));
        };
        fixed = record {
          capacity = r.capacity ∙ a.fixed.capacity;
          max_payload = r.max_payload ∙ a.fixed.max_payload;
          started = r.started ∙ a.fixed.started;
        };
        forward = omega (arith, a.forward, r.expected);
        keeps = λ q h. elim (a.keeps q h) [
          | inl below ↦ inl (omega (arith, r.expected))
          | inr held ↦ inr (Relabels-holds r q ∙ held)
        ];
        fate = inl e;
        one_way = λ _. e;
      }

module _ {P : Delivery → Type 0} {s : Sequencer} (v : IsValid P s) (waiting : 0 < s.pending) where
  -- Stepping over the hole goes past at least one missing sequence.
  pub skip_hole-Advances :
      Advances P s (skip_hole s)
      × (holds (skip_hole s) (skip_hole s).expected ≡ false)
      × (s.expected < (skip_hole s).expected)
      × ((skip_hole s).state ≡ s.state)
  unfolding skip_hole
  skip_hole-Advances =
      let (inside, room) = run_ends v waiting in
      let hole = missing_run-IsHole v waiting in
      let target : add64 s.expected (missing_run s) ≡ s.expected + missing_run s =
        add64_fits s.expected (missing_run s) (omega arith) in
      let k =
        skip_to-Skips v.window v.front (add64 s.expected (missing_run s)) (omega (arith, target)) in
      (k.advances, k.front, omega (arith, k.reached, target, hole.some_missing), k.state)

pub start_request-Relabels : (now : ℕ) (s : Sequencer) → Relabels s (start_request now s)
unfolding start_request
start_request-Relabels now s = ground arith

pub retry_request-Relabels : (now : ℕ) (s : Sequencer) → Relabels s (retry_request now s)
unfolding retry_request
retry_request-Relabels now s = ground arith

issue_request-Relabels : (s : Sequencer) → Relabels s (issue_request s).0
unfolding issue_request
issue_request-Relabels s = ground arith

issue_request_state : (s : Sequencer) → (issue_request s).0.state ≡ s.state
unfolding issue_request
issue_request_state s = refl

same-Relabels : (s : Sequencer) → Relabels s s
same-Relabels s = ground arith

pub idle-Takes : {P : Delivery → Type 0} {s : Sequencer} → IsValid P s → Takes P s s
idle-Takes {s = s} v = Relabels-Takes v (same-Relabels s) refl

module _ {P : Delivery → Type 0} (now : ℕ) {s : Sequencer} (v : IsValid P s) where
  same-Takes : Takes P s s
  same-Takes = idle-Takes v

  pub start_request-Takes : s.state ≡ FeedState.gap → Takes P s (start_request now s)
  unfolding start_request
  start_request-Takes e =
      relabelled-Takes v (start_request-Relabels now s) (λ h. absurd (cc)) (λ h. v.busy (rw e refl))
        (λ h. absurd (cc (sym e ∙ h)))

  pub retry_request-Takes : Takes P s (retry_request now s)
  unfolding retry_request
  retry_request-Takes = Relabels-Takes v (retry_request-Relabels now s) refl

  issued-Takes : {t : Sequencer} → Takes P s t → Takes P s (issue_request t).0
  issued-Takes {t} k =
      Takes-trans k (Relabels-Takes k.valid (issue_request-Relabels t) (issue_request_state t))

  give_up-Takes : s.state ≡ FeedState.recovering → Takes P s (enter_stale (skip_hole s))
  give_up-Takes e =
      let (a, front, past, state) = skip_hole-Advances v (v.busy (rw e refl)) in
      stale_move-Takes v a front (enter_stale-Relabels (skip_hole s))
        (enter_stale_state (skip_hole s))

  step_over-Takes :
      s.state ≡ FeedState.stale
      → 0 < s.pending
      → Takes P s (record (skip_hole s) { gap_since_ns = now })
  step_over-Takes e waiting =
      let (a, front, past, state) = skip_hole-Advances v waiting in
      stale_move-Takes v a front
        (record {
          cfg = refl;
          capacity = refl;
          mask = refl;
          max_payload = refl;
          slots = refl;
          expected = refl;
          pending = refl;
          started = refl;
          sent = refl;
        })
        (state ∙ e)

  poll_gap-Takes : s.state ≡ FeedState.gap → Takes P s (poll_gap now s).0
  unfolding poll_gap
  poll_gap-Takes e =
      elim (Bool-cases
        (not (under_pressure s) && ltb now (add64 s.gap_since_ns s.cfg.gap_grace_ns))) [
          | inl wait ↦ rw (wait, poll_gap) same-Takes
          | inr act ↦ rw (act, poll_gap) (issued-Takes (start_request-Takes e))
        ]

  poll_recovering-Takes : s.state ≡ FeedState.recovering → Takes P s (poll_recovering now s).0
  unfolding poll_recovering
  poll_recovering-Takes e = elim (Bool-cases (ltb now s.recovery_deadline_ns)) [
    | inl wait ↦ rw (wait, poll_recovering) same-Takes
    | inr late ↦ elim (Bool-cases (leb s.cfg.max_recovery_attempts s.recovery_attempts)) [
      | inl spent ↦ rw (late, spent, poll_recovering) (give_up-Takes e)
      | inr retry ↦ rw (late, retry, poll_recovering) (issued-Takes retry_request-Takes)
    ]
  ]

  poll_stale-Takes : s.state ≡ FeedState.stale → Takes P s (poll_stale now s).0
  unfolding poll_stale
  poll_stale-Takes e =
      elim (Bool-cases
        (not (s.pending == 0) && leb (add64 s.gap_since_ns s.cfg.gap_grace_ns) now)) [
          | inl due ↦ rw (due, poll_stale) (step_over-Takes e (ground arith))
          | inr wait ↦ rw (wait, poll_stale) same-Takes
        ]

  poll_in-Takes : (f : FeedState) → s.state ≡ f → Takes P s (poll_in f now s).0
  unfolding poll_in
  poll_in-Takes FeedState.synced e = same-Takes
  poll_in-Takes FeedState.gap e = poll_gap-Takes e
  poll_in-Takes FeedState.recovering e = poll_recovering-Takes e
  poll_in-Takes FeedState.stale e = poll_stale-Takes e

  pub poll-Takes : Takes P s (poll now s).0
  unfolding poll
  poll-Takes = poll_in-Takes s.state refl
