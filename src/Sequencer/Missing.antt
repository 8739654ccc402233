-- ===== src/Sequencer/Missing.antt =====
-- The run of missing sequences that include/tick/sequencer.hpp asks for and steps over.
use tickerplant.Prelude.{
  ℕ, zero, suc, ◌+◌, ◌≤◌, ◌<◌, ◌≡◌, true, false, arith, inl, inr, ap, sym, ◌-◌, ◌∙◌, Bool-cases,
  u64_mod, add64, add64_fits, count-exists,
}
use native.Mathlib.Decide.{ℕ_discrete, dec_le}
use tickerplant.Sequencer.State.{Sequencer, Delivery, holds}
use tickerplant.Sequencer.Poll.{missing_from, missing_run}
use tickerplant.Sequencer.Invariant.{placed-holds}
use tickerplant.Sequencer.Valid.{IsValid}
use tickerplant.Sequencer.Skip.{held_bounds}

-- Offsets from `i` up to `r` are missing, and the one at `r` is held, if `r` is in the window.
record IsRun (s : Sequencer) (i r : ℕ) : Type 0 where
  from : i ≤ r
  within : r ≤ s.capacity
  absent : (j : ℕ) → i ≤ j → j < r → holds s (add64 s.expected j) ≡ false
  stops : r < s.capacity → holds s (add64 s.expected r) ≡ true

missing_from-IsRun : (n i : ℕ) (s : Sequencer) → i + n ≡ s.capacity → IsRun s i (missing_from n i s)
unfolding missing_from
missing_from-IsRun zero i s e = record {
  from = omega arith;
  within = omega arith;
  absent = λ j lo hi. absurd (omega arith);
  stops = λ h. absurd (omega arith);
}
missing_from-IsRun (suc n) i s e = elim (Bool-cases (holds s (add64 s.expected i))) [
  | inl h ↦
      rw (h, missing_from)
        (record {
          from = omega arith;
          within = omega arith;
          absent = λ j lo hi. absurd (omega arith);
          stops = λ _. h;
        })
  | inr h ↦
      let r = missing_from-IsRun n (i + 1) s (omega arith) in
      rw (h, missing_from)
        (record {
          from = omega (arith, r.from);
          within = r.within;
          absent = λ j lo hi. elim (ℕ_discrete j i) [
            | yes same ↦ rw same h
            | no other ↦ r.absent j (omega arith) hi
          ];
          stops = r.stops;
        })
]

-- While something is held, the run is the hole at the front: it is not empty, nothing in it is
-- held, and the sequence behind it is.
pub record IsHole (s : Sequencer) (n : ℕ) : Type 0 where
  pub some_missing : 0 < n
  pub in_window : n < s.capacity
  pub missing : (q : ℕ) → s.expected ≤ q → q < s.expected + n → holds s q ≡ false
  pub held_behind : holds s (s.expected + n) ≡ true

module _ {P : Delivery → Type 0} {s : Sequencer} (v : IsValid P s) (waiting : 0 < s.pending) where
  -- The run ends at a held sequence.
  pub run_ends : (missing_run s < s.capacity) × (s.expected + missing_run s + s.capacity < u64_mod)
  unfolding missing_run
  run_ends =
      let r = missing_from-IsRun s.capacity 0 s (omega arith) in
      let (i, lt, marked) =
        count-exists s.capacity (λ i. (s.slots i).present) (omega (arith, v.window.counted)) in
      let held = placed-holds v.window i lt marked in
      let (lo, hi, room) = held_bounds v.window (s.slots i).seq held in
      let offset = (s.slots i).seq - s.expected in
      let back : add64 s.expected offset ≡ (s.slots i).seq =
        add64_fits s.expected offset (omega arith) ∙ omega arith in
      elim (dec_le (missing_from s.capacity 0 s) offset) [
        | yes le ↦ (omega arith, omega arith)
        | no far ↦
            absurd (ground (arith, r.absent offset (omega arith) (omega arith), ap (holds s) back))
      ]

  pub missing_run-IsHole : IsHole s (missing_run s)
  unfolding missing_run
  missing_run-IsHole =
      let r = missing_from-IsRun s.capacity 0 s (omega arith) in
      let n = missing_from s.capacity 0 s in
      let (inside, room) = run_ends in
      let at : (j : ℕ) → j ≤ n → add64 s.expected j ≡ s.expected + j =
        λ j h. add64_fits s.expected j (omega arith) in
      let held : holds s (s.expected + n) ≡ true = rw (← at n (omega arith)) (r.stops inside) in
      record {
        some_missing = elim (dec_le n 0) [
          | no pos ↦ omega arith
          | yes none_left ↦
              let here : s.expected + n ≡ s.expected = omega arith in
              absurd (ground (arith, ap (holds s) here, held, v.front))
        ];
        in_window = inside;
        missing = λ q lo hi.
            let j = q - s.expected in
            let back : add64 s.expected j ≡ q = at j (omega arith) ∙ omega arith in
            sym (ap (holds s) back) ∙ r.absent j (omega arith) (omega arith);
        held_behind = held;
      }
