-- ===== src/Sequencer/Front.antt =====
-- The loops of include/tick/sequencer.hpp that move the front of the stream: they end by their own
-- tests, never go back, and lose nothing that is held and not yet delivered.
use tickerplant.Prelude.{
  ℕ, zero, suc, ◌+◌, ◌≤◌, ◌<◌, ◌≡◌, ◌⊎◌, true, false, List, [], ◌∷◌, arith, u64_mod, Bool-cases,
  ◌==◌, inl, inr, refl, ◌∙◌, ltb, ltb→ge, ltb→lt, count-le,
}
use tickerplant.Sequencer.State.{Sequencer, Delivery, slot_index, slot_of, holds}
use tickerplant.Sequencer.Window.{
  release_front, advance, drop_one, skip_one, drain_loop, drain, skip_loop,
}
use tickerplant.Sequencer.Invariant.{Window}
use tickerplant.Sequencer.Steps.{
  front_seq, release-pending, release-expected, release-Window, pass-expected, pass-Window,
}

-- What no move of the window touches.
pub record IsFixed (s t : Sequencer) : Type 0 where
  pub capacity : t.capacity ≡ s.capacity
  pub max_payload : t.max_payload ≡ s.max_payload
  pub started : t.started ≡ s.started

-- `t` comes from `s` by moving the front: what was held is delivered or abandoned below the front,
-- or is still held.
pub record Advances (P : Delivery → Type 0) (s t : Sequencer) : Type 0 where
  pub window : Window P t
  pub fixed : IsFixed s t
  pub forward : s.expected ≤ t.expected
  pub fewer : t.pending ≤ s.pending
  pub keeps : (q : ℕ) → holds s q ≡ true → (q < t.expected) ⊎ (holds t q ≡ true)
  pub only : (q : ℕ) → holds t q ≡ true → holds s q ≡ true

module _ {P : Delivery → Type 0} where
  pub Advances-refl : {s : Sequencer} → Window P s → Advances P s s
  Advances-refl w = record {
    window = w;
    fixed = record { capacity = refl; max_payload = refl; started = refl };
    forward = omega arith;
    fewer = omega arith;
    keeps = λ q h. inr h;
    only = λ q h. h;
  }

  pub Advances-trans : {s t u : Sequencer} → Advances P s t → Advances P t u → Advances P s u
  Advances-trans {s} {t} {u} a b = record {
    window = b.window;
    fixed = record {
      capacity = b.fixed.capacity ∙ a.fixed.capacity;
      max_payload = b.fixed.max_payload ∙ a.fixed.max_payload;
      started = b.fixed.started ∙ a.fixed.started;
    };
    forward = omega (arith, a.forward, b.forward);
    fewer = omega (arith, a.fewer, b.fewer);
    only = λ q h. a.only q (b.only q h);
    keeps = λ q h. elim (a.keeps q h) [
      | inl below ↦ inl (omega (arith, b.forward))
      | inr held ↦ b.keeps q held
    ];
  }

-- The deliveries run from `first` to just below `n` with none missing.
abbrev pub Unbroken : ℕ → ℕ → List Delivery → Type 0
Unbroken first n [] = n ≡ first
Unbroken first n ((q, p) ∷ ds) = (n ≡ suc q) × Unbroken first q ds

module _ {P : Delivery → Type 0} {s : Sequencer} (w : Window P s) where
  release-keeps :
      holds s s.expected ≡ true
      → (q : ℕ) → holds s q ≡ true
      → (q < (advance (release_front s)).expected) ⊎ (holds (advance (release_front s)) q ≡ true)
  unfolding holds slot_of release_front advance
  release-keeps e q h = elim (Bool-cases (slot_index s q == slot_index s s.expected)) [
    | inl same ↦ inl (ground (arith, release-expected w e, front_seq w e))
    | inr other ↦ inr (ground arith)
  ]

  release-only :
      holds s s.expected ≡ true
      → (q : ℕ) → holds (advance (release_front s)) q ≡ true
      → holds s q ≡ true
  unfolding holds slot_of release_front advance
  release-only e q h = elim (Bool-cases (slot_index s q == slot_index s s.expected)) [
    | inl same ↦ ground arith
    | inr other ↦ ground arith
  ]

  pub release-Advances : holds s s.expected ≡ true → Advances P s (advance (release_front s))
  unfolding release_front advance
  release-Advances e = record {
    window = release-Window w e;
    fixed = record { capacity = refl; max_payload = refl; started = refl };
    forward = omega (arith, release-expected w e);
    fewer = omega (arith, release-pending w e);
    keeps = release-keeps e;
    only = release-only e;
  }

  pub pass-Advances :
      s.expected + s.capacity < u64_mod
      → holds s s.expected ≡ false
      → Advances P s (advance (drop_one s))
  unfolding drop_one advance holds slot_of
  pass-Advances room e = record {
    window = pass-Window w room e;
    fixed = record { capacity = refl; max_payload = refl; started = refl };
    forward = omega (arith, pass-expected w room e);
    fewer = omega arith;
    keeps = λ q h. inr h;
    only = λ q h. h;
  }

release-Unbroken :
    {P : Delivery → Type 0} {s : Sequencer} (w : Window P s) (e : holds s s.expected ≡ true)
    (first : ℕ)
    → Unbroken first s.expected s.sent
    → Unbroken first (advance (release_front s)).expected (advance (release_front s)).sent
unfolding release_front advance
release-Unbroken w e first u = (omega (arith, release-expected w e), u)

module _ {P : Delivery → Type 0} where
  -- With a round for each held message, `drain` ends by its own test.
  drain_loop-Advances :
      (f : ℕ) (s : Sequencer)
      → Window P s
      → s.pending < f
      → Advances P s (drain_loop f s)
        × (holds (drain_loop f s) (drain_loop f s).expected ≡ false)
        × ((drain_loop f s).state ≡ s.state)
        × ((first : ℕ)
            → Unbroken first s.expected s.sent
            → Unbroken first (drain_loop f s).expected (drain_loop f s).sent)
  unfolding drain_loop
  drain_loop-Advances zero s w h = absurd (omega arith)
  drain_loop-Advances (suc f) s w h = elim (Bool-cases (holds s s.expected)) [
    | inr e ↦ rw (e, drain_loop) (Advances-refl w, e, refl, λ first u. u)
    | inl e ↦
        let (a, stop, same, run) =
          drain_loop-Advances f (advance (release_front s)) (release-Window w e)
            (omega (arith, release-pending w e)) in
        rw (e, drain_loop)
          (
            Advances-trans (release-Advances w e) a,
            stop,
            same,
            λ first u. run first (release-Unbroken w e first u),
          )
  ]

  -- It stops at the latest where everything held ends.
  drain_loop_limit :
      (f n : ℕ) (s : Sequencer)
      → Window P s
      → s.expected ≤ n
      → ((q : ℕ) → holds s q ≡ true → q < n)
      → (drain_loop f s).expected ≤ n
  unfolding drain_loop
  drain_loop_limit zero n s w lo up = lo
  drain_loop_limit (suc f) n s w lo up = elim (Bool-cases (holds s s.expected)) [
    | inr e ↦ rw (e, drain_loop) lo
    | inl e ↦
        let a = release-Advances w e in
        rw (e, drain_loop)
          (drain_loop_limit f n (advance (release_front s)) a.window
            (omega (arith, release-expected w e, up s.expected e)) (λ q h. up q (a.only q h)))
  ]

  pub drain_limit :
      (n : ℕ) {s : Sequencer}
      → Window P s
      → s.expected ≤ n
      → ((q : ℕ) → holds s q ≡ true → q < n)
      → (drain s).expected ≤ n
  unfolding drain
  drain_limit n {s} w lo up = drain_loop_limit (s.capacity + 1) n s w lo up

  pub drain-Advances :
      {s : Sequencer}
      → Window P s
      → Advances P s (drain s)
        × (holds (drain s) (drain s).expected ≡ false)
        × ((drain s).state ≡ s.state)
        × ((first : ℕ)
            → Unbroken first s.expected s.sent
            → Unbroken first (drain s).expected (drain s).sent)
  unfolding drain
  drain-Advances {s} w =
      drain_loop-Advances (s.capacity + 1) s w
        (omega (arith, w.counted, count-le s.capacity (λ i. (s.slots i).present)))

  skip_one-Advances :
      {s : Sequencer}
      → Window P s
      → s.expected + s.capacity < u64_mod
      → Advances P s (skip_one s) × ((skip_one s).expected ≡ s.expected + 1)
  unfolding skip_one
  skip_one-Advances {s} w room = elim (Bool-cases (holds s s.expected)) [
    | inl e ↦ rw e (release-Advances w e, release-expected w e)
    | inr e ↦ rw e (pass-Advances w room e, pass-expected w room e)
  ]

  -- `skip_to` walks exactly to its target.
  pub skip_loop-Advances :
      (f target : ℕ) (s : Sequencer)
      → Window P s
      → s.expected ≤ target
      → target + s.capacity ≤ u64_mod
      → target < s.expected + f + 1
      → Advances P s (skip_loop f target s) × ((skip_loop f target s).expected ≡ target)
  unfolding skip_loop
  skip_loop-Advances zero target s w lo room near = (Advances-refl w, omega arith)
  skip_loop-Advances (suc f) target s w lo room near = elim (Bool-cases (ltb s.expected target)) [
    | inr e ↦ rw (e, skip_loop) (Advances-refl w, omega (arith, ltb→ge s.expected target e))
    | inl e ↦
        let lt = ltb→lt s.expected target e in
        let (step, moved) = skip_one-Advances w (omega arith) in
        let (rest, there) =
          skip_loop-Advances f target (skip_one s) step.window (omega arith)
            (rw step.fixed.capacity room) (omega arith) in
        rw (e, skip_loop) (Advances-trans step rest, there)
  ]
