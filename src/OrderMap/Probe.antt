-- ===== src/OrderMap/Probe.antt =====
-- What the arrays of include/tick/flat_order_map.hpp keep, and where a probe over them stops.
use native.Mathlib.Decide.{ℕ_discrete}
use tickerplant.Prelude.{
  ℕ, zero, suc, ◌+◌, ◌-◌, ◌≤◌, ◌<◌, ◌≡◌, ◌≢◌, sym, ap, ◌∙◌, subst, ◌⊎◌, inl, inr, false, Bool-cases,
  ==_iff, arith, ◌==◌,
}
use tickerplant.OrderMap.Table.{next, seek}
use tickerplant.OrderMap.Ring.{fwd, back, dist, fwd_below, fwd_zero, fwd-fwd}

-- Keys are on the slots once each, and the slots between the home of a key and its place are taken.
pub record IsProbed (c : ℕ) (home : ℕ → ℕ) (keys : ℕ → ℕ) : Type 0 where
  pub unique : (i j : ℕ) → i < c → j < c → keys i ≢ 0 → keys i ≡ keys j → i ≡ j
  pub path :
      (i e : ℕ) → i < c → keys i ≢ 0 → 1 ≤ e → e ≤ dist c (home (keys i)) i → keys (back c i e) ≢ 0

-- A probe for `x` from `i` goes `m` slots past others' keys and stops at `r`.
pub record Stops (c : ℕ) (keys : ℕ → ℕ) (x i m r : ℕ) : Type 0 where
  pub at : r ≡ fwd c i m
  pub others : (e : ℕ) → e < m → (keys (fwd c i e) ≢ x) × (keys (fwd c i e) ≢ 0)
  pub hit : (keys r ≡ x) ⊎ (keys r ≡ 0)

module _ (c mask : ℕ) (nexts : (i : ℕ) → i < c → next mask i ≡ fwd c i 1) where
  Stops-suc :
      (keys : ℕ → ℕ) (x i m r : ℕ)
      → i < c
      → suc m < c
      → keys i ≢ x
      → keys i ≢ 0
      → Stops c keys x (fwd c i 1) m r
      → Stops c keys x i (suc m) r
  Stops-suc keys x i m r lt small nx n0 s = record {
    at =
        let e : 1 + m ≡ suc m = omega arith in
        s.at ∙ fwd-fwd c i lt 1 m (omega arith) ∙ ap (fwd c i) e;
    others = λ e h. elim (ℕ_discrete e 0) [
      | yes z ↦
          let q : fwd c i e ≡ i = ap (fwd c i) z ∙ fwd_zero c i lt in
          (subst (λ k. keys k ≢ x) (sym q) nx, subst (λ k. keys k ≢ 0) (sym q) n0)
      | no p ↦
          let back_one : 1 + (e - 1) ≡ e = omega arith in
          let q : fwd c (fwd c i 1) (e - 1) ≡ fwd c i e =
            fwd-fwd c i lt 1 (e - 1) (omega arith) ∙ ap (fwd c i) back_one in
          subst (λ k. (keys k ≢ x) × (keys k ≢ 0)) q (s.others (e - 1) (omega arith))
    ];
    hit = s.hit;
  }

  differs : (keys : ℕ → ℕ) (x i : ℕ) → (keys i == x) ≡ false → keys i ≢ x
  differs keys x i h = λ e. ground (arith, e)

  pub seek-Stops :
      (f : ℕ) (keys : ℕ → ℕ) (x i n : ℕ)
      → i < c
      → n < c
      → n < f
      → keys (fwd c i n) ≡ 0
      → (m : ℕ) × (m ≤ n) × Stops c keys x i m (seek f keys mask x i).0
  unfolding seek
  seek-Stops zero keys x i n lt small h e = absurd (omega arith)
  seek-Stops (suc f) keys x i n lt small h e = elim (Bool-cases (keys i == x)) [
    | inl found ↦ rw found (
      0,
      omega arith,
      record {
        at = sym (fwd_zero c i lt);
        others = λ e h. absurd (omega arith);
        hit = inl ((==_iff (keys i) x).0 found);
      },
    )
    | inr other ↦ elim (Bool-cases (keys i == 0)) [
      | inl free ↦
          rw (other, free)
            (
              0,
              omega arith,
              record {
                at = sym (fwd_zero c i lt);
                others = λ e h. absurd (omega arith);
                hit = inr ((==_iff (keys i) 0).0 free);
              },
            )
      | inr taken ↦ elim (ℕ_discrete n 0) [
        | yes z ↦
            let here : keys i ≡ 0 =
              sym (ap keys (fwd_zero c i lt)) ∙ ap (λ k. keys (fwd c i k)) (sym z) ∙ e in
            absurd (differs keys 0 i taken here)
        | no p ↦
            let there : 1 + (n - 1) ≡ n = omega arith in
            let q : fwd c (fwd c i 1) (n - 1) ≡ fwd c i n =
              fwd-fwd c i lt 1 (n - 1) (omega arith) ∙ ap (fwd c i) there in
            let (m, le, s) =
              seek-Stops f keys x (fwd c i 1) (n - 1) (fwd_below c i lt 1 (omega arith))
                (omega arith) (omega arith) (ap keys q ∙ e) in
            rw (other, taken, nexts i lt)
              (
                suc m,
                omega arith,
                Stops-suc keys x i m _ lt (omega arith) (differs keys x i other)
                    (differs keys 0 i taken) s,
              )
      ]
    ]
  ]
