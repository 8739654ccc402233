-- ===== src/OrderMap/Shift.antt =====
-- The backward shift of include/tick/flat_order_map.hpp: while a hole moves forward through a run of
-- taken slots, a probe is broken at the hole only, and by no entry between the hole and the cursor.
use native.Mathlib.Decide.{ℕ_discrete, dec_le}
use tickerplant.Prelude.{
  ℕ, ◌+◌, ◌-◌, ◌≤◌, ◌<◌, ◌≡◌, ◌≢◌, sym, ap, ◌∙◌, subst, ◌⊎◌, inl, inr, true, false, arith,
}
use tickerplant.OrderMap.Table.{cyclically_between}
use tickerplant.OrderMap.Ring.{
  fwd, back, dist, dist_below, back-fwd, fwd-back, fwd_zero, fwd_injective,
}
use tickerplant.OrderMap.Probe.{IsProbed}

-- The arrays with a hole, and the cursor `d` slots past it; a slot that is free lies `g` further.
pub record IsShifting (c : ℕ) (home : ℕ → ℕ) (keys : ℕ → ℕ) (hole d g : ℕ) : Type 0 where
  pub below : hole < c
  pub here : keys hole ≡ 0
  pub unique : (i j : ℕ) → i < c → j < c → keys i ≢ 0 → keys i ≡ keys j → i ≡ j
  pub path :
      (i e : ℕ)
      → i < c
      → keys i ≢ 0
      → 1 ≤ e
      → e ≤ dist c (home (keys i)) i
      → (keys (back c i e) ≢ 0) ⊎ (back c i e ≡ hole)
  pub run : (e : ℕ) → 1 ≤ e → e ≤ d → dist c (home (keys (fwd c hole e))) (fwd c hole e) < e
  pub ahead : 1 ≤ g
  pub room : d + g < c
  pub end : keys (fwd c hole (d + g)) ≡ 0

-- The test of the code: whether the home of the entry at the cursor lies behind the hole.
between_iff :
    (c hole k d : ℕ)
    → hole < c
    → k < c
    → 0 < d
    → d < c
    → cyclically_between hole k (fwd c hole d) ≡ true
    → dist c k (fwd c hole d) < d
between_iff c hole k d hh hk pos small b = ground arith

pub not_between :
    (c hole k d : ℕ)
    → hole < c
    → k < c
    → 0 < d
    → d < c
    → cyclically_between hole k (fwd c hole d) ≡ false
    → d ≤ dist c k (fwd c hole d)
not_between c hole k d hh hk pos small b = ground arith

module _ (c : ℕ) (home : ℕ → ℕ) (home_below : (x : ℕ) → home x < c) (keys : ℕ → ℕ) (hole d g : ℕ)
    (s : IsShifting c home keys hole d g) where
  -- The slot that the cursor moves to.
  abbrev pub cursor : ℕ
  cursor = fwd c hole (d + 1)

  -- An entry whose probe meets the hole is as far past the hole as the hole is back from it.
  past_hole : (i e : ℕ) → i < c → e < c → back c i e ≡ hole → fwd c hole e ≡ i
  past_hole i e hi he q = ap (λ k. fwd c k e) (sym q) ∙ fwd-back c i hi e he

  pub cursor-ne-hole : cursor ≢ hole
  cursor-ne-hole q =
      let z : d + 1 ≡ 0 =
        fwd_injective c hole s.below (d + 1) 0 (omega (arith, s.ahead, s.room))
          (omega (arith, s.below)) (q ∙ sym (fwd_zero c hole s.below)) in
      absurd (omega arith)

  -- At a free slot no probe meets the hole.
  meets_no_hole :
      keys cursor ≡ 0
      → (i e : ℕ) → i < c
      → keys i ≢ 0
      → 1 ≤ e
      → e ≤ dist c (home (keys i)) i
      → back c i e ≢ hole
  meets_no_hole free i e hi ni pos le q =
      let small : e < c = omega (arith, dist_below c i hi (home (keys i)) (home_below (keys i))) in
      let at : fwd c hole e ≡ i = past_hole i e hi small q in
      elim (dec_le e d) [
        | yes near ↦
            let short : dist c (home (keys i)) i < e =
              subst (λ k. dist c (home (keys k)) k < e) at (s.run e pos near) in
            absurd (omega arith)
        | no far ↦ elim (ℕ_discrete e (d + 1)) [
          | yes same ↦ ni (ap keys (sym at ∙ ap (fwd c hole) same) ∙ free)
          | no more ↦
              let e2 : e - (e - (d + 1)) ≡ d + 1 = omega arith in
              let back_at : back c i (e - (d + 1)) ≡ cursor =
                ap (λ k. back c k (e - (d + 1))) (sym at)
                ∙ back-fwd c hole s.below e (e - (d + 1)) small (omega arith)
                ∙ ap (fwd c hole) e2 in
              elim (s.path i (e - (d + 1)) hi ni (omega arith) (omega arith)) [
                | inl taken ↦ taken (ap keys back_at ∙ free)
                | inr at_hole ↦ cursor-ne-hole (sym back_at ∙ at_hole)
              ]
        ]
      ]

  pub stop-IsProbed : keys cursor ≡ 0 → IsProbed c home keys
  stop-IsProbed free = record {
    unique = s.unique;
    path = λ i e hi ni pos le. elim (s.path i e hi ni pos le) [
      | inl taken ↦ taken
      | inr at_hole ↦ absurd (meets_no_hole free i e hi ni pos le at_hole)
    ];
  }

  -- Past a taken slot there is still the free one.
  pub two_ahead : keys cursor ≢ 0 → 2 ≤ g
  two_ahead taken = elim (ℕ_discrete g 1) [
    | yes one ↦ absurd (taken (ap (λ k. keys (fwd c hole (d + k))) (sym one) ∙ s.end))
    | no more ↦ omega (arith, s.ahead)
  ]

  pub stay-IsShifting :
      keys cursor ≢ 0
      → cyclically_between hole (home (keys cursor)) cursor ≡ true
      → IsShifting c home keys hole (d + 1) (g - 1)
  stay-IsShifting taken b =
      let two = two_ahead taken in
      let same : d + 1 + (g - 1) ≡ d + g = omega arith in
      record {
        below = s.below;
        here = s.here;
        unique = s.unique;
        path = s.path;
        run = λ e pos le. elim (dec_le e d) [
          | yes near ↦ s.run e pos near
          | no far ↦
              let last : d + 1 ≡ e = omega arith in
              subst (λ k. dist c (home (keys (fwd c hole k))) (fwd c hole k) < k) last
                (between_iff c hole (home (keys cursor)) (d + 1) s.below (home_below (keys cursor))
                  (omega arith) (omega (arith, s.room)) b)
        ];
        ahead = omega arith;
        room = omega (arith, s.room);
        end = ap (λ k. keys (fwd c hole k)) same ∙ s.end;
      }
