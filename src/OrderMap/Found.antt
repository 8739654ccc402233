-- ===== src/OrderMap/Found.antt =====
-- A probe of include/tick/flat_order_map.hpp finds the key where it is, and a free slot where it is
-- not; a key that is put there keeps every probe whole.
use native.Mathlib.Decide.{ℕ_discrete, dec_lt}
use tickerplant.Prelude.{
  ℕ, ◌-◌, ◌≤◌, ◌<◌, ◌≡◌, ◌≢◌, sym, ap, ◌∙◌, subst, ◌⊎◌, inl, inr, arith, update,
}
use tickerplant.OrderMap.Ring.{fwd, back, dist, fwd_below, fwd-dist, dist_below, dist-fwd, back-fwd}
use tickerplant.OrderMap.Probe.{IsProbed, Stops}

pub update_same : (f : ℕ → ℕ) (i v j : ℕ) → j ≡ i → update f i v j ≡ v
update_same f i v j e = ground (arith, e)

pub update_other : (f : ℕ → ℕ) (i v j : ℕ) → j ≢ i → update f i v j ≡ f j
update_other f i v j e = ground (arith, e)

pub update-ne-zero : (f : ℕ → ℕ) (i v j : ℕ) → v ≢ 0 → (f j ≢ 0) ⊎ (j ≡ i) → update f i v j ≢ 0
update-ne-zero f i v j nv h = elim (ℕ_discrete j i) [
  | yes e ↦ subst (λ w. w ≢ 0) (sym (update_same f i v j e)) nv
  | no ne ↦
      subst (λ w. w ≢ 0) (sym (update_other f i v j ne))
        (elim h [ inl k ↦ k | inr e ↦ absurd (ne e) ])
]

module _ (c : ℕ) (home : ℕ → ℕ) (home_below : (x : ℕ) → home x < c) (keys : ℕ → ℕ)
    (p : IsProbed c home keys) where
  pub stop_at_key :
      (x m r i : ℕ) → x ≢ 0 → m < c → i < c → keys i ≡ x → Stops c keys x (home x) m r → r ≡ i
  stop_at_key x m r i nx small lt e s =
      let d = dist c (home x) i in
      let there : fwd c (home x) d ≡ i = fwd-dist c i lt (home x) (home_below x) in
      let d_small : d < c = dist_below c i lt (home x) (home_below x) in
      elim (dec_lt m d) [
        | yes early ↦
            let e2 : d - (d - m) ≡ m = omega arith in
            let on_path : back c i (d - m) ≡ r =
              ap (λ k. back c k (d - m)) (sym there)
              ∙ back-fwd c (home x) (home_below x) d (d - m) d_small (omega arith)
              ∙ ap (fwd c (home x)) e2
              ∙ sym s.at in
            let taken : keys (back c i (d - m)) ≢ 0 =
              p.path i (d - m) lt (subst (λ k. k ≢ 0) (sym e) nx) (omega arith)
                (subst (λ k. d - m ≤ dist c (home k) i) (sym e) (omega arith)) in
            elim s.hit [
              | inl key ↦
                  p.unique r i
                    (subst (λ k. k < c) (sym s.at) (fwd_below c (home x) (home_below x) m small)) lt
                    (subst (λ k. k ≢ 0) (sym key) nx) (key ∙ sym e)
              | inr free ↦ absurd (taken (ap keys on_path ∙ free))
            ]
        | no late ↦ elim (ℕ_discrete m d) [
          | yes same ↦ s.at ∙ ap (fwd c (home x)) same ∙ there
          | no more ↦ absurd ((s.others d (omega arith)).0 (ap keys there ∙ e))
        ]
      ]

  pub place-IsProbed :
      (x m r : ℕ)
      → x ≢ 0
      → m < c
      → keys r ≡ 0
      → ((i : ℕ) → i < c → keys i ≢ x)
      → Stops c keys x (home x) m r
      → IsProbed c home (update keys r x)
  place-IsProbed x m r nx small free absent s = record {
    unique = λ i j hi hj ni e. elim (ℕ_discrete i r) [
      | yes ir ↦ elim (ℕ_discrete j r) [
        | yes jr ↦ ir ∙ sym jr
        | no jr ↦
            absurd
              (absent j hj (sym (update_other keys r x j jr) ∙ sym e ∙ update_same keys r x i ir))
      ]
      | no ir ↦ elim (ℕ_discrete j r) [
        | yes jr ↦
            absurd (absent i hi (sym (update_other keys r x i ir) ∙ e ∙ update_same keys r x j jr))
        | no jr ↦
            p.unique i j hi hj (subst (λ k. k ≢ 0) (update_other keys r x i ir) ni)
              (sym (update_other keys r x i ir) ∙ e ∙ update_other keys r x j jr)
      ]
    ];
    path = λ i e hi ni pos le. elim (ℕ_discrete i r) [
      | yes ir ↦
          let far : e ≤ m =
            subst (λ k. e ≤ k)
              (ap (λ y. dist c (home y) i) (update_same keys r x i ir)
                ∙ ap (dist c (home x)) (ir ∙ s.at)
                ∙ dist-fwd c (home x) (home_below x) m small)
              le in
          let q : fwd c (home x) (m - e) ≡ back c i e =
            sym (back-fwd c (home x) (home_below x) m e small far)
            ∙ ap (λ k. back c k e) (sym (ir ∙ s.at)) in
          update-ne-zero keys r x (back c i e) nx
            (inl (subst (λ k. keys k ≢ 0) q (s.others (m - e) (omega arith)).1))
      | no ir ↦
          let same = update_other keys r x i ir in
          update-ne-zero keys r x (back c i e) nx (
            inl (
              p.path i e hi (subst (λ k. k ≢ 0) same ni) pos
                (subst (λ k. e ≤ dist c (home k) i) same le)))
    ];
  }
