-- ===== src/OrderMap/Move.antt =====
-- A step of the backward shift of include/tick/flat_order_map.hpp that moves an entry into the hole.
use native.Mathlib.Decide.{ℕ_discrete}
use tickerplant.Prelude.{
  ℕ, ◌+◌, ◌-◌, ◌≤◌, ◌<◌, ◌≡◌, ◌≢◌, refl, sym, ap, ◌∙◌, subst, ◌⊎◌, inl, inr, false, arith, ◌==◌,
  update, if◌then◌else◌,
}
use tickerplant.OrderMap.Table.{cyclically_between}
use tickerplant.OrderMap.Ring.{
  fwd, back, dist, fwd_below, dist_below, fwd-fwd, fwd_zero, fwd_injective, dist-past, back-past,
}
use tickerplant.OrderMap.Found.{update_same, update_other, update-ne-zero}
use tickerplant.OrderMap.Shift.{IsShifting, cursor-ne-hole, two_ahead, not_between}

-- The slot that an entry in slot `i` was in before.
abbrev came_from : ℕ → ℕ → ℕ → ℕ
came_from hole cursor i = if i == hole then cursor else i

came_from_hole : (hole cursor i : ℕ) → i ≡ hole → came_from hole cursor i ≡ cursor
came_from_hole hole cursor i e = ground (arith, e)

came_from_other : (hole cursor i : ℕ) → i ≢ hole → came_from hole cursor i ≡ i
came_from_other hole cursor i e = ground (arith, e)

came_from_below : (hole cursor i c : ℕ) → cursor < c → i < c → came_from hole cursor i < c
came_from_below hole cursor i c h k = ground arith

came_from_injective :
    (hole cursor i j : ℕ)
    → i ≢ cursor
    → j ≢ cursor
    → came_from hole cursor i ≡ came_from hole cursor j
    → i ≡ j
came_from_injective hole cursor i j ni nj e = ground arith

module _ (c : ℕ) (home : ℕ → ℕ) (home_below : (x : ℕ) → home x < c) (keys : ℕ → ℕ) (hole d g : ℕ)
    (s : IsShifting c home keys hole d g) where
  abbrev cursor : ℕ
  cursor = fwd c hole (d + 1)

  apart : cursor ≢ hole
  apart = cursor-ne-hole c home home_below keys hole d g s

  -- The keys once the entry at the cursor is in the hole.
  abbrev moved : ℕ → ℕ
  moved = update (update keys hole (keys cursor)) cursor 0

  moved_other : (q : ℕ) → q ≢ cursor → q ≢ hole → moved q ≡ keys q
  moved_other q nc nh =
      update_other (update keys hole (keys cursor)) cursor 0 q nc
      ∙ update_other keys hole (keys cursor) q nh

  moved_hole : moved hole ≡ keys cursor
  moved_hole =
      update_other (update keys hole (keys cursor)) cursor 0 hole (λ q. apart (sym q))
      ∙ update_same keys hole (keys cursor) hole refl

  moved-cursor : moved cursor ≡ 0
  moved-cursor = update_same (update keys hole (keys cursor)) cursor 0 cursor refl

  taken_after : keys cursor ≢ 0 → (q : ℕ) → (keys q ≢ 0) ⊎ (q ≡ hole) → (moved q ≢ 0) ⊎ (q ≡ cursor)
  taken_after taken q h = elim (ℕ_discrete q cursor) [
    | yes e ↦ inr e
    | no ne ↦ inl (
        subst (λ k. k ≢ 0) (sym (update_other (update keys hole (keys cursor)) cursor 0 q ne))
          (update-ne-zero keys hole (keys cursor) q taken h))
  ]

  -- Where the entry of a slot was before.
  abbrev before : ℕ → ℕ
  before = came_from hole cursor

  moved-before : (i : ℕ) → moved i ≢ 0 → (i ≢ cursor) × (moved i ≡ keys (before i))
  moved-before i ni =
      let nc : i ≢ cursor = λ q. ni (ap moved q ∙ moved-cursor) in
      let at : moved i ≡ keys (before i) = elim (ℕ_discrete i hole) [
        | yes e ↦ ap moved e ∙ moved_hole ∙ ap keys (sym (came_from_hole hole cursor i e))
        | no ne ↦ moved_other i nc ne ∙ ap keys (sym (came_from_other hole cursor i ne))
      ] in
      (nc, at)

  not_at : (e : ℕ) → e < c → d + g ≢ e → fwd c hole (d + g) ≢ fwd c hole e
  not_at e h ne q = ne (fwd_injective c hole s.below (d + g) e s.room h q)

  -- Behind the hole the path of the entry that moves was free of it.
  behind_hole :
      keys cursor ≢ 0
      → d + 1 < c
      → d + 1 ≤ dist c (home (keys cursor)) cursor
      → (i e : ℕ) → i ≡ hole
      → 1 ≤ e
      → e ≤ dist c (home (keys cursor)) i
      → (keys (back c i e) ≢ 0) ⊎ (back c i e ≡ hole)
  behind_hole taken small far i e at pos le =
      let k = home (keys cursor) in
      let cb : cursor < c = fwd_below c hole s.below (d + 1) small in
      let le' : e ≤ dist c k hole = subst (λ j. e ≤ dist c k j) at le in
      let past = dist-past c hole s.below k (d + 1) (home_below (keys cursor)) small far in
      let in_ring : dist c k cursor < c = dist_below c cursor cb k (home_below (keys cursor)) in
      let q : back c cursor (d + 1 + e) ≡ back c i e =
        back-past c hole s.below (d + 1) e (omega arith) ∙ ap (λ j. back c j e) (sym at) in
      elim (s.path cursor (d + 1 + e) cb taken (omega arith) (omega arith)) [
        | inl full ↦ inl (subst (λ j. keys j ≢ 0) q full)
        | inr met ↦ inr (sym q ∙ met)
      ]

  pub move-IsShifting :
      keys cursor ≢ 0
      → cyclically_between hole (home (keys cursor)) cursor ≡ false
      → IsShifting c home moved cursor 0 (g - 1)
  move-IsShifting taken b =
      let two = two_ahead c home home_below keys hole d g s taken in
      let small : d + 1 < c = omega (arith, s.room) in
      let cb : cursor < c = fwd_below c hole s.below (d + 1) small in
      let far =
        not_between c hole (home (keys cursor)) (d + 1) s.below (home_below (keys cursor))
          (omega arith) small b in
      record {
        below = fwd_below c hole s.below (d + 1) small;
        here = moved-cursor;
        unique = λ i j hi hj ni e.
            let (ic, iv) = moved-before i ni in
            let (jc, jv) = moved-before j (subst (λ k. k ≢ 0) e ni) in
            came_from_injective hole cursor i j ic jc (
              s.unique (before i) (before j) (came_from_below hole cursor i c cb hi)
                (came_from_below hole cursor j c cb hj) (subst (λ k. k ≢ 0) iv ni)
                (sym iv ∙ e ∙ jv));
        path = λ i e hi ni pos le. elim (ℕ_discrete i hole) [
          | yes at ↦ taken_after taken (back c i e) (
              behind_hole taken small far i e at pos
                (subst (λ k. e ≤ dist c (home k) i) (ap moved at ∙ moved_hole) le))
          | no other ↦
              let same = moved_other i (λ q. ni (ap moved q ∙ moved-cursor)) other in
              taken_after taken (back c i e) (
                s.path i e hi (subst (λ k. k ≢ 0) same ni) pos
                  (subst (λ k. e ≤ dist c (home k) i) same le))
        ];
        run = λ e pos le. absurd (omega arith);
        ahead = omega arith;
        room = omega (arith, s.room);
        end =
            let on : d + 1 + (0 + (g - 1)) ≡ d + g = omega arith in
            let q : fwd c cursor (0 + (g - 1)) ≡ fwd c hole (d + g) =
              fwd-fwd c hole s.below (d + 1) (0 + (g - 1)) (omega (arith, s.room))
              ∙ ap (fwd c hole) on in
            ap moved q
            ∙ moved_other (fwd c hole (d + g)) (not_at (d + 1) small (omega arith))
                (λ r. not_at 0 (omega arith) (omega arith) (r ∙ sym (fwd_zero c hole s.below)))
            ∙ s.end;
      }
