-- ===== src/OrderMap/Free.antt =====
-- The free slots of a table of include/tick/flat_order_map.hpp.
use tickerplant.Prelude.{
  ℕ, ◌+◌, ◌<◌, ◌≡◌, ◌≢◌, refl, sym, ap, ◌∙◌, subst, true, false, arith, ==_iff, ◌==◌, update, count,
  count_change, to_nat,
}
use tickerplant.OrderMap.Table.{FlatOrderMap}
use tickerplant.OrderMap.Found.{update_same, update_other}
use tickerplant.OrderMap.Held.{move_entry}

abbrev pub free : ℕ → (ℕ → ℕ) → ℕ
free c keys = count c (λ i. keys i == 0)

pub free-update :
    (c i v : ℕ) (keys : ℕ → ℕ)
    → i < c
    → free c (update keys i v) + to_nat (keys i == 0) ≡ free c keys + to_nat (v == 0)
free-update c i v keys lt =
    let at : update keys i v i ≡ v = update_same keys i v i refl in
    subst (λ w. free c (update keys i v) + to_nat (keys i == 0) ≡ free c keys + to_nat (w == 0)) at
      (count_change c i (λ k. keys k == 0) (λ k. update keys i v k == 0) lt
        (λ k ne. ap (λ w. w == 0) (update_other keys i v k ne)))

-- A slot that is taken over.
pub free_taken :
    (c i v : ℕ) (keys : ℕ → ℕ)
    → i < c
    → keys i ≡ 0
    → v ≢ 0
    → free c (update keys i v) + 1 ≡ free c keys
free_taken c i v keys lt e nv =
    let a : (keys i == 0) ≡ true = (==_iff (keys i) 0).1 e in
    let b : (v == 0) ≡ false = ground (arith, nv) in ground (arith, free-update c i v keys lt)

-- A slot that is given up.
pub free_given :
    (c i : ℕ) (keys : ℕ → ℕ) → i < c → keys i ≢ 0 → free c (update keys i 0) ≡ free c keys + 1
free_given c i keys lt e =
    let a : (keys i == 0) ≡ false = ground (arith, e) in ground (arith, free-update c i 0 keys lt)

pub free-move_entry :
    {V : Type 0} (hole j : ℕ) (t : FlatOrderMap V)
    → hole < t.cap
    → j < t.cap
    → j ≢ hole
    → t.keys hole ≡ 0
    → t.keys j ≢ 0
    → free t.cap (move_entry hole j t).keys ≡ free t.cap t.keys
free-move_entry hole j t hh hj apart e taken =
    let k1 = update t.keys hole (t.keys j) in
    let at : k1 j ≡ t.keys j = update_other t.keys hole (t.keys j) j apart in
    free_given t.cap j k1 hj (subst (λ w. w ≢ 0) (sym at) taken)
    ∙ free_taken t.cap hole (t.keys j) t.keys hh e taken
