-- ===== src/OrderMap/Held.antt =====
-- The entries of a table of include/tick/flat_order_map.hpp, wherever they stand, and the backward
-- shift, which keeps them.
use native.Mathlib.Decide.{ℕ_discrete}
use tickerplant.Prelude.{
  ℕ, ◌<◌, ◌≡◌, ◌≢◌, refl, sym, ap, ◌∙◌, true, false, ==_iff, arith, ◌==◌, update, if◌then◌else◌,
}
use tickerplant.OrderMap.Table.{FlatOrderMap}
use tickerplant.OrderMap.Found.{update_same, update_other}

-- The table holds the value `v` for the key `x`.
abbrev pub Held : {V : Type 0} → FlatOrderMap V → ℕ → V → Type 0
Held t x v = (i : ℕ) × (i < t.cap) × (t.keys i ≡ x) × (t.vals i ≡ v)

-- Two tables of one shape hold the same.
pub record IsSame {V : Type 0} (t t' : FlatOrderMap V) : Type 0 where
  pub cap : t'.cap ≡ t.cap
  pub mask : t'.mask ≡ t.mask
  pub size : t'.size ≡ t.size
  pub held : (x : ℕ) (v : V) → x ≢ 0 → Held t x v → Held t' x v
  pub held_back : (x : ℕ) (v : V) → x ≢ 0 → Held t' x v → Held t x v

pub IsSame-refl : {V : Type 0} (t : FlatOrderMap V) → IsSame t t
IsSame-refl t = record {
  cap = refl;
  mask = refl;
  size = refl;
  held = λ x v n h. h;
  held_back = λ x v n h. h;
}

pub IsSame-trans : {V : Type 0} (a b c : FlatOrderMap V) → IsSame a b → IsSame b c → IsSame a c
IsSame-trans a b c h k = record {
  cap = k.cap ∙ h.cap;
  mask = k.mask ∙ h.mask;
  size = k.size ∙ h.size;
  held = λ x v n e. k.held x v n (h.held x v n e);
  held_back = λ x v n e. h.held_back x v n (k.held_back x v n e);
}

pub val_same : {V : Type 0} (f : ℕ → V) (i : ℕ) (v : V) (j : ℕ) → j ≡ i → update f i v j ≡ v
val_same f i v j e = let t : (j == i) ≡ true = (==_iff j i).1 e in ap (λ b. if b then v else f j) t

pub val_other : {V : Type 0} (f : ℕ → V) (i : ℕ) (v : V) (j : ℕ) → j ≢ i → update f i v j ≡ f j
val_other f i v j ne =
    let t : (j == i) ≡ false = ground (arith, ne) in ap (λ b. if b then v else f j) t

-- One step of the shift: the entry at the cursor goes into the hole.
abbrev pub move_entry : {V : Type 0} → ℕ → ℕ → FlatOrderMap V → FlatOrderMap V
move_entry hole j t = record t {
  keys = update (update t.keys hole (t.keys j)) j 0;
  vals = update t.vals hole (t.vals j);
}

pub move_entry-IsSame :
    {V : Type 0} (hole j : ℕ) (t : FlatOrderMap V)
    → hole < t.cap
    → j < t.cap
    → j ≢ hole
    → t.keys hole ≡ 0
    → IsSame t (move_entry hole j t)
move_entry-IsSame hole j t hh hj apart free =
    let at_hole : (move_entry hole j t).keys hole ≡ t.keys j =
      update_other (update t.keys hole (t.keys j)) j 0 hole (λ q. apart (sym q))
      ∙ update_same t.keys hole (t.keys j) hole refl in
    let elsewhere : (i : ℕ) → i ≢ j → i ≢ hole → (move_entry hole j t).keys i ≡ t.keys i =
      λ i nj nh.
        update_other (update t.keys hole (t.keys j)) j 0 i nj
        ∙ update_other t.keys hole (t.keys j) i nh in
    record {
      cap = refl;
      mask = refl;
      size = refl;
      held = λ x v n (i, lt, k, w). elim (ℕ_discrete i j) [
        | yes e ↦ (
          hole,
          hh,
          at_hole ∙ ap t.keys (sym e) ∙ k,
          val_same t.vals hole (t.vals j) hole refl ∙ ap t.vals (sym e) ∙ w,
        )
        | no ne ↦
            let nh : i ≢ hole = λ q. n (sym k ∙ ap t.keys q ∙ free) in
            (i, lt, elsewhere i ne nh ∙ k, val_other t.vals hole (t.vals j) i nh ∙ w)
      ];
      held_back = λ x v n (i, lt, k, w). elim (ℕ_discrete i hole) [
        | yes e ↦ (
          j,
          hj,
          sym at_hole ∙ ap (move_entry hole j t).keys (sym e) ∙ k,
          sym (val_same t.vals hole (t.vals j) i e) ∙ w,
        )
        | no nh ↦ elim (ℕ_discrete i j) [
          | yes e ↦ absurd (n (sym k ∙ update_same (update t.keys hole (t.keys j)) j 0 i e))
          | no ne ↦
              (i, lt, sym (elsewhere i ne nh) ∙ k, sym (val_other t.vals hole (t.vals j) i nh) ∙ w)
        ]
      ];
    }
