-- ===== src/Book/Pointers.antt =====
-- The order map and the pool of include/tick/book_builder.hpp against the orders that rest: a reference
-- leads to one place of the pool, and the order is there.
use native.Mathlib.Decide.{ℕ_discrete}
use tickerplant.Prelude.{
  some-injective, none-ne-some, ℕ, ◌≡◌, ◌≢◌, refl, sym, ap, ◌∙◌, subst, Bool, true, false, Option,
  none, some, ◌∷◌, ==_iff, arith, ◌==◌, update, if◌then◌else◌,
}
use tickerplant.OrderMap.Table.{FlatOrderMap, split_mix_64, insert, find, erase}
use tickerplant.OrderMap.Valid.{IsTable}
use tickerplant.OrderMap.Held.{val_same, val_other}
use tickerplant.OrderMap.Calls.{insert-get, erase-get}
use tickerplant.OrderMap.Refines.{after_find}
use tickerplant.Book.State.{Order, PoolOps}
use tickerplant.Book.Laws.{PoolLaws}
use tickerplant.Book.Live.{resting, resting_nonzero}
use tickerplant.Book.Ledger.{
  Ledger, order_of, without, change, IsDistinct, order_of-without, order_of-change,
  without-IsDistinct, change-IsDistinct,
}

-- The map, the store and the pool have the order that rests under a reference.
abbrev pub OrderAgrees :
    {P : Type 0} → (P → ℕ → Bool) → FlatOrderMap ℕ → (ℕ → Order) → P → ℕ → Option Order → Type 0
OrderAgrees in_use t store p y none = resting t y ≡ none
OrderAgrees in_use t store p y (some x) =
    (o : ℕ) × (resting t y ≡ some o) × (store o ≡ x) × (in_use p o ≡ true)

pub record Pointers {P : Type 0} (in_use : P → ℕ → Bool) (t : FlatOrderMap ℕ) (store : ℕ → Order)
    (p : P) (a : Ledger) : Type 0 where
  pub table : IsTable split_mix_64 t
  pub orders : (y : ℕ) → OrderAgrees in_use t store p y (order_of y a)
  pub apart : (y z o : ℕ) → resting t y ≡ some o → resting t z ≡ some o → y ≡ z
  pub distinct : IsDistinct a

false-true : {b : Bool} → b ≡ false → b ≡ true → ⊥
false-true e q = absurd (cc (e, q))

module _ {P : Type 0} (in_use : P → ℕ → Bool) (t : FlatOrderMap ℕ) (store : ℕ → Order) (p : P)
    (a : Ledger) (h : Pointers in_use t store p a) where
  keep :
      (t' : FlatOrderMap ℕ) (store' : ℕ → Order) (p' : P) (y : ℕ) (v : Option Order)
      → resting t' y ≡ resting t y
      → OrderAgrees in_use t store' p' y v
      → OrderAgrees in_use t' store' p' y v
  keep t' store' p' y none e q = e ∙ q
  keep t' store' p' y (some x) e (o, r, s, u) = (o, e ∙ r, s, u)

  -- Another order's place stays in use.
  drop_other :
      (ops : PoolOps P) (laws : PoolLaws ops in_use) (t' : FlatOrderMap ℕ) (y ref o : ℕ)
      (v : Option Order)
      → y ≢ ref
      → resting t ref ≡ some o
      → resting t' y ≡ resting t y
      → OrderAgrees in_use t store p y v
      → OrderAgrees in_use t' store (ops.deallocate o p) y v
  drop_other ops laws t' y ref o none ne e same q = same ∙ q
  drop_other ops laws t' y ref o (some x) ne e same (r, f, s, u) =
      let apart : r ≢ o = λ z. ne (h.apart y ref o (f ∙ ap some z) e) in
      let c : (r == o) ≡ false = ground (arith, apart) in
      (r, same ∙ f, s, laws.given p o r ∙ (rw c u))

  -- Under a table with the same entries the orders agree still.
  pub find-Pointers : (ref : ℕ) → Pointers in_use (find split_mix_64 ref t).0 store p a
  find-Pointers ref =
      let f = after_find split_mix_64 0 t (resting t) (h.table, λ y. refl) ref in
      record {
        table = f.0;
        orders =
            λ y. keep (find split_mix_64 ref t).0 store p y (order_of y a) (f.1 y) (h.orders y);
        apart = λ y z o e q. h.apart y z o (sym (f.1 y) ∙ e) (sym (f.1 z) ∙ q);
        distinct = h.distinct;
      }

  pub erase-Pointers :
      (ops : PoolOps P) (laws : PoolLaws ops in_use) (ref o : ℕ)
      → resting t ref ≡ some o
      → Pointers in_use (erase split_mix_64 ref t).0 store (ops.deallocate o p) (without ref a)
  erase-Pointers ops laws ref o e =
      let t' = (erase split_mix_64 ref t).0 in
      let got = erase-get split_mix_64 0 t h.table ref (resting_nonzero t ref o e) in
      let other : (y : ℕ) → y ≢ ref → resting t' y ≡ resting t y =
        λ y ne. let c : (y == ref) ≡ false = ground (arith, ne) in got.1.1 y ∙ rw c refl in
      let gone : (y : ℕ) → y ≡ ref → resting t' y ≡ none =
        λ y q. got.1.1 y ∙ rw ((==_iff y ref).1 q) refl in
      record {
        table = got.1.0;
        orders = λ y.
            subst (OrderAgrees in_use t' store (ops.deallocate o p) y)
              (sym (order_of-without y ref a))
              (elim (ℕ_discrete y ref) [
                | yes q ↦ rw ((==_iff y ref).1 q) (gone y q)
                | no ne ↦
                    let c : (y == ref) ≡ false = ground (arith, ne) in
                    rw c
                      (drop_other ops laws t' y ref o (order_of y a) ne e (other y ne) (h.orders y))
              ]);
        apart = λ y z q ey ez.
            let ny : y ≢ ref = λ s. none-ne-some (resting t' y) (gone y s) ey in
            let nz : z ≢ ref = λ s. none-ne-some (resting t' z) (gone z s) ez in
            h.apart y z q (sym (other y ny) ∙ ey) (sym (other z nz) ∙ ez);
        distinct = without-IsDistinct ref a h.distinct;
      }

  -- A place that is not in use is no order's.
  unused :
      (y q : ℕ) (v : Option Order)
      → in_use p q ≡ false
      → resting t y ≡ some q
      → OrderAgrees in_use t store p y v
      → ⊥
  unused y q none fresh e f = none-ne-some (resting t y) f e
  unused y q (some x) fresh e (r, f, s, u) =
      false-true fresh (ap (in_use p) (some-injective (sym e ∙ f)) ∙ u)

  used :
      (y o : ℕ) (v : Option Order) (x : Order)
      → resting t y ≡ some o
      → v ≡ some x
      → OrderAgrees in_use t store p y v
      → in_use p o ≡ true
  used y o none x e there f = absurd (none-ne-some (resting t y) f e)
  used y o (some x') x e there (r, f, s, u) = ap (in_use p) (some-injective (sym e ∙ f)) ∙ u

  change_other :
      (y ref o : ℕ) (x' : Order) (v : Option Order)
      → y ≢ ref
      → resting t ref ≡ some o
      → OrderAgrees in_use t store p y v
      → OrderAgrees in_use t (update store o x') p y v
  change_other y ref o x' none ne e f = f
  change_other y ref o x' (some x) ne e (r, f, s, u) =
      let apart : r ≢ o = λ z. ne (h.apart y ref o (f ∙ ap some z) e) in
      (r, f, val_other store o x' r apart ∙ s, u)

  insert_other :
      (t' : FlatOrderMap ℕ) (p' : P) (y q : ℕ) (x : Order) (v : Option Order)
      → in_use p q ≡ false
      → ((r : ℕ) → in_use p' r ≡ (if r == q then true else in_use p r))
      → resting t' y ≡ resting t y
      → OrderAgrees in_use t store p y v
      → OrderAgrees in_use t' (update store q x) p' y v
  insert_other t' p' y q x none fresh taken same e = same ∙ e
  insert_other t' p' y q x (some x') fresh taken same (r, f, s, u) =
      let apart : r ≢ q = λ z. false-true fresh (ap (in_use p) (sym z) ∙ u) in
      let c : (r == q) ≡ false = ground (arith, apart) in
      (r, same ∙ f, val_other store q x r apart ∙ s, taken r ∙ (rw c u))

  pub insert-Pointers :
      (p' : P) (ref q : ℕ) (x : Order)
      → in_use p q ≡ false
      → ((r : ℕ) → in_use p' r ≡ (if r == q then true else in_use p r))
      → ref ≢ 0
      → order_of ref a ≡ none
      → Pointers in_use (insert split_mix_64 0 ref q t).0 (update store q x) p' ((ref, x) ∷ a)
  unfolding order_of IsDistinct
  insert-Pointers p' ref q x fresh taken nx absent =
      let t' = (insert split_mix_64 0 ref q t).0 in
      let got = insert-get split_mix_64 0 t h.table ref nx q in
      let other : (y : ℕ) → y ≢ ref → resting t' y ≡ resting t y =
        λ y ne. let c : (y == ref) ≡ false = ground (arith, ne) in got.1.1 y ∙ rw c refl in
      let here : (y : ℕ) → y ≡ ref → resting t' y ≡ some q =
        λ y e. got.1.1 y ∙ rw ((==_iff y ref).1 e) refl in
      let not_q : (y : ℕ) → resting t y ≡ some q → ⊥ =
        λ y e. unused y q (order_of y a) fresh e (h.orders y) in
      record {
        table = got.1.0;
        orders = λ y. elim (ℕ_discrete y ref) [
          | yes e ↦
              rw ((==_iff y ref).1 e)
                (q, here y e, val_same store q x q refl, taken q ∙ (rw ((==_iff q q).1 refl) refl))
          | no ne ↦
              let c : (y == ref) ≡ false = ground (arith, ne) in
              rw c (insert_other t' p' y q x (order_of y a) fresh taken (other y ne) (h.orders y))
        ];
        apart = λ y z o ey ez. elim (ℕ_discrete y ref) [
          | yes e ↦ elim (ℕ_discrete z ref) [
            | yes f ↦ e ∙ sym f
            | no nf ↦
                let same : o ≡ q = some-injective (sym ey ∙ here y e) in
                absurd (not_q z (sym (other z nf) ∙ ez ∙ ap some same))
          ]
          | no ne ↦ elim (ℕ_discrete z ref) [
            | yes f ↦
                let same : o ≡ q = some-injective (sym ez ∙ here z f) in
                absurd (not_q y (sym (other y ne) ∙ ey ∙ ap some same))
            | no nf ↦ h.apart y z o (sym (other y ne) ∙ ey) (sym (other z nf) ∙ ez)
          ]
        ];
        distinct = (absent, h.distinct);
      }

  pub change-Pointers :
      (ref o : ℕ) (x x' : Order)
      → resting t ref ≡ some o
      → order_of ref a ≡ some x
      → Pointers in_use t (update store o x') p (change ref x' a)
  change-Pointers ref o x x' e there = record {
    table = h.table;
    orders = λ y.
        subst (OrderAgrees in_use t (update store o x') p y)
          (sym (order_of-change y ref x x' a there))
          (elim (ℕ_discrete y ref) [
            | yes q ↦ rw ((==_iff y ref).1 q) (
              o,
              ap (resting t) q ∙ e,
              val_same store o x' o refl,
              used ref o (order_of ref a) x e there (h.orders ref),
            )
            | no ne ↦
                let c : (y == ref) ≡ false = ground (arith, ne) in
                rw c (change_other y ref o x' (order_of y a) ne e (h.orders y))
          ]);
    apart = h.apart;
    distinct = change-IsDistinct ref x' a h.distinct;
  }
