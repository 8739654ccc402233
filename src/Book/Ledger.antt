-- ===== src/Book/Ledger.antt =====
-- What a book of include/tick/book_builder.hpp is: the orders that rest, by reference, and no levels, no
-- pool and no table. A level is what the orders at its price add up to.
use tickerplant.Prelude.{
  some-injective, none-ne-some, ℕ, ◌+◌, ◌≡◌, refl, sym, ap, ◌∙◌, Bool, true, false, ◌&&◌,
  Bool-cases, inl, inr, Option, none, some, List, [], ◌∷◌, ==_iff, arith, ◌==◌, if◌then◌else◌,
}
use tickerplant.Book.State.{Side, Order}

-- The orders with their references.
abbrev pub Ledger : Type 0
Ledger = List (ℕ × Order)

unfoldable pub order_of : ℕ → Ledger → Option Order
order_of y [] = none
order_of y (e ∷ es) = let rest = order_of y es in if y == e.0 then some e.1 else rest

unfoldable pub without : ℕ → Ledger → Ledger
without y [] = []
without y (e ∷ es) = let rest = without y es in if y == e.0 then rest else e ∷ rest

-- The ledger with another order under a reference.
unfoldable pub change : ℕ → Order → Ledger → Ledger
change y x [] = []
change y x (e ∷ es) = let rest = change y x es in if y == e.0 then (e.0, x) ∷ es else e ∷ rest

-- What the orders add up to.
unfoldable pub sum : (Order → ℕ) → Ledger → ℕ
sum w [] = 0
sum w (e ∷ es) = w e.1 + sum w es

abbrev pub same_side : Side → Side → Bool
same_side Side.buy Side.buy = true
same_side Side.buy Side.sell = false
same_side Side.sell Side.buy = false
same_side Side.sell Side.sell = true

-- Whether an order rests on a side of a symbol at a price.
abbrev pub rests_at : Side → ℕ → ℕ → Order → Bool
rests_at side locate price x = same_side side x.side && ((x.symbol == locate) && (x.price == price))

abbrev pub shares_at : Side → ℕ → ℕ → Order → ℕ
shares_at side locate price x = if rests_at side locate price x then x.remaining_qty else 0

abbrev pub orders_at : Side → ℕ → ℕ → Order → ℕ
orders_at side locate price x = if rests_at side locate price x then 1 else 0

-- References stand once each.
unfoldable pub IsDistinct : Ledger → Type 0
unfolding order_of
IsDistinct [] = Unit
IsDistinct (e ∷ es) = (order_of e.0 es ≡ none) × IsDistinct es

pub order_of-without :
    (y ref : ℕ) (a : Ledger)
    → order_of y (without ref a) ≡ (if y == ref then none else order_of y a)
unfolding order_of without
order_of-without y ref [] = ground arith
order_of-without y ref (e ∷ es) = ground (arith, order_of-without y ref es)

pub order_of-change :
    (y ref : ℕ) (x x' : Order) (a : Ledger)
    → order_of ref a ≡ some x
    → order_of y (change ref x' a) ≡ (if y == ref then some x' else order_of y a)
unfolding order_of change
order_of-change y ref x x' [] h = absurd (none-ne-some none refl h)
order_of-change y ref x x' (e ∷ es) h = elim (Bool-cases (ref == e.0)) [
  | inl k ↦ rw k (ground (arith, k))
  | inr k ↦
      let tail : order_of ref es ≡ some x =
        ap (λ c. if c then some e.1 else order_of ref es) (sym k) ∙ h in
      rw k (ground (arith, k, order_of-change y ref x x' es tail))
]

pub without-absent : (ref : ℕ) (a : Ledger) → order_of ref a ≡ none → without ref a ≡ a
unfolding order_of without
without-absent ref [] h = refl
without-absent ref (e ∷ es) h = elim (Bool-cases (ref == e.0)) [
  | inl k ↦
      absurd (
        none-ne-some none refl
          (sym (ap (λ c. if c then some e.1 else order_of ref es) (sym k) ∙ h)))
  | inr k ↦
      let tail : order_of ref es ≡ none =
        ap (λ c. if c then some e.1 else order_of ref es) (sym k) ∙ h in
      rw k (ap (λ l. e ∷ l) (without-absent ref es tail))
]

pub without-IsDistinct : (ref : ℕ) (a : Ledger) → IsDistinct a → IsDistinct (without ref a)
unfolding IsDistinct without
without-IsDistinct ref [] d = tt
without-IsDistinct ref (e ∷ es) d = elim (Bool-cases (ref == e.0)) [
  | inl k ↦ rw k (without-IsDistinct ref es d.1)
  | inr k ↦
      let other : (e.0 == ref) ≡ false = ground (arith, k) in
      rw k (order_of-without e.0 ref es ∙ (rw other d.0), without-IsDistinct ref es d.1)
]

order_of-change_other :
    (y ref : ℕ) (x' : Order) (a : Ledger)
    → (y == ref) ≡ false
    → order_of y (change ref x' a) ≡ order_of y a
unfolding order_of change
order_of-change_other y ref x' [] h = refl
order_of-change_other y ref x' (e ∷ es) h = elim (Bool-cases (ref == e.0)) [
  | inl k ↦ rw k (ground (arith, k, h))
  | inr k ↦ rw k (ground (arith, order_of-change_other y ref x' es h))
]

pub change-IsDistinct :
    (ref : ℕ) (x' : Order) (a : Ledger) → IsDistinct a → IsDistinct (change ref x' a)
unfolding IsDistinct change
change-IsDistinct ref x' [] d = tt
change-IsDistinct ref x' (e ∷ es) d = elim (Bool-cases (ref == e.0)) [
  | inl k ↦ rw k d
  | inr k ↦
      let other : (e.0 == ref) ≡ false = ground (arith, k) in
      rw k (order_of-change_other e.0 ref x' es other ∙ d.0, change-IsDistinct ref x' es d.1)
]

pub sum-without :
    (w : Order → ℕ) (ref : ℕ) (x : Order) (a : Ledger)
    → IsDistinct a
    → order_of ref a ≡ some x
    → sum w (without ref a) + w x ≡ sum w a
unfolding IsDistinct order_of without sum
sum-without w ref x [] d h = absurd (none-ne-some none refl h)
sum-without w ref x (e ∷ es) d h = elim (Bool-cases (ref == e.0)) [
  | inl k ↦
      let here : e.1 ≡ x =
        some-injective (ap (λ c. if c then some e.1 else order_of ref es) (sym k) ∙ h) in
      let same : ref ≡ e.0 = (==_iff ref e.0).0 k in
      let gone = without-absent ref es (ap (λ y. order_of y es) same ∙ d.0) in
      rw k (omega (arith, ap (sum w) gone, ap w here))
  | inr k ↦
      let tail : order_of ref es ≡ some x =
        ap (λ c. if c then some e.1 else order_of ref es) (sym k) ∙ h in
      rw k (omega (arith, sum-without w ref x es d.1 tail))
]

pub sum-change :
    (w : Order → ℕ) (ref : ℕ) (x x' : Order) (a : Ledger)
    → order_of ref a ≡ some x
    → sum w (change ref x' a) + w x ≡ sum w a + w x'
unfolding order_of change sum
sum-change w ref x x' [] h = absurd (none-ne-some none refl h)
sum-change w ref x x' (e ∷ es) h = elim (Bool-cases (ref == e.0)) [
  | inl k ↦
      let here : e.1 ≡ x =
        some-injective (ap (λ c. if c then some e.1 else order_of ref es) (sym k) ∙ h) in
      rw k (omega (arith, ap w here))
  | inr k ↦
      let tail : order_of ref es ≡ some x =
        ap (λ c. if c then some e.1 else order_of ref es) (sym k) ∙ h in
      rw k (omega (arith, sum-change w ref x x' es tail))
]

-- Where no order rests there are no shares.
pub shares-orders :
    (side : Side) (locate price : ℕ) (a : Ledger)
    → sum (orders_at side locate price) a ≡ 0
    → sum (shares_at side locate price) a ≡ 0
unfolding sum
shares-orders side locate price [] h = refl
shares-orders side locate price (e ∷ es) h = elim (Bool-cases (rests_at side locate price e.1)) [
  | inl k ↦ absurd (ground (arith, k, h))
  | inr k ↦ ground (arith, k, h, shares-orders side locate price es)
]

and_true : (a b : Bool) → (a && b) ≡ true → (a ≡ true) × (b ≡ true)
and_true true b h = (refl, h)
and_true false b h = absurd (cc h)

pub same_side-eq : (s t : Side) → same_side s t ≡ true → t ≡ s
same_side-eq Side.buy Side.buy h = refl
same_side-eq Side.buy Side.sell h = absurd (cc h)
same_side-eq Side.sell Side.buy h = absurd (cc h)
same_side-eq Side.sell Side.sell h = refl

same_side_refl : (s : Side) → same_side s s ≡ true
same_side_refl Side.buy = refl
same_side_refl Side.sell = refl

pub rests_at-place :
    (side : Side) (locate price : ℕ) (x : Order)
    → rests_at side locate price x ≡ true
    → (x.side ≡ side) × (x.symbol ≡ locate) × (x.price ≡ price)
rests_at-place side locate price x h =
    let (a, b) = and_true (same_side side x.side) ((x.symbol == locate) && (x.price == price)) h in
    let (c, d) = and_true (x.symbol == locate) (x.price == price) b in
    (same_side-eq side x.side a, (==_iff x.symbol locate).0 c, (==_iff x.price price).0 d)

pub rests_at-itself : (x : Order) → rests_at x.side x.symbol x.price x ≡ true
rests_at-itself x =
    rw (same_side_refl x.side, (==_iff x.symbol x.symbol).1 refl, (==_iff x.price x.price).1 refl)
      refl
