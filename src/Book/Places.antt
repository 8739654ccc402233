-- ===== src/Book/Places.antt =====
-- The levels of include/tick/book_builder.hpp against the orders that rest: a call changes one level.
use tickerplant.Prelude.{
  ℕ, ◌<◌, ◌≡◌, refl, sym, ap, ◌∙◌, subst, false, ◌&&◌, Bool-cases, inl, inr, Option, none, some,
  ==_iff, arith, ◌==◌, if◌then◌else◌,
}
use tickerplant.Book.State.{Side, Order, Ops, LevelOps, BookBuilder}
use tickerplant.Book.Builder.{ops_of, side_at, put_side}
use tickerplant.Book.Ledger.{
  Ledger, same_side, rests_at, shares_at, orders_at, sum, rests_at-place, same_side-eq,
}

-- A level has the price, the shares and the number of orders that it should; there is none for no orders.
abbrev pub LevelAgrees : {L : Type 0} → LevelOps L → Option L → ℕ → ℕ → ℕ → Type 0
LevelAgrees o none p shares orders = orders ≡ 0
LevelAgrees o (some l) p shares orders =
    (o.price l ≡ p) × (o.total_quantity l ≡ shares) × (o.order_count l ≡ orders) × (0 < orders)

flip_test : {A : Type 0} (i j : ℕ) (x y : A) → (if i == j then x else y) ≡ (if j == i then x else y)
flip_test i j x y = ground arith

module _ {L S P : Type 0} (k : Ops L S P) where
  -- The level that a builder finds at a place.
  abbrev pub level_at : (Side → ℕ → S) → Side → ℕ → ℕ → Option L
  level_at sides side locate price = (ops_of k side).find price (sides side locate)

  abbrev pub LevelsAgree : (Side → ℕ → S) → Ledger → Type 0
  LevelsAgree sides a =
      (side : Side) (locate price : ℕ)
      → LevelAgrees k.levels (level_at sides side locate price) price
          (sum (shares_at side locate price) a) (sum (orders_at side locate price) a)

  abbrev pub sides_of : BookBuilder S P → Side → ℕ → S
  sides_of b side locate = side_at k side locate b

  pub side_at-put :
      (side s0 : Side) (locate l0 : ℕ) (s : S) (b : BookBuilder S P)
      → side_at k side locate (put_side k s0 l0 s b)
        ≡ (if same_side side s0 && (l0 == locate) then s else side_at k side locate b)
  side_at-put Side.buy Side.buy locate l0 s b = flip_test locate l0 s (b.bids locate)
  side_at-put Side.buy Side.sell locate l0 s b = refl
  side_at-put Side.sell Side.buy locate l0 s b = refl
  side_at-put Side.sell Side.sell locate l0 s b = flip_test locate l0 s (b.asks locate)

  -- A side that differs at one price is put back: the levels differ at one place.
  pub level_at-put :
      (x : Order) (v : Option L) (s : S) (b : BookBuilder S P)
      → ((q : ℕ)
          → (ops_of k x.side).find q s
            ≡ (if q == x.price then v else (ops_of k x.side).find q (side_at k x.side x.symbol b)))
      → (side : Side) (locate price : ℕ)
      → level_at (sides_of (put_side k x.side x.symbol s b)) side locate price
        ≡ (if rests_at side locate price x then v else level_at (sides_of b) side locate price)
  level_at-put x v s b h side locate price =
      ap ((ops_of k side).find price) (side_at-put side x.side locate x.symbol s b)
      ∙ elim (Bool-cases (same_side side x.side)) [
        | inr other ↦ rw other refl
        | inl same ↦ elim (Bool-cases (x.symbol == locate)) [
          | inr other ↦ rw (same, other) refl
          | inl here ↦
              let e : x.side ≡ side = same_side-eq side x.side same in
              let f : x.symbol ≡ locate = (==_iff x.symbol locate).0 here in
              rw (same, here)
                (subst
                    (λ z. (ops_of k z).find price s ≡ (
                      if price == x.price
                      then v
                      else (ops_of k z).find price (side_at k z x.symbol b)))
                    e (h price)
                  ∙ ap
                      (λ z.
                        if price == x.price
                        then v
                        else (ops_of k side).find price (side_at k side z b))
                      f
                  ∙ flip_test price x.price v
                      ((ops_of k side).find price (side_at k side locate b)))
        ]
      ]

  -- The levels agree again when the one that changed does.
  pub LevelsAgree-step :
      (sides sides' : Side → ℕ → S) (a a' : Ledger) (x : Order) (v : Option L)
      → LevelsAgree sides a
      → ((side : Side) (locate price : ℕ)
          → level_at sides' side locate price
            ≡ (if rests_at side locate price x then v else level_at sides side locate price))
      → ((side : Side) (locate price : ℕ)
          → rests_at side locate price x ≡ false
          → (sum (shares_at side locate price) a' ≡ sum (shares_at side locate price) a)
            × (sum (orders_at side locate price) a' ≡ sum (orders_at side locate price) a))
      → LevelAgrees k.levels v x.price
          (sum (shares_at x.side x.symbol x.price) a')
          (sum (orders_at x.side x.symbol x.price) a')
      → LevelsAgree sides' a'
  LevelsAgree-step sides sides' a a' x v h view same at side locate price =
      elim (Bool-cases (rests_at side locate price x)) [
        | inl here ↦
            let (e, f, g) = rests_at-place side locate price x here in
            let moved : LevelAgrees k.levels v price (sum (shares_at side locate price) a')
                (sum (orders_at side locate price) a') =
              subst
                (λ z.
                  LevelAgrees k.levels v z (sum (shares_at side locate z) a')
                    (sum (orders_at side locate z) a'))
                g
                (subst
                  (λ z.
                    LevelAgrees k.levels v x.price (sum (shares_at side z x.price) a')
                      (sum (orders_at side z x.price) a'))
                  f
                  (subst
                    (λ z.
                      LevelAgrees k.levels v x.price (sum (shares_at z x.symbol x.price) a')
                        (sum (orders_at z x.symbol x.price) a'))
                    e at)) in
            subst
              (λ o.
                LevelAgrees k.levels o price (sum (shares_at side locate price) a')
                  (sum (orders_at side locate price) a'))
              (sym (
                view side locate price
                ∙ ap (λ c. if c then v else level_at sides side locate price) here))
              moved
        | inr away ↦
            let (m, n) = same side locate price away in
            subst
              (λ o.
                LevelAgrees k.levels o price (sum (shares_at side locate price) a')
                  (sum (orders_at side locate price) a'))
              (sym (
                view side locate price
                ∙ ap (λ c. if c then v else level_at sides side locate price) away))
              (subst
                (λ n.
                  LevelAgrees k.levels (level_at sides side locate price) price
                    (sum (shares_at side locate price) a') n)
                (sym n)
                (subst
                  (λ m.
                    LevelAgrees k.levels (level_at sides side locate price) price m
                      (sum (orders_at side locate price) a))
                  (sym m) (h side locate price)))
      ]
