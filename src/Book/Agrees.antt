-- ===== src/Book/Agrees.antt =====
-- include/tick/book_builder.hpp: an order that enters, one that loses shares and one that goes keep the
-- builder in agreement with the orders that rest.
use tickerplant.Prelude.{
  ℕ, ◌+◌, ◌≡◌, ◌≢◌, refl, sym, ap, ◌∙◌, subst, Bool, true, false, Bool-cases, inl, inr, Option,
  none, some, ◌∷◌, ==_iff, arith, ◌==◌, update, if◌then◌else◌,
}
use tickerplant.OrderMap.Table.{FlatOrderMap, split_mix_64, insert}
use tickerplant.Book.State.{Side, Order, Ops, BookBuilder}
use tickerplant.Book.Builder.{ops_of, side_at, put_side, unlink_from, enter}
use tickerplant.Book.Levels.{opened}
use tickerplant.Book.Laws.{OpsLaws}
use tickerplant.Book.Ledger.{
  Ledger, IsDistinct, order_of, without, same_side, same_side-eq, rests_at, shares_at, orders_at,
  sum, sum-without, shares-orders, rests_at-itself,
}
use tickerplant.Book.Places.{
  LevelAgrees, LevelsAgree, sides_of, side_at-put, level_at-put, LevelsAgree-step,
}
use tickerplant.Book.Pointers.{Pointers, insert-Pointers}

-- The state of a builder agrees with the orders that rest: by reference, by place and by level.
pub record BookAgrees {L S P : Type 0} (k : Ops L S P) (in_use : P → ℕ → Bool)
    (IsSide : Side → S → Type 0) (t : FlatOrderMap ℕ) (store : ℕ → Order) (p : P)
    (sides : Side → ℕ → S) (a : Ledger) : Type 0 where
  pub pointers : Pointers in_use t store p a
  pub side : (s : Side) (locate : ℕ) → IsSide s (sides s locate)
  pub levels : LevelsAgree k sides a

module _ {L S P : Type 0} (k : Ops L S P) (new : ℕ → L) (in_use : P → ℕ → Bool)
    (IsSide : Side → S → Type 0) (w : OpsLaws k new in_use IsSide) where
  abbrev pub Agrees : BookBuilder S P → Ledger → Type 0
  Agrees b a = BookAgrees k in_use IsSide b.orders b.store b.pool (sides_of k b) a

  pub put_side-keeps :
      (side : Side) (locate : ℕ) (s : S) (b : BookBuilder S P)
      → ((put_side k side locate s b).orders ≡ b.orders)
        × ((put_side k side locate s b).store ≡ b.store)
        × ((put_side k side locate s b).pool ≡ b.pool)
  put_side-keeps Side.buy locate s b = (refl, refl, refl)
  put_side-keeps Side.sell locate s b = (refl, refl, refl)

  pub Pointers-same :
      {t t' : FlatOrderMap ℕ} {store store' : ℕ → Order} {p p' : P} {a : Ledger}
      → t' ≡ t
      → store' ≡ store
      → p' ≡ p
      → Pointers in_use t store p a
      → Pointers in_use t' store' p' a
  Pointers-same {t' = t'} {store = store} {store' = store'} {p = p} {a = a} e f g h =
      subst (λ q. Pointers in_use t' store' q a) (sym g)
        (subst (λ s. Pointers in_use t' s p a) (sym f)
          (subst (λ u. Pointers in_use u store p a) (sym e) h))

  -- A side that differs at one price is put back.
  pub put_back :
      (x : Order) (v : Option L) (s : S) (b : BookBuilder S P) (a a' : Ledger)
      → ((side : Side) (locate : ℕ) → IsSide side (side_at k side locate b))
      → LevelsAgree k (sides_of k b) a
      → IsSide x.side s
      → ((q : ℕ)
          → (ops_of k x.side).find q s
            ≡ (if q == x.price then v else (ops_of k x.side).find q (side_at k x.side x.symbol b)))
      → ((side : Side) (locate price : ℕ)
          → rests_at side locate price x ≡ false
          → (sum (shares_at side locate price) a' ≡ sum (shares_at side locate price) a)
            × (sum (orders_at side locate price) a' ≡ sum (orders_at side locate price) a))
      → LevelAgrees k.levels v x.price
          (sum (shares_at x.side x.symbol x.price) a')
          (sum (orders_at x.side x.symbol x.price) a')
      → ((side : Side) (locate : ℕ)
          → IsSide side (side_at k side locate (put_side k x.side x.symbol s b)))
        × LevelsAgree k (sides_of k (put_side k x.side x.symbol s b)) a'
  put_back x v s b a a' valid h good finds same at = (
    λ side locate.
        subst (IsSide side) (sym (side_at-put k side x.side locate x.symbol s b))
          (elim (Bool-cases (same_side side x.side)) [
            | inr other ↦ rw other (valid side locate)
            | inl here ↦ elim (Bool-cases (x.symbol == locate)) [
              | inr other ↦ rw (here, other) (valid side locate)
              | inl there ↦
                  rw (here, there) (subst (λ z. IsSide z s) (same_side-eq side x.side here) good)
            ]
          ]),
    LevelsAgree-step k (sides_of k b) (sides_of k (put_side k x.side x.symbol s b)) a a' x v h
        (level_at-put k x v s b finds) same at,
  )

  -- The level of an order that enters.
  append_level :
      (q : ℕ) (x : Order) (m : Option L) (shares orders : ℕ)
      → LevelAgrees k.levels m x.price shares orders
      → (orders ≡ 0 → shares ≡ 0)
      → LevelAgrees k.levels
          (some (k.levels.append q x (opened new x.price m)))
          x.price
          (x.remaining_qty + shares)
          (1 + orders)
  append_level q x none shares orders h zero_shares =
      let l = new x.price in
      (
        w.levels.append_price q x l ∙ w.levels.new_price x.price,
        omega (arith, w.levels.append_total q x l, w.levels.new_total x.price, h, zero_shares h),
        omega (arith, w.levels.append_count q x l, w.levels.new_count x.price, h),
        omega arith,
      )
  append_level q x (some l) shares orders h zero_shares = (
    w.levels.append_price q x l ∙ h.0,
    omega (arith, w.levels.append_total q x l, h.1),
    omega (arith, w.levels.append_count q x l, h.2),
    omega arith,
  )

  pub enter-Agrees :
      (b : BookBuilder S P) (a : Ledger) (q : ℕ) (p' : P) (ref : ℕ) (x : Order)
      → k.pools.allocate b.pool ≡ some (q, p')
      → ref ≢ 0
      → order_of ref a ≡ none
      → Agrees b a
      → Agrees (enter k (some (q, p')) x.side x.symbol x.price ref x b) ((ref, x) ∷ a)
  unfolding sum
  enter-Agrees b a q p' ref x got nx absent h =
      let b0 = record b { store = update b.store q x; pool = p' } in
      let s0 = side_at k x.side x.symbol b in
      let laws = w.sides x.side in
      let m = (ops_of k x.side).find x.price s0 in
      let s = (ops_of k x.side).level x.price (k.levels.append q x) s0 in
      let own = rests_at-itself x in
      let places =
        put_back x (some (k.levels.append q x (opened new x.price m))) s b0 a ((ref, x) ∷ a) h.side
          h.levels (laws.level_side x.price (k.levels.append q x) s0 (h.side x.side x.symbol))
          (λ q'. laws.level_find x.price (k.levels.append q x) q' s0 (h.side x.side x.symbol))
          (λ side locate price away. rw away (omega arith, omega arith))
          (rw own (
            append_level q x m (sum (shares_at x.side x.symbol x.price) a)
              (sum (orders_at x.side x.symbol x.price) a) (h.levels x.side x.symbol x.price)
              (shares-orders x.side x.symbol x.price a))) in
      let keeps = put_side-keeps x.side x.symbol s b0 in
      record {
        pointers =
            Pointers-same (ap (λ t. (insert split_mix_64 0 ref q t).0) keeps.0) keeps.1 keeps.2 (
              insert-Pointers in_use b.orders b.store b.pool a h.pointers p' ref q x
                (w.pools.fresh b.pool p' q got) (λ r. w.pools.taken b.pool p' q r got) nx absent);
        side = places.0;
        levels = places.1;
      }

  -- The level of an order that goes.
  remove_level :
      (q : ℕ) (x : Order) (l : L) (shares orders shares' orders' : ℕ)
      → LevelAgrees k.levels (some l) x.price shares orders
      → shares' + x.remaining_qty ≡ shares
      → orders' + 1 ≡ orders
      → LevelAgrees k.levels
          (if k.levels.is_empty (k.levels.remove q x l) then none else some (k.levels.remove q x l))
          x.price
          shares'
          orders'
  remove_level q x l shares orders shares' orders' h less fewer =
      let l' = k.levels.remove q x l in
      let count : k.levels.order_count l' ≡ orders' =
        omega (arith, w.levels.remove_count q x l, h.2, fewer) in
      elim (Bool-cases (k.levels.is_empty l')) [
        | inl e ↦
            let zero : k.levels.order_count l' ≡ 0 =
              (==_iff (k.levels.order_count l') 0).0 (sym (w.levels.empty l') ∙ e) in
            rw e (sym count ∙ zero)
        | inr e ↦
            let some_left : (k.levels.order_count l' == 0) ≡ false = sym (w.levels.empty l') ∙ e in
            rw e (
              w.levels.remove_price q x l ∙ h.0,
              omega (arith, w.levels.remove_total q x l, h.1, less),
              count,
              ground (arith, some_left, count),
            )
      ]

  away_without :
      (ref : ℕ) (x : Order) (a : Ledger)
      → IsDistinct a
      → order_of ref a ≡ some x
      → (side : Side) (locate price : ℕ) → rests_at side locate price x ≡ false
      → (sum (shares_at side locate price) (without ref a) ≡ sum (shares_at side locate price) a)
        × (sum (orders_at side locate price) (without ref a) ≡ sum (orders_at side locate price) a)
  away_without ref x a d there side locate price away =
      let s = sum-without (shares_at side locate price) ref x a d there in
      let n = sum-without (orders_at side locate price) ref x a d there in
      let s0 : shares_at side locate price x ≡ 0 = rw away refl in
      let n0 : orders_at side locate price x ≡ 0 = rw away refl in
      (omega (arith, s, s0), omega (arith, n, n0))

  keep_or_erase :
      (x : Order) (c : Bool) (s : S)
      → IsSide x.side s
      → IsSide x.side (if c then (ops_of k x.side).erase x.price s else s)
  keep_or_erase x true s h = (w.sides x.side).erase_side x.price s h
  keep_or_erase x false s h = h

  find_after :
      (x : Order) (c : Bool) (o : ℕ) (l : L) (s : S)
      → IsSide x.side s
      → (ops_of k x.side).find x.price s ≡ some l
      → (q : ℕ)
      → (ops_of k x.side).find q (
          if c
          then (ops_of k x.side).erase x.price
              ((ops_of k x.side).level x.price (k.levels.remove o x) s)
          else (ops_of k x.side).level x.price (k.levels.remove o x) s)
        ≡ (if q == x.price
            then (if c then none else some (k.levels.remove o x l))
            else (ops_of k x.side).find q s)
  find_after x false o l s good e q =
      (w.sides x.side).level_find x.price (k.levels.remove o x) q s good
      ∙ ap
          (λ m.
            if q == x.price
            then some (k.levels.remove o x (opened new x.price m))
            else (ops_of k x.side).find q s)
          e
  find_after x true o l s good e q =
      let laws = w.sides x.side in
      let s1 = (ops_of k x.side).level x.price (k.levels.remove o x) s in
      laws.erase_find x.price q s1 (laws.level_side x.price (k.levels.remove o x) s good)
      ∙ elim (Bool-cases (q == x.price)) [
        | inl c ↦ rw c refl
        | inr c ↦ rw c (laws.level_find x.price (k.levels.remove o x) q s good ∙ (rw c refl))
      ]

  pub unlink-places :
      (q ref : ℕ) (x : Order) (b : BookBuilder S P) (a : Ledger)
      → IsDistinct a
      → order_of ref a ≡ some x
      → ((side : Side) (locate : ℕ) → IsSide side (side_at k side locate b))
      → LevelsAgree k (sides_of k b) a
      → (m : Option L) → (ops_of k x.side).find x.price (side_at k x.side x.symbol b) ≡ m
      → ((side : Side) (locate : ℕ) → IsSide side (side_at k side locate (unlink_from k m q x b)))
        × LevelsAgree k (sides_of k (unlink_from k m q x b)) (without ref a)
  unlink-places q ref x b a d there valid h none e =
      let own = rests_at-itself x in
      let one : orders_at x.side x.symbol x.price x ≡ 1 = rw own refl in
      let n = sum-without (orders_at x.side x.symbol x.price) ref x a d there in
      let zero : sum (orders_at x.side x.symbol x.price) a ≡ 0 =
        subst
          (λ m.
            LevelAgrees k.levels m x.price (sum (shares_at x.side x.symbol x.price) a)
              (sum (orders_at x.side x.symbol x.price) a))
          e (h x.side x.symbol x.price) in
      absurd (omega arith)
  unlink-places q ref x b a d there valid h (some l) e =
      let own = rests_at-itself x in
      let one : orders_at x.side x.symbol x.price x ≡ 1 = rw own refl in
      let own_shares : shares_at x.side x.symbol x.price x ≡ x.remaining_qty = rw own refl in
      let n = sum-without (orders_at x.side x.symbol x.price) ref x a d there in
      let m = sum-without (shares_at x.side x.symbol x.price) ref x a d there in
      let laws = w.sides x.side in
      let s0 = side_at k x.side x.symbol b in
      let good = valid x.side x.symbol in
      let s1 = (ops_of k x.side).level x.price (k.levels.remove q x) s0 in
      let good1 = laws.level_side x.price (k.levels.remove q x) s0 good in
      let l' = k.levels.remove q x l in
      let found =
        subst
          (λ m.
            LevelAgrees k.levels m x.price (sum (shares_at x.side x.symbol x.price) a)
              (sum (orders_at x.side x.symbol x.price) a))
          e (h x.side x.symbol x.price) in
      let c = k.levels.is_empty l' in
      put_back x (if c then none else some l')
        (if c then (ops_of k x.side).erase x.price s1 else s1) b a (without ref a) valid h
        (keep_or_erase x c s1 good1) (find_after x c q l s0 good e) (away_without ref x a d there)
        (remove_level q x l _ _ _ _ found (omega (arith, m, own_shares)) (omega (arith, n, one)))
