-- ===== src/Book/Changes.antt =====
-- include/tick/book_builder.hpp: `remove_order` and `reduce` keep the builder in agreement with the
-- orders that rest.
use tickerplant.Prelude.{
  ℕ, ◌+◌, ◌-◌, ◌<◌, ◌≡◌, refl, sym, ap, ◌∙◌, subst, Bool, Bool-cases, inl, inr, Option, none, some,
  Option-cases, arith, leb, ltb, ◌==◌, update, inc64, if◌then◌else◌,
}
use tickerplant.OrderMap.Table.{split_mix_64, erase}
use tickerplant.OrderMap.Refines.{after_find}
use tickerplant.Book.State.{Side, Order, Ops, BookBuilder}
use tickerplant.Book.Builder.{
  ops_of, side_at, unlink_from, look, remove_found, remove_order, reduce, reduce_level,
}
use tickerplant.Book.Levels.{opened}
use tickerplant.Book.Laws.{OpsLaws}
use tickerplant.Book.Live.{resting}
use tickerplant.Book.Ledger.{
  Ledger, IsDistinct, order_of, without, change, shares_at, orders_at, sum, sum-without, sum-change,
  rests_at-itself, without-absent,
}
use tickerplant.Book.Reference.{reduced}
use tickerplant.Book.Places.{LevelAgrees, LevelsAgree, sides_of}
use tickerplant.Book.Pointers.{OrderAgrees, find-Pointers, erase-Pointers, change-Pointers}
use tickerplant.Book.Agrees.{Agrees, Pointers-same, put_side-keeps, put_back, unlink-places}

some_number : {x y : ℕ} → some x ≡ some y → x ≡ y
some_number h = cc h

module _ {L S P : Type 0} (k : Ops L S P) (new : ℕ → L) (in_use : P → ℕ → Bool)
    (IsSide : Side → S → Type 0) (w : OpsLaws k new in_use IsSide) where
  unlink_from-keeps :
      (m : Option L) (q : ℕ) (x : Order) (b : BookBuilder S P)
      → ((unlink_from k m q x b).orders ≡ b.orders)
        × ((unlink_from k m q x b).store ≡ b.store)
        × ((unlink_from k m q x b).pool ≡ b.pool)
  unlink_from-keeps none q x b = (refl, refl, refl)
  unlink_from-keeps (some l) q x b = put_side-keeps k new in_use IsSide w x.side x.symbol _ b

  -- What rests under a reference that the map has is in its place of the pool.
  pub rests :
      (b : BookBuilder S P) (a : Ledger) (ref o : ℕ) (v : Option Order)
      → resting b.orders ref ≡ some o
      → OrderAgrees in_use b.orders b.store b.pool ref v
      → v ≡ some (b.store o)
  rests b a ref o none e h = absurd (cc (e, h))
  rests b a ref o (some x) e (r, f, s, u) =
      let same : r ≡ o = some_number (sym f ∙ e) in ap some (sym s ∙ ap b.store same)

  remove_found-Agrees :
      (b : BookBuilder S P) (a : Ledger) (ref o : ℕ)
      → Agrees k new in_use IsSide w b a
      → resting b.orders ref ≡ some o
      → Agrees k new in_use IsSide w (remove_found k (some o) ref b) (without ref a)
  remove_found-Agrees b a ref o h e =
      let x = b.store o in
      let there = rests b a ref o (order_of ref a) e (h.pointers.orders ref) in
      let m = (ops_of k x.side).find x.price (side_at k x.side x.symbol b) in
      let keeps = unlink_from-keeps m o x b in
      let places =
        unlink-places k new in_use IsSide w o ref x b a h.pointers.distinct there h.side h.levels m
          refl in
      record {
        pointers =
            Pointers-same k new in_use IsSide w (ap (λ t. (erase split_mix_64 ref t).0) keeps.0)
              keeps.1 (ap (k.pools.deallocate o) keeps.2)
              (erase-Pointers in_use b.orders b.store b.pool a h.pointers k.pools w.pools ref o e);
        side = places.0;
        levels = places.1;
      }

  pub look-Agrees :
      (b : BookBuilder S P) (a : Ledger) (ref : ℕ)
      → Agrees k new in_use IsSide w b a
      → Agrees k new in_use IsSide w (look k ref b).0 a
  look-Agrees b a ref h = record {
    pointers = find-Pointers in_use b.orders b.store b.pool a h.pointers ref;
    side = h.side;
    levels = h.levels;
  }

  -- The lookup changes nothing that rests.
  pub look-resting :
      (b : BookBuilder S P) (a : Ledger) (ref y : ℕ)
      → Agrees k new in_use IsSide w b a
      → resting (look k ref b).0.orders y ≡ resting b.orders y
  look-resting b a ref y h =
      (after_find split_mix_64 0 b.orders (resting b.orders) (h.pointers.table, λ y. refl) ref).1 y

  pub absent :
      (b : BookBuilder S P) (ref : ℕ) (v : Option Order)
      → resting b.orders ref ≡ none
      → OrderAgrees in_use b.orders b.store b.pool ref v
      → v ≡ none
  absent b ref none e h = refl
  absent b ref (some x) e (o, f, s, u) = absurd (cc (e, f))

  pub remove_order-Agrees :
      (b : BookBuilder S P) (a : Ledger) (ref : ℕ)
      → Agrees k new in_use IsSide w b a
      → Agrees k new in_use IsSide w (remove_order k ref b) (without ref a)
  remove_order-Agrees b a ref h =
      let r = look k ref b in
      let seen = look-Agrees b a ref h in
      elim (Option-cases (resting b.orders ref)) [
        | inl e ↦
            let gone =
              without-absent ref a (absent b ref (order_of ref a) e (h.pointers.orders ref)) in
            subst (λ v. Agrees k new in_use IsSide w (remove_found k v ref r.0) (without ref a))
              (sym e) (subst (Agrees k new in_use IsSide w r.0) (sym gone) seen)
        | inr (o, e) ↦
            subst (λ v. Agrees k new in_use IsSide w (remove_found k v ref r.0) (without ref a))
              (sym e) (remove_found-Agrees r.0 a ref o seen (look-resting b a ref ref h ∙ e))
      ]

  -- The level of an order that stays.
  reduced_level :
      (x : Order) (n : ℕ) (l : L) (shares orders shares' : ℕ)
      → n < x.remaining_qty
      → LevelAgrees k.levels (some l) x.price shares orders
      → shares' + x.remaining_qty ≡ shares + (x.remaining_qty - n)
      → LevelAgrees k.levels (some (k.levels.reduce n l)) x.price shares' orders
  reduced_level x n l shares orders shares' less h sums = (
    w.levels.reduce_price n l ∙ h.0,
    omega (arith, w.levels.reduce_total n l, h.1),
    w.levels.reduce_count n l ∙ h.2,
    h.3,
  )

  -- The order with its shares reduced.
  abbrev less_shares : Order → ℕ → Order
  less_shares x n = record x { remaining_qty = x.remaining_qty - n }

  reduce_level-places :
      (ref : ℕ) (x : Order) (n : ℕ) (b : BookBuilder S P) (a : Ledger)
      → n < x.remaining_qty
      → IsDistinct a
      → order_of ref a ≡ some x
      → ((side : Side) (locate : ℕ) → IsSide side (side_at k side locate b))
      → LevelsAgree k (sides_of k b) a
      → (m : Option L) → (ops_of k x.side).find x.price (side_at k x.side x.symbol b) ≡ m
      → ((side : Side) (locate : ℕ) → IsSide side (side_at k side locate (reduce_level k m x n b)))
        × LevelsAgree k (sides_of k (reduce_level k m x n b)) (change ref (less_shares x n) a)
  reduce_level-places ref x n b a less d there valid h none e =
      let own = rests_at-itself x in
      let one : orders_at x.side x.symbol x.price x ≡ 1 = rw own refl in
      let sums = sum-without (orders_at x.side x.symbol x.price) ref x a d there in
      let zero : sum (orders_at x.side x.symbol x.price) a ≡ 0 =
        subst
          (λ m.
            LevelAgrees k.levels m x.price (sum (shares_at x.side x.symbol x.price) a)
              (sum (orders_at x.side x.symbol x.price) a))
          e (h x.side x.symbol x.price) in
      absurd (omega arith)
  reduce_level-places ref x n b a less d there valid h (some l) e =
      let own = rests_at-itself x in
      let place = orders_at x.side x.symbol x.price in
      let one : place x ≡ 1 = rw own refl in
      let still : place (less_shares x n) ≡ 1 = rw own refl in
      let all : shares_at x.side x.symbol x.price x ≡ x.remaining_qty = rw own refl in
      let rest : shares_at x.side x.symbol x.price (less_shares x n) ≡ x.remaining_qty - n =
        rw own refl in
      let counts = sum-change place ref x (less_shares x n) a there in
      let sums = sum-change (shares_at x.side x.symbol x.price) ref x (less_shares x n) a there in
      let same : sum place (change ref (less_shares x n) a) ≡ sum place a =
        omega (arith, counts, one, still) in
      let s0 = side_at k x.side x.symbol b in
      let good = valid x.side x.symbol in
      let laws = w.sides x.side in
      let found =
        subst
          (λ m.
            LevelAgrees k.levels m x.price (sum (shares_at x.side x.symbol x.price) a)
              (sum place a))
          e (h x.side x.symbol x.price) in
      put_back k new in_use IsSide w x (some (k.levels.reduce n l))
        ((ops_of k x.side).level x.price (k.levels.reduce n) s0) b a
        (change ref (less_shares x n) a) valid h
        (laws.level_side x.price (k.levels.reduce n) s0 good)
        (λ q.
          laws.level_find x.price (k.levels.reduce n) q s0 good
          ∙ ap
              (λ m.
                if q == x.price
                then some (k.levels.reduce n (opened new x.price m))
                else (ops_of k x.side).find q s0)
              e)
        (λ side locate price away.
          let c = sum-change (orders_at side locate price) ref x (less_shares x n) a there in
          let s = sum-change (shares_at side locate price) ref x (less_shares x n) a there in
          let c0 : orders_at side locate price x ≡ 0 = rw away refl in
          let c1 : orders_at side locate price (less_shares x n) ≡ 0 = rw away refl in
          let s0 : shares_at side locate price x ≡ 0 = rw away refl in
          let s1 : shares_at side locate price (less_shares x n) ≡ 0 = rw away refl in
          (omega (arith, s, s0, s1), omega (arith, c, c0, c1)))
        (subst
          (λ c.
            LevelAgrees k.levels (some (k.levels.reduce n l)) x.price
              (sum (shares_at x.side x.symbol x.price) (change ref (less_shares x n) a)) c)
          (sym same)
          (reduced_level x n l _ (sum place a) _ less found (omega (arith, sums, all, rest))))

  reduce_level-keeps :
      (m : Option L) (x : Order) (n : ℕ) (b : BookBuilder S P)
      → ((reduce_level k m x n b).orders ≡ b.orders)
        × ((reduce_level k m x n b).store ≡ b.store)
        × ((reduce_level k m x n b).pool ≡ b.pool)
  reduce_level-keeps none x n b = (refl, refl, refl)
  reduce_level-keeps (some l) x n b = put_side-keeps k new in_use IsSide w x.side x.symbol _ b

  pub reduce-Agrees :
      (b : BookBuilder S P) (a : Ledger) (ref o shares : ℕ)
      → Agrees k new in_use IsSide w b a
      → resting b.orders ref ≡ some o
      → Agrees k new in_use IsSide w
          (reduce k ref o shares b)
          (reduced (order_of ref a) ref shares a)
  reduce-Agrees b a ref o shares h e =
      let x = b.store o in
      let there = rests b a ref o (order_of ref a) e (h.pointers.orders ref) in
      let over =
        if ltb x.remaining_qty shares
        then record b.stats { overfills = inc64 b.stats.overfills }
        else b.stats in
      subst (λ v. Agrees k new in_use IsSide w (reduce k ref o shares b) (reduced v ref shares a))
        (sym there)
        (elim (Bool-cases (leb x.remaining_qty shares)) [
          | inl c ↦ rw c (remove_order-Agrees (record b { stats = over }) a ref h)
          | inr c ↦
              let b0 = record b { store = update b.store o (less_shares x shares) } in
              let m = (ops_of k x.side).find x.price (side_at k x.side x.symbol b) in
              let keeps = reduce_level-keeps m x shares b0 in
              let less : shares < x.remaining_qty = ground (arith, c) in
              let places =
                reduce_level-places ref x shares b0 a less h.pointers.distinct there h.side h.levels
                  m refl in
              rw c (record {
                pointers = Pointers-same k new in_use IsSide w keeps.0 keeps.1 keeps.2 (
                    change-Pointers in_use b.orders b.store b.pool a h.pointers ref o x
                      (less_shares x shares) e there);
                side = places.0;
                levels = places.1;
              })
        ])
