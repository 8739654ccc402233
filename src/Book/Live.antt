-- ===== src/Book/Live.antt =====
-- The order map of include/tick/book_builder.hpp and the count of live orders beside it.
use native.Mathlib.Decide.{ℕ_discrete}
use tickerplant.Prelude.{
  ℕ, suc, ◌+◌, ◌-◌, ◌≤◌, ◌<◌, ◌≡◌, ◌≢◌, refl, sym, ap, ◌∙◌, subst, Bool, true, false, Bool-cases,
  inl, inr, Option, none, some, Option-cases, ==_iff, arith, ltb, leb, ◌==◌, update, inc64, add64,
  u64_mod, if◌then◌else◌,
}
use tickerplant.OrderMap.Table.{FlatOrderMap, split_mix_64, insert, find, erase}
use tickerplant.OrderMap.Valid.{IsTable}
use tickerplant.OrderMap.Get.{get, get_zero}
use tickerplant.OrderMap.Calls.{insert-get, insert-size, erase-get, erase-size}
use tickerplant.OrderMap.Refines.{after_find, find-size}
use tickerplant.Book.State.{Side, Order, Ops, BookStats, BookBuilder}
use tickerplant.Book.Builder.{
  put_side, unlink_from, unlink, look, remove_found, remove_order, reduce, reduce_level, enter,
}

-- What `orders_.find` returns for a reference.
abbrev pub resting : FlatOrderMap ℕ → ℕ → Option ℕ
resting t ref = get split_mix_64 t ref

-- A whole table of at most `n` orders, with their count.
abbrev pub IsCounted : ℕ → FlatOrderMap ℕ → ℕ → Type 0
IsCounted n t live = IsTable split_mix_64 t × (live ≡ t.size) × (t.size ≤ n)

-- The count once an order is gone.
abbrev pub lessened : ℕ → ℕ
lessened live = if ltb 0 live then live - 1 else live

IsCounted-same :
    {n : ℕ} {t t' : FlatOrderMap ℕ} {live live' : ℕ}
    → t' ≡ t
    → live' ≡ live
    → IsCounted n t live
    → IsCounted n t' live'
IsCounted-same {n = n} {t = t} {live' = live'} e l h =
    subst (λ u. IsCounted n u live') (sym e) (subst (IsCounted n t) (sym l) h)

pub resting_nonzero : (t : FlatOrderMap ℕ) (ref o : ℕ) → resting t ref ≡ some o → ref ≢ 0
resting_nonzero t ref o e z =
    absurd (cc (sym (get_zero split_mix_64 t) ∙ ap (resting t) (sym z) ∙ e))

find-IsCounted :
    (n : ℕ) (t : FlatOrderMap ℕ) (live ref : ℕ)
    → IsCounted n t live
    → IsCounted n (find split_mix_64 ref t).0 live
      × ((y : ℕ) → resting (find split_mix_64 ref t).0 y ≡ resting t y)
find-IsCounted n t live ref h =
    let a = after_find split_mix_64 0 t (resting t) (h.0, λ y. refl) ref in
    let same = find-size split_mix_64 ref t in
    ((a.0, h.1 ∙ sym same, subst (λ k. k ≤ n) (sym same) h.2), a.1)

erase-IsCounted :
    (n : ℕ) (t : FlatOrderMap ℕ) (live ref o : ℕ)
    → IsCounted n t live
    → resting t ref ≡ some o
    → IsCounted n (erase split_mix_64 ref t).0 (lessened live)
      × ((y : ℕ)
          → resting (erase split_mix_64 ref t).0 y ≡ (if y == ref then none else resting t y))
erase-IsCounted n t live ref o h e =
    let nx = resting_nonzero t ref o e in
    let p = erase-get split_mix_64 0 t h.0 ref nx in
    let size = erase-size split_mix_64 0 t h.0 ref nx o e in
    let pos : ltb 0 live ≡ true = ground (arith, h.1, size) in
    ((p.1.0, rw pos (omega (arith, h.1, size)), omega (arith, h.2, size)), p.1.1)

insert-IsCounted :
    (n : ℕ) (t : FlatOrderMap ℕ) (live ref o : ℕ)
    → suc n < u64_mod
    → IsCounted n t live
    → ref ≢ 0
    → resting t ref ≡ none
    → IsCounted (suc n) (insert split_mix_64 0 ref o t).0 (inc64 live)
unfolding add64
insert-IsCounted n t live ref o small h nx e =
    let p = insert-get split_mix_64 0 t h.0 ref nx o in
    let size = insert-size split_mix_64 0 t h.0 ref nx o e in
    let one_more : inc64 live ≡ live + 1 = omega (arith, h.1, h.2) in
    (p.1.0, one_more ∙ ap (λ l. l + 1) h.1 ∙ sym size, omega (arith, h.2, size))

module _ {L S P : Type 0} (k : Ops L S P) where
  -- The orders and their count are those of another state.
  abbrev SameOrders : BookBuilder S P → BookBuilder S P → Type 0
  SameOrders b b' = (b'.orders ≡ b.orders) × (b'.stats ≡ b.stats)

  put_side-SameOrders :
      (side : Side) (locate : ℕ) (s : S) (b : BookBuilder S P)
      → SameOrders b (put_side k side locate s b)
  put_side-SameOrders Side.buy locate s b = (refl, refl)
  put_side-SameOrders Side.sell locate s b = (refl, refl)

  unlink_from-SameOrders :
      (l : Option L) (o : ℕ) (x : Order) (b : BookBuilder S P)
      → SameOrders b (unlink_from k l o x b)
  unlink_from-SameOrders none o x b = (refl, refl)
  unlink_from-SameOrders (some l) o x b = put_side-SameOrders x.side x.symbol _ b

  reduce_level-SameOrders :
      (l : Option L) (x : Order) (shares : ℕ) (b : BookBuilder S P)
      → SameOrders b (reduce_level k l x shares b)
  reduce_level-SameOrders none x shares b = (refl, refl)
  reduce_level-SameOrders (some l) x shares b = put_side-SameOrders x.side x.symbol _ b

  abbrev pub IsLive : ℕ → BookBuilder S P → Type 0
  IsLive n b = IsCounted n b.orders b.stats.live_orders

  -- A state in which one reference no longer rests, and the others as before.
  abbrev pub Without : ℕ → ℕ → BookBuilder S P → BookBuilder S P → Type 0
  Without n ref b b' =
      IsLive n b'
      × ((y : ℕ) → resting b'.orders y ≡ (if y == ref then none else resting b.orders y))

  remove_found-IsLive :
      (n : ℕ) (b : BookBuilder S P) (ref o : ℕ)
      → IsLive n b
      → resting b.orders ref ≡ some o
      → Without n ref b (remove_found k (some o) ref b)
  remove_found-IsLive n b ref o h e =
      let same = unlink_from-SameOrders _ o (b.store o) b in
      let b1 = unlink k o (b.store o) b in
      let done = erase-IsCounted n b.orders b.stats.live_orders ref o h e in
      (
        subst (λ t. IsCounted n (erase split_mix_64 ref t).0 (lessened b1.stats.live_orders))
            (sym same.0)
            (subst (λ s. IsCounted n (erase split_mix_64 ref b.orders).0 (lessened s.live_orders))
              (sym same.1) done.0),
        λ y. ap (λ t. resting (erase split_mix_64 ref t).0 y) same.0 ∙ done.1 y,
      )

  pub look-IsLive :
      (n : ℕ) (b : BookBuilder S P) (ref : ℕ)
      → IsLive n b
      → IsLive n (look k ref b).0
        × ((y : ℕ) → resting (look k ref b).0.orders y ≡ resting b.orders y)
  look-IsLive n b ref h = find-IsCounted n b.orders b.stats.live_orders ref h

  pub remove_order-IsLive :
      (n : ℕ) (b : BookBuilder S P) (ref : ℕ) → IsLive n b → Without n ref b (remove_order k ref b)
  remove_order-IsLive n b ref h =
      let r = look k ref b in
      let seen = look-IsLive n b ref h in
      elim (Option-cases (resting b.orders ref)) [
        | inl e ↦
            subst (λ v. Without n ref b (remove_found k v ref r.0)) (sym e)
              (
                seen.0,
                λ y. elim (ℕ_discrete y ref) [
                  | yes q ↦ rw ((==_iff y ref).1 q) (seen.1 y ∙ ap (resting b.orders) q ∙ e)
                  | no ne ↦ let a : (y == ref) ≡ false = ground (arith, ne) in rw a (seen.1 y)
                ],
              )
        | inr (o, e) ↦
            let done = remove_found-IsLive n r.0 ref o seen.0 (seen.1 ref ∙ e) in
            subst (λ v. Without n ref b (remove_found k v ref r.0)) (sym e)
              (done.0, λ y. done.1 y ∙ ap (λ v. if y == ref then none else v) (seen.1 y))
      ]

  -- An order enters under a reference that does not rest.
  pub enter-IsLive :
      (n : ℕ) (b : BookBuilder S P) (got : Option (ℕ × P)) (side : Side) (locate price ref : ℕ)
      (x : Order)
      → suc n < u64_mod
      → IsLive n b
      → ref ≢ 0
      → resting b.orders ref ≡ none
      → IsLive (suc n) (enter k got side locate price ref x b)
  enter-IsLive n b none side locate price ref x small h nx e = (h.0, h.1, omega (arith, h.2))
  enter-IsLive n b (some r) side locate price ref x small h nx e =
      let same =
        put_side-SameOrders side locate _ (record b { store = update b.store r.0 x; pool = r.1 }) in
      let done = insert-IsCounted n b.orders b.stats.live_orders ref r.0 small h nx e in
      IsCounted-same (ap (λ t. (insert split_mix_64 0 ref r.0 t).0) same.0)
        (ap (λ s. inc64 s.live_orders) same.1) done

  over-live :
      (c : Bool) (s : BookStats)
      → (if c then record s { overfills = inc64 s.overfills } else s).live_orders ≡ s.live_orders
  over-live true s = refl
  over-live false s = refl

  pub reduce-IsLive :
      (n : ℕ) (b : BookBuilder S P) (ref o shares : ℕ)
      → IsLive n b
      → IsLive n (reduce k ref o shares b)
  reduce-IsLive n b ref o shares h =
      let x = b.store o in
      let c = ltb x.remaining_qty shares in
      let b1 = record b {
        stats = if c then record b.stats { overfills = inc64 b.stats.overfills } else b.stats;
      } in
      let counted = subst (IsCounted n b.orders) (sym (over-live c b.stats)) h in
      elim (Bool-cases (leb x.remaining_qty shares)) [
        | inl e ↦ rw e (remove_order-IsLive n b1 ref counted).0
        | inr e ↦
            let same = reduce_level-SameOrders _ x shares (record b {
              store = update b.store o (record x { remaining_qty = x.remaining_qty - shares });
            }) in
            rw e (IsCounted-same same.0 (ap (λ s. s.live_orders) same.1) h)
      ]
