-- ===== src/Book/Feed.antt =====
-- include/tick/book_builder.hpp over a feed: the count of live orders.
use tickerplant.Prelude.{
  ℕ, suc, ◌+◌, ◌<◌, ◌≡◌, ◌≢◌, refl, ◌∙◌, Bool, true, false, Option, none, some, List, [], ◌∷◌,
  length, inc64, ==_iff, arith, ◌==◌, u64_mod, if◌then◌else◌,
}
use tickerplant.Itch.Event.{
  HandlerCall, on_system_event, on_stock_directory, on_trading_action, on_add, on_execute,
  on_execute_price, on_cancel, on_delete, on_replace, on_trade, on_cross_trade, on_broken_trade,
  on_other,
}
use tickerplant.Book.State.{Side, Ops, BookBuilder}
use tickerplant.Book.Builder.{side_of, look, remove_order, record_volume}
use tickerplant.Book.Handlers.{
  counting, begin, count_add, count_execute, count_execute_price, count_cancel, count_delete,
  count_replace, displace, add_side, execute_found, cancel_found, delete_found, replace_found,
  handle, handle_all,
}
use tickerplant.Book.Live.{
  resting, IsLive, look-IsLive, remove_order-IsLive, enter-IsLive, reduce-IsLive,
}

pub none_either : {A : Type 0} (c : Bool) (v : Option A) → v ≡ none → (if c then none else v) ≡ none
none_either true v e = refl
none_either false v e = e

module _ {L S P : Type 0} (k : Ops L S P) where
  later : (n : ℕ) (b : BookBuilder S P) → IsLive k n b → IsLive k (suc n) b
  later n b h = (h.0, h.1, omega (arith, h.2))

  displace-IsLive :
      (n : ℕ) (b : BookBuilder S P) (v : Option ℕ) (ref : ℕ)
      → IsLive k n b
      → resting b.orders ref ≡ v
      → IsLive k n (displace k v ref b) × (resting (displace k v ref b).orders ref ≡ none)
  displace-IsLive n b none ref h e = (h, e)
  displace-IsLive n b (some o) ref h e =
      let done =
        remove_order-IsLive k n
          (counting (λ s. record s { duplicate_refs = inc64 s.duplicate_refs }) b) ref h in
      let gone : (if ref == ref then none else resting b.orders ref) ≡ none =
        rw ((==_iff ref ref).1 refl) refl in
      (done.0, done.1 ref ∙ gone)

  add_side-IsLive :
      (n : ℕ) (b : BookBuilder S P) (side : Option Side) (locate ts ref shares price : ℕ)
      → suc n < u64_mod
      → ref ≢ 0
      → IsLive k n b
      → IsLive k (suc n) (add_side k side locate ts ref shares price b)
  add_side-IsLive n b none locate ts ref shares price small nx h = later n b h
  add_side-IsLive n b (some side) locate ts ref shares price small nx h =
      let seen = look-IsLive k n b ref h in
      let r = look k ref b in
      let d = displace-IsLive n r.0 r.1 ref seen.0 (seen.1 ref) in
      let b1 = displace k r.1 ref r.0 in
      enter-IsLive k n b1 (k.pools.allocate b1.pool) side locate price ref
        (k.pools.make_order ref side price shares ts locate) small d.0 nx d.1

  execute_found-IsLive :
      (n : ℕ) (b : BookBuilder S P) (v : Option ℕ) (printable : Bool) (price : Option ℕ)
      (ref shares : ℕ)
      → IsLive k n b
      → IsLive k n (execute_found k v printable price ref shares b)
  execute_found-IsLive n b none printable price ref shares h = h
  execute_found-IsLive n b (some o) printable none ref shares h =
      reduce-IsLive k n (record_volume k (b.store o).symbol shares (b.store o).price b) ref o shares
        h
  execute_found-IsLive n b (some o) true (some price) ref shares h =
      reduce-IsLive k n (record_volume k (b.store o).symbol shares price b) ref o shares h
  execute_found-IsLive n b (some o) false (some price) ref shares h =
      reduce-IsLive k n b ref o shares h

  cancel_found-IsLive :
      (n : ℕ) (b : BookBuilder S P) (v : Option ℕ) (ref shares : ℕ)
      → IsLive k n b
      → IsLive k n (cancel_found k v ref shares b)
  cancel_found-IsLive n b none ref shares h = h
  cancel_found-IsLive n b (some o) ref shares h = reduce-IsLive k n b ref o shares h

  delete_found-IsLive :
      (n : ℕ) (b : BookBuilder S P) (v : Option ℕ) (ref : ℕ)
      → IsLive k n b
      → IsLive k n (delete_found k v ref b)
  delete_found-IsLive n b none ref h = h
  delete_found-IsLive n b (some o) ref h = (remove_order-IsLive k n b ref h).0

  replace_found-IsLive :
      (n : ℕ) (b : BookBuilder S P) (v : Option ℕ) (ts old_ref new_ref shares price : ℕ)
      → suc n < u64_mod
      → new_ref ≢ 0
      → resting b.orders new_ref ≡ none
      → IsLive k n b
      → IsLive k (suc n) (replace_found k v ts old_ref new_ref shares price b)
  replace_found-IsLive n b none ts old_ref new_ref shares price small nx free h = later n b h
  replace_found-IsLive n b (some o) ts old_ref new_ref shares price small nx free h =
      let done = remove_order-IsLive k n b old_ref h in
      let still = none_either (new_ref == old_ref) (resting b.orders new_ref) free in
      let x = b.store o in
      enter-IsLive k n (remove_order k old_ref b) (k.pools.allocate (remove_order k old_ref b).pool)
        x.side x.symbol price new_ref (k.pools.make_order new_ref x.side price shares ts x.symbol)
        small done.0 nx (done.1 new_ref ∙ still)

  -- No order has the reference 0, and a replacement takes a reference that no order has.
  abbrev pub IsFresh : HandlerCall → BookBuilder S P → Type 0
  IsFresh (on_add locate ts ref side shares price mpid) b = ref ≢ 0
  IsFresh (on_replace locate ts old_ref new_ref shares price) b =
      (new_ref ≢ 0) × (resting b.orders new_ref ≡ none)
  IsFresh c b = Unit

  unfoldable pub AllFresh : List HandlerCall → BookBuilder S P → Type 0
  unfolding handle
  AllFresh [] b = Unit
  AllFresh (c ∷ cs) b = IsFresh c b × AllFresh cs (handle k c b)

  handle-IsLive :
      (n : ℕ) (c : HandlerCall) (b : BookBuilder S P)
      → suc n < u64_mod
      → IsFresh c b
      → IsLive k n b
      → IsLive k (suc n) (handle k c b)
  unfolding handle
  handle-IsLive n (on_add locate ts ref side shares price mpid) b small fresh h =
      add_side-IsLive n (begin k (count_add mpid) locate ts b) (side_of side) locate ts ref shares
        price small fresh h
  handle-IsLive n (on_execute locate ts ref shares number) b small fresh h =
      let b1 = begin k count_execute locate ts b in
      let r = look k ref b1 in
      let seen = look-IsLive k n b1 ref h in
      later n (execute_found k r.1 true none ref shares r.0)
        (execute_found-IsLive n r.0 r.1 true none ref shares seen.0)
  handle-IsLive n (on_execute_price locate ts ref shares number printable price) b small fresh h =
      let b1 = begin k count_execute_price locate ts b in
      let r = look k ref b1 in
      let seen = look-IsLive k n b1 ref h in
      later n (execute_found k r.1 printable (some price) ref shares r.0)
        (execute_found-IsLive n r.0 r.1 printable (some price) ref shares seen.0)
  handle-IsLive n (on_cancel locate ts ref shares) b small fresh h =
      let b1 = begin k count_cancel locate ts b in
      let r = look k ref b1 in
      let seen = look-IsLive k n b1 ref h in
      later n (cancel_found k r.1 ref shares r.0) (cancel_found-IsLive n r.0 r.1 ref shares seen.0)
  handle-IsLive n (on_delete locate ts ref) b small fresh h =
      let b1 = begin k count_delete locate ts b in
      let r = look k ref b1 in
      let seen = look-IsLive k n b1 ref h in
      later n (delete_found k r.1 ref r.0) (delete_found-IsLive n r.0 r.1 ref seen.0)
  handle-IsLive n (on_replace locate ts old_ref new_ref shares price) b small fresh h =
      let b1 = begin k count_replace locate ts b in
      let r = look k old_ref b1 in
      let seen = look-IsLive k n b1 old_ref h in
      replace_found-IsLive n r.0 r.1 ts old_ref new_ref shares price small fresh.0
        (seen.1 new_ref ∙ fresh.1) seen.0
  handle-IsLive n (on_system_event ts code) b small fresh h = later n b h
  handle-IsLive n (on_stock_directory locate ts ticker lot) b small fresh h = later n b h
  handle-IsLive n (on_trading_action locate ts state) b small fresh h = later n b h
  handle-IsLive n (on_trade locate ts ref side shares price number) b small fresh h = later n b h
  handle-IsLive n (on_cross_trade locate ts shares price number cross) b small fresh h = later n b h
  handle-IsLive n (on_broken_trade locate ts number) b small fresh h = later n b h
  handle-IsLive n (on_other type locate ts) b small fresh h = later n b h

  -- Over a feed whose orders have references other than 0 and whose replacements take references that do
  -- not rest at the time, from a state where the order map is whole, has `n` orders at most and
  -- `live_orders` is its size, the same holds at the end, with `n` and the number of messages as the
  -- bound; the bound must stay below 2 ^ 64. The books, the levels and the pool may be any.
  pub handle_all-IsLive :
      (n : ℕ) (cs : List HandlerCall) (b : BookBuilder S P)
      → n + length cs < u64_mod
      → AllFresh cs b
      → IsLive k n b
      → IsLive k (n + length cs) (handle_all k cs b)
  unfolding handle_all AllFresh
  handle_all-IsLive n [] b small fresh h = (h.0, h.1, omega (arith, h.2))
  handle_all-IsLive n (c ∷ cs) b small fresh h =
      let one = handle-IsLive n c b (omega arith) fresh.0 h in
      let rest = handle_all-IsLive (suc n) cs (handle k c b) (omega arith) fresh.1 one in
      (rest.0, rest.1, omega (arith, rest.2))
