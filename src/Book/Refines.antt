-- ===== src/Book/Refines.antt =====
-- include/tick/book_builder.hpp refines the orders that rest: every message changes the builder's table,
-- pool and levels as it changes those orders.
use tickerplant.Prelude.{
  ℕ, ◌≡◌, ◌≢◌, refl, sym, ◌∙◌, subst, Bool, true, false, Option, none, some, List, [], ◌∷◌, ==_iff,
  ◌==◌, inc64,
}
use tickerplant.Itch.Event.{
  HandlerCall, on_system_event, on_stock_directory, on_trading_action, on_add, on_execute,
  on_execute_price, on_cancel, on_delete, on_replace, on_trade, on_cross_trade, on_broken_trade,
  on_other,
}
use tickerplant.Book.State.{Side, Order, Ops, BookBuilder}
use tickerplant.Book.Builder.{side_of, look, remove_order, record_volume, allocate_order, enter}
use tickerplant.Book.Handlers.{
  counting, begin, count_add, count_execute, count_execute_price, count_cancel, count_delete,
  count_replace, displace, add_side, execute_found, cancel_found, delete_found, replace_found,
  handle, handle_all,
}
use tickerplant.Book.Laws.{HasRoom, OpsLaws}
use tickerplant.Book.Room.{AllRoom, remove_order-HasRoom, displace-HasRoom}
use tickerplant.Book.Live.{resting}
use tickerplant.Book.Feed.{IsFresh, AllFresh, none_either}
use tickerplant.Book.Ledger.{Ledger, order_of, without, order_of-without, without-absent}
use tickerplant.Book.Reference.{reduced, added, replaced, meaning, meaning_all}
use tickerplant.Book.Agrees.{Agrees, enter-Agrees}
use tickerplant.Book.Changes.{
  rests, look-Agrees, look-resting, absent, remove_order-Agrees, reduce-Agrees,
}

module _ {L S P : Type 0} (k : Ops L S P) (new : ℕ → L) (in_use : P → ℕ → Bool)
    (IsSide : Side → S → Type 0) (w : OpsLaws k new in_use IsSide) where
  abbrev Agree : BookBuilder S P → Ledger → Type 0
  Agree b a = Agrees k new in_use IsSide w b a

  -- No order rests under a reference that the map does not have.
  unheld :
      (b : BookBuilder S P) (a : Ledger) (ref : ℕ)
      → Agree b a
      → resting b.orders ref ≡ none
      → order_of ref a ≡ none
  unheld b a ref h e = absent k new in_use IsSide w b ref (order_of ref a) e (h.pointers.orders ref)

  allocate_order-Agrees :
      (b : BookBuilder S P) (a : Ledger) (ref : ℕ) (side : Side) (price shares ts locate : ℕ)
      → HasRoom k.pools b.pool
      → ref ≢ 0
      → order_of ref a ≡ none
      → Agree b a
      → Agree (allocate_order k ref side price shares ts locate b) (
          (ref, record { side = side; price = price; remaining_qty = shares; symbol = locate }) ∷ a)
  allocate_order-Agrees b a ref side price shares ts locate (q, p', got) nx none_there h =
      let x : Order = record {
        side = side;
        price = price;
        remaining_qty = shares;
        symbol = locate;
      } in
      subst
        (λ v.
          Agree
            (enter k v side locate price ref (k.pools.make_order ref side price shares ts locate) b)
            ((ref, x) ∷ a))
        (sym got)
        (subst (λ y. Agree (enter k (some (q, p')) side locate price ref y b) ((ref, x) ∷ a))
          (sym (w.pools.made ref side price shares ts locate))
          (enter-Agrees k new in_use IsSide w b a q p' ref x got nx none_there h))

  displace-Agrees :
      (b : BookBuilder S P) (a : Ledger) (v : Option ℕ) (ref : ℕ)
      → Agree b a
      → resting b.orders ref ≡ v
      → Agree (displace k v ref b) (without ref a)
  displace-Agrees b a none ref h e =
      subst (Agree b) (sym (without-absent ref a (unheld b a ref h e))) h
  displace-Agrees b a (some o) ref h e =
      remove_order-Agrees k new in_use IsSide w
        (counting (λ s. record s { duplicate_refs = inc64 s.duplicate_refs }) b) a ref h

  add_side-Agrees :
      (b : BookBuilder S P) (a : Ledger) (side : Option Side) (locate ts ref shares price : ℕ)
      → HasRoom k.pools b.pool
      → ref ≢ 0
      → Agree b a
      → Agree (add_side k side locate ts ref shares price b) (added side ref locate price shares a)
  add_side-Agrees b a none locate ts ref shares price room nx h = h
  add_side-Agrees b a (some side) locate ts ref shares price room nx h =
      let r = look k ref b in
      let seen = look-Agrees k new in_use IsSide w b a ref h in
      let d =
        displace-Agrees r.0 a r.1 ref seen (look-resting k new in_use IsSide w b a ref ref h) in
      let gone : order_of ref (without ref a) ≡ none =
        order_of-without ref ref a ∙ (rw ((==_iff ref ref).1 refl) refl) in
      allocate_order-Agrees (displace k r.1 ref r.0) (without ref a) ref side price shares ts locate
        (displace-HasRoom k new in_use IsSide w r.1 ref r.0 room) nx gone d

  -- A reduction of what was found.
  reduced-Agrees :
      (b : BookBuilder S P) (a : Ledger) (ref shares : ℕ)
      → Agree b a
      → resting b.orders ref ≡ none
      → Agree b (reduced (order_of ref a) ref shares a)
  reduced-Agrees b a ref shares h e =
      subst (λ v. Agree b (reduced v ref shares a)) (sym (unheld b a ref h e)) h

  execute_found-Agrees :
      (b : BookBuilder S P) (a : Ledger) (v : Option ℕ) (printable : Bool) (price : Option ℕ)
      (ref shares : ℕ)
      → Agree b a
      → resting b.orders ref ≡ v
      → Agree
          (execute_found k v printable price ref shares b)
          (reduced (order_of ref a) ref shares a)
  execute_found-Agrees b a none printable price ref shares h e = reduced-Agrees b a ref shares h e
  execute_found-Agrees b a (some o) printable none ref shares h e =
      reduce-Agrees k new in_use IsSide w
        (record_volume k (b.store o).symbol shares (b.store o).price b) a ref o shares h e
  execute_found-Agrees b a (some o) true (some price) ref shares h e =
      reduce-Agrees k new in_use IsSide w (record_volume k (b.store o).symbol shares price b) a ref
        o shares h e
  execute_found-Agrees b a (some o) false (some price) ref shares h e =
      reduce-Agrees k new in_use IsSide w b a ref o shares h e

  cancel_found-Agrees :
      (b : BookBuilder S P) (a : Ledger) (v : Option ℕ) (ref shares : ℕ)
      → Agree b a
      → resting b.orders ref ≡ v
      → Agree (cancel_found k v ref shares b) (reduced (order_of ref a) ref shares a)
  cancel_found-Agrees b a none ref shares h e = reduced-Agrees b a ref shares h e
  cancel_found-Agrees b a (some o) ref shares h e =
      reduce-Agrees k new in_use IsSide w b a ref o shares h e

  delete_found-Agrees :
      (b : BookBuilder S P) (a : Ledger) (v : Option ℕ) (ref : ℕ)
      → Agree b a
      → resting b.orders ref ≡ v
      → Agree (delete_found k v ref b) (without ref a)
  delete_found-Agrees b a none ref h e =
      subst (Agree b) (sym (without-absent ref a (unheld b a ref h e))) h
  delete_found-Agrees b a (some o) ref h e = remove_order-Agrees k new in_use IsSide w b a ref h

  replace_found-Agrees :
      (b : BookBuilder S P) (a : Ledger) (v : Option ℕ) (ts old_ref new_ref shares price : ℕ)
      → HasRoom k.pools b.pool
      → new_ref ≢ 0
      → resting b.orders new_ref ≡ none
      → Agree b a
      → resting b.orders old_ref ≡ v
      → Agree
          (replace_found k v ts old_ref new_ref shares price b)
          (replaced (order_of old_ref a) old_ref new_ref shares price a)
  replace_found-Agrees b a none ts old_ref new_ref shares price room nx fresh h e =
      subst (λ v. Agree b (replaced v old_ref new_ref shares price a))
        (sym (unheld b a old_ref h e)) h
  replace_found-Agrees b a (some o) ts old_ref new_ref shares price room nx fresh h e =
      let there =
        rests k new in_use IsSide w b a old_ref o (order_of old_ref a) e
          (h.pointers.orders old_ref) in
      let x = b.store o in
      let b1 = remove_order k old_ref b in
      let still : order_of new_ref (without old_ref a) ≡ none =
        order_of-without new_ref old_ref a
        ∙ none_either (new_ref == old_ref) (order_of new_ref a) (unheld b a new_ref h fresh) in
      subst
        (λ v.
          Agree (allocate_order k new_ref x.side price shares ts x.symbol b1)
            (replaced v old_ref new_ref shares price a))
        (sym there)
        (allocate_order-Agrees b1 (without old_ref a) new_ref x.side price shares ts x.symbol
          (remove_order-HasRoom k new in_use IsSide w old_ref b room) nx still
          (remove_order-Agrees k new in_use IsSide w b a old_ref h))

  handle-Agrees :
      (c : HandlerCall) (b : BookBuilder S P) (a : Ledger)
      → HasRoom k.pools b.pool
      → IsFresh k c b
      → Agree b a
      → Agree (handle k c b) (meaning c a)
  unfolding handle meaning
  handle-Agrees (on_add locate ts ref side shares price mpid) b a room fresh h =
      add_side-Agrees (begin k (count_add mpid) locate ts b) a (side_of side) locate ts ref shares
        price room fresh h
  handle-Agrees (on_execute locate ts ref shares number) b a room fresh h =
      let b1 = begin k count_execute locate ts b in
      let r = look k ref b1 in
      execute_found-Agrees r.0 a r.1 true none ref shares
        (look-Agrees k new in_use IsSide w b1 a ref h)
        (look-resting k new in_use IsSide w b1 a ref ref h)
  handle-Agrees (on_execute_price locate ts ref shares number printable price) b a room fresh h =
      let b1 = begin k count_execute_price locate ts b in
      let r = look k ref b1 in
      execute_found-Agrees r.0 a r.1 printable (some price) ref shares
        (look-Agrees k new in_use IsSide w b1 a ref h)
        (look-resting k new in_use IsSide w b1 a ref ref h)
  handle-Agrees (on_cancel locate ts ref shares) b a room fresh h =
      let b1 = begin k count_cancel locate ts b in
      let r = look k ref b1 in
      cancel_found-Agrees r.0 a r.1 ref shares (look-Agrees k new in_use IsSide w b1 a ref h)
        (look-resting k new in_use IsSide w b1 a ref ref h)
  handle-Agrees (on_delete locate ts ref) b a room fresh h =
      let b1 = begin k count_delete locate ts b in
      let r = look k ref b1 in
      delete_found-Agrees r.0 a r.1 ref (look-Agrees k new in_use IsSide w b1 a ref h)
        (look-resting k new in_use IsSide w b1 a ref ref h)
  handle-Agrees (on_replace locate ts old_ref new_ref shares price) b a room fresh h =
      let b1 = begin k count_replace locate ts b in
      let r = look k old_ref b1 in
      replace_found-Agrees r.0 a r.1 ts old_ref new_ref shares price room fresh.0
        (look-resting k new in_use IsSide w b1 a old_ref new_ref h ∙ fresh.1)
        (look-Agrees k new in_use IsSide w b1 a old_ref h)
        (look-resting k new in_use IsSide w b1 a old_ref old_ref h)
  handle-Agrees (on_system_event ts code) b a room fresh h = h
  handle-Agrees (on_stock_directory locate ts ticker lot) b a room fresh h = h
  handle-Agrees (on_trading_action locate ts state) b a room fresh h = h
  handle-Agrees (on_trade locate ts ref side shares price number) b a room fresh h = h
  handle-Agrees (on_cross_trade locate ts shares price number cross) b a room fresh h = h
  handle-Agrees (on_broken_trade locate ts number) b a room fresh h = h
  handle-Agrees (on_other type locate ts) b a room fresh h = h

  -- Over a feed whose orders have references other than 0 and whose replacements take references that do
  -- not rest at the time, while the pool has room, a builder that agrees with the orders that rest, over
  -- levels, a pool and sides that keep their laws, agrees at the end with what the feed makes of those orders: under
  -- each reference the map leads to the place of its order, no two to one place, and at each side,
  -- symbol and price the level has the sum of their shares and their number, or there is none.
  pub handle_all-Agrees :
      (cs : List HandlerCall) (b : BookBuilder S P) (a : Ledger)
      → AllFresh k cs b
      → AllRoom k cs b
      → Agrees k new in_use IsSide w b a
      → Agrees k new in_use IsSide w (handle_all k cs b) (meaning_all cs a)
  unfolding handle_all AllFresh AllRoom meaning_all
  handle_all-Agrees [] b a fresh room h = h
  handle_all-Agrees (c ∷ cs) b a fresh room h =
      handle_all-Agrees cs (handle k c b) (meaning c a) fresh.1 room.1
        (handle-Agrees c b a room.0 fresh.0 h)
