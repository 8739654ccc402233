-- ===== src/Book/Room.antt =====
-- The pool of include/tick/book_builder.hpp: that it is not exhausted, and that a removal leaves it so.
use tickerplant.Prelude.{Bool, ℕ, ◌≡◌, refl, sym, subst, Option, none, some, List, [], ◌∷◌, inc64}
use tickerplant.Itch.Event.{HandlerCall}
use tickerplant.Book.State.{Side, Order, Ops, BookBuilder}
use tickerplant.Book.Builder.{unlink_from, remove_found, remove_order}
use tickerplant.Book.Handlers.{counting, displace, handle}
use tickerplant.Book.Laws.{HasRoom, OpsLaws}
use tickerplant.Book.Agrees.{put_side-keeps}

-- The pool has room before each call of a feed.
unfoldable pub AllRoom : {L S P : Type 0} → Ops L S P → List HandlerCall → BookBuilder S P → Type 0
AllRoom k [] b = Unit
AllRoom k (c ∷ cs) b = HasRoom k.pools b.pool × AllRoom k cs (handle k c b)

module _ {L S P : Type 0} (k : Ops L S P) (new : ℕ → L) (in_use : P → ℕ → Bool)
    (IsSide : Side → S → Type 0) (w : OpsLaws k new in_use IsSide) where
  unlink_from-pool :
      (m : Option L) (o : ℕ) (x : Order) (b : BookBuilder S P)
      → (unlink_from k m o x b).pool ≡ b.pool
  unlink_from-pool none o x b = refl
  unlink_from-pool (some l) o x b = (put_side-keeps k new in_use IsSide w x.side x.symbol _ b).2

  remove_found-HasRoom :
      (v : Option ℕ) (ref : ℕ) (b : BookBuilder S P)
      → HasRoom k.pools b.pool
      → HasRoom k.pools (remove_found k v ref b).pool
  remove_found-HasRoom none ref b h = h
  remove_found-HasRoom (some o) ref b h =
      subst (λ p. HasRoom k.pools (k.pools.deallocate o p))
        (sym (unlink_from-pool _ o (b.store o) b)) (w.pools.given_room b.pool o h)

  pub remove_order-HasRoom :
      (ref : ℕ) (b : BookBuilder S P)
      → HasRoom k.pools b.pool
      → HasRoom k.pools (remove_order k ref b).pool
  remove_order-HasRoom ref b h = remove_found-HasRoom _ ref _ h

  pub displace-HasRoom :
      (v : Option ℕ) (ref : ℕ) (b : BookBuilder S P)
      → HasRoom k.pools b.pool
      → HasRoom k.pools (displace k v ref b).pool
  displace-HasRoom none ref b h = h
  displace-HasRoom (some o) ref b h =
      remove_order-HasRoom ref
        (counting (λ s. record s { duplicate_refs = inc64 s.duplicate_refs }) b) h
