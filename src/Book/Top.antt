-- ===== src/Book/Top.antt =====
-- `top` of include/tick/book_builder.hpp against the orders that rest.
use tickerplant.Prelude.{
  ℕ, ◌≡◌, sym, subst, ◌⊎◌, inl, inr, Bool, true, Option, none, some, List, arith,
}
use tickerplant.Itch.Event.{HandlerCall}
use tickerplant.Book.State.{Side, Ops, BookBuilder}
use tickerplant.Book.Side.{before}
use tickerplant.Book.Builder.{ops_of, side_at}
use tickerplant.Book.Handlers.{handle_all}
use tickerplant.Book.Feed.{AllFresh}
use tickerplant.Book.Removal.{IsBest}
use tickerplant.Book.Laws.{OpsLaws, is_bid}
use tickerplant.Book.Ledger.{Ledger, sum, shares_at, orders_at, shares-orders}
use tickerplant.Book.Reference.{meaning_all}
use tickerplant.Book.Places.{LevelAgrees}
use tickerplant.Book.Agrees.{Agrees}
use tickerplant.Book.Refines.{handle_all-Agrees}
use tickerplant.Book.Room.{AllRoom}
use tickerplant.Book.Queries.{quote_of, best_quote, top}

-- A price, its shares and its orders are those that rest there, and none rests at a better price; none
-- rests at all where there are no orders.
abbrev pub IsQuote : Side → ℕ → Ledger → ℕ → ℕ → ℕ → Type 0
IsQuote side locate a price shares orders =
    (shares ≡ sum (shares_at side locate price) a)
    × (orders ≡ sum (orders_at side locate price) a)
    × ((p : ℕ)
        → (orders ≡ 0) ⊎ (before (is_bid side) p price ≡ true)
        → sum (orders_at side locate p) a ≡ 0)

module _ {L S P : Type 0} (k : Ops L S P) (new : ℕ → L) (in_use : P → ℕ → Bool)
    (IsSide : Side → S → Type 0) (w : OpsLaws k new in_use IsSide) where
  quote_of-IsQuote :
      (side : Side) (locate : ℕ) (a : Ledger) (s : S) (m : Option (ℕ × L))
      → IsBest (is_bid side) m (λ q. (ops_of k side).find q s)
      → ((p : ℕ)
          → LevelAgrees k.levels
              ((ops_of k side).find p s)
              p
              (sum (shares_at side locate p) a)
              (sum (orders_at side locate p) a))
      → IsQuote side locate a (quote_of k m).price (quote_of k m).qty (quote_of k m).orders
  quote_of-IsQuote side locate a s none best h =
      let bare : (p : ℕ) → sum (orders_at side locate p) a ≡ 0 = λ p.
        subst
          (λ o.
            LevelAgrees k.levels o p (sum (shares_at side locate p) a)
              (sum (orders_at side locate p) a))
          (best p) (h p) in
      (sym (shares-orders side locate 0 a (bare 0)), sym (bare 0), λ p c. bare p)
  quote_of-IsQuote side locate a s (some e) best h =
      let at =
        subst
          (λ o.
            LevelAgrees k.levels o e.0 (sum (shares_at side locate e.0) a)
              (sum (orders_at side locate e.0) a))
          best.0 (h e.0) in
      let l = e.1 in
      let price : e.0 ≡ k.levels.price l = sym at.0 in
      subst (λ z. IsQuote side locate a z (k.levels.total_quantity l) (k.levels.order_count l))
        price
        (
          at.1,
          at.2,
          λ p c. elim c [
            | inl zero_orders ↦ absurd (omega (arith, zero_orders, at.2, at.3))
            | inr better ↦
                subst
                  (λ o.
                    LevelAgrees k.levels o p (sum (shares_at side locate p) a)
                      (sum (orders_at side locate p) a))
                  (best.1 p better) (h p)
          ],
        )

  best_quote-IsQuote :
      (side : Side) (locate : ℕ) (b : BookBuilder S P) (a : Ledger)
      → Agrees k new in_use IsSide w b a
      → IsQuote side locate a
          (best_quote k side locate b).price
          (best_quote k side locate b).qty
          (best_quote k side locate b).orders
  best_quote-IsQuote side locate b a h =
      let s = side_at k side locate b in
      quote_of-IsQuote side locate a s ((ops_of k side).best s)
        ((w.sides side).best_find s (h.side side locate)) (h.levels side locate)

  -- After a feed as in `handle_all-Agrees`, `top` shows for each side of a symbol the best price at which
  -- an order rests, the sum of the shares that rest there and the number of orders; a side that shows no
  -- orders has none.
  pub top-IsQuote :
      (cs : List HandlerCall) (b : BookBuilder S P) (a : Ledger) (locate : ℕ)
      → AllFresh k cs b
      → AllRoom k cs b
      → Agrees k new in_use IsSide w b a
      → IsQuote Side.buy locate
          (meaning_all cs a)
          (top k locate (handle_all k cs b)).bid_price
          (top k locate (handle_all k cs b)).bid_qty
          (top k locate (handle_all k cs b)).bid_orders
        × IsQuote Side.sell locate
            (meaning_all cs a)
            (top k locate (handle_all k cs b)).ask_price
            (top k locate (handle_all k cs b)).ask_qty
            (top k locate (handle_all k cs b)).ask_orders
  unfolding top
  top-IsQuote cs b a locate fresh room h =
      let end = handle_all-Agrees k new in_use IsSide w cs b a fresh room h in
      (
        best_quote-IsQuote Side.buy locate (handle_all k cs b) (meaning_all cs a) end,
        best_quote-IsQuote Side.sell locate (handle_all k cs b) (meaning_all cs a) end,
      )
