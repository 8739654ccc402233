-- ===== src/Book/Tests.antt =====
-- A side of a book, and a builder over a short feed, to run.
use tickerplant.Prelude.{some, ℕ, ◌+◌, ◌≡◌, refl, false, none, List, [], ◌∷◌, arith, mul64}
use tickerplant.OrderMap.Table.{empty, insert, find, erase, split_mix_64}
use tickerplant.OrderMap.Grow.{blank-IsSound}
use tickerplant.Book.Side.{best}
use tickerplant.Book.Side
use tickerplant.Book.Sorted.{IsSorted}
use tickerplant.Book.Removal.{IsBest}
use tickerplant.Book.State.{Side}
use tickerplant.Book.Handlers.{handle, handle_all}
use tickerplant.Book.Live.{IsLive}
use tickerplant.Book.Feed.{AllFresh, handle_all-IsLive}
use tickerplant.Book.Reference.{meaning_all}
use tickerplant.Book.Agrees.{Agrees}
use tickerplant.Book.Refines.{handle_all-Agrees}
use tickerplant.Book.Top.{IsQuote, top-IsQuote}
use tickerplant.Book.Queries.{top, digest}
use tickerplant.Book.Digest.{digest-same}
use tickerplant.Book.Samples.{
  other_parts, other_start, new_other, other_parts-OpsLaws, other_parts-AllRoom, other_start-Agrees,
  parts, start, feed, new_level, in_use, IsSampleSide, parts-OpsLaws, parts-AllRoom, start-Agrees,
}
use tickerplant.Book.Symbols.{define_symbol, find_symbol}
use tickerplant.Book.Directory.{find_symbol-define_symbol}
use tickerplant.Book.Runs.{SideCall, run_side, run_prices, run_side-run_prices}

start-IsLive : IsLive parts 0 start
start-IsLive =
    ((blank-IsSound _ (empty 0 8) 3 refl refl (λ i. refl) refl, omega arith), refl, omega arith)

feed-AllFresh : AllFresh parts feed start
unfolding AllFresh handle insert find erase Side.level Side.find Side.erase split_mix_64 mul64
feed-AllFresh = (
  λ e. absurd (omega arith),
  (λ e. absurd (omega arith), (tt, (tt, ((λ e. absurd (omega arith), refl), tt)))),
)

handle_all-IsLive_example : IsLive parts (0 + 5) (handle_all parts feed start)
handle_all-IsLive_example =
    handle_all-IsLive parts 0 feed start (omega arith) feed-AllFresh start-IsLive

handle_all-Agrees_example :
    Agrees parts new_level in_use IsSampleSide parts-OpsLaws
      (handle_all parts feed start)
      (meaning_all feed [])
handle_all-Agrees_example =
    handle_all-Agrees parts new_level in_use IsSampleSide parts-OpsLaws feed start [] feed-AllFresh
      parts-AllRoom start-Agrees

top-IsQuote_example :
    IsQuote Side.buy 1
      (meaning_all feed [])
      (top parts 1 (handle_all parts feed start)).bid_price
      (top parts 1 (handle_all parts feed start)).bid_qty
      (top parts 1 (handle_all parts feed start)).bid_orders
    × IsQuote Side.sell 1
        (meaning_all feed [])
        (top parts 1 (handle_all parts feed start)).ask_price
        (top parts 1 (handle_all parts feed start)).ask_qty
        (top parts 1 (handle_all parts feed start)).ask_orders
top-IsQuote_example =
    top-IsQuote parts new_level in_use IsSampleSide parts-OpsLaws feed start [] 1 feed-AllFresh
      parts-AllRoom start-Agrees

-- The same over other levels.
other_AllFresh : AllFresh other_parts feed other_start
unfolding AllFresh handle insert find erase Side.level Side.find Side.erase split_mix_64 mul64
other_AllFresh = (
  λ e. absurd (omega arith),
  (λ e. absurd (omega arith), (tt, (tt, ((λ e. absurd (omega arith), refl), tt)))),
)

digest-same_example :
    digest parts (handle_all parts feed start)
    ≡ digest other_parts (handle_all other_parts feed other_start)
digest-same_example =
    digest-same parts new_level in_use IsSampleSide parts-OpsLaws other_parts new_other in_use
      IsSampleSide other_parts-OpsLaws feed start other_start [] feed-AllFresh other_AllFresh
      parts-AllRoom other_parts-AllRoom start-Agrees other_start-Agrees

-- Asks at three prices, one of them removed.
abbrev side_calls : List (SideCall ℕ)
side_calls =
    SideCall.at_level 30 (λ l. l + 1)
    ∷ SideCall.at_level 10 (λ l. l + 2)
    ∷ SideCall.at_level 20 (λ l. l + 4)
    ∷ SideCall.drop_level 10
    ∷ []

run_side-run_prices_example :
    IsSorted false (run_side false (λ p. 0) side_calls [])
    × ((q : ℕ)
        → Side.find false q (run_side false (λ p. 0) side_calls [])
          ≡ run_prices (λ p. 0) side_calls (λ q. none) q)
    × IsBest false
        (best (run_side false (λ p. 0) side_calls []))
        (λ q. Side.find false q (run_side false (λ p. 0) side_calls []))
run_side-run_prices_example = run_side-run_prices false (λ p. 0) side_calls

find_symbol-define_symbol_example :
    find_symbol (65 ∷ 66 ∷ []) (define_symbol 7 (65 ∷ 66 ∷ []) 100 start.symbols) ≡ some 7
find_symbol-define_symbol_example =
    find_symbol-define_symbol 7 (65 ∷ 66 ∷ []) 100 start.symbols (omega arith) (omega arith)
      (λ j ne known same. absurd (cc known))
