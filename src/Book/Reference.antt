-- ===== src/Book/Reference.antt =====
-- What each message of the feed means for the orders that rest, which include/tick/book_builder.hpp
-- keeps as levels, a pool and a table.
use tickerplant.Prelude.{ℕ, ◌-◌, Option, none, some, List, [], ◌∷◌, leb, if◌then◌else◌}
use tickerplant.Itch.Event.{
  HandlerCall, on_add, on_execute, on_execute_price, on_cancel, on_delete, on_replace,
}
use tickerplant.Book.State.{Side, Order}
use tickerplant.Book.Builder.{side_of}
use tickerplant.Book.Ledger.{Ledger, order_of, without, change}

-- An order loses shares, and is gone when it has none left.
abbrev pub reduced : Option Order → ℕ → ℕ → Ledger → Ledger
reduced none ref shares a = a
reduced (some x) ref shares a =
    if leb x.remaining_qty shares
    then without ref a
    else change ref (record x { remaining_qty = x.remaining_qty - shares }) a

abbrev pub added : Option Side → ℕ → ℕ → ℕ → ℕ → Ledger → Ledger
added none ref locate price shares a = a
added (some side) ref locate price shares a =
    (ref, record { side = side; price = price; remaining_qty = shares; symbol = locate })
    ∷ without ref a

abbrev pub replaced : Option Order → ℕ → ℕ → ℕ → ℕ → Ledger → Ledger
replaced none old_ref new_ref shares price a = a
replaced (some x) old_ref new_ref shares price a =
    (new_ref, record { side = x.side; price = price; remaining_qty = shares; symbol = x.symbol })
    ∷ without old_ref a

unfoldable pub meaning : HandlerCall → Ledger → Ledger
meaning (on_add locate ts ref side_char shares price mpid) a =
    added (side_of side_char) ref locate price shares a
meaning (on_execute locate ts ref shares number) a = reduced (order_of ref a) ref shares a
meaning (on_execute_price locate ts ref shares number printable price) a =
    reduced (order_of ref a) ref shares a
meaning (on_cancel locate ts ref shares) a = reduced (order_of ref a) ref shares a
meaning (on_delete locate ts ref) a = without ref a
meaning (on_replace locate ts old_ref new_ref shares price) a =
    replaced (order_of old_ref a) old_ref new_ref shares price a
meaning c a = a

unfoldable pub meaning_all : List HandlerCall → Ledger → Ledger
unfolding meaning
meaning_all [] a = a
meaning_all (c ∷ cs) a = meaning_all cs (meaning c a)
