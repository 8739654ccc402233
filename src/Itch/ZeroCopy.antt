-- ===== src/Itch/ZeroCopy.antt =====
-- include/tick/itch_decoder.hpp: what the zero copy decoder tells the handler of a message. A handler
-- is the list of its calls.
use tickerplant.Prelude.{ℕ, ◌%◌, true, false, Option, some, List, drop, ◌==◌, u32_mod}
use tickerplant.Endian.{be_load}
use tickerplant.Mold.Frame.{byte_at}
use tickerplant.Itch.Lengths.{locate, timestamp, stock}
use tickerplant.Itch.Event.{
  MsgType, HandlerCall, on_system_event, on_stock_directory, on_trading_action, on_add, on_execute,
  on_execute_price, on_cancel, on_delete, on_replace, on_trade, on_cross_trade, on_broken_trade,
  on_other,
}

-- Words and bytes at an offset.
unfoldable pub u32_at : ℕ → List ℕ → ℕ
unfolding be_load
u32_at off p = be_load 4 (drop off p)

unfoldable pub u64_at : ℕ → List ℕ → ℕ
unfolding be_load
u64_at off p = be_load 8 (drop off p)

-- The call that the zero copy decoder makes for the message at `p`.
unfoldable pub zero_copy_call : Option MsgType → ℕ → List ℕ → HandlerCall
unfolding u32_at u64_at byte_at locate timestamp stock
zero_copy_call (some MsgType.add_order) t p =
    on_add (locate p) (timestamp p) (u64_at 11 p) (byte_at 19 p) (u32_at 20 p) (u32_at 32 p) false
zero_copy_call (some MsgType.order_delete) t p = on_delete (locate p) (timestamp p) (u64_at 11 p)
zero_copy_call (some MsgType.order_replace) t p =
    on_replace (locate p) (timestamp p) (u64_at 11 p) (u64_at 19 p) (u32_at 27 p) (u32_at 31 p)
zero_copy_call (some MsgType.order_executed) t p =
    on_execute (locate p) (timestamp p) (u64_at 11 p) (u32_at 19 p) (u64_at 23 p)
zero_copy_call (some MsgType.order_cancel) t p =
    on_cancel (locate p) (timestamp p) (u64_at 11 p) (u32_at 19 p)
zero_copy_call (some MsgType.order_executed_price) t p =
    on_execute_price (locate p) (timestamp p) (u64_at 11 p) (u32_at 19 p) (u64_at 23 p)
      (byte_at 31 p == 89) (u32_at 32 p)
zero_copy_call (some MsgType.add_order_mpid) t p =
    on_add (locate p) (timestamp p) (u64_at 11 p) (byte_at 19 p) (u32_at 20 p) (u32_at 32 p) true
zero_copy_call (some MsgType.trade) t p =
    on_trade (locate p) (timestamp p) (u64_at 11 p) (byte_at 19 p) (u32_at 20 p) (u32_at 32 p)
      (u64_at 36 p)
zero_copy_call (some MsgType.cross_trade) t p =
    on_cross_trade (locate p) (timestamp p) (u64_at 11 p % u32_mod) (u32_at 27 p) (u64_at 31 p)
      (byte_at 39 p)
zero_copy_call (some MsgType.broken_trade) t p =
    on_broken_trade (locate p) (timestamp p) (u64_at 11 p)
zero_copy_call (some MsgType.stock_directory) t p =
    on_stock_directory (locate p) (timestamp p) (stock (drop 11 p)) (u32_at 21 p)
zero_copy_call (some MsgType.trading_action) t p =
    on_trading_action (locate p) (timestamp p) (byte_at 19 p)
zero_copy_call (some MsgType.system_event) t p = on_system_event (timestamp p) (byte_at 11 p)
zero_copy_call k t p = on_other t (locate p) (timestamp p)
