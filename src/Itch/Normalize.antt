-- ===== src/Itch/Normalize.antt =====
-- include/tick/itch_decoder.hpp: the owned event that the copying decoder makes of a message, and the
-- call that it dispatches from it.
use tickerplant.Prelude.{
  ℕ, ◌%◌, Bool, true, false, Option, some, List, take, drop, replicate, ◌==◌, u32_mod,
}
use tickerplant.Mold.Frame.{byte_at, trim_len}
use tickerplant.Itch.Lengths.{locate, tracking, timestamp, stock_len}
use tickerplant.Itch.Event.{
  MsgType, case_of, HandlerCall, on_system_event, on_stock_directory, on_trading_action, on_add,
  on_execute, on_execute_price, on_cancel, on_delete, on_replace, on_trade, on_cross_trade,
  on_broken_trade, on_other, NormalizedEvent,
}
use tickerplant.Itch.ZeroCopy.{u32_at, u64_at}

-- `e = NormalizedEvent{}` and the fields that every message has.
abbrev pub fresh_event : ℕ → List ℕ → NormalizedEvent
fresh_event t p = record {
  timestamp = timestamp p;
  ref = 0;
  ref2 = 0;
  match = 0;
  shares = 0;
  price = 0;
  round_lot = 0;
  locate = locate p;
  tracking = tracking p;
  type = t;
  side = 0;
  aux = 0;
  stock_len = 0;
  has_mpid = false;
  printable = false;
  stock = replicate stock_len 0;
}

unfoldable pub copy_stock : List ℕ → NormalizedEvent → NormalizedEvent
unfolding trim_len
copy_stock p e = record e {
  stock = take stock_len p;
  stock_len = trim_len (take stock_len p) stock_len;
}

abbrev pub add_event : ℕ → Bool → List ℕ → NormalizedEvent
add_event t mpid p = copy_stock (drop 24 p) (record (fresh_event t p) {
  ref = u64_at 11 p;
  side = byte_at 19 p;
  shares = u32_at 20 p;
  price = u32_at 32 p;
  has_mpid = mpid;
})

unfoldable pub normalize : Option MsgType → ℕ → List ℕ → NormalizedEvent
unfolding u32_at u64_at byte_at locate tracking timestamp copy_stock
normalize (some MsgType.add_order) t p = add_event t false p
normalize (some MsgType.add_order_mpid) t p = add_event t true p
normalize (some MsgType.order_executed) t p = record (fresh_event t p) {
  ref = u64_at 11 p;
  shares = u32_at 19 p;
  match = u64_at 23 p;
}
normalize (some MsgType.order_executed_price) t p = record (fresh_event t p) {
  ref = u64_at 11 p;
  shares = u32_at 19 p;
  match = u64_at 23 p;
  printable = byte_at 31 p == 89;
  price = u32_at 32 p;
}
normalize (some MsgType.order_cancel) t p = record (fresh_event t p) {
  ref = u64_at 11 p;
  shares = u32_at 19 p;
}
normalize (some MsgType.order_delete) t p = record (fresh_event t p) { ref = u64_at 11 p }
normalize (some MsgType.order_replace) t p = record (fresh_event t p) {
  ref = u64_at 11 p;
  ref2 = u64_at 19 p;
  shares = u32_at 27 p;
  price = u32_at 31 p;
}
normalize (some MsgType.trade) t p = copy_stock (drop 24 p) (record (fresh_event t p) {
  ref = u64_at 11 p;
  side = byte_at 19 p;
  shares = u32_at 20 p;
  price = u32_at 32 p;
  match = u64_at 36 p;
})
normalize (some MsgType.cross_trade) t p = copy_stock (drop 19 p) (record (fresh_event t p) {
  shares = u64_at 11 p % u32_mod;
  price = u32_at 27 p;
  match = u64_at 31 p;
  aux = byte_at 39 p;
})
normalize (some MsgType.broken_trade) t p = record (fresh_event t p) { match = u64_at 11 p }
normalize (some MsgType.stock_directory) t p =
    copy_stock (drop 11 p)
      (record (fresh_event t p) { round_lot = u32_at 21 p; aux = byte_at 19 p })
normalize (some MsgType.trading_action) t p =
    copy_stock (drop 11 p) (record (fresh_event t p) { aux = byte_at 19 p })
normalize (some MsgType.system_event) t p = record (fresh_event t p) { aux = byte_at 11 p }
normalize k t p = fresh_event t p

-- `NormalizedEvent::symbol`
abbrev pub symbol : NormalizedEvent → List ℕ
symbol e = take e.stock_len e.stock

-- `dispatch`, given the case that the type of the event takes.
unfoldable pub dispatch_case : Option MsgType → NormalizedEvent → HandlerCall
dispatch_case (some MsgType.add_order) e =
    on_add e.locate e.timestamp e.ref e.side e.shares e.price e.has_mpid
dispatch_case (some MsgType.add_order_mpid) e =
    on_add e.locate e.timestamp e.ref e.side e.shares e.price e.has_mpid
dispatch_case (some MsgType.order_executed) e =
    on_execute e.locate e.timestamp e.ref e.shares e.match
dispatch_case (some MsgType.order_executed_price) e =
    on_execute_price e.locate e.timestamp e.ref e.shares e.match e.printable e.price
dispatch_case (some MsgType.order_cancel) e = on_cancel e.locate e.timestamp e.ref e.shares
dispatch_case (some MsgType.order_delete) e = on_delete e.locate e.timestamp e.ref
dispatch_case (some MsgType.order_replace) e =
    on_replace e.locate e.timestamp e.ref e.ref2 e.shares e.price
dispatch_case (some MsgType.trade) e =
    on_trade e.locate e.timestamp e.ref e.side e.shares e.price e.match
dispatch_case (some MsgType.cross_trade) e =
    on_cross_trade e.locate e.timestamp e.shares e.price e.match e.aux
dispatch_case (some MsgType.broken_trade) e = on_broken_trade e.locate e.timestamp e.match
dispatch_case (some MsgType.stock_directory) e =
    on_stock_directory e.locate e.timestamp (symbol e) e.round_lot
dispatch_case (some MsgType.trading_action) e = on_trading_action e.locate e.timestamp e.aux
dispatch_case (some MsgType.system_event) e = on_system_event e.timestamp e.aux
dispatch_case k e = on_other e.type e.locate e.timestamp

unfoldable pub dispatch : NormalizedEvent → HandlerCall
unfolding dispatch_case case_of
dispatch e = dispatch_case (case_of e.type) e
