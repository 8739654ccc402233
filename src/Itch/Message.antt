-- ===== src/Itch/Message.antt =====
-- include/tick/itch_writer.hpp and include/tick/itch_decoder.hpp: the messages that can be written, their
-- fields, and what a handler is to be told of them.
use tickerplant.Prelude.{ℕ, ◌%◌, Bool, true, false, List, [], ◌∷◌, u32_mod, if◌then◌else◌}
use tickerplant.Itch.Event.{
  MsgType, char_of, HandlerCall, on_system_event, on_stock_directory, on_trading_action, on_add,
  on_execute, on_execute_price, on_cancel, on_delete, on_replace, on_trade, on_cross_trade,
  on_broken_trade,
}
use tickerplant.Itch.Writer.{
  Stamp, StockDirectoryFields, write_system_event, write_stock_directory, write_trading_action,
  write_add_order, write_add_order_mpid, write_order_executed, write_order_executed_price,
  write_order_cancel, write_order_delete, write_order_replace, write_trade, write_cross_trade,
  write_broken_trade,
}
use tickerplant.Itch.Fields.{Field, word, char, text, time}

-- What there is to write: the header, and the arguments of a writer in its order.
pub data Message : Type 0 where
  system_event : Stamp → ℕ → Message
  stock_directory : Stamp → StockDirectoryFields → Message
  trading_action : Stamp → List ℕ → ℕ → List ℕ → Message
  add_order : Stamp → ℕ → ℕ → ℕ → List ℕ → ℕ → Message
  add_order_mpid : Stamp → ℕ → ℕ → ℕ → List ℕ → ℕ → List ℕ → Message
  order_executed : Stamp → ℕ → ℕ → ℕ → Message
  order_executed_price : Stamp → ℕ → ℕ → ℕ → Bool → ℕ → Message
  order_cancel : Stamp → ℕ → ℕ → Message
  order_delete : Stamp → ℕ → Message
  order_replace : Stamp → ℕ → ℕ → ℕ → ℕ → Message
  trade : Stamp → ℕ → ℕ → ℕ → List ℕ → ℕ → ℕ → Message
  cross_trade : Stamp → ℕ → List ℕ → ℕ → ℕ → ℕ → Message
  broken_trade : Stamp → ℕ → Message

-- The writer of a message.
unfoldable pub write : Message → List ℕ → ℕ × List ℕ
unfolding write_system_event write_stock_directory write_trading_action write_add_order
    write_add_order_mpid write_order_executed write_order_executed_price write_order_cancel
    write_order_delete write_order_replace write_trade write_cross_trade write_broken_trade
write (system_event h c) out = write_system_event h c out
write (stock_directory h f) out = write_stock_directory h f out
write (trading_action h s c r) out = write_trading_action h s c r out
write (add_order h r c n s p) out = write_add_order h r c n s p out
write (add_order_mpid h r c n s p m) out = write_add_order_mpid h r c n s p m out
write (order_executed h r n m) out = write_order_executed h r n m out
write (order_executed_price h r n m b p) out = write_order_executed_price h r n m b p out
write (order_cancel h r n) out = write_order_cancel h r n out
write (order_delete h r) out = write_order_delete h r out
write (order_replace h o r n p) out = write_order_replace h o r n p out
write (trade h r c n s p m) out = write_trade h r c n s p m out
write (cross_trade h n s p m c) out = write_cross_trade h n s p m c out
write (broken_trade h m) out = write_broken_trade h m out

-- What a handler is to be told of it. The shares of a cross trade are passed on in 32 bits.
abbrev pub call_of : Message → HandlerCall
call_of (system_event h c) = on_system_event h.timestamp c
call_of (stock_directory h f) = on_stock_directory h.locate h.timestamp f.stock f.round_lot_size
call_of (trading_action h s c r) = on_trading_action h.locate h.timestamp c
call_of (add_order h r c n s p) = on_add h.locate h.timestamp r c n p false
call_of (add_order_mpid h r c n s p m) = on_add h.locate h.timestamp r c n p true
call_of (order_executed h r n m) = on_execute h.locate h.timestamp r n m
call_of (order_executed_price h r n m b p) = on_execute_price h.locate h.timestamp r n m b p
call_of (order_cancel h r n) = on_cancel h.locate h.timestamp r n
call_of (order_delete h r) = on_delete h.locate h.timestamp r
call_of (order_replace h o r n p) = on_replace h.locate h.timestamp o r n p
call_of (trade h r c n s p m) = on_trade h.locate h.timestamp r c n p m
call_of (cross_trade h n s p m c) = on_cross_trade h.locate h.timestamp (n % u32_mod) p m c
call_of (broken_trade h m) = on_broken_trade h.locate h.timestamp m

abbrev pub type_of : Message → MsgType
type_of (system_event h c) = MsgType.system_event
type_of (stock_directory h f) = MsgType.stock_directory
type_of (trading_action h s c r) = MsgType.trading_action
type_of (add_order h r c n s p) = MsgType.add_order
type_of (add_order_mpid h r c n s p m) = MsgType.add_order_mpid
type_of (order_executed h r n m) = MsgType.order_executed
type_of (order_executed_price h r n m b p) = MsgType.order_executed_price
type_of (order_cancel h r n) = MsgType.order_cancel
type_of (order_delete h r) = MsgType.order_delete
type_of (order_replace h o r n p) = MsgType.order_replace
type_of (trade h r c n s p m) = MsgType.trade
type_of (cross_trade h n s p m c) = MsgType.cross_trade
type_of (broken_trade h m) = MsgType.broken_trade

-- The fields behind the type, as the specification of the feed lays them out.
abbrev pub stamp : Stamp → List Field → List Field
stamp h fs = word 2 h.locate ∷ word 2 h.tracking ∷ time h.timestamp ∷ fs

abbrev pub body_of : Message → List Field
body_of (system_event h c) = stamp h (char c ∷ [])
body_of (stock_directory h f) = stamp h (
    text 8 f.stock
    ∷ char f.market_category
    ∷ char f.financial_status
    ∷ word 4 f.round_lot_size
    ∷ char f.round_lots_only
    ∷ char f.issue_classification
    ∷ text 2 f.issue_sub_type
    ∷ char f.authenticity
    ∷ char f.short_sale_threshold
    ∷ char f.ipo_flag
    ∷ char f.luld_tier
    ∷ char f.etp_flag
    ∷ word 4 f.etp_leverage
    ∷ char f.inverse_indicator
    ∷ [])
body_of (trading_action h s c r) = stamp h (text 8 s ∷ char c ∷ char 32 ∷ text 4 r ∷ [])
body_of (add_order h r c n s p) = stamp h (word 8 r ∷ char c ∷ word 4 n ∷ text 8 s ∷ word 4 p ∷ [])
body_of (add_order_mpid h r c n s p m) =
    stamp h (word 8 r ∷ char c ∷ word 4 n ∷ text 8 s ∷ word 4 p ∷ text 4 m ∷ [])
body_of (order_executed h r n m) = stamp h (word 8 r ∷ word 4 n ∷ word 8 m ∷ [])
body_of (order_executed_price h r n m b p) =
    stamp h (word 8 r ∷ word 4 n ∷ word 8 m ∷ char (if b then 89 else 78) ∷ word 4 p ∷ [])
body_of (order_cancel h r n) = stamp h (word 8 r ∷ word 4 n ∷ [])
body_of (order_delete h r) = stamp h (word 8 r ∷ [])
body_of (order_replace h o r n p) = stamp h (word 8 o ∷ word 8 r ∷ word 4 n ∷ word 4 p ∷ [])
body_of (trade h r c n s p m) =
    stamp h (word 8 r ∷ char c ∷ word 4 n ∷ text 8 s ∷ word 4 p ∷ word 8 m ∷ [])
body_of (cross_trade h n s p m c) =
    stamp h (word 8 n ∷ text 8 s ∷ word 4 p ∷ word 8 m ∷ char c ∷ [])
body_of (broken_trade h m) = stamp h (word 8 m ∷ [])

abbrev pub code_of : Message → ℕ
code_of m = char_of (type_of m)

abbrev pub fields_of : Message → List Field
fields_of m = char (code_of m) ∷ body_of m
