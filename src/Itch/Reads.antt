-- ===== src/Itch/Reads.antt =====
-- What include/tick/itch_decoder.hpp reads of a message lies within it: a call is the same from any
-- buffer that starts with the message.
use tickerplant.Prelude.{
  ℕ, ◌+◌, ◌≤◌, ◌≡◌, sym, ap, ◌∙◌, Option, none, some, List, arith, take, drop,
}
use tickerplant.Mold.Frame.{trim_right}
use tickerplant.Itch.Lengths.{locate, timestamp, stock}
use tickerplant.Itch.Event.{MsgType}
use tickerplant.Itch.ZeroCopy.{u32_at, u64_at, zero_copy_call}
use tickerplant.Itch.Window.{
  take-drop-take, byte_at-take, be_load-take, be_load_u48-take, trim_right-take,
}

u32_at-take : (off len : ℕ) (p : List ℕ) → off + 4 ≤ len → u32_at off (take len p) ≡ u32_at off p
unfolding u32_at
u32_at-take off len p h = be_load-take 4 off len p h

u64_at-take : (off len : ℕ) (p : List ℕ) → off + 8 ≤ len → u64_at off (take len p) ≡ u64_at off p
unfolding u64_at
u64_at-take off len p h = be_load-take 8 off len p h

locate-take : (len : ℕ) (p : List ℕ) → 11 ≤ len → locate (take len p) ≡ locate p
unfolding locate
locate-take len p h = be_load-take 2 1 len p (omega arith)

timestamp-take : (len : ℕ) (p : List ℕ) → 11 ≤ len → timestamp (take len p) ≡ timestamp p
unfolding timestamp
timestamp-take len p h = be_load_u48-take 5 len p (omega arith)

stock-take : (len : ℕ) (p : List ℕ) → 19 ≤ len → stock (drop 11 (take len p)) ≡ stock (drop 11 p)
unfolding stock
stock-take len p h =
    sym (trim_right-take 8 8 (drop 11 (take len p)) (omega arith))
    ∙ ap (λ l. trim_right l 8) (take-drop-take 8 11 len p h)
    ∙ trim_right-take 8 8 (drop 11 p) (omega arith)

-- The length of the shortest message that takes a case.
abbrev pub span : Option MsgType → ℕ
span (some MsgType.add_order) = 36
span (some MsgType.order_delete) = 19
span (some MsgType.order_replace) = 35
span (some MsgType.order_executed) = 31
span (some MsgType.order_cancel) = 23
span (some MsgType.order_executed_price) = 36
span (some MsgType.add_order_mpid) = 40
span (some MsgType.trade) = 44
span (some MsgType.cross_trade) = 40
span (some MsgType.broken_trade) = 19
span (some MsgType.stock_directory) = 39
span (some MsgType.trading_action) = 25
span (some MsgType.system_event) = 12
span k = 11

-- What a case reads lies within the message.
pub zero_copy_call-take :
    (k : Option MsgType) (t len : ℕ) (p : List ℕ)
    → span k ≤ len
    → zero_copy_call k t (take len p) ≡ zero_copy_call k t p
unfolding zero_copy_call
zero_copy_call-take (some MsgType.add_order) t len p h = cc (
  locate-take len p (omega arith),
  timestamp-take len p (omega arith),
  u64_at-take 11 len p (omega arith),
  byte_at-take 19 len p (omega arith),
  u32_at-take 20 len p (omega arith),
  u32_at-take 32 len p (omega arith),
)
zero_copy_call-take (some MsgType.order_delete) t len p h = cc (
  locate-take len p (omega arith),
  timestamp-take len p (omega arith),
  u64_at-take 11 len p (omega arith),
)
zero_copy_call-take (some MsgType.order_replace) t len p h = cc (
  locate-take len p (omega arith),
  timestamp-take len p (omega arith),
  u64_at-take 11 len p (omega arith),
  u64_at-take 19 len p (omega arith),
  u32_at-take 27 len p (omega arith),
  u32_at-take 31 len p (omega arith),
)
zero_copy_call-take (some MsgType.order_executed) t len p h = cc (
  locate-take len p (omega arith),
  timestamp-take len p (omega arith),
  u64_at-take 11 len p (omega arith),
  u32_at-take 19 len p (omega arith),
  u64_at-take 23 len p (omega arith),
)
zero_copy_call-take (some MsgType.order_cancel) t len p h = cc (
  locate-take len p (omega arith),
  timestamp-take len p (omega arith),
  u64_at-take 11 len p (omega arith),
  u32_at-take 19 len p (omega arith),
)
zero_copy_call-take (some MsgType.order_executed_price) t len p h = cc (
  locate-take len p (omega arith),
  timestamp-take len p (omega arith),
  u64_at-take 11 len p (omega arith),
  u32_at-take 19 len p (omega arith),
  u64_at-take 23 len p (omega arith),
  byte_at-take 31 len p (omega arith),
  u32_at-take 32 len p (omega arith),
)
zero_copy_call-take (some MsgType.add_order_mpid) t len p h = cc (
  locate-take len p (omega arith),
  timestamp-take len p (omega arith),
  u64_at-take 11 len p (omega arith),
  byte_at-take 19 len p (omega arith),
  u32_at-take 20 len p (omega arith),
  u32_at-take 32 len p (omega arith),
)
zero_copy_call-take (some MsgType.trade) t len p h = cc (
  locate-take len p (omega arith),
  timestamp-take len p (omega arith),
  u64_at-take 11 len p (omega arith),
  byte_at-take 19 len p (omega arith),
  u32_at-take 20 len p (omega arith),
  u32_at-take 32 len p (omega arith),
  u64_at-take 36 len p (omega arith),
)
zero_copy_call-take (some MsgType.cross_trade) t len p h = cc (
  locate-take len p (omega arith),
  timestamp-take len p (omega arith),
  u64_at-take 11 len p (omega arith),
  u32_at-take 27 len p (omega arith),
  u64_at-take 31 len p (omega arith),
  byte_at-take 39 len p (omega arith),
)
zero_copy_call-take (some MsgType.broken_trade) t len p h = cc (
  locate-take len p (omega arith),
  timestamp-take len p (omega arith),
  u64_at-take 11 len p (omega arith),
)
zero_copy_call-take (some MsgType.stock_directory) t len p h = cc (
  locate-take len p (omega arith),
  timestamp-take len p (omega arith),
  stock-take len p (omega arith),
  u32_at-take 21 len p (omega arith),
)
zero_copy_call-take (some MsgType.trading_action) t len p h = cc (
  locate-take len p (omega arith),
  timestamp-take len p (omega arith),
  byte_at-take 19 len p (omega arith),
)
zero_copy_call-take (some MsgType.system_event) t len p h =
    cc (timestamp-take len p (omega arith), byte_at-take 11 len p (omega arith))
zero_copy_call-take none t len p h =
    cc (locate-take len p (omega arith), timestamp-take len p (omega arith))
zero_copy_call-take k t len p h =
    cc (locate-take len p (omega arith), timestamp-take len p (omega arith))
