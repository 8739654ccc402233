-- ===== src/Itch/Writer.antt =====
-- include/tick/itch_writer.hpp: the writers of messages. A buffer is a list of bytes, and a function that
-- writes through a pointer returns the buffer; with a size in front when the source returns one.
-- `write_header` is called for what it writes only.
use tickerplant.Prelude.{
  ℕ, zero, suc, ◌+◌, ◌%◌, Bool, List, [], ◌∷◌, ◌++◌, length, take, drop, u16_mod, if◌then◌else◌,
}
use tickerplant.Endian.{be_store, be_store_u48}
use tickerplant.Itch.Lengths.{message_length}

abbrev pub Buffer : Type 0
Buffer = List ℕ

-- Bytes stored at an offset.
unfoldable pub store_at : ℕ → List ℕ → Buffer → Buffer
store_at off bytes out = take off out ++ (bytes ++ drop (off + length bytes) out)

abbrev pub put_char : ℕ → ℕ → Buffer → Buffer
put_char off c out = store_at off (c ∷ []) out

-- The characters that `put_alpha` stores: those of the view, and spaces behind them.
unfoldable pub alpha : ℕ → List ℕ → List ℕ
alpha zero s = []
alpha (suc width) [] = 32 ∷ alpha width []
alpha (suc width) (c ∷ s) = c ∷ alpha width s

abbrev pub put_alpha : ℕ → List ℕ → ℕ → Buffer → Buffer
put_alpha off s width out = store_at off (alpha width s) out

abbrev pub put_stock : ℕ → List ℕ → Buffer → Buffer
put_stock off sym out = put_alpha off sym 8 out

-- `be_store` at `out + off`, for words of two, four and eight bytes.
abbrev pub put_u16 : ℕ → ℕ → Buffer → Buffer
put_u16 off v out = store_at off (be_store 2 v) out

abbrev pub put_u32 : ℕ → ℕ → Buffer → Buffer
put_u32 off v out = store_at off (be_store 4 v) out

abbrev pub put_u64 : ℕ → ℕ → Buffer → Buffer
put_u64 off v out = store_at off (be_store 8 v) out

abbrev pub put_u48 : ℕ → ℕ → Buffer → Buffer
put_u48 off v out = store_at off (be_store_u48 v) out

unfoldable pub write_header : ℕ → ℕ → ℕ → ℕ → Buffer → Buffer
write_header type locate tracking timestamp out =
    let b1 = put_char 0 type out in
    let b2 = put_u16 1 locate b1 in let b3 = put_u16 3 tracking b2 in put_u48 5 timestamp b3

-- What every message says of itself besides its type.
pub record Stamp : Type 0 where
  pub locate : ℕ
  pub tracking : ℕ
  pub timestamp : ℕ

abbrev pub header_of : ℕ → Stamp → Buffer → Buffer
header_of type h out = write_header type h.locate h.tracking h.timestamp out

unfoldable pub write_system_event : Stamp → ℕ → Buffer → ℕ × Buffer
write_system_event h event_code out =
    (message_length 83, put_char 11 event_code (header_of 83 h out))

pub record StockDirectoryFields : Type 0 where
  pub stock : List ℕ
  pub market_category : ℕ
  pub financial_status : ℕ
  pub round_lot_size : ℕ
  pub round_lots_only : ℕ
  pub issue_classification : ℕ
  pub issue_sub_type : List ℕ
  pub authenticity : ℕ
  pub short_sale_threshold : ℕ
  pub ipo_flag : ℕ
  pub luld_tier : ℕ
  pub etp_flag : ℕ
  pub etp_leverage : ℕ
  pub inverse_indicator : ℕ

-- The defaults of the fields: a plain common stock.
abbrev pub default_directory : StockDirectoryFields
default_directory = record {
  stock = [];
  market_category = 81;
  financial_status = 78;
  round_lot_size = 100;
  round_lots_only = 78;
  issue_classification = 67;
  issue_sub_type = 90 ∷ [];
  authenticity = 80;
  short_sale_threshold = 78;
  ipo_flag = 78;
  luld_tier = 49;
  etp_flag = 78;
  etp_leverage = 0;
  inverse_indicator = 78;
}

unfoldable pub write_stock_directory : Stamp → StockDirectoryFields → Buffer → ℕ × Buffer
write_stock_directory h f out =
    let b1 = put_stock 11 f.stock (header_of 82 h out) in
    let b2 = put_char 19 f.market_category b1 in
    let b3 = put_char 20 f.financial_status b2 in
    let b4 = put_u32 21 f.round_lot_size b3 in
    let b5 = put_char 25 f.round_lots_only b4 in
    let b6 = put_char 26 f.issue_classification b5 in
    let b7 = put_alpha 27 f.issue_sub_type 2 b6 in
    let b8 = put_char 29 f.authenticity b7 in
    let b9 = put_char 30 f.short_sale_threshold b8 in
    let b10 = put_char 31 f.ipo_flag b9 in
    let b11 = put_char 32 f.luld_tier b10 in
    let b12 = put_char 33 f.etp_flag b11 in
    let b13 = put_u32 34 f.etp_leverage b12 in
    (message_length 82, put_char 38 f.inverse_indicator b13)

unfoldable pub write_trading_action : Stamp → List ℕ → ℕ → List ℕ → Buffer → ℕ × Buffer
write_trading_action h stock trading_state reason out =
    let b1 = put_stock 11 stock (header_of 72 h out) in
    let b2 = put_char 19 trading_state b1 in
    let b3 = put_char 20 32 b2 in (message_length 72, put_alpha 21 reason 4 b3)

unfoldable pub write_add_order : Stamp → ℕ → ℕ → ℕ → List ℕ → ℕ → Buffer → ℕ × Buffer
write_add_order h order_ref side shares stock price out =
    let b1 = put_u64 11 order_ref (header_of 65 h out) in
    let b2 = put_char 19 side b1 in
    let b3 = put_u32 20 shares b2 in
    let b4 = put_stock 24 stock b3 in (message_length 65, put_u32 32 price b4)

unfoldable pub write_add_order_mpid : Stamp → ℕ → ℕ → ℕ → List ℕ → ℕ → List ℕ → Buffer → ℕ × Buffer
unfolding write_add_order
write_add_order_mpid h order_ref side shares stock price mpid out =
    let b1 = (write_add_order h order_ref side shares stock price out).1 in
    let b2 = put_char 0 70 b1 in (message_length 70, put_alpha 36 mpid 4 b2)

unfoldable pub write_order_executed : Stamp → ℕ → ℕ → ℕ → Buffer → ℕ × Buffer
write_order_executed h order_ref executed_shares match_number out =
    let b1 = put_u64 11 order_ref (header_of 69 h out) in
    let b2 = put_u32 19 executed_shares b1 in (message_length 69, put_u64 23 match_number b2)

unfoldable pub write_order_executed_price : Stamp → ℕ → ℕ → ℕ → Bool → ℕ → Buffer → ℕ × Buffer
write_order_executed_price h order_ref executed_shares match_number printable price out =
    let b1 = put_u64 11 order_ref (header_of 67 h out) in
    let b2 = put_u32 19 executed_shares b1 in
    let b3 = put_u64 23 match_number b2 in
    let b4 = put_char 31 (if printable then 89 else 78) b3 in
    (message_length 67, put_u32 32 price b4)

unfoldable pub write_order_cancel : Stamp → ℕ → ℕ → Buffer → ℕ × Buffer
write_order_cancel h order_ref cancelled_shares out =
    let b1 = put_u64 11 order_ref (header_of 88 h out) in
    (message_length 88, put_u32 19 cancelled_shares b1)

unfoldable pub write_order_delete : Stamp → ℕ → Buffer → ℕ × Buffer
write_order_delete h order_ref out = (message_length 68, put_u64 11 order_ref (header_of 68 h out))

unfoldable pub write_order_replace : Stamp → ℕ → ℕ → ℕ → ℕ → Buffer → ℕ × Buffer
write_order_replace h original_ref new_ref shares price out =
    let b1 = put_u64 11 original_ref (header_of 85 h out) in
    let b2 = put_u64 19 new_ref b1 in
    let b3 = put_u32 27 shares b2 in (message_length 85, put_u32 31 price b3)

unfoldable pub write_trade : Stamp → ℕ → ℕ → ℕ → List ℕ → ℕ → ℕ → Buffer → ℕ × Buffer
write_trade h order_ref side shares stock price match_number out =
    let b1 = put_u64 11 order_ref (header_of 80 h out) in
    let b2 = put_char 19 side b1 in
    let b3 = put_u32 20 shares b2 in
    let b4 = put_stock 24 stock b3 in
    let b5 = put_u32 32 price b4 in (message_length 80, put_u64 36 match_number b5)

unfoldable pub write_cross_trade : Stamp → ℕ → List ℕ → ℕ → ℕ → ℕ → Buffer → ℕ × Buffer
write_cross_trade h shares stock cross_price match_number cross_type out =
    let b1 = put_u64 11 shares (header_of 81 h out) in
    let b2 = put_stock 19 stock b1 in
    let b3 = put_u32 27 cross_price b2 in
    let b4 = put_u64 31 match_number b3 in (message_length 81, put_char 39 cross_type b4)

unfoldable pub write_broken_trade : Stamp → ℕ → Buffer → ℕ × Buffer
write_broken_trade h match_number out =
    (message_length 66, put_u64 11 match_number (header_of 66 h out))

unfoldable pub frame : ℕ → Buffer → ℕ × Buffer
frame body_len out = (2 + body_len, put_u16 0 (body_len % u16_mod) out)

-- `write_framed`: the body is written two bytes behind the front.
unfoldable pub write_framed : (Buffer → ℕ × Buffer) → Buffer → ℕ × Buffer
unfolding frame
write_framed write_body out = let r = write_body (drop 2 out) in frame r.0 (take 2 out ++ r.1)
