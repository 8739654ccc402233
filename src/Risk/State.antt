-- ===== src/Risk/State.antt =====
-- include/tick/risk.hpp: the reasons, the limits, the order being checked, the counters, the symbols,
-- the open orders and the engine. `TopOfBook` is that of include/tick/book_builder.hpp.
use tickerplant.Prelude.{ℕ, ◌/◌, Bool, ◌&&◌, Option, List, ltb, ◌==◌, add64, mul64, if◌then◌else◌}
use tickerplant.Risk.Signed.{half_signed}

pub data RiskReject : Type 0 where
  none : RiskReject
  max_order_size : RiskReject
  max_order_notional : RiskReject
  fat_finger_price : RiskReject
  position_limit : RiskReject
  notional_limit : RiskReject
  max_open_orders : RiskReject
  message_rate : RiskReject
  symbol_not_enabled : RiskReject
  symbol_halted : RiskReject
  kill_switch : RiskReject
  self_cross : RiskReject
  duplicate_token : RiskReject
  stale_market_data : RiskReject

-- The value of the enumerator.
abbrev pub reason_index : RiskReject → ℕ
reason_index RiskReject.none = 0
reason_index RiskReject.max_order_size = 1
reason_index RiskReject.max_order_notional = 2
reason_index RiskReject.fat_finger_price = 3
reason_index RiskReject.position_limit = 4
reason_index RiskReject.notional_limit = 5
reason_index RiskReject.max_open_orders = 6
reason_index RiskReject.message_rate = 7
reason_index RiskReject.symbol_not_enabled = 8
reason_index RiskReject.symbol_halted = 9
reason_index RiskReject.kill_switch = 10
reason_index RiskReject.self_cross = 11
reason_index RiskReject.duplicate_token = 12
reason_index RiskReject.stale_market_data = 13

pub record RiskLimits : Type 0 where
  pub max_order_shares : ℕ
  pub max_order_notional : ℕ
  pub fat_finger_bps : ℕ
  pub max_position_shares : ℕ
  pub max_symbol_notional : ℕ
  pub max_open_orders : ℕ
  pub max_messages_per_second : ℕ
  pub max_market_data_age_ns : ℕ

pub record TopOfBook : Type 0 where
  pub bid_price : ℕ
  pub bid_qty : ℕ
  pub bid_orders : ℕ
  pub ask_price : ℕ
  pub ask_qty : ℕ
  pub ask_orders : ℕ

abbrev pub two_sided : TopOfBook → Bool
two_sided b = ltb 0 b.bid_qty && ltb 0 b.ask_qty

abbrev pub mid : TopOfBook → ℕ
mid b = if two_sided b then half_signed (add64 b.bid_price b.ask_price) else 0

-- The midpoint weighted by the sizes.
abbrev pub micro_price : TopOfBook → ℕ
micro_price b =
    let total = add64 b.bid_qty b.ask_qty in
    if two_sided b
    then (if total == 0
        then mid b
        else add64 (mul64 b.bid_price b.ask_qty) (mul64 b.ask_price b.bid_qty) / total)
    else 0

-- `is_buy` is `side == nano::Side::Buy`; the token is the list of its fourteen bytes.
pub record OrderRequest : Type 0 where
  pub locate : ℕ
  pub token : List ℕ
  pub is_buy : Bool
  pub shares : ℕ
  pub price : ℕ
  pub book : TopOfBook
  pub book_ts_ns : ℕ
  pub now_ns : ℕ

pub record RiskStats : Type 0 where
  pub checked : ℕ
  pub passed : ℕ
  pub rejected : ℕ
  pub by_reason : ℕ → ℕ
  pub orders_sent : ℕ
  pub fills : ℕ
  pub cancels_acked : ℕ
  pub exchange_rejects : ℕ
  pub open_orders : ℕ
  pub open_orders_peak : ℕ
  pub unknown_token_events : ℕ
  pub overfills : ℕ
  pub table_insert_failed : ℕ
  pub working_share_drift : ℕ
  pub filled_notional : ℕ
  pub kill_switch_trips : ℕ
  pub kill_reason : Option (List ℕ)

-- The arrays of the limiter, read at indices below ten.
pub record RateLimiter : Type 0 where
  pub index : ℕ → ℕ
  pub count : ℕ → ℕ

pub record SymbolRisk : Type 0 where
  pub position : ℕ
  pub working_buy_shares : ℕ
  pub working_sell_shares : ℕ
  pub working_buy_orders : ℕ
  pub working_sell_orders : ℕ
  pub best_working_buy : ℕ
  pub best_working_sell : ℕ
  pub enabled : Bool
  pub halted : Bool

pub record OpenOrder : Type 0 where
  pub token : List ℕ
  pub leaves : ℕ
  pub locate : ℕ
  pub is_buy : Bool
  pub occupied : Bool

-- The table of open orders, read at masked indices.
pub record Table : Type 0 where
  pub slots : ℕ → OpenOrder
  pub mask : ℕ

-- `symbols` is read at any 16 bit locate; `slots_` and `mask_` are the table.
pub record RiskEngine : Type 0 where
  pub limits : RiskLimits
  pub symbols : ℕ → SymbolRisk
  pub table : Table
  pub open_orders : ℕ
  pub tripped : Bool
  pub rate : RateLimiter
  pub stats : RiskStats
