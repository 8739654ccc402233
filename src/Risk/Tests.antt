-- ===== src/Risk/Tests.antt =====
-- Orders at the gate of include/tick/risk.hpp, to run.
use tickerplant.Prelude.{
  true, false, ◌≡◌, refl, some, List, [], ◌∷◌, arith, replicate, mul64, add64, sub64,
}
use tickerplant.Risk.State.{RiskReject, RiskLimits, TopOfBook, OrderRequest, RiskEngine}
use tickerplant.Risk.Rate.{count_at, record_message, clear}
use tickerplant.Risk.Check.{check}
use tickerplant.Risk.Engine.{make, enable_symbol, on_order_sent, trip_kill_switch}
use tickerplant.Risk.Gate.{IsInRange, IsAllowed, check-IsAllowed}
use tickerplant.Risk.Kill.{RiskEvent, fills, sends, enables, run_events, tripped_refuses_all}

abbrev day : RiskLimits
day = record {
  max_order_shares = 1000;
  max_order_notional = 1000000000;
  fat_finger_bps = 500;
  max_position_shares = 2000;
  max_symbol_notional = 4000000000;
  max_open_orders = 16;
  max_messages_per_second = 100;
  max_market_data_age_ns = 1000000;
}

abbrev quote : TopOfBook
quote = record {
  bid_price = 990000;
  bid_qty = 300;
  bid_orders = 2;
  ask_price = 1010000;
  ask_qty = 100;
  ask_orders = 1;
}

abbrev buy_some : OrderRequest
buy_some = record {
  locate = 7;
  token = replicate 14 65;
  is_buy = true;
  shares = 500;
  price = 1000000;
  book = quote;
  book_ts_ns = 5000000;
  now_ns = 5500000;
}

abbrev ready : RiskEngine
ready = enable_symbol 7 true (make day)

passes : check buy_some ready ≡ RiskReject.none
unfolding check make enable_symbol mul64 add64 sub64
passes = refl

-- Sent twice, the second is refused for its token.
sent_twice : check buy_some (on_order_sent buy_some ready) ≡ RiskReject.duplicate_token
unfolding check make enable_symbol on_order_sent mul64 add64 sub64
sent_twice = refl

in_range : IsInRange ready buy_some
unfolding make enable_symbol add64 mul64
in_range = record {
  price = omega arith;
  shares = omega arith;
  reference = omega arith;
  bps = omega arith;
  limit = omega arith;
  position_low = omega arith;
  position_high = omega arith;
  buys = omega arith;
  sells = omega arith;
}

check-IsAllowed_example : IsAllowed ready buy_some
check-IsAllowed_example = check-IsAllowed ready buy_some in_range passes

running : ready.tripped ≡ false
unfolding make enable_symbol
running = refl

abbrev after : List RiskEvent
after = sends buy_some ∷ fills (replicate 14 65) 500 1000000 ∷ enables 7 true ∷ []

tripped_refuses_all_example :
    ((r : OrderRequest)
      → check r (run_events (trip_kill_switch (66 ∷ []) ready) after) ≡ RiskReject.kill_switch)
    × ((run_events (trip_kill_switch (66 ∷ []) ready) after).stats.kill_reason ≡ some (66 ∷ []))
tripped_refuses_all_example = tripped_refuses_all ready (66 ∷ []) after running

-- A message at the end of the first bucket is counted in it, and no more 900 ms later.
counted_now : count_at 99999999 (record_message 99999999 clear) ≡ 1
unfolding count_at record_message clear add64
counted_now = refl

forgotten_early : count_at 1000000000 (record_message 99999999 clear) ≡ 0
unfolding count_at record_message clear add64
forgotten_early = refl
