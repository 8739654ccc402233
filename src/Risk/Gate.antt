-- ===== src/Risk/Gate.antt =====
-- What an order that the gate of include/tick/risk.hpp lets through satisfies.
use tickerplant.Prelude.{
  ℕ, ◌^◌, ◌+◌, ◌-◌, ◌*◌, ◌<◌, ◌≤◌, ◌≡◌, ◌≢◌, true, false, none, arith, u32_mod, add64, sub64,
  if◌then◌else◌,
}
use tickerplant.Risk.Signed.{i64_mid, excess}
use tickerplant.Risk.State.{RiskReject, OrderRequest, RiskEngine, micro_price, two_sided}
use tickerplant.Risk.Rate.{count_at}
use tickerplant.Risk.Table.{find_open}
use tickerplant.Risk.Check.{
  reject_if, check, check_symbol, check_shape, check_fresh, check_fat_finger, worst_long,
  worst_short, check_position, check_notional, worst_shares, check_self_cross, check_open_orders,
  check_rate,
}
use tickerplant.Risk.Passes.{
  IsWithin, if_below, or_next_none, reject_if_none, times_mono, worst_case_fills, worst_case_shares,
  symbol_none, shape_none, fresh_none, fat_finger_none, position_none, self_cross_none, token_none,
  notional_none, room_none, rate_none,
}

-- The ranges in which the sums and products of the gate do not wrap around.
pub record IsInRange (e : RiskEngine) (r : OrderRequest) : Type 0 where
  pub price : r.price < u32_mod
  pub shares : r.shares < u32_mod
  pub reference : micro_price r.book < u32_mod
  pub bps : e.limits.fat_finger_bps < u32_mod
  pub limit : e.limits.max_position_shares < u32_mod
  pub position_low : 2 ^ 62 ≤ excess (e.symbols r.locate).position
  pub position_high : excess (e.symbols r.locate).position ≤ 2 ^ 63 + 2 ^ 62
  pub buys : (e.symbols r.locate).working_buy_shares < 2 ^ 61
  pub sells : (e.symbols r.locate).working_sell_shares < 2 ^ 61

-- The shares that can fill with this order sent, on each side.
abbrev pub buys_with : RiskEngine → OrderRequest → ℕ
buys_with e r = (e.symbols r.locate).working_buy_shares + (if r.is_buy then r.shares else 0)

abbrev pub sells_with : RiskEngine → OrderRequest → ℕ
sells_with e r = (e.symbols r.locate).working_sell_shares + (if r.is_buy then 0 else r.shares)

-- The position once `b` shares were bought and `s` sold.
abbrev pub position_after : RiskEngine → OrderRequest → ℕ → ℕ → ℕ
position_after e r b s = sub64 (add64 ((e.symbols r.locate).position) b) s

-- What the gate promises of an order that it lets through.
pub record IsAllowed (e : RiskEngine) (r : OrderRequest) : Type 0 where
  pub running : e.tripped ≡ false
  pub enabled : (e.symbols r.locate).enabled ≡ true
  pub trading : (e.symbols r.locate).halted ≡ false
  pub nonempty : 0 < r.shares
  pub size : r.shares ≤ e.limits.max_order_shares
  pub priced : 0 < r.price
  pub cost : r.shares * r.price ≤ e.limits.max_order_notional
  pub updated : 0 < r.book_ts_ns
  pub past : r.book_ts_ns ≤ r.now_ns
  pub fresh : r.now_ns ≤ r.book_ts_ns + e.limits.max_market_data_age_ns
  pub quoted : two_sided r.book ≡ true
  pub not_above :
      (r.price - micro_price r.book) * 10000 ≤ micro_price r.book * e.limits.fat_finger_bps
  pub not_below :
      (micro_price r.book - r.price) * 10000 ≤ micro_price r.book * e.limits.fat_finger_bps
  pub any_fills :
      (b s : ℕ)
      → b ≤ buys_with e r
      → s ≤ sells_with e r
      → IsWithin e.limits.max_position_shares (position_after e r b s)
  pub any_money :
      (b s : ℕ)
      → b ≤ buys_with e r
      → s ≤ sells_with e r
      → ((excess (position_after e r b s) - i64_mid) * r.price ≤ e.limits.max_symbol_notional)
        × ((i64_mid - excess (position_after e r b s)) * r.price ≤ e.limits.max_symbol_notional)
  pub no_cross_buy :
      r.is_buy ≡ true
      → 0 < (e.symbols r.locate).working_sell_orders
      → excess r.price < excess ((e.symbols r.locate).best_working_sell)
  pub no_cross_sell :
      r.is_buy ≡ false
      → 0 < (e.symbols r.locate).working_buy_orders
      → excess ((e.symbols r.locate).best_working_buy) < excess r.price
  pub room : e.open_orders < e.limits.max_open_orders
  pub rate : count_at r.now_ns e.rate < e.limits.max_messages_per_second
  pub new_token : find_open e.table r.token ≡ none

fills_none :
    (e : RiskEngine) (r : OrderRequest)
    → IsInRange e r
    → check_position e.limits (e.symbols r.locate) r ≡ RiskReject.none
    → (b s : ℕ) → b ≤ buys_with e r
    → s ≤ sells_with e r
    → IsWithin e.limits.max_position_shares (position_after e r b s)
unfolding worst_long worst_short
fills_none e r range c b s hb hs =
    let t = e.symbols r.locate in
    let position = position_none e.limits t r c in
    worst_case_fills t.position t.working_buy_shares t.working_sell_shares
      (if r.is_buy then r.shares else 0) (if r.is_buy then 0 else r.shares)
      e.limits.max_position_shares b s range.position_low range.position_high range.buys range.sells
      (if_below r.is_buy r.shares range.shares).0 (if_below r.is_buy r.shares range.shares).1
      range.limit position.0 position.1 hb hs

shares_none :
    (e : RiskEngine) (r : OrderRequest)
    → IsInRange e r
    → check_position e.limits (e.symbols r.locate) r ≡ RiskReject.none
    → (b s : ℕ) → b ≤ buys_with e r
    → s ≤ sells_with e r
    → (worst_shares (e.symbols r.locate) r < u32_mod)
      × (excess (position_after e r b s) - i64_mid ≤ worst_shares (e.symbols r.locate) r)
      × (i64_mid - excess (position_after e r b s) ≤ worst_shares (e.symbols r.locate) r)
unfolding worst_long worst_short worst_shares
shares_none e r range c b s hb hs =
    let t = e.symbols r.locate in
    let position = position_none e.limits t r c in
    worst_case_shares t.position t.working_buy_shares t.working_sell_shares
      (if r.is_buy then r.shares else 0) (if r.is_buy then 0 else r.shares)
      e.limits.max_position_shares b s range.position_low range.position_high range.buys range.sells
      (if_below r.is_buy r.shares range.shares).0 (if_below r.is_buy r.shares range.shares).1
      range.limit position.0 position.1 hb hs

money_none :
    (e : RiskEngine) (r : OrderRequest)
    → IsInRange e r
    → check_position e.limits (e.symbols r.locate) r ≡ RiskReject.none
    → check_notional e.limits (e.symbols r.locate) r ≡ RiskReject.none
    → (b s : ℕ) → b ≤ buys_with e r
    → s ≤ sells_with e r
    → ((excess (position_after e r b s) - i64_mid) * r.price ≤ e.limits.max_symbol_notional)
      × ((i64_mid - excess (position_after e r b s)) * r.price ≤ e.limits.max_symbol_notional)
money_none e r range c c' b s hb hs =
    let (small, up, down) = shares_none e r range c b s hb hs in
    let worth = notional_none e.limits (e.symbols r.locate) r range.price small c' in
    (
      omega (arith, worth, times_mono _ _ r.price up),
      omega (arith, worth, times_mono _ _ r.price down),
    )

kill_switch_refuses : RiskReject.kill_switch ≢ RiskReject.none
kill_switch_refuses h = ground arith

-- An order that `check` lets through satisfies every limit: the switch, the symbol, its size, price
-- and cost, the age of its book, the distance from the reference, no cross with our own orders, room
-- for it, the rate, a new token; and whatever part of the working orders and of this one fills, the
-- position stays within the limit in both directions, and its value at the order's price within the
-- limit of the symbol. Premise: quantities in the ranges where the sums and products do not wrap.
pub check-IsAllowed :
    (e : RiskEngine) (r : OrderRequest)
    → IsInRange e r
    → check r e ≡ RiskReject.none
    → IsAllowed e r
unfolding check
check-IsAllowed e r range h =
    let s = e.symbols r.locate in
    let l = e.limits in
    let (c1, h1) = or_next_none (reject_if e.tripped RiskReject.kill_switch) _ h in
    let (c2, h2) = or_next_none (check_symbol s) _ h1 in
    let (c3, h3) = or_next_none (check_shape l r) _ h2 in
    let (c4, h4) = or_next_none (check_fresh l r) _ h3 in
    let (c5, h5) = or_next_none (check_fat_finger l r) _ h4 in
    let (c6, h6) = or_next_none (check_position l s r) _ h5 in
    let (c7, h7) = or_next_none (check_notional l s r) _ h6 in
    let (c8, h8) = or_next_none (check_self_cross s r) _ h7 in
    let (c9, h9) = or_next_none (check_open_orders e) _ h8 in
    let (c10, c11) = or_next_none (check_rate e r) _ h9 in
    let symbol = symbol_none s c2 in
    let shape = shape_none l r range.price range.shares c3 in
    let fresh = fresh_none l r c4 in
    let near = fat_finger_none l r range.price range.reference range.bps c5 in
    let position = position_none l s r c6 in
    let cross = self_cross_none s r c8 in
    let fills = fills_none e r range c6 in
    let money = money_none e r range c6 c7 in
    record {
      running = reject_if_none e.tripped RiskReject.kill_switch kill_switch_refuses c1;
      enabled = symbol.0;
      trading = symbol.1;
      nonempty = shape.0;
      size = shape.1;
      priced = shape.2;
      cost = shape.3;
      updated = fresh.0;
      past = fresh.1;
      fresh = fresh.2;
      quoted = near.0;
      not_above = near.1;
      not_below = near.2;
      any_fills = fills;
      any_money = money;
      no_cross_buy = cross.0;
      no_cross_sell = cross.1;
      room = room_none e c9;
      rate = rate_none e r c10;
      new_token = token_none e r c11;
    }
