-- ===== src/Risk/Check.antt =====
-- include/tick/risk.hpp, RiskEngine::check: the eleven checks in their order, and the counting of
-- their outcome. Each numbered check of the source is a function; `or_next` is its early return.
use tickerplant.Prelude.{
  ℕ, ◌-◌, Bool, ◌&&◌, ◌||◌, none, some, ltb, leb, ◌==◌, update, inc64, add64, sub64, mul64,
  if◌then◌else◌,
}
use tickerplant.Risk.Signed.{slt, sle, neg64}
use tickerplant.Risk.State.{
  RiskReject, reason_index, RiskLimits, two_sided, micro_price, OrderRequest, RiskStats, SymbolRisk,
  RiskEngine,
}
use tickerplant.Risk.Rate.{count_at}
use tickerplant.Risk.Table.{find_open}

abbrev pub or_next : RiskReject → RiskReject → RiskReject
or_next x y = elim x [ RiskReject.none ↦ y | why ↦ why ]

abbrev pub reject_if : Bool → RiskReject → RiskReject
reject_if b why = if b then why else RiskReject.none

unfoldable pub check_symbol : SymbolRisk → RiskReject
check_symbol s =
    if s.enabled then reject_if s.halted RiskReject.symbol_halted else RiskReject.symbol_not_enabled

unfoldable pub check_shape : RiskLimits → OrderRequest → RiskReject
check_shape l r =
    if r.shares == 0 || ltb l.max_order_shares r.shares
    then RiskReject.max_order_size
    else (if sle r.price 0
        then RiskReject.fat_finger_price
        else reject_if (ltb l.max_order_notional (mul64 r.shares r.price))
            RiskReject.max_order_notional)

unfoldable pub check_fresh : RiskLimits → OrderRequest → RiskReject
check_fresh l r =
    if r.book_ts_ns == 0
    then RiskReject.stale_market_data
    else (if ltb r.now_ns r.book_ts_ns
        then RiskReject.stale_market_data
        else reject_if (ltb l.max_market_data_age_ns (r.now_ns - r.book_ts_ns))
            RiskReject.stale_market_data)

-- How far the price is from the reference.
abbrev pub distance : ℕ → ℕ → ℕ
distance price ref = if slt ref price then sub64 price ref else sub64 ref price

unfoldable pub check_fat_finger : RiskLimits → OrderRequest → RiskReject
check_fat_finger l r =
    let ref = micro_price r.book in
    if two_sided r.book
    then (if sle ref 0
        then RiskReject.fat_finger_price
        else reject_if (ltb (mul64 ref l.fat_finger_bps) (mul64 (distance r.price ref) 10000))
            RiskReject.fat_finger_price)
    else RiskReject.fat_finger_price

unfoldable pub worst_long : SymbolRisk → OrderRequest → ℕ
worst_long s r = add64 (add64 s.position s.working_buy_shares) (if r.is_buy then r.shares else 0)

unfoldable pub worst_short : SymbolRisk → OrderRequest → ℕ
worst_short s r = sub64 (sub64 s.position s.working_sell_shares) (if r.is_buy then 0 else r.shares)

unfoldable pub check_position : RiskLimits → SymbolRisk → OrderRequest → RiskReject
unfolding worst_long worst_short
check_position l s r =
    if slt l.max_position_shares (worst_long s r)
    then RiskReject.position_limit
    else reject_if (slt (worst_short s r) (neg64 l.max_position_shares)) RiskReject.position_limit

abbrev pub abs64 : ℕ → ℕ
abs64 v = if slt v 0 then neg64 v else v

abbrev pub larger : ℕ → ℕ → ℕ
larger long short = if slt (abs64 short) (abs64 long) then abs64 long else abs64 short

unfoldable pub worst_shares : SymbolRisk → OrderRequest → ℕ
unfolding worst_long worst_short
worst_shares s r = larger (worst_long s r) (worst_short s r)

unfoldable pub check_notional : RiskLimits → SymbolRisk → OrderRequest → RiskReject
unfolding worst_shares
check_notional l s r =
    reject_if (ltb l.max_symbol_notional (mul64 (worst_shares s r) r.price))
      RiskReject.notional_limit

unfoldable pub check_self_cross : SymbolRisk → OrderRequest → RiskReject
check_self_cross s r =
    if r.is_buy
    then reject_if (ltb 0 s.working_sell_orders && sle s.best_working_sell r.price)
        RiskReject.self_cross
    else reject_if (ltb 0 s.working_buy_orders && sle r.price s.best_working_buy)
        RiskReject.self_cross

unfoldable pub check_open_orders : RiskEngine → RiskReject
check_open_orders e =
    reject_if (leb e.limits.max_open_orders e.open_orders) RiskReject.max_open_orders

unfoldable pub check_rate : RiskEngine → OrderRequest → RiskReject
unfolding count_at
check_rate e r =
    reject_if (leb e.limits.max_messages_per_second (count_at r.now_ns e.rate))
      RiskReject.message_rate

unfoldable pub check_token : RiskEngine → OrderRequest → RiskReject
unfolding find_open
check_token e r = elim (find_open e.table r.token) [
  | none ↦ RiskReject.none
  | some i ↦ RiskReject.duplicate_token
]

unfoldable pub check : OrderRequest → RiskEngine → RiskReject
unfolding check_symbol check_shape check_fresh check_fat_finger check_position check_notional
    check_self_cross check_open_orders check_rate check_token
check r e =
    let s = e.symbols r.locate in
    let l = e.limits in
    or_next (reject_if e.tripped RiskReject.kill_switch) (
      or_next (check_symbol s) (
        or_next (check_shape l r) (
          or_next (check_fresh l r) (
            or_next (check_fat_finger l r) (
              or_next (check_position l s r) (
                or_next (check_notional l s r) (
                  or_next (check_self_cross s r) (
                    or_next (check_open_orders e)
                      (or_next (check_rate e r) (check_token e r))))))))))

abbrev pub count_outcome : RiskReject → RiskStats → RiskStats
count_outcome why t =
    let t' = record t {
      checked = inc64 t.checked;
      by_reason = update t.by_reason (reason_index why) (inc64 (t.by_reason (reason_index why)));
    } in
    elim why [
      | RiskReject.none ↦ record t' { passed = inc64 t.passed }
      | _ ↦ record t' { rejected = inc64 t.rejected }
    ]

unfoldable pub check_and_count : OrderRequest → RiskEngine → RiskEngine × RiskReject
unfolding check
check_and_count r e = (record e { stats = count_outcome (check r e) e.stats }, check r e)
