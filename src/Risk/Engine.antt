-- ===== src/Risk/Engine.antt =====
-- include/tick/risk.hpp, RiskEngine: what the events of an order do to the engine, the kill switch,
-- and the configuration.
use tickerplant.Prelude.{
  ℕ, ◌+◌, ◌-◌, ◌%◌, Bool, true, false, ◌||◌, not, none, some, List, [], ◌∷◌, ltb, ◌==◌, update,
  u32_mod, inc64, add64, sub64, mul64, if◌then◌else◌,
}
use tickerplant.Risk.Signed.{slt}
use tickerplant.Risk.State.{RiskLimits, OrderRequest, RiskStats, SymbolRisk, RiskEngine}
use tickerplant.Risk.Rate.{record_message, clear}
use tickerplant.Risk.Table.{size_open_order_table, find_open, insert_open, erase_at}

abbrev pub no_risk : SymbolRisk
no_risk = record {
  position = 0;
  working_buy_shares = 0;
  working_sell_shares = 0;
  working_buy_orders = 0;
  working_sell_orders = 0;
  best_working_buy = 0;
  best_working_sell = 0;
  enabled = false;
  halted = false;
}

abbrev pub no_stats : RiskStats
no_stats = record {
  checked = 0;
  passed = 0;
  rejected = 0;
  by_reason = λ _. 0;
  orders_sent = 0;
  fills = 0;
  cancels_acked = 0;
  exchange_rejects = 0;
  open_orders = 0;
  open_orders_peak = 0;
  unknown_token_events = 0;
  overfills = 0;
  table_insert_failed = 0;
  working_share_drift = 0;
  filled_notional = 0;
  kill_switch_trips = 0;
  kill_reason = none;
}

unfoldable pub make : RiskLimits → RiskEngine
unfolding size_open_order_table clear
make l = record {
  limits = l;
  symbols = λ _. no_risk;
  table = size_open_order_table l.max_open_orders;
  open_orders = 0;
  tripped = false;
  rate = clear;
  stats = no_stats;
}

-- "open order table full"
abbrev pub table_full : List ℕ
table_full =
    111 ∷ 112 ∷ 101 ∷ 110 ∷ 32 ∷ 111 ∷ 114 ∷ 100 ∷ 101 ∷ 114 ∷ 32 ∷ 116 ∷ 97 ∷ 98 ∷ 108 ∷ 101 ∷ 32
    ∷ 102 ∷ 117 ∷ 108 ∷ 108 ∷ []

unfoldable pub trip_kill_switch : List ℕ → RiskEngine → RiskEngine
trip_kill_switch why e = record e {
  tripped = true;
  stats = record (e.stats) {
    kill_reason = if e.tripped then e.stats.kill_reason else some why;
    kill_switch_trips = inc64 e.stats.kill_switch_trips;
  };
}

unfoldable pub reset_kill_switch_after_human_review : RiskEngine → RiskEngine
reset_kill_switch_after_human_review e = record e {
  tripped = false;
  stats = record (e.stats) { kill_reason = none };
}

abbrev pub set_symbol : ℕ → (SymbolRisk → SymbolRisk) → RiskEngine → RiskEngine
set_symbol q f e = record e { symbols = update e.symbols q (f (e.symbols q)) }

-- The exposure that an order adds to its symbol.
unfoldable pub add_working : OrderRequest → SymbolRisk → SymbolRisk
add_working r s =
    if r.is_buy
    then (record s {
      working_buy_shares = add64 s.working_buy_shares r.shares;
      best_working_buy =
          if s.working_buy_orders == 0 || slt s.best_working_buy r.price
          then r.price
          else s.best_working_buy;
      working_buy_orders = (s.working_buy_orders + 1) % u32_mod;
    })
    else (record s {
      working_sell_shares = add64 s.working_sell_shares r.shares;
      best_working_sell =
          if s.working_sell_orders == 0 || slt r.price s.best_working_sell
          then r.price
          else s.best_working_sell;
      working_sell_orders = (s.working_sell_orders + 1) % u32_mod;
    })

-- The counts of an order that went out.
abbrev pub count_sent : OrderRequest → RiskEngine → RiskEngine
count_sent r e =
    let n = (e.open_orders + 1) % u32_mod in
    record e {
      open_orders = n;
      rate = record_message r.now_ns e.rate;
      stats = record (e.stats) {
        orders_sent = inc64 e.stats.orders_sent;
        open_orders = n;
        open_orders_peak = if ltb e.stats.open_orders_peak n then n else e.stats.open_orders_peak;
      };
    }

unfoldable pub on_order_sent : OrderRequest → RiskEngine → RiskEngine
unfolding insert_open trip_kill_switch add_working record_message
on_order_sent r e = elim (insert_open r e.table) [
  | none ↦ trip_kill_switch table_full (record e {
    stats = record (e.stats) { table_insert_failed = inc64 e.stats.table_insert_failed };
  })
  | some t ↦ count_sent r (set_symbol r.locate (add_working r) (record e { table = t }))
]

-- What `retire` does to the symbol of an order; the second part is the drift it counts.
unfoldable pub retire_symbol : Bool → SymbolRisk → SymbolRisk × Bool
retire_symbol was_buy s =
    let buys = s.working_buy_orders - 1 in
    let sells = s.working_sell_orders - 1 in
    if was_buy
    then (if buys == 0
        then (
          record s { working_buy_orders = 0; best_working_buy = 0; working_buy_shares = 0 },
          not (s.working_buy_shares == 0),
        )
        else (record s { working_buy_orders = buys }, false))
    else (if sells == 0
        then (
          record s { working_sell_orders = 0; best_working_sell = 0; working_sell_shares = 0 },
          not (s.working_sell_shares == 0),
        )
        else (record s { working_sell_orders = sells }, false))

unfoldable pub retire : ℕ → RiskEngine → RiskEngine
unfolding erase_at retire_symbol
retire slot e =
    let o = e.table.slots slot in
    let (s, drift) = retire_symbol o.is_buy (e.symbols o.locate) in
    record e {
      table = erase_at slot e.table;
      open_orders = e.open_orders - 1;
      symbols = update e.symbols o.locate s;
      stats = record (e.stats) {
        open_orders = e.open_orders - 1;
        working_share_drift =
            if drift then inc64 e.stats.working_share_drift else e.stats.working_share_drift;
      };
    }

abbrev pub unknown_token : RiskEngine → RiskEngine
unknown_token e = record e {
  stats = record (e.stats) { unknown_token_events = inc64 e.stats.unknown_token_events };
}

-- `n > o.leaves`: count it, and take what is left.
abbrev pub clamp : ℕ → ℕ → ℕ
clamp n leaves = if ltb leaves n then leaves else n

abbrev pub count_overfill : ℕ → ℕ → RiskStats → RiskStats
count_overfill n leaves t = if ltb leaves n then (record t { overfills = inc64 t.overfills }) else t

abbrev pub set_leaves : ℕ → ℕ → RiskEngine → RiskEngine
set_leaves slot n e = record e {
  table = record (e.table) {
    slots = update e.table.slots slot (record (e.table.slots slot) { leaves = n });
  };
}

abbrev pub take_working : Bool → ℕ → SymbolRisk → SymbolRisk
take_working was_buy n s =
    if was_buy
    then (record s { working_buy_shares = sub64 s.working_buy_shares n })
    else (record s { working_sell_shares = sub64 s.working_sell_shares n })

abbrev pub fill_symbol : Bool → ℕ → SymbolRisk → SymbolRisk
fill_symbol was_buy n s = record (take_working was_buy n s) {
  position = if was_buy then add64 s.position n else sub64 s.position n;
}

abbrev pub retire_if_done : ℕ → ℕ → RiskEngine → RiskEngine
retire_if_done leaves slot e = if leaves == 0 then retire slot e else e

-- What is left of an order once `n` shares are gone.
abbrev pub left : ℕ → ℕ → ℕ
left n leaves = leaves - clamp n leaves

-- `on_fill` of the open order at `slot`, before the order is retired.
unfoldable pub take_fill : ℕ → ℕ → ℕ → RiskEngine → RiskEngine
take_fill shares price slot e =
    let o = e.table.slots slot in
    let n = clamp shares o.leaves in
    let t = count_overfill shares o.leaves e.stats in
    let e' =
      set_symbol o.locate (fill_symbol o.is_buy n) (set_leaves slot (left shares o.leaves) e) in
    record e' {
      stats = record t {
        filled_notional = add64 t.filled_notional (mul64 n (if slt 0 price then price else 0));
        fills = inc64 t.fills;
      };
    }

unfoldable pub fill_slot : ℕ → ℕ → ℕ → RiskEngine → RiskEngine
unfolding retire take_fill
fill_slot shares price slot e =
    retire_if_done (left shares ((e.table.slots slot).leaves)) slot (take_fill shares price slot e)

unfoldable pub on_fill : List ℕ → ℕ → ℕ → RiskEngine → RiskEngine
unfolding find_open fill_slot
on_fill token shares price e = elim (find_open e.table token) [
  | none ↦ unknown_token e
  | some slot ↦ fill_slot shares price slot e
]

abbrev pub decrement : ℕ → ℕ → ℕ
decrement shares leaves = if shares == 0 then leaves else shares

-- `on_cancel_acked` of the open order at `slot`, before the order is retired.
unfoldable pub take_cancel : ℕ → ℕ → RiskEngine → RiskEngine
take_cancel want slot e =
    let o = e.table.slots slot in
    let t = count_overfill want o.leaves e.stats in
    let e' =
      set_symbol o.locate (take_working o.is_buy (clamp want o.leaves))
        (set_leaves slot (left want o.leaves) e) in
    record e' { stats = record t { cancels_acked = inc64 t.cancels_acked } }

unfoldable pub cancel_slot : ℕ → ℕ → RiskEngine → RiskEngine
unfolding retire take_cancel
cancel_slot shares slot e =
    let leaves = (e.table.slots slot).leaves in
    let want = decrement shares leaves in
    retire_if_done (left want leaves) slot (take_cancel want slot e)

unfoldable pub on_cancel_acked : List ℕ → ℕ → RiskEngine → RiskEngine
unfolding find_open cancel_slot
on_cancel_acked token shares e = elim (find_open e.table token) [
  | none ↦ unknown_token e
  | some slot ↦ cancel_slot shares slot e
]

-- `on_reject` of the open order at `slot`, before the order is retired.
unfoldable pub take_reject : ℕ → RiskEngine → RiskEngine
take_reject slot e =
    let o = e.table.slots slot in
    let e' = set_symbol o.locate (take_working o.is_buy o.leaves) (set_leaves slot 0 e) in
    record e' { stats = record (e.stats) { exchange_rejects = inc64 e.stats.exchange_rejects } }

unfoldable pub reject_slot : ℕ → RiskEngine → RiskEngine
unfolding retire take_reject
reject_slot slot e = retire slot (take_reject slot e)

unfoldable pub on_reject : List ℕ → RiskEngine → RiskEngine
unfolding find_open reject_slot
on_reject token e = elim (find_open e.table token) [
  | none ↦ unknown_token e
  | some slot ↦ reject_slot slot e
]

unfoldable pub enable_symbol : ℕ → Bool → RiskEngine → RiskEngine
enable_symbol q on e = set_symbol q (λ s. record s { enabled = on }) e

unfoldable pub set_halted : ℕ → Bool → RiskEngine → RiskEngine
set_halted q on e = set_symbol q (λ s. record s { halted = on }) e

-- 'T' is 84.
unfoldable pub on_trading_action : ℕ → ℕ → RiskEngine → RiskEngine
on_trading_action q state e = set_symbol q (λ s. record s { halted = not (state == 84) }) e

unfoldable pub set_limits : RiskLimits → RiskEngine → RiskEngine × Bool
unfolding size_open_order_table
set_limits l e =
    if e.open_orders == 0
    then (record e { limits = l; table = size_open_order_table l.max_open_orders }, true)
    else (e, false)

unfoldable pub set_position : ℕ → ℕ → RiskEngine → RiskEngine
set_position q shares e = set_symbol q (λ s. record s { position = shares }) e
