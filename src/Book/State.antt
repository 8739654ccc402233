-- ===== src/Book/State.antt =====
-- include/tick/book_builder.hpp: the state of the builder, and what it uses of NanoExchange's price
-- levels and pool. A price and a quantity are the numbers of the feed, a pointer to an order is the
-- number of its place in the pool.
use tickerplant.Prelude.{ℕ, Bool, Option, List}
use tickerplant.OrderMap.Table.{FlatOrderMap}
use tickerplant.Book.Symbols.{SymbolTable}

pub data Side : Type 0 where
  buy : Side
  sell : Side

-- What the builder reads of an order.
pub record Order : Type 0 where
  pub side : Side
  pub price : ℕ
  pub remaining_qty : ℕ
  pub symbol : ℕ

-- A price level. An order is put in and taken out by its pointer, with what it holds then.
pub record LevelOps (L : Type 0) : Type 0 where
  pub append : ℕ → Order → L → L
  pub remove : ℕ → Order → L → L
  pub reduce : ℕ → L → L
  pub is_empty : L → Bool
  pub price : L → ℕ
  pub total_quantity : L → ℕ
  pub order_count : L → ℕ

-- The pool. An order is made of its reference, side, price, shares, time and symbol.
pub record PoolOps (P : Type 0) : Type 0 where
  pub allocate : P → Option (ℕ × P)
  pub deallocate : ℕ → P → P
  pub make_order : ℕ → Side → ℕ → ℕ → ℕ → ℕ → Order

-- One side of a book, a template parameter of the builder. `level` is given what its caller does with
-- the reference; `entries` is what `for_each` walks over, in its order.
pub record SideOps (L S : Type 0) : Type 0 where
  pub level : ℕ → (L → L) → S → S
  pub find : ℕ → S → Option L
  pub erase : ℕ → S → S
  pub best : S → Option (ℕ × L)
  pub entries : S → List (ℕ × L)

-- What a builder is made of.
pub record Ops (L S P : Type 0) : Type 0 where
  pub bids : SideOps L S
  pub asks : SideOps L S
  pub levels : LevelOps L
  pub pools : PoolOps P

pub record BookStats : Type 0 where
  pub messages : ℕ
  pub adds : ℕ
  pub adds_mpid : ℕ
  pub executes : ℕ
  pub executes_with_price : ℕ
  pub cancels : ℕ
  pub deletes : ℕ
  pub replaces : ℕ
  pub trades : ℕ
  pub cross_trades : ℕ
  pub broken_trades : ℕ
  pub directory_entries : ℕ
  pub trading_actions : ℕ
  pub system_events : ℕ
  pub other : ℕ
  pub duplicate_refs : ℕ
  pub orphan_executes : ℕ
  pub orphan_cancels : ℕ
  pub orphan_deletes : ℕ
  pub orphan_replaces : ℕ
  pub overfills : ℕ
  pub pool_exhausted : ℕ
  pub unknown_side : ℕ
  pub live_orders : ℕ
  pub peak_live_orders : ℕ
  pub peak_levels : ℕ
  pub last_timestamp : ℕ
  pub session_state : ℕ

pub record SymbolTotals : Type 0 where
  pub executed_shares : ℕ
  pub executed_notional : ℕ
  pub hidden_shares : ℕ
  pub cross_shares : ℕ
  pub messages : ℕ

-- `store` has the orders that the pointers lead to.
pub record BookBuilder (S P : Type 0) : Type 0 where
  pub pool : P
  pub store : ℕ → Order
  pub orders : FlatOrderMap ℕ
  pub bids : ℕ → S
  pub asks : ℕ → S
  pub totals : ℕ → SymbolTotals
  pub symbols : SymbolTable
  pub stats : BookStats
