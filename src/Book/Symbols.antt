-- ===== src/Book/Symbols.antt =====
-- include/tick/symbol_table.hpp: the symbols by their locate code.
use tickerplant.Prelude.{
  ℕ, zero, suc, Bool, true, false, ◌&&◌, Option, none, some, List, ◌++◌, length, take, drop,
  replicate, ltb, update, inc64, if◌then◌else◌,
}
use tickerplant.Risk.Table.{same_token}

pub record SymbolInfo : Type 0 where
  pub name : List ℕ
  pub name_len : ℕ
  pub round_lot : ℕ
  pub trading_state : ℕ
  pub known : Bool

pub record SymbolTable : Type 0 where
  pub entries : ℕ → SymbolInfo
  pub defined : ℕ

abbrev pub no_symbol : SymbolInfo
no_symbol = record {
  name = replicate 8 0;
  name_len = 0;
  round_lot = 0;
  trading_state = 84;
  known = false;
}

-- `define`; the bytes of a longer name that stood there remain past the new one.
unfoldable pub define_symbol : ℕ → List ℕ → ℕ → SymbolTable → SymbolTable
define_symbol locate ticker round_lot t =
    let e = t.entries locate in
    let n = if ltb (length ticker) 8 then length ticker else 8 in
    record {
      entries = update t.entries locate (record e {
        name = take n ticker ++ drop n e.name;
        name_len = n;
        round_lot = round_lot;
        known = true;
      });
      defined = if e.known then t.defined else inc64 t.defined;
    }

unfoldable pub set_trading_state : ℕ → ℕ → SymbolTable → SymbolTable
set_trading_state locate state t = record t {
  entries = update t.entries locate (record (t.entries locate) { trading_state = state });
}

abbrev pub ticker_of : SymbolInfo → List ℕ
ticker_of e = take e.name_len e.name

-- The first index, of `n` from `i` on, whose symbol has the name; `none` is -1.
unfoldable pub find_ticker : ℕ → ℕ → List ℕ → SymbolTable → Option ℕ
find_ticker zero i ticker t = none
find_ticker (suc n) i ticker t =
    let e = t.entries i in
    let rest = find_ticker n (suc i) ticker t in
    if e.known && same_token (ticker_of e) ticker then some i else rest

unfoldable pub find_symbol : List ℕ → SymbolTable → Option ℕ
unfolding find_ticker
find_symbol ticker t = find_ticker 65536 0 ticker t
