-- ===== src/Book/Builder.antt =====
-- include/tick/book_builder.hpp: the handlers of the builder, over any book side, price level and pool.
use tickerplant.Prelude.{
  ℕ, ◌-◌, Option, none, some, ltb, leb, ◌==◌, update, inc64, add64, mul64, if◌then◌else◌,
}
use tickerplant.OrderMap.Table.{split_mix_64, insert, find, erase}
use tickerplant.Book.State.{Side, Order, SideOps, Ops, BookStats, BookBuilder}

-- The side of an order from its character; `none` is neither.
abbrev pub side_of : ℕ → Option Side
side_of c = if c == 66 then some Side.buy else (if c == 83 then some Side.sell else none)

-- The one of two that a side names.
abbrev pub pick : {A : Type 0} → Side → A → A → A
pick Side.buy x y = x
pick Side.sell x y = y

module _ {L S P : Type 0} (k : Ops L S P) where
  abbrev pub touch : ℕ → BookBuilder S P → BookBuilder S P
  touch ts b = record b {
    stats = record b.stats { last_timestamp = ts; messages = inc64 b.stats.messages };
  }

  -- `++totals_[locate].messages`
  abbrev pub count_message : ℕ → BookBuilder S P → BookBuilder S P
  count_message locate b =
      let t = b.totals locate in
      record b { totals = update b.totals locate (record t { messages = inc64 t.messages }) }

  abbrev pub record_volume : ℕ → ℕ → ℕ → BookBuilder S P → BookBuilder S P
  record_volume locate shares price b =
      let t = b.totals locate in
      record b {
        totals = update b.totals locate (record t {
          executed_shares = add64 t.executed_shares shares;
          executed_notional = add64 t.executed_notional (mul64 shares price);
        });
      }

  abbrev pub ops_of : Side → SideOps L S
  ops_of side = pick side k.bids k.asks

  abbrev pub side_at : Side → ℕ → BookBuilder S P → S
  side_at side locate b = pick side b.bids b.asks locate

  abbrev pub put_side : Side → ℕ → S → BookBuilder S P → BookBuilder S P
  put_side Side.buy locate s b = record b { bids = update b.bids locate s }
  put_side Side.sell locate s b = record b { asks = update b.asks locate s }

  -- The level of an order without it; a level that is left empty is dropped. A write through the
  -- pointer of `find` is one to the level that `level` refers to.
  abbrev pub unlink_from : Option L → ℕ → Order → BookBuilder S P → BookBuilder S P
  unlink_from none o x b = b
  unlink_from (some l) o x b =
      let s = (ops_of x.side).level x.price (k.levels.remove o x) (side_at x.side x.symbol b) in
      put_side x.side x.symbol
        (if k.levels.is_empty (k.levels.remove o x l) then (ops_of x.side).erase x.price s else s) b

  abbrev pub unlink : ℕ → Order → BookBuilder S P → BookBuilder S P
  unlink o x b = unlink_from ((ops_of x.side).find x.price (side_at x.side x.symbol b)) o x b

  abbrev pub less_live : BookStats → BookStats
  less_live s = record s {
    live_orders = if ltb 0 s.live_orders then s.live_orders - 1 else s.live_orders;
  }

  -- `remove_order`, given what `find` returned.
  abbrev pub remove_found : Option ℕ → ℕ → BookBuilder S P → BookBuilder S P
  remove_found none ref b = b
  remove_found (some o) ref b =
      let b1 = unlink o (b.store o) b in
      record b1 {
        orders = (erase split_mix_64 ref b1.orders).0;
        pool = k.pools.deallocate o b1.pool;
        stats = less_live b1.stats;
      }

  -- `orders_.find`, which counts the lookup.
  abbrev pub look : ℕ → BookBuilder S P → BookBuilder S P × Option ℕ
  look ref b = let r = find split_mix_64 ref b.orders in (record b { orders = r.0 }, r.1)

  abbrev pub remove_order : ℕ → BookBuilder S P → BookBuilder S P
  remove_order ref b = let r = look ref b in remove_found r.1 ref r.0

  -- The level of an order that stays, with its size reduced.
  abbrev pub reduce_level : Option L → Order → ℕ → BookBuilder S P → BookBuilder S P
  reduce_level none x shares b = b
  reduce_level (some l) x shares b =
      put_side x.side x.symbol
        ((ops_of x.side).level x.price (k.levels.reduce shares) (side_at x.side x.symbol b)) b

  abbrev pub reduce : ℕ → ℕ → ℕ → BookBuilder S P → BookBuilder S P
  reduce ref o shares b =
      let x = b.store o in
      let over =
        (if ltb x.remaining_qty shares
          then record b.stats { overfills = inc64 b.stats.overfills }
          else b.stats) in
      let lvl = (ops_of x.side).find x.price (side_at x.side x.symbol b) in
      let left = record x { remaining_qty = x.remaining_qty - shares } in
      if leb x.remaining_qty shares
      then remove_order ref (record b { stats = over })
      else reduce_level lvl x shares (record b { store = update b.store o left })

  -- The end of `on_add` and of `on_replace`: the order `x` that the pool made goes into its level.
  abbrev pub enter : Option (ℕ × P) → Side → ℕ → ℕ → ℕ → Order → BookBuilder S P → BookBuilder S P
  enter none side locate price ref x b = record b {
    stats = record b.stats { pool_exhausted = inc64 b.stats.pool_exhausted };
  }
  enter (some r) side locate price ref x b =
      let b1 =
        put_side side locate
          ((ops_of side).level price (k.levels.append r.0 x) (side_at side locate b))
          (record b { store = update b.store r.0 x; pool = r.1 }) in
      let live = inc64 b1.stats.live_orders in
      record b1 {
        orders = (insert split_mix_64 0 ref r.0 b1.orders).0;
        stats = record b1.stats {
          live_orders = live;
          peak_live_orders =
              if ltb b1.stats.peak_live_orders live then live else b1.stats.peak_live_orders;
        };
      }

  -- `allocate`, and what follows.
  abbrev pub allocate_order : ℕ → Side → ℕ → ℕ → ℕ → ℕ → BookBuilder S P → BookBuilder S P
  allocate_order ref side price shares ts locate b =
      enter (k.pools.allocate b.pool) side locate price ref
        (k.pools.make_order ref side price shares ts locate) b
