-- ===== src/Book/Handlers.antt =====
-- include/tick/book_builder.hpp: what the builder does with each message of the feed.
use tickerplant.Prelude.{
  ℕ, Bool, true, Option, none, some, List, [], ◌∷◌, update, inc64, add64, if◌then◌else◌,
}
use tickerplant.Itch.Event.{
  HandlerCall, on_system_event, on_stock_directory, on_trading_action, on_add, on_execute,
  on_execute_price, on_cancel, on_delete, on_replace, on_trade, on_cross_trade, on_broken_trade,
  on_other,
}
use tickerplant.Book.Symbols.{define_symbol, set_trading_state}
use tickerplant.Book.State.{Side, Ops, BookStats, BookBuilder}
use tickerplant.Book.Builder.{
  side_of, touch, count_message, record_volume, look, remove_order, reduce, allocate_order,
}

-- A counter of the handlers goes up.
abbrev pub counting : {S P : Type 0} → (BookStats → BookStats) → BookBuilder S P → BookBuilder S P
counting f b = record b { stats = f b.stats }

-- The counters of `on_add`.
abbrev pub count_add : Bool → BookStats → BookStats
count_add mpid s = record s {
  adds = inc64 s.adds;
  adds_mpid = if mpid then inc64 s.adds_mpid else s.adds_mpid;
}

-- The counters of the other messages about orders.
abbrev pub count_execute : BookStats → BookStats
count_execute s = record s { executes = inc64 s.executes }

abbrev pub count_execute_price : BookStats → BookStats
count_execute_price s = record s {
  executes = inc64 s.executes;
  executes_with_price = inc64 s.executes_with_price;
}

abbrev pub count_cancel : BookStats → BookStats
count_cancel s = record s { cancels = inc64 s.cancels }

abbrev pub count_delete : BookStats → BookStats
count_delete s = record s { deletes = inc64 s.deletes }

abbrev pub count_replace : BookStats → BookStats
count_replace s = record s { replaces = inc64 s.replaces }

module _ {L S P : Type 0} (k : Ops L S P) where
  -- A duplicate reference: the old order is removed.
  abbrev pub displace : Option ℕ → ℕ → BookBuilder S P → BookBuilder S P
  displace none ref b = b
  displace (some o) ref b =
      remove_order k ref (counting (λ s. record s { duplicate_refs = inc64 s.duplicate_refs }) b)

  -- `on_add` past its counters, given the side.
  abbrev pub add_side : Option Side → ℕ → ℕ → ℕ → ℕ → ℕ → BookBuilder S P → BookBuilder S P
  add_side none locate ts ref shares price b =
      counting (λ s. record s { unknown_side = inc64 s.unknown_side }) b
  add_side (some side) locate ts ref shares price b =
      let r = look k ref b in
      allocate_order k ref side price shares ts locate (displace r.1 ref r.0)

  -- `on_execute` and `on_execute_price` past their counters; the price is the message's, or `none` for
  -- the order's own.
  abbrev pub execute_found : Option ℕ → Bool → Option ℕ → ℕ → ℕ → BookBuilder S P → BookBuilder S P
  execute_found none printable price ref shares b =
      counting (λ s. record s { orphan_executes = inc64 s.orphan_executes }) b
  execute_found (some o) printable none ref shares b =
      let x = b.store o in reduce k ref o shares (record_volume k x.symbol shares x.price b)
  execute_found (some o) printable (some price) ref shares b =
      let x = b.store o in
      reduce k ref o shares (if printable then record_volume k x.symbol shares price b else b)

  abbrev pub cancel_found : Option ℕ → ℕ → ℕ → BookBuilder S P → BookBuilder S P
  cancel_found none ref shares b =
      counting (λ s. record s { orphan_cancels = inc64 s.orphan_cancels }) b
  cancel_found (some o) ref shares b = reduce k ref o shares b

  abbrev pub delete_found : Option ℕ → ℕ → BookBuilder S P → BookBuilder S P
  delete_found none ref b = counting (λ s. record s { orphan_deletes = inc64 s.orphan_deletes }) b
  delete_found (some o) ref b = remove_order k ref b

  abbrev pub replace_found : Option ℕ → ℕ → ℕ → ℕ → ℕ → ℕ → BookBuilder S P → BookBuilder S P
  replace_found none ts old_ref new_ref shares price b =
      counting (λ s. record s { orphan_replaces = inc64 s.orphan_replaces }) b
  replace_found (some o) ts old_ref new_ref shares price b =
      let x = b.store o in
      allocate_order k new_ref x.side price shares ts x.symbol (remove_order k old_ref b)

  -- The start of a handler: `touch`, its counter, and the message of its symbol.
  abbrev pub begin : (BookStats → BookStats) → ℕ → ℕ → BookBuilder S P → BookBuilder S P
  begin f locate ts b = count_message k locate (counting f (touch k ts b))

  unfoldable pub handle : HandlerCall → BookBuilder S P → BookBuilder S P
  unfolding define_symbol set_trading_state
  handle (on_system_event ts code) b =
      counting (λ s. record s { system_events = inc64 s.system_events })
        (touch k ts (counting (λ s. record s { session_state = code }) b))
  handle (on_stock_directory locate ts ticker round_lot) b =
      counting (λ s. record s { directory_entries = inc64 s.directory_entries })
        (touch k ts (record b { symbols = define_symbol locate ticker round_lot b.symbols }))
  handle (on_trading_action locate ts state) b =
      counting (λ s. record s { trading_actions = inc64 s.trading_actions })
        (touch k ts (record b { symbols = set_trading_state locate state b.symbols }))
  handle (on_add locate ts ref side_char shares price has_mpid) b =
      add_side (side_of side_char) locate ts ref shares price
        (begin (count_add has_mpid) locate ts b)
  handle (on_execute locate ts ref shares match_number) b =
      let r = look k ref (begin count_execute locate ts b) in
      execute_found r.1 true none ref shares r.0
  handle (on_execute_price locate ts ref shares match_number printable price) b =
      let r = look k ref (begin count_execute_price locate ts b) in
      execute_found r.1 printable (some price) ref shares r.0
  handle (on_cancel locate ts ref shares) b =
      let r = look k ref (begin count_cancel locate ts b) in cancel_found r.1 ref shares r.0
  handle (on_delete locate ts ref) b =
      let r = look k ref (begin count_delete locate ts b) in delete_found r.1 ref r.0
  handle (on_replace locate ts old_ref new_ref shares price) b =
      let r = look k old_ref (begin count_replace locate ts b) in
      replace_found r.1 ts old_ref new_ref shares price r.0
  handle (on_trade locate ts ref side shares price match_number) b =
      let b1 = begin (λ s. record s { trades = inc64 s.trades }) locate ts b in
      let t = b1.totals locate in
      record_volume k locate shares price (record b1 {
        totals =
            update b1.totals locate (record t { hidden_shares = add64 t.hidden_shares shares });
      })
  handle (on_cross_trade locate ts shares price match_number cross_type) b =
      let b1 = begin (λ s. record s { cross_trades = inc64 s.cross_trades }) locate ts b in
      let t = b1.totals locate in
      record_volume k locate shares price (record b1 {
        totals = update b1.totals locate (record t { cross_shares = add64 t.cross_shares shares });
      })
  handle (on_broken_trade locate ts match_number) b =
      counting (λ s. record s { broken_trades = inc64 s.broken_trades }) (touch k ts b)
  handle (on_other type locate ts) b =
      counting (λ s. record s { other = inc64 s.other }) (touch k ts b)

  -- A builder over a feed.
  unfoldable pub handle_all : List HandlerCall → BookBuilder S P → BookBuilder S P
  unfolding handle
  handle_all [] b = b
  handle_all (c ∷ cs) b = handle_all cs (handle c b)
