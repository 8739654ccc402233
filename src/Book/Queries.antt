-- ===== src/Book/Queries.antt =====
-- include/tick/book_builder.hpp: what can be asked of a builder.
use Prim.Native.Nat.{bit_and, bit_xor}
use tickerplant.Prelude.{
  ℕ, zero, suc, ◌+◌, ◌/◌, Bool, true, false, ◌&&◌, Option, none, some, List, [], ◌∷◌, ◌++◌, length,
  leb, ◌==◌, mul64, add64, if◌then◌else◌,
}
use tickerplant.Risk.State.{TopOfBook}
use tickerplant.Book.State.{Side, Ops, BookBuilder}
use tickerplant.Book.Side.{for_each}
use tickerplant.Book.Builder.{ops_of, side_at}

-- `SymbolTable::kCapacity`
abbrev pub book_count : ℕ
book_count = 65536

-- The price, the shares and the orders of a level, as they are reported.
pub record DepthLevel : Type 0 where
  pub price : ℕ
  pub qty : ℕ
  pub orders : ℕ

abbrev pub no_level : DepthLevel
no_level = record { price = 0; qty = 0; orders = 0 }

-- `h ^= byte; h *= 1099511628211`, for the bytes of a word from the lowest.
abbrev pub fnv : ℕ → ℕ → ℕ
fnv byte h = mul64 (bit_xor h byte) 1099511628211

unfoldable pub mix_bytes : ℕ → ℕ → ℕ → ℕ
mix_bytes zero v h = h
mix_bytes (suc n) v h = mix_bytes n (v / 256) (fnv (bit_and v 255) h)

unfoldable pub mix : ℕ → ℕ → ℕ
unfolding mix_bytes
mix v h = mix_bytes 8 v h

abbrev pub basis : ℕ
basis = 1469598103934665603

-- `empty` of a side.
abbrev pub is_bare : {L : Type 0} → List (ℕ × L) → Bool
is_bare [] = true
is_bare (e ∷ es) = false

module _ {L S P : Type 0} (k : Ops L S P) where
  abbrev pub quote_of : Option (ℕ × L) → DepthLevel
  quote_of none = no_level
  quote_of (some e) = record {
    price = k.levels.price e.1;
    qty = k.levels.total_quantity e.1;
    orders = k.levels.order_count e.1;
  }

  abbrev pub best_quote : Side → ℕ → BookBuilder S P → DepthLevel
  best_quote side locate b = quote_of ((ops_of k side).best (side_at k side locate b))

  unfoldable pub top : ℕ → BookBuilder S P → TopOfBook
  top locate b =
      let bid = best_quote Side.buy locate b in
      let ask = best_quote Side.sell locate b in
      record {
        bid_price = bid.price;
        bid_qty = bid.qty;
        bid_orders = bid.orders;
        ask_price = ask.price;
        ask_qty = ask.qty;
        ask_orders = ask.orders;
      }

  abbrev pub entries_at : Side → ℕ → BookBuilder S P → List (ℕ × L)
  entries_at side locate b = (ops_of k side).entries (side_at k side locate b)

  -- What a level shows, under the price that the walk gives.
  abbrev pub shown : ℕ × L → DepthLevel
  shown e = record {
    price = e.0;
    qty = k.levels.total_quantity e.1;
    orders = k.levels.order_count e.1;
  }

  -- `visit` of `depth`; `out` is what is filled so far.
  abbrev pub visit_depth : ℕ → ℕ × L → List DepthLevel → List DepthLevel × Bool
  visit_depth limit e out =
      if leb limit (length out) then (out, false) else (out ++ (shown e ∷ []), true)

  -- `depth`: the levels that it fills.
  unfoldable pub depth : ℕ → Side → ℕ → BookBuilder S P → List DepthLevel
  unfolding for_each
  depth locate side limit b = for_each (visit_depth limit) (entries_at side locate b) []

  -- The visitors of `digest`, which never stop.
  abbrev pub visit_digest : ℕ × L → ℕ → ℕ × Bool
  visit_digest e h =
      (mix (k.levels.order_count e.1) (mix (k.levels.total_quantity e.1) (mix e.0 h)), true)

  -- One round of the loop of `digest`.
  abbrev pub digest_book : ℕ → List (ℕ × L) → List (ℕ × L) → ℕ → ℕ
  digest_book locate bids asks h =
      if is_bare bids && is_bare asks
      then h
      else for_each visit_digest asks
          (mix 2652 (for_each visit_digest bids (mix 2845 (mix locate h))))

  -- The loop of `digest` over the first `n` books.
  unfoldable pub digest_upto : ℕ → BookBuilder S P → ℕ
  unfolding for_each mix
  digest_upto zero b = basis
  digest_upto (suc n) b =
      digest_book n (entries_at Side.buy n b) (entries_at Side.sell n b) (digest_upto n b)

  unfoldable pub digest : BookBuilder S P → ℕ
  unfolding digest_upto
  digest b = digest_upto book_count b

  unfoldable pub volume_digest_upto : ℕ → BookBuilder S P → ℕ
  volume_digest_upto zero b = basis
  volume_digest_upto (suc n) b =
      let h = volume_digest_upto n b in
      let shares = (b.totals n).executed_shares in if shares == 0 then h else fnv shares (fnv n h)

  unfoldable pub volume_digest : BookBuilder S P → ℕ
  unfolding volume_digest_upto
  volume_digest b = volume_digest_upto book_count b

  unfoldable pub executed_upto : ℕ → BookBuilder S P → ℕ
  executed_upto zero b = 0
  executed_upto (suc n) b = add64 (executed_upto n b) (b.totals n).executed_shares

  unfoldable pub total_executed_shares : BookBuilder S P → ℕ
  unfolding executed_upto
  total_executed_shares b = executed_upto book_count b

  unfoldable pub levels_upto : ℕ → BookBuilder S P → ℕ
  levels_upto zero b = 0
  levels_upto (suc n) b =
      levels_upto n b + (length (entries_at Side.buy n b) + length (entries_at Side.sell n b))

  unfoldable pub live_levels : BookBuilder S P → ℕ
  unfolding levels_upto
  live_levels b = levels_upto book_count b
