-- ===== src/Risk/Passes.antt =====
-- What each check of include/tick/risk.hpp shows of an order when it gives no reason to refuse it.
use native.Mathlib.Nat.{mul-le-mul_right}
use tickerplant.Prelude.{
  ℕ, ◌^◌, ◌+◌, ◌-◌, ◌*◌, ◌<◌, ◌≤◌, ◌≡◌, ◌≢◌, refl, Bool, true, false, none, arith, ltb, u64_mod,
  u32_mod, add64, sub64, mul64, if◌then◌else◌,
}
use tickerplant.Risk.Signed.{i64_mid, excess, sle, neg64}
use tickerplant.Risk.State.{
  RiskReject, RiskLimits, OrderRequest, SymbolRisk, RiskEngine, micro_price, two_sided,
}
use tickerplant.Risk.Rate.{count_at}
use tickerplant.Risk.Table.{find_open}
use tickerplant.Risk.Check.{
  larger, or_next, reject_if, check_symbol, check_shape, check_fresh, check_fat_finger, distance,
  worst_long, worst_short, check_position, check_notional, worst_shares, check_self_cross,
  check_open_orders, check_rate, check_token,
}

-- An early return that is none went on to the next check, which is none too.
pub or_next_none :
    (x y : RiskReject)
    → or_next x y ≡ RiskReject.none
    → (x ≡ RiskReject.none) × (y ≡ RiskReject.none)
or_next_none x y h = (ground arith, ground arith)

pub reject_if_none :
    (b : Bool) (why : RiskReject)
    → why ≢ RiskReject.none
    → reject_if b why ≡ RiskReject.none
    → b ≡ false
reject_if_none true why bad h = absurd (bad h)
reject_if_none false why bad h = refl

pub or_none :
    (b : Bool) (why rest : RiskReject)
    → why ≢ RiskReject.none
    → (if b then why else rest) ≡ RiskReject.none
    → (b ≡ false) × (rest ≡ RiskReject.none)
or_none true why rest bad h = absurd (bad h)
or_none false why rest bad h = (refl, h)

pub times_bound : (a b : ℕ) → a < u32_mod → b < u32_mod → a * b < u64_mod
times_bound a b ha hb =
    let ha' : a ≤ 4294967295 = omega arith in omega (arith, mul-le-mul_right b ha')

pub times_mono : (a b c : ℕ) → a ≤ b → a * c ≤ b * c
times_mono a b c h = grind arith

-- The value of a word lies between `- m` and `m`.
pub record IsWithin (m v : ℕ) : Type 0 where
  pub low : i64_mid ≤ excess v + m
  pub high : excess v ≤ i64_mid + m

pub worst_case_fills :
    (p wb ws ab sh m b s : ℕ)
    → 2 ^ 62 ≤ excess p
    → excess p ≤ 2 ^ 63 + 2 ^ 62
    → wb < 2 ^ 61
    → ws < 2 ^ 61
    → ab < u32_mod
    → sh < u32_mod
    → m < u32_mod
    → excess (add64 (add64 p wb) ab) ≤ excess m
    → excess (neg64 m) ≤ excess (sub64 (sub64 p ws) sh)
    → b ≤ wb + ab
    → s ≤ ws + sh
    → IsWithin m (sub64 (add64 p b) s)
unfolding add64 sub64
worst_case_fills p wb ws ab sh m b s pl ph hb hs ha ha' hm long short b' s' = record {
  low = omega arith;
  high = omega arith;
}

-- The fills are worth no more shares than the larger end of the worst case, which is in the limit.
pub worst_case_shares :
    (p wb ws ab sh m b s : ℕ)
    → 2 ^ 62 ≤ excess p
    → excess p ≤ 2 ^ 63 + 2 ^ 62
    → wb < 2 ^ 61
    → ws < 2 ^ 61
    → ab < u32_mod
    → sh < u32_mod
    → m < u32_mod
    → excess (add64 (add64 p wb) ab) ≤ excess m
    → excess (neg64 m) ≤ excess (sub64 (sub64 p ws) sh)
    → b ≤ wb + ab
    → s ≤ ws + sh
    → (larger (add64 (add64 p wb) ab) (sub64 (sub64 p ws) sh) < u32_mod)
      × (excess (sub64 (add64 p b) s) - i64_mid
          ≤ larger (add64 (add64 p wb) ab) (sub64 (sub64 p ws) sh))
      × (i64_mid - excess (sub64 (add64 p b) s)
          ≤ larger (add64 (add64 p wb) ab) (sub64 (sub64 p ws) sh))
unfolding add64 sub64
worst_case_shares p wb ws ab sh m b s pl ph hb hs ha ha' hm long short b' s' =
    (ground arith, ground arith, ground arith)

pub symbol_none :
    (s : SymbolRisk) → check_symbol s ≡ RiskReject.none → (s.enabled ≡ true) × (s.halted ≡ false)
unfolding check_symbol
symbol_none s h = (ground arith, ground arith)

pub shape_none :
    (l : RiskLimits) (r : OrderRequest)
    → r.price < u32_mod
    → r.shares < u32_mod
    → check_shape l r ≡ RiskReject.none
    → (0 < r.shares)
      × (r.shares ≤ l.max_order_shares)
      × (0 < r.price)
      × (r.shares * r.price ≤ l.max_order_notional)
unfolding check_shape mul64
shape_none l r p q h =
    let small = times_bound r.shares r.price q p in
    (ground arith, ground arith, ground arith, ground (arith, small))

pub fresh_none :
    (l : RiskLimits) (r : OrderRequest)
    → check_fresh l r ≡ RiskReject.none
    → (0 < r.book_ts_ns)
      × (r.book_ts_ns ≤ r.now_ns)
      × (r.now_ns ≤ r.book_ts_ns + l.max_market_data_age_ns)
unfolding check_fresh
fresh_none l r h = (ground arith, ground arith, ground arith)

pub near_none :
    (two : Bool) (price ref bps : ℕ)
    → price < u32_mod
    → ref < u32_mod
    → ref * bps < u64_mod
    → (if two
        then (if sle ref 0
            then RiskReject.fat_finger_price
            else reject_if
                (ltb (mul64 ref bps) (mul64 (distance price ref) 10000))
                RiskReject.fat_finger_price)
        else RiskReject.fat_finger_price)
      ≡ RiskReject.none
    → (two ≡ true) × ((price - ref) * 10000 ≤ ref * bps) × ((ref - price) * 10000 ≤ ref * bps)
unfolding mul64 sub64
near_none two price ref bps p q small h = (ground arith, ground arith, ground arith)

pub fat_finger_none :
    (l : RiskLimits) (r : OrderRequest)
    → r.price < u32_mod
    → micro_price r.book < u32_mod
    → l.fat_finger_bps < u32_mod
    → check_fat_finger l r ≡ RiskReject.none
    → (two_sided r.book ≡ true)
      × ((r.price - micro_price r.book) * 10000 ≤ micro_price r.book * l.fat_finger_bps)
      × ((micro_price r.book - r.price) * 10000 ≤ micro_price r.book * l.fat_finger_bps)
unfolding check_fat_finger
fat_finger_none l r p q b h =
    near_none (two_sided r.book) r.price (micro_price r.book) l.fat_finger_bps p q
      (times_bound (micro_price r.book) l.fat_finger_bps q b) h

pub position_none :
    (l : RiskLimits) (s : SymbolRisk) (r : OrderRequest)
    → check_position l s r ≡ RiskReject.none
    → (excess (worst_long s r) ≤ excess l.max_position_shares)
      × (excess (neg64 l.max_position_shares) ≤ excess (worst_short s r))
unfolding check_position
position_none l s r h = (ground arith, ground arith)

pub self_cross_none :
    (s : SymbolRisk) (r : OrderRequest)
    → check_self_cross s r ≡ RiskReject.none
    → (r.is_buy ≡ true → 0 < s.working_sell_orders → excess r.price < excess s.best_working_sell)
      × (r.is_buy ≡ false → 0 < s.working_buy_orders → excess s.best_working_buy < excess r.price)
unfolding check_self_cross
self_cross_none s r h = (λ b n. ground arith, λ b n. ground arith)

pub token_none :
    (e : RiskEngine) (r : OrderRequest)
    → check_token e r ≡ RiskReject.none
    → find_open e.table r.token ≡ none
unfolding check_token
token_none e r h = ground arith

pub notional_none :
    (l : RiskLimits) (s : SymbolRisk) (r : OrderRequest)
    → r.price < u32_mod
    → worst_shares s r < u32_mod
    → check_notional l s r ≡ RiskReject.none
    → worst_shares s r * r.price ≤ l.max_symbol_notional
unfolding check_notional mul64
notional_none l s r p q h = ground (arith, times_bound (worst_shares s r) r.price q p)

pub room_none :
    (e : RiskEngine)
    → check_open_orders e ≡ RiskReject.none
    → e.open_orders < e.limits.max_open_orders
unfolding check_open_orders
room_none e h = ground arith

pub rate_none :
    (e : RiskEngine) (r : OrderRequest)
    → check_rate e r ≡ RiskReject.none
    → count_at r.now_ns e.rate < e.limits.max_messages_per_second
unfolding check_rate
rate_none e r h = ground arith

-- Of the two sides, the order adds its shares to one.
pub if_below :
    (b : Bool) (n : ℕ)
    → n < u32_mod
    → ((if b then n else 0) < u32_mod) × ((if b then 0 else n) < u32_mod)
if_below true n h = (h, omega arith)
if_below false n h = (omega arith, h)
