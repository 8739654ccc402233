-- ===== src/Risk/Rate.antt =====
-- include/tick/risk.hpp, RateLimiter: ten buckets of a tenth of a second.
use tickerplant.Prelude.{
  ℕ, zero, suc, ◌+◌, ◌/◌, ◌%◌, Bool, ◌&&◌, ltb, leb, ◌==◌, update, u32_mod, add64, if◌then◌else◌,
}
use tickerplant.Risk.State.{RateLimiter}

abbrev pub buckets : ℕ
buckets = 10

abbrev pub bucket_ns : ℕ
bucket_ns = 100000000

abbrev pub is_live : RateLimiter → ℕ → ℕ → Bool
is_live l b i = leb (l.index i) b && ltb b (add64 (l.index i) buckets)

-- The loop of `count_at` over the first `n` slots.
unfoldable pub count_upto : RateLimiter → ℕ → ℕ → ℕ
count_upto l b zero = 0
count_upto l b (suc n) =
    let rest = count_upto l b n in if is_live l b n then (rest + l.count n) % u32_mod else rest

unfoldable pub count_at : ℕ → RateLimiter → ℕ
unfolding count_upto
count_at now l = count_upto l (now / bucket_ns) buckets

-- A slot that an older bucket left is taken over.
abbrev pub fresh_bucket : ℕ → ℕ → RateLimiter → RateLimiter
fresh_bucket b slot l =
    if l.index slot == b
    then l
    else (record { index = update l.index slot b; count = update l.count slot 0 })

unfoldable pub record_message : ℕ → RateLimiter → RateLimiter
record_message now l =
    let b = now / bucket_ns in
    let slot = b % buckets in
    let l' = fresh_bucket b slot l in
    record l' { count = update l'.count slot ((l'.count slot + 1) % u32_mod) }

unfoldable pub clear : RateLimiter
clear = record { index = λ _. 0; count = λ _. 0 }
