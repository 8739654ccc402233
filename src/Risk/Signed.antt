-- ===== src/Risk/Signed.antt =====
-- The int64_t of the gate: a word in two's complement, so that a cast to uint64_t is the identity.
use tickerplant.Prelude.{ℕ, ◌+◌, ◌/◌, ◌%◌, ◌^◌, Bool, ltb, leb, u64_mod, sub64, if◌then◌else◌}

abbrev pub i64_mid : ℕ
i64_mid = 2 ^ 63

-- The value of a word, moved up by 2 ^ 63.
abbrev pub excess : ℕ → ℕ
excess a = (a + i64_mid) % u64_mod

abbrev pub slt : ℕ → ℕ → Bool
slt a b = ltb (excess a) (excess b)

abbrev pub sle : ℕ → ℕ → Bool
sle a b = leb (excess a) (excess b)

abbrev pub neg64 : ℕ → ℕ
neg64 a = sub64 0 a

-- `a / 2`, which rounds towards zero.
abbrev pub half_signed : ℕ → ℕ
half_signed a = if slt a 0 then neg64 (neg64 a / 2) else a / 2
