-- ===== src/Prelude/Words.antt =====
-- Machine words: the wrap of unsigned 64 bit arithmetic, written out.
use Prim.Native.Nat.{ℕ, ◌+◌, ◌-◌, ◌*◌, ◌%◌, ◌^◌, ◌<◌}
use mathlib.Core.Path.{◌≡◌}
use native.Mathlib.Omega.{arith}

abbrev pub u16_mod : ℕ
u16_mod = 2 ^ 16

abbrev pub u32_mod : ℕ
u32_mod = 2 ^ 32

abbrev pub u64_mod : ℕ
u64_mod = 2 ^ 64

-- uint64_t a + b, a - b and a * b.
unfoldable pub add64 : ℕ → ℕ → ℕ
add64 a b = (a + b) % u64_mod

unfoldable pub sub64 : ℕ → ℕ → ℕ
sub64 a b = (a + u64_mod - b) % u64_mod

unfoldable pub mul64 : ℕ → ℕ → ℕ
mul64 a b = (a * b) % u64_mod

-- ++x on a uint64_t.
abbrev pub inc64 : ℕ → ℕ
inc64 a = add64 a 1

pub add64_fits : (a b : ℕ) → a + b < u64_mod → add64 a b ≡ a + b
unfolding add64
add64_fits a b h = omega arith
