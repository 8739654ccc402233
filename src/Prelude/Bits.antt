-- ===== src/Prelude/Bits.antt =====
-- A mask of low ones keeps a remainder: `x & (2 ^ k - 1)` is `x % 2 ^ k` at every width k.
use Prim.Native.Nat.{
  ℕ, zero, suc, ◌+◌, ◌-◌, ◌*◌, ◌/◌, ◌%◌, ◌^◌, ◌≤◌, ◌<◌, min, max, bit_and, bit_or, digits,
  bit_and-bitwise, bit_or-bitwise,
}
use mathlib.Core.Path.{◌≡◌, refl, ap, ◌∙◌, sym, subst}
use native.Mathlib.Decide.{dec_le}
use native.Mathlib.Nat.{pow-suc, div-add-mod, mod-lt, mod-eq-sub-mod}
use native.Mathlib.Omega.{arith}

pub pow-pos : (k : ℕ) → 0 < 2 ^ k
pow-pos zero = omega arith
pow-pos (suc k) = omega (arith, pow-suc 2 k, pow-pos k)

times_apart : (c m n : ℕ) → m < n → c * m + c ≤ c * n
times_apart c m n h = grind arith

-- The lowest binary digit of a remainder by an even number, and the digits above it.
mod_double : (x m : ℕ) → 0 < m → x % (m * 2) ≡ x / 2 % m * 2 + x % 2
mod_double x m pos = ground (
  arith,
  div-add-mod x (m * 2),
  div-add-mod (x / 2) m,
  mod-lt x {m = m * 2} (omega arith),
  mod-lt (x / 2) {m = m} pos,
  times_apart (m * 2) (x / (m * 2)) (x / 2 / m),
  times_apart (m * 2) (x / 2 / m) (x / (m * 2)),
)

-- `n` bounds the number of digits that the operation walks through.
mask_digits : (n k x : ℕ) → x ≤ n → digits (λ _. zero) min n x (2 ^ k - 1) ≡ x % 2 ^ k
mask_digits zero k zero h = grind (arith, mod-lt, pow-pos k)
mask_digits zero k (suc x) h = absurd (omega arith)
mask_digits (suc n) k zero h = grind (arith, mod-lt, pow-pos k)
mask_digits (suc n) zero (suc x) h = omega (arith, mask_digits n 0 (suc x / 2) (omega arith))
mask_digits (suc n) (suc k) (suc x) h =
    let halved : (2 ^ suc k - 1) / 2 ≡ 2 ^ k - 1 = omega (arith, pow-suc 2 k, pow-pos k) in
    let odd : (2 ^ suc k - 1) % 2 ≡ 1 = omega (arith, pow-suc 2 k, pow-pos k) in
    let above = mask_digits n k (suc x / 2) (omega arith) in
    rw (halved, odd, above, pow-suc 2 k) (rw (mod_double (suc x) (2 ^ k) (pow-pos k)) (omega arith))

-- The mask of a ring whose size is a power of two.
pub bit_and-mask : (k a : ℕ) → bit_and a (2 ^ k - 1) ≡ a % 2 ^ k
bit_and-mask k a = bit_and-bitwise a (2 ^ k - 1) ∙ mask_digits a k a (omega arith)

-- Two numbers less than `c` apart with one remainder by `c` are one number.
pub mod-injective : (a b c : ℕ) → a ≤ b → b < a + c → a % c ≡ b % c → a ≡ b
mod-injective a b c h k e = ground (
  arith,
  div-add-mod a c,
  div-add-mod b c,
  times_apart c (a / c) (b / c),
  times_apart c (b / c) (a / c),
)

-- So one window of `c` numbers holds at most one of each remainder.
pub mod-injective_window :
    (lo a b c : ℕ) → lo ≤ a → a < lo + c → lo ≤ b → b < lo + c → a % c ≡ b % c → a ≡ b
mod-injective_window lo a b c la ha lb hb e = elim (dec_le a b) [
  | yes h ↦ mod-injective a b c h (omega arith) e
  | no h ↦ sym (mod-injective b a c (omega arith) (omega arith) (sym e))
]

pub mod-add_self : (q c : ℕ) → 0 < c → (q + c) % c ≡ q % c
mod-add_self q c pos =
    let e : q + c - c ≡ q = omega arith in
    subst (λ x. (q + c) % c ≡ x % c) e (mod-eq-sub-mod {n = q + c} {m = c} (omega arith))

-- Low digits joined to a multiple of a power of two are added. `n` bounds the digits as above.
join_digits :
    (n k x a y : ℕ) → a ≡ x * 2 ^ k → a ≤ n → y < 2 ^ k → digits (λ b. b) max n a y ≡ a + y
join_digits zero k x zero y e h small = omega arith
join_digits zero k x (suc a) y e h small = absurd (omega arith)
join_digits (suc n) k x zero y e h small = omega arith
join_digits (suc n) zero x (suc a) y e h small =
    let one : 2 ^ 0 ≡ 1 = refl in
    omega (
      arith,
      one,
      join_digits n 0 (suc a / 2) (suc a / 2) (y / 2) (omega arith) (omega arith) (omega arith),
    )
join_digits (suc n) (suc k) x (suc a) y e h small =
    let twice : suc a ≡ x * 2 ^ k * 2 = omega (arith, e ∙ ap (λ p. x * p) (pow-suc 2 k)) in
    omega (
      arith,
      pow-suc 2 k,
      join_digits n k x (suc a / 2) (y / 2) (omega arith) (omega arith)
          (omega (arith, pow-suc 2 k)),
    )

pub bit_or-shifted : (k x y : ℕ) → y < 2 ^ k → bit_or (x * 2 ^ k) y ≡ x * 2 ^ k + y
bit_or-shifted k x y h =
    bit_or-bitwise (x * 2 ^ k) y ∙ join_digits (x * 2 ^ k) k x (x * 2 ^ k) y refl (omega arith) h
