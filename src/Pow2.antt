-- ===== src/Pow2.antt =====
-- The rounding of a size to a power of two, the loop that include/tick/sequencer.hpp,
-- include/tick/recovery.hpp and include/tick/flat_order_map.hpp share.
use native.Mathlib.Nat.{pow-suc, le_refl}
use tickerplant.Prelude.{
  ℕ, zero, suc, ◌+◌, ◌*◌, ◌^◌, ◌%◌, ◌≤◌, ◌<◌, ◌≡◌, refl, subst, ◌-◌, ◌⊎◌, Option, none, some, arith,
  ltb, if◌then◌else◌, mul64, Bool-cases, inl, inr, ltb→lt, ltb→ge, u64_mod,
}

-- `while (v < n) v <<= 1` on a 64 bit word; `none` means that the loop has not ended.
unfoldable pub round_up : ℕ → ℕ → ℕ → Option ℕ
unfolding mul64
round_up zero v n = none
round_up (suc f) v n = let rest = round_up f (mul64 v 2) n in if ltb v n then rest else some v

-- After 64 doublings the word is zero and stays zero, so 65 rounds decide.
unfoldable pub round_up_pow2 : ℕ → Option ℕ
unfolding round_up
round_up_pow2 n = round_up 65 1 n

pow-le : (a d : ℕ) → 2 ^ a ≤ 2 ^ (d + a)
pow-le a zero = let e : 0 + a ≡ a = omega arith in rw e (le_refl _)
pow-le a (suc d) =
    let e : suc d + a ≡ suc (d + a) = omega arith in
    rw (e, pow-suc 2 (d + a)) (omega (arith, pow-le a d))

-- A result is the least power of two that is not below the size asked for.
pub record IsRounded (n c : ℕ) : Type 0 where
  pub width : ℕ
  pub is_pow : c ≡ 2 ^ width
  pub enough : n ≤ c
  pub tight : (c ≡ 1) ⊎ (c < 2 * n)

round_up-IsRounded :
    (f j n : ℕ)
    → 64 ≤ f + j
    → n ≤ 2 ^ 63
    → (2 ^ j ≡ 1) ⊎ (2 ^ j < 2 * n)
    → (c : ℕ) × (round_up f (2 ^ j) n ≡ some c) × IsRounded n c
unfolding round_up mul64
round_up-IsRounded zero j n room small t =
    let e : j - 64 + 64 ≡ j = omega arith in
    absurd (omega (arith, subst (λ k. 2 ^ 64 ≤ 2 ^ k) e (pow-le 64 (j - 64))))
round_up-IsRounded (suc f) j n room small t = elim (Bool-cases (ltb (2 ^ j) n)) [
  | inr done ↦
      (2 ^ j, rw (done), record { width = j; is_pow = refl; enough = ltb→ge _ _ done; tight = t })
  | inl more ↦
      let lt = ltb→lt (2 ^ j) n more in
      let double : (2 ^ j * 2) % u64_mod ≡ 2 ^ suc j = omega (arith, pow-suc 2 j) in
      rw (more, double)
        (round_up-IsRounded f (suc j) n (omega arith) small (inr (omega (arith, pow-suc 2 j))))
]

-- For every size up to 2 ^ 63 the loop ends, at the least power of two that is not below it.
pub round_up_pow2-IsRounded :
    (n : ℕ) → n ≤ 2 ^ 63 → (c : ℕ) × (round_up_pow2 n ≡ some c) × IsRounded n c
unfolding round_up_pow2
round_up_pow2-IsRounded n small = round_up-IsRounded 65 0 n (omega arith) small (inl (omega arith))
