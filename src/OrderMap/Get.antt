-- ===== src/OrderMap/Get.antt =====
-- What `find` of include/tick/flat_order_map.hpp returns: the value that the table holds for the key.
use native.Mathlib.Decide.{ℕ_discrete}
use tickerplant.Prelude.{
  some-injective, none-ne-some, ℕ, ◌<◌, ◌≡◌, ◌≢◌, ◌↔◌, refl, sym, ap, ◌∙◌, true, false, inl, inr,
  Option, none, some, Option-cases, ==_iff, arith, ◌==◌,
}
use tickerplant.OrderMap.Table.{FlatOrderMap, stop_at, find}
use tickerplant.OrderMap.Held.{Held}
use tickerplant.OrderMap.Valid.{IsSound, Stopped, stop_at-Stopped}

abbrev pub get : {V : Type 0} → (ℕ → ℕ) → FlatOrderMap V → ℕ → Option V
get hash t x = (find hash x t).1

-- Two results are one when they are the same value, if either is a value.
pub Option_ext : {V : Type 0} (a b : Option V) → ((v : V) → (a ≡ some v) ↔ (b ≡ some v)) → a ≡ b
Option_ext a b h = elim (Option-cases a) [
  | inr (v, e) ↦ e ∙ sym ((h v).0 e)
  | inl e ↦ elim (Option-cases b) [ inl k ↦ e ∙ sym k | inr (v, k) ↦ (h v).1 k ∙ sym k ]
]

pub get_zero : {V : Type 0} (hash : ℕ → ℕ) (t : FlatOrderMap V) → get hash t 0 ≡ none
unfolding find
get_zero hash t = refl

module _ {V : Type 0} (hash : ℕ → ℕ) (t : FlatOrderMap V) (s : IsSound hash t)
    (room : t.size < t.cap) (x : ℕ) (nx : x ≢ 0) where
  abbrev pub stop : ℕ
  stop = (stop_at hash t x).0

  pub stopped : Stopped hash t s x stop
  stopped = stop_at-Stopped hash t s x nx room

  pub get_hit : t.keys stop ≡ x → get hash t x ≡ some (t.vals stop)
  unfolding find
  get_hit e = let b : (t.keys stop == x) ≡ true = (==_iff (t.keys stop) x).1 e in ground (arith, nx)

  pub get_miss : t.keys stop ≢ x → get hash t x ≡ none
  unfolding find
  get_miss e = let b : (t.keys stop == x) ≡ false = ground (arith, e) in ground (arith, nx)

  pub get-Held : (v : V) → (get hash t x ≡ some v) ↔ Held t x v
  get-Held v = (
    λ e. elim (ℕ_discrete (t.keys stop) x) [
      | yes k ↦ (stop, stopped.below, k, some-injective (sym (get_hit k) ∙ e))
      | no k ↦ absurd (none-ne-some none refl (sym (get_miss k) ∙ e))
    ],
    λ (i, lt, k, w).
        let at : stop ≡ i = stopped.found i lt k in
        get_hit (ap t.keys at ∙ k) ∙ ap some (ap t.vals at ∙ w),
  )

  pub get_absent : ((i : ℕ) → i < t.cap → t.keys i ≢ x) → get hash t x ≡ none
  get_absent h = get_miss (h stop stopped.below)

  -- A key that `find` misses is in no slot.
  pub absent : t.keys stop ≢ x → (i : ℕ) → i < t.cap → t.keys i ≢ x
  absent h i lt e = h (ap t.keys (stopped.found i lt e) ∙ e)
