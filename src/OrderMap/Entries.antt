-- ===== src/OrderMap/Entries.antt =====
-- The walk of `for_each` of include/tick/flat_order_map.hpp over the live entries.
use native.Mathlib.Decide.{ℕ_discrete}
use tickerplant.Prelude.{
  ℕ, zero, suc, ◌+◌, ◌≡◌, ◌≢◌, ◌↔◌, refl, sym, ap, ◌∙◌, ◌⊎◌, inl, inr, Bool-cases, some, List, [],
  ◌∷◌, ==_iff, arith, length, ◌==◌, count,
}
use tickerplant.OrderMap.Table.{FlatOrderMap, entries_upto}
use tickerplant.OrderMap.Free.{free}
use tickerplant.OrderMap.Valid.{IsTable}
use tickerplant.OrderMap.Get.{get, get-Held}
use tickerplant.OrderMap.Grow.{HeldUpto}
use tickerplant.OrderMap.Calls.{IsTable-room}

-- A pair stands in a list.
pub Listed : {V : Type 0} → ℕ → V → List (ℕ × V) → Type 0
Listed x v [] = ⊥
Listed x v (e ∷ es) = ((e.0 ≡ x) × (e.1 ≡ v)) ⊎ Listed x v es

length-entries :
    {V : Type 0} (n : ℕ) (t : FlatOrderMap V) → length (entries_upto n t) + free n t.keys ≡ n
unfolding entries_upto count
length-entries zero t = refl
length-entries (suc n) t = elim (Bool-cases (t.keys n == 0)) [
  | inl e ↦ rw e (omega (arith, length-entries n t))
  | inr e ↦ rw e (omega (arith, length-entries n t))
]

Listed-entries :
    {V : Type 0} (n : ℕ) (t : FlatOrderMap V) (x : ℕ) (v : V)
    → x ≢ 0
    → Listed x v (entries_upto n t) ↔ HeldUpto n t x v
unfolding entries_upto Listed
Listed-entries zero t x v nx = (λ h. absurd h, λ (i, lt, k, w). absurd (omega arith))
Listed-entries (suc n) t x v nx =
    let before = Listed-entries n t x v nx in
    elim (Bool-cases (t.keys n == 0)) [
      | inl e ↦ rw e (
        λ h. let (i, lt, k, w) = before.0 h in (i, omega arith, k, w),
        λ (i, lt, k, w). elim (ℕ_discrete i n) [
          | yes q ↦ absurd (nx (sym k ∙ ap t.keys q ∙ (==_iff (t.keys n) 0).0 e))
          | no q ↦ before.1 (i, omega arith, k, w)
        ],
      )
      | inr e ↦ rw e (
        λ h. elim h [
          | inl (k, w) ↦ (n, omega arith, k, w)
          | inr rest ↦ let (i, lt, k, w) = before.0 rest in (i, omega arith, k, w)
        ],
        λ (i, lt, k, w). elim (ℕ_discrete i n) [
          | yes q ↦ inl (ap t.keys (sym q) ∙ k, ap t.vals (sym q) ∙ w)
          | no q ↦ inr (before.1 (i, omega arith, k, w))
        ],
      )
    ]

-- On a whole table the walk over all slots makes as many calls as the table has entries by its own
-- count, and calls with a key and a value exactly when `find` has that value for the key.
pub entries-get :
    {V : Type 0} (hash : ℕ → ℕ) (t : FlatOrderMap V)
    → IsTable hash t
    → (length (entries_upto t.cap t) ≡ t.size)
      × ((x : ℕ) (v : V) → x ≢ 0 → Listed x v (entries_upto t.cap t) ↔ (get hash t x ≡ some v))
entries-get hash t h = (
  omega (arith, length-entries t.cap t, h.0.counted),
  λ x v nx.
      let listed = Listed-entries t.cap t x v nx in
      let held = get-Held hash t h.0 (IsTable-room hash t h) x nx v in
      (λ l. held.1 (listed.0 l), λ e. listed.1 (held.0 e)),
)
