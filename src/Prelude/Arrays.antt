-- ===== src/Prelude/Arrays.antt =====
-- A fixed array, read at any index, is a function of the index; a count of its marked entries.
use Prim.Native.Nat.{ℕ, zero, suc, ◌+◌, ◌≤◌, ◌<◌}
use mathlib.Core.Path.{◌≡◌, refl, ap}
use mathlib.Core.Bool.{Bool, true, false}
use mathlib.Core.Logic.{◌≢◌, inl, inr}
use native.Mathlib.Omega.{arith}
use native.Mathlib.Decide.{ℕ_discrete}
use tickerplant.Prelude.Tests.{◌==◌, if◌then◌else◌, Bool-cases}

abbrev pub update {ℓ} : {A : Type ℓ} → (ℕ → A) → ℕ → A → ℕ → A
update f i v j = if j == i then v else f j

abbrev pub to_nat : Bool → ℕ
to_nat true = 1
to_nat false = 0

-- How many of the first `n` entries are marked.
unfoldable pub count : ℕ → (ℕ → Bool) → ℕ
count zero f = 0
count (suc n) f = to_nat (f n) + count n f

pub count_congr : (n : ℕ) (f g : ℕ → Bool) → ((j : ℕ) → j < n → g j ≡ f j) → count n g ≡ count n f
unfolding count
count_congr zero f g same = refl
count_congr (suc n) f g same =
    ground (arith, same n, count_congr n f g (λ j h. same j (omega arith)))

-- A change at one index changes the count by that entry.
pub count_change :
    (n i : ℕ) (f g : ℕ → Bool)
    → i < n
    → ((j : ℕ) → j ≢ i → g j ≡ f j)
    → count n g + to_nat (f i) ≡ count n f + to_nat (g i)
unfolding count
count_change zero i f g h same = absurd (omega arith)
count_change (suc n) i f g h same = elim (ℕ_discrete i n) [
  | yes e ↦ rw e (omega (arith, count_congr n f g (λ j k. same j (omega arith))))
  | no e ↦ ground (arith, same n, count_change n i f g (omega arith) same)
]

pub count-le : (n : ℕ) (f : ℕ → Bool) → count n f ≤ n
unfolding count
count-le zero f = omega arith
count-le (suc n) f = ground (arith, count-le n f)

pub count-false : (n : ℕ) → count n (λ _. false) ≡ 0
unfolding count
count-false zero = refl
count-false (suc n) = omega (arith, count-false n)

-- A marked entry is counted.
pub count-pos : (n i : ℕ) (f : ℕ → Bool) → i < n → f i ≡ true → 0 < count n f
unfolding count
count-pos zero i f h e = absurd (omega arith)
count-pos (suc n) i f h e = elim (ℕ_discrete i n) [
  | yes k ↦ ground (arith, ap f k)
  | no k ↦ omega (arith, count-pos n i f (omega arith) e)
]

-- With no entry counted none is marked.
pub count-zero : (n i : ℕ) (f : ℕ → Bool) → count n f ≡ 0 → i < n → f i ≡ false
count-zero n i f e h = ground (arith, count-pos n i f h)

-- A positive count has a marked entry.
pub count-exists : (n : ℕ) (f : ℕ → Bool) → 0 < count n f → (i : ℕ) × (i < n) × (f i ≡ true)
unfolding count
count-exists zero f h = absurd (omega arith)
count-exists (suc n) f h = elim (Bool-cases (f n)) [
  | inl e ↦ (n, omega arith, e)
  | inr e ↦ let (i, lt, marked) = count-exists n f (ground arith) in (i, omega arith, marked)
]
