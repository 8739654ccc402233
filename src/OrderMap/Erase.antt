-- ===== src/OrderMap/Erase.antt =====
-- The removal of a key by `erase` of include/tick/flat_order_map.hpp.
use native.Mathlib.Decide.{ℕ_discrete}
use tickerplant.Prelude.{
  ℕ, ◌+◌, ◌-◌, ◌≤◌, ◌<◌, ◌≡◌, ◌≢◌, refl, sym, ap, ◌∙◌, subst, Bool, true, false, inl, inr, ==_iff,
  arith, ◌==◌, update, count-le, count-exists,
}
use tickerplant.OrderMap.Table.{FlatOrderMap, shift_back, erase}
use tickerplant.OrderMap.Ring.{fwd, back, dist, fwd_zero, fwd-dist, dist_below}
use tickerplant.OrderMap.Probe.{IsProbed}
use tickerplant.OrderMap.Found.{update_same, update_other}
use tickerplant.OrderMap.Shift.{IsShifting}
use tickerplant.OrderMap.Held.{Held}
use tickerplant.OrderMap.Free.{free, free_given}
use tickerplant.OrderMap.Erased.{home_of, IsShifted, shift_back-IsShifted}
use tickerplant.OrderMap.Valid.{IsSound, home_below, next-fwd}
use tickerplant.OrderMap.Get.{stop, stopped}

-- What a removal leaves.
pub record IsErased {V : Type 0} (hash : ℕ → ℕ) (t : FlatOrderMap V) (x : ℕ)
    (r : FlatOrderMap V × Bool) : Type 0 where
  pub flag : r.1 ≡ true
  pub sound : IsSound hash r.0
  pub cap : r.0.cap ≡ t.cap
  pub size : r.0.size + 1 ≡ t.size
  pub gone : (w : V) → Held r.0 x w → ⊥
  pub kept : (y : ℕ) (w : V) → y ≢ 0 → y ≢ x → Held t y w → Held r.0 y w
  pub kept_back : (y : ℕ) (w : V) → y ≢ 0 → y ≢ x → Held r.0 y w → Held t y w

-- A slot that is emptied is the hole, and a slot that was free lies ahead of it.
start-IsShifting :
    (c : ℕ) (home keys : ℕ → ℕ) (at i : ℕ)
    → IsProbed c home keys
    → at < c
    → i < c
    → keys i ≡ 0
    → keys at ≢ 0
    → IsShifting c home (update keys at 0) at 0 (dist c at i)
start-IsShifting c home keys at i p la li free_i taken =
    let i_apart : i ≢ at = λ q. taken (sym (ap keys q) ∙ free_i) in
    let there : fwd c at (dist c at i) ≡ i = fwd-dist c i li at la in
    let plus : 0 + dist c at i ≡ dist c at i = omega arith in
    let live : (q : ℕ) → update keys at 0 q ≢ 0 → update keys at 0 q ≡ keys q =
      λ q n. update_other keys at 0 q (λ e. n (update_same keys at 0 q e)) in
    record {
      below = la;
      here = update_same keys at 0 at refl;
      unique = λ a b ha hb na e.
          let ea = live a na in
          p.unique a b ha hb (subst (λ k. k ≢ 0) ea na)
            (sym ea ∙ e ∙ live b (subst (λ k. k ≢ 0) e na));
      path = λ a e ha na pos le.
          let ea = live a na in
          let before =
            p.path a e ha (subst (λ k. k ≢ 0) ea na) pos
              (subst (λ k. e ≤ dist c (home k) a) ea le) in
          elim (ℕ_discrete (back c a e) at) [
            | yes q ↦ inr q
            | no q ↦ inl (subst (λ k. k ≢ 0) (sym (update_other keys at 0 (back c a e) q)) before)
          ];
      run = λ e pos le. absurd (omega arith);
      ahead = elim (ℕ_discrete (dist c at i) 0) [
        | yes z ↦ absurd (i_apart (sym there ∙ ap (fwd c at) z ∙ fwd_zero c at la))
        | no nz ↦ omega arith
      ];
      room = let e = dist_below c i li at la in omega arith;
      end =
          ap (λ k. update keys at 0 (fwd c at k)) plus
          ∙ ap (update keys at 0) there
          ∙ update_other keys at 0 i i_apart
          ∙ free_i;
    }

module _ {V : Type 0} (hash : ℕ → ℕ) (t : FlatOrderMap V) (s : IsSound hash t)
    (room : t.size < t.cap) (x : ℕ) (nx : x ≢ 0) where
  abbrev at : ℕ
  at = stop hash t s room x nx

  -- The table with the slot emptied.
  abbrev emptied : FlatOrderMap V
  emptied = record t { keys = update t.keys at 0 }

  shifted : t.keys at ≡ x → IsShifted hash emptied (shift_back hash t.cap at at emptied)
  shifted e =
      let here = stopped hash t s room x nx in
      let some_free : 0 < free t.cap t.keys = omega (arith, s.counted) in
      let (i, lt, f) = count-exists t.cap (λ k. t.keys k == 0) some_free in
      let small = dist_below t.cap i lt at here.below in
      shift_back-IsShifted hash t.cap at 0 (dist t.cap at i) at emptied (next-fwd hash t s)
        (home_below hash t s) (sym (fwd_zero t.cap at here.below)) (omega arith)
        (start-IsShifting t.cap _ t.keys at i s.probed here.below lt ((==_iff (t.keys i) 0).0 f)
          (subst (λ k. k ≢ 0) (sym e) nx))

  empties : (y i : ℕ) → t.keys at ≡ x → y ≢ x → t.keys i ≡ y → update t.keys at 0 i ≡ y
  empties y i e d k = update_other t.keys at 0 i (λ q. d (sym k ∙ ap t.keys q ∙ e)) ∙ k

  empties_back : (y i : ℕ) → y ≢ 0 → update t.keys at 0 i ≡ y → (i ≢ at) × (t.keys i ≡ y)
  empties_back y i n k =
      let apart : i ≢ at = λ q. n (sym k ∙ update_same t.keys at 0 i q) in
      (apart, sym (update_other t.keys at 0 i apart) ∙ k)

  pub erase_hit : t.keys at ≡ x → IsErased hash t x (erase hash x t)
  unfolding erase
  erase_hit e =
      let a : (x == 0) ≡ false = ground (arith, nx) in
      let b : (t.keys at == x) ≡ true = (==_iff (t.keys at) x).1 e in
      let here = stopped hash t s room x nx in
      let r = shift_back hash t.cap at at emptied in
      let done = shifted e in
      let given = free_given t.cap at t.keys here.below (subst (λ k. k ≢ 0) (sym e) nx) in
      let most = count-le t.cap (λ k. update t.keys at 0 k == 0) in
      rw (a, b)
        (record {
          flag = refl;
          sound = record {
            width = s.width;
            is_pow = done.same.cap ∙ s.is_pow;
            masked = done.same.mask ∙ s.masked ∙ ap (λ c. c - 1) (sym done.same.cap);
            probed =
                subst (λ c. IsProbed c (home_of hash r.mask) r.keys) (sym done.same.cap)
                  (subst (λ m. IsProbed t.cap (home_of hash m) r.keys) (sym done.same.mask)
                    done.probed);
            counted =
                let same : free r.cap r.keys ≡ free t.cap r.keys =
                  ap (λ c. free c r.keys) done.same.cap in
                omega (arith, same, done.free, done.same.cap, given, most, s.counted);
          };
          cap = done.same.cap;
          size = omega (arith, given, most, s.counted);
          gone = λ w held.
              let (i, lt, k, v) = done.same.held_back x w nx held in
              let (apart, k') = empties_back x i nx k in apart (sym (here.found i lt k'));
          kept = λ y w n d (i, lt, k, v). done.same.held y w n (i, lt, empties y i e d k, v);
          kept_back = λ y w n d held.
              let (i, lt, k, v) = done.same.held_back y w n held in
              (i, lt, (empties_back y i n k).1, v);
        })

  pub erase_miss : t.keys at ≢ x → erase hash x t ≡ (t, false)
  unfolding erase
  erase_miss ne =
      let a : (x == 0) ≡ false = ground (arith, nx) in
      let b : (t.keys at == x) ≡ false = ground (arith, ne) in rw (a, b) refl
