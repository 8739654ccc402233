-- ===== src/OrderMap/Valid.antt =====
-- What holds of a table of include/tick/flat_order_map.hpp between two calls, and what a probe of it
-- finds.
use Prim.Native.Nat.{bit_and}
use native.Mathlib.Nat.{mod-lt, mod_self, mod-eq_of_lt}
use native.Mathlib.Decide.{ℕ_discrete}
use tickerplant.Prelude.{
  ℕ, ◌+◌, ◌-◌, ◌^◌, ◌%◌, ◌≤◌, ◌<◌, ◌≡◌, ◌≢◌, sym, ap, ◌∙◌, subst, ==_iff, arith, ◌==◌, count-exists,
}
use tickerplant.Prelude.Bits.{bit_and-mask, pow-pos}
use tickerplant.OrderMap.Table.{FlatOrderMap, next, slot, max_fill, stop_at}
use tickerplant.OrderMap.Ring.{fwd, fwd_below, fwd-dist, dist, dist_below}
use tickerplant.OrderMap.Probe.{IsProbed, Stops, seek-Stops}
use tickerplant.OrderMap.Found.{stop_at_key}
use tickerplant.OrderMap.Free.{free}
use tickerplant.OrderMap.Erased.{home_of}

pub record IsSound {V : Type 0} (hash : ℕ → ℕ) (t : FlatOrderMap V) : Type 0 where
  pub width : ℕ
  pub is_pow : t.cap ≡ 2 ^ width
  pub masked : t.mask ≡ t.cap - 1
  pub probed : IsProbed t.cap (home_of hash t.mask) t.keys
  pub counted : t.size + free t.cap t.keys ≡ t.cap

-- Between two calls there is also room left.
abbrev pub IsTable : {V : Type 0} → (ℕ → ℕ) → FlatOrderMap V → Type 0
IsTable hash t = IsSound hash t × (t.size ≤ max_fill t.cap)

masked-mod : (c mask w a : ℕ) → c ≡ 2 ^ w → mask ≡ c - 1 → (bit_and a mask ≡ a % c) × (0 < c)
masked-mod c mask w a e m = rw (m, e) (bit_and-mask w a, pow-pos w)

wrap-fwd : (c i : ℕ) → i < c → (i + 1) % c ≡ fwd c i 1
wrap-fwd c i lt = elim (ℕ_discrete (i + 1) c) [
  | yes e ↦
      let z : fwd c i 1 ≡ 0 = ground arith in subst (λ k. k % c ≡ 0) (sym e) (mod_self c) ∙ sym z
  | no ne ↦ let z : fwd c i 1 ≡ i + 1 = ground arith in mod-eq_of_lt (omega arith) ∙ sym z
]

module _ {V : Type 0} (hash : ℕ → ℕ) (t : FlatOrderMap V) (s : IsSound hash t) where
  pub cap-pos : 0 < t.cap
  cap-pos = (masked-mod t.cap t.mask s.width 0 s.is_pow s.masked).1

  pub home_below : (x : ℕ) → home_of hash t.mask x < t.cap
  home_below x =
      subst (λ k. k < t.cap) (sym (masked-mod t.cap t.mask s.width (hash x) s.is_pow s.masked).0)
        (mod-lt (hash x) cap-pos)

  pub next-fwd : (i : ℕ) → i < t.cap → next t.mask i ≡ fwd t.cap i 1
  next-fwd i lt =
      (masked-mod t.cap t.mask s.width (i + 1) s.is_pow s.masked).0 ∙ wrap-fwd t.cap i lt

  -- Where a probe for `x` stops: the way there, and that `x` is nowhere else.
  pub record Stopped (x r : ℕ) : Type 0 where
    pub steps : ℕ
    pub few : steps < t.cap
    pub below : r < t.cap
    pub stops : Stops t.cap t.keys x (home_of hash t.mask x) steps r
    pub found : (i : ℕ) → i < t.cap → t.keys i ≡ x → r ≡ i

  pub stop_at-Stopped : (x : ℕ) → x ≢ 0 → t.size < t.cap → Stopped x (stop_at hash t x).0
  unfolding stop_at slot
  stop_at-Stopped x nx room =
      let home = home_of hash t.mask in
      let some_free : 0 < free t.cap t.keys = omega (arith, s.counted) in
      let (i, lt, e) = count-exists t.cap (λ k. t.keys k == 0) some_free in
      let d = dist t.cap (home x) i in
      let small : d < t.cap = dist_below t.cap i lt (home x) (home_below x) in
      let at =
        ap t.keys (fwd-dist t.cap i lt (home x) (home_below x)) ∙ (==_iff (t.keys i) 0).0 e in
      let (m, le, stops) =
        seek-Stops t.cap t.mask next-fwd t.cap t.keys x (home x) d (home_below x) small small at in
      record {
        steps = m;
        few = omega arith;
        below =
            subst (λ k. k < t.cap) (sym stops.at)
              (fwd_below t.cap (home x) (home_below x) m (omega arith));
        stops = stops;
        found = λ i lt e.
            stop_at_key t.cap home home_below t.keys s.probed x m _ i nx (omega arith) lt e stops;
      }
