-- ===== src/OrderMap/Place.antt =====
-- The write of `insert` of include/tick/flat_order_map.hpp, into a table that has room.
use tickerplant.Prelude.{
  ℕ, ◌+◌, ◌<◌, ◌≡◌, ◌≢◌, refl, sym, ap, ◌∙◌, Bool, true, false, inl, inr, ==_iff, arith, ◌==◌,
  update,
}
use tickerplant.OrderMap.Table.{FlatOrderMap, place}
use tickerplant.OrderMap.Found.{update_same, update_other, place-IsProbed}
use tickerplant.OrderMap.Held.{Held, val_same, val_other}
use tickerplant.OrderMap.Free.{free_taken}
use tickerplant.OrderMap.Valid.{IsSound, home_below}
use tickerplant.OrderMap.Get.{stop, stopped, absent}

-- What a write leaves: the key holds the value, the others what they held, and the size counts it.
pub record IsPlaced {V : Type 0} (hash : ℕ → ℕ) (t : FlatOrderMap V) (x : ℕ) (v : V)
    (r : FlatOrderMap V × Bool) (news : ℕ) : Type 0 where
  pub sound : IsSound hash r.0
  pub cap : r.0.cap ≡ t.cap
  pub size : r.0.size ≡ t.size + news
  pub held : Held r.0 x v
  pub kept : (y : ℕ) (w : V) → y ≢ 0 → y ≢ x → Held t y w → Held r.0 y w
  pub kept_back : (y : ℕ) (w : V) → y ≢ 0 → y ≢ x → Held r.0 y w → Held t y w

module _ {V : Type 0} (hash : ℕ → ℕ) (t : FlatOrderMap V) (s : IsSound hash t)
    (room : t.size < t.cap) (x : ℕ) (nx : x ≢ 0) (v : V) where
  abbrev at : ℕ
  at = stop hash t s room x nx

  free_at : t.keys at ≢ x → t.keys at ≡ 0
  free_at ne = elim (stopped hash t s room x nx).stops.hit [ inl e ↦ absurd (ne e) | inr e ↦ e ]

  pub place_hit :
      t.keys at ≡ x → ((place hash x v t).1 ≡ false) × IsPlaced hash t x v (place hash x v t) 0
  unfolding place
  place_hit e =
      let b : (t.keys at == x) ≡ true = (==_iff (t.keys at) x).1 e in
      let here = stopped hash t s room x nx in
      let other : (y i : ℕ) → y ≢ x → t.keys i ≡ y → i ≢ at =
        λ y i ne k q. ne (sym k ∙ ap t.keys q ∙ e) in
      rw b (
        refl,
        record {
          sound = record {
            width = s.width;
            is_pow = s.is_pow;
            masked = s.masked;
            probed = s.probed;
            counted = s.counted;
          };
          cap = refl;
          size = omega arith;
          held = (at, here.below, e, val_same t.vals at v at refl);
          kept = λ y w n ne (i, lt, k, h). (i, lt, k, val_other t.vals at v i (other y i ne k) ∙ h);
          kept_back = λ y w n ne (i, lt, k, h).
              (i, lt, k, sym (val_other t.vals at v i (other y i ne k)) ∙ h);
        },
      )

  pub place_miss :
      t.keys at ≢ x → ((place hash x v t).1 ≡ true) × IsPlaced hash t x v (place hash x v t) 1
  unfolding place
  place_miss ne =
      let b : (t.keys at == x) ≡ false = ground (arith, ne) in
      let here = stopped hash t s room x nx in
      let e = free_at ne in
      let before : (i : ℕ) → i ≢ at → update t.keys at x i ≡ t.keys i = update_other t.keys at x in
      let old : (y i : ℕ) → y ≢ 0 → t.keys i ≡ y → i ≢ at =
        λ y i n k q. n (sym k ∙ ap t.keys q ∙ e) in
      let new : (y i : ℕ) → y ≢ x → update t.keys at x i ≡ y → i ≢ at =
        λ y i d k q. d (sym k ∙ update_same t.keys at x i q) in
      rw b (
        refl,
        record {
          sound = record {
            width = s.width;
            is_pow = s.is_pow;
            masked = s.masked;
            probed =
                place-IsProbed t.cap _ (home_below hash t s) t.keys s.probed x here.steps at nx
                  here.few e (absent hash t s room x nx ne) here.stops;
            counted = omega (arith, s.counted, free_taken t.cap at x t.keys here.below e nx);
          };
          cap = refl;
          size = refl;
          held = (at, here.below, update_same t.keys at x at refl, val_same t.vals at v at refl);
          kept = λ y w n d (i, lt, k, h).
              let apart = old y i n k in
              (i, lt, before i apart ∙ k, val_other t.vals at v i apart ∙ h);
          kept_back = λ y w n d (i, lt, k, h).
              let apart = new y i d k in
              (i, lt, sym (before i apart) ∙ k, sym (val_other t.vals at v i apart) ∙ h);
        },
      )
