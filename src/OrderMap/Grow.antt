-- ===== src/OrderMap/Grow.antt =====
-- The growth of a table of include/tick/flat_order_map.hpp: the loop over the old slots puts each entry
-- into the new ones, and nothing else.
use native.Mathlib.Decide.{ℕ_discrete}
use native.Mathlib.Nat.{pow-suc}
use tickerplant.Prelude.{
  ℕ, zero, suc, ◌+◌, ◌-◌, ◌*◌, ◌^◌, ◌≤◌, ◌<◌, ◌≡◌, ◌≢◌, refl, sym, ap, ◌∙◌, subst, false,
  Bool-cases, inl, inr, ==_iff, arith, ◌==◌, count,
}
use tickerplant.OrderMap.Table.{FlatOrderMap, empty, place, rehash, grow}
use tickerplant.OrderMap.Held.{Held}
use tickerplant.OrderMap.Free.{free}
use tickerplant.OrderMap.Valid.{IsSound}
use tickerplant.OrderMap.Get.{stop, stopped}
use tickerplant.OrderMap.Place.{place_miss}

free_blank : (n : ℕ) (keys : ℕ → ℕ) → ((i : ℕ) → keys i ≡ 0) → free n keys ≡ n
unfolding count
free_blank zero keys h = refl
free_blank (suc n) keys h = rw (h n) (omega (arith, free_blank n keys h))

pub blank-IsSound :
    {V : Type 0} (hash : ℕ → ℕ) (t : FlatOrderMap V) (w : ℕ)
    → t.cap ≡ 2 ^ w
    → t.mask ≡ t.cap - 1
    → ((i : ℕ) → t.keys i ≡ 0)
    → t.size ≡ 0
    → IsSound hash t
blank-IsSound hash t w pow masked blank none_in = record {
  width = w;
  is_pow = pow;
  masked = masked;
  probed = record {
    unique = λ i j hi hj ni e. absurd (ni (blank i));
    path = λ i e hi ni pos le. absurd (ni (blank i));
  };
  counted = omega (arith, none_in, free_blank t.cap t.keys blank);
}

pub Held-unique :
    {V : Type 0} (hash : ℕ → ℕ) (t : FlatOrderMap V) (s : IsSound hash t) (y : ℕ) (v w : V)
    → y ≢ 0
    → Held t y v
    → Held t y w
    → v ≡ w
Held-unique hash t s y v w n (i, hi, ki, vi) (j, hj, kj, vj) =
    let at : i ≡ j = s.probed.unique i j hi hj (subst (λ k. k ≢ 0) (sym ki) n) (ki ∙ sym kj) in
    sym vi ∙ ap t.vals at ∙ vj

-- The value of a key in the first `n` slots.
abbrev pub HeldUpto : {V : Type 0} → ℕ → FlatOrderMap V → ℕ → V → Type 0
HeldUpto n t x v = (i : ℕ) × (i < n) × (t.keys i ≡ x) × (t.vals i ≡ v)

pub record IsRehashed {V : Type 0} (hash : ℕ → ℕ) (old r : FlatOrderMap V) (n : ℕ) : Type 0 where
  pub sound : IsSound hash r
  pub cap : r.cap ≡ old.cap * 2
  pub size : r.size + free n old.keys ≡ n
  pub held : (y : ℕ) (w : V) → y ≢ 0 → HeldUpto n old y w → Held r y w
  pub held_back : (y : ℕ) (w : V) → y ≢ 0 → Held r y w → HeldUpto n old y w

module _ {V : Type 0} (hash : ℕ → ℕ) (old : FlatOrderMap V) (s : IsSound hash old) where
  skip-IsRehashed :
      (n : ℕ) (r : FlatOrderMap V)
      → old.keys n ≡ 0
      → IsRehashed hash old r n
      → IsRehashed hash old r (suc n)
  unfolding count
  skip-IsRehashed n r e h = record {
    sound = h.sound;
    cap = h.cap;
    size = rw e (omega (arith, h.size));
    held = λ y w ny (i, lt, k, v). elim (ℕ_discrete i n) [
      | yes q ↦ absurd (ny (sym k ∙ ap old.keys q ∙ e))
      | no q ↦ h.held y w ny (i, omega arith, k, v)
    ];
    held_back =
        λ y w ny held. let (i, lt, k, v) = h.held_back y w ny held in (i, omega arith, k, v);
  }

  -- The entry of a slot is new to the table of the entries before it.
  fresh :
      (n : ℕ) (r : FlatOrderMap V)
      → n < old.cap
      → old.keys n ≢ 0
      → (h : IsRehashed hash old r n) (room : r.size < r.cap) (i : ℕ) → i < r.cap
      → r.keys i ≢ old.keys n
  fresh n r lt nx h room i hi e =
      let (j, hj, k, v) = h.held_back (old.keys n) (r.vals i) nx (i, hi, e, refl) in
      let at : j ≡ n = s.probed.unique j n (omega arith) lt (subst (λ q. q ≢ 0) (sym k) nx) k in
      absurd (omega arith)

  put-IsRehashed :
      (n : ℕ) (r : FlatOrderMap V)
      → n < old.cap
      → old.keys n ≢ 0
      → IsRehashed hash old r n
      → IsRehashed hash old (place hash (old.keys n) (old.vals n) r).0 (suc n)
  unfolding count
  put-IsRehashed n r lt nx h =
      let x = old.keys n in
      let room : r.size < r.cap = omega (arith, h.size, h.cap) in
      let here = stopped hash r h.sound room x nx in
      let done =
        (place_miss hash r h.sound room x nx (old.vals n)
          (fresh n r lt nx h room (stop hash r h.sound room x nx) here.below)).1 in
      let full : (old.keys n == 0) ≡ false = ground (arith, nx) in
      record {
        sound = done.sound;
        cap = done.cap ∙ h.cap;
        size = rw full (omega (arith, done.size, h.size));
        held = λ y w ny (i, hi, k, v). elim (ℕ_discrete i n) [
          | yes q ↦
              let same : x ≡ y = ap old.keys (sym q) ∙ k in
              subst (λ z. Held (place hash x (old.vals n) r).0 z w) same
                (subst (Held (place hash x (old.vals n) r).0 x) (ap old.vals (sym q) ∙ v) done.held)
          | no q ↦
              let apart : y ≢ x = λ z.
                q (s.probed.unique i n (omega arith) lt (subst (λ k. k ≢ 0) (sym k) ny) (k ∙ z)) in
              done.kept y w ny apart (h.held y w ny (i, omega arith, k, v))
        ];
        held_back = λ y w ny held. elim (ℕ_discrete y x) [
          | yes z ↦ (
            n,
            omega arith,
            sym z,
            Held-unique hash _ done.sound y (old.vals n) w ny
                (subst (λ q. Held (place hash x (old.vals n) r).0 q (old.vals n)) (sym z) done.held)
                held,
          )
          | no z ↦
              let (i, hi, k, v) = h.held_back y w ny (done.kept_back y w ny z held) in
              (i, omega arith, k, v)
        ];
      }

  rehash-IsRehashed :
      (n : ℕ) (t : FlatOrderMap V)
      → n ≤ old.cap
      → IsRehashed hash old t 0
      → IsRehashed hash old (rehash hash n old t) n
  unfolding rehash
  rehash-IsRehashed zero t le h = h
  rehash-IsRehashed (suc n) t le h =
      let before = rehash-IsRehashed n t (omega arith) h in
      elim (Bool-cases (old.keys n == 0)) [
        | inl e ↦
            rw e (skip-IsRehashed n (rehash hash n old t) ((==_iff (old.keys n) 0).0 e) before)
        | inr e ↦
            rw e
              (put-IsRehashed n (rehash hash n old t) (omega arith) (λ q. ground (arith, q)) before)
      ]

  start-IsRehashed :
      (t : FlatOrderMap V)
      → t.cap ≡ old.cap * 2
      → t.mask ≡ t.cap - 1
      → ((i : ℕ) → t.keys i ≡ 0)
      → t.size ≡ 0
      → IsRehashed hash old t 0
  unfolding count
  start-IsRehashed t cap masked blank none_in = record {
    sound =
        blank-IsSound hash t (suc s.width) (cap ∙ omega (arith, s.is_pow, pow-suc 2 s.width)) masked
          blank none_in;
    cap = cap;
    size = omega (arith, none_in);
    held = λ y w ny (i, lt, k, v). absurd (omega arith);
    held_back = λ y w ny (i, lt, k, v). absurd (ny (sym k ∙ blank i));
  }

  -- A grown table holds the same in twice the slots.
  pub grow-IsRehashed : (v : V) → IsRehashed hash old (grow hash v old) old.cap
  unfolding grow
  grow-IsRehashed v =
      let t = record (empty v (old.cap * 2)) {
        probes = old.probes;
        lookups = old.lookups;
        grows = old.grows;
      } in
      let r =
        rehash-IsRehashed old.cap t (omega arith) (start-IsRehashed t refl refl (λ i. refl) refl) in
      record {
        sound = record {
          width = r.sound.width;
          is_pow = r.sound.is_pow;
          masked = r.sound.masked;
          probed = r.sound.probed;
          counted = r.sound.counted;
        };
        cap = r.cap;
        size = r.size;
        held = r.held;
        held_back = r.held_back;
      }
