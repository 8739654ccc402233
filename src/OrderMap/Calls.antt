-- ===== src/OrderMap/Calls.antt =====
-- The calls of a table of include/tick/flat_order_map.hpp, seen through `find`.
use native.Mathlib.Decide.{ℕ_discrete}
use tickerplant.Prelude.{
  ℕ, ◌+◌, ◌≤◌, ◌<◌, ◌≡◌, ◌≢◌, refl, sym, ap, ◌∙◌, subst, Bool, true, false, not, Bool-cases, inl,
  inr, Option, none, some, Option-cases, ==_iff, arith, ltb, ◌==◌, ltb→ge, if◌then◌else◌,
}
use tickerplant.OrderMap.Table.{FlatOrderMap, place, grow, insert, erase, max_fill}
use tickerplant.OrderMap.Held.{Held}
use tickerplant.OrderMap.Valid.{IsSound, IsTable, cap-pos}
use tickerplant.OrderMap.Get.{
  get, get_zero, Option_ext, stop, get-Held, get_absent, get_hit, get_miss,
}
use tickerplant.OrderMap.Place.{IsPlaced, place_hit, place_miss}
use tickerplant.OrderMap.Grow.{grow-IsRehashed}
use tickerplant.OrderMap.Erase.{IsErased, erase_hit, erase_miss}

-- Whether a result is no value.
abbrev pub vacant : {V : Type 0} → Option V → Bool
vacant none = true
vacant (some v) = false

max_fill-lt : (c : ℕ) → 0 < c → max_fill c < c
max_fill-lt c h = omega arith

pub IsTable-room :
    {V : Type 0} (hash : ℕ → ℕ) (t : FlatOrderMap V) → IsTable hash t → t.size < t.cap
IsTable-room hash t (s, fits) = omega (arith, max_fill-lt t.cap (cap-pos hash t s))

-- Of two tables that hold the same for a key, `find` returns the same.
get_same :
    {V : Type 0} (hash : ℕ → ℕ) (t r : FlatOrderMap V)
    → IsTable hash t
    → IsTable hash r
    → (y : ℕ) → y ≢ 0
    → ((w : V) → Held t y w → Held r y w)
    → ((w : V) → Held r y w → Held t y w)
    → get hash r y ≡ get hash t y
get_same hash t r ht hr y n to from = Option_ext (get hash r y) (get hash t y) (λ w.
    let a = get-Held hash t ht.0 (IsTable-room hash t ht) y n w in
    let b = get-Held hash r hr.0 (IsTable-room hash r hr) y n w in
    (λ e. a.1 (from w (b.0 e)), λ e. b.1 (to w (a.0 e))))

pub get_all :
    {V : Type 0} (hash : ℕ → ℕ) (t r : FlatOrderMap V)
    → IsTable hash t
    → IsTable hash r
    → ((y : ℕ) (w : V) → y ≢ 0 → Held t y w → Held r y w)
    → ((y : ℕ) (w : V) → y ≢ 0 → Held r y w → Held t y w)
    → (y : ℕ) → get hash r y ≡ get hash t y
get_all hash t r ht hr to from y = elim (ℕ_discrete y 0) [
  | yes z ↦ ap (get hash r) z ∙ get_zero hash r ∙ sym (ap (get hash t) z ∙ get_zero hash t)
  | no n ↦ get_same hash t r ht hr y n (λ w. to y w n) (λ w. from y w n)
]

-- A table with no keys has no values.
pub get_blank :
    {V : Type 0} (hash : ℕ → ℕ) (t : FlatOrderMap V)
    → IsTable hash t
    → ((i : ℕ) → t.keys i ≡ 0)
    → (y : ℕ) → get hash t y ≡ none
get_blank hash t h blank y = elim (ℕ_discrete y 0) [
  | yes z ↦ ap (get hash t) z ∙ get_zero hash t
  | no n ↦ get_absent hash t h.0 (IsTable-room hash t h) y n (λ i lt e. n (sym e ∙ blank i))
]

-- The map of a table that differs at one key.
get_update :
    {V : Type 0} (hash : ℕ → ℕ) (t r : FlatOrderMap V) (x : ℕ) (o : Option V)
    → get hash r x ≡ o
    → ((y : ℕ) → y ≢ 0 → y ≢ x → get hash r y ≡ get hash t y)
    → (y : ℕ) → get hash r y ≡ (if y == x then o else get hash t y)
get_update hash t r x o at other y = elim (ℕ_discrete y x) [
  | yes e ↦ rw ((==_iff y x).1 e) (ap (get hash r) e ∙ at)
  | no ne ↦
      let b : (y == x) ≡ false = ground (arith, ne) in
      elim (ℕ_discrete y 0) [
        | yes z ↦
            rw b (ap (get hash r) z ∙ get_zero hash r ∙ sym (ap (get hash t) z ∙ get_zero hash t))
        | no n ↦ rw b (other y n ne)
      ]
]

-- The table that `insert` writes to: as `t`, with room.
record IsRoomy {V : Type 0} (hash : ℕ → ℕ) (t r : FlatOrderMap V) : Type 0 where
  pub sound : IsSound hash r
  pub size : r.size ≡ t.size
  pub fits : r.size + 1 ≤ max_fill r.cap
  pub held : (y : ℕ) (w : V) → y ≢ 0 → Held t y w → Held r y w
  pub held_back : (y : ℕ) (w : V) → y ≢ 0 → Held r y w → Held t y w

grown-IsRoomy :
    {V : Type 0} (hash : ℕ → ℕ) (unset : V) (t : FlatOrderMap V)
    → IsTable hash t
    → IsRoomy hash t (grow hash unset t)
grown-IsRoomy hash unset t (s, fits) =
    let g = grow-IsRehashed hash t s unset in
    let same : (grow hash unset t).size ≡ t.size = omega (arith, g.size, s.counted) in
    record {
      sound = g.sound;
      size = same;
      fits =
          subst (λ c. (grow hash unset t).size + 1 ≤ max_fill c) (sym g.cap)
            (omega (arith, same, fits, cap-pos hash t s));
      held = g.held;
      held_back = g.held_back;
    }

abbrev roomy : {V : Type 0} → (ℕ → ℕ) → V → FlatOrderMap V → FlatOrderMap V
roomy hash unset t = if ltb (max_fill t.cap) (t.size + 1) then grow hash unset t else t

roomy-IsRoomy :
    {V : Type 0} (hash : ℕ → ℕ) (unset : V) (t : FlatOrderMap V)
    → IsTable hash t
    → IsRoomy hash t (roomy hash unset t)
roomy-IsRoomy hash unset t h = elim (Bool-cases (ltb (max_fill t.cap) (t.size + 1))) [
  | inl e ↦ rw e (grown-IsRoomy hash unset t h)
  | inr e ↦ rw e (record {
    sound = h.0;
    size = refl;
    fits = ltb→ge (max_fill t.cap) (t.size + 1) e;
    held = λ y w n k. k;
    held_back = λ y w n k. k;
  })
]

module _ {V : Type 0} (hash : ℕ → ℕ) (unset : V) (t : FlatOrderMap V) (h : IsTable hash t) (x : ℕ)
    (nx : x ≢ 0) where
  abbrev into : FlatOrderMap V
  into = roomy hash unset t

  into-IsRoomy : IsRoomy hash t into
  into-IsRoomy = roomy-IsRoomy hash unset t h

  into_room : into.size < into.cap
  into_room =
      let r = into-IsRoomy in
      omega (arith, r.fits, max_fill-lt into.cap (cap-pos hash into r.sound))

  get-into : get hash into x ≡ get hash t x
  get-into =
      let r = into-IsRoomy in
      let fits = r.fits in
      get_same hash t into h (r.sound, omega arith) x nx (λ w. r.held x w nx)
        (λ w. r.held_back x w nx)

  -- What is true of the table after a call that changes the key to `o`.
  abbrev pub Updated : FlatOrderMap V → Option V → Type 0
  Updated r o = IsTable hash r × ((y : ℕ) → get hash r y ≡ (if y == x then o else get hash t y))

  placed :
      (v : V) (n : ℕ)
      → n ≤ 1
      → IsPlaced hash into x v (place hash x v into) n
      → Updated (place hash x v into).0 (some v)
  placed v n le p =
      let r = into-IsRoomy in
      let out = (place hash x v into).0 in
      let valid : IsTable hash out =
        (p.sound, subst (λ c. out.size ≤ max_fill c) (sym p.cap) (omega (arith, r.fits, p.size))) in
      (
        valid,
        get_update hash t out x (some v)
            ((get-Held hash out p.sound (IsTable-room hash out valid) x nx v).1 p.held)
            (λ y n ne.
              get_same hash t out h valid y n (λ w k. p.kept y w n ne (r.held y w n k))
                (λ w k. r.held_back y w n (p.kept_back y w n ne k))),
      )

  pub insert-get :
      (v : V)
      → ((insert hash unset x v t).1 ≡ vacant (get hash t x))
        × Updated (insert hash unset x v t).0 (some v)
  unfolding insert
  insert-get v =
      let a : (x == 0) ≡ false = ground (arith, nx) in
      let s = into-IsRoomy.sound in
      elim (ℕ_discrete (into.keys (stop hash into s into_room x nx)) x) [
        | yes e ↦
            let p = place_hit hash into s into_room x nx v e in
            let found = sym get-into ∙ get_hit hash into s into_room x nx e in
            rw a (p.0 ∙ sym (ap vacant found), placed v 0 (omega arith) p.1)
        | no ne ↦
            let p = place_miss hash into s into_room x nx v ne in
            let found = sym get-into ∙ get_miss hash into s into_room x nx ne in
            rw a (p.0 ∙ sym (ap vacant found), placed v 1 (omega arith) p.1)
      ]

  erased : IsErased hash t x (erase hash x t) → Updated (erase hash x t).0 none
  erased p =
      let out = (erase hash x t).0 in
      let valid : IsTable hash out =
        (p.sound, subst (λ c. out.size ≤ max_fill c) (sym p.cap) (omega (arith, h.1, p.size))) in
      let empty : get hash out x ≡ none = elim (Option-cases (get hash out x)) [
        | inl e ↦ e
        | inr (w, e) ↦
            absurd (p.gone w ((get-Held hash out p.sound (IsTable-room hash out valid) x nx w).0 e))
      ] in
      (
        valid,
        get_update hash t out x none empty (λ y n ne.
            get_same hash t out h valid y n (λ w k. p.kept y w n ne k)
              (λ w k. p.kept_back y w n ne k)),
      )

  pub erase-get :
      ((erase hash x t).1 ≡ not (vacant (get hash t x))) × Updated (erase hash x t).0 none
  erase-get =
      let room = IsTable-room hash t h in
      elim (ℕ_discrete (t.keys (stop hash t h.0 room x nx)) x) [
        | yes e ↦
            let p = erase_hit hash t h.0 room x nx e in
            let found = get_hit hash t h.0 room x nx e in
            (p.flag ∙ sym (ap (λ o. not (vacant o)) found), erased p)
        | no ne ↦
            let found = get_miss hash t h.0 room x nx ne in
            rw (erase_miss hash t h.0 room x nx ne) (
              sym (ap (λ o. not (vacant o)) found),
              (h, get_update hash t t x none found (λ y n ne. refl)),
            )
      ]

  some-ne-none : (o : Option V) (v : V) → o ≡ some v → o ≢ none
  some-ne-none o v e q = absurd (cc (e, q))

  pub insert-size : (v : V) → get hash t x ≡ none → (insert hash unset x v t).0.size ≡ t.size + 1
  unfolding insert
  insert-size v new =
      let a : (x == 0) ≡ false = ground (arith, nx) in
      let r = into-IsRoomy in
      elim (ℕ_discrete (into.keys (stop hash into r.sound into_room x nx)) x) [
        | yes e ↦ absurd (
            some-ne-none (get hash t x) _
              (sym get-into ∙ get_hit hash into r.sound into_room x nx e) new)
        | no ne ↦
            let p = (place_miss hash into r.sound into_room x nx v ne).1 in
            rw a (p.size ∙ ap (λ n. n + 1) r.size)
      ]

  pub erase-size : (v : V) → get hash t x ≡ some v → (erase hash x t).0.size + 1 ≡ t.size
  erase-size v e =
      let room = IsTable-room hash t h in
      elim (ℕ_discrete (t.keys (stop hash t h.0 room x nx)) x) [
        | yes at ↦ (erase_hit hash t h.0 room x nx at).size
        | no ne ↦ absurd (some-ne-none (get hash t x) v e (get_miss hash t h.0 room x nx ne))
      ]
