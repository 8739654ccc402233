-- ===== src/OrderMap/Refines.antt =====
-- The table of include/tick/flat_order_map.hpp is a map: a caller cannot tell it from a function of the
-- key that starts with no values.
use native.Mathlib.Decide.{ℕ_discrete}
use tickerplant.Prelude.{
  ℕ, ◌^◌, ◌≤◌, ◌≡◌, refl, sym, ap, ◌∙◌, Bool, false, not, Bool-cases, inl, inr, Option, none, some,
  List, [], ◌∷◌, ==_iff, arith, ◌==◌, if◌then◌else◌,
}
use tickerplant.Pow2.{round_up_pow2-IsRounded}
use tickerplant.OrderMap.Table.{FlatOrderMap, empty, make, insert, find, erase, clear}
use tickerplant.OrderMap.Valid.{IsTable}
use tickerplant.OrderMap.Grow.{blank-IsSound}
use tickerplant.OrderMap.Get.{get, get_zero}
use tickerplant.OrderMap.Calls.{vacant, insert-get, erase-get, get_all, get_blank}

-- A call of the table and its answer.
pub data Call (V : Type 0) : Type 0 where
  put : ℕ → V → Call V
  remove : ℕ → Call V
  look : ℕ → Call V
  clear_all : Call V

pub data Answer (V : Type 0) : Type 0 where
  flag : Bool → Answer V
  value : Option V → Answer V
  done : Answer V

abbrev pub call : {V : Type 0} → (ℕ → ℕ) → V → Call V → FlatOrderMap V → FlatOrderMap V × Answer V
call hash unset (Call.put k v) t = let r = insert hash unset k v t in (r.0, Answer.flag r.1)
call hash unset (Call.remove k) t = let r = erase hash k t in (r.0, Answer.flag r.1)
call hash unset (Call.look k) t = let r = find hash k t in (r.0, Answer.value r.1)
call hash unset Call.clear_all t = (clear t, Answer.done)

-- The same calls of a function. Only the key 0 is refused.
abbrev pub reference : {V : Type 0} → Call V → (ℕ → Option V) → (ℕ → Option V) × Answer V
reference (Call.put k v) m =
    if k == 0
    then (m, Answer.flag false)
    else (λ y. if y == k then some v else m y, Answer.flag (vacant (m k)))
reference (Call.remove k) m = (λ y. if y == k then none else m y, Answer.flag (not (vacant (m k))))
reference (Call.look k) m = (m, Answer.value (m k))
reference Call.clear_all m = (λ y. none, Answer.done)

unfoldable pub run :
    {V : Type 0} → (ℕ → ℕ) → V → List (Call V) → FlatOrderMap V → FlatOrderMap V × List (Answer V)
run hash unset [] t = (t, [])
run hash unset (c ∷ cs) t =
    let r = call hash unset c t in let rest = run hash unset cs r.0 in (rest.0, r.1 ∷ rest.1)

unfoldable pub run_reference :
    {V : Type 0} → List (Call V) → (ℕ → Option V) → (ℕ → Option V) × List (Answer V)
run_reference [] m = (m, [])
run_reference (c ∷ cs) m =
    let r = reference c m in let rest = run_reference cs r.0 in (rest.0, r.1 ∷ rest.1)

-- The table is whole and finds what the function has.
abbrev pub Agrees : {V : Type 0} → (ℕ → ℕ) → FlatOrderMap V → (ℕ → Option V) → Type 0
Agrees hash t m = IsTable hash t × ((y : ℕ) → get hash t y ≡ m y)

abbrev pub AgreesAfter :
    {V : Type 0} → (ℕ → ℕ) → FlatOrderMap V × Answer V → (ℕ → Option V) × Answer V → Type 0
AgreesAfter hash r r' = (r.1 ≡ r'.1) × Agrees hash r.0 r'.0

module _ {V : Type 0} (hash : ℕ → ℕ) (unset : V) (t : FlatOrderMap V) (m : ℕ → Option V)
    (h : Agrees hash t m) where
  insert_zero : (k : ℕ) (v : V) → k ≡ 0 → insert hash unset k v t ≡ (t, false)
  unfolding insert
  insert_zero k v z = rw ((==_iff k 0).1 z) refl

  erase_zero : (k : ℕ) → k ≡ 0 → erase hash k t ≡ (t, false)
  unfolding erase
  erase_zero k z = rw ((==_iff k 0).1 z) refl

  put-Agrees :
      (k : ℕ) (v : V)
      → AgreesAfter hash (call hash unset (Call.put k v) t) (reference (Call.put k v) m)
  put-Agrees k v = elim (ℕ_discrete k 0) [
    | yes z ↦ rw (insert_zero k v z, (==_iff k 0).1 z) (refl, h)
    | no n ↦
        let b : (k == 0) ≡ false = ground (arith, n) in
        let p = insert-get hash unset t h.0 k n v in
        rw b (
          ap Answer.flag (p.0 ∙ ap vacant (h.1 k)),
          (p.1.0, λ y. p.1.1 y ∙ ap (λ o. if y == k then some v else o) (h.1 y)),
        )
  ]

  remove-Agrees :
      (k : ℕ) → AgreesAfter hash (call hash unset (Call.remove k) t) (reference (Call.remove k) m)
  remove-Agrees k = elim (ℕ_discrete k 0) [
    | yes z ↦
        let vacant_zero : m k ≡ none = sym (h.1 k) ∙ ap (get hash t) z ∙ get_zero hash t in
        rw (erase_zero k z) (
          sym (ap (λ o. Answer.flag (not (vacant o))) vacant_zero),
          (
            h.0,
            λ y. elim (ℕ_discrete y k) [
              | yes e ↦ rw ((==_iff y k).1 e) (h.1 y ∙ ap m e ∙ vacant_zero)
              | no ne ↦ let b : (y == k) ≡ false = ground (arith, ne) in rw b (h.1 y)
            ],
          ),
        )
    | no n ↦
        let p = erase-get hash unset t h.0 k n in
        (
          ap Answer.flag (p.0 ∙ ap (λ o. not (vacant o)) (h.1 k)),
          (p.1.0, λ y. p.1.1 y ∙ ap (λ o. if y == k then none else o) (h.1 y)),
        )
  ]

  -- The counters of `find` are no part of the map.
  counted-Agrees : (a b : ℕ) → Agrees hash (record t { lookups = a; probes = b }) m
  counted-Agrees a b =
      let s = h.0.0 in
      let valid : IsTable hash (record t { lookups = a; probes = b }) = (
        record {
          width = s.width;
          is_pow = s.is_pow;
          masked = s.masked;
          probed = s.probed;
          counted = s.counted;
        },
        h.0.1,
      ) in
      (
        valid,
        λ y.
            get_all hash t (record t { lookups = a; probes = b }) h.0 valid (λ y w n k. k)
              (λ y w n k. k) y
            ∙ h.1 y,
      )

  pub after_find : (k : ℕ) → Agrees hash (find hash k t).0 m
  unfolding find
  after_find k = elim (Bool-cases (k == 0)) [ inl e ↦ rw e h | inr e ↦ rw e (counted-Agrees _ _) ]

  look-Agrees :
      (k : ℕ) → AgreesAfter hash (call hash unset (Call.look k) t) (reference (Call.look k) m)
  look-Agrees k = (ap Answer.value (h.1 k), after_find k)

  clear-Agrees : AgreesAfter hash (call hash unset Call.clear_all t) (reference Call.clear_all m)
  clear-Agrees =
      let s = h.0.0 in
      let valid : IsTable hash (clear t) =
        (blank-IsSound hash (clear t) s.width s.is_pow s.masked (λ i. refl) refl, omega arith) in
      (refl, (valid, λ y. get_blank hash (clear t) valid (λ i. refl) y))

  pub call-Agrees : (c : Call V) → AgreesAfter hash (call hash unset c t) (reference c m)
  call-Agrees (Call.put k v) = put-Agrees k v
  call-Agrees (Call.remove k) = remove-Agrees k
  call-Agrees (Call.look k) = look-Agrees k
  call-Agrees Call.clear_all = clear-Agrees

pub find-size :
    {V : Type 0} (hash : ℕ → ℕ) (k : ℕ) (t : FlatOrderMap V) → (find hash k t).0.size ≡ t.size
unfolding find
find-size hash k t = elim (Bool-cases (k == 0)) [ inl e ↦ rw e refl | inr e ↦ rw e refl ]

-- Whatever calls are made of a whole table, it answers as the map that it holds, and is whole at the
-- end, with at most 0.6 of its slots taken.
pub run-Agrees :
    {V : Type 0} (hash : ℕ → ℕ) (unset : V) (cs : List (Call V)) (t : FlatOrderMap V)
    (m : ℕ → Option V)
    → Agrees hash t m
    → ((run hash unset cs t).1 ≡ (run_reference cs m).1)
      × Agrees hash (run hash unset cs t).0 (run_reference cs m).0
unfolding run run_reference
run-Agrees hash unset [] t m h = (refl, h)
run-Agrees hash unset (c ∷ cs) t m h =
    let one = call-Agrees hash unset t m h c in
    let rest = run-Agrees hash unset cs (call hash unset c t).0 (reference c m).0 one.1 in
    (cc (one.0, rest.0), rest.1)

-- For every size up to 2 ^ 63 and every hash function the constructor returns a table, and over any
-- calls of `insert`, `find`, `erase` and `clear`, whatever it has grown to, the table answers as a map
-- that has no values at first and refuses the key 0 only.
pub make-run_reference :
    {V : Type 0} (hash : ℕ → ℕ) (unset : V) (hint : ℕ)
    → hint ≤ 2 ^ 63
    → (t : FlatOrderMap V) × (make unset hint ≡ some t)
      × ((cs : List (Call V)) → (run hash unset cs t).1 ≡ (run_reference cs (λ y. none)).1)
unfolding make
make-run_reference hash unset hint small =
    let (c, e, r) = round_up_pow2-IsRounded hint small in
    let t = empty unset c in
    let valid : IsTable hash t =
      (blank-IsSound hash t r.width r.is_pow refl (λ i. refl) refl, omega arith) in
    (
      t,
      rw e refl,
      λ cs. (run-Agrees hash unset cs t (λ y. none) (valid, get_blank hash t valid (λ i. refl))).0,
    )
