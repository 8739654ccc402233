-- ===== src/Book/Removal.antt =====
-- `erase` and `best` of include/tick/book_side.hpp: the side stays sorted, one price is gone, and the
-- front is the best.
use native.Mathlib.Decide.{ℕ_discrete}
use tickerplant.Prelude.{
  ℕ, ◌≡◌, ◌≢◌, refl, sym, ap, ◌∙◌, subst, Bool, true, false, Bool-cases, inl, inr, Option, none,
  some, List, [], ◌∷◌, ==_iff, arith, ◌==◌, if◌then◌else◌,
}
use tickerplant.Book.Side.{before, locate, find, erase, best}
use tickerplant.Book.Sorted.{
  AllWorse, IsSorted, worsen, before_total, erase-cons, erase_stop, find-cons, find_stop,
  find_worse,
}

module _ {L : Type 0} (b : Bool) (p : ℕ) where
  AllWorse-erase : (q : ℕ) (s : List (ℕ × L)) → AllWorse b q s → AllWorse b q (erase b p s)
  unfolding AllWorse erase locate
  AllWorse-erase q [] a = tt
  AllWorse-erase q (e ∷ es) a = elim (Bool-cases (before b e.0 p)) [
    | inl k ↦ rw k (a.0, AllWorse-erase q es a.1)
    | inr k ↦ elim (Bool-cases (e.0 == p)) [
      | inl same ↦ rw (k, same) a.1
      | inr other ↦ rw (k, other) a
    ]
  ]

  pub IsSorted-erase : (s : List (ℕ × L)) → IsSorted b s → IsSorted b (erase b p s)
  unfolding IsSorted erase locate
  IsSorted-erase [] h = tt
  IsSorted-erase (e ∷ es) h = elim (Bool-cases (before b e.0 p)) [
    | inl k ↦ rw k (AllWorse-erase e.0 es h.0, IsSorted-erase es h.1)
    | inr k ↦ elim (Bool-cases (e.0 == p)) [
      | inl same ↦ rw (k, same) h.1
      | inr other ↦ rw (k, other) h
    ]
  ]

  find-erase_empty :
      (q : ℕ) → find b q (erase b p []) ≡ (if q == p then none else find {L = L} b q [])
  unfolding find erase locate
  find-erase_empty q = ground arith

  gone_here :
      (q : ℕ) (e : ℕ × L) (es : List (ℕ × L))
      → IsSorted b (e ∷ es)
      → (e.0 == p) ≡ true
      → find b q es ≡ (if q == p then none else find b q (e ∷ es))
  unfolding IsSorted
  gone_here q e es h same =
      let at : e.0 ≡ p = (==_iff e.0 p).0 same in
      elim (ℕ_discrete q p) [
        | yes here ↦
            rw ((==_iff q p).1 here)
              (find_worse b q es (subst (λ k. AllWorse b k es) (at ∙ sym here) h.0))
        | no ne ↦
            let apart : (q == p) ≡ false = ground (arith, ne) in
            elim (Bool-cases (before b e.0 q)) [
              | inl m ↦ rw (apart, find-cons b q e es m) refl
              | inr m ↦
                  let differ : e.0 ≢ q = λ z. ne (sym z ∙ at) in
                  let worse = before_total b e.0 q m differ in
                  let other : (e.0 == q) ≡ false = ground (arith, differ) in
                  rw (apart, find_stop b q e es m, other)
                    (find_worse b q es (worsen b q e.0 es worse h.0))
            ]
      ]

  pub find-erase :
      (q : ℕ) (s : List (ℕ × L))
      → IsSorted b s
      → find b q (erase b p s) ≡ (if q == p then none else find b q s)
  unfolding IsSorted
  find-erase q [] h = find-erase_empty q
  find-erase q (e ∷ es) h = elim (Bool-cases (before b e.0 p)) [
    | inl k ↦ elim (Bool-cases (before b e.0 q)) [
      | inl m ↦
          rw (erase-cons b p e es k, find-cons b q e es m, find-cons b q e (erase b p es) m)
            (find-erase q es h.1)
      | inr m ↦
          let apart : (q == p) ≡ false = ground (arith, k, m) in
          rw (apart, erase-cons b p e es k, find_stop b q e es m, find_stop b q e (erase b p es) m)
            refl
    ]
    | inr k ↦ elim (Bool-cases (e.0 == p)) [
      | inl same ↦ rw (erase_stop b p e es k, same) (gone_here q e es h same)
      | inr other ↦ elim (ℕ_discrete q p) [
        | yes here ↦
            ap (λ z. find b z (erase b p (e ∷ es))) here
            ∙ ap (find b p) (erase_stop b p e es k ∙ rw other refl)
            ∙ find_stop b p e es k
            ∙ rw (other, (==_iff q p).1 here) refl
        | no ne ↦
            let apart : (q == p) ≡ false = ground (arith, ne) in
            rw (apart, erase_stop b p e es k, other) refl
      ]
    ]
  ]

-- The front of a sorted side is its level at the best price; a side without a front has no levels.
abbrev pub IsBest : {L : Type 0} → Bool → Option (ℕ × L) → (ℕ → Option L) → Type 0
IsBest b none m = (q : ℕ) → m q ≡ none
IsBest b (some e) m = (m e.0 ≡ some e.1) × ((q : ℕ) → before b q e.0 ≡ true → m q ≡ none)

pub best-IsBest :
    {L : Type 0} (b : Bool) (s : List (ℕ × L)) → IsSorted b s → IsBest b (best s) (λ q. find b q s)
unfolding IsSorted find locate AllWorse
best-IsBest b [] h = λ q. refl
best-IsBest b (e ∷ es) h =
    let self : before b e.0 e.0 ≡ false = ground arith in
    let same : (e.0 == e.0) ≡ true = (==_iff e.0 e.0).1 refl in
    (
      find_stop b e.0 e es self ∙ rw same refl,
      λ q m. find_worse b q (e ∷ es) (m, worsen b q e.0 es m h.0),
    )
