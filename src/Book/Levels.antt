-- ===== src/Book/Levels.antt =====
-- `level` of include/tick/book_side.hpp: the side stays sorted and changes at one price.
use native.Mathlib.Decide.{ℕ_discrete}
use tickerplant.Prelude.{
  ℕ, ◌≡◌, refl, sym, Bool, true, false, Bool-cases, inl, inr, Option, none, some, List, [], ◌∷◌,
  ==_iff, arith, ◌==◌, if◌then◌else◌,
}
use tickerplant.Book.Side.{before, locate, level, find}
use tickerplant.Book.Sorted.{
  AllWorse, IsSorted, worsen, before_trans, before_total, level-cons, level_stop, find-cons,
  find_stop, find_step, find_worse,
}

-- The level that the caller of `level` is given.
abbrev pub opened : {L : Type 0} → (ℕ → L) → ℕ → Option L → L
opened new p none = new p
opened new p (some l) = l

module _ {L : Type 0} (b : Bool) (p : ℕ) (new : ℕ → L) (f : L → L) where
  AllWorse-level :
      (q : ℕ) (s : List (ℕ × L))
      → before b q p ≡ true
      → AllWorse b q s
      → AllWorse b q (level b new p f s)
  unfolding AllWorse level locate
  AllWorse-level q [] h a = (h, tt)
  AllWorse-level q (e ∷ es) h a = elim (Bool-cases (before b e.0 p)) [
    | inl k ↦ rw k (a.0, AllWorse-level q es h a.1)
    | inr k ↦ elim (Bool-cases (e.0 == p)) [
      | inl same ↦ rw (k, same) a
      | inr other ↦ rw (k, other) (h, a)
    ]
  ]

  pub IsSorted-level : (s : List (ℕ × L)) → IsSorted b s → IsSorted b (level b new p f s)
  unfolding IsSorted AllWorse level locate
  IsSorted-level [] h = (tt, tt)
  IsSorted-level (e ∷ es) h = elim (Bool-cases (before b e.0 p)) [
    | inl k ↦ rw k (AllWorse-level e.0 es k h.0, IsSorted-level es h.1)
    | inr k ↦ elim (Bool-cases (e.0 == p)) [
      | inl same ↦ rw (k, same) h
      | inr other ↦
          let first : before b p e.0 ≡ true = before_total b e.0 p k (λ q. ground (arith, q)) in
          rw (k, other) ((first, worsen b p e.0 es first h.0), h)
    ]
  ]

  found_here :
      (q : ℕ) (e : ℕ × L) (es : List (ℕ × L))
      → before b e.0 p ≡ false
      → (e.0 == p) ≡ true
      → find b q (level b new p f (e ∷ es))
        ≡ (if q == p then some (f (opened new p (find b p (e ∷ es)))) else find b q (e ∷ es))
  found_here q e es k same =
      rw (level_stop b p new f e es k, find_stop b p e es k)
        (rw (same, find_step b q e es, find_step b q (e.0, f e.1) es) (ground (arith, k, same)))

  new_here :
      (q : ℕ) (e : ℕ × L) (es : List (ℕ × L))
      → IsSorted b (e ∷ es)
      → before b e.0 p ≡ false
      → (e.0 == p) ≡ false
      → find b q (level b new p f (e ∷ es))
        ≡ (if q == p then some (f (opened new p (find b p (e ∷ es)))) else find b q (e ∷ es))
  unfolding IsSorted AllWorse
  new_here q e es h k other =
      let first : before b p e.0 ≡ true = before_total b e.0 p k (λ q. ground (arith, q)) in
      elim (Bool-cases (before b p q)) [
        | inl m ↦
            let apart : (q == p) ≡ false = ground (arith, m) in
            rw (level_stop b p new f e es k, other, apart, find-cons b q (p, f (new p)) (e ∷ es) m)
              refl
        | inr m ↦ elim (ℕ_discrete q p) [
          | yes same ↦
              rw
                (
                  level_stop b p new f e es k,
                  other,
                  find_stop b p e es k,
                  find_stop b q (p, f (new p)) (e ∷ es) m,
                  (==_iff p q).1 (sym same),
                  (==_iff q p).1 same,
                )
                (rw other refl)
          | no ne ↦
              let apart : (q == p) ≡ false = ground (arith, ne) in
              let apart' : (p == q) ≡ false = ground (arith, ne) in
              let worse : before b q p ≡ true = before_total b p q m (λ z. ne (sym z)) in
              let none_there = find_worse b q (e ∷ es) (
                before_trans b q p e.0 worse first,
                worsen b q e.0 es (before_trans b q p e.0 worse first) h.0,
              ) in
              rw
                (
                  level_stop b p new f e es k,
                  other,
                  find_stop b q (p, f (new p)) (e ∷ es) m,
                  apart,
                  apart',
                  none_there,
                )
                refl
        ]
      ]

  find-level_empty :
      (q : ℕ)
      → find b q (level b new p f [])
        ≡ (if q == p then some (f (opened new p (find b p []))) else find b q [])
  unfolding find level locate
  find-level_empty q = ground arith

  pub find-level :
      (q : ℕ) (s : List (ℕ × L))
      → IsSorted b s
      → find b q (level b new p f s)
        ≡ (if q == p then some (f (opened new p (find b p s))) else find b q s)
  unfolding IsSorted
  find-level q [] h = find-level_empty q
  find-level q (e ∷ es) h = elim (Bool-cases (before b e.0 p)) [
    | inl k ↦ elim (Bool-cases (before b e.0 q)) [
      | inl m ↦
          rw
            (
              level-cons b p new f e es k,
              find-cons b p e es k,
              find-cons b q e es m,
              find-cons b q e (level b new p f es) m,
            )
            (find-level q es h.1)
      | inr m ↦
          let apart : (q == p) ≡ false = ground (arith, k, m) in
          rw
            (
              apart,
              level-cons b p new f e es k,
              find_stop b q e es m,
              find_stop b q e (level b new p f es) m,
            )
            refl
    ]
    | inr k ↦ elim (Bool-cases (e.0 == p)) [
      | inl same ↦ found_here q e es k same
      | inr other ↦ new_here q e es h k other
    ]
  ]
