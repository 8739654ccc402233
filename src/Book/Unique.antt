-- ===== src/Book/Unique.antt =====
-- A sorted side of include/tick/book_side.hpp is determined by what it finds.
use native.Mathlib.Decide.{ℕ_discrete}
use tickerplant.Prelude.{
  some-injective, none-ne-some, ℕ, ◌≡◌, refl, sym, ap, ◌∙◌, subst, Bool, true, false, Bool-cases,
  inl, inr, none, some, List, [], ◌∷◌, ==_iff, arith,
}
use tickerplant.Book.Side.{before, find, locate}
use tickerplant.Book.Sorted.{
  AllWorse, IsSorted, worsen, before_total, find-cons, find_stop, find_worse,
}

module _ {L : Type 0} (b : Bool) where
  find_front : (e : ℕ × L) (es : List (ℕ × L)) → find b e.0 (e ∷ es) ≡ some e.1
  find_front e es =
      let self : before b e.0 e.0 ≡ false = ground arith in
      find_stop b e.0 e es self ∙ (rw ((==_iff e.0 e.0).1 refl) refl)

  find_empty : (q : ℕ) → find {L = L} b q [] ≡ none
  unfolding find locate
  find_empty q = refl

  -- A better front is not found in the other side.
  apart :
      (d e : ℕ × L) (ds es : List (ℕ × L))
      → IsSorted b (e ∷ es)
      → ((q : ℕ) → find b q (d ∷ ds) ≡ find b q (e ∷ es))
      → before b d.0 e.0 ≡ true
      → ⊥
  unfolding IsSorted AllWorse
  apart d e ds es h same first =
      none-ne-some (find b d.0 (e ∷ es))
        (find_worse b d.0 (e ∷ es) (first, worsen b d.0 e.0 es first h.0))
        (sym (same d.0) ∙ find_front d ds)

  -- What is found behind the front is what is found in the rest.
  find_rest :
      (q : ℕ) (d e : ℕ × L) (ds es : List (ℕ × L))
      → IsSorted b (d ∷ ds)
      → IsSorted b (e ∷ es)
      → d.0 ≡ e.0
      → find b q (d ∷ ds) ≡ find b q (e ∷ es)
      → find b q ds ≡ find b q es
  unfolding IsSorted
  find_rest q d e ds es hd he at same = elim (Bool-cases (before b d.0 q)) [
    | inl k ↦
        let k' : before b e.0 q ≡ true = subst (λ p. before b p q ≡ true) at k in
        sym (find-cons b q d ds k) ∙ same ∙ find-cons b q e es k'
    | inr k ↦ elim (ℕ_discrete d.0 q) [
      | yes here ↦
          find_worse b q ds (subst (λ p. AllWorse b p ds) here hd.0)
          ∙ sym (find_worse b q es (subst (λ p. AllWorse b p es) (sym at ∙ here) he.0))
      | no ne ↦
          let first = before_total b d.0 q k ne in
          let first' : before b q e.0 ≡ true = subst (λ p. before b q p ≡ true) at first in
          find_worse b q ds (worsen b q d.0 ds first hd.0)
          ∙ sym (find_worse b q es (worsen b q e.0 es first' he.0))
    ]
  ]

  pub IsSorted-unique :
      (ds es : List (ℕ × L))
      → IsSorted b ds
      → IsSorted b es
      → ((q : ℕ) → find b q ds ≡ find b q es)
      → ds ≡ es
  unfolding IsSorted
  IsSorted-unique [] [] hd he same = refl
  IsSorted-unique [] (e ∷ es) hd he same =
      absurd (none-ne-some (find b e.0 []) (find_empty e.0) (same e.0 ∙ find_front e es))
  IsSorted-unique (d ∷ ds) [] hd he same =
      absurd (none-ne-some (find b d.0 []) (find_empty d.0) (sym (same d.0) ∙ find_front d ds))
  IsSorted-unique (d ∷ ds) (e ∷ es) hd he same = elim (Bool-cases (before b d.0 e.0)) [
    | inl k ↦ absurd (apart d e ds es he same k)
    | inr k ↦ elim (Bool-cases (before b e.0 d.0)) [
      | inl m ↦ absurd (apart e d es ds hd (λ q. sym (same q)) m)
      | inr m ↦
          let at : d.0 ≡ e.0 = ground (arith, k, m) in
          let level : d.1 ≡ e.1 = some-injective (
            sym (find_front d ds)
            ∙ same d.0
            ∙ (ap (λ q. find b q (e ∷ es)) at ∙ find_front e es)) in
          let rest =
            IsSorted-unique ds es hd.1 he.1 (λ q. find_rest q d e ds es hd he at (same q)) in
          cc (at, level, rest)
    ]
  ]
