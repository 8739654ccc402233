-- ===== src/Book/Runs.antt =====
-- A side of include/tick/book_side.hpp over the calls that a book makes of it.
use tickerplant.Prelude.{
  ℕ, ◌≡◌, refl, ap, ◌∙◌, Bool, Option, none, some, List, [], ◌∷◌, ◌==◌, if◌then◌else◌,
}
use tickerplant.Book.Side.{level, find, erase, best, locate}
use tickerplant.Book.State.{SideOps}
use tickerplant.Book.Sorted.{IsSorted}
use tickerplant.Book.Levels.{opened, IsSorted-level, find-level}
use tickerplant.Book.Removal.{IsSorted-erase, find-erase, IsBest, best-IsBest}

-- The vector as a side of the builder.
abbrev pub vector_side : {L : Type 0} → Bool → (ℕ → L) → SideOps L (List (ℕ × L))
vector_side is_bid new = record {
  level = level is_bid new;
  find = find is_bid;
  erase = erase is_bid;
  best = best;
  entries = λ s. s;
}

-- A call that changes a side.
pub data SideCall (L : Type 0) : Type 0 where
  at_level : ℕ → (L → L) → SideCall L
  drop_level : ℕ → SideCall L

unfoldable pub run_side :
    {L : Type 0} → Bool → (ℕ → L) → List (SideCall L) → List (ℕ × L) → List (ℕ × L)
run_side b new [] s = s
run_side b new (SideCall.at_level p f ∷ cs) s = run_side b new cs (level b new p f s)
run_side b new (SideCall.drop_level p ∷ cs) s = run_side b new cs (erase b p s)

-- The same calls of a function of the price.
unfoldable pub run_prices :
    {L : Type 0} → (ℕ → L) → List (SideCall L) → (ℕ → Option L) → ℕ → Option L
run_prices new [] m = m
run_prices new (SideCall.at_level p f ∷ cs) m =
    run_prices new cs (λ q. if q == p then some (f (opened new p (m p))) else m q)
run_prices new (SideCall.drop_level p ∷ cs) m =
    run_prices new cs (λ q. if q == p then none else m q)

run-find :
    {L : Type 0} (b : Bool) (new : ℕ → L) (cs : List (SideCall L)) (s : List (ℕ × L))
    (m : ℕ → Option L)
    → IsSorted b s
    → ((q : ℕ) → find b q s ≡ m q)
    → IsSorted b (run_side b new cs s)
      × ((q : ℕ) → find b q (run_side b new cs s) ≡ run_prices new cs m q)
unfolding run_side run_prices
run-find b new [] s m h same = (h, same)
run-find b new (SideCall.at_level p f ∷ cs) s m h same =
    run-find b new cs (level b new p f s) _ (IsSorted-level b p new f s h) (λ q.
      find-level b p new f q s h
      ∙ ap (λ o. if q == p then some (f (opened new p o)) else find b q s) (same p)
      ∙ ap (λ o. if q == p then some (f (opened new p (m p))) else o) (same q))
run-find b new (SideCall.drop_level p ∷ cs) s m h same =
    run-find b new cs (erase b p s) _ (IsSorted-erase b p s h)
      (λ q. find-erase b p q s h ∙ ap (λ o. if q == p then none else o) (same q))

find_empty : {L : Type 0} (b : Bool) (q : ℕ) → find {L = L} b q [] ≡ none
unfolding find locate
find_empty b q = refl

empty-IsSorted : (L : Type 0) (b : Bool) → IsSorted {L = L} b []
unfolding IsSorted
empty-IsSorted L b = tt

-- Over any calls of `level` and `erase` from an empty side, whatever the callers do with the levels: the
-- side is sorted, `find` returns the level that a function of the price would have after the calls, and
-- `best` is the level at the best price that has one, or nothing when none has.
pub run_side-run_prices :
    {L : Type 0} (b : Bool) (new : ℕ → L) (cs : List (SideCall L))
    → IsSorted b (run_side b new cs [])
      × ((q : ℕ) → find b q (run_side b new cs []) ≡ run_prices new cs (λ q. none) q)
      × IsBest b (best (run_side b new cs [])) (λ q. find b q (run_side b new cs []))
run_side-run_prices {L = L} b new cs =
    let r = run-find b new cs [] (λ q. none) (empty-IsSorted L b) (find_empty b) in
    (r.0, r.1, best-IsBest b (run_side b new cs []) r.0)
