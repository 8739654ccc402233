-- ===== src/Book/Sorted.antt =====
-- The sides of include/tick/book_side.hpp stay sorted, and hold one level for a price.
use tickerplant.Prelude.{
  ℕ, ◌≡◌, ◌≢◌, refl, ◌∙◌, Bool, true, false, Bool-cases, inl, inr, none, some, List, [], ◌∷◌, arith,
  ◌==◌, if◌then◌else◌,
}
use tickerplant.Book.Side.{before, locate, level_here, level, find_here, find, erase_here, erase}

-- Every level of a side is worse than a price.
unfoldable pub AllWorse : {L : Type 0} → Bool → ℕ → List (ℕ × L) → Type 0
AllWorse is_bid p [] = Unit
AllWorse is_bid p (e ∷ es) = (before is_bid p e.0 ≡ true) × AllWorse is_bid p es

unfoldable pub IsSorted : {L : Type 0} → Bool → List (ℕ × L) → Type 0
IsSorted is_bid [] = Unit
IsSorted is_bid (e ∷ es) = AllWorse is_bid e.0 es × IsSorted is_bid es

pub before_trans :
    (b : Bool) (p q r : ℕ) → before b p q ≡ true → before b q r ≡ true → before b p r ≡ true
before_trans b p q r h k = ground arith

pub before-ne : (b : Bool) (p q : ℕ) → before b p q ≡ true → (p == q) ≡ false
before-ne b p q h = ground arith

pub before_total : (b : Bool) (p q : ℕ) → before b p q ≡ false → p ≢ q → before b q p ≡ true
before_total b p q h ne = ground (arith, ne)

before_asym : (b : Bool) (p q : ℕ) → before b p q ≡ true → before b q p ≡ false
before_asym b p q h = ground arith

pub worsen :
    {L : Type 0} (b : Bool) (p q : ℕ) (s : List (ℕ × L))
    → before b p q ≡ true
    → AllWorse b q s
    → AllWorse b p s
unfolding AllWorse
worsen b p q [] h a = tt
worsen b p q (e ∷ es) h a = (before_trans b p q e.0 h a.0, worsen b p q es h a.1)

module _ {L : Type 0} (b : Bool) (p : ℕ) where
  pub level-cons :
      (new : ℕ → L) (f : L → L) (e : ℕ × L) (es : List (ℕ × L))
      → before b e.0 p ≡ true
      → level b new p f (e ∷ es) ≡ e ∷ level b new p f es
  unfolding level locate
  level-cons new f e es h = rw h refl

  pub level_stop :
      (new : ℕ → L) (f : L → L) (e : ℕ × L) (es : List (ℕ × L))
      → before b e.0 p ≡ false
      → level b new p f (e ∷ es) ≡ level_here new p f (e ∷ es)
  unfolding level locate
  level_stop new f e es h = rw h refl

  pub find-cons :
      (e : ℕ × L) (es : List (ℕ × L)) → before b e.0 p ≡ true → find b p (e ∷ es) ≡ find b p es
  unfolding find locate
  find-cons e es h = rw h refl

  pub find_stop :
      (e : ℕ × L) (es : List (ℕ × L))
      → before b e.0 p ≡ false
      → find b p (e ∷ es) ≡ find_here p (e ∷ es)
  unfolding find locate
  find_stop e es h = rw h refl

  pub erase-cons :
      (e : ℕ × L) (es : List (ℕ × L))
      → before b e.0 p ≡ true
      → erase b p (e ∷ es) ≡ e ∷ erase b p es
  unfolding erase locate
  erase-cons e es h = rw h refl

  pub erase_stop :
      (e : ℕ × L) (es : List (ℕ × L))
      → before b e.0 p ≡ false
      → erase b p (e ∷ es) ≡ erase_here p (e ∷ es)
  unfolding erase locate
  erase_stop e es h = rw h refl

  pub find_step :
      (e : ℕ × L) (es : List (ℕ × L))
      → find b p (e ∷ es)
        ≡ (if before b e.0 p then find b p es else (if e.0 == p then some e.1 else none))
  find_step e es = elim (Bool-cases (before b e.0 p)) [
    | inl h ↦ rw h (find-cons e es h)
    | inr h ↦ rw h (find_stop e es h)
  ]

  pub find_worse : (s : List (ℕ × L)) → AllWorse b p s → find b p s ≡ none
  unfolding find locate AllWorse
  find_worse [] a = refl
  find_worse (e ∷ es) a =
      let later : before b e.0 p ≡ false = before_asym b p e.0 a.0 in
      let other : (e.0 == p) ≡ false = ground (arith, a.0) in
      find_step e es ∙ (rw (later, other) refl)
