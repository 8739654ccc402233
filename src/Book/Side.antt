-- ===== src/Book/Side.antt =====
-- include/tick/book_side.hpp, VectorSide: one side of a book, a vector of price levels with the best
-- first. A price level is NanoExchange's, so its type and its constructor are parameters.
use tickerplant.Prelude.{ℕ, Bool, Option, none, some, List, [], ◌∷◌, ◌++◌, ltb, ◌==◌, if◌then◌else◌}

-- `before`: a bid is better when higher, an ask when lower.
abbrev pub before : Bool → ℕ → ℕ → Bool
before is_bid a b = if is_bid then ltb b a else ltb a b

-- `locate`: the vector, split where `std::lower_bound` points.
unfoldable pub locate : {L : Type 0} → Bool → ℕ → List (ℕ × L) → List (ℕ × L) × List (ℕ × L)
locate is_bid p [] = ([], [])
locate is_bid p (e ∷ es) =
    let rest = locate is_bid p es in
    if before is_bid e.0 p then (e ∷ rest.0, rest.1) else ([], e ∷ es)

-- What `level` does where the iterator points; `use_level` is what the caller does with the reference.
abbrev pub level_here : {L : Type 0} → (ℕ → L) → ℕ → (L → L) → List (ℕ × L) → List (ℕ × L)
level_here new p use_level [] = (p, use_level (new p)) ∷ []
level_here new p use_level (e ∷ es) =
    if e.0 == p then (e.0, use_level e.1) ∷ es else (p, use_level (new p)) ∷ e ∷ es

unfoldable pub level : {L : Type 0} → Bool → (ℕ → L) → ℕ → (L → L) → List (ℕ × L) → List (ℕ × L)
unfolding locate
level is_bid new p use_level s =
    let at = locate is_bid p s in at.0 ++ level_here new p use_level at.1

abbrev pub find_here : {L : Type 0} → ℕ → List (ℕ × L) → Option L
find_here p [] = none
find_here p (e ∷ es) = if e.0 == p then some e.1 else none

unfoldable pub find : {L : Type 0} → Bool → ℕ → List (ℕ × L) → Option L
unfolding locate
find is_bid p s = find_here p (locate is_bid p s).1

abbrev pub erase_here : {L : Type 0} → ℕ → List (ℕ × L) → List (ℕ × L)
erase_here p [] = []
erase_here p (e ∷ es) = if e.0 == p then es else e ∷ es

unfoldable pub erase : {L : Type 0} → Bool → ℕ → List (ℕ × L) → List (ℕ × L)
unfolding locate
erase is_bid p s = let at = locate is_bid p s in at.0 ++ erase_here p at.1

-- `best`, with the price that the level is at.
abbrev pub best : {L : Type 0} → List (ℕ × L) → Option (ℕ × L)
best [] = none
best (e ∷ es) = some e

-- `for_each`, which ends when the visitor returns false.
unfoldable pub for_each : {L A : Type 0} → (ℕ × L → A → A × Bool) → List (ℕ × L) → A → A
for_each f [] acc = acc
for_each f (e ∷ es) acc =
    let r = f e acc in let rest = for_each f es r.0 in if r.1 then rest else r.0
