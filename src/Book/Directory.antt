-- ===== src/Book/Directory.antt =====
-- include/tick/symbol_table.hpp: a symbol that was defined is found by its ticker.
use tickerplant.Prelude.{
  ℕ, zero, suc, ◌+◌, ◌<◌, ◌≤◌, ◌≡◌, ◌≢◌, refl, sym, ap, ◌∙◌, subst, Bool, true, false, ◌&&◌,
  Bool-cases, inl, inr, some, List, [], ◌∷◌, length, take, drop, take_append, ==_iff, arith, ◌==◌,
  ltb, if◌then◌else◌,
}
use tickerplant.Risk.Table.{same_token}
use tickerplant.Book.Symbols.{
  SymbolInfo, SymbolTable, define_symbol, ticker_of, find_ticker, find_symbol,
}

same_token_refl : (s : List ℕ) → same_token s s ≡ true
unfolding same_token
same_token_refl [] = refl
same_token_refl (c ∷ s) = rw (same_token_refl s, (==_iff c c).1 refl) refl

same_token-eq : (s t : List ℕ) → same_token s t ≡ true → s ≡ t
unfolding same_token
same_token-eq [] [] h = refl
same_token-eq [] (y ∷ t) h = absurd (cc h)
same_token-eq (x ∷ s) [] h = absurd (cc h)
same_token-eq (x ∷ s) (y ∷ t) h = elim (Bool-cases (x == y)) [
  | inr e ↦ absurd (ground (arith, e, h))
  | inl e ↦
      let tail : same_token s t ≡ true = ground (arith, e, h) in
      cc ((==_iff x y).0 e, same_token-eq s t tail)
]

-- Whether an entry is what `find` looks for.
abbrev matches : List ℕ → SymbolInfo → Bool
matches ticker e = e.known && same_token (ticker_of e) ticker

-- The only match is found.
find_ticker-only :
    (n i locate : ℕ) (ticker : List ℕ) (t : SymbolTable)
    → i ≤ locate
    → locate < i + n
    → matches ticker (t.entries locate) ≡ true
    → ((j : ℕ) → j ≢ locate → matches ticker (t.entries j) ≡ false)
    → find_ticker n i ticker t ≡ some locate
unfolding find_ticker
find_ticker-only zero i locate ticker t h k e only = absurd (omega arith)
find_ticker-only (suc n) i locate ticker t h k e only = elim (Bool-cases (i == locate)) [
  | inl here ↦
      let at : i ≡ locate = (==_iff i locate).0 here in
      let hit : matches ticker (t.entries i) ≡ true =
        subst (λ j. matches ticker (t.entries j) ≡ true) (sym at) e in
      rw hit (ap some at)
  | inr away ↦
      let apart : i ≢ locate = ground (arith, away) in
      let miss : matches ticker (t.entries i) ≡ false = only i apart in
      rw miss (find_ticker-only n (suc i) locate ticker t (omega arith) (omega arith) e only)
]

take-length : (s : List ℕ) → take (length s) s ≡ s
take-length [] = refl
take-length (c ∷ s) = ap (λ l. c ∷ l) (take-length s)

-- The entry that `define` leaves.
defined_ticker :
    (locate : ℕ) (ticker : List ℕ) (round_lot : ℕ) (t : SymbolTable)
    → length ticker ≤ 8
    → matches ticker ((define_symbol locate ticker round_lot t).entries locate) ≡ true
unfolding define_symbol
defined_ticker locate ticker round_lot t fits =
    let n : (if ltb (length ticker) 8 then length ticker else 8) ≡ length ticker =
      ground (arith, fits) in
    let here : (locate == locate) ≡ true = (==_iff locate locate).1 refl in
    let old = (t.entries locate).name in
    rw (here, n, take-length ticker, take_append ticker (drop (length ticker) old))
      (same_token_refl ticker)

other_entry :
    (locate j : ℕ) (ticker : List ℕ) (round_lot : ℕ) (t : SymbolTable)
    → j ≢ locate
    → (define_symbol locate ticker round_lot t).entries j ≡ t.entries j
unfolding define_symbol
other_entry locate j ticker round_lot t ne =
    let away : (j == locate) ≡ false = ground (arith, ne) in rw away refl

-- A symbol whose ticker fits its entry and is not that of another entry is found under its locate code
-- once it is defined, whatever stood in the entry before.
pub find_symbol-define_symbol :
    (locate : ℕ) (ticker : List ℕ) (round_lot : ℕ) (t : SymbolTable)
    → locate < 65536
    → length ticker ≤ 8
    → ((j : ℕ) → j ≢ locate → (t.entries j).known ≡ true → ticker_of (t.entries j) ≢ ticker)
    → find_symbol ticker (define_symbol locate ticker round_lot t) ≡ some locate
unfolding find_symbol
find_symbol-define_symbol locate ticker round_lot t small fits alone =
    let t' = define_symbol locate ticker round_lot t in
    find_ticker-only 65536 0 locate ticker t' (omega arith) (omega arith)
      (defined_ticker locate ticker round_lot t fits)
      (λ j ne.
        ap (matches ticker) (other_entry locate j ticker round_lot t ne)
        ∙ elim (Bool-cases (matches ticker (t.entries j))) [
          | inr miss ↦ miss
          | inl hit ↦
              let known : (t.entries j).known ≡ true = ground (arith, hit) in
              let same : same_token (ticker_of (t.entries j)) ticker ≡ true = ground (arith, hit) in
              absurd (alone j ne known (same_token-eq (ticker_of (t.entries j)) ticker same))
        ])
