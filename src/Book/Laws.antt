-- ===== src/Book/Laws.antt =====
-- What include/tick/book_builder.hpp relies on of a price level, of the pool and of a side.
use tickerplant.Prelude.{ℕ, ◌+◌, ◌-◌, ◌≡◌, refl, Bool, true, false, none, some, ◌==◌, if◌then◌else◌}
use tickerplant.Book.State.{Side, Order, LevelOps, PoolOps, SideOps, Ops}
use tickerplant.Book.Builder.{ops_of}
use tickerplant.Book.Levels.{opened, IsSorted-level, find-level}
use tickerplant.Book.Removal.{IsSorted-erase, find-erase, IsBest, best-IsBest}
use tickerplant.Book.Sorted.{IsSorted}
use tickerplant.Book.Side.{find}
use tickerplant.Book.Runs.{vector_side}

-- NanoExchange's price level adds up the orders put in and taken out, and a fresh one is empty. The
-- shares of one level stay below what its total can hold.
pub record LevelLaws {L : Type 0} (o : LevelOps L) (new : ℕ → L) : Type 0 where
  pub new_price : (p : ℕ) → o.price (new p) ≡ p
  pub new_total : (p : ℕ) → o.total_quantity (new p) ≡ 0
  pub new_count : (p : ℕ) → o.order_count (new p) ≡ 0
  pub append_price : (q : ℕ) (x : Order) (l : L) → o.price (o.append q x l) ≡ o.price l
  pub append_total :
      (q : ℕ) (x : Order) (l : L)
      → o.total_quantity (o.append q x l) ≡ o.total_quantity l + x.remaining_qty
  pub append_count :
      (q : ℕ) (x : Order) (l : L) → o.order_count (o.append q x l) ≡ o.order_count l + 1
  pub remove_price : (q : ℕ) (x : Order) (l : L) → o.price (o.remove q x l) ≡ o.price l
  pub remove_total :
      (q : ℕ) (x : Order) (l : L)
      → o.total_quantity (o.remove q x l) ≡ o.total_quantity l - x.remaining_qty
  pub remove_count :
      (q : ℕ) (x : Order) (l : L) → o.order_count (o.remove q x l) ≡ o.order_count l - 1
  pub reduce_price : (n : ℕ) (l : L) → o.price (o.reduce n l) ≡ o.price l
  pub reduce_total : (n : ℕ) (l : L) → o.total_quantity (o.reduce n l) ≡ o.total_quantity l - n
  pub reduce_count : (n : ℕ) (l : L) → o.order_count (o.reduce n l) ≡ o.order_count l
  pub empty : (l : L) → o.is_empty l ≡ (o.order_count l == 0)

-- The pool is not exhausted.
abbrev pub HasRoom : {P : Type 0} → PoolOps P → P → Type 0
HasRoom {P = P} o p = (q : ℕ) × (p' : P) × (o.allocate p ≡ some (q, p'))

-- NanoExchange's pool, as long as it has room, gives out a place that is not in use, and an order made
-- there has the fields that were given.
pub record PoolLaws {P : Type 0} (o : PoolOps P) (in_use : P → ℕ → Bool) : Type 0 where
  pub fresh : (p p' : P) (q : ℕ) → o.allocate p ≡ some (q, p') → in_use p q ≡ false
  pub taken :
      (p p' : P) (q r : ℕ)
      → o.allocate p ≡ some (q, p')
      → in_use p' r ≡ (if r == q then true else in_use p r)
  pub given :
      (p : P) (q r : ℕ) → in_use (o.deallocate q p) r ≡ (if r == q then false else in_use p r)
  pub given_room : (p : P) (q : ℕ) → HasRoom o p → HasRoom o (o.deallocate q p)
  pub made :
      (ref : ℕ) (side : Side) (price shares ts locate : ℕ)
      → o.make_order ref side price shares ts locate
        ≡ record { side = side; price = price; remaining_qty = shares; symbol = locate }

-- A side keeps one level for a price, and its front is the best.
pub record SideLaws {L S : Type 0} (o : SideOps L S) (new : ℕ → L) (is_bid : Bool)
    (IsSide : S → Type 0) : Type 0 where
  pub level_side : (p : ℕ) (f : L → L) (s : S) → IsSide s → IsSide (o.level p f s)
  pub erase_side : (p : ℕ) (s : S) → IsSide s → IsSide (o.erase p s)
  pub level_find :
      (p : ℕ) (f : L → L) (q : ℕ) (s : S)
      → IsSide s
      → o.find q (o.level p f s)
        ≡ (if q == p then some (f (opened new p (o.find p s))) else o.find q s)
  pub erase_find :
      (p q : ℕ) (s : S) → IsSide s → o.find q (o.erase p s) ≡ (if q == p then none else o.find q s)
  pub sorted : (s : S) → IsSide s → IsSorted is_bid (o.entries s)
  pub entries_find : (q : ℕ) (s : S) → IsSide s → find is_bid q (o.entries s) ≡ o.find q s
  pub best_find : (s : S) → IsSide s → IsBest is_bid (o.best s) (λ q. o.find q s)

-- The vector is a side.
pub vector_side-SideLaws :
    {L : Type 0} (is_bid : Bool) (new : ℕ → L)
    → SideLaws (vector_side is_bid new) new is_bid (IsSorted is_bid)
vector_side-SideLaws is_bid new = record {
  level_side = λ p f s. IsSorted-level is_bid p new f s;
  erase_side = λ p s. IsSorted-erase is_bid p s;
  level_find = λ p f q s. find-level is_bid p new f q s;
  erase_find = λ p q s. find-erase is_bid p q s;
  sorted = λ s h. h;
  entries_find = λ q s h. refl;
  best_find = λ s. best-IsBest is_bid s;
}

abbrev pub is_bid : Side → Bool
is_bid Side.buy = true
is_bid Side.sell = false

-- What a builder is made of keeps its laws.
pub record OpsLaws {L S P : Type 0} (k : Ops L S P) (new : ℕ → L) (in_use : P → ℕ → Bool)
    (IsSide : Side → S → Type 0) : Type 0 where
  pub levels : LevelLaws k.levels new
  pub pools : PoolLaws k.pools in_use
  pub sides : (s : Side) → SideLaws (ops_of k s) new (is_bid s) (IsSide s)
