-- ===== src/Risk/Table.antt =====
-- include/tick/risk.hpp, RiskEngine: the table of open orders, linear probing with a backward shift.
use Prim.Native.Nat.{bit_and, bit_xor}
use tickerplant.Prelude.{
  ℕ, zero, suc, ◌+◌, ◌-◌, ◌*◌, ◌/◌, ◌^◌, Bool, true, false, ◌&&◌, ◌||◌, not, Option, none, some,
  List, [], ◌∷◌, ltb, leb, ◌==◌, update, drop, take, mul64, add64, if◌then◌else◌,
}
use tickerplant.Risk.State.{OrderRequest, OpenOrder, Table}

abbrev pub no_order : OpenOrder
no_order = record { token = []; leaves = 0; locate = 0; is_buy = false; occupied = false }

-- `while (cap < want) cap <<= 1`; 2 ^ 34 is enough for four times any 32 bit limit.
unfoldable pub grow : ℕ → ℕ → ℕ → ℕ
grow zero cap want = cap
grow (suc f) cap want = let next = grow f (mul64 cap 2) want in if ltb cap want then next else cap

unfoldable pub size_open_order_table : ℕ → Table
unfolding grow
size_open_order_table max_open_orders = record {
  slots = λ _. no_order;
  mask = grow 35 64 (max_open_orders * 4) - 1;
}

-- `==` of two tokens, byte by byte.
unfoldable pub same_token : List ℕ → List ℕ → Bool
same_token [] [] = true
same_token [] (y ∷ ys) = false
same_token (x ∷ xs) [] = false
same_token (x ∷ xs) (y ∷ ys) = let rest = same_token xs ys in (x == y) && rest

-- The bytes of a word on a little endian host.
unfoldable pub load_le : List ℕ → ℕ
load_le [] = 0
load_le (x ∷ xs) = x + load_le xs * 256

abbrev pub xor_shift : ℕ → ℕ → ℕ
xor_shift k h = bit_xor h (h / 2 ^ k)

unfoldable pub hash_token : List ℕ → ℕ
unfolding load_le
hash_token t =
    let a = load_le (take 8 t) in
    let b = load_le (take 8 (drop 6 t)) in
    let h = bit_xor a (mul64 b 11400714819323198485) in
    let h1 = mul64 (xor_shift 30 h) 13787848793156543929 in
    let h2 = mul64 (xor_shift 27 h1) 10723151780598845931 in xor_shift 31 h2

unfoldable pub home : Table → List ℕ → ℕ
unfolding hash_token
home s t = bit_and (hash_token t) s.mask

-- `(i + 1) & mask_`
unfoldable pub next_slot : Table → ℕ → ℕ
next_slot s i = bit_and (add64 i 1) s.mask

-- The loop of `find_open`; `none` is kNoSlot.
unfoldable pub find_from : ℕ → Table → List ℕ → ℕ → Option ℕ
unfolding same_token next_slot
find_from zero s t i = none
find_from (suc f) s t i =
    let rest = find_from f s t (next_slot s i) in
    if (s.slots i).occupied
    then (if same_token ((s.slots i).token) t then some i else rest)
    else none

-- The table is never full, so an empty slot ends the probe within its size.
unfoldable pub find_open : Table → List ℕ → Option ℕ
unfolding find_from home
find_open s t = find_from (s.mask + 1) s t (home s t)

-- The loop of `insert_open`, with as many probes left as the table has slots.
unfoldable pub free_from : ℕ → Table → List ℕ → ℕ → Option ℕ
unfolding same_token next_slot
free_from zero s t i = none
free_from (suc f) s t i =
    let rest = free_from f s t (next_slot s i) in
    if (s.slots i).occupied
    then (if same_token ((s.slots i).token) t then none else rest)
    else some i

abbrev pub opened : OrderRequest → OpenOrder
opened r = record {
  token = r.token;
  leaves = r.shares;
  locate = r.locate;
  is_buy = r.is_buy;
  occupied = true;
}

-- `none` where the source returns kNoSlot.
unfoldable pub insert_open : OrderRequest → Table → Option Table
unfolding free_from home
insert_open r s = elim (free_from (s.mask + 1) s r.token (home s r.token)) [
  | none ↦ none
  | some i ↦ some (record s { slots = update s.slots i (opened r) })
]

abbrev pub vacate : ℕ → Table → Table
vacate i s = record s { slots = update s.slots i (record (s.slots i) { occupied = false }) }

-- Whether the entry at `j` with home `k` may move back to the hole `i`.
abbrev pub is_movable : ℕ → ℕ → ℕ → Bool
is_movable i j k = if leb i j then leb k i || ltb j k else leb k i && ltb j k

-- The inner loop of `erase_at`: the entry that moves into the hole, if one does.
unfoldable pub movable_from : ℕ → Table → ℕ → ℕ → Option ℕ
unfolding next_slot home
movable_from zero s i j = none
movable_from (suc f) s i j =
    let j' = next_slot s j in
    let rest = movable_from f s i j' in
    if not ((s.slots j').occupied)
    then none
    else (if is_movable i j' (home s ((s.slots j').token)) then some j' else rest)

abbrev pub move_back : ℕ → ℕ → Table → Table
move_back i j s = record s { slots = update s.slots i (s.slots j) }

-- The outer loop; the hole moves forward along the probe chain, within the size of the table.
unfoldable pub erase_loop : ℕ → ℕ → Table → Table
unfolding movable_from
erase_loop zero i s = s
erase_loop (suc f) i s = elim (movable_from (s.mask + 1) (vacate i s) i i) [
  | none ↦ vacate i s
  | some j ↦ erase_loop f j (move_back i j (vacate i s))
]

unfoldable pub erase_at : ℕ → Table → Table
unfolding erase_loop
erase_at i s = erase_loop (s.mask + 1) i s
