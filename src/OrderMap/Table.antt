-- ===== src/OrderMap/Table.antt =====
-- include/tick/flat_order_map.hpp, FlatOrderMap: its state and operations, for any hash.
use Prim.Native.Nat.{bit_and, bit_xor}
use mathlib.Core.Option
use tickerplant.Prelude.{
  ℕ, zero, suc, ◌+◌, ◌-◌, ◌*◌, ◌/◌, ◌^◌, Bool, true, false, ◌&&◌, ◌||◌, Option, none, some, List,
  [], ◌∷◌, ltb, leb, ◌==◌, update, mul64, inc64, add64, if◌then◌else◌,
}
use tickerplant.Pow2.{round_up_pow2}

-- `SplitMix64Hash::hash`
unfoldable pub split_mix_64 : ℕ → ℕ
split_mix_64 x =
    let a = mul64 (bit_xor x (x / 2 ^ 30)) 13787848793156543929 in
    let b = mul64 (bit_xor a (a / 2 ^ 27)) 10723151780598845931 in bit_xor b (b / 2 ^ 31)

-- `IdentityHash::hash`
abbrev pub identity_hash : ℕ → ℕ
identity_hash x = x

-- Key 0 marks an empty slot. The arrays are read at masked indices, which are below `cap`.
pub record FlatOrderMap (V : Type 0) : Type 0 where
  pub keys : ℕ → ℕ
  pub vals : ℕ → V
  pub cap : ℕ
  pub mask : ℕ
  pub size : ℕ
  pub grows : ℕ
  pub probes : ℕ
  pub lookups : ℕ

-- A table of empty slots; `v` stands in them.
abbrev pub empty : {V : Type 0} → V → ℕ → FlatOrderMap V
empty v cap = record {
  keys = λ _. 0;
  vals = λ _. v;
  cap = cap;
  mask = cap - 1;
  size = 0;
  grows = 0;
  probes = 0;
  lookups = 0;
}

-- The constructor; `none` where the rounding of the capacity does not end.
unfoldable pub make : {V : Type 0} → V → ℕ → Option (FlatOrderMap V)
make v capacity_hint = Option.map (empty v) (round_up_pow2 capacity_hint)

-- `(i + 1) & mask_`
abbrev pub next : ℕ → ℕ → ℕ
next mask i = bit_and (i + 1) mask

-- Where a probe from `i` stops: at the key or at an empty slot. The second part counts its steps.
unfoldable pub seek : ℕ → (ℕ → ℕ) → ℕ → ℕ → ℕ → ℕ × ℕ
seek zero keys mask x i = (i, 0)
seek (suc f) keys mask x i =
    let rest = seek f keys mask x (next mask i) in
    if keys i == x then (i, 0) else (if keys i == 0 then (i, 0) else (rest.0, rest.1 + 1))

-- `cyclically_between`
abbrev pub cyclically_between : ℕ → ℕ → ℕ → Bool
cyclically_between lo x hi = if leb lo hi then ltb lo x && leb x hi else ltb lo x || leb x hi

-- 0.6 of a power of two, rounded down; the double nearest to 0.6 gives the same up to 2 ^ 53.
abbrev pub max_fill : ℕ → ℕ
max_fill cap = cap * 3 / 5

module _ {V : Type 0} (hash : ℕ → ℕ) where
  unfoldable pub slot : FlatOrderMap V → ℕ → ℕ
  slot t x = bit_and (hash x) t.mask

  -- There is always an empty slot, so a probe ends within the size of the table.
  unfoldable pub stop_at : FlatOrderMap V → ℕ → ℕ × ℕ
  unfolding seek slot
  stop_at t x = seek t.cap t.keys t.mask x (slot t x)

  -- `insert` once there is room.
  unfoldable pub place : ℕ → V → FlatOrderMap V → FlatOrderMap V × Bool
  unfolding stop_at
  place x v t =
      let i = (stop_at t x).0 in
      if t.keys i == x then (record t { vals = update t.vals i v }, false) else (
        record t { keys = update t.keys i x; vals = update t.vals i v; size = t.size + 1 },
        true,
      )

  -- The loop of `grow` over the first `n` slots of the old arrays.
  unfoldable pub rehash : ℕ → FlatOrderMap V → FlatOrderMap V → FlatOrderMap V
  unfolding place
  rehash zero old t = t
  rehash (suc n) old t =
      let t' = rehash n old t in
      if old.keys n == 0 then t' else (place (old.keys n) (old.vals n) t').0

  -- The doubled table has room for all, so `insert` does not grow again in this loop; `v` is `V{}`.
  unfoldable pub grow : V → FlatOrderMap V → FlatOrderMap V
  unfolding rehash
  grow v t =
      let t' = rehash t.cap t (record (empty v (t.cap * 2)) {
        probes = t.probes;
        lookups = t.lookups;
        grows = t.grows;
      }) in
      record t' { grows = inc64 t.grows }

  -- `insert`, given `V{}` and the argument.
  unfoldable pub insert : V → ℕ → V → FlatOrderMap V → FlatOrderMap V × Bool
  unfolding place grow
  insert unset x v t =
      if x == 0
      then (t, false)
      else place x v (if ltb (max_fill t.cap) (t.size + 1) then grow unset t else t)

  unfoldable pub find : ℕ → FlatOrderMap V → FlatOrderMap V × Option V
  unfolding stop_at
  find x t =
      let at = stop_at t x in
      if x == 0 then (t, none) else (
        record t { lookups = inc64 t.lookups; probes = add64 t.probes at.1 },
        if t.keys at.0 == x then some (t.vals at.0) else none,
      )

  -- The loop of the backward shift, with the hole and the cursor. A round moves the cursor on.
  unfoldable pub shift_back : ℕ → ℕ → ℕ → FlatOrderMap V → FlatOrderMap V
  unfolding slot
  shift_back zero hole j t = t
  shift_back (suc f) hole j t =
      let j' = next t.mask j in
      let stay = shift_back f hole j' t in
      let move = shift_back f j' j' (record t {
        keys = update (update t.keys hole (t.keys j')) j' 0;
        vals = update t.vals hole (t.vals j');
      }) in
      if t.keys j' == 0
      then t
      else (if cyclically_between hole (slot t (t.keys j')) j' then stay else move)

  unfoldable pub erase : ℕ → FlatOrderMap V → FlatOrderMap V × Bool
  unfolding stop_at shift_back
  erase x t =
      let i = (stop_at t x).0 in
      if x == 0
      then (t, false)
      else (if t.keys i == x
          then (
            record (shift_back t.cap i i (record t { keys = update t.keys i 0 })) {
              size = t.size - 1;
            },
            true,
          )
          else (t, false))

abbrev pub clear : {V : Type 0} → FlatOrderMap V → FlatOrderMap V
clear t = record t { keys = λ _. 0; size = 0 }

-- `for_each` over the first `n` slots: the calls it makes, the last first.
unfoldable pub entries_upto : {V : Type 0} → ℕ → FlatOrderMap V → List (ℕ × V)
entries_upto zero t = []
entries_upto (suc n) t =
    let rest = entries_upto n t in if t.keys n == 0 then rest else (t.keys n, t.vals n) ∷ rest
