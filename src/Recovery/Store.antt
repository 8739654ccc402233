-- ===== src/Recovery/Store.antt =====
-- include/tick/recovery.hpp, RetransmitStore: the ring of recent messages that answers re-requests.
use Prim.Native.Nat.{bit_and}
use mathlib.Core.Option
use tickerplant.Prelude.{
  ℕ, ◌-◌, ◌%◌, Bool, true, false, ◌&&◌, Option, none, some, List, ◌++◌, ltb, ◌==◌, update, length,
  take, drop, replicate, u32_mod, if◌then◌else◌,
}
use tickerplant.Pow2.{round_up_pow2}

pub record Slot : Type 0 where
  pub seq : ℕ
  pub len : ℕ
  pub present : Bool
  pub bytes : List ℕ

-- A slot holds the part of `bytes_` that belongs to it; `slots` is read at masked indices only.
pub record RetransmitStore : Type 0 where
  pub cap : ℕ
  pub mask : ℕ
  pub max_payload : ℕ
  pub slots : ℕ → Slot

abbrev pub width_of : ℕ → ℕ
width_of n = if n == 0 then 1 else n

abbrev pub empty : ℕ → ℕ → RetransmitStore
empty max_payload cap = record {
  cap = cap;
  mask = cap - 1;
  max_payload = width_of max_payload;
  slots =
      λ i. record { seq = 0; len = 0; present = false; bytes = replicate (width_of max_payload) 0 };
}

-- The constructor; `none` where the rounding of the capacity does not end.
unfoldable pub make : ℕ → ℕ → Option RetransmitStore
make capacity max_payload = Option.map (empty max_payload) (round_up_pow2 capacity)

-- `seq & mask_`
unfoldable pub index : RetransmitStore → ℕ → ℕ
index s q = bit_and q s.mask

unfoldable pub store : ℕ → List ℕ → RetransmitStore → RetransmitStore × Bool
unfolding index
store q p s = if ltb s.max_payload (length p) then (s, false) else (
  record s {
    slots = update s.slots (index s q) (record {
      seq = q;
      len = length p % u32_mod;
      present = true;
      bytes = p ++ drop (length p) ((s.slots (index s q)).bytes);
    });
  },
  true,
)

unfoldable pub contains : RetransmitStore → ℕ → Bool
unfolding index
contains s q = (s.slots (index s q)).present && ((s.slots (index s q)).seq == q)

-- `fetch` into a buffer of `room` bytes: what it copies out, or `none` where it returns false.
unfoldable pub fetch : ℕ → ℕ → RetransmitStore → Option (List ℕ)
unfolding index contains
fetch q room s =
    let sl = s.slots (index s q) in
    if contains s q then (if ltb room sl.len then none else some (take sl.len sl.bytes)) else none

unfoldable pub clear : RetransmitStore → RetransmitStore
clear s = record s { slots = λ i. record (s.slots i) { present = false } }
