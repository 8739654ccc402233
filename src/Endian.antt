-- ===== src/Endian.antt =====
-- include/tick/endian.hpp: big endian words in a wire buffer, which is a list of bytes. A load of
-- memcpy and a byte swap on a little endian host is the word that the bytes spell from the front.
pub mod RoundTrip
use Prim.Native.Nat.{bit_and, bit_or}
use native.Mathlib.Nat.{pow-suc}
use tickerplant.Prelude.{
  ℕ, zero, suc, ◌+◌, ◌*◌, ◌/◌, ◌%◌, ◌^◌, ◌<◌, ◌≡◌, refl, sym, ◌∙◌, ap, List, [], ◌∷◌, ◌++◌, arith,
  length, take, drop, u32_mod, take_append, length-append,
}

-- The bytes of a word of `n` bytes, the lowest first: what memcpy leaves on a little endian host.
unfoldable pub bytes_le : ℕ → ℕ → List ℕ
bytes_le zero v = []
bytes_le (suc n) v = v % 256 ∷ bytes_le n (v / 256)

unfoldable pub word_le : List ℕ → ℕ
word_le [] = 0
word_le (b ∷ bs) = b + word_le bs * 256

abbrev pub reverse_onto : List ℕ → List ℕ → List ℕ
reverse_onto [] ys = ys
reverse_onto (x ∷ xs) ys = reverse_onto xs (x ∷ ys)

-- bswap16, bswap32 and bswap64: the bytes of a word in the other order.
unfoldable pub bswap : ℕ → ℕ → ℕ
unfolding bytes_le word_le
bswap n v = word_le (reverse_onto (bytes_le n v) [])

-- `be_load` of the first `n` bytes at a pointer.
unfoldable pub be_load : ℕ → List ℕ → ℕ
unfolding bswap word_le
be_load n p = bswap n (word_le (take n p))

-- The bytes that `be_store` writes.
unfoldable pub be_store : ℕ → ℕ → List ℕ
unfolding bswap bytes_le
be_store n v = bytes_le n (bswap n v)

-- Six bytes: four, and two below them.
unfoldable pub be_load_u48 : List ℕ → ℕ
unfolding be_load
be_load_u48 p = bit_or (be_load 4 p * 65536) (be_load 2 (drop 4 p))

unfoldable pub be_store_u48 : ℕ → List ℕ
unfolding be_store
be_store_u48 v = be_store 4 (v / 65536 % u32_mod) ++ be_store 2 (bit_and v 65535)
