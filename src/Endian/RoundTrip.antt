-- ===== src/Endian/RoundTrip.antt =====
-- A word stored by include/tick/endian.hpp is loaded back.
use native.Mathlib.Nat.{pow-suc}
use tickerplant.Prelude.{
  ℕ, zero, suc, ◌+◌, ◌*◌, ◌/◌, ◌%◌, ◌^◌, ◌<◌, ◌≡◌, refl, ◌∙◌, ap, subst, List, [], ◌∷◌, ◌++◌, arith,
  length, take, take_append, All,
}
use tickerplant.Endian.{bytes_le, word_le, reverse_onto, bswap, be_load, be_store}

abbrev pub IsByte : ℕ → Type 0
IsByte b = b < 256

length-bytes_le : (n v : ℕ) → length (bytes_le n v) ≡ n
unfolding bytes_le
length-bytes_le zero v = refl
length-bytes_le (suc n) v = ap suc (length-bytes_le n (v / 256))

bytes_le-IsByte : (n v : ℕ) → All IsByte (bytes_le n v)
unfolding bytes_le
bytes_le-IsByte zero v = tt
bytes_le-IsByte (suc n) v = (omega arith, bytes_le-IsByte n (v / 256))

word_le-bytes_le : (n v : ℕ) → v < 256 ^ n → word_le (bytes_le n v) ≡ v
unfolding bytes_le word_le
word_le-bytes_le zero v h = omega arith
word_le-bytes_le (suc n) v h =
    let small : v / 256 < 256 ^ n = omega (arith, pow-suc 256 n) in
    omega (arith, word_le-bytes_le n (v / 256) small)

bytes_le-word_le : (bs : List ℕ) → All IsByte bs → bytes_le (length bs) (word_le bs) ≡ bs
unfolding bytes_le word_le
bytes_le-word_le [] a = refl
bytes_le-word_le (b ∷ bs) a =
    let low : (b + word_le bs * 256) % 256 ≡ b = omega (arith, a.0) in
    let high : (b + word_le bs * 256) / 256 ≡ word_le bs = omega (arith, a.0) in
    rw (low, high) (ap (λ l. b ∷ l) (bytes_le-word_le bs a.1))

word_le-below : (bs : List ℕ) → All IsByte bs → word_le bs < 256 ^ length bs
unfolding word_le
word_le-below [] a = omega arith
word_le-below (b ∷ bs) a = omega (arith, a.0, word_le-below bs a.1, pow-suc 256 (length bs))

length-reverse_onto : (xs ys : List ℕ) → length (reverse_onto xs ys) ≡ length xs + length ys
length-reverse_onto [] ys = omega arith
length-reverse_onto (x ∷ xs) ys = omega (arith, length-reverse_onto xs (x ∷ ys))

reverse_onto-All :
    (xs ys : List ℕ) → All IsByte xs → All IsByte ys → All IsByte (reverse_onto xs ys)
reverse_onto-All [] ys a b = b
reverse_onto-All (x ∷ xs) ys a b = reverse_onto-All xs (x ∷ ys) a.1 (a.0, b)

reverse_twice :
    (xs ys zs : List ℕ) → reverse_onto (reverse_onto xs ys) zs ≡ reverse_onto ys (xs ++ zs)
reverse_twice [] ys zs = refl
reverse_twice (x ∷ xs) ys zs = reverse_twice xs (x ∷ ys) zs

append_nil : (xs : List ℕ) → xs ++ [] ≡ xs
append_nil [] = refl
append_nil (x ∷ xs) = ap (λ l. x ∷ l) (append_nil xs)

-- The bytes of a word as the wire has them, the highest first.
abbrev wire : ℕ → ℕ → List ℕ
wire n v = reverse_onto (bytes_le n v) []

length-wire : (n v : ℕ) → length (wire n v) ≡ n
length-wire n v = omega (arith, length-reverse_onto (bytes_le n v) [], length-bytes_le n v)

wire-IsByte : (n v : ℕ) → All IsByte (wire n v)
wire-IsByte n v = reverse_onto-All (bytes_le n v) [] (bytes_le-IsByte n v) tt

wire-reverse : (n v : ℕ) → reverse_onto (wire n v) [] ≡ bytes_le n v
wire-reverse n v = reverse_twice (bytes_le n v) [] [] ∙ append_nil (bytes_le n v)

pub be_store-wire : (n v : ℕ) → be_store n v ≡ wire n v
unfolding be_store bswap
be_store-wire n v =
    subst (λ k. bytes_le k (word_le (wire n v)) ≡ wire n v) (length-wire n v)
      (bytes_le-word_le (wire n v) (wire-IsByte n v))

bswap-below : (n v : ℕ) → bswap n v < 256 ^ n
unfolding bswap
bswap-below n v =
    subst (λ k. word_le (wire n v) < 256 ^ k) (length-wire n v)
      (word_le-below (wire n v) (wire-IsByte n v))

bswap-bswap : (n v : ℕ) → v < 256 ^ n → bswap n (bswap n v) ≡ v
unfolding bswap be_store
bswap-bswap n v h =
    ap (λ l. word_le (reverse_onto l [])) (be_store-wire n v)
    ∙ ap word_le (wire-reverse n v)
    ∙ word_le-bytes_le n v h

pub length-be_store : (n v : ℕ) → length (be_store n v) ≡ n
unfolding be_store
length-be_store n v = length-bytes_le n (bswap n v)

pub be_store-IsByte : (n v : ℕ) → All IsByte (be_store n v)
unfolding be_store
be_store-IsByte n v = bytes_le-IsByte n (bswap n v)

-- What was stored is loaded back, whatever follows it. Premise: the word has `n` bytes at most.
pub be_load-be_store :
    (n v : ℕ) (rest : List ℕ) → v < 256 ^ n → be_load n (be_store n v ++ rest) ≡ v
unfolding be_load be_store
be_load-be_store n v rest h =
    let front : take n (be_store n v ++ rest) ≡ be_store n v =
      subst (λ k. take k (be_store n v ++ rest) ≡ be_store n v) (length-be_store n v)
        (take_append (be_store n v) rest) in
    ap (λ l. bswap n (word_le l)) front
    ∙ ap (bswap n) (word_le-bytes_le n (bswap n v) (bswap-below n v))
    ∙ bswap-bswap n v h
