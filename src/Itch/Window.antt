-- ===== src/Itch/Window.antt =====
-- What include/tick/itch_decoder.hpp reads of a message lies in its first bytes.
use tickerplant.Prelude.{
  ℕ, zero, suc, ◌+◌, ◌≤◌, ◌<◌, ◌≡◌, refl, sym, ap, ◌∙◌, List, [], ◌∷◌, arith, take, drop,
}
use tickerplant.Endian.{bswap, word_le, be_load, be_load_u48}
use tickerplant.Mold.Frame.{byte_at, trim_len, trim_right}

take-take : (n len : ℕ) (p : List ℕ) → n ≤ len → take n (take len p) ≡ take n p
take-take zero len p h = refl
take-take (suc n) zero p h = absurd (omega arith)
take-take (suc n) (suc len) [] h = refl
take-take (suc n) (suc len) (b ∷ p) h = ap (λ l. b ∷ l) (take-take n len p (omega arith))

-- `n` bytes at an offset are those of the first `len` bytes, when they end there.
pub take-drop-take :
    (n off len : ℕ) (p : List ℕ)
    → off + n ≤ len
    → take n (drop off (take len p)) ≡ take n (drop off p)
take-drop-take n zero len p h = take-take n len p (omega arith)
take-drop-take n (suc off) zero p h = absurd (omega arith)
take-drop-take n (suc off) (suc len) [] h = refl
take-drop-take n (suc off) (suc len) (b ∷ p) h = take-drop-take n off len p (omega arith)

pub byte_at-take : (i len : ℕ) (p : List ℕ) → i < len → byte_at i (take len p) ≡ byte_at i p
unfolding byte_at
byte_at-take i zero p h = absurd (omega arith)
byte_at-take i (suc len) [] h = refl
byte_at-take zero (suc len) (b ∷ p) h = refl
byte_at-take (suc i) (suc len) (b ∷ p) h = byte_at-take i len p (omega arith)

pub be_load-take :
    (n off len : ℕ) (p : List ℕ)
    → off + n ≤ len
    → be_load n (drop off (take len p)) ≡ be_load n (drop off p)
unfolding be_load
be_load-take n off len p h = ap (λ l. bswap n (word_le l)) (take-drop-take n off len p h)

drop_nil : (n : ℕ) → drop {A = ℕ} n [] ≡ []
drop_nil zero = refl
drop_nil (suc n) = refl

pub drop-drop : (a b : ℕ) (p : List ℕ) → drop a (drop b p) ≡ drop (b + a) p
drop-drop a zero p = let e : a ≡ 0 + a = omega arith in ap (λ k. drop k p) e
drop-drop a (suc b) [] = drop_nil a ∙ sym (drop_nil (suc b + a))
drop-drop a (suc b) (x ∷ p) =
    let e : suc (b + a) ≡ suc b + a = omega arith in drop-drop a b p ∙ ap (λ k. drop k (x ∷ p)) e

pub be_load_u48-take :
    (off len : ℕ) (p : List ℕ)
    → off + 6 ≤ len
    → be_load_u48 (drop off (take len p)) ≡ be_load_u48 (drop off p)
unfolding be_load_u48
be_load_u48-take off len p h =
    let high = be_load-take 4 off len p (omega arith) in
    let low : be_load 2 (drop 4 (drop off (take len p))) ≡ be_load 2 (drop 4 (drop off p)) =
      ap (be_load 2) (drop-drop 4 off (take len p))
      ∙ be_load-take 2 (off + 4) len p (omega arith)
      ∙ ap (be_load 2) (sym (drop-drop 4 off p)) in
    rw (high, low) refl

pub trim_len-take : (n len : ℕ) (p : List ℕ) → n ≤ len → trim_len (take len p) n ≡ trim_len p n
unfolding trim_len
trim_len-take zero len p h = refl
trim_len-take (suc n) len p h =
    rw (byte_at-take n len p (omega arith), trim_len-take n len p (omega arith)) refl

trim_len-le : (p : List ℕ) (n : ℕ) → trim_len p n ≤ n
unfolding trim_len
trim_len-le p zero = omega arith
trim_len-le p (suc n) = ground (arith, trim_len-le p n)

-- A field of text, trimmed where it lies and trimmed in a copy of its own.
pub trim_right-take :
    (n len : ℕ) (p : List ℕ) → n ≤ len → trim_right (take len p) n ≡ trim_right p n
unfolding trim_right
trim_right-take n len p h =
    ap (λ k. take k (take len p)) (trim_len-take n len p h)
    ∙ take-take (trim_len p n) len p (omega (arith, trim_len-le p n))
