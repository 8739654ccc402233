-- ===== src/Itch/Loads.antt =====
-- A field that include/tick/itch_writer.hpp stored is what include/tick/itch_decoder.hpp reads at its
-- offset.
use Prim.Native.Nat.{bit_and}
use tickerplant.Prelude.{
  ℕ, zero, suc, ◌+◌, ◌-◌, ◌/◌, ◌%◌, ◌^◌, ◌<◌, ◌≤◌, ◌≡◌, refl, sym, ap, ◌∙◌, List, [], ◌∷◌, ◌++◌,
  arith, length, take, drop, replicate, All, take_append, u32_mod,
}
use tickerplant.Prelude.Bits.{bit_and-mask, bit_or-shifted}
use tickerplant.Endian.{be_load, be_store, be_load_u48, be_store_u48}
use tickerplant.Endian.RoundTrip.{be_load-be_store, length-be_store}
use tickerplant.Mold.Frame.{byte_at, trim_len, trim_right}
use tickerplant.Mold.Blocks.{append_assoc}
use tickerplant.Mold.Built.{drop_all}
use tickerplant.Itch.Window.{trim_len-take}
use tickerplant.Itch.Writer.{alpha}
use tickerplant.Itch.Lengths.{stock}
use tickerplant.Itch.Fields.{Field, word, char, text, time, Fits, width, flat, field_at}

-- A number of six bytes is loaded back.
be_load_u48-be_store_u48 :
    (v : ℕ) (rest : List ℕ) → v < 2 ^ 48 → be_load_u48 (be_store_u48 v ++ rest) ≡ v
unfolding be_load_u48 be_store_u48
be_load_u48-be_store_u48 v rest h =
    let hi = v / 65536 % u32_mod in
    let lo = bit_and v 65535 in
    let low : lo ≡ v % 65536 = bit_and-mask 16 v in
    let shape = append_assoc (be_store 4 hi) (be_store 2 lo) rest in
    let top : be_load 4 ((be_store 4 hi ++ be_store 2 lo) ++ rest) ≡ hi =
      ap (be_load 4) shape ∙ be_load-be_store 4 hi (be_store 2 lo ++ rest) (omega arith) in
    let bottom : be_load 2 (drop 4 ((be_store 4 hi ++ be_store 2 lo) ++ rest)) ≡ lo =
      ap (λ l. be_load 2 (drop 4 l)) shape
      ∙ ap (be_load 2)
          (drop_all (be_store 4 hi) (be_store 2 lo ++ rest) 4 (sym (length-be_store 4 hi)))
      ∙ be_load-be_store 2 lo rest (omega (arith, low)) in
    rw (top, bottom) (bit_or-shifted 16 hi lo (omega (arith, low)) ∙ omega (arith, low))

alpha-replicate : (n : ℕ) (s : List ℕ) → length s ≤ n → alpha n s ≡ s ++ replicate (n - length s) 32
unfolding alpha
alpha-replicate zero [] h = refl
alpha-replicate zero (c ∷ s) h = absurd (omega arith)
alpha-replicate (suc n) [] h =
    let e : suc (n - 0) ≡ suc n - 0 = omega arith in
    ap (λ l. 32 ∷ l) (alpha-replicate n [] (omega arith)) ∙ ap (λ m. replicate m 32) e
alpha-replicate (suc n) (c ∷ s) h =
    let e : n - length s ≡ suc n - suc (length s) = omega arith in
    ap (λ l. c ∷ l) (alpha-replicate n s (omega arith)) ∙ ap (λ m. c ∷ s ++ replicate m 32) e

byte_at-replicate : (i n : ℕ) (rest : List ℕ) → i < n → byte_at i (replicate n 32 ++ rest) ≡ 32
unfolding byte_at
byte_at-replicate i zero rest h = absurd (omega arith)
byte_at-replicate zero (suc n) rest h = refl
byte_at-replicate (suc i) (suc n) rest h = byte_at-replicate i n rest (omega arith)

byte_at-append : (s t : List ℕ) (i : ℕ) → byte_at (length s + i) (s ++ t) ≡ byte_at i t
unfolding byte_at
byte_at-append [] t i = ap (λ k. byte_at k t) (let e : 0 + i ≡ i = omega arith in e)
byte_at-append (c ∷ s) t i =
    let e : suc (length s) + i ≡ suc (length s + i) = omega arith in
    ap (λ k. byte_at k (c ∷ s ++ t)) e ∙ byte_at-append s t i

-- The spaces behind a text are trimmed.
trim_len-pad :
    (s rest : List ℕ) (n d : ℕ)
    → d ≤ n
    → trim_len s (length s) ≡ length s
    → trim_len (s ++ (replicate n 32 ++ rest)) (length s + d) ≡ length s
unfolding trim_len
trim_len-pad s rest n zero h e =
    let p = s ++ (replicate n 32 ++ rest) in
    let k : length s + 0 ≡ length s = omega arith in
    ap (trim_len p) k
    ∙ sym (trim_len-take (length s) (length s) p (omega arith))
    ∙ ap (λ l. trim_len l (length s)) (take_append s (replicate n 32 ++ rest))
    ∙ e
trim_len-pad s rest n (suc d) h e =
    let p = s ++ (replicate n 32 ++ rest) in
    let k : length s + suc d ≡ suc (length s + d) = omega arith in
    let space : byte_at (length s + d) p ≡ 32 =
      byte_at-append s (replicate n 32 ++ rest) d ∙ byte_at-replicate d n rest (omega arith) in
    ap (trim_len p) k ∙ (rw space (trim_len-pad s rest n d (omega arith) e))

trim_right-alpha :
    (n : ℕ) (s rest : List ℕ) → Fits (text n s) → trim_right (alpha n s ++ rest) n ≡ s
unfolding trim_right
trim_right-alpha n s rest h =
    let shape : alpha n s ++ rest ≡ s ++ (replicate (n - length s) 32 ++ rest) =
      ap (λ l. l ++ rest) (alpha-replicate n s h.0)
      ∙ append_assoc s (replicate (n - length s) 32) rest in
    let at : length s + (n - length s) ≡ n = omega (arith, h.0) in
    let size : trim_len (s ++ (replicate (n - length s) 32 ++ rest)) n ≡ length s =
      ap (trim_len (s ++ (replicate (n - length s) 32 ++ rest))) (sym at)
      ∙ trim_len-pad s rest (n - length s) (n - length s) (omega arith) h.1 in
    ap (λ l. take (trim_len l n) l) shape
    ∙ ap (λ k. take k (s ++ (replicate (n - length s) 32 ++ rest))) size
    ∙ take_append s (replicate (n - length s) 32 ++ rest)

drop-byte_at : (i : ℕ) (p : List ℕ) → byte_at i p ≡ byte_at 0 (drop i p)
unfolding byte_at
drop-byte_at zero p = refl
drop-byte_at (suc i) [] = refl
drop-byte_at (suc i) (b ∷ p) = drop-byte_at i p

-- What the decoders read at the offset of a field: the `k`-th of the fields `fs`, at `off`.
module _ (k off : ℕ) (fs : List Field) (fits : All Fits fs) where
  pub loads_word :
      (n v : ℕ) {rest : List Field}
      → drop k fs ≡ word n v ∷ rest
      → width (take k fs) ≡ off
      → be_load n (drop off (flat fs)) ≡ v
  loads_word n v {rest = rest} e at =
      let h = field_at k off fs fits e at in
      ap (be_load n) h.0 ∙ be_load-be_store n v (flat rest) h.1

  pub loads_char :
      (c : ℕ) {rest : List Field}
      → drop k fs ≡ char c ∷ rest
      → width (take k fs) ≡ off
      → byte_at off (flat fs) ≡ c
  unfolding byte_at
  loads_char c {rest = rest} e at =
      let h = field_at k off fs fits e at in drop-byte_at off (flat fs) ∙ ap (byte_at 0) h.0

  pub loads_time :
      (v : ℕ) {rest : List Field}
      → drop k fs ≡ time v ∷ rest
      → width (take k fs) ≡ off
      → be_load_u48 (drop off (flat fs)) ≡ v
  loads_time v {rest = rest} e at =
      let h = field_at k off fs fits e at in
      ap be_load_u48 h.0 ∙ be_load_u48-be_store_u48 v (flat rest) h.1

  pub loads_text :
      (s : List ℕ) {rest : List Field}
      → drop k fs ≡ text 8 s ∷ rest
      → width (take k fs) ≡ off
      → stock (drop off (flat fs)) ≡ s
  unfolding stock
  loads_text s {rest = rest} e at =
      let h = field_at k off fs fits e at in
      ap (λ l. trim_right l 8) h.0 ∙ trim_right-alpha 8 s (flat rest) h.1
