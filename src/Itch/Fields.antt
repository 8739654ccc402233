-- ===== src/Itch/Fields.antt =====
-- The fields of a message of include/tick/itch_writer.hpp lie end to end: what is stored at each offset in
-- turn is the fields one behind the other, and include/tick/endian.hpp loads each of them back.
use Prim.Native.Nat.{bit_and}
use tickerplant.Prelude.{
  ℕ, zero, suc, ◌+◌, ◌/◌, ◌%◌, ◌^◌, ◌<◌, ◌≤◌, ◌≡◌, refl, sym, ap, ◌∙◌, subst, List, [], ◌∷◌, ◌++◌,
  arith, length, take, drop, All, length-append, u32_mod,
}
use tickerplant.Endian.{be_store, be_store_u48}
use tickerplant.Endian.RoundTrip.{length-be_store}
use tickerplant.Mold.Frame.{trim_len}
use tickerplant.Mold.Blocks.{append_assoc}
use tickerplant.Mold.Built.{take_all, drop_all}
use tickerplant.Itch.Window.{drop-drop}
use tickerplant.Itch.Writer.{store_at, alpha}

-- A word of so many bytes, a character, a text of so many characters, and a time of six bytes.
pub data Field : Type 0 where
  word : ℕ → ℕ → Field
  char : ℕ → Field
  text : ℕ → List ℕ → Field
  time : ℕ → Field

abbrev pub bytes_of : Field → List ℕ
bytes_of (word n v) = be_store n v
bytes_of (char c) = c ∷ []
bytes_of (text n s) = alpha n s
bytes_of (time v) = be_store_u48 v

abbrev pub size_of : Field → ℕ
size_of (word n v) = n
size_of (char c) = 1
size_of (text n s) = n
size_of (time v) = 6

-- A number that its bytes can hold; a text that is not longer than its field and does not end in a space.
abbrev pub Fits : Field → Type 0
Fits (word n v) = v < 256 ^ n
Fits (char c) = c < 256
Fits (text n s) = (length s ≤ n) × (trim_len s (length s) ≡ length s)
Fits (time v) = v < 2 ^ 48

unfoldable pub width : List Field → ℕ
width [] = 0
width (f ∷ fs) = size_of f + width fs

unfoldable pub flat : List Field → List ℕ
flat [] = []
flat (f ∷ fs) = bytes_of f ++ flat fs

-- The fields stored in turn from an offset.
unfoldable pub store_all : ℕ → List Field → List ℕ → List ℕ
store_all off [] out = out
store_all off (f ∷ fs) out = store_all (off + size_of f) fs (store_at off (bytes_of f) out)

length-alpha : (n : ℕ) (s : List ℕ) → length (alpha n s) ≡ n
unfolding alpha
length-alpha zero s = refl
length-alpha (suc n) [] = ap suc (length-alpha n [])
length-alpha (suc n) (c ∷ s) = ap suc (length-alpha n s)

length-bytes_of : (f : Field) → length (bytes_of f) ≡ size_of f
unfolding be_store_u48
length-bytes_of (word n v) = length-be_store n v
length-bytes_of (char c) = refl
length-bytes_of (text n s) = length-alpha n s
length-bytes_of (time v) =
    let high = be_store 4 (v / 65536 % u32_mod) in
    let low = be_store 2 (bit_and v 65535) in
    omega (
      arith,
      length-append high low,
      length-be_store 4 (v / 65536 % u32_mod),
      length-be_store 2 (bit_and v 65535),
    )

-- What is stored behind a front goes there.
store_at-behind :
    (pre bytes tail : List ℕ) (off : ℕ)
    → length pre ≡ off
    → store_at off bytes (pre ++ tail) ≡ (pre ++ bytes) ++ drop (length bytes) tail
unfolding store_at
store_at-behind pre bytes tail off e =
    let front = take_all pre tail off (sym e) in
    let back : drop (off + length bytes) (pre ++ tail) ≡ drop (length bytes) tail =
      sym (drop-drop (length bytes) off (pre ++ tail))
      ∙ ap (drop (length bytes)) (drop_all pre tail off (sym e)) in
    rw (front, back) (sym (append_assoc pre bytes (drop (length bytes) tail)))

store_all-behind :
    (fs : List Field) (pre tail : List ℕ) (off : ℕ)
    → length pre ≡ off
    → store_all off fs (pre ++ tail) ≡ (pre ++ flat fs) ++ drop (width fs) tail
unfolding store_all flat width
store_all-behind [] pre tail off e = sym (append_assoc pre [] tail)
store_all-behind (f ∷ fs) pre tail off e =
    let n = length-bytes_of f in
    ap (store_all (off + size_of f) fs) (store_at-behind pre (bytes_of f) tail off e)
    ∙ store_all-behind fs (pre ++ bytes_of f) (drop (length (bytes_of f)) tail) (off + size_of f)
        (omega (arith, length-append pre (bytes_of f), n, e))
    ∙ (ap (λ k. ((pre ++ bytes_of f) ++ flat fs) ++ drop (width fs) (drop k tail)) n
        ∙ ap (λ l. ((pre ++ bytes_of f) ++ flat fs) ++ l) (drop-drop (width fs) (size_of f) tail)
        ∙ ap (λ l. l ++ drop (size_of f + width fs) tail) (append_assoc pre (bytes_of f) (flat fs)))

-- The buffer begins with the fields, and behind them it is what it was.
pub store_all-flat :
    (fs : List Field) (out : List ℕ) → store_all 0 fs out ≡ flat fs ++ drop (width fs) out
store_all-flat fs out = store_all-behind fs [] out 0 refl

pub length-flat : (fs : List Field) → length (flat fs) ≡ width fs
unfolding flat width
length-flat [] = refl
length-flat (f ∷ fs) =
    omega (arith, length-append (bytes_of f) (flat fs), length-bytes_of f, length-flat fs)

-- The fields from the `k`-th on lie behind those before it.
drop-flat : (k : ℕ) (fs : List Field) → drop (width (take k fs)) (flat fs) ≡ flat (drop k fs)
unfolding flat width
drop-flat zero fs = refl
drop-flat (suc k) [] = refl
drop-flat (suc k) (f ∷ fs) =
    sym (drop-drop (width (take k fs)) (size_of f) (bytes_of f ++ flat fs))
    ∙ ap (drop (width (take k fs)))
        (drop_all (bytes_of f) (flat fs) (size_of f) (sym (length-bytes_of f)))
    ∙ drop-flat k fs

Fits-drop : (k : ℕ) (fs : List Field) → All Fits fs → All Fits (drop k fs)
Fits-drop zero fs h = h
Fits-drop (suc k) [] h = tt
Fits-drop (suc k) (f ∷ fs) h = Fits-drop k fs h.1

-- The field at an offset, and that it fits.
pub field_at :
    (k off : ℕ) (fs : List Field) {f : Field} {rest : List Field}
    → All Fits fs
    → drop k fs ≡ f ∷ rest
    → width (take k fs) ≡ off
    → (drop off (flat fs) ≡ bytes_of f ++ flat rest) × Fits f
unfolding flat
field_at k off fs {f = f} {rest = rest} h e at =
    let here : drop (width (take k fs)) (flat fs) ≡ bytes_of f ++ flat rest =
      drop-flat k fs ∙ ap flat e in
    (
      subst (λ o. drop o (flat fs) ≡ bytes_of f ++ flat rest) at here,
      (subst (All Fits) e (Fits-drop k fs h)).0,
    )
