-- ===== src/Mold/Blocks.antt =====
-- The walk of include/tick/moldudp64.hpp over message blocks that were written one behind the other.
use tickerplant.Prelude.{
  ℕ, suc, ◌+◌, ◌%◌, ◌<◌, ◌≤◌, ◌≡◌, refl, sym, ◌∙◌, ap, subst, false, some, List, [], ◌∷◌, ◌++◌,
  arith, length, take, drop, take_append, drop_append, length-append, All, ◌==◌, u32_mod,
}
use tickerplant.Endian.{be_load, be_store}
use tickerplant.Endian.RoundTrip.{length-be_store, be_load-be_store}
use tickerplant.Mold.Frame.{Header}
use tickerplant.Mold.View.{PacketView, walk, block_at, next, blocks_from}

-- A message that fits the two bytes of its length.
abbrev pub IsShort : List ℕ → Type 0
IsShort m = length m ≤ 65535

-- The blocks of some messages, one behind the other.
abbrev pub frame : List (List ℕ) → List ℕ
frame [] = []
frame (m ∷ ms) = be_store 2 (length m) ++ (m ++ frame ms)

pub append_assoc {ℓ} : {A : Type ℓ} (xs ys zs : List A) → (xs ++ ys) ++ zs ≡ xs ++ (ys ++ zs)
append_assoc [] ys zs = refl
append_assoc (x ∷ xs) ys zs = ap (λ l. x ∷ l) (append_assoc xs ys zs)

-- What lies before the block that follows.
abbrev past : List ℕ → List ℕ → List ℕ
past pre m = pre ++ (be_store 2 (length m) ++ m)

past_frame : (pre m : List ℕ) (ms : List (List ℕ)) → past pre m ++ frame ms ≡ pre ++ frame (m ∷ ms)
past_frame pre m ms =
    append_assoc pre (be_store 2 (length m) ++ m) (frame ms)
    ∙ ap (λ l. pre ++ l) (append_assoc (be_store 2 (length m)) m (frame ms))

length-past : (pre m : List ℕ) → length (past pre m) ≡ length pre + 2 + length m
length-past pre m = omega (
  arith,
  length-append pre (be_store 2 (length m) ++ m),
  length-append (be_store 2 (length m)) m,
  length-be_store 2 (length m),
)

drop-pre : (pre rest : List ℕ) (n : ℕ) → n ≡ length pre → drop n (pre ++ rest) ≡ rest
drop-pre pre rest n e = subst (λ k. drop k (pre ++ rest) ≡ rest) (sym e) (drop_append pre rest)

-- The length read in front of a block, and the message behind it.
load_block :
    (pre m : List ℕ) (ms : List (List ℕ))
    → IsShort m
    → be_load 2 (drop (length pre) (pre ++ frame (m ∷ ms))) ≡ length m
load_block pre m ms h =
    ap (be_load 2) (drop_append pre (frame (m ∷ ms)))
    ∙ be_load-be_store 2 (length m) (m ++ frame ms) (omega arith)

take_block :
    (pre m : List ℕ) (ms : List (List ℕ))
    → take (length m) (drop (length pre + 2) (pre ++ frame (m ∷ ms))) ≡ m
take_block pre m ms =
    let at : drop (length pre + 2) (pre ++ frame (m ∷ ms)) ≡ m ++ frame ms =
      subst (λ l. drop (length pre + 2) l ≡ m ++ frame ms)
        (append_assoc pre (be_store 2 (length m)) (m ++ frame ms))
        (drop-pre (pre ++ be_store 2 (length m)) (m ++ frame ms) (length pre + 2) (
          omega
            (arith, length-append pre (be_store 2 (length m)), length-be_store 2 (length m)))) in
    ap (take (length m)) at ∙ take_append m (frame ms)

walk_step :
    (n off len : ℕ) (pkt : List ℕ)
    → be_load 2 (drop off pkt) ≡ len
    → off + 2 + len ≤ length pkt
    → walk (suc n) off pkt ≡ walk n (off + 2 + len) pkt
unfolding walk
walk_step n off len pkt e h = rw e (ground arith)

pub walk-frame :
    (ms : List (List ℕ)) (pre : List ℕ)
    → All IsShort ms
    → walk (length ms) (length pre) (pre ++ frame ms) ≡ some (length (pre ++ frame ms))
unfolding walk
walk-frame [] pre a = ap some (omega (arith, length-append pre []))
walk-frame (m ∷ ms) pre a =
    let fits : length pre + 2 + length m ≤ length (pre ++ frame (m ∷ ms)) =
      subst (λ l. length pre + 2 + length m ≤ length l) (past_frame pre m ms)
        (omega (arith, length-append (past pre m) (frame ms), length-past pre m)) in
    let rest : walk (length ms) (length pre + 2 + length m) (pre ++ frame (m ∷ ms))
        ≡ some (length (pre ++ frame (m ∷ ms))) =
      subst
        (λ k. walk (length ms) k (pre ++ frame (m ∷ ms)) ≡ some (length (pre ++ frame (m ∷ ms))))
        (length-past pre m)
        (subst (λ l. walk (length ms) (length (past pre m)) l ≡ some (length l))
          (past_frame pre m ms) (walk-frame ms (past pre m) a.1)) in
    walk_step (length ms) (length pre) (length m) (pre ++ frame (m ∷ ms)) (load_block pre m ms a.0)
      fits
    ∙ rest

blocks_step :
    (f off i len : ℕ) (v : PacketView)
    → be_load 2 (drop off v.pkt) ≡ len
    → i < v.blocks
    → v.blocks < u32_mod
    → blocks_from (suc f) v (record { off = off; index = i })
      ≡ take len (drop (off + 2) v.pkt)
        ∷ blocks_from f v (record { off = off + 2 + len; index = i + 1 })
unfolding blocks_from block_at next
blocks_step f off i len v e h w =
    let more : (i == v.blocks) ≡ false = ground arith in
    let count : (i + 1) % u32_mod ≡ i + 1 = omega arith in rw (more, e, count) refl

pub blocks_from-frame :
    (ms : List (List ℕ)) (pre : List ℕ) (hdr : Header) (i n : ℕ)
    → All IsShort ms
    → i + length ms ≡ n
    → n < u32_mod
    → blocks_from
        (length ms)
        (record { pkt = pre ++ frame ms; hdr = hdr; blocks = n })
        (record { off = length pre; index = i })
      ≡ ms
unfolding blocks_from
blocks_from-frame [] pre hdr i n a e w = refl
blocks_from-frame (m ∷ ms) pre hdr i n a e w =
    let v : List ℕ → PacketView = λ l. record { pkt = l; hdr = hdr; blocks = n } in
    let all = pre ++ frame (m ∷ ms) in
    let rest : blocks_from (length ms) (v all)
          (record { off = length pre + 2 + length m; index = i + 1 })
        ≡ ms =
      subst (λ k. blocks_from (length ms) (v all) (record { off = k; index = i + 1 }) ≡ ms)
        (length-past pre m)
        (subst
          (λ l.
            blocks_from (length ms) (v l) (record { off = length (past pre m); index = i + 1 })
            ≡ ms)
          (past_frame pre m ms)
          (blocks_from-frame ms (past pre m) hdr (i + 1) n a.1 (omega arith) w)) in
    blocks_step (length ms) (length pre) i (length m) (v all) (load_block pre m ms a.0)
      (omega arith) w
    ∙ ap
        (λ l.
          l
          ∷ blocks_from (length ms) (v all)
              (record { off = length pre + 2 + length m; index = i + 1 }))
        (take_block pre m ms)
    ∙ ap (λ l. m ∷ l) rest
