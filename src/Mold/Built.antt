-- ===== src/Mold/Built.antt =====
-- What a packet under construction by include/tick/moldudp64.hpp holds.
use tickerplant.Prelude.{
  ℕ, ◌+◌, ◌-◌, ◌<◌, ◌≤◌, ◌≡◌, refl, sym, ◌∙◌, ap, subst, Bool, true, false, Bool-cases, inl, inr,
  List, [], ◌∷◌, ◌++◌, arith, length, take, drop, replicate, take_append, drop_append,
  length-append, length-take, length-replicate, All, ltb, leb, ◌==◌, if◌then◌else◌,
}
use tickerplant.Endian.{be_store}
use tickerplant.Endian.RoundTrip.{length-be_store}
use tickerplant.Mold.Frame.{pad, write_header}
use tickerplant.Mold.Builder.{PacketBuilder, reset, make, put_block, try_append}
use tickerplant.Mold.Blocks.{IsShort, frame, append_assoc}

-- The messages offered one after the other, and the list of those that were accepted.
unfoldable pub append_each : List (List ℕ) → PacketBuilder → PacketBuilder × List (List ℕ)
unfolding try_append
append_each [] b = (b, [])
append_each (m ∷ ms) b =
    let r = try_append m b in
    let more = append_each ms r.0 in (more.0, if r.1 then m ∷ more.1 else more.1)

pub take_all : (xs ys : List ℕ) (n : ℕ) → n ≡ length xs → take n (xs ++ ys) ≡ xs
take_all xs ys n e = subst (λ k. take k (xs ++ ys) ≡ xs) (sym e) (take_append xs ys)

pub drop_all : (xs ys : List ℕ) (n : ℕ) → n ≡ length xs → drop n (xs ++ ys) ≡ ys
drop_all xs ys n e = subst (λ k. drop k (xs ++ ys) ≡ ys) (sym e) (drop_append xs ys)

append_nil {ℓ} : {A : Type ℓ} (xs : List A) → xs ++ [] ≡ xs
append_nil [] = refl
append_nil (x ∷ xs) = ap (λ l. x ∷ l) (append_nil xs)

pub length-pad : (s : List ℕ) → length (pad s) ≡ 10
length-pad s = omega (
  arith,
  length-append (take 10 s) (replicate (10 - length s) 32),
  length-take 10 s,
  length-replicate {A = ℕ} (10 - length s) 32,
)

pad_twice : (s : List ℕ) → pad (pad s) ≡ pad s
pad_twice s =
    let full : 10 - length (pad s) ≡ 0 = omega (arith, length-pad s) in
    ap (λ k. take 10 (pad s) ++ replicate k 32) full
    ∙ append_nil (take 10 (pad s))
    ∙ ap (take 10) (sym (append_nil (pad s)))
    ∙ take_all (pad s) [] 10 (sym (length-pad s))

-- The first eighteen bytes of a packet.
abbrev pub prefix : List ℕ → ℕ → List ℕ
prefix s seq = pad s ++ be_store 8 seq

pub length-prefix : (s : List ℕ) (seq : ℕ) → length (prefix s seq) ≡ 18
length-prefix s seq =
    omega (arith, length-append (pad s) (be_store 8 seq), length-pad s, length-be_store 8 seq)

pub length-header : (s : List ℕ) (seq n : ℕ) → length (prefix s seq ++ be_store 2 n) ≡ 20
length-header s seq n =
    omega
      (arith, length-append (prefix s seq) (be_store 2 n), length-prefix s seq, length-be_store 2 n)

-- A builder that has taken the messages `acc`.
pub record IsBuilt (s : List ℕ) (seq : ℕ) (acc : List (List ℕ)) (b : PacketBuilder) : Type 0 where
  pub bytes : b.bytes ≡ (prefix s seq ++ be_store 2 0) ++ frame acc
  pub count : b.count ≡ length acc
  pub few : b.count ≤ 65534
  pub short : All IsShort acc
  pub room : length b.bytes ≤ b.cap

pub reset-IsBuilt :
    (cap seq : ℕ) (s : List ℕ) → 20 ≤ cap → IsBuilt s seq [] (reset seq (make cap s))
unfolding reset make write_header
reset-IsBuilt cap seq s h =
    let fits : ltb cap 20 ≡ false = ground arith in
    let written : (reset seq (make cap s)).bytes ≡ prefix s seq ++ be_store 2 0 =
      rw fits (ap (λ p. (p ++ be_store 8 seq) ++ be_store 2 0) (pad_twice s)) in
    record {
      bytes = written ∙ sym (append_nil _);
      count = refl;
      few = omega arith;
      short = tt;
      room = omega (arith, ap length written, length-header s seq 0);
    }

All-append :
    (xs : List (List ℕ)) (m : List ℕ) → All IsShort xs → IsShort m → All IsShort (xs ++ m ∷ [])
All-append [] m a h = (h, tt)
All-append (x ∷ xs) m a h = (a.0, All-append xs m a.1 h)

frame-append :
    (xs : List (List ℕ)) (m : List ℕ)
    → frame (xs ++ m ∷ []) ≡ frame xs ++ (be_store 2 (length m) ++ m)
frame-append [] m = ap (λ l. be_store 2 (length m) ++ l) (append_nil m)
frame-append (x ∷ xs) m =
    ap (λ l. be_store 2 (length x) ++ (x ++ l)) (frame-append xs m)
    ∙ ap (λ l. be_store 2 (length x) ++ l)
        (sym (append_assoc x (frame xs) (be_store 2 (length m) ++ m)))
    ∙ sym (append_assoc (be_store 2 (length x)) (x ++ frame xs) (be_store 2 (length m) ++ m))

put_block-IsBuilt :
    (s : List ℕ) (seq : ℕ) (acc : List (List ℕ)) (m : List ℕ) (b : PacketBuilder)
    → IsBuilt s seq acc b
    → b.count < 65534
    → length m ≤ 65535
    → 2 + length m ≤ b.cap - length b.bytes
    → IsBuilt s seq (acc ++ m ∷ []) (put_block m b)
unfolding put_block
put_block-IsBuilt s seq acc m b h few short fits =
    let head = prefix s seq ++ be_store 2 0 in
    let block = be_store 2 (length m) ++ m in
    record {
      bytes =
          append_assoc b.bytes (be_store 2 (length m)) m
          ∙ ap (λ l. l ++ block) h.bytes
          ∙ append_assoc head (frame acc) block
          ∙ ap (λ l. head ++ l) (sym (frame-append acc m));
      count = omega (arith, h.count, length-append acc (m ∷ []));
      few = omega arith;
      short = All-append acc m h.short short;
      room = omega (
        arith,
        h.room,
        length-append (b.bytes ++ be_store 2 (length m)) m,
        length-append b.bytes (be_store 2 (length m)),
        length-be_store 2 (length m),
      );
    }

-- Either the builder is unchanged or the message went behind the others.
try_append-IsBuilt :
    (s : List ℕ) (seq : ℕ) (acc : List (List ℕ)) (m : List ℕ) (b : PacketBuilder)
    → IsBuilt s seq acc b
    → IsBuilt s seq (acc ++ (if (try_append m b).1 then m ∷ [] else [])) (try_append m b).0
unfolding try_append
try_append-IsBuilt s seq acc m b h =
    let same : IsBuilt s seq (acc ++ []) b =
      subst (λ l. IsBuilt s seq l b) (sym (append_nil acc)) h in
    elim (Bool-cases (length b.bytes == 0)) [
      | inl e ↦ rw e same
      | inr e ↦ elim (Bool-cases (leb 65534 b.count)) [
        | inl e2 ↦ rw (e, e2) same
        | inr e2 ↦ elim (Bool-cases (ltb 65535 (length m))) [
          | inl e3 ↦ rw (e, e2, e3) same
          | inr e3 ↦ elim (Bool-cases (ltb (b.cap - length b.bytes) (2 + length m))) [
            | inl e4 ↦ rw (e, e2, e3, e4) same
            | inr e4 ↦
                rw (e, e2, e3, e4)
                  (put_block-IsBuilt s seq acc m b h (ground arith) (ground arith) (ground arith))
          ]
        ]
      ]
    ]

if_cons :
    (t : Bool) (m : List ℕ) (xs : List (List ℕ))
    → (if t then m ∷ [] else []) ++ xs ≡ (if t then m ∷ xs else xs)
if_cons true m xs = refl
if_cons false m xs = refl

pub append_each-IsBuilt :
    (s : List ℕ) (seq : ℕ) (ms acc : List (List ℕ)) (b : PacketBuilder)
    → IsBuilt s seq acc b
    → IsBuilt s seq (acc ++ (append_each ms b).1) (append_each ms b).0
unfolding append_each
append_each-IsBuilt s seq [] acc b h = subst (λ l. IsBuilt s seq l b) (sym (append_nil acc)) h
append_each-IsBuilt s seq (m ∷ ms) acc b h =
    let r = try_append m b in
    let rest = append_each-IsBuilt s seq ms _ r.0 (try_append-IsBuilt s seq acc m b h) in
    subst (λ l. IsBuilt s seq l (append_each ms r.0).0)
      (append_assoc acc (if r.1 then m ∷ [] else []) (append_each ms r.0).1
        ∙ ap (λ l. acc ++ l) (if_cons r.1 m (append_each ms r.0).1))
      rest
