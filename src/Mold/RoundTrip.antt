-- ===== src/Mold/RoundTrip.antt =====
-- A packet built by include/tick/moldudp64.hpp and parsed back.
use tickerplant.Prelude.{
  ℕ, ◌+◌, ◌<◌, ◌≤◌, ◌≡◌, refl, sym, ◌∙◌, ap, subst, true, false, some, List, [], ◌∷◌, ◌++◌, arith,
  length, take, drop, length-append, All, ltb, ◌==◌, u64_mod,
}
use tickerplant.Endian.{be_load, be_store}
use tickerplant.Endian.RoundTrip.{be_load-be_store}
use tickerplant.Mold.Frame.{pad, read_header}
use tickerplant.Mold.View.{PacketView, view_of, walk, parse_blocks, parse, blocks_from, all_blocks}
use tickerplant.Mold.Builder.{PacketBuilder, reset, make, put_block, try_append, finish}
use tickerplant.Mold.Blocks.{IsShort, frame, append_assoc, walk-frame, blocks_from-frame}
use tickerplant.Mold.Built.{
  IsBuilt, append_each, take_all, drop_all, length-pad, prefix, length-prefix, length-header,
  reset-IsBuilt, append_each-IsBuilt,
}

-- The finished packet: the count stands where the builder had left a zero.
finish-bytes :
    (s : List ℕ) (seq : ℕ) (acc : List (List ℕ)) (b : PacketBuilder)
    → IsBuilt s seq acc b
    → (finish b).bytes ≡ (prefix s seq ++ be_store 2 (length acc)) ++ frame acc
unfolding finish
finish-bytes s seq acc b h =
    let p = prefix s seq in
    let size : length b.bytes ≡ 20 + length (frame acc) = omega (
      arith,
      ap length h.bytes,
      length-append (p ++ be_store 2 0) (frame acc),
      length-header s seq 0,
    ) in
    let used : (length b.bytes == 0) ≡ false = ground arith in
    let front : take 18 b.bytes ≡ p =
      ap (take 18) (h.bytes ∙ append_assoc p (be_store 2 0) (frame acc))
      ∙ take_all p (be_store 2 0 ++ frame acc) 18 (sym (length-prefix s seq)) in
    let back : drop 20 b.bytes ≡ frame acc =
      ap (drop 20) h.bytes
      ∙ drop_all (p ++ be_store 2 0) (frame acc) 20 (sym (length-header s seq 0)) in
    rw (used, front, back, h.count) refl

same_length : (n : ℕ) → (n == n) ≡ true
same_length n = ground arith

-- `parse` of a datagram whose count and blocks are in order.
parse_ok :
    (pkt : List ℕ) (n : ℕ)
    → (read_header pkt).count ≡ n
    → 20 ≤ length pkt
    → n < 65535
    → walk n 20 pkt ≡ some (length pkt)
    → parse pkt ≡ some (view_of pkt n)
unfolding parse parse_blocks
parse_ok pkt n e long few w =
    let enough : ltb (length pkt) 20 ≡ false = ground arith in
    let open_still : (n == 65535) ≡ false = ground arith in
    let counted : parse_blocks pkt n ≡ some (view_of pkt n) =
      rw (open_still, w, same_length (length pkt)) refl in
    rw enough (ap (parse_blocks pkt) e ∙ counted)

-- A datagram of a header and blocks is parsed back to what it was written from.
parse-frame :
    (s : List ℕ) (seq : ℕ) (acc : List (List ℕ))
    → seq < u64_mod
    → length acc < 65535
    → All IsShort acc
    → (v : PacketView) × (parse ((prefix s seq ++ be_store 2 (length acc)) ++ frame acc) ≡ some v)
      × (v.hdr ≡ record { session = pad s; sequence = seq; count = length acc })
      × (all_blocks v ≡ acc)
unfolding parse read_header all_blocks
parse-frame s seq acc hs few short =
    let n = length acc in
    let p = prefix s seq in
    let head = p ++ be_store 2 n in
    let pkt = head ++ frame acc in
    let tail = be_store 2 n ++ frame acc in
    let long : length pkt ≡ 20 + length (frame acc) =
      omega (arith, length-append head (frame acc), length-header s seq n) in
    let split : pkt ≡ p ++ tail = append_assoc p (be_store 2 n) (frame acc) in
    let split' : pkt ≡ pad s ++ (be_store 8 seq ++ tail) =
      split ∙ append_assoc (pad s) (be_store 8 seq) tail in
    let session : take 10 pkt ≡ pad s =
      ap (take 10) split' ∙ take_all (pad s) (be_store 8 seq ++ tail) 10 (sym (length-pad s)) in
    let sequence : be_load 8 (drop 10 pkt) ≡ seq =
      ap (λ l. be_load 8 (drop 10 l)) split'
      ∙ ap (be_load 8) (drop_all (pad s) (be_store 8 seq ++ tail) 10 (sym (length-pad s)))
      ∙ be_load-be_store 8 seq tail (omega arith) in
    let count : be_load 2 (drop 18 pkt) ≡ n =
      ap (λ l. be_load 2 (drop 18 l)) split
      ∙ ap (be_load 2) (drop_all p tail 18 (sym (length-prefix s seq)))
      ∙ be_load-be_store 2 n (frame acc) (omega arith) in
    let walked : walk n 20 pkt ≡ some (length pkt) =
      subst (λ k. walk n k pkt ≡ some (length pkt)) (length-header s seq n)
        (walk-frame acc head short) in
    let blocks : all_blocks (view_of pkt n) ≡ acc =
      subst (λ k. blocks_from n (view_of pkt n) (record { off = k; index = 0 }) ≡ acc)
        (length-header s seq n)
        (blocks_from-frame acc head (read_header pkt) 0 n short (omega arith) (omega arith)) in
    let header : read_header pkt ≡ record { session = pad s; sequence = seq; count = n } =
      ap
        (λ l. record {
          session = l;
          sequence = be_load 8 (drop 10 pkt);
          count = be_load 2 (drop 18 pkt);
        })
        session
      ∙ ap (λ q. record { session = pad s; sequence = q; count = be_load 2 (drop 18 pkt) }) sequence
      ∙ ap (λ k. record { session = pad s; sequence = seq; count = k }) count in
    (view_of pkt n, parse_ok pkt n count (omega arith) few walked, header, blocks)

try_append-cap : (m : List ℕ) (b : PacketBuilder) → (try_append m b).0.cap ≡ b.cap
unfolding try_append put_block
try_append-cap m b = ground arith

append_each-cap : (ms : List (List ℕ)) (b : PacketBuilder) → (append_each ms b).0.cap ≡ b.cap
unfolding append_each
append_each-cap [] b = refl
append_each-cap (m ∷ ms) b = append_each-cap ms (try_append m b).0 ∙ try_append-cap m b

reset-cap : (cap seq : ℕ) (s : List ℕ) → (reset seq (make cap s)).cap ≡ cap
unfolding reset make
reset-cap cap seq s = refl

-- What the builder accepts is what a receiver reads: offer any messages to a builder, finish it, and
-- the datagram fits the buffer and parses to a view with the session padded to ten bytes, the
-- sequence given, the count of the accepted messages, and a walk that yields exactly these, in order.
-- Premises: the buffer has room for a header, and the sequence is a 64 bit number.
pub parse-finish :
    (cap seq : ℕ) (s : List ℕ) (ms : List (List ℕ))
    → 20 ≤ cap
    → seq < u64_mod
    → (length (finish (append_each ms (reset seq (make cap s))).0).bytes ≤ cap)
      × ((v : PacketView) × (parse ((finish (append_each ms (reset seq (make cap s))).0).bytes)
            ≡ some v)
          × (v.hdr ≡ record {
            session = pad s;
            sequence = seq;
            count = length ((append_each ms (reset seq (make cap s))).1);
          })
          × (all_blocks v ≡ (append_each ms (reset seq (make cap s))).1))
parse-finish cap seq s ms room h =
    let b = (append_each ms (reset seq (make cap s))).0 in
    let acc = (append_each ms (reset seq (make cap s))).1 in
    let built : IsBuilt s seq acc b =
      append_each-IsBuilt s seq ms [] (reset seq (make cap s)) (reset-IsBuilt cap seq s room) in
    let bytes = finish-bytes s seq acc b built in
    (
      omega (
        arith,
        ap length bytes,
        ap length built.bytes,
        built.room,
        append_each-cap ms (reset seq (make cap s)),
        reset-cap cap seq s,
        length-append (prefix s seq ++ be_store 2 0) (frame acc),
        length-append (prefix s seq ++ be_store 2 (length acc)) (frame acc),
        length-header s seq 0,
        length-header s seq (length acc),
      ),
      subst
          (λ l.
            (v : PacketView) × (parse l ≡ some v)
            × (v.hdr ≡ record { session = pad s; sequence = seq; count = length acc })
            × (all_blocks v ≡ acc))
          (sym bytes) (parse-frame s seq acc h (omega (arith, built.few, built.count)) built.short),
    )
