-- ===== src/Itch/Decoded.antt =====
-- A message written by include/tick/itch_writer.hpp is decoded by include/tick/itch_decoder.hpp.
use tickerplant.Prelude.{
  not, ℕ, ◌+◌, ◌%◌, ◌<◌, ◌≤◌, ◌≡◌, refl, sym, ap, ◌∙◌, subst, true, false, some, List, ◌++◌, arith,
  length, take, drop, All, length-append, u16_mod, u32_mod, ◌==◌, ltb, length-drop, length-take,
}
use tickerplant.Endian.{be_load, be_store}
use tickerplant.Endian.RoundTrip.{be_load-be_store, length-be_store}
use tickerplant.Mold.Frame.{byte_at}
use tickerplant.Mold.Built.{take_all, drop_all}
use tickerplant.Itch.Window.{drop-drop}
use tickerplant.Itch.Lengths.{
  is_known_type, message_length-bounds, look_up, message_length, msg_type, locate, timestamp,
}
use tickerplant.Itch.Event.{case_in, case_of}
use tickerplant.Itch.ZeroCopy.{u32_at, u64_at, zero_copy_call}
use tickerplant.Itch.Decoder.{DecodeResult, DecodeStats, Decoded, count_ok, zero_copy}
use tickerplant.Itch.Writer.{frame, write_framed, store_at}
use tickerplant.Itch.Fields.{Fits, width, flat, store_all-flat, length-flat}
use tickerplant.Itch.Message.{
  Message, system_event, stock_directory, trading_action, add_order, add_order_mpid, order_executed,
  order_executed_price, order_cancel, order_delete, order_replace, trade, cross_trade, broken_trade,
  write, call_of, body_of, code_of, fields_of,
}
use tickerplant.Itch.Written.{size-fields, write-fields}
use tickerplant.Itch.Loads.{loads_word, loads_char, loads_time, loads_text}

-- The call that is made for the fields of a message.
zero_copy_call-fields :
    (m : Message)
    → All Fits (fields_of m)
    → zero_copy_call (case_of (code_of m)) (code_of m) (flat (fields_of m)) ≡ call_of m
unfolding zero_copy_call case_of case_in locate timestamp u32_at u64_at width
zero_copy_call-fields (system_event h c) fits =
    let fs = fields_of (system_event h c) in
    cc (loads_time 3 5 fs fits h.timestamp refl refl, loads_char 4 11 fs fits c refl refl)
zero_copy_call-fields (stock_directory h f) fits =
    let fs = fields_of (stock_directory h f) in
    cc (
      loads_word 1 1 fs fits 2 h.locate refl refl,
      loads_time 3 5 fs fits h.timestamp refl refl,
      loads_text 4 11 fs fits f.stock refl refl,
      loads_word 7 21 fs fits 4 f.round_lot_size refl refl,
    )
zero_copy_call-fields (trading_action h s c r) fits =
    let fs = fields_of (trading_action h s c r) in
    cc (
      loads_word 1 1 fs fits 2 h.locate refl refl,
      loads_time 3 5 fs fits h.timestamp refl refl,
      loads_char 5 19 fs fits c refl refl,
    )
zero_copy_call-fields (add_order h r c n s p) fits =
    let fs = fields_of (add_order h r c n s p) in
    cc (
      loads_word 1 1 fs fits 2 h.locate refl refl,
      loads_time 3 5 fs fits h.timestamp refl refl,
      loads_word 4 11 fs fits 8 r refl refl,
      loads_char 5 19 fs fits c refl refl,
      loads_word 6 20 fs fits 4 n refl refl,
      loads_word 8 32 fs fits 4 p refl refl,
    )
zero_copy_call-fields (add_order_mpid h r c n s p m) fits =
    let fs = fields_of (add_order_mpid h r c n s p m) in
    cc (
      loads_word 1 1 fs fits 2 h.locate refl refl,
      loads_time 3 5 fs fits h.timestamp refl refl,
      loads_word 4 11 fs fits 8 r refl refl,
      loads_char 5 19 fs fits c refl refl,
      loads_word 6 20 fs fits 4 n refl refl,
      loads_word 8 32 fs fits 4 p refl refl,
    )
zero_copy_call-fields (order_executed h r n m) fits =
    let fs = fields_of (order_executed h r n m) in
    cc (
      loads_word 1 1 fs fits 2 h.locate refl refl,
      loads_time 3 5 fs fits h.timestamp refl refl,
      loads_word 4 11 fs fits 8 r refl refl,
      loads_word 5 19 fs fits 4 n refl refl,
      loads_word 6 23 fs fits 8 m refl refl,
    )
zero_copy_call-fields (order_executed_price h r n m true p) fits =
    let fs = fields_of (order_executed_price h r n m true p) in
    cc (
      loads_word 1 1 fs fits 2 h.locate refl refl,
      loads_time 3 5 fs fits h.timestamp refl refl,
      loads_word 4 11 fs fits 8 r refl refl,
      loads_word 5 19 fs fits 4 n refl refl,
      loads_word 6 23 fs fits 8 m refl refl,
      ap (λ x. x == 89) (loads_char 7 31 fs fits 89 refl refl),
      loads_word 8 32 fs fits 4 p refl refl,
    )
zero_copy_call-fields (order_executed_price h r n m false p) fits =
    let fs = fields_of (order_executed_price h r n m false p) in
    cc (
      loads_word 1 1 fs fits 2 h.locate refl refl,
      loads_time 3 5 fs fits h.timestamp refl refl,
      loads_word 4 11 fs fits 8 r refl refl,
      loads_word 5 19 fs fits 4 n refl refl,
      loads_word 6 23 fs fits 8 m refl refl,
      ap (λ x. x == 89) (loads_char 7 31 fs fits 78 refl refl),
      loads_word 8 32 fs fits 4 p refl refl,
    )
zero_copy_call-fields (order_cancel h r n) fits =
    let fs = fields_of (order_cancel h r n) in
    cc (
      loads_word 1 1 fs fits 2 h.locate refl refl,
      loads_time 3 5 fs fits h.timestamp refl refl,
      loads_word 4 11 fs fits 8 r refl refl,
      loads_word 5 19 fs fits 4 n refl refl,
    )
zero_copy_call-fields (order_delete h r) fits =
    let fs = fields_of (order_delete h r) in
    cc (
      loads_word 1 1 fs fits 2 h.locate refl refl,
      loads_time 3 5 fs fits h.timestamp refl refl,
      loads_word 4 11 fs fits 8 r refl refl,
    )
zero_copy_call-fields (order_replace h o r n p) fits =
    let fs = fields_of (order_replace h o r n p) in
    cc (
      loads_word 1 1 fs fits 2 h.locate refl refl,
      loads_time 3 5 fs fits h.timestamp refl refl,
      loads_word 4 11 fs fits 8 o refl refl,
      loads_word 5 19 fs fits 8 r refl refl,
      loads_word 6 27 fs fits 4 n refl refl,
      loads_word 7 31 fs fits 4 p refl refl,
    )
zero_copy_call-fields (trade h r c n s p m) fits =
    let fs = fields_of (trade h r c n s p m) in
    cc (
      loads_word 1 1 fs fits 2 h.locate refl refl,
      loads_time 3 5 fs fits h.timestamp refl refl,
      loads_word 4 11 fs fits 8 r refl refl,
      loads_char 5 19 fs fits c refl refl,
      loads_word 6 20 fs fits 4 n refl refl,
      loads_word 8 32 fs fits 4 p refl refl,
      loads_word 9 36 fs fits 8 m refl refl,
    )
zero_copy_call-fields (cross_trade h n s p m c) fits =
    let fs = fields_of (cross_trade h n s p m c) in
    cc (
      loads_word 1 1 fs fits 2 h.locate refl refl,
      loads_time 3 5 fs fits h.timestamp refl refl,
      ap (λ x. x % u32_mod) (loads_word 4 11 fs fits 8 n refl refl),
      loads_word 6 27 fs fits 4 p refl refl,
      loads_word 7 31 fs fits 8 m refl refl,
      loads_char 8 39 fs fits c refl refl,
    )
zero_copy_call-fields (broken_trade h m) fits =
    let fs = fields_of (broken_trade h m) in
    cc (
      loads_word 1 1 fs fits 2 h.locate refl refl,
      loads_time 3 5 fs fits h.timestamp refl refl,
      loads_word 4 11 fs fits 8 m refl refl,
    )

known_type : (m : Message) → (message_length (code_of m) == 0) ≡ false
unfolding message_length look_up
known_type (system_event h c) = refl
known_type (stock_directory h f) = refl
known_type (trading_action h s c r) = refl
known_type (add_order h r c n s p) = refl
known_type (add_order_mpid h r c n s p m) = refl
known_type (order_executed h r n m) = refl
known_type (order_executed_price h r n m b p) = refl
known_type (order_cancel h r n) = refl
known_type (order_delete h r) = refl
known_type (order_replace h o r n p) = refl
known_type (trade h r c n s p m) = refl
known_type (cross_trade h n s p m c) = refl
known_type (broken_trade h m) = refl

char_small : (m : Message) → code_of m < 256
char_small (system_event h c) = omega arith
char_small (stock_directory h f) = omega arith
char_small (trading_action h s c r) = omega arith
char_small (add_order h r c n s p) = omega arith
char_small (add_order_mpid h r c n s p m) = omega arith
char_small (order_executed h r n m) = omega arith
char_small (order_executed_price h r n m b p) = omega arith
char_small (order_cancel h r n) = omega arith
char_small (order_delete h r) = omega arith
char_small (order_replace h o r n p) = omega arith
char_small (trade h r c n s p m) = omega arith
char_small (cross_trade h n s p m c) = omega arith
char_small (broken_trade h m) = omega arith

-- What the decoder says of a message that is good.
abbrev pub decoded : Message → DecodeStats → DecodeStats × Decoded
decoded m s =
    let len = message_length (code_of m) in
    (
      count_ok (code_of m) len s,
      record { result = DecodeResult.ok; call = some (call_of m); consumed = some len },
    )

zero_copy-flat :
    (m : Message) (s : DecodeStats)
    → All Fits (body_of m)
    → zero_copy (flat (fields_of m)) s ≡ decoded m s
unfolding zero_copy msg_type byte_at flat
zero_copy-flat m s fits =
    let p = flat (fields_of m) in
    let n : length p ≡ message_length (code_of m) = length-flat (fields_of m) ∙ size-fields m in
    let known = known_type m in
    let some_bytes : (length p == 0) ≡ false = ap (λ k. k == 0) n ∙ known in
    let whole : ltb (length p) (message_length (code_of m)) ≡ false = ground (arith, n) in
    rw (some_bytes, known, whole)
      (ap
        (λ c. (
          count_ok (code_of m) (message_length (code_of m)) s,
          record {
            result = DecodeResult.ok;
            call = some c;
            consumed = some (message_length (code_of m));
          },
        ))
        (zero_copy_call-fields m (char_small m, fits)))

is_known_type-length : (m : Message) → is_known_type (code_of m) ≡ true
unfolding is_known_type
is_known_type-length m = ap not (known_type m)

small_length : (m : Message) → message_length (code_of m) < 256
small_length m =
    let k : is_known_type (code_of m) ≡ true = is_known_type-length m in
    omega (arith, message_length-bounds (code_of m) k)

-- A framed message: its length, its fields, and the rest of the buffer.
write_framed-bytes :
    (m : Message) (out : List ℕ)
    → 2 ≤ length out
    → write_framed (write m) out ≡ (
      2 + message_length (code_of m),
      be_store 2 (message_length (code_of m))
          ++ (flat (fields_of m) ++ drop (2 + message_length (code_of m)) out),
    )
unfolding write_framed frame store_at
write_framed-bytes m out room =
    let len = message_length (code_of m) in
    let body : write m (drop 2 out) ≡ (len, flat (fields_of m) ++ drop (2 + len) out) =
      write-fields m (drop 2 out)
      ∙ ap (λ b. (len, b)) (store_all-flat (fields_of m) (drop 2 out))
      ∙ ap (λ n. (len, flat (fields_of m) ++ drop n (drop 2 out))) (size-fields m)
      ∙ ap (λ b. (len, flat (fields_of m) ++ b)) (drop-drop len 2 out) in
    let fits : len % u16_mod ≡ len = omega (arith, small_length m) in
    let rest = flat (fields_of m) ++ drop (2 + len) out in
    let front : length (take 2 out) ≡ 2 = omega (arith, length-take 2 out) in
    let behind : drop (0 + length (be_store 2 len)) (take 2 out ++ rest) ≡ rest =
      drop_all (take 2 out) rest _ (omega (arith, length-be_store 2 len, front)) in
    ap (λ r. frame r.0 (take 2 out ++ r.1)) body
    ∙ ap (λ n. (2 + len, store_at 0 (be_store 2 n) (take 2 out ++ rest))) fits
    ∙ ap (λ b. (2 + len, be_store 2 len ++ b)) behind

-- A message whose numbers fit their fields, and whose texts are not longer than theirs and do not end in
-- a space, is written with its frame into a buffer with room for both. The frame has its length, the
-- decoder takes that many bytes behind it for the message, and tells the handler what was written; the
-- buffer has its length, and what lies behind the message is as it was.
pub zero_copy-write_framed :
    (m : Message) (out : List ℕ) (s : DecodeStats)
    → All Fits (body_of m)
    → 2 + message_length (code_of m) ≤ length out
    → (2 + be_load 2 (write_framed (write m) out).1 ≡ (write_framed (write m) out).0)
      × (zero_copy
            (take
              (be_load 2 (write_framed (write m) out).1)
              (drop 2 (write_framed (write m) out).1))
            s
          ≡ decoded m s)
      × (length (write_framed (write m) out).1 ≡ length out)
      × (drop (write_framed (write m) out).0 (write_framed (write m) out).1
          ≡ drop (write_framed (write m) out).0 out)
zero_copy-write_framed m out s fits room =
    let len = message_length (code_of m) in
    let tail = drop (2 + len) out in
    let p = flat (fields_of m) in
    let size : length p ≡ len = length-flat (fields_of m) ∙ size-fields m in
    let n = length-be_store 2 len in
    let word_back : be_load 2 (be_store 2 len ++ (p ++ tail)) ≡ len =
      be_load-be_store 2 len (p ++ tail) (omega (arith, small_length m)) in
    let behind : drop 2 (be_store 2 len ++ (p ++ tail)) ≡ p ++ tail =
      drop_all (be_store 2 len) (p ++ tail) 2 (sym n) in
    let read : take (be_load 2 (be_store 2 len ++ (p ++ tail)))
          (drop 2 (be_store 2 len ++ (p ++ tail)))
        ≡ p =
      ap (λ k. take k (drop 2 (be_store 2 len ++ (p ++ tail)))) word_back
      ∙ ap (take len) behind
      ∙ take_all p tail len (sym size) in
    subst
      (λ r.
        (2 + be_load 2 r.1 ≡ r.0)
        × (zero_copy (take (be_load 2 r.1) (drop 2 r.1)) s ≡ decoded m s)
        × (length r.1 ≡ length out)
        × (drop r.0 r.1 ≡ drop r.0 out))
      (sym (write_framed-bytes m out (omega arith)))
      (
        ap (λ k. 2 + k) word_back,
        ap (λ l. zero_copy l s) read ∙ zero_copy-flat m s fits,
        omega (
          arith,
          length-append (be_store 2 len) (p ++ tail),
          length-append p tail,
          n,
          size,
          length-drop (2 + len) out,
        ),
        sym (drop-drop len 2 (be_store 2 len ++ (p ++ tail)))
            ∙ ap (drop len) behind
            ∙ drop_all p tail len (sym size),
      )
