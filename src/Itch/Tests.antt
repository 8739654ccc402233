-- ===== src/Itch/Tests.antt =====
-- Messages of include/tick/itch.hpp, to run.
use tickerplant.Prelude.{
  All, take, drop, ℕ, ◌≤◌, ◌<◌, ◌≡◌, refl, true, List, [], ◌∷◌, replicate, ◌+◌, length, arith,
}
use tickerplant.Endian.{be_load}
use tickerplant.Mold.Frame.{byte_at, trim_len}
use tickerplant.Itch.Decoder.{zero_copy}
use tickerplant.Itch.Writer.{write_framed}
use tickerplant.Itch.Fields.{Fits}
use tickerplant.Itch.Message.{Message, add_order, write, body_of}
use tickerplant.Itch.Decoded.{decoded, zero_copy-write_framed}
use tickerplant.Itch.Normalize.{fresh_event}
use tickerplant.Itch.Decoder.{DecodeStats, CopyingDecoder}
use tickerplant.Itch.Counts.{counted, decoders-counted}
use tickerplant.Itch.Equivalence.{zero_copy_all, copying_all, copying_all-zero_copy_all}
use tickerplant.Itch.Lengths.{look_up, message_length, is_known_type, message_length-bounds}

known : is_known_type 85 ≡ true
unfolding is_known_type
known = refl

message_length-bounds_example : (11 < message_length 85) × (message_length 85 ≤ 50)
message_length-bounds_example = message_length-bounds 85 known

-- A deletion, an order executed that lacks bytes, a type that is not known, a message of no bytes, and
-- a system event.
abbrev session : List (List ℕ)
session =
    (68 ∷ replicate 18 7)
    ∷ (69 ∷ replicate 9 1)
    ∷ (33 ∷ replicate 40 1)
    ∷ []
    ∷ (83 ∷ replicate 11 79)
    ∷ []

abbrev no_decodes : DecodeStats
no_decodes = record { messages = 0; bytes = 0; unknown = 0; truncated = 0; by_type = λ t. 0 }

abbrev decoder : CopyingDecoder
decoder = record {
  staging = replicate 50 0;
  event = fresh_event 0 (replicate 11 0);
  stats = no_decodes;
}

copying_all-zero_copy_all_example :
    ((copying_all session decoder).1 ≡ (zero_copy_all session decoder.stats).1)
    × ((copying_all session decoder).0.stats ≡ (zero_copy_all session decoder.stats).0)
copying_all-zero_copy_all_example = copying_all-zero_copy_all session decoder

decoders-counted_example :
    (counted (zero_copy_all session decoder.stats).0 ≡ counted decoder.stats + length session)
    × (counted (copying_all session decoder).0.stats ≡ counted decoder.stats + length session)
decoders-counted_example = decoders-counted session decoder (omega arith)

-- An order to buy 100 shares of AAPL.
abbrev buy_aapl : Message
buy_aapl =
    add_order (record { locate = 13; tracking = 2; timestamp = 34200000000000 }) 77 66 100
      (65 ∷ 65 ∷ 80 ∷ 76 ∷ []) 1234500

buy_aapl-Fits : All Fits (body_of buy_aapl)
unfolding trim_len byte_at
buy_aapl-Fits = (
  omega arith,
  (
    omega arith,
    (
      omega arith,
      (omega arith, (omega arith, (omega arith, ((omega arith, refl), (omega arith, tt))))),
    ),
  ),
)

abbrev buffer : List ℕ
buffer = replicate 64 255

buffer_fits : 2 + message_length 65 ≤ length buffer
unfolding message_length look_up
buffer_fits = omega arith

zero_copy-write_framed_example :
    (2 + be_load 2 (write_framed (write buy_aapl) buffer).1
      ≡ (write_framed (write buy_aapl) buffer).0)
    × (zero_copy
          (take
            (be_load 2 (write_framed (write buy_aapl) buffer).1)
            (drop 2 (write_framed (write buy_aapl) buffer).1))
          no_decodes
        ≡ decoded buy_aapl no_decodes)
    × (length (write_framed (write buy_aapl) buffer).1 ≡ length buffer)
    × (drop (write_framed (write buy_aapl) buffer).0 (write_framed (write buy_aapl) buffer).1
        ≡ drop (write_framed (write buy_aapl) buffer).0 buffer)
zero_copy-write_framed_example =
    zero_copy-write_framed buy_aapl buffer no_decodes buy_aapl-Fits buffer_fits
