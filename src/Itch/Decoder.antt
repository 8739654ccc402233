-- ===== src/Itch/Decoder.antt =====
-- include/tick/itch_decoder.hpp: the two decoders. A decoder returns the call that it makes. The staging
-- buffer of the copying decoder is a list of bytes.
use tickerplant.Prelude.{
  ℕ, Option, none, some, List, ◌++◌, length, take, drop, ltb, ◌==◌, update, inc64, add64,
  if◌then◌else◌,
}
use tickerplant.Itch.Lengths.{message_length, msg_type}
use tickerplant.Itch.Event.{case_of, HandlerCall, NormalizedEvent}
use tickerplant.Itch.ZeroCopy.{zero_copy_call}
use tickerplant.Itch.Normalize.{normalize, dispatch}

pub data DecodeResult : Type 0 where
  ok : DecodeResult
  truncated : DecodeResult
  unknown_type : DecodeResult

pub record DecodeStats : Type 0 where
  pub messages : ℕ
  pub bytes : ℕ
  pub unknown : ℕ
  pub truncated : ℕ
  pub by_type : ℕ → ℕ

-- The outcome of a call of `decode`: the result, what the handler was told, and the length consumed.
pub record Decoded : Type 0 where
  pub result : DecodeResult
  pub call : Option HandlerCall
  pub consumed : Option ℕ

abbrev pub failed : DecodeResult → Decoded
failed r = record { result = r; call = none; consumed = none }

abbrev pub count_ok : ℕ → ℕ → DecodeStats → DecodeStats
count_ok t len s = record s {
  messages = inc64 s.messages;
  bytes = add64 s.bytes len;
  by_type = update s.by_type t (inc64 (s.by_type t));
}

-- The guards that both decoders share, around the call that a good message makes.
abbrev pub guarded : List ℕ → HandlerCall → DecodeStats → DecodeStats × Decoded
guarded msg call s =
    let t = msg_type msg in
    let len = message_length t in
    if length msg == 0
    then (record s { truncated = inc64 s.truncated }, failed DecodeResult.truncated)
    else (if len == 0
        then (record s { unknown = inc64 s.unknown }, failed DecodeResult.unknown_type)
        else (if ltb (length msg) len
            then (record s { truncated = inc64 s.truncated }, failed DecodeResult.truncated)
            else (
              count_ok t len s,
              record { result = DecodeResult.ok; call = some call; consumed = some len },
            )))

-- `ZeroCopyDecoder::decode`
unfoldable pub zero_copy : List ℕ → DecodeStats → DecodeStats × Decoded
unfolding msg_type message_length zero_copy_call case_of
zero_copy msg s = guarded msg (zero_copy_call (case_of (msg_type msg)) (msg_type msg) msg) s

pub record CopyingDecoder : Type 0 where
  pub staging : List ℕ
  pub event : NormalizedEvent
  pub stats : DecodeStats

-- `memcpy(staging_.data(), msg.data(), len)`
abbrev pub stage : ℕ → List ℕ → List ℕ → List ℕ
stage len msg old = take len msg ++ drop len old

-- What a good message leaves, or what any other leaves.
abbrev pub after : DecodeResult → CopyingDecoder → CopyingDecoder → CopyingDecoder
after DecodeResult.ok a b = a
after DecodeResult.truncated a b = b
after DecodeResult.unknown_type a b = b

-- `CopyingDecoder::decode`, whose staging buffer and event change with a good message only.
unfoldable pub copying : List ℕ → CopyingDecoder → CopyingDecoder × Decoded
unfolding msg_type message_length normalize dispatch case_of
copying msg d =
    let t = msg_type msg in
    let staged = stage (message_length t) msg d.staging in
    let event = normalize (case_of t) t staged in
    let (s, out) = guarded msg (dispatch event) d.stats in
    (
      after out.result (record { staging = staged; event = event; stats = s })
          (record d { stats = s }),
      out,
    )
