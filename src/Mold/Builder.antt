-- ===== src/Mold/Builder.antt =====
-- include/tick/moldudp64.hpp, PacketBuilder: a packet filled block by block. `bytes` is what the
-- buffer holds up to `size_`.
use tickerplant.Prelude.{
  ℕ, ◌+◌, ◌-◌, Bool, true, false, List, [], ◌++◌, length, take, drop, ltb, leb, ◌==◌, if◌then◌else◌,
}
use tickerplant.Endian.{be_store}
use tickerplant.Mold.Frame.{
  header_len, off_count, block_len_bytes, end_of_session, max_count, pad, write_header,
}

pub record PacketBuilder : Type 0 where
  pub cap : ℕ
  pub bytes : List ℕ
  pub count : ℕ
  pub session : List ℕ

unfoldable pub reset : ℕ → PacketBuilder → PacketBuilder
unfolding write_header
reset first b = record b { bytes = write_header b.cap b.session first 0; count = 0 }

unfoldable pub make : ℕ → List ℕ → PacketBuilder
unfolding reset
make cap session = reset 0 (record { cap = cap; bytes = []; count = 0; session = pad session })

-- The block length and the message go behind what is there.
unfoldable pub put_block : List ℕ → PacketBuilder → PacketBuilder
unfolding be_store
put_block msg b = record b {
  bytes = b.bytes ++ be_store 2 (length msg) ++ msg;
  count = b.count + 1;
}

unfoldable pub try_append : List ℕ → PacketBuilder → PacketBuilder × Bool
unfolding put_block
try_append msg b =
    if length b.bytes == 0
    then (b, false)
    else (if leb max_count b.count
        then (b, false)
        else (if ltb 65535 (length msg)
            then (b, false)
            else (if ltb (b.cap - length b.bytes) (block_len_bytes + length msg)
                then (b, false)
                else (put_block msg b, true))))

unfoldable pub remaining : PacketBuilder → ℕ
remaining b = if length b.bytes == 0 then 0 else b.cap - length b.bytes

-- The buffer with the count stamped in, which is also what is handed back.
unfoldable pub finish : PacketBuilder → PacketBuilder
unfolding be_store
finish b = if length b.bytes == 0 then b else (record b {
  bytes = take off_count b.bytes ++ be_store 2 b.count ++ drop header_len b.bytes;
})

unfoldable pub heartbeat : ℕ → List ℕ → ℕ → List ℕ
unfolding write_header
heartbeat cap session next_seq = write_header cap session next_seq 0

unfoldable pub end_session : ℕ → List ℕ → ℕ → List ℕ
unfolding write_header
end_session cap session next_seq = write_header cap session next_seq end_of_session

unfoldable pub request : ℕ → List ℕ → ℕ → ℕ → List ℕ
unfolding write_header
request cap session first_seq count = write_header cap session first_seq count
