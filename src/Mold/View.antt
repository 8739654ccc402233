-- ===== src/Mold/View.antt =====
-- include/tick/moldudp64.hpp, PacketView: the validated view of a datagram, and the walk over it.
use tickerplant.Prelude.{
  ℕ, zero, suc, ◌+◌, ◌-◌, Bool, Option, none, some, List, [], ◌∷◌, length, take, drop, ltb, ◌==◌,
  u32_mod, ◌%◌, if◌then◌else◌,
}
use tickerplant.Endian.{be_load}
use tickerplant.Mold.Frame.{
  header_len, block_len_bytes, session_len, end_of_session, Header, read_header, trim_right,
}

pub record PacketView : Type 0 where
  pub pkt : List ℕ
  pub hdr : Header
  pub blocks : ℕ

-- The loop of `parse` at offset `off` with `n` blocks left: the offset where it ends.
unfoldable pub walk : ℕ → ℕ → List ℕ → Option ℕ
unfolding be_load
walk zero off pkt = some off
walk (suc n) off pkt =
    let len = be_load 2 (drop off pkt) in
    let rest = walk n (off + block_len_bytes + len) pkt in
    if ltb (length pkt - off) block_len_bytes
    then none
    else (if ltb (length pkt - (off + block_len_bytes)) len then none else rest)

abbrev pub view_of : List ℕ → ℕ → PacketView
view_of pkt n = record { pkt = pkt; hdr = read_header pkt; blocks = n }

-- The last test of `parse`, on the offset that the loop reached.
abbrev pub ends_at : List ℕ → ℕ → Option ℕ → Option PacketView
ends_at pkt n none = none
ends_at pkt n (some off) = if off == length pkt then some (view_of pkt n) else none

-- What `parse` does once it has the count.
unfoldable pub parse_blocks : List ℕ → ℕ → Option PacketView
unfolding walk
parse_blocks pkt n =
    if n == end_of_session
    then (if length pkt == header_len then some (view_of pkt 0) else none)
    else ends_at pkt n (walk n header_len pkt)

unfoldable pub parse : List ℕ → Option PacketView
unfolding read_header parse_blocks
parse pkt = if ltb (length pkt) header_len then none else parse_blocks pkt (read_header pkt).count

abbrev pub is_heartbeat : PacketView → Bool
is_heartbeat v = v.hdr.count == 0

abbrev pub is_end_of_session : PacketView → Bool
is_end_of_session v = v.hdr.count == end_of_session

unfoldable pub session : PacketView → List ℕ
unfolding trim_right
session v = trim_right v.pkt session_len

pub record Iterator : Type 0 where
  pub off : ℕ
  pub index : ℕ

-- `begin()`
abbrev pub begin : Iterator
begin = record { off = header_len; index = 0 }

-- `operator*`
unfoldable pub block_at : PacketView → Iterator → List ℕ
unfolding be_load
block_at v it = take (be_load 2 (drop it.off v.pkt)) (drop (it.off + block_len_bytes) v.pkt)

-- `operator++`
unfoldable pub next : PacketView → Iterator → Iterator
unfolding be_load
next v it = record {
  off = it.off + block_len_bytes + be_load 2 (drop it.off v.pkt);
  index = (it.index + 1) % u32_mod;
}

-- A range-for over the view, from an iterator to `end()`, which has the index `blocks`.
unfoldable pub blocks_from : ℕ → PacketView → Iterator → List (List ℕ)
unfolding block_at next
blocks_from zero v it = []
blocks_from (suc f) v it =
    let rest = blocks_from f v (next v it) in
    if it.index == v.blocks then [] else block_at v it ∷ rest

-- Each round counts one block.
unfoldable pub all_blocks : PacketView → List (List ℕ)
unfolding blocks_from
all_blocks v = blocks_from v.blocks v begin
