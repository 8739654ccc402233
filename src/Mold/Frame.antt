-- ===== src/Mold/Frame.antt =====
-- include/tick/moldudp64.hpp: the header of twenty bytes, written and read. A buffer is the list of
-- the bytes written to it; a null buffer is one with no room, for the code treats them alike.
use tickerplant.Prelude.{
  ℕ, zero, suc, ◌-◌, Option, none, some, List, [], ◌∷◌, ◌++◌, length, take, drop, replicate, ltb,
  ◌==◌, if◌then◌else◌,
}
use tickerplant.Endian.{be_load, be_store}

abbrev pub header_len : ℕ
header_len = 20

abbrev pub session_len : ℕ
session_len = 10

abbrev pub off_sequence : ℕ
off_sequence = 10

abbrev pub off_count : ℕ
off_count = 18

abbrev pub block_len_bytes : ℕ
block_len_bytes = 2

abbrev pub end_of_session : ℕ
end_of_session = 65535

abbrev pub max_count : ℕ
max_count = 65534

pub record Header : Type 0 where
  pub session : List ℕ
  pub sequence : ℕ
  pub count : ℕ

-- The session cut or padded with spaces to ten bytes.
abbrev pub pad : List ℕ → List ℕ
pad s = take session_len s ++ replicate (session_len - length s) 32

-- What is written; nothing where the source returns zero.
unfoldable pub write_header : ℕ → List ℕ → ℕ → ℕ → List ℕ
unfolding be_store
write_header cap session sequence count =
    if ltb cap header_len then [] else pad session ++ be_store 8 sequence ++ be_store 2 count

-- `p[i]`, where the source never reads past the end.
unfoldable pub byte_at : ℕ → List ℕ → ℕ
byte_at i [] = 0
byte_at zero (b ∷ bs) = b
byte_at (suc i) (b ∷ bs) = byte_at i bs

-- `while (n > 0 && p[n - 1] == ' ') --n`
unfoldable pub trim_len : List ℕ → ℕ → ℕ
unfolding byte_at
trim_len p zero = 0
trim_len p (suc n) = let rest = trim_len p n in if byte_at n p == 32 then rest else suc n

unfoldable pub trim_right : List ℕ → ℕ → List ℕ
unfolding trim_len
trim_right p n = take (trim_len p n) p

unfoldable pub read_header : List ℕ → Header
unfolding be_load
read_header pkt = record {
  session = take session_len pkt;
  sequence = be_load 8 (drop off_sequence pkt);
  count = be_load 2 (drop off_count pkt);
}

unfoldable pub parse_header : List ℕ → Option Header
unfolding read_header
parse_header pkt = if ltb (length pkt) header_len then none else some (read_header pkt)

unfoldable pub session_of : Header → List ℕ
unfolding trim_right
session_of h = trim_right h.session session_len
