-- ===== src/Mold/Tests.antt =====
-- A packet of include/tick/moldudp64.hpp, and a word of include/tick/endian.hpp, to run.
use tickerplant.Prelude.{ℕ, ◌≤◌, ◌≡◌, refl, some, List, [], ◌∷◌, ◌++◌, arith, length, replicate}
use tickerplant.Endian.{be_load, be_store}
use tickerplant.Endian.RoundTrip.{be_load-be_store}
use tickerplant.Mold.Frame.{pad}
use tickerplant.Mold.View.{PacketView, parse, all_blocks}
use tickerplant.Mold.Builder.{PacketBuilder, reset, make, finish}
use tickerplant.Mold.Built.{append_each}
use tickerplant.Mold.RoundTrip.{parse-finish}

be_load-be_store_example : be_load 4 (be_store 4 305419896 ++ 9 ∷ 9 ∷ []) ≡ 305419896
be_load-be_store_example = be_load-be_store 4 305419896 (9 ∷ 9 ∷ []) (omega arith)

be_store_runs : be_store 4 305419896 ≡ 18 ∷ 52 ∷ 86 ∷ 120 ∷ []
unfolding be_store
be_store_runs = refl

-- Three messages, of which the second does not fit the buffer.
abbrev offered : List (List ℕ)
offered = (1 ∷ 2 ∷ []) ∷ replicate 30 7 ∷ (3 ∷ []) ∷ []

abbrev name : List ℕ
name = 84 ∷ 75 ∷ []

abbrev packet : PacketBuilder
packet = reset 77 (make 40 name)

accepted : (append_each offered packet).1 ≡ (1 ∷ 2 ∷ []) ∷ (3 ∷ []) ∷ []
unfolding append_each reset make
accepted = refl

parse-finish_example :
    (length (finish (append_each offered packet).0).bytes ≤ 40)
    × ((v : PacketView) × (parse ((finish (append_each offered packet).0).bytes) ≡ some v)
        × (v.hdr ≡ record {
          session = pad name;
          sequence = 77;
          count = length ((append_each offered packet).1);
        })
        × (all_blocks v ≡ (append_each offered packet).1))
parse-finish_example = parse-finish 40 77 name offered (omega arith) (omega arith)
