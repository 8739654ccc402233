-- ===== src/Sequencer/Tests.antt =====
-- A small session of include/tick/sequencer.hpp, and its theorems at it: a window of four slots,
-- sequences from 1 on, two lines.
use tickerplant.Prelude.{
  ℕ, ◌<◌, ◌≤◌, ◌≡◌, ◌-◌, some, refl, arith, List, add64, sub64, mul64, [], ◌∷◌, All,
}
use tickerplant.Pow2.{round_up_pow2}
use tickerplant.Recovery.Request.{RetransmitRequest}
use tickerplant.Sequencer.State.{Sequencer, Config, Delivery, FeedState, LineId, Payload}
use tickerplant.Sequencer.Ingest.{initial, make, reset, on_message, duplicate}
use tickerplant.Sequencer.Poll.{poll}
use tickerplant.Sequencer.Invariant.{Below}
use tickerplant.Sequencer.Events.{Event, message, retransmit, tick, run, step, Occurs, HasRoom}
use tickerplant.Sequencer.Construct.{IsSane, IsBuilt, session-IsValid}
use tickerplant.Sequencer.Valid.{IsValid}
use tickerplant.Sequencer.Cover.{stream}
use tickerplant.Sequencer.Order.{delivery_sound, arbitration_lossless, stale_is_final}
use tickerplant.Sequencer.Policy.{Asks, poll-Asks}
use tickerplant.Sequencer.Copies.{second_copy_ignored}
use tickerplant.Sequencer.Run.{run-Takes}

abbrev small : Config
small = record {
  reorder_window = 3;
  gap_grace_ns = 10;
  recovery_timeout_ns = 100;
  max_recovery_attempts = 2;
  max_payload = 8;
}

small-IsSane : IsSane small
small-IsSane = record { window = omega arith; payload = omega arith }

abbrev built : Sequencer
built = initial small 4

make-small : make small ≡ some built
unfolding make round_up_pow2
make-small = refl

built-IsBuilt : IsBuilt small built
built-IsBuilt = record {
  ring = record { width = 2; size = refl; masked = refl; narrow = omega arith };
  silent = refl;
  roomy = omega arith;
}

abbrev feed : ℕ → Payload
feed q = q ∷ []

-- The first message is lost on line a and late on line b; the third comes from the server.
abbrev calls : List Event
calls =
    message LineId.a 2 (2 ∷ []) 5
    ∷ message LineId.b 1 (1 ∷ []) 7
    ∷ message LineId.a 1 (1 ∷ []) 8
    ∷ message LineId.b 4 (4 ∷ []) 9
    ∷ tick 30
    ∷ retransmit 3 (3 ∷ []) 40
    ∷ []

calls_room : All (HasRoom built.capacity) calls
calls_room = omega arith

open_machine : Unit {0}
unfolding run step reset on_message poll add64 sub64 mul64
open_machine = tt

final_sent : (run (reset 1 built) calls).sent ≡ stream feed 1 4
unfolding open_machine
final_sent = refl

final_state : (run (reset 1 built) calls).state ≡ FeedState.synced
unfolding open_machine
final_state = refl

delivery_sound_example :
    Below (run (reset 1 built) calls).expected (run (reset 1 built) calls).sent
    × All (Occurs calls) (run (reset 1 built) calls).sent
delivery_sound_example = delivery_sound small 1 built-IsBuilt (omega arith) calls calls_room

feed_complete : (q : ℕ) → 1 ≤ q → q < 5 → Occurs calls (q, feed q)
feed_complete q lo hi = ground arith

arbitration_lossless_example :
    (5 ≤ (run (reset 1 built) calls).expected)
    × ((run (reset 1 built) calls).sent ≡ stream feed 1 ((run (reset 1 built) calls).expected - 1))
arbitration_lossless_example =
    arbitration_lossless small 1 built-IsBuilt (omega arith) calls calls_room feed 5
      (one 2, (one 1, (one 1, (one 4, (tt, (one 3, tt)))))) feed_complete
      (λ e. absurd (let same = final_state in cc))
  where
    one : (q : ℕ) → (◌≡◌ {A = Payload} (q ∷ []) (feed q)) × (1 ≤ 8)
    one q = (refl, omega arith)

abbrev Anything : Delivery → Type 0
Anything d = Unit {0}

-- A hole at 2, with 3 held behind it.
abbrev holed : List Event
holed = message LineId.a 1 (1 ∷ []) 5 ∷ message LineId.b 3 (3 ∷ []) 6 ∷ []

holed-IsValid : IsValid Anything (run (reset 1 built) holed)
holed-IsValid =
    (run-Takes holed (session-IsValid small 1 built-IsBuilt (omega arith)) calls_fit
      (tt, (tt, tt))).valid
  where
    calls_fit : All (HasRoom (reset 1 built).capacity) holed
    calls_fit = unfold reset in omega arith

abbrev wanted : RetransmitRequest
wanted = record { first_sequence = 2; count = 1 }

holed_asks : (poll 30 (run (reset 1 built) holed)).1 ≡ some wanted
unfolding open_machine
holed_asks = refl

poll-Asks_example :
    Asks 30 (run (reset 1 built) holed) wanted (poll 30 (run (reset 1 built) holed)).0
poll-Asks_example = poll-Asks 30 holed-IsValid wanted holed_asks

second_copy_ignored_example :
    on_message LineId.b 4 (9 ∷ []) 8 (on_message LineId.a 4 (4 ∷ []) 7 (run (reset 1 built) holed))
    ≡ duplicate (on_message LineId.a 4 (4 ∷ []) 7 (run (reset 1 built) holed))
second_copy_ignored_example =
    second_copy_ignored 4 (4 ∷ []) (9 ∷ []) 7 8 LineId.a LineId.b holed-IsValid
      (unfold open_machine in omega arith) tt (unfold open_machine in omega arith)

-- A message far beyond the window makes the feed stale.
abbrev torn : List Event
torn = message LineId.a 1 (1 ∷ []) 5 ∷ message LineId.b 90 (3 ∷ []) 6 ∷ []

torn-IsValid : IsValid Anything (run (reset 1 built) torn)
torn-IsValid =
    (run-Takes torn (session-IsValid small 1 built-IsBuilt (omega arith)) calls_fit
      (tt, (tt, tt))).valid
  where
    calls_fit : All (HasRoom (reset 1 built).capacity) torn
    calls_fit = unfold reset in omega arith

torn_stale : (run (reset 1 built) torn).state ≡ FeedState.stale
unfolding open_machine
torn_stale = refl

stale_is_final_example : (run (run (reset 1 built) torn) calls).state ≡ FeedState.stale
stale_is_final_example =
    stale_is_final calls torn-IsValid (unfold open_machine in omega arith)
      (tt, (tt, (tt, (tt, (tt, (tt, tt)))))) torn_stale
