-- ===== src/Recovery/Tests.antt =====
-- The recovery of include/tick/recovery.hpp at small inputs.
use tickerplant.Prelude.{
  none, ◌≤◌, ◌+◌, ◌&&◌, leb, ltb, length, if◌then◌else◌, ℕ, ◌≡◌, List, [], ◌∷◌, arith, refl, some,
}
use tickerplant.Recovery.Store.{RetransmitStore, empty, clear, fetch}
use tickerplant.Recovery.Answers.{
  IsRing, publish, publish-IsRing, clear-IsRing, clear-IsBlank, fetch-publish,
}
use tickerplant.Recovery.Client.{RecoveryConfig, make}
use tickerplant.Recovery.Bounds.{IsBounded}
use tickerplant.Recovery.Calls.{needs, polls, answers, run, run-make-IsBounded}

abbrev ring : RetransmitStore
ring = empty 8 4

ring-IsRing : IsRing ring
ring-IsRing = record { width = 2; size = refl; masked = refl; narrow = omega arith }

abbrev feed : ℕ → List ℕ
feed q = q ∷ []

-- A ring that published 9 messages and was cleared.
abbrev used : RetransmitStore
used = publish feed 1 9 ring

used-IsRing : IsRing used
used-IsRing = (publish-IsRing feed 1 9 ring ring-IsRing).0

used_narrow : (r : ℕ) → length (feed r) ≤ (clear used).max_payload
unfolding clear
used_narrow r = rw (publish-IsRing feed 1 9 ring ring-IsRing).2 (omega arith)

fetch-publish_example : fetch 6 64 (publish feed 4 3 (clear used)) ≡ (
    if (leb 4 6 && ltb 6 7) && leb 7 (6 + (clear used).cap)
    then (if ltb 64 1 then none else some (6 ∷ []))
    else none)
fetch-publish_example =
    fetch-publish feed 4 3 6 64 (clear used) (clear-IsRing used used-IsRing) (clear-IsBlank used)
      used_narrow

abbrev limits : RecoveryConfig
limits = record {
  initial_timeout_ns = 5;
  max_timeout_ns = 40;
  max_attempts = 0;
  max_outstanding = 2;
}

run-make-IsBounded_example :
    IsBounded (run (make limits) (needs 10 200000 ∷ polls 3 ∷ answers 10 7 4 ∷ polls 99 ∷ []))
run-make-IsBounded_example =
    run-make-IsBounded limits (needs 10 200000 ∷ polls 3 ∷ answers 10 7 4 ∷ polls 99 ∷ [])
      (omega arith, (tt, (tt, (tt, tt))))
