-- ===== src/Recovery/Calls.antt =====
-- Any sequence of calls of the client of include/tick/recovery.hpp.
use tickerplant.Prelude.{ℕ, ◌+◌, ◌<◌, List, [], ◌∷◌, All, u64_mod, arith}
use tickerplant.Recovery.Client.{
  RecoveryConfig, RecoveryClient, make, need, next_request, on_response, clear,
}
use tickerplant.Recovery.Bounds.{
  IsBounded, need-IsBounded, next_request-IsBounded, on_response-IsBounded,
}

pub data Call : Type 0 where
  needs : ℕ → ℕ → Call
  polls : ℕ → Call
  answers : ℕ → ℕ → ℕ → Call
  clears : Call

pub step : Call → RecoveryClient → RecoveryClient
unfolding need next_request on_response clear
step (needs first count) s = (need first count s).0
step (polls now) s = (next_request now s).0
step (answers first count now) s = on_response first count now s
step clears s = clear s

pub run : RecoveryClient → List Call → RecoveryClient
unfolding step
run s [] = s
run s (c ∷ cs) = run (step c s) cs

-- A range that is asked for ends within the 64 bit numbers.
abbrev pub IsRange : Call → Type 0
IsRange (needs first count) = first + count < u64_mod
IsRange _ = Unit {0}

step-IsBounded : (c : Call) (s : RecoveryClient) → IsRange c → IsBounded s → IsBounded (step c s)
unfolding step
step-IsBounded (needs first count) s h b = need-IsBounded first count s b h
step-IsBounded (polls now) s h b = next_request-IsBounded now s b
step-IsBounded (answers first count now) s h b = on_response-IsBounded first count now s b
step-IsBounded clears s h b = record { few = omega arith; askable = tt; tried_once = b.tried_once }

run-IsBounded :
    (cs : List Call) (s : RecoveryClient) → All IsRange cs → IsBounded s → IsBounded (run s cs)
unfolding run
run-IsBounded [] s h b = b
run-IsBounded (c ∷ cs) s h b = run-IsBounded cs (step c s) h.1 (step-IsBounded c s h.0 b)

make-IsBounded : (c : RecoveryConfig) → IsBounded (make c)
unfolding make
make-IsBounded c = record { few = omega arith; askable = tt; tried_once = ground arith }

-- After any calls of a client made from any configuration, at most `max_outstanding` ranges are
-- outstanding; each has between 1 and 65535 sequences, does not run past the 64 bit numbers, and
-- has been sent at most `max_attempts` times. Premise: so it is of the ranges asked for.
pub run-make-IsBounded :
    (c : RecoveryConfig) (cs : List Call) → All IsRange cs → IsBounded (run (make c) cs)
run-make-IsBounded c cs h = run-IsBounded cs (make c) h (make-IsBounded c)
