-- ===== src/Sequencer/Events.antt =====
-- What a caller does with a sequencer of include/tick/sequencer.hpp between two calls of `reset`.
use tickerplant.Prelude.{ℕ, ◌+◌, ◌<◌, ◌≡◌, ◌⊎◌, List, [], ◌∷◌, inl, inr, refl, All, u64_mod}
use tickerplant.Sequencer.State.{Sequencer, Delivery, LineId, Payload}
use tickerplant.Sequencer.Ingest.{on_message, on_retransmit}
use tickerplant.Sequencer.Poll.{poll}

pub data Event : Type 0 where
  message : LineId → ℕ → Payload → ℕ → Event
  retransmit : ℕ → Payload → ℕ → Event
  tick : ℕ → Event

unfoldable pub step : Event → Sequencer → Sequencer
unfolding on_message on_retransmit poll
step (message line q p now) s = on_message line q p now s
step (retransmit q p now) s = on_retransmit q p now s
step (tick now) s = (poll now s).0

unfoldable pub run : Sequencer → List Event → Sequencer
unfolding step
run s [] = s
run s (e ∷ es) = run (step e s) es

pub step-message :
    (line : LineId) (q : ℕ) (p : Payload) (now : ℕ) (s : Sequencer)
    → step (message line q p now) s ≡ on_message line q p now s
unfolding step
step-message line q p now s = refl

pub step-retransmit :
    (q : ℕ) (p : Payload) (now : ℕ) (s : Sequencer)
    → step (retransmit q p now) s ≡ on_retransmit q p now s
unfolding step
step-retransmit q p now s = refl

pub step-tick : (now : ℕ) (s : Sequencer) → step (tick now) s ≡ (poll now s).0
unfolding step
step-tick now s = refl

pub run-cons : (e : Event) (es : List Event) (s : Sequencer) → run s (e ∷ es) ≡ run (step e s) es
unfolding run
run-cons e es s = refl

pub run-nil : (s : Sequencer) → run s [] ≡ s
unfolding run
run-nil s = refl

-- What is asked of an event: `P` holds of the message in it.
abbrev pub Known : (Delivery → Type 0) → Event → Type 0
Known P (message line q p now) = P (q, p)
Known P (retransmit q p now) = P (q, p)
Known P (tick now) = Unit {0}

-- A sequence stands far enough from the end of the 64 bit numbers for a window above it.
abbrev pub HasRoom : ℕ → Event → Type 0
HasRoom capacity (message line q p now) = q + capacity < u64_mod
HasRoom capacity (retransmit q p now) = q + capacity < u64_mod
HasRoom capacity (tick now) = Unit {0}

-- The event brings this message.
abbrev pub Carries : Delivery → Event → Type 0
Carries d (message line q p now) = d ≡ (q, p)
Carries d (retransmit q p now) = d ≡ (q, p)
Carries d (tick now) = ⊥

abbrev pub Occurs : List Event → Delivery → Type 0
Occurs [] d = ⊥
Occurs (e ∷ es) d = Carries d e ⊎ Occurs es d

Known-one : (P : Delivery → Type 0) (e : Event) → ((d : Delivery) → Carries d e → P d) → Known P e
Known-one P (message line q p now) h = h (q, p) refl
Known-one P (retransmit q p now) h = h (q, p) refl
Known-one P (tick now) h = tt

pub Known-All :
    (P : Delivery → Type 0) (es : List Event)
    → ((d : Delivery) → Occurs es d → P d)
    → All (Known P) es
Known-All P [] h = tt
Known-All P (e ∷ es) h = (Known-one P e (λ d c. h d (inl c)), Known-All P es (λ d o. h d (inr o)))
