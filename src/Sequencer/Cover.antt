-- ===== src/Sequencer/Cover.antt =====
-- What comes into include/tick/sequencer.hpp is dealt with: it is below the front, or it is held.
use tickerplant.Prelude.{
  ℕ, zero, suc, ◌+◌, ◌-◌, ◌≤◌, ◌≡◌, List, [], ◌∷◌, arith, ap, sym, All, length, subst, inl, inr,
}
use tickerplant.Sequencer.State.{Sequencer, Delivery, Payload}
use tickerplant.Sequencer.Front.{Unbroken}
use tickerplant.Sequencer.Valid.{IsValid, Takes}
use tickerplant.Sequencer.Accept.{Covered}
use tickerplant.Sequencer.Events.{
  Event, message, retransmit, tick, step, run, HasRoom, Known, Occurs, Carries, step-message,
  step-retransmit, run-cons,
}
use tickerplant.Sequencer.Run.{run-Takes, step-Takes, on_message-Accepts, on_retransmit-Accepts}

-- An event brings a message of the published feed, and one that fits a slot.
abbrev pub IsPublished : (ℕ → Payload) → ℕ → Event → Type 0
IsPublished feed m (message line q p now) = (p ≡ feed q) × (length p ≤ m)
IsPublished feed m (retransmit q p now) = (p ≡ feed q) × (length p ≤ m)
IsPublished feed m (tick now) = Unit {0}

-- The feed from `first` on, newest first: what a receiver that loses nothing hands downstream.
abbrev pub stream : (ℕ → Payload) → ℕ → ℕ → List Delivery
stream feed first zero = []
stream feed first (suc n) = (first + n, feed (first + n)) ∷ stream feed first n

abbrev pub FromFeed : (ℕ → Payload) → Delivery → Type 0
FromFeed feed d = d.1 ≡ feed d.0

pub published-Known :
    (feed : ℕ → Payload) (m : ℕ) (es : List Event)
    → All (IsPublished feed m) es
    → All (Known (FromFeed feed)) es
published-Known feed m [] h = tt
published-Known feed m (message line q p now ∷ es) h = (h.0.0, published-Known feed m es h.1)
published-Known feed m (retransmit q p now ∷ es) h = (h.0.0, published-Known feed m es h.1)
published-Known feed m (tick now ∷ es) h = (tt, published-Known feed m es h.1)

pub Covered-mono :
    {P : Delivery → Type 0} {s t : Sequencer} (q : ℕ) → Takes P s t → Covered s q → Covered t q
Covered-mono q k (inl below) = inl (omega (arith, k.forward))
Covered-mono q k (inr held) = k.keeps q held

step-Covered :
    (feed : ℕ → Payload) (e : Event) (q : ℕ) {s : Sequencer}
    → IsValid (FromFeed feed) s
    → HasRoom s.capacity e
    → IsPublished feed s.max_payload e
    → Carries (q, feed q) e
    → Covered (step e s) q
step-Covered feed (message line r p now) q {s} v room h c =
    let a = on_message-Accepts r p now v room h.0 line in
    subst (λ t. Covered t q) (sym (step-message line r p now s))
      (subst (Covered _) (sym (ap (λ (d : Delivery). d.0) c)) (a.covers h.1))
step-Covered feed (retransmit r p now) q {s} v room h c =
    let a = on_retransmit-Accepts r p now v room h.0 in
    subst (λ t. Covered t q) (sym (step-retransmit r p now s))
      (subst (Covered _) (sym (ap (λ (d : Delivery). d.0) c)) (a.covers h.1))
step-Covered feed (tick now) q v room h c = absurd c

-- Whatever the events brought has been delivered, or is held, at their end.
pub run-Covered :
    (feed : ℕ → Payload) (es : List Event) (q : ℕ) {s : Sequencer}
    → IsValid (FromFeed feed) s
    → All (HasRoom s.capacity) es
    → All (IsPublished feed s.max_payload) es
    → Occurs es (q, feed q)
    → Covered (run s es) q
run-Covered feed [] q v room h o = absurd o
run-Covered feed (e ∷ es) q {s} v room h o =
    let k = step-Takes e v room.0 (published-Known feed s.max_payload (e ∷ es) h).0 in
    let room' : All (HasRoom (step e s).capacity) es = rw k.fixed.capacity room.1 in
    let h' : All (IsPublished feed (step e s).max_payload) es = rw k.fixed.max_payload h.1 in
    subst (λ t. Covered t q) (sym (run-cons e es s))
      (elim o [
        | inl now ↦
            Covered-mono q (run-Takes es k.valid room' (published-Known feed _ es h'))
              (step-Covered feed e q v room.0 h.0 now)
        | inr later ↦ run-Covered feed es q k.valid room' h' later
      ])

pub Unbroken-stream :
    (feed : ℕ → Payload) (first n : ℕ) (ds : List Delivery)
    → Unbroken first n ds
    → All (FromFeed feed) ds
    → (first ≤ n) × (ds ≡ stream feed first (n - first))
Unbroken-stream feed first n [] u g = let e : n - first ≡ 0 = omega arith in (omega arith, rw e)
Unbroken-stream feed first n ((q, p) ∷ ds) u g =
    let (le, rest) = Unbroken-stream feed first q ds u.1 g.1 in
    let e : n - first ≡ suc (q - first) = omega (arith, u.0) in
    let back : first + (q - first) ≡ q = omega arith in
    (omega (arith, u.0), rw e (rw (back, ← rest, ← g.0)))
