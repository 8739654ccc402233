-- ===== src/Sequencer/Order.antt =====
-- What include/tick/sequencer.hpp promises downstream, whatever the lines, the server and the
-- clock do.
use tickerplant.Prelude.{ℕ, ◌+◌, ◌-◌, ◌<◌, ◌≤◌, ◌≡◌, ◌≢◌, List, refl, arith, u64_mod, All, inl, inr}
use native.Mathlib.Decide.{dec_lt}
use tickerplant.Sequencer.State.{Sequencer, Config, Delivery, Payload, FeedState}
use tickerplant.Sequencer.Ingest.{reset}
use tickerplant.Sequencer.Invariant.{Below}
use tickerplant.Sequencer.Front.{Unbroken}
use tickerplant.Sequencer.Valid.{IsValid, Takes}
use tickerplant.Sequencer.Accept.{Covered}
use tickerplant.Sequencer.Events.{Event, run, HasRoom, Known, Occurs, Known-All}
use tickerplant.Sequencer.Run.{run-Takes}
use tickerplant.Sequencer.Cover.{
  IsPublished, stream, FromFeed, published-Known, run-Covered, Unbroken-stream,
}
use tickerplant.Sequencer.Construct.{IsBuilt, session-IsValid}

front_open : {P : Delivery → Type 0} {t : Sequencer} → IsValid P t → ¬ Covered t t.expected
front_open v (inl below) = omega arith
front_open {t = t} v (inr held) = let f = v.front in cc

module _ (cfg : Config) (first : ℕ) {s : Sequencer} (built : IsBuilt cfg s)
    (start : first + s.capacity ≤ u64_mod) (es : List Event)
    (room : All (HasRoom s.capacity) es) where
  session_capacity : (reset first s).capacity ≡ s.capacity
  unfolding reset
  session_capacity = refl

  session-Unbroken : Unbroken first (reset first s).expected (reset first s).sent
  unfolding reset
  session-Unbroken = rw built.silent refl

  session_payload : (reset first s).max_payload ≡ s.max_payload
  unfolding reset
  session_payload = refl

  session-Takes :
      {P : Delivery → Type 0} → All (Known P) es → Takes P (reset first s) (run (reset first s) es)
  session-Takes known =
      run-Takes es (session-IsValid cfg first built start) (rw session_capacity room) known

  -- In a session of a constructed sequencer, whatever messages, retransmissions and clock ticks
  -- come in whatever order, the sink is called with strictly increasing sequences, all of them
  -- below the next one expected, and only with a sequence and payload that some message of the
  -- session brought.
  pub delivery_sound :
      Below (run (reset first s) es).expected (run (reset first s) es).sent
      × All (Occurs es) (run (reset first s) es).sent
  delivery_sound =
      let k = session-Takes (Known-All (Occurs es) es (λ d o. o)) in
      (k.valid.window.ordered, k.valid.window.sent_genuine)

  -- Two lossy copies of a feed, with any duplicates, reorderings and retransmissions: as long as the
  -- feed has not gone stale, and everything from `first` up to `n` came in at least once, everything
  -- up to `n` has been delivered, and the sink has been called with exactly the published messages
  -- from `first` up to the front, each once and in order. Premises: every payload is the published
  -- one and fits a slot, and sequences stay a window away from the end of the 64 bit numbers.
  pub arbitration_lossless :
      (feed : ℕ → Payload) (n : ℕ)
      → All (IsPublished feed s.max_payload) es
      → ((q : ℕ) → first ≤ q → q < n → Occurs es (q, feed q))
      → (run (reset first s) es).state ≢ FeedState.stale
      → (n ≤ (run (reset first s) es).expected)
        × ((run (reset first s) es).sent
            ≡ stream feed first ((run (reset first s) es).expected - first))
  arbitration_lossless feed n published complete fresh =
      let known = published-Known feed s.max_payload es published in
      let k = session-Takes {P = FromFeed feed} known in
      let t = run (reset first s) es in
      let whole : Unbroken first t.expected t.sent = elim k.fate [
        | inl gone ↦ absurd (fresh gone)
        | inr kept ↦ kept first (session-Unbroken)
      ] in
      let (le, exact) =
        Unbroken-stream feed first t.expected t.sent whole k.valid.window.sent_genuine in
      let v = session-IsValid cfg first built start in
      let here : first ≤ t.expected = le in
      (
        elim (dec_lt t.expected n) [
          | no past ↦ omega arith
          | yes short ↦ absurd (
              front_open k.valid (
                run-Covered feed es t.expected v (rw session_capacity room)
                  (rw session_payload published) (complete t.expected here short)))
        ],
        exact,
      )

-- Stale is a one way door: no message, retransmission or clock tick leads out of it.
pub stale_is_final :
    {P : Delivery → Type 0} (es : List Event) {s : Sequencer}
    → IsValid P s
    → All (HasRoom s.capacity) es
    → All (Known P) es
    → s.state ≡ FeedState.stale
    → (run s es).state ≡ FeedState.stale
stale_is_final es v room known = (run-Takes es v room known).one_way
