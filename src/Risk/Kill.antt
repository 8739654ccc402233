-- ===== src/Risk/Kill.antt =====
-- The kill switch of include/tick/risk.hpp along any events that are not the reset by a human.
use tickerplant.Prelude.{
  ℕ, Bool, true, false, ◌≡◌, refl, sym, ap, ◌∙◌, Option, none, some, List, [], ◌∷◌, arith, ltb,
  ◌==◌, inc64, if◌then◌else◌,
}
use tickerplant.Risk.State.{RiskReject, RiskLimits, OrderRequest, RiskStats, RiskEngine}
use tickerplant.Risk.Check.{or_next, reject_if, check, check_and_count, count_outcome}
use tickerplant.Risk.Table.{find_open, insert_open}
use tickerplant.Risk.Engine.{
  trip_kill_switch, on_order_sent, on_fill, on_cancel_acked, on_reject, enable_symbol, set_halted,
  on_trading_action, set_limits, set_position, fill_slot, cancel_slot, reject_slot, retire,
  count_overfill, retire_if_done, decrement, left, count_sent, set_symbol, add_working, table_full,
  take_fill, take_cancel, take_reject, unknown_token,
}

-- The calls of the engine, without the reset by a human.
pub data RiskEvent : Type 0 where
  checks : OrderRequest → RiskEvent
  sends : OrderRequest → RiskEvent
  fills : List ℕ → ℕ → ℕ → RiskEvent
  cancels : List ℕ → ℕ → RiskEvent
  rejects : List ℕ → RiskEvent
  trips : List ℕ → RiskEvent
  enables : ℕ → Bool → RiskEvent
  halts : ℕ → Bool → RiskEvent
  trades : ℕ → ℕ → RiskEvent
  limits : RiskLimits → RiskEvent
  positions : ℕ → ℕ → RiskEvent

unfoldable pub on_event : RiskEvent → RiskEngine → RiskEngine
unfolding check_and_count on_order_sent on_fill on_cancel_acked on_reject trip_kill_switch
    enable_symbol set_halted on_trading_action set_limits set_position
on_event (checks r) e = (check_and_count r e).0
on_event (sends r) e = on_order_sent r e
on_event (fills t n p) e = on_fill t n p e
on_event (cancels t n) e = on_cancel_acked t n e
on_event (rejects t) e = on_reject t e
on_event (trips why) e = trip_kill_switch why e
on_event (enables q on) e = enable_symbol q on e
on_event (halts q on) e = set_halted q on e
on_event (trades q c) e = on_trading_action q c e
on_event (limits l) e = (set_limits l e).0
on_event (positions q n) e = set_position q n e

unfoldable pub run_events : RiskEngine → List RiskEvent → RiskEngine
unfolding on_event
run_events e [] = e
run_events e (v ∷ vs) = run_events (on_event v e) vs

-- The switch stays as it is, and so does the reason.
record IsKept (e e' : RiskEngine) : Type 0 where
  switch : e'.tripped ≡ e.tripped
  reason : e'.stats.kill_reason ≡ e.stats.kill_reason

IsKept-trans : {a b c : RiskEngine} → IsKept a b → IsKept b c → IsKept a c
IsKept-trans h k = record { switch = k.switch ∙ h.switch; reason = k.reason ∙ h.reason }

if-IsKept :
    {a : RiskEngine} (b : Bool) (x y : RiskEngine)
    → IsKept a x
    → IsKept a y
    → IsKept a (if b then x else y)
if-IsKept true x y h k = h
if-IsKept false x y h k = k

if_first :
    {a : RiskEngine} (b : Bool) (x y : RiskEngine × Bool)
    → IsKept a x.0
    → IsKept a y.0
    → IsKept a (if b then x else y).0
if_first true x y h k = h
if_first false x y h k = k

if_reason :
    (b : Bool) (x y : RiskStats)
    → x.kill_reason ≡ y.kill_reason
    → (if b then x else y).kill_reason ≡ y.kill_reason
if_reason true x y h = h
if_reason false x y h = refl

overfill-IsKept : (n l : ℕ) (t : RiskStats) → (count_overfill n l t).kill_reason ≡ t.kill_reason
overfill-IsKept n l t = if_reason (ltb l n) _ t refl

outcome-IsKept :
    (why : RiskReject) (t : RiskStats) → (count_outcome why t).kill_reason ≡ t.kill_reason
outcome-IsKept why t = ground arith

retire-IsKept : (slot : ℕ) (e : RiskEngine) → IsKept e (retire slot e)
unfolding retire
retire-IsKept slot e = record { switch = refl; reason = refl }

done-IsKept : (l slot : ℕ) (a e : RiskEngine) → IsKept a e → IsKept a (retire_if_done l slot e)
done-IsKept l slot a e h =
    if-IsKept (l == 0) (retire slot e) e (IsKept-trans h (retire-IsKept slot e)) h

take_fill-IsKept : (n p slot : ℕ) (e : RiskEngine) → IsKept e (take_fill n p slot e)
unfolding take_fill
take_fill-IsKept n p slot e = record {
  switch = refl;
  reason = overfill-IsKept n ((e.table.slots slot).leaves) e.stats;
}

take_cancel-IsKept : (n slot : ℕ) (e : RiskEngine) → IsKept e (take_cancel n slot e)
unfolding take_cancel
take_cancel-IsKept n slot e = record {
  switch = refl;
  reason = overfill-IsKept n ((e.table.slots slot).leaves) e.stats;
}

take_reject-IsKept : (slot : ℕ) (e : RiskEngine) → IsKept e (take_reject slot e)
unfolding take_reject
take_reject-IsKept slot e = record { switch = refl; reason = refl }

fill-IsKept : (n p slot : ℕ) (e : RiskEngine) → IsKept e (fill_slot n p slot e)
unfolding fill_slot
fill-IsKept n p slot e =
    done-IsKept (left n ((e.table.slots slot).leaves)) slot e (take_fill n p slot e)
      (take_fill-IsKept n p slot e)

cancel-IsKept : (n slot : ℕ) (e : RiskEngine) → IsKept e (cancel_slot n slot e)
unfolding cancel_slot
cancel-IsKept n slot e =
    let want = decrement n ((e.table.slots slot).leaves) in
    done-IsKept (left want ((e.table.slots slot).leaves)) slot e (take_cancel want slot e)
      (take_cancel-IsKept want slot e)

reject-IsKept : (slot : ℕ) (e : RiskEngine) → IsKept e (reject_slot slot e)
unfolding reject_slot
reject-IsKept slot e =
    IsKept-trans (take_reject-IsKept slot e) (retire-IsKept slot (take_reject slot e))

-- What holds of both results of a probe holds of the probe.
found-IsKept :
    {A : Type 0} {e : RiskEngine} (o : Option A) (x : RiskEngine) (f : A → RiskEngine)
    → IsKept e x
    → ((i : A) → IsKept e (f i))
    → IsKept e (elim o [ none ↦ x | some i ↦ f i ])
found-IsKept none x f h k = h
found-IsKept (some i) x f h k = k i

-- Once the switch is tripped, an event leaves it and its reason.
on_event-IsKept : (v : RiskEvent) (e : RiskEngine) → e.tripped ≡ true → IsKept e (on_event v e)
unfolding on_event check_and_count on_order_sent on_fill on_cancel_acked on_reject trip_kill_switch
    enable_symbol set_halted on_trading_action set_limits set_position
on_event-IsKept (checks r) e t = record {
  switch = refl;
  reason = outcome-IsKept (check r e) e.stats;
}
on_event-IsKept (sends r) e t =
    found-IsKept (insert_open r e.table)
      (trip_kill_switch table_full (record e {
        stats = record (e.stats) { table_insert_failed = inc64 e.stats.table_insert_failed };
      }))
      (λ i. count_sent r (set_symbol r.locate (add_working r) (record e { table = i })))
      (record {
        switch = sym t;
        reason = ap (λ b. if b then e.stats.kill_reason else some table_full) t;
      })
      (λ i. record { switch = refl; reason = refl })
on_event-IsKept (fills k n p) e t =
    found-IsKept (find_open e.table k) (unknown_token e) (λ i. fill_slot n p i e)
      (record { switch = refl; reason = refl }) (λ i. fill-IsKept n p i e)
on_event-IsKept (cancels k n) e t =
    found-IsKept (find_open e.table k) (unknown_token e) (λ i. cancel_slot n i e)
      (record { switch = refl; reason = refl }) (λ i. cancel-IsKept n i e)
on_event-IsKept (rejects k) e t =
    found-IsKept (find_open e.table k) (unknown_token e) (λ i. reject_slot i e)
      (record { switch = refl; reason = refl }) (λ i. reject-IsKept i e)
on_event-IsKept (trips why) e t = record {
  switch = sym t;
  reason = ap (λ b. if b then e.stats.kill_reason else some why) t;
}
on_event-IsKept (enables q on) e t = record { switch = refl; reason = refl }
on_event-IsKept (halts q on) e t = record { switch = refl; reason = refl }
on_event-IsKept (trades q c) e t = record { switch = refl; reason = refl }
on_event-IsKept (limits l) e t =
    if_first (e.open_orders == 0) _ (e, false) (record { switch = refl; reason = refl })
      (record { switch = refl; reason = refl })
on_event-IsKept (positions q n) e t = record { switch = refl; reason = refl }

run_events-IsKept :
    (vs : List RiskEvent) (e : RiskEngine) → e.tripped ≡ true → IsKept e (run_events e vs)
unfolding run_events
run_events-IsKept [] e t = record { switch = refl; reason = refl }
run_events-IsKept (v ∷ vs) e t =
    let one = on_event-IsKept v e t in
    IsKept-trans one (run_events-IsKept vs (on_event v e) (one.switch ∙ t))

refused :
    (b : Bool) (y : RiskReject)
    → b ≡ true
    → or_next (reject_if b RiskReject.kill_switch) y ≡ RiskReject.kill_switch
refused true y h = refl
refused false y h = ground arith

check_tripped :
    (r : OrderRequest) (e : RiskEngine) → e.tripped ≡ true → check r e ≡ RiskReject.kill_switch
unfolding check
check_tripped r e t = refused e.tripped _ t

-- After the switch is tripped, whatever checks, sends, fills, cancels, rejects, trips and changes of
-- configuration follow, every order is refused with KillSwitch, and the reason is still the one that
-- was given when it tripped. Premise: the switch was not tripped before.
pub tripped_refuses_all :
    (e : RiskEngine) (why : List ℕ) (vs : List RiskEvent)
    → e.tripped ≡ false
    → ((r : OrderRequest)
        → check r (run_events (trip_kill_switch why e) vs) ≡ RiskReject.kill_switch)
      × ((run_events (trip_kill_switch why e) vs).stats.kill_reason ≡ some why)
unfolding trip_kill_switch
tripped_refuses_all e why vs f =
    let kept = run_events-IsKept vs (trip_kill_switch why e) refl in
    (
      λ r. check_tripped r (run_events (trip_kill_switch why e) vs) kept.switch,
      kept.reason ∙ ap (λ b. if b then e.stats.kill_reason else some why) f,
    )
