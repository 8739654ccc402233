-- ===== src/OrderMap/Tests.antt =====
-- Runs of the table of include/tick/flat_order_map.hpp.
use tickerplant.Prelude.{
  ℕ, ◌≡◌, ◌≢◌, ◌↔◌, refl, true, false, none, some, List, [], ◌∷◌, arith, length,
}
use tickerplant.OrderMap.Table.{
  FlatOrderMap, empty, make, split_mix_64, identity_hash, entries_upto, insert, erase, find,
}
use tickerplant.OrderMap.Refines.{
  Call, Answer, run, run_reference, make-run_reference, run-Agrees, Agrees,
}
use tickerplant.OrderMap.Valid.{IsTable}
use tickerplant.OrderMap.Grow.{blank-IsSound}
use tickerplant.OrderMap.Get.{get}
use tickerplant.OrderMap.Calls.{get_blank}
use tickerplant.OrderMap.Entries.{Listed, entries-get}

-- Keys that share a home, growth from one slot, a removal that shifts, and a key that is put twice.
abbrev calls : List (Call ℕ)
calls =
    Call.put 8 1
    ∷ Call.put 16 2
    ∷ Call.put 24 3
    ∷ Call.put 8 4
    ∷ Call.remove 8
    ∷ Call.look 24
    ∷ Call.look 8
    ∷ Call.put 0 9
    ∷ Call.remove 5
    ∷ Call.clear_all
    ∷ Call.look 16
    ∷ []

run_identity :
    (run identity_hash 0 calls (empty 0 1)).1
    ≡ Answer.flag true
      ∷ Answer.flag true
      ∷ Answer.flag true
      ∷ Answer.flag false
      ∷ Answer.flag true
      ∷ Answer.value (some 3)
      ∷ Answer.value none
      ∷ Answer.flag false
      ∷ Answer.flag false
      ∷ Answer.done
      ∷ Answer.value none
      ∷ []
unfolding run insert erase find
run_identity = refl

make-run_reference_example :
    (t : FlatOrderMap ℕ) × (make 0 1 ≡ some t)
    × ((cs : List (Call ℕ)) → (run split_mix_64 0 cs t).1 ≡ (run_reference cs (λ y. none)).1)
make-run_reference_example = make-run_reference split_mix_64 0 1 (omega arith)

one_slot : IsTable {V = ℕ} identity_hash (empty 0 1)
one_slot = (blank-IsSound identity_hash (empty 0 1) 0 refl refl (λ i. refl) refl, omega arith)

one_slot-Agrees : Agrees {V = ℕ} identity_hash (empty 0 1) (λ y. none)
one_slot-Agrees = (one_slot, get_blank identity_hash (empty 0 1) one_slot (λ i. refl))

run-Agrees_example :
    ((run identity_hash 0 calls (empty 0 1)).1 ≡ (run_reference calls (λ y. none)).1)
    × Agrees identity_hash
        (run identity_hash 0 calls (empty 0 1)).0
        (run_reference calls (λ y. none)).0
run-Agrees_example = run-Agrees identity_hash 0 calls (empty 0 1) (λ y. none) one_slot-Agrees

-- Three orders, the first of them removed.
abbrev three : List (Call ℕ)
three = Call.put 8 1 ∷ Call.put 16 2 ∷ Call.put 24 3 ∷ Call.remove 8 ∷ []

abbrev two_left : FlatOrderMap ℕ
two_left = (run identity_hash 0 three (empty 0 1)).0

two_left-IsTable : IsTable identity_hash two_left
two_left-IsTable = (run-Agrees identity_hash 0 three (empty 0 1) (λ y. none) one_slot-Agrees).1.0

entries-get_example :
    (length (entries_upto two_left.cap two_left) ≡ two_left.size)
    × ((x : ℕ) (v : ℕ)
        → x ≢ 0
        → Listed x v (entries_upto two_left.cap two_left) ↔ (get identity_hash two_left x ≡ some v))
entries-get_example = entries-get identity_hash two_left two_left-IsTable
