-- ===== src/OrderMap/Erased.antt =====
-- The loop of the backward shift of include/tick/flat_order_map.hpp: it ends, and leaves a table that
-- holds the same with every probe whole.
use Prim.Native.Nat.{bit_and}
use tickerplant.Prelude.{
  ℕ, zero, suc, ◌+◌, ◌-◌, ◌≤◌, ◌<◌, ◌≡◌, ◌≢◌, refl, sym, ap, ◌∙◌, Bool-cases, inl, inr, ==_iff,
  arith, ◌==◌,
}
use tickerplant.OrderMap.Table.{FlatOrderMap, next, slot, shift_back, cyclically_between}
use tickerplant.OrderMap.Ring.{fwd, fwd_below, fwd-fwd, fwd_zero}
use tickerplant.OrderMap.Probe.{IsProbed}
use tickerplant.OrderMap.Shift.{IsShifting, stop-IsProbed, stay-IsShifting, cursor-ne-hole}
use tickerplant.OrderMap.Move.{move-IsShifting}
use tickerplant.OrderMap.Held.{IsSame, IsSame-refl, IsSame-trans, move_entry, move_entry-IsSame}
use tickerplant.OrderMap.Free.{free, free-move_entry}

-- The home of a key.
abbrev pub home_of : (ℕ → ℕ) → ℕ → ℕ → ℕ
home_of hash mask x = bit_and (hash x) mask

pub record IsShifted {V : Type 0} (hash : ℕ → ℕ) (t t' : FlatOrderMap V) : Type 0 where
  pub same : IsSame t t'
  pub probed : IsProbed t.cap (home_of hash t.mask) t'.keys
  pub free : free t.cap t'.keys ≡ free t.cap t.keys

pub shift_back-IsShifted :
    {V : Type 0} (hash : ℕ → ℕ) (f hole d g j : ℕ) (t : FlatOrderMap V)
    → ((i : ℕ) → i < t.cap → next t.mask i ≡ fwd t.cap i 1)
    → ((x : ℕ) → home_of hash t.mask x < t.cap)
    → j ≡ fwd t.cap hole d
    → g ≤ f
    → IsShifting t.cap (home_of hash t.mask) t.keys hole d g
    → IsShifted hash t (shift_back hash f hole j t)
unfolding shift_back slot
shift_back-IsShifted hash zero hole d g j t nexts below at enough s =
    absurd (omega (arith, s.ahead))
shift_back-IsShifted hash (suc f) hole d g j t nexts below at enough s =
    let home = home_of hash t.mask in
    let cursor = fwd t.cap hole (d + 1) in
    let small : d + 1 < t.cap = omega (arith, s.room, s.ahead) in
    let cb : cursor < t.cap = fwd_below t.cap hole s.below (d + 1) small in
    let on : next t.mask j ≡ cursor =
      ap (next t.mask) at
      ∙ nexts (fwd t.cap hole d) (fwd_below t.cap hole s.below d (omega arith))
      ∙ fwd-fwd t.cap hole s.below d 1 small in
    elim (Bool-cases (t.keys cursor == 0)) [
      | inl empty ↦
          rw (on, empty)
            (record {
              same = IsSame-refl t;
              probed =
                  stop-IsProbed t.cap home below t.keys hole d g s
                    ((==_iff (t.keys cursor) 0).0 empty);
              free = refl;
            })
      | inr full ↦
          let taken : t.keys cursor ≢ 0 = λ e. ground (arith, e) in
          elim (Bool-cases (cyclically_between hole (home (t.keys cursor)) cursor)) [
            | inl b ↦
                rw (on, full, b)
                  (shift_back-IsShifted hash f hole (d + 1) (g - 1) cursor t nexts below refl
                    (omega arith) (stay-IsShifting t.cap home below t.keys hole d g s taken b))
            | inr b ↦
                let apart : cursor ≢ hole = cursor-ne-hole t.cap home below t.keys hole d g s in
                let t' = move_entry hole cursor t in
                let rest =
                  shift_back-IsShifted hash f cursor 0 (g - 1) cursor t' nexts below
                    (sym (fwd_zero t.cap cursor cb)) (omega arith)
                    (move-IsShifting t.cap home below t.keys hole d g s taken b) in
                rw (on, full, b)
                  (record {
                    same =
                        IsSame-trans t t' (shift_back hash f cursor cursor t')
                          (move_entry-IsSame hole cursor t s.below cb apart s.here) rest.same;
                    probed = rest.probed;
                    free = rest.free ∙ free-move_entry hole cursor t s.below cb apart s.here taken;
                  })
          ]
    ]
