-- ===== src/Seqlock/Tests.antt =====
-- A store of two bytes and two attempts to read of include/tick/seqlock.hpp, to run.
use tickerplant.Prelude.{
  true, u64_mod, ◌%◌, ℕ, ◌+◌, ◌*◌, ◌<◌, ◌≡◌, refl, Option, none, some, List, [], ◌∷◌, arith, add64,
}
use tickerplant.Seqlock.{
  Bytes, Writer, Reader, SeqLock, Action, load_own, begin_write, put_byte, close, sample, get_byte,
  recheck, constructed, step, run, all_below,
}
use tickerplant.Seqlock.Invariant.{IsValid}
use tickerplant.Seqlock.Safety.{accepted_whole}
use tickerplant.Seqlock.Progress.{try_load_acts, try_load_alone}
use tickerplant.Seqlock.Schedule.{writer_part, store_acts, drive}
use tickerplant.Seqlock.Stores.{is_listed, store_completes}

abbrev values : ℕ → Bytes
values k i = 10 * k + i

-- The first attempt comes while the counter is odd, the second copies its bytes backwards.
abbrev acts : List Action
acts =
    load_own
    ∷ begin_write
    ∷ put_byte 1
    ∷ sample
    ∷ put_byte 0
    ∷ close
    ∷ sample
    ∷ get_byte 1
    ∷ load_own
    ∷ get_byte 0
    ∷ []

abbrev start : SeqLock
start = constructed (values 0)

abbrev state_of : Option SeqLock → SeqLock
state_of none = start
state_of (some s) = s

abbrev bytes_of : Reader → ℕ → Option ℕ
bytes_of (Reader.accepted got) = got
bytes_of r = λ i. none

abbrev before_check : SeqLock
before_check = state_of (run 2 values acts start)

abbrev after_check : SeqLock
after_check = state_of (step 2 values recheck before_check)

it_runs : run 2 values acts start ≡ some before_check
unfolding run step all_below add64
it_runs = refl

it_checks : step 2 values recheck before_check ≡ some after_check
unfolding run step all_below add64
it_checks = refl

it_accepts : after_check.reader ≡ Reader.accepted (bytes_of after_check.reader)
unfolding run step all_below add64
it_accepts = refl

accepted_whole_example : bytes_of after_check.reader 1 ≡ some (values before_check.round 1)
accepted_whole_example =
    accepted_whole 2 values acts before_check after_check (bytes_of after_check.reader)
      (omega arith) it_runs it_checks it_accepts 1 (omega arith)

start-IsValid : IsValid 2 values start
start-IsValid = ((refl, λ i h. refl), tt)

try_load_alone_example :
    (t : SeqLock) × (got : ℕ → Option ℕ) × (run 2 values (try_load_acts 2) start ≡ some t)
    × (t.reader ≡ Reader.accepted got)
    × ((i : ℕ) → i < 2 → got i ≡ some (values 0 i))
try_load_alone_example = try_load_alone 2 values start start-IsValid refl refl

-- A store while a reader samples, copies one byte and looks again.
abbrev mixed : List Action
mixed =
    sample
    ∷ load_own
    ∷ begin_write
    ∷ get_byte 0
    ∷ put_byte 1
    ∷ recheck
    ∷ get_byte 1
    ∷ put_byte 0
    ∷ recheck
    ∷ close
    ∷ sample
    ∷ []

mixed_stores : writer_part mixed ≡ store_acts (1 ∷ 0 ∷ [])
unfolding writer_part
mixed_stores = refl

mixed_all : (i : ℕ) → i < 2 → is_listed i (1 ∷ 0 ∷ []) ≡ true
unfolding is_listed
mixed_all i h = ground arith

store_completes_example :
    (t : SeqLock) × (drive 2 values mixed start ≡ some t)
    × (t.writer ≡ Writer.idle)
    × (t.seq ≡ 2 % u64_mod)
    × (t.round ≡ 1)
    × ((i : ℕ) → i < 2 → t.storage i ≡ values 1 i)
store_completes_example =
    store_completes 2 values (1 ∷ 0 ∷ []) mixed start mixed_stores (omega arith, (omega arith, tt))
      mixed_all refl
