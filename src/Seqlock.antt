-- ===== src/Seqlock.antt =====
-- include/tick/seqlock.hpp: one value of `n` bytes that one thread writes and others read. The steps of the
-- writer and of a reader interleave; each load, each store and each byte of a copy is a step, and a copy
-- takes its bytes in any order. The fences of the source keep the order of the steps that is written
-- here. A reader changes nothing that another thread reads, so one reader stands for each.
pub mod Invariant
pub mod Safety
pub mod Progress
pub mod Schedule
pub mod Stores
mod Tests
use tickerplant.Prelude.{
  ℕ, zero, suc, ◌+◌, ◌%◌, Bool, true, false, ◌&&◌, Option, none, some, List, [], ◌∷◌, ◌==◌, ltb,
  update, inc64, add64, if◌then◌else◌,
}

-- The bytes of a value, by index.
abbrev pub Bytes : Type 0
Bytes = ℕ → ℕ

-- Where the writer is in `store`: outside, behind the load of the counter, or copying, with the bytes
-- that it has copied.
pub data Writer : Type 0 where
  idle : Writer
  loaded : ℕ → Writer
  writing : ℕ → (ℕ → Bool) → Writer

-- Where a reader is in `try_load`: outside, copying, with the bytes that it has, or back with an answer.
pub data Reader : Type 0 where
  resting : Reader
  sampled : ℕ → (ℕ → Option ℕ) → Reader
  refused : Reader
  accepted : (ℕ → Option ℕ) → Reader

-- The object and the two threads. `round` counts the stores that are complete.
pub record SeqLock : Type 0 where
  pub seq : ℕ
  pub storage : Bytes
  pub round : ℕ
  pub writer : Writer
  pub reader : Reader

-- The constructor.
abbrev pub constructed : Bytes → SeqLock
constructed v = record {
  seq = 0;
  storage = v;
  round = 0;
  writer = Writer.idle;
  reader = Reader.resting;
}

pub data Action : Type 0 where
  load_own : Action
  begin_write : Action
  put_byte : ℕ → Action
  close : Action
  sample : Action
  get_byte : ℕ → Action
  recheck : Action

-- Whether a test holds below a bound.
unfoldable pub all_below : ℕ → (ℕ → Bool) → Bool
all_below zero p = true
all_below (suc n) p = let rest = all_below n p in if p n then rest else false

abbrev pub has_byte : (ℕ → Option ℕ) → ℕ → Bool
has_byte got i = elim (got i) [ none ↦ false | some b ↦ true ]

-- The values are those that the calls of `store` are given, the first of them the constructor's.
module _ (n : ℕ) (values : ℕ → Bytes) where
  -- The steps of `store`.
  abbrev pub load_step : Writer → SeqLock → Option SeqLock
  load_step Writer.idle s = some (record s { writer = Writer.loaded s.seq })
  load_step w s = none

  abbrev pub begin_step : Writer → SeqLock → Option SeqLock
  begin_step (Writer.loaded x) s =
      some (record s { seq = inc64 x; writer = Writer.writing x (λ i. false) })
  begin_step w s = none

  abbrev pub put_step : ℕ → Writer → SeqLock → Option SeqLock
  put_step i (Writer.writing x done) s =
      let t = record s {
        storage = update s.storage i (values (suc s.round) i);
        writer = Writer.writing x (update done i true);
      } in
      if ltb i n then some t else none
  put_step i w s = none

  abbrev pub close_step : Writer → SeqLock → Option SeqLock
  close_step (Writer.writing x done) s =
      let t = record s { seq = add64 x 2; round = suc s.round; writer = Writer.idle } in
      if all_below n done then some t else none
  close_step w s = none

  -- The steps of `try_load`. A caller may call it again.
  abbrev pub sample_step : SeqLock → SeqLock
  sample_step s = record s {
    reader = if s.seq % 2 == 0 then Reader.sampled s.seq (λ i. none) else Reader.refused;
  }

  abbrev pub start_step : Reader → SeqLock → Option SeqLock
  start_step (Reader.sampled x got) s = none
  start_step r s = some (sample_step s)

  abbrev pub get_step : ℕ → Reader → SeqLock → Option SeqLock
  get_step i (Reader.sampled x got) s =
      let t = record s { reader = Reader.sampled x (update got i (some (s.storage i))) } in
      if ltb i n then some t else none
  get_step i r s = none

  abbrev pub check_step : Reader → SeqLock → Option SeqLock
  check_step (Reader.sampled x got) s =
      let t = record s { reader = if x == s.seq then Reader.accepted got else Reader.refused } in
      if all_below n (has_byte got) then some t else none
  check_step r s = none

  unfoldable pub step : Action → SeqLock → Option SeqLock
  unfolding all_below
  step load_own s = load_step s.writer s
  step begin_write s = begin_step s.writer s
  step (put_byte i) s = put_step i s.writer s
  step close s = close_step s.writer s
  step sample s = start_step s.reader s
  step (get_byte i) s = get_step i s.reader s
  step recheck s = check_step s.reader s

  abbrev pub run_from : Option SeqLock → (SeqLock → Option SeqLock) → Option SeqLock
  run_from none f = none
  run_from (some s) f = f s

  -- An interleaving.
  unfoldable pub run : List Action → SeqLock → Option SeqLock
  unfolding step
  run [] s = some s
  run (a ∷ rest) s = run_from (step a s) (run rest)
