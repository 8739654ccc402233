-- ===== src/Seqlock/Stores.antt =====
-- include/tick/seqlock.hpp: a `store` completes, whatever a reader does between its steps.
use tickerplant.Prelude.{
  inc64, ℕ, suc, ◌+◌, ◌%◌, ◌<◌, ◌≡◌, refl, sym, ap, ◌∙◌, Bool, true, false, Bool-cases, inl, inr,
  none, some, List, [], ◌∷◌, All, ==_iff, ◌==◌, lt→ltb, update, add64, u64_mod, if◌then◌else◌,
}
use tickerplant.Seqlock.{
  Bytes, Writer, SeqLock, Action, load_own, begin_write, put_byte, close, load_step, put_step,
  close_step, all_below, step, run_from,
}
use tickerplant.Seqlock.Invariant.{Holds, false-true}
use tickerplant.Seqlock.Progress.{all_below-each}
use tickerplant.Seqlock.Schedule.{writer_part, puts, store_acts, drive, next_writer, no_writer}

-- Whether an index is in a list.
unfoldable pub is_listed : ℕ → List ℕ → Bool
is_listed i [] = false
is_listed i (j ∷ js) = let rest = is_listed i js in if i == j then true else rest

either_true : (b : Bool) → (if b then true else true) ≡ true
either_true true = refl
either_true false = refl

module _ (n : ℕ) (values : ℕ → Bytes) where
  -- A state in which the store that was the next one after `k`, begun at the counter `x`, is complete.
  pub record IsStored (x k : ℕ) (t : SeqLock) : Type 0 where
    pub idle : t.writer ≡ Writer.idle
    pub seq : t.seq ≡ (x + 2) % u64_mod
    pub round : t.round ≡ suc k
    pub storage : Holds n values (suc k) t.storage

  -- The bytes that are copied already, or are in the rest of the order.
  copy_completes :
      (order : List ℕ) (acts : List Action) (x : ℕ) (done : ℕ → Bool) (s : SeqLock)
      → writer_part acts ≡ puts order (close ∷ [])
      → All (λ i. i < n) order
      → s.writer ≡ Writer.writing x done
      → ((i : ℕ) → i < n → (if is_listed i order then true else done i) ≡ true)
      → ((i : ℕ) → i < n → done i ≡ true → s.storage i ≡ values (suc s.round) i)
      → (t : SeqLock) × (drive n values acts s ≡ some t) × IsStored x s.round t
  unfolding step is_listed add64
  copy_completes [] acts x done s e inside at every copied =
      let (rest, r, f, g) = next_writer n values acts s close [] e in
      let whole : all_below n done ≡ true = all_below-each n done every in
      let s1 : SeqLock = record s {
        seq = add64 x 2;
        round = suc s.round;
        writer = Writer.idle;
        reader = r;
      } in
      let (r', h) = no_writer n values rest s1 g in
      (
        record s1 { reader = r' },
        f
            ∙ (ap
                  (λ y.
                    run_from n values (close_step n values y (record s { reader = r }))
                      (drive n values rest))
                  at
                ∙ ap (λ c. run_from n values (if c then some s1 else none) (drive n values rest))
                    whole)
            ∙ h,
        record { idle = refl; seq = refl; round = refl; storage = λ i k. copied i k (every i k) },
      )
  copy_completes (j ∷ order) acts x done s e inside at every copied =
      let (rest, r, f, g) = next_writer n values acts s (put_byte j) (puts order (close ∷ [])) e in
      let v = values (suc s.round) j in
      let s1 : SeqLock = record s {
        storage = update s.storage j v;
        writer = Writer.writing x (update done j true);
        reader = r;
      } in
      let (t, h, stored) =
        copy_completes order rest x (update done j true) s1 g inside.1 refl
          (λ i k. elim (Bool-cases (i == j)) [
            | inl same ↦
                ap (λ c. if is_listed i order then true else (if c then true else done i)) same
                ∙ either_true (is_listed i order)
            | inr other ↦
                ap (λ c. if is_listed i order then true else (if c then true else done i)) other
                ∙ sym (
                    ap (λ c. if (if c then true else is_listed i order) then true else done i)
                      other)
                ∙ every i k
          ])
          (λ i k m. elim (Bool-cases (i == j)) [
            | inl same ↦
                ap (λ c. if c then v else s.storage i) same
                ∙ ap (values (suc s.round)) (sym ((==_iff i j).0 same))
            | inr other ↦
                ap (λ c. if c then v else s.storage i) other
                ∙ copied i k (ap (λ c. if c then true else done i) (sym other) ∙ m)
          ]) in
      (
        t,
        f
            ∙ (ap
                  (λ y.
                    run_from n values (put_step n values j y (record s { reader = r }))
                      (drive n values rest))
                  at
                ∙ ap (λ c. run_from n values (if c then some s1 else none) (drive n values rest))
                    (lt→ltb j n inside.0))
            ∙ h,
        stored,
      )

  store_begins :
      (order : List ℕ) (acts : List Action) (s : SeqLock)
      → writer_part acts ≡ store_acts order
      → All (λ i. i < n) order
      → ((i : ℕ) → i < n → is_listed i order ≡ true)
      → s.writer ≡ Writer.idle
      → (t : SeqLock) × (drive n values acts s ≡ some t) × IsStored s.seq s.round t
  unfolding step
  store_begins order acts s e inside every quiet =
      let (acts1, r1, f1, g1) =
        next_writer n values acts s load_own (begin_write ∷ puts order (close ∷ [])) e in
      let s1 : SeqLock = record s { writer = Writer.loaded s.seq; reader = r1 } in
      let (acts2, r2, f2, g2) =
        next_writer n values acts1 s1 begin_write (puts order (close ∷ [])) g1 in
      let s2 : SeqLock = record s {
        seq = inc64 s.seq;
        writer = Writer.writing s.seq (λ i. false);
        reader = r2;
      } in
      let (t, h, stored) =
        copy_completes order acts2 s.seq (λ i. false) s2 g2 inside refl
          (λ i k. ap (λ c. if c then true else false) (every i k))
          (λ i k m. absurd (false-true m)) in
      let loads : drive n values acts s ≡ drive n values acts1 s1 =
        f1
        ∙ ap
            (λ y.
              run_from n values (load_step n values y (record s { reader = r1 }))
                (drive n values acts1))
            quiet in
      (t, loads ∙ f2 ∙ h, stored)

  -- From any state with the writer outside `store`, with the steps of a `store` and of a reader in any
  -- order and the bytes copied in any order that has each: every step of the store is possible when its
  -- turn comes, whatever the reader did, and at the end the counter is two on, as a word of 64 bits, the
  -- storage is the value that was stored, and the writer is outside again with one store more complete.
  pub store_completes :
      (order : List ℕ) (acts : List Action) (s : SeqLock)
      → writer_part acts ≡ store_acts order
      → All (λ i. i < n) order
      → ((i : ℕ) → i < n → is_listed i order ≡ true)
      → s.writer ≡ Writer.idle
      → (t : SeqLock) × (drive n values acts s ≡ some t)
        × (t.writer ≡ Writer.idle)
        × (t.seq ≡ (s.seq + 2) % u64_mod)
        × (t.round ≡ suc s.round)
        × ((i : ℕ) → i < n → t.storage i ≡ values (suc s.round) i)
  store_completes order acts s e inside every quiet =
      let (t, h, stored) = store_begins order acts s e inside every quiet in
      (t, h, stored.idle, stored.seq, stored.round, stored.storage)
