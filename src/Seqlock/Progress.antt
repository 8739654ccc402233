-- ===== src/Seqlock/Progress.antt =====
-- include/tick/seqlock.hpp: a reader that no writer disturbs succeeds at once.
use tickerplant.Prelude.{
  ℕ, zero, suc, ◌*◌, ◌%◌, ◌<◌, ◌≤◌, ◌≡◌, refl, sym, ap, ◌∙◌, subst, Bool, true, false, Bool-cases,
  inl, inr, Option, none, some, List, [], ◌∷◌, ==_iff, arith, ◌==◌, ltb, lt→ltb, update,
  if◌then◌else◌,
}
use tickerplant.Seqlock.{
  Bytes, Writer, Reader, SeqLock, Action, sample, get_byte, start_step, sample_step, recheck,
  has_byte, all_below, step, run, run_from,
}
use tickerplant.Seqlock.Invariant.{WriterAgrees, IsValid, Holds}

pub all_below-each : (n : ℕ) (p : ℕ → Bool) → ((i : ℕ) → i < n → p i ≡ true) → all_below n p ≡ true
unfolding all_below
all_below-each zero p h = refl
all_below-each (suc n) p h = rw (h n (omega arith)) (all_below-each n p (λ i k. h i (omega arith)))

-- The steps of a copy of `m` bytes, and what follows them.
unfoldable pub gets : ℕ → List Action → List Action
gets zero rest = rest
gets (suc m) rest = get_byte m ∷ gets m rest

-- A call of `try_load`.
abbrev pub try_load_acts : ℕ → List Action
try_load_acts n = sample ∷ gets n (recheck ∷ [])

module _ (n : ℕ) (values : ℕ → Bytes) where
  -- The bytes that a reader has when it has copied `m` more.
  filled : ℕ → Bytes → (ℕ → Option ℕ) → ℕ → Option ℕ
  filled zero storage got = got
  filled (suc m) storage got = filled m storage (update got m (some (storage m)))

  run-gets :
      (m : ℕ) (rest : List Action) (s : SeqLock) (x : ℕ) (got : ℕ → Option ℕ)
      → m ≤ n
      → run n values (gets m rest) (record s { reader = Reader.sampled x got })
        ≡ run n values rest (record s { reader = Reader.sampled x (filled m s.storage got) })
  unfolding run step gets filled
  run-gets zero rest s x got h = refl
  run-gets (suc m) rest s x got h =
      let inside : ltb m n ≡ true = lt→ltb m n (omega arith) in
      rw inside (run-gets m rest s x (update got m (some (s.storage m))) (omega arith))

  filled_keeps :
      (m : ℕ) (storage : Bytes) (got : ℕ → Option ℕ) (i : ℕ)
      → got i ≡ some (storage i)
      → filled m storage got i ≡ some (storage i)
  unfolding filled
  filled_keeps zero storage got i h = h
  filled_keeps (suc m) storage got i h =
      filled_keeps m storage (update got m (some (storage m))) i (elim (Bool-cases (i == m)) [
        | inl e ↦ rw e (ap (λ k. some (storage k)) (sym ((==_iff i m).0 e)))
        | inr e ↦ rw e h
      ])

  filled_all :
      (m : ℕ) (storage : Bytes) (got : ℕ → Option ℕ) (i : ℕ)
      → i < m
      → filled m storage got i ≡ some (storage i)
  unfolding filled
  filled_all zero storage got i h = absurd (omega arith)
  filled_all (suc m) storage got i h = elim (Bool-cases (i == m)) [
    | inl e ↦
        filled_keeps m storage (update got m (some (storage m))) i
          (rw e (ap (λ k. some (storage k)) (sym ((==_iff i m).0 e))))
    | inr e ↦ filled_all m storage (update got m (some (storage m))) i (ground (arith, e))
  ]

  has_every : (storage : Bytes) → all_below n (has_byte (filled n storage (λ i. none))) ≡ true
  has_every storage = all_below-each n (has_byte (filled n storage (λ i. none))) (λ i h.
      ap (λ m. elim m [ none ↦ false | some b ↦ true ]) (filled_all n storage (λ i. none) i h))

  run-try_load :
      (s : SeqLock)
      → start_step n values s.reader s ≡ some (sample_step n values s)
      → (s.seq % 2 == 0) ≡ true
      → run n values (try_load_acts n) s
        ≡ some (record s { reader = Reader.accepted (filled n s.storage (λ i. none)) })
  unfolding run step
  run-try_load s e even =
      let got = filled n s.storage (λ i. none) in
      let self : (s.seq == s.seq) ≡ true = (==_iff s.seq s.seq).1 refl in
      let every = has_every s.storage in
      let last : run n values (recheck ∷ []) (record s { reader = Reader.sampled s.seq got })
          ≡ some (record s { reader = Reader.accepted got }) =
        rw (every, self) refl in
      ap (λ m. run_from n values m (run n values (gets n (recheck ∷ [])))) e
      ∙ ap
          (λ c.
            run n values (gets n (recheck ∷ [])) (record s {
              reader = if c then Reader.sampled s.seq (λ i. none) else Reader.refused;
            }))
          even
      ∙ run-gets n (recheck ∷ []) s s.seq (λ i. none) (omega arith)
      ∙ last

  calm :
      (k seq : ℕ) (storage : Bytes) (w : Writer)
      → w ≡ Writer.idle
      → WriterAgrees n values k seq storage w
      → (seq ≡ 2 * k) × Holds n values k storage
  calm k seq storage w e h = subst (WriterAgrees n values k seq storage) e h

  -- A reader that is not in a `try_load`, while the writer is outside `store`: its next `try_load`,
  -- run alone, succeeds with the value of the last store, however many attempts failed before.
  pub try_load_alone :
      (s : SeqLock)
      → IsValid n values s
      → s.writer ≡ Writer.idle
      → start_step n values s.reader s ≡ some (sample_step n values s)
      → (t : SeqLock) × (got : ℕ → Option ℕ) × (run n values (try_load_acts n) s ≡ some t)
        × (t.reader ≡ Reader.accepted got)
        × ((i : ℕ) → i < n → got i ≡ some (values s.round i))
  try_load_alone s valid quiet e =
      let got = filled n s.storage (λ i. none) in
      let (at, holds) = calm s.round s.seq s.storage s.writer quiet valid.0 in
      let even : (s.seq % 2 == 0) ≡ true = (==_iff (s.seq % 2) 0).1 (omega (arith, at)) in
      (
        record s { reader = Reader.accepted got },
        got,
        run-try_load s e even,
        refl,
        λ i h. filled_all n s.storage (λ i. none) i h ∙ ap some (holds i h),
      )
