-- ===== src/Seqlock/Invariant.antt =====
-- include/tick/seqlock.hpp: what holds between two steps, and that a value that a reader accepts is whole.
use native.Mathlib.Decide.{ℕ_discrete}
use tickerplant.Prelude.{
  ℕ, zero, suc, ◌+◌, ◌*◌, ◌%◌, ◌<◌, ◌≤◌, ◌≡◌, refl, sym, ap, ◌∙◌, subst, Bool, true, false,
  Bool-cases, inl, inr, Option, none, some, ==_iff, arith, ◌==◌, inc64, add64, u64_mod,
  if◌then◌else◌, some-injective, none-ne-some, ltb→lt,
}
use tickerplant.Seqlock.{
  Bytes, Writer, Reader, SeqLock, Action, load_own, begin_write, put_byte, close, sample, get_byte,
  recheck, all_below, has_byte, load_step, begin_step, put_step, close_step, start_step, get_step,
  check_step, step,
}

pub false-true : false ≡ true → ⊥
false-true h = absurd (cc h)

-- A step that its guard let through.
pub granted :
    {A : Type 0} {b : Bool} {t u : A} → (if b then some t else none) ≡ some u → (b ≡ true) × (t ≡ u)
granted {b = true} e = (refl, some-injective e)
granted {b = false} e = absurd (none-ne-some none refl e)

pub byte_there :
    (m : Option ℕ) (v : ℕ)
    → elim m [ none ↦ false | some b ↦ true ] ≡ true
    → ((b : ℕ) → m ≡ some b → b ≡ v)
    → m ≡ some v
byte_there none v h f = absurd (false-true h)
byte_there (some b) v h f = ap some (f b refl)

pub all_below-at : (n : ℕ) (p : ℕ → Bool) → all_below n p ≡ true → (i : ℕ) → i < n → p i ≡ true
unfolding all_below
all_below-at zero p h i k = absurd (omega arith)
all_below-at (suc n) p h i k = elim (Bool-cases (p n)) [
  | inl e ↦
      let tail : all_below n p ≡ true = ap (λ c. if c then all_below n p else false) (sym e) ∙ h in
      elim (ℕ_discrete i n) [ yes k ↦ ap p k ∙ e | no m ↦ all_below-at n p tail i (omega arith) ]
  | inr e ↦ absurd (false-true (ap (λ c. if c then all_below n p else false) (sym e) ∙ h))
]

module _ (n : ℕ) (values : ℕ → Bytes) where
  -- The storage is a value.
  abbrev pub Holds : ℕ → Bytes → Type 0
  Holds k storage = (i : ℕ) → i < n → storage i ≡ values k i

  -- What the counter and the storage are, by where the writer is, with `k` stores complete.
  abbrev pub WriterAgrees : ℕ → ℕ → Bytes → Writer → Type 0
  WriterAgrees k seq storage Writer.idle = (seq ≡ 2 * k) × Holds k storage
  WriterAgrees k seq storage (Writer.loaded x) = (x ≡ seq) × (seq ≡ 2 * k) × Holds k storage
  WriterAgrees k seq storage (Writer.writing x done) =
      (x ≡ 2 * k)
      × (seq ≡ 2 * k + 1)
      × ((i : ℕ) → i < n → done i ≡ true → storage i ≡ values (suc k) i)

  -- What a reader has is of one value while the counter is what it sampled.
  abbrev pub ReaderAgrees : ℕ → ℕ → Reader → Type 0
  ReaderAgrees k seq Reader.resting = Unit
  ReaderAgrees k seq Reader.refused = Unit
  ReaderAgrees k seq (Reader.sampled x got) =
      (x % 2 ≡ 0) × (x ≤ seq) × (x ≡ seq → (i b : ℕ) → i < n → got i ≡ some b → b ≡ values k i)
  ReaderAgrees k seq (Reader.accepted got) =
      (j : ℕ) × (j ≤ k) × ((i : ℕ) → i < n → got i ≡ some (values j i))

  abbrev pub IsValid : SeqLock → Type 0
  IsValid s = WriterAgrees s.round s.seq s.storage s.writer × ReaderAgrees s.round s.seq s.reader

  -- A step of the writer that moves the counter on leaves a reader with nothing to accept.
  moved_on :
      (k k' seq seq' : ℕ) (r : Reader)
      → seq < seq'
      → k ≤ k'
      → ReaderAgrees k seq r
      → ReaderAgrees k' seq' r
  moved_on k k' seq seq' Reader.resting h g a = tt
  moved_on k k' seq seq' Reader.refused h g a = tt
  moved_on k k' seq seq' (Reader.sampled x got) h g a =
      (a.0, omega (arith, a.1), λ e. absurd (omega (arith, e, a.1)))
  moved_on k k' seq seq' (Reader.accepted got) h g (j, below, whole) = (j, omega arith, whole)

  load-IsValid :
      (w : Writer) (s t : SeqLock)
      → WriterAgrees s.round s.seq s.storage w
      → ReaderAgrees s.round s.seq s.reader
      → load_step n values w s ≡ some t
      → IsValid t
  load-IsValid Writer.idle s t h g e = subst IsValid (some-injective e) ((refl, h.0, h.1), g)
  load-IsValid (Writer.loaded x) s t h g e = absurd (none-ne-some none refl e)
  load-IsValid (Writer.writing x done) s t h g e = absurd (none-ne-some none refl e)

  begin-IsValid :
      (w : Writer) (s t : SeqLock)
      → 2 * s.round + 2 < u64_mod
      → WriterAgrees s.round s.seq s.storage w
      → ReaderAgrees s.round s.seq s.reader
      → begin_step n values w s ≡ some t
      → IsValid t
  unfolding add64
  begin-IsValid Writer.idle s t small h g e = absurd (none-ne-some none refl e)
  begin-IsValid (Writer.loaded x) s t small h g e =
      let next : inc64 x ≡ 2 * s.round + 1 = omega (arith, h.0, h.1) in
      let later : s.seq < inc64 x = omega (arith, next, h.1) in
      subst IsValid (some-injective e) (
        (omega (arith, h.0, h.1), next, λ i k m. absurd (false-true m)),
        moved_on s.round s.round s.seq (inc64 x) s.reader later (omega arith) g,
      )
  begin-IsValid (Writer.writing x done) s t small h g e = absurd (none-ne-some none refl e)

  put-IsValid :
      (i : ℕ) (w : Writer) (s t : SeqLock)
      → WriterAgrees s.round s.seq s.storage w
      → ReaderAgrees s.round s.seq s.reader
      → put_step n values i w s ≡ some t
      → IsValid t
  put-IsValid i Writer.idle s t h g e = absurd (none-ne-some none refl e)
  put-IsValid i (Writer.loaded x) s t h g e = absurd (none-ne-some none refl e)
  put-IsValid i (Writer.writing x done) s t h g e =
      let v = values (suc s.round) i in
      let (inside, same_state) = granted e in
      subst IsValid same_state (
        (
          h.0,
          h.1,
          λ j k m. elim (Bool-cases (j == i)) [
            | inl same ↦
                ap (λ c. if c then v else s.storage j) same
                ∙ ap (values (suc s.round)) (sym ((==_iff j i).0 same))
            | inr other ↦
                ap (λ c. if c then v else s.storage j) other
                ∙ h.2 j k (ap (λ c. if c then true else done j) (sym other) ∙ m)
          ],
        ),
        g,
      )

  close-IsValid :
      (w : Writer) (s t : SeqLock)
      → 2 * s.round + 2 < u64_mod
      → WriterAgrees s.round s.seq s.storage w
      → ReaderAgrees s.round s.seq s.reader
      → close_step n values w s ≡ some t
      → IsValid t
  unfolding add64
  close-IsValid Writer.idle s t small h g e = absurd (none-ne-some none refl e)
  close-IsValid (Writer.loaded x) s t small h g e = absurd (none-ne-some none refl e)
  close-IsValid (Writer.writing x done) s t small h g e =
      let next : add64 x 2 ≡ 2 * suc s.round = omega (arith, h.0) in
      let (whole, same_state) = granted e in
      subst IsValid same_state (
        (next, λ i k. h.2 i k (all_below-at n done whole i k)),
        moved_on s.round (suc s.round) s.seq (add64 x 2) s.reader (omega (arith, next, h.1))
            (omega arith) g,
      )

  sample-ReaderAgrees :
      (k : ℕ) (s : SeqLock) (b : Bool)
      → (s.seq % 2 == 0) ≡ b
      → WriterAgrees k s.seq s.storage s.writer
      → ReaderAgrees k s.seq
          (if s.seq % 2 == 0 then Reader.sampled s.seq (λ i. none) else Reader.refused)
  sample-ReaderAgrees k s true e h =
      subst
        (λ c. ReaderAgrees k s.seq (if c then Reader.sampled s.seq (λ i. none) else Reader.refused))
        (sym e)
        (
          (==_iff (s.seq % 2) 0).0 e,
          omega arith,
          λ m i b small found. absurd (none-ne-some none refl found),
        )
  sample-ReaderAgrees k s false e h =
      subst
        (λ c. ReaderAgrees k s.seq (if c then Reader.sampled s.seq (λ i. none) else Reader.refused))
        (sym e) tt

  start-IsValid :
      (r : Reader) (s t : SeqLock)
      → WriterAgrees s.round s.seq s.storage s.writer
      → start_step n values r s ≡ some t
      → IsValid t
  start-IsValid Reader.resting s t h e =
      subst IsValid (some-injective e) (h, sample-ReaderAgrees s.round s _ refl h)
  start-IsValid Reader.refused s t h e =
      subst IsValid (some-injective e) (h, sample-ReaderAgrees s.round s _ refl h)
  start-IsValid (Reader.accepted got) s t h e =
      subst IsValid (some-injective e) (h, sample-ReaderAgrees s.round s _ refl h)
  start-IsValid (Reader.sampled x got) s t h e = absurd (none-ne-some none refl e)

  -- While the counter is even and has not moved, the storage is the last value stored.
  stable :
      (k seq : ℕ) (storage : Bytes) (w : Writer)
      → seq % 2 ≡ 0
      → WriterAgrees k seq storage w
      → Holds k storage
  stable k seq storage Writer.idle even h = h.1
  stable k seq storage (Writer.loaded x) even h = h.2
  stable k seq storage (Writer.writing x done) even h = absurd (omega (arith, h.1, even))

  get-IsValid :
      (i : ℕ) (r : Reader) (s t : SeqLock)
      → WriterAgrees s.round s.seq s.storage s.writer
      → ReaderAgrees s.round s.seq r
      → get_step n values i r s ≡ some t
      → IsValid t
  get-IsValid i Reader.resting s t h g e = absurd (none-ne-some none refl e)
  get-IsValid i Reader.refused s t h g e = absurd (none-ne-some none refl e)
  get-IsValid i (Reader.accepted got) s t h g e = absurd (none-ne-some none refl e)
  get-IsValid i (Reader.sampled x got) s t h g e =
      let (inside, same_state) = granted e in
      subst IsValid same_state (
        h,
        (
          g.0,
          g.1,
          λ still j b k found. elim (Bool-cases (j == i)) [
            | inl same ↦
                some-injective (sym found ∙ ap (λ c. if c then some (s.storage i) else got j) same)
                ∙ stable s.round s.seq s.storage s.writer (subst (λ y. y % 2 ≡ 0) still g.0) h i
                    (ltb→lt i n inside)
                ∙ ap (values s.round) (sym ((==_iff j i).0 same))
            | inr other ↦
                g.2 still j b k
                  (ap (λ c. if c then some (s.storage i) else got j) (sym other) ∙ found)
          ],
        ),
      )

  -- A reader that has every byte, and finds the counter where it was, has the last value stored.
  pub accept_whole :
      (k seq x : ℕ) (got : ℕ → Option ℕ) (b : Bool)
      → (x == seq) ≡ b
      → ReaderAgrees k seq (Reader.sampled x got)
      → ((i : ℕ) → i < n → has_byte got i ≡ true)
      → ReaderAgrees k seq (if x == seq then Reader.accepted got else Reader.refused)
  accept_whole k seq x got true e g all =
      subst (λ c. ReaderAgrees k seq (if c then Reader.accepted got else Reader.refused)) (sym e)
        (
          k,
          omega arith,
          λ i small.
              byte_there (got i) (values k i) (all i small)
                (λ b found. g.2 ((==_iff x seq).0 e) i b small found),
        )
  accept_whole k seq x got false e g all =
      subst (λ c. ReaderAgrees k seq (if c then Reader.accepted got else Reader.refused)) (sym e) tt

  check-IsValid :
      (r : Reader) (s t : SeqLock)
      → WriterAgrees s.round s.seq s.storage s.writer
      → ReaderAgrees s.round s.seq r
      → check_step n values r s ≡ some t
      → IsValid t
  check-IsValid Reader.resting s t h g e = absurd (none-ne-some none refl e)
  check-IsValid Reader.refused s t h g e = absurd (none-ne-some none refl e)
  check-IsValid (Reader.accepted got) s t h g e = absurd (none-ne-some none refl e)
  check-IsValid (Reader.sampled x got) s t h g e =
      let (whole, same_state) = granted e in
      subst IsValid same_state
        (h, accept_whole s.round s.seq x got _ refl g (all_below-at n (has_byte got) whole))

  pub step-IsValid :
      (a : Action) (s t : SeqLock)
      → 2 * s.round + 2 < u64_mod
      → IsValid s
      → step n values a s ≡ some t
      → IsValid t
  unfolding step
  step-IsValid load_own s t small h e = load-IsValid s.writer s t h.0 h.1 e
  step-IsValid begin_write s t small h e = begin-IsValid s.writer s t small h.0 h.1 e
  step-IsValid (put_byte i) s t small h e = put-IsValid i s.writer s t h.0 h.1 e
  step-IsValid close s t small h e = close-IsValid s.writer s t small h.0 h.1 e
  step-IsValid sample s t small h e = start-IsValid s.reader s t h.0 e
  step-IsValid (get_byte i) s t small h e = get-IsValid i s.reader s t h.0 h.1 e
  step-IsValid recheck s t small h e = check-IsValid s.reader s t h.0 h.1 e
