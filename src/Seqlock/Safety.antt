-- ===== src/Seqlock/Safety.antt =====
-- include/tick/seqlock.hpp: over any interleaving a value that a reader accepts was stored as a whole.
use tickerplant.Prelude.{
  Bool-cases, ℕ, suc, ◌+◌, ◌*◌, ◌<◌, ◌≤◌, ◌≡◌, refl, sym, ap, ◌∙◌, subst, inl, inr, Option, none,
  some, List, [], ◌∷◌, length, ==_iff, arith, ◌==◌, u64_mod, some-injective, none-ne-some,
  if◌then◌else◌,
}
use tickerplant.Seqlock.{
  Bytes, Writer, Reader, SeqLock, Action, load_own, begin_write, put_byte, close, sample, get_byte,
  recheck, has_byte, load_step, begin_step, put_step, close_step, start_step, get_step, check_step,
  step, run, run_from, constructed,
}
use tickerplant.Seqlock.Invariant.{
  granted, all_below-at, ReaderAgrees, IsValid, step-IsValid, byte_there,
}

some_refused : {got : ℕ → Option ℕ} → Reader.refused ≡ Reader.accepted got → ⊥
some_refused h = absurd (cc h)

accepted_injective :
    {got got' : ℕ → Option ℕ} → Reader.accepted got ≡ Reader.accepted got' → got ≡ got'
accepted_injective h = cc h

module _ (n : ℕ) (values : ℕ → Bytes) where
  -- A step completes one store at most.
  load-round :
      (w : Writer) (s t : SeqLock) → load_step n values w s ≡ some t → t.round ≤ suc s.round
  load-round Writer.idle s t e = omega (arith, ap (λ u. u.round) (some-injective e))
  load-round (Writer.loaded x) s t e = absurd (none-ne-some none refl e)
  load-round (Writer.writing x done) s t e = absurd (none-ne-some none refl e)

  begin-round :
      (w : Writer) (s t : SeqLock) → begin_step n values w s ≡ some t → t.round ≤ suc s.round
  begin-round Writer.idle s t e = absurd (none-ne-some none refl e)
  begin-round (Writer.loaded x) s t e = omega (arith, ap (λ u. u.round) (some-injective e))
  begin-round (Writer.writing x done) s t e = absurd (none-ne-some none refl e)

  put-round :
      (i : ℕ) (w : Writer) (s t : SeqLock)
      → put_step n values i w s ≡ some t
      → t.round ≤ suc s.round
  put-round i Writer.idle s t e = absurd (none-ne-some none refl e)
  put-round i (Writer.loaded x) s t e = absurd (none-ne-some none refl e)
  put-round i (Writer.writing x done) s t e = omega (arith, ap (λ u. u.round) (granted e).1)

  close-round :
      (w : Writer) (s t : SeqLock) → close_step n values w s ≡ some t → t.round ≤ suc s.round
  close-round Writer.idle s t e = absurd (none-ne-some none refl e)
  close-round (Writer.loaded x) s t e = absurd (none-ne-some none refl e)
  close-round (Writer.writing x done) s t e = omega (arith, ap (λ u. u.round) (granted e).1)

  start-round :
      (r : Reader) (s t : SeqLock) → start_step n values r s ≡ some t → t.round ≤ suc s.round
  start-round Reader.resting s t e = omega (arith, ap (λ u. u.round) (some-injective e))
  start-round Reader.refused s t e = omega (arith, ap (λ u. u.round) (some-injective e))
  start-round (Reader.accepted got) s t e = omega (arith, ap (λ u. u.round) (some-injective e))
  start-round (Reader.sampled x got) s t e = absurd (none-ne-some none refl e)

  get-round :
      (i : ℕ) (r : Reader) (s t : SeqLock)
      → get_step n values i r s ≡ some t
      → t.round ≤ suc s.round
  get-round i Reader.resting s t e = absurd (none-ne-some none refl e)
  get-round i Reader.refused s t e = absurd (none-ne-some none refl e)
  get-round i (Reader.accepted got) s t e = absurd (none-ne-some none refl e)
  get-round i (Reader.sampled x got) s t e = omega (arith, ap (λ u. u.round) (granted e).1)

  check-round :
      (r : Reader) (s t : SeqLock) → check_step n values r s ≡ some t → t.round ≤ suc s.round
  check-round Reader.resting s t e = absurd (none-ne-some none refl e)
  check-round Reader.refused s t e = absurd (none-ne-some none refl e)
  check-round (Reader.accepted got) s t e = absurd (none-ne-some none refl e)
  check-round (Reader.sampled x got) s t e = omega (arith, ap (λ u. u.round) (granted e).1)

  step-round : (a : Action) (s t : SeqLock) → step n values a s ≡ some t → t.round ≤ suc s.round
  unfolding step
  step-round load_own s t e = load-round s.writer s t e
  step-round begin_write s t e = begin-round s.writer s t e
  step-round (put_byte i) s t e = put-round i s.writer s t e
  step-round close s t e = close-round s.writer s t e
  step-round sample s t e = start-round s.reader s t e
  step-round (get_byte i) s t e = get-round i s.reader s t e
  step-round recheck s t e = check-round s.reader s t e

  -- The first step of a run, and the rest.
  pub run_first :
      (a : Action) (rest : List Action) (s t : SeqLock) (m : Option SeqLock)
      → step n values a s ≡ m
      → run_from n values m (run n values rest) ≡ some t
      → (u : SeqLock) × (step n values a s ≡ some u) × (run n values rest u ≡ some t)
  run_first a rest s t none e h = absurd (none-ne-some none refl h)
  run_first a rest s t (some u) e h = (u, e, h)

  run-IsValid :
      (acts : List Action) (s t : SeqLock)
      → 2 * (s.round + length acts) + 2 < u64_mod
      → IsValid n values s
      → run n values acts s ≡ some t
      → IsValid n values t × (t.round ≤ s.round + length acts)
  unfolding run
  run-IsValid [] s t small h e =
      let same = some-injective e in
      (subst (IsValid n values) same h, omega (arith, ap (λ u. u.round) same))
  run-IsValid (a ∷ rest) s t small h e =
      let (u, first, after) = run_first a rest s t _ refl e in
      let r = step-round a s u first in
      let v = step-IsValid n values a s u (omega arith) h first in
      let w = run-IsValid rest u t (omega arith) v after in (w.0, omega (arith, w.1))

  constructed-IsValid : IsValid n values (constructed (values 0))
  constructed-IsValid = ((omega arith, λ i k. refl), tt)

  accepts_last :
      (r : Reader) (s t : SeqLock) (got : ℕ → Option ℕ)
      → ReaderAgrees n values s.round s.seq r
      → check_step n values r s ≡ some t
      → t.reader ≡ Reader.accepted got
      → (i : ℕ) → i < n
      → got i ≡ some (values s.round i)
  accepts_last Reader.resting s t got g e at i small = absurd (none-ne-some none refl e)
  accepts_last Reader.refused s t got g e at i small = absurd (none-ne-some none refl e)
  accepts_last (Reader.accepted got') s t got g e at i small = absurd (none-ne-some none refl e)
  accepts_last (Reader.sampled x got') s t got g e at i small =
      let (whole, same_state) = granted e in
      let ended : (if x == s.seq then Reader.accepted got' else Reader.refused)
          ≡ Reader.accepted got =
        ap (λ u. u.reader) same_state ∙ at in
      elim (Bool-cases (x == s.seq)) [
        | inr moved ↦ absurd (
            some_refused
              (ap (λ c. if c then Reader.accepted got' else Reader.refused) (sym moved) ∙ ended))
        | inl still ↦
            let same_bytes : got' ≡ got =
              accepted_injective (
                ap (λ c. if c then Reader.accepted got' else Reader.refused) (sym still) ∙ ended) in
            ap (λ f. f i) (sym same_bytes)
            ∙ byte_there (got' i) (values s.round i) (all_below-at n (has_byte got') whole i small)
                (λ b found. g.2 ((==_iff x s.seq).0 still) i b small found)
      ]

  -- Over any interleaving of the steps of a writer and a reader that is short enough for the counter not
  -- to wrap, a `try_load` that succeeds gives, in every byte, the value of the last store that was
  -- complete when the reader compared the counters.
  pub accepted_whole :
      (acts : List Action) (s t : SeqLock) (got : ℕ → Option ℕ)
      → 2 * length acts + 2 < u64_mod
      → run n values acts (constructed (values 0)) ≡ some s
      → step n values recheck s ≡ some t
      → t.reader ≡ Reader.accepted got
      → (i : ℕ) → i < n
      → got i ≡ some (values s.round i)
  unfolding step
  accepted_whole acts s t got small e f at =
      let start = constructed (values 0) in
      let (valid, bound) = run-IsValid acts start s (omega arith) constructed-IsValid e in
      accepts_last s.reader s t got valid.1 f at
