-- ===== src/Seqlock/Schedule.antt =====
-- include/tick/seqlock.hpp: a `store` among steps of a reader, in any order.
use tickerplant.Prelude.{
  ℕ, ◌≡◌, refl, sym, ap, ◌∙◌, Bool, true, false, Bool-cases, inl, inr, Option, none, some, List, [],
  ◌∷◌, ltb, if◌then◌else◌,
}
use tickerplant.Seqlock.{
  Bytes, Reader, SeqLock, Action, load_own, begin_write, put_byte, close, sample, get_byte, recheck,
  all_below, has_byte, start_step, get_step, check_step, step, run, run_from,
}
use tickerplant.Seqlock.Safety.{run_first}

abbrev pub is_writer : Action → Bool
is_writer load_own = true
is_writer begin_write = true
is_writer (put_byte i) = true
is_writer close = true
is_writer sample = false
is_writer (get_byte i) = false
is_writer recheck = false

-- The steps of the writer.
unfoldable pub writer_part : List Action → List Action
writer_part [] = []
writer_part (a ∷ rest) = let steps = writer_part rest in if is_writer a then a ∷ steps else steps

-- The copy of the bytes in an order, and what follows it.
abbrev pub puts : List ℕ → List Action → List Action
puts [] rest = rest
puts (i ∷ order) rest = put_byte i ∷ puts order rest

-- A call of `store` that copies the bytes in an order.
abbrev pub store_acts : List ℕ → List Action
store_acts order = load_own ∷ begin_write ∷ puts order (close ∷ [])

abbrev pub or_else : Option SeqLock → SeqLock → SeqLock
or_else none s = s
or_else (some t) s = t

head_same : {a b : Action} {xs ys : List Action} → a ∷ xs ≡ b ∷ ys → a ≡ b
head_same h = cc h

tail_same : {a b : Action} {xs ys : List Action} → a ∷ xs ≡ b ∷ ys → xs ≡ ys
tail_same h = cc h

nil-ne-cons : {a : Action} {xs : List Action} → [] ≡ a ∷ xs → ⊥
nil-ne-cons h = absurd (cc h)

either_way : {A : Type 0} (b : Bool) (x : A) → (if b then x else x) ≡ x
either_way true x = refl
either_way false x = refl

module _ (n : ℕ) (values : ℕ → Bytes) where
  -- A run in which a step of the writer has to be possible, and one of the reader that is not its next
  -- is passed over.
  unfoldable pub drive : List Action → SeqLock → Option SeqLock
  unfolding step
  drive [] s = some s
  drive (a ∷ rest) s =
      if is_writer a
      then run_from n values (step n values a s) (drive rest)
      else drive rest (or_else (step n values a s) s)

  -- A step of the reader changes the reader only.
  start-reader :
      (r : Reader) (s : SeqLock)
      → (r' : Reader) × (or_else (start_step n values r s) s ≡ record s { reader = r' })
  start-reader Reader.resting s = (_, refl)
  start-reader Reader.refused s = (_, refl)
  start-reader (Reader.accepted got) s = (_, refl)
  start-reader (Reader.sampled x got) s = (s.reader, refl)

  either_reader :
      (b : Bool) (r : Reader) (s : SeqLock)
      → (r' : Reader) × (or_else (if b then some (record s { reader = r }) else none) s
          ≡ record s { reader = r' })
  either_reader true r s = (r, refl)
  either_reader false r s = (s.reader, refl)

  get-reader :
      (i : ℕ) (r : Reader) (s : SeqLock)
      → (r' : Reader) × (or_else (get_step n values i r s) s ≡ record s { reader = r' })
  get-reader i Reader.resting s = (s.reader, refl)
  get-reader i Reader.refused s = (s.reader, refl)
  get-reader i (Reader.accepted got) s = (s.reader, refl)
  get-reader i (Reader.sampled x got) s = either_reader (ltb i n) _ s

  check-reader :
      (r : Reader) (s : SeqLock)
      → (r' : Reader) × (or_else (check_step n values r s) s ≡ record s { reader = r' })
  check-reader Reader.resting s = (s.reader, refl)
  check-reader Reader.refused s = (s.reader, refl)
  check-reader (Reader.accepted got) s = (s.reader, refl)
  check-reader (Reader.sampled x got) s = either_reader (all_below n (has_byte got)) _ s

  step-reader :
      (a : Action) (s : SeqLock)
      → is_writer a ≡ false
      → (r : Reader) × (or_else (step n values a s) s ≡ record s { reader = r })
  unfolding step
  step-reader load_own s h = absurd (cc h)
  step-reader begin_write s h = absurd (cc h)
  step-reader (put_byte i) s h = absurd (cc h)
  step-reader close s h = absurd (cc h)
  step-reader sample s h = start-reader s.reader s
  step-reader (get_byte i) s h = get-reader i s.reader s
  step-reader recheck s h = check-reader s.reader s

  -- With no step of the writer left, the reader changes at most.
  pub no_writer :
      (acts : List Action) (s : SeqLock)
      → writer_part acts ≡ []
      → (r : Reader) × (drive acts s ≡ some (record s { reader = r }))
  unfolding drive writer_part
  no_writer [] s h = (s.reader, refl)
  no_writer (a ∷ rest) s h = elim (Bool-cases (is_writer a)) [
    | inl mine ↦
        absurd (
          nil-ne-cons (sym h ∙ ap (λ c. if c then a ∷ writer_part rest else writer_part rest) mine))
    | inr theirs ↦
        let (r, e) = step-reader a s theirs in
        let (r', f) =
          no_writer rest (record s { reader = r })
            (sym (ap (λ c. if c then a ∷ writer_part rest else writer_part rest) theirs) ∙ h) in
        (
          r',
          ap
                (λ c.
                  if c
                  then run_from n values (step n values a s) (drive rest)
                  else drive rest (or_else (step n values a s) s))
                theirs
              ∙ ap (drive rest) e
              ∙ f,
        )
  ]

  -- The next step of the writer is made in the state that the reader has left alone but for itself.
  pub next_writer :
      (acts : List Action) (s : SeqLock) (w : Action) (ws : List Action)
      → writer_part acts ≡ w ∷ ws
      → (rest : List Action) × (r : Reader) × (drive acts s
          ≡ run_from n values (step n values w (record s { reader = r })) (drive rest))
        × (writer_part rest ≡ ws)
  unfolding drive writer_part
  next_writer [] s w ws h = absurd (nil-ne-cons h)
  next_writer (a ∷ rest) s w ws h = elim (Bool-cases (is_writer a)) [
    | inl mine ↦
        let here = sym (ap (λ c. if c then a ∷ writer_part rest else writer_part rest) mine) ∙ h in
        (
          rest,
          s.reader,
          ap
                (λ c.
                  if c
                  then run_from n values (step n values a s) (drive rest)
                  else drive rest (or_else (step n values a s) s))
                mine
              ∙ ap (λ b. run_from n values (step n values b s) (drive rest)) (head_same here),
          tail_same here,
        )
    | inr theirs ↦
        let (r, e) = step-reader a s theirs in
        let (rest', r', f, g) =
          next_writer rest (record s { reader = r }) w ws
            (sym (ap (λ c. if c then a ∷ writer_part rest else writer_part rest) theirs) ∙ h) in
        (
          rest',
          r',
          ap
                (λ c.
                  if c
                  then run_from n values (step n values a s) (drive rest)
                  else drive rest (or_else (step n values a s) s))
                theirs
              ∙ ap (drive rest) e
              ∙ f,
          g,
        )
  ]

  -- Where every step of a run is possible, none is passed over.
  pub drive-run :
      (acts : List Action) (s t : SeqLock) → run n values acts s ≡ some t → drive acts s ≡ some t
  unfolding run drive
  drive-run [] s t h = h
  drive-run (a ∷ rest) s t h =
      let (u, e, f) = run_first n values a rest s t _ refl h in
      ap (λ m. if is_writer a then run_from n values m (drive rest) else drive rest (or_else m s)) e
      ∙ either_way (is_writer a) (drive rest u)
      ∙ drive-run rest u t f
