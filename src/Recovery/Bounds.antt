-- ===== src/Recovery/Bounds.antt =====
-- The bounds that the client of include/tick/recovery.hpp keeps on what is in flight.
use tickerplant.Prelude.{
  ℕ, zero, suc, ◌+◌, ◌-◌, ◌<◌, ◌≤◌, ◌≡◌, Bool, true, false, ◌||◌, not, none, some, List, [], ◌∷◌,
  ◌++◌, length, arith, ◌==◌, length-append, Bool-cases, inl, inr, All, u64_mod, add64_fits, add64,
  sub64, ltb, leb, if◌then◌else◌,
}
use tickerplant.Recovery.Client.{
  RecoveryConfig, RecoveryStats, Entry, RecoveryClient, need, need_loop, push_chunk, walk_expired,
  walk_fresh, Walk, walk_both, next_request, walk_response, on_response, chunk, fresh_entry, fill,
}

-- An entry that the wire can carry, and that has not been asked for too often.
pub record IsAskable (c : RecoveryConfig) (e : Entry) : Type 0 where
  pub some_wanted : 0 < e.count
  pub fits : e.count ≤ 65535
  pub ends : e.first + e.count < u64_mod
  pub tries : e.attempts ≤ c.max_attempts

pub record IsBounded (s : RecoveryClient) : Type 0 where
  pub few : length s.entries ≤ s.cfg.max_outstanding
  pub askable : All (IsAskable s.cfg) s.entries
  pub tried_once : 0 < s.cfg.max_attempts

-- What holds of both branches of a test holds of the test.
if-both {ℓ κ} :
    {A : Type ℓ} (P : A → Type κ) (b : Bool) (x y : A) → P x → P y → P (if b then x else y)
if-both P true x y hx hy = hx
if-both P false x y hx hy = hy

-- The entries of a walk are no more than before, and as askable.
abbrev Keeps : RecoveryConfig → List Entry → List Entry → Type 0
Keeps c old new = All (IsAskable c) old → (length new ≤ length old) × All (IsAskable c) new

walk_expired-Keeps :
    (now : ℕ) (c : RecoveryConfig) (es : List Entry) (t : RecoveryStats)
    → Keeps c es (walk_expired now c es t).0
unfolding walk_expired
walk_expired-Keeps now c [] t a = (omega arith, tt)
walk_expired-Keeps now c (e ∷ es) t a =
    let later = walk_expired-Keeps now c es t a.1 in
    let gone =
      walk_expired-Keeps now c es (record t { ranges_abandoned = add64 t.ranges_abandoned 1 })
        a.1 in
    elim (Bool-cases (not e.in_flight || ltb now (add64 e.sent_ns e.timeout_ns))) [
      | inl wait ↦ rw (wait, walk_expired) (omega (arith, later.0), (a.0, later.1))
      | inr due ↦ elim (Bool-cases (leb c.max_attempts e.attempts)) [
        | inl spent ↦ rw (due, spent, walk_expired) (omega (arith, gone.0), gone.1)
        | inr again ↦
            rw (due, again, walk_expired)
              (
                omega arith,
                (
                  record {
                    some_wanted = a.0.some_wanted;
                    fits = a.0.fits;
                    ends = a.0.ends;
                    tries = ground arith;
                  },
                  a.1,
                ),
              )
      ]
    ]

walk_fresh-Keeps :
    (now : ℕ) (c : RecoveryConfig) (es : List Entry) (t : RecoveryStats)
    → 0 < c.max_attempts
    → Keeps c es (walk_fresh now c es t).0
unfolding walk_fresh
walk_fresh-Keeps now c [] t pos a = (omega arith, tt)
walk_fresh-Keeps now c (e ∷ es) t pos a =
    let later = walk_fresh-Keeps now c es t pos a.1 in
    if-both (λ (w : Walk). (length w.0 ≤ suc (length es)) × All (IsAskable c) w.0) e.in_flight _ _
      (omega (arith, later.0), (a.0, later.1))
      (
        omega arith,
        (
          record {
            some_wanted = a.0.some_wanted;
            fits = a.0.fits;
            ends = a.0.ends;
            tries = omega arith;
          },
          a.1,
        ),
      )

walk_both-Keeps :
    (now : ℕ) (c : RecoveryConfig) (old : List Entry) (w : Walk)
    → 0 < c.max_attempts
    → Keeps c old w.0
    → Keeps c old (walk_both now c w).0
walk_both-Keeps now c old (es, t, some r) pos k a = k a
walk_both-Keeps now c old (es, t, none) pos k a =
    let (few, good) = k a in
    let (few', good') = walk_fresh-Keeps now c es t pos good in (omega arith, good')

pub next_request-IsBounded :
    (now : ℕ) (s : RecoveryClient) → IsBounded s → IsBounded (next_request now s).0
unfolding next_request
next_request-IsBounded now s b =
    let (few, good) =
      walk_both-Keeps now s.cfg s.entries (walk_expired now s.cfg s.entries s.stats) b.tried_once
        (walk_expired-Keeps now s.cfg s.entries s.stats) b.askable in
    record { few = omega (arith, b.few); askable = good; tried_once = b.tried_once }

-- What is left of an entry after an answer to its front.
shorten-IsAskable :
    (c : RecoveryConfig) (e : Entry) (first last : ℕ)
    → IsAskable c e
    → (leb last e.first || leb (add64 e.first e.count) first) ≡ false
    → leb (add64 e.first e.count) last ≡ false
    → IsAskable c (record e { count = sub64 (add64 e.first e.count) last; first = last })
unfolding add64 sub64
shorten-IsAskable c e first last a meets beyond = record {
  some_wanted = ground (arith, a.ends);
  fits = ground (arith, a.ends, a.fits);
  ends = ground (arith, a.ends);
  tries = a.tries;
}

walk_response-Keeps :
    (c : RecoveryConfig) (first last : ℕ) (es : List Entry) (t : RecoveryStats)
    → Keeps c es (walk_response first last es t).0
unfolding walk_response
walk_response-Keeps c first last [] t a = (omega arith, tt)
walk_response-Keeps c first last (e ∷ es) t a =
    let end = add64 e.first e.count in
    let apart = walk_response-Keeps c first last es t a.1 in
    let whole =
      walk_response-Keeps c first last es
        (fill (sub64 end (if ltb e.first first then first else e.first)) t) a.1 in
    let front = walk_response-Keeps c first last es (fill (sub64 last e.first) t) a.1 in
    elim (Bool-cases (leb last e.first || leb end first)) [
      | inl away ↦ rw (away, walk_response) (omega (arith, apart.0), (a.0, apart.1))
      | inr meets ↦ elim (Bool-cases (leb end last)) [
        | inl done ↦ rw (meets, done, walk_response) (omega (arith, whole.0), whole.1)
        | inr beyond ↦ elim (Bool-cases (leb first e.first)) [
          | inl at_front ↦
              rw (meets, beyond, at_front, walk_response)
                (
                  omega (arith, front.0),
                  (shorten-IsAskable c e first last a.0 meets beyond, front.1),
                )
          | inr middle ↦
              rw (meets, beyond, middle, walk_response) (omega (arith, apart.0), (a.0, apart.1))
        ]
      ]
    ]

pub on_response-IsBounded :
    (first count now : ℕ) (s : RecoveryClient)
    → IsBounded s
    → IsBounded (on_response first count now s)
unfolding on_response
on_response-IsBounded first count now s b =
    let (few, good) =
      walk_response-Keeps s.cfg first (add64 first count) s.entries s.stats b.askable in
    if-both IsBounded (count == 0) _ _ b
      (record { few = omega (arith, b.few); askable = good; tried_once = b.tried_once })

All-snoc :
    (c : RecoveryConfig) (es : List Entry) (e : Entry)
    → All (IsAskable c) es
    → IsAskable c e
    → All (IsAskable c) (es ++ e ∷ [])
All-snoc c [] e a h = (h, tt)
All-snoc c (x ∷ es) e a h = (a.0, All-snoc c es e a.1 h)

push_chunk-IsBounded :
    (seq left : ℕ) (s : RecoveryClient)
    → IsBounded s
    → length s.entries < s.cfg.max_outstanding
    → 0 < left
    → seq + left < u64_mod
    → IsBounded (push_chunk seq left s)
unfolding push_chunk
push_chunk-IsBounded seq left s b room pos ends = record {
  few = omega (arith, length-append s.entries (fresh_entry seq (chunk left) ∷ []));
  askable = All-snoc s.cfg s.entries (fresh_entry seq (chunk left)) b.askable (record {
    some_wanted = ground arith;
    fits = ground arith;
    ends = ground arith;
    tries = omega arith;
  });
  tried_once = b.tried_once;
}

need_loop-IsBounded :
    (f seq left chunks : ℕ) (s : RecoveryClient)
    → IsBounded s
    → seq + left < u64_mod
    → IsBounded (need_loop f seq left chunks s).0
unfolding need_loop
need_loop-IsBounded zero seq left chunks s b ends = b
need_loop-IsBounded (suc f) seq left chunks s b ends = elim (Bool-cases (left == 0)) [
  | inl done ↦ rw (done, need_loop) b
  | inr some_left ↦ elim (Bool-cases (leb s.cfg.max_outstanding (length s.entries))) [
    | inl full ↦
        rw (some_left, full, need_loop)
          (record { few = b.few; askable = b.askable; tried_once = b.tried_once })
    | inr room ↦
        let e : add64 seq (chunk left) ≡ seq + chunk left =
          add64_fits seq (chunk left) (ground arith) in
        rw (some_left, room, need_loop)
          (need_loop-IsBounded f (add64 seq (chunk left)) (left - chunk left) (chunks + 1)
            (push_chunk seq left s)
            (push_chunk-IsBounded seq left s b (ground arith) (ground arith) ends)
            (ground (arith, e)))
  ]
]

pub need-IsBounded :
    (first count : ℕ) (s : RecoveryClient)
    → IsBounded s
    → first + count < u64_mod
    → IsBounded (need first count s).0
unfolding need
need-IsBounded first count s b ends =
    if-both (λ (r : RecoveryClient × ℕ). IsBounded r.0) (count == 0) _ _ b
      (need_loop-IsBounded (s.cfg.max_outstanding + 2) first count 0 s b ends)
