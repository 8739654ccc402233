-- ===== src/Recovery/Answers.antt =====
-- What the ring of include/tick/recovery.hpp answers after any number of messages published.
use tickerplant.Prelude.{
  false, ◌&&◌, leb, Bool-cases, inl, inr, ℕ, zero, suc, ◌+◌, ◌-◌, ◌%◌, ◌^◌, ◌<◌, ◌≤◌, ◌≡◌, ◌≢◌, ◌∙◌,
  none, some, List, ◌++◌, ltb, ◌==◌, length, take, drop, u32_mod, if◌then◌else◌, arith, refl,
  take_append, ap,
}
use native.Mathlib.Decide.{ℕ_discrete, dec_lt}
use tickerplant.Prelude.Bits.{bit_and-mask, mod-injective, mod-add_self, pow-pos}
use tickerplant.Recovery.Store.{RetransmitStore, index, store, fetch, contains, clear, make, empty}
use tickerplant.Pow2.{round_up_pow2-IsRounded}
use mathlib.Core.Option

pub record IsRing (s : RetransmitStore) : Type 0 where
  pub width : ℕ
  pub size : s.cap ≡ 2 ^ width
  pub masked : s.mask ≡ s.cap - 1
  pub narrow : s.max_payload < u32_mod

index-mod : (s : RetransmitStore) → IsRing s → (q : ℕ) → index s q ≡ q % s.cap
unfolding index
index-mod s r q = rw (r.masked, r.size) (bit_and-mask r.width q)

store-IsRing : (q : ℕ) (p : List ℕ) (s : RetransmitStore) → IsRing s → IsRing (store q p s).0
unfolding store
store-IsRing q p s r = ground arith

store_same :
    (q : ℕ) (p : List ℕ) (s : RetransmitStore)
    → ((store q p s).0.cap ≡ s.cap) × ((store q p s).0.max_payload ≡ s.max_payload)
unfolding store
store_same q p s = ground arith

read_back : (p rest : List ℕ) → length p < u32_mod → take (length p % u32_mod) (p ++ rest) ≡ p
read_back p rest h =
    let e : length p % u32_mod ≡ length p = omega arith in rw e (take_append p rest)

-- A stored message is found under its own sequence, hides whatever had its slot, and leaves every
-- other slot as it was; nothing else is ever answered. Premise: the payload fits a slot.
pub fetch-store :
    (q r room : ℕ) (p : List ℕ) (s : RetransmitStore)
    → IsRing s
    → length p ≤ s.max_payload
    → fetch r room (store q p s).0 ≡ (
        if r == q
        then (if ltb room (length p) then none else some p)
        else (if index s r == index s q then none else fetch r room s))
unfolding fetch store
fetch-store q r room p s ring fits =
    let small : length p < u32_mod = omega (arith, ring.narrow) in
    let back = read_back p (drop (length p) (s.slots (index s q)).bytes) small in
    let len : length p % u32_mod ≡ length p = omega arith in
    elim (ℕ_discrete r q) [ yes e ↦ rw e (ground (arith, back, len)) | no ne ↦ ground (arith, ne) ]

-- Publishing `n` messages of a feed, from the sequence `first` on.
pub publish : (ℕ → List ℕ) → ℕ → ℕ → RetransmitStore → RetransmitStore
publish feed first zero s = s
publish feed first (suc n) s = (store (first + n) (feed (first + n)) (publish feed first n s)).0

pub publish-IsRing :
    (feed : ℕ → List ℕ) (first n : ℕ) (s : RetransmitStore)
    → IsRing s
    → IsRing (publish feed first n s)
      × ((publish feed first n s).cap ≡ s.cap)
      × ((publish feed first n s).max_payload ≡ s.max_payload)
unfolding publish
publish-IsRing feed first zero s r = (r, refl, refl)
publish-IsRing feed first (suc n) s r =
    let (ring, cap, wide) = publish-IsRing feed first n s r in
    let t = publish feed first n s in
    let same = store_same (first + n) (feed (first + n)) t in
    (store-IsRing (first + n) (feed (first + n)) t ring, same.0 ∙ cap, same.1 ∙ wide)

-- What `fetch` gives for a message of the run, whatever the ring held before: the message while it is
-- among the last `cap`, and a miss after.
fetch-publish_run :
    (feed : ℕ → List ℕ) (first n q room : ℕ) (s : RetransmitStore)
    → IsRing s
    → ((r : ℕ) → length (feed r) ≤ s.max_payload)
    → first ≤ q
    → q < first + n
    → fetch q room (publish feed first n s) ≡ (
        if ltb (q + s.cap) (first + n)
        then none
        else (if ltb room (length (feed q)) then none else some (feed q)))
unfolding publish
fetch-publish_run feed first zero q room s ring fits lo hi = absurd (omega arith)
fetch-publish_run feed first (suc n) q room s ring fits lo hi =
    let (r, cap, wide) = publish-IsRing feed first n s ring in
    let t = publish feed first n s in
    let top = first + n in
    let law = fetch-store top q room (feed top) t r (rw wide (fits top)) in
    let pos : 0 < s.cap = omega (arith, ring.size, pow-pos ring.width) in
    elim (ℕ_discrete q top) [
      | yes same ↦ ground (arith, law, ap feed same)
      | no older ↦
          let ih = fetch-publish_run feed first n q room s ring fits lo (omega arith) in
          let at_q : index t q ≡ q % s.cap = index-mod t r q ∙ ap (λ c. q % c) cap in
          let at_top : index t top ≡ top % s.cap = index-mod t r top ∙ ap (λ c. top % c) cap in
          elim (ℕ_discrete (q + s.cap) top) [
            | yes evicted ↦
                let lap : top % s.cap ≡ q % s.cap = rw (← evicted) (mod-add_self q s.cap pos) in
                ground (arith, law, at_q, at_top, lap)
            | no kept ↦ elim (dec_lt (q + s.cap) top) [
              | yes gone ↦ ground (arith, law, ih)
              | no near ↦
                  let apart : q % s.cap ≢ top % s.cap =
                    λ e. older (mod-injective q top s.cap (omega arith) (omega arith) e) in
                  ground (arith, law, ih, at_q, at_top, apart)
            ]
          ]
    ]

-- No slot has a message: the ring is new, or was cleared.
abbrev pub IsBlank : RetransmitStore → Type 0
IsBlank s = (i : ℕ) → (s.slots i).present ≡ false

-- The constructor makes a ring, and it is blank.
pub make-IsRing :
    (capacity max_payload : ℕ)
    → capacity ≤ 2 ^ 63
    → max_payload < u32_mod
    → (s : RetransmitStore) × (make capacity max_payload ≡ some s)
      × IsRing s
      × IsBlank s
      × (capacity ≤ s.cap)
unfolding make
make-IsRing capacity max_payload small narrow =
    let (c, e, rounded) = round_up_pow2-IsRounded capacity small in
    let narrow : (empty max_payload c).max_payload < u32_mod = ground (arith, narrow) in
    (
      empty max_payload c,
      ap (Option.map (empty max_payload)) e,
      record { width = rounded.width; size = rounded.is_pow; masked = refl; narrow = narrow },
      λ i. refl,
      rounded.enough,
    )

pub clear-IsBlank : (s : RetransmitStore) → IsBlank (clear s)
unfolding clear
clear-IsBlank s i = refl

pub clear-IsRing : (s : RetransmitStore) → IsRing s → IsRing (clear s)
unfolding clear
clear-IsRing s r = record { width = r.width; size = r.size; masked = r.masked; narrow = r.narrow }

fetch-blank : (q room : ℕ) (s : RetransmitStore) → IsBlank s → fetch q room s ≡ none
unfolding fetch contains
fetch-blank q room s h = rw (h (index s q)) refl

-- What was not published is a miss.
fetch-publish_other :
    (feed : ℕ → List ℕ) (first n q room : ℕ) (s : RetransmitStore)
    → IsRing s
    → IsBlank s
    → ((r : ℕ) → length (feed r) ≤ s.max_payload)
    → (leb first q && ltb q (first + n)) ≡ false
    → fetch q room (publish feed first n s) ≡ none
unfolding publish
fetch-publish_other feed first zero q room s ring blank fits out = fetch-blank q room s blank
fetch-publish_other feed first (suc n) q room s ring blank fits out =
    let (r, cap, wide) = publish-IsRing feed first n s ring in
    let t = publish feed first n s in
    let top = first + n in
    let law = fetch-store top q room (feed top) t r (rw wide (fits top)) in
    let other : (q == top) ≡ false = ground (arith, out) in
    let before : (leb first q && ltb q (first + n)) ≡ false = ground (arith, out) in
    let ih = fetch-publish_other feed first n q room s ring blank fits before in
    ground (arith, law, other, ih)

-- After a run of messages is published into a ring that is new or was cleared, `fetch` of any sequence
-- gives the message published under it, if it is of the run, among the last `cap` of it and not longer
-- than the buffer, and in every other case it is a miss. Premise: every payload of the feed fits a slot.
pub fetch-publish :
    (feed : ℕ → List ℕ) (first n q room : ℕ) (s : RetransmitStore)
    → IsRing s
    → IsBlank s
    → ((r : ℕ) → length (feed r) ≤ s.max_payload)
    → fetch q room (publish feed first n s) ≡ (
        if (leb first q && ltb q (first + n)) && leb (first + n) (q + s.cap)
        then (if ltb room (length (feed q)) then none else some (feed q))
        else none)
fetch-publish feed first n q room s ring blank fits =
    elim (Bool-cases (leb first q && ltb q (first + n))) [
      | inr out ↦ fetch-publish_other feed first n q room s ring blank fits out ∙ (rw out refl)
      | inl within ↦
          let run =
            fetch-publish_run feed first n q room s ring fits (ground (arith, within))
              (ground (arith, within)) in
          rw within (run ∙ ground arith)
    ]
