-- ===== src/Itch/Counts.antt =====
-- The counters of include/tick/itch_decoder.hpp: what becomes of each buffer that a decoder is given.
use tickerplant.Prelude.{
  ℕ, ◌+◌, ◌<◌, ◌≡◌, ap, ◌∙◌, Bool-cases, inl, inr, List, [], ◌∷◌, arith, length, ltb, ◌==◌, add64,
  u64_mod,
}
use tickerplant.Itch.Lengths.{message_length, msg_type}
use tickerplant.Itch.Event.{HandlerCall}
use tickerplant.Itch.Decoder.{DecodeStats, guarded, zero_copy, CopyingDecoder}
use tickerplant.Itch.Equivalence.{zero_copy_all, copying_all, copying_all-zero_copy_all}

-- All buffers that were counted, good or bad.
abbrev pub counted : DecodeStats → ℕ
counted s = s.messages + s.unknown + s.truncated

guarded-counted :
    (msg : List ℕ) (c : HandlerCall) (s : DecodeStats)
    → counted s + 1 < u64_mod
    → counted (guarded msg c s).0 ≡ counted s + 1
unfolding add64
guarded-counted msg c s small = elim (Bool-cases (length msg == 0)) [
  | inl e ↦ rw e (omega arith)
  | inr e ↦ elim (Bool-cases (message_length (msg_type msg) == 0)) [
    | inl e2 ↦ rw (e, e2) (omega arith)
    | inr e2 ↦ elim (Bool-cases (ltb (length msg) (message_length (msg_type msg)))) [
      | inl e3 ↦ rw (e, e2, e3) (omega arith)
      | inr e3 ↦ rw (e, e2, e3) (omega arith)
    ]
  ]
]

zero_copy-counted :
    (msg : List ℕ) (s : DecodeStats)
    → counted s + 1 < u64_mod
    → counted (zero_copy msg s).0 ≡ counted s + 1
unfolding zero_copy
zero_copy-counted msg s small = guarded-counted msg _ s small

zero_copy_all-counted :
    (ms : List (List ℕ)) (s : DecodeStats)
    → counted s + length ms < u64_mod
    → counted (zero_copy_all ms s).0 ≡ counted s + length ms
unfolding zero_copy_all
zero_copy_all-counted [] s small = omega arith
zero_copy_all-counted (m ∷ ms) s small =
    let one = zero_copy-counted m s (omega arith) in
    let rest = zero_copy_all-counted ms (zero_copy m s).0 (omega (arith, one)) in
    omega (arith, one, rest)

-- As long as fewer than 2 ^ 64 buffers are counted in all, either decoder counts each buffer that it is
-- given once: as a message, as of an unknown type, or as truncated.
pub decoders-counted :
    (ms : List (List ℕ)) (d : CopyingDecoder)
    → counted d.stats + length ms < u64_mod
    → (counted (zero_copy_all ms d.stats).0 ≡ counted d.stats + length ms)
      × (counted (copying_all ms d).0.stats ≡ counted d.stats + length ms)
decoders-counted ms d small =
    let fast = zero_copy_all-counted ms d.stats small in
    (fast, ap counted (copying_all-zero_copy_all ms d).1 ∙ fast)
