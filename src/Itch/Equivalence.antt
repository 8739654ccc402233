-- ===== src/Itch/Equivalence.antt =====
-- The two decoders of include/tick/itch_decoder.hpp tell a handler the same.
use tickerplant.Prelude.{
  ℕ, ◌≤◌, ◌<◌, ◌≡◌, refl, sym, ap, ◌∙◌, subst, true, Bool-cases, inl, inr, Option, none, some,
  Option-cases, List, [], ◌∷◌, ◌++◌, arith, length, take, drop, ltb, ◌==◌, length-take, take_append,
}
use tickerplant.Mold.Frame.{trim_right}
use tickerplant.Itch.Lengths.{
  message_length, is_known_type, message_length-bounds, msg_type, locate, timestamp, stock,
}
use tickerplant.Itch.Event.{
  MsgType, char_of, case_of, case_of-char, HandlerCall, on_stock_directory,
}
use tickerplant.Itch.ZeroCopy.{u32_at, zero_copy_call}
use tickerplant.Itch.Normalize.{normalize, copy_stock, dispatch_case, dispatch}
use tickerplant.Itch.Decoder.{
  guarded, zero_copy, CopyingDecoder, copying, after, stage, Decoded, DecodeStats, DecodeResult,
}
use tickerplant.Itch.Reads.{span, zero_copy_call-take}
use tickerplant.Itch.Window.{trim_right-take}

-- A case of `dispatch` undoes that of `normalize`, up to the text field.
dispatch-normalize :
    (k : Option MsgType) (t : ℕ) (p : List ℕ)
    → dispatch_case k (normalize k t p) ≡ zero_copy_call k t p
unfolding dispatch_case normalize zero_copy_call copy_stock stock trim_right
dispatch-normalize (some MsgType.stock_directory) t p =
    ap (λ l. on_stock_directory (locate p) (timestamp p) l (u32_at 21 p))
      (trim_right-take 8 8 (drop 11 p) (omega arith))
dispatch-normalize none t p = refl
dispatch-normalize k t p = refl

span-le : (k : MsgType) → span (some k) ≤ message_length (char_of k)
unfolding message_length
span-le MsgType.system_event = omega arith
span-le k = omega arith

known_type : (t : ℕ) → 0 < message_length t → is_known_type t ≡ true
unfolding is_known_type
known_type t h = ground arith

span-case_of : (t : ℕ) → 0 < message_length t → span (case_of t) ≤ message_length t
span-case_of t h = elim (Option-cases (case_of t)) [
  | inl other ↦
      subst (λ o. span o ≤ message_length t) (sym other)
        (omega (arith, (message_length-bounds t (known_type t h)).0))
  | inr (k, e) ↦
      subst (λ o. span o ≤ message_length t) (sym e)
        (subst (λ c. span (some k) ≤ message_length c) (sym (case_of-char t k e)) (span-le k))
]

normalize-type : (k : Option MsgType) (t : ℕ) (p : List ℕ) → (normalize k t p).type ≡ t
unfolding normalize copy_stock
normalize-type none t p = refl
normalize-type (some MsgType.add_order) t p = refl
normalize-type k t p = refl

take-stage :
    (len : ℕ) (msg old : List ℕ) → len ≤ length msg → take len (stage len msg old) ≡ take len msg
take-stage len msg old h =
    let e : length (take len msg) ≡ len = omega (arith, length-take len msg) in
    subst (λ k. take k (take len msg ++ drop len old) ≡ take len msg) e
      (take_append (take len msg) (drop len old))

-- The call made from the staging buffer is the one made from the receive buffer.
same_call :
    (t : ℕ) (msg old : List ℕ)
    → 0 < message_length t
    → message_length t ≤ length msg
    → dispatch (normalize (case_of t) t (stage (message_length t) msg old))
      ≡ zero_copy_call (case_of t) t msg
unfolding dispatch
same_call t msg old pos fits =
    let k = case_of t in
    let len = message_length t in
    let staged = stage len msg old in
    let wide = span-case_of t pos in
    ap (λ c. dispatch_case (case_of c) (normalize k t staged)) (normalize-type k t staged)
    ∙ dispatch-normalize k t staged
    ∙ sym (zero_copy_call-take k t len staged wide)
    ∙ ap (zero_copy_call k t) (take-stage len msg old fits)
    ∙ zero_copy_call-take k t len msg wide

-- The guards pass on a call for a known type that fits only.
guarded-ap :
    (msg : List ℕ) (c c' : HandlerCall) (s : DecodeStats)
    → (0 < message_length (msg_type msg) → message_length (msg_type msg) ≤ length msg → c ≡ c')
    → guarded msg c s ≡ guarded msg c' s
guarded-ap msg c c' s h = elim (Bool-cases (length msg == 0)) [
  | inl e ↦ rw e refl
  | inr e ↦ elim (Bool-cases (message_length (msg_type msg) == 0)) [
    | inl e2 ↦ rw (e, e2) refl
    | inr e2 ↦ elim (Bool-cases (ltb (length msg) (message_length (msg_type msg)))) [
      | inl e3 ↦ rw (e, e2, e3) refl
      | inr e3 ↦ rw (e, e2, e3, h (ground arith) (ground arith)) refl
    ]
  ]
]

either_stats :
    (r : DecodeResult) (a b : CopyingDecoder) (s : DecodeStats)
    → a.stats ≡ s
    → b.stats ≡ s
    → (after r a b).stats ≡ s
either_stats DecodeResult.ok a b s h k = h
either_stats DecodeResult.truncated a b s h k = k
either_stats DecodeResult.unknown_type a b s h k = k

pub copying-zero_copy :
    (msg : List ℕ) (d : CopyingDecoder)
    → ((copying msg d).1 ≡ (zero_copy msg d.stats).1)
      × ((copying msg d).0.stats ≡ (zero_copy msg d.stats).0)
unfolding copying zero_copy
copying-zero_copy msg d =
    let t = msg_type msg in
    let staged = stage (message_length t) msg d.staging in
    let event = normalize (case_of t) t staged in
    let same : guarded msg (dispatch event) d.stats
        ≡ guarded msg (zero_copy_call (case_of t) t msg) d.stats =
      guarded-ap msg (dispatch event) (zero_copy_call (case_of t) t msg) d.stats
        (same_call t msg d.staging) in
    let out = guarded msg (dispatch event) d.stats in
    (
      ap (λ r. r.1) same,
      either_stats out.1.result (record { staging = staged; event = event; stats = out.0 })
            (record d { stats = out.0 }) out.0 refl refl
          ∙ ap (λ r. r.0) same,
    )

-- A decoder over a session of messages: the counters at the end and the outcome of each message.
unfoldable pub zero_copy_all : List (List ℕ) → DecodeStats → DecodeStats × List Decoded
unfolding zero_copy
zero_copy_all [] s = (s, [])
zero_copy_all (m ∷ ms) s =
    let (s1, out) = zero_copy m s in let (s2, outs) = zero_copy_all ms s1 in (s2, out ∷ outs)

unfoldable pub copying_all : List (List ℕ) → CopyingDecoder → CopyingDecoder × List Decoded
unfolding copying
copying_all [] d = (d, [])
copying_all (m ∷ ms) d =
    let (d1, out) = copying m d in let (d2, outs) = copying_all ms d1 in (d2, out ∷ outs)

-- Over any messages, good, short or unknown, the two decoders give the same results, tell the handler
-- the same calls with the same arguments, consume the same lengths, and end with the same counters,
-- whatever the copying decoder's buffer and event held at the start.
pub copying_all-zero_copy_all :
    (ms : List (List ℕ)) (d : CopyingDecoder)
    → ((copying_all ms d).1 ≡ (zero_copy_all ms d.stats).1)
      × ((copying_all ms d).0.stats ≡ (zero_copy_all ms d.stats).0)
unfolding copying_all zero_copy_all
copying_all-zero_copy_all [] d = (refl, refl)
copying_all-zero_copy_all (m ∷ ms) d =
    let one = copying-zero_copy m d in
    let d1 = (copying m d).0 in
    let rest =
      subst
        (λ s.
          ((copying_all ms d1).1 ≡ (zero_copy_all ms s).1)
          × ((copying_all ms d1).0.stats ≡ (zero_copy_all ms s).0))
        one.1 (copying_all-zero_copy_all ms d1) in
    (cc (one.0, rest.0), rest.1)
