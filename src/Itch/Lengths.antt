-- ===== src/Itch/Lengths.antt =====
-- include/tick/itch.hpp: the table of message lengths, and the header of a message.
use tickerplant.Prelude.{
  ℕ, ◌≤◌, ◌<◌, ◌≡◌, refl, Bool, true, ◌⊎◌, inl, inr, List, [], ◌∷◌, drop, not, ◌==◌, arith, All,
  Bool-cases, if◌then◌else◌,
}
use tickerplant.Endian.{be_load, be_load_u48}
use tickerplant.Mold.Frame.{byte_at, trim_right}

-- The entries of the table that are set; the others are zero.
abbrev pub lengths : List (ℕ × ℕ)
lengths =
    (83, 12)
    ∷ (82, 39)
    ∷ (72, 25)
    ∷ (89, 20)
    ∷ (76, 26)
    ∷ (86, 35)
    ∷ (87, 12)
    ∷ (75, 28)
    ∷ (74, 35)
    ∷ (104, 21)
    ∷ (65, 36)
    ∷ (70, 40)
    ∷ (69, 31)
    ∷ (67, 36)
    ∷ (88, 23)
    ∷ (68, 19)
    ∷ (85, 35)
    ∷ (80, 44)
    ∷ (81, 40)
    ∷ (66, 19)
    ∷ (73, 50)
    ∷ (78, 20)
    ∷ (79, 48)
    ∷ []

unfoldable pub look_up : ℕ → List (ℕ × ℕ) → ℕ
look_up t [] = 0
look_up t (e ∷ es) = let rest = look_up t es in if t == e.0 then e.1 else rest

unfoldable pub message_length : ℕ → ℕ
unfolding look_up
message_length t = look_up t lengths

unfoldable pub is_known_type : ℕ → Bool
unfolding message_length
is_known_type t = not (message_length t == 0)

-- The fields of the header.
unfoldable pub msg_type : List ℕ → ℕ
unfolding byte_at
msg_type p = byte_at 0 p

unfoldable pub locate : List ℕ → ℕ
unfolding be_load
locate p = be_load 2 (drop 1 p)

unfoldable pub tracking : List ℕ → ℕ
unfolding be_load
tracking p = be_load 2 (drop 3 p)

unfoldable pub timestamp : List ℕ → ℕ
unfolding be_load_u48
timestamp p = be_load_u48 (drop 5 p)

abbrev pub stock_len : ℕ
stock_len = 8

unfoldable pub stock : List ℕ → List ℕ
unfolding trim_right
stock p = trim_right p stock_len

abbrev pub max_message_len : ℕ
max_message_len = 50

abbrev pub header_len : ℕ
header_len = 11

look_up-within :
    (t : ℕ) (es : List (ℕ × ℕ))
    → All (λ e. (header_len < e.1) × (e.1 ≤ max_message_len)) es
    → (look_up t es ≡ 0) ⊎ ((header_len < look_up t es) × (look_up t es ≤ max_message_len))
unfolding look_up
look_up-within t [] a = inl refl
look_up-within t (e ∷ es) a = elim (Bool-cases (t == e.0)) [
  | inl same ↦ rw same (inr a.0)
  | inr other ↦ rw other (look_up-within t es a.1)
]

-- Whatever the byte of the type is, a message of a known type is longer than the header that all
-- messages share, and not longer than the buffer that the copying decoder stages it in.
pub message_length-bounds :
    (t : ℕ)
    → is_known_type t ≡ true
    → (header_len < message_length t) × (message_length t ≤ max_message_len)
unfolding is_known_type message_length
message_length-bounds t k = elim (look_up-within t lengths (omega arith)) [
  | inl none_there ↦ ground (arith, none_there)
  | inr within ↦ within
]
