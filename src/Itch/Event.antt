-- ===== src/Itch/Event.antt =====
-- include/tick/itch.hpp and include/tick/itch_decoder.hpp: the message types, what a handler is told
-- of a message, and the owned form of one.
use tickerplant.Prelude.{
  ℕ, ◌≡◌, sym, ap, ◌∙◌, subst, ==_iff, Bool, Option, none, some, List, [], ◌∷◌, ◌==◌, arith,
  Bool-cases, inl, inr, if◌then◌else◌,
}

pub data MsgType : Type 0 where
  system_event : MsgType
  stock_directory : MsgType
  trading_action : MsgType
  reg_sho : MsgType
  participant_position : MsgType
  mwcb_decline_level : MsgType
  mwcb_status : MsgType
  ipo_quoting_period : MsgType
  luld_auction_collar : MsgType
  operational_halt : MsgType
  add_order : MsgType
  add_order_mpid : MsgType
  order_executed : MsgType
  order_executed_price : MsgType
  order_cancel : MsgType
  order_delete : MsgType
  order_replace : MsgType
  trade : MsgType
  cross_trade : MsgType
  broken_trade : MsgType
  noii : MsgType
  rpii : MsgType
  direct_listing_cap_raise : MsgType

-- The character of a type.
abbrev pub char_of : MsgType → ℕ
char_of MsgType.system_event = 83
char_of MsgType.stock_directory = 82
char_of MsgType.trading_action = 72
char_of MsgType.reg_sho = 89
char_of MsgType.participant_position = 76
char_of MsgType.mwcb_decline_level = 86
char_of MsgType.mwcb_status = 87
char_of MsgType.ipo_quoting_period = 75
char_of MsgType.luld_auction_collar = 74
char_of MsgType.operational_halt = 104
char_of MsgType.add_order = 65
char_of MsgType.add_order_mpid = 70
char_of MsgType.order_executed = 69
char_of MsgType.order_executed_price = 67
char_of MsgType.order_cancel = 88
char_of MsgType.order_delete = 68
char_of MsgType.order_replace = 85
char_of MsgType.trade = 80
char_of MsgType.cross_trade = 81
char_of MsgType.broken_trade = 66
char_of MsgType.noii = 73
char_of MsgType.rpii = 78
char_of MsgType.direct_listing_cap_raise = 79

-- The types that the decoders have a case for; each other goes to `default`.
abbrev pub cases : List MsgType
cases =
    MsgType.add_order ∷ MsgType.order_delete ∷ MsgType.order_replace ∷ MsgType.order_executed
    ∷ MsgType.order_cancel ∷ MsgType.order_executed_price ∷ MsgType.add_order_mpid ∷ MsgType.trade
    ∷ MsgType.cross_trade ∷ MsgType.broken_trade ∷ MsgType.stock_directory ∷ MsgType.trading_action
    ∷ MsgType.system_event ∷ []

-- The case of a `switch` that a character takes, of those listed; `none` is `default`.
unfoldable pub case_in : List MsgType → ℕ → Option MsgType
case_in [] c = none
case_in (k ∷ ks) c = let rest = case_in ks c in if c == char_of k then some k else rest

unfoldable pub case_of : ℕ → Option MsgType
unfolding case_in
case_of c = case_in cases c

-- The calls of an `ItchHandler`, with their arguments in order.
pub data HandlerCall : Type 0 where
  on_system_event : ℕ → ℕ → HandlerCall
  on_stock_directory : ℕ → ℕ → List ℕ → ℕ → HandlerCall
  on_trading_action : ℕ → ℕ → ℕ → HandlerCall
  on_add : ℕ → ℕ → ℕ → ℕ → ℕ → ℕ → Bool → HandlerCall
  on_execute : ℕ → ℕ → ℕ → ℕ → ℕ → HandlerCall
  on_execute_price : ℕ → ℕ → ℕ → ℕ → ℕ → Bool → ℕ → HandlerCall
  on_cancel : ℕ → ℕ → ℕ → ℕ → HandlerCall
  on_delete : ℕ → ℕ → ℕ → HandlerCall
  on_replace : ℕ → ℕ → ℕ → ℕ → ℕ → ℕ → HandlerCall
  on_trade : ℕ → ℕ → ℕ → ℕ → ℕ → ℕ → ℕ → HandlerCall
  on_cross_trade : ℕ → ℕ → ℕ → ℕ → ℕ → ℕ → HandlerCall
  on_broken_trade : ℕ → ℕ → ℕ → HandlerCall
  on_other : ℕ → ℕ → ℕ → HandlerCall

pub record NormalizedEvent : Type 0 where
  pub timestamp : ℕ
  pub ref : ℕ
  pub ref2 : ℕ
  pub match : ℕ
  pub shares : ℕ
  pub price : ℕ
  pub round_lot : ℕ
  pub locate : ℕ
  pub tracking : ℕ
  pub type : ℕ
  pub side : ℕ
  pub aux : ℕ
  pub stock_len : ℕ
  pub has_mpid : Bool
  pub printable : Bool
  pub stock : List ℕ

some_injective : {x y : MsgType} → some x ≡ some y → x ≡ y
some_injective h = cc h

-- A character takes the case of a type only if it is its character.
case_in-char : (ks : List MsgType) (c : ℕ) (k : MsgType) → case_in ks c ≡ some k → c ≡ char_of k
unfolding case_in
case_in-char [] c k h = ground arith
case_in-char (x ∷ ks) c k h = elim (Bool-cases (c == char_of x)) [
  | inl e ↦
      let same : x ≡ k =
        some_injective (ap (λ b. if b then some x else case_in ks c) (sym e) ∙ h) in
      subst (λ y. c ≡ char_of y) same ((==_iff c (char_of x)).0 e)
  | inr e ↦ case_in-char ks c k (ap (λ b. if b then some x else case_in ks c) (sym e) ∙ h)
]

pub case_of-char : (c : ℕ) (k : MsgType) → case_of c ≡ some k → c ≡ char_of k
unfolding case_of
case_of-char c k h = case_in-char cases c k h
