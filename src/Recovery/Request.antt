-- ===== src/Recovery/Request.antt =====
-- include/tick/recovery.hpp: a request for `count` sequences from `first_sequence` on.
use tickerplant.Prelude.{ℕ}

pub record RetransmitRequest : Type 0 where
  pub first_sequence : ℕ
  pub count : ℕ
