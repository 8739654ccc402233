-- ===== src/Sequencer/Construct.antt =====
-- The constructor of include/tick/sequencer.hpp, and the start of a session.
use tickerplant.Prelude.{ℕ, ◌+◌, ◌^◌, ◌<◌, ◌≤◌, ◌≡◌, some, [], refl, arith, u64_mod, u32_mod, ap}
use mathlib.Core.Option
use tickerplant.Pow2.{IsRounded, round_up_pow2-IsRounded}
use tickerplant.Sequencer.State.{Sequencer, Config, Delivery}
use tickerplant.Sequencer.Ingest.{at_least_one, initial, make, reset}
use tickerplant.Sequencer.Invariant.{RingOf}
use tickerplant.Sequencer.Valid.{IsValid}
use tickerplant.Sequencer.Run.{reset-IsValid}

-- A configuration whose window and payload can be allocated.
pub record IsSane (cfg : Config) : Type 0 where
  pub window : cfg.reorder_window ≤ 2 ^ 63
  pub payload : cfg.max_payload < u32_mod

pub record IsBuilt (cfg : Config) (s : Sequencer) : Type 0 where
  pub ring : RingOf s
  pub silent : s.sent ≡ []
  pub roomy : cfg.reorder_window ≤ s.capacity

initial-IsBuilt :
    (cfg : Config) (c : ℕ)
    → IsSane cfg
    → IsRounded (at_least_one cfg.reorder_window) c
    → IsBuilt cfg (initial cfg c)
initial-IsBuilt cfg c sane r = record {
  ring = record {
    width = r.width;
    size = r.is_pow;
    masked = refl;
    narrow = ground (arith, sane.payload);
  };
  silent = refl;
  roomy = ground (arith, r.enough);
}

-- Construction succeeds on every sane configuration, with a ring at least as large as asked for.
pub make-IsBuilt :
    (cfg : Config) → IsSane cfg → (s : Sequencer) × (make cfg ≡ some s) × IsBuilt cfg s
unfolding make
make-IsBuilt cfg sane =
    let (c, e, r) =
      round_up_pow2-IsRounded (at_least_one cfg.reorder_window) (ground (arith, sane.window)) in
    (initial cfg c, ap (Option.map (initial cfg)) e, initial-IsBuilt cfg c sane r)

-- A session of a built sequencer starts valid.
pub session-IsValid :
    {P : Delivery → Type 0} (cfg : Config) (first : ℕ) {s : Sequencer}
    → IsBuilt cfg s
    → first + s.capacity ≤ u64_mod
    → IsValid P (reset first s)
session-IsValid cfg first {s} b room =
    reset-IsValid first s b.ring room (rw b.silent tt) (rw b.silent tt)
