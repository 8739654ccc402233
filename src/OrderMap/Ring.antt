-- ===== src/OrderMap/Ring.antt =====
-- Positions on a ring of `c` slots, with the wrap of an index written as a test.
use tickerplant.Prelude.{ℕ, ◌+◌, ◌-◌, ◌≤◌, ◌<◌, ◌≡◌, ◌≢◌, arith, ltb, leb, if◌then◌else◌}

-- `e` slots after `i`, and `e` slots before it.
abbrev pub fwd : ℕ → ℕ → ℕ → ℕ
fwd c i e = if ltb (i + e) c then i + e else i + e - c

abbrev pub back : ℕ → ℕ → ℕ → ℕ
back c i e = if leb e i then i - e else i + c - e

-- How many slots `i` is after `h`.
abbrev pub dist : ℕ → ℕ → ℕ → ℕ
dist c h i = if leb h i then i - h else i + c - h

module _ (c i : ℕ) (lt : i < c) where
  pub fwd_below : (e : ℕ) → e < c → fwd c i e < c
  fwd_below e h = ground arith

  pub back_below : (e : ℕ) → e < c → back c i e < c
  back_below e h = ground arith

  pub fwd-dist : (h : ℕ) → h < c → fwd c h (dist c h i) ≡ i
  fwd-dist h k = ground arith

  pub dist_below : (h : ℕ) → h < c → dist c h i < c
  dist_below h k = ground arith

  pub dist-fwd : (e : ℕ) → e < c → dist c i (fwd c i e) ≡ e
  dist-fwd e h = ground arith

  pub back-fwd : (e f : ℕ) → e < c → f ≤ e → back c (fwd c i e) f ≡ fwd c i (e - f)
  back-fwd e f h k = ground arith

  pub fwd-back : (e : ℕ) → e < c → fwd c (back c i e) e ≡ i
  fwd-back e h = ground arith

  pub fwd_zero : fwd c i 0 ≡ i
  fwd_zero = ground arith

  pub fwd-fwd : (e f : ℕ) → e + f < c → fwd c (fwd c i e) f ≡ fwd c i (e + f)
  fwd-fwd e f h = ground arith

  pub fwd_injective : (e f : ℕ) → e < c → f < c → fwd c i e ≡ fwd c i f → e ≡ f
  fwd_injective e f h k q = ground arith

  -- Of two slots `e` apart, the further one is as much further from a home that lies behind both.
  pub dist-past :
      (h e : ℕ) → h < c → e < c → e ≤ dist c h (fwd c i e) → dist c h (fwd c i e) ≡ dist c h i + e
  dist-past h e k q r = ground arith

  pub back-past : (e f : ℕ) → e + f < c → back c (fwd c i e) (e + f) ≡ back c i f
  back-past e f h = ground arith

  pub back_moves : (e : ℕ) → 1 ≤ e → e < c → back c i e ≢ i
  back_moves e h k q = ground arith
