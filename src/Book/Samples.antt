-- ===== src/Book/Samples.antt =====
-- A builder of include/tick/book_builder.hpp over concrete levels, pool and sides that keep their laws,
-- and a feed for it.
use tickerplant.Prelude.{
  some-injective, none-ne-some, subst, ap, ℕ, ◌+◌, ◌-◌, ◌≡◌, refl, Bool, true, false, none, some,
  List, [], ◌∷◌, arith, ltb, ◌==◌, ◌&&◌, if◌then◌else◌,
}
use tickerplant.OrderMap.Table.{empty, split_mix_64}
use tickerplant.OrderMap.Valid.{IsTable}
use tickerplant.OrderMap.Grow.{blank-IsSound}
use tickerplant.OrderMap.Calls.{get_blank}
use tickerplant.Itch.Event.{HandlerCall, on_add, on_execute, on_replace}
use tickerplant.Book.Side
use tickerplant.Book.Sorted.{IsSorted}
use tickerplant.Book.Symbols.{no_symbol}
use tickerplant.Book.State.{Side, LevelOps, PoolOps, Ops, BookBuilder}
use tickerplant.Book.Builder.{ops_of, side_at}
use tickerplant.Book.Live.{resting}
use tickerplant.Book.Runs.{vector_side}
use tickerplant.Book.Ledger.{IsDistinct, order_of, sum}
use tickerplant.Book.Laws.{
  HasRoom, LevelLaws, PoolLaws, SideLaws, OpsLaws, vector_side-SideLaws, is_bid,
}
use tickerplant.Book.Places.{LevelsAgree, sides_of}
use tickerplant.Book.Agrees.{Agrees}
use tickerplant.Book.Room.{AllRoom}
use tickerplant.Book.Handlers.{handle}

-- A level with its shares, its number of orders and its price.
abbrev pub counts : LevelOps (ℕ × ℕ × ℕ)
counts = record {
  append = λ o x l. (l.0, l.1 + x.remaining_qty, l.2 + 1);
  remove = λ o x l. (l.0, l.1 - x.remaining_qty, l.2 - 1);
  reduce = λ n l. (l.0, l.1 - n, l.2);
  is_empty = λ l. l.2 == 0;
  price = λ l. l.0;
  total_quantity = λ l. l.1;
  order_count = λ l. l.2;
}

-- The same, kept otherwise.
abbrev pub others : LevelOps ((ℕ × ℕ) × ℕ)
others = record {
  append = λ o x l. ((l.0.0 + 1, l.0.1 + x.remaining_qty), l.1);
  remove = λ o x l. ((l.0.0 - 1, l.0.1 - x.remaining_qty), l.1);
  reduce = λ n l. ((l.0.0, l.0.1 - n), l.1);
  is_empty = λ l. l.0.0 == 0;
  price = λ l. l.1;
  total_quantity = λ l. l.0.1;
  order_count = λ l. l.0.0;
}

-- A pool without end: the places below the first have been given out, and those that are in use.
abbrev pub endless : PoolOps (ℕ × (ℕ → Bool))
endless = record {
  allocate = λ p. some (p.0, (p.0 + 1, λ r. if r == p.0 then true else ltb r p.0 && p.1 r));
  deallocate = λ o p. (p.0, λ r. if r == o then false else p.1 r);
  make_order = λ ref side price shares ts locate. record {
    side = side;
    price = price;
    remaining_qty = shares;
    symbol = locate;
  };
}

abbrev pub in_use : ℕ × (ℕ → Bool) → ℕ → Bool
in_use p q = ltb q p.0 && p.1 q

abbrev pub Sides : Type 0 → Type 0
Sides L = List (ℕ × L)

-- Vectors of the given levels.
abbrev pub parts_of : {L : Type 0} → LevelOps L → (ℕ → L) → Ops L (Sides L) (ℕ × (ℕ → Bool))
parts_of o new = record {
  bids = vector_side true new;
  asks = vector_side false new;
  levels = o;
  pools = endless;
}

abbrev pub new_level : ℕ → ℕ × ℕ × ℕ
new_level p = (p, 0, 0)

abbrev pub parts : Ops (ℕ × ℕ × ℕ) (Sides (ℕ × ℕ × ℕ)) (ℕ × (ℕ → Bool))
parts = parts_of counts new_level

abbrev pub new_other : ℕ → (ℕ × ℕ) × ℕ
new_other p = ((0, 0), p)

abbrev pub other_parts : Ops ((ℕ × ℕ) × ℕ) (Sides ((ℕ × ℕ) × ℕ)) (ℕ × (ℕ → Bool))
other_parts = parts_of others new_other

abbrev pub start_of : (L : Type 0) → BookBuilder (Sides L) (ℕ × (ℕ → Bool))
start_of L = record {
  pool = (0, λ r. false);
  store = λ o. record { side = Side.buy; price = 0; remaining_qty = 0; symbol = 0 };
  orders = empty 0 8;
  bids = λ l. [];
  asks = λ l. [];
  totals = λ l. record {
    executed_shares = 0;
    executed_notional = 0;
    hidden_shares = 0;
    cross_shares = 0;
    messages = 0;
  };
  symbols = record { entries = λ l. no_symbol; defined = 0 };
  stats = record {
    messages = 0;
    adds = 0;
    adds_mpid = 0;
    executes = 0;
    executes_with_price = 0;
    cancels = 0;
    deletes = 0;
    replaces = 0;
    trades = 0;
    cross_trades = 0;
    broken_trades = 0;
    directory_entries = 0;
    trading_actions = 0;
    system_events = 0;
    other = 0;
    duplicate_refs = 0;
    orphan_executes = 0;
    orphan_cancels = 0;
    orphan_deletes = 0;
    orphan_replaces = 0;
    overfills = 0;
    pool_exhausted = 0;
    unknown_side = 0;
    live_orders = 0;
    peak_live_orders = 0;
    peak_levels = 0;
    last_timestamp = 0;
    session_state = 0;
  };
}

abbrev pub start : BookBuilder (Sides (ℕ × ℕ × ℕ)) (ℕ × (ℕ → Bool))
start = start_of (ℕ × ℕ × ℕ)

abbrev pub other_start : BookBuilder (Sides ((ℕ × ℕ) × ℕ)) (ℕ × (ℕ → Bool))
other_start = start_of ((ℕ × ℕ) × ℕ)

-- Two orders, a partial and a whole execution, and a replacement.
abbrev pub feed : List HandlerCall
feed =
    on_add 1 10 5 66 100 2000 false
    ∷ on_add 1 11 6 66 50 2100 false
    ∷ on_execute 1 12 5 40 1
    ∷ on_execute 1 13 6 50 2
    ∷ on_replace 1 14 5 7 30 2200
    ∷ []

counts-LevelLaws : LevelLaws counts new_level
counts-LevelLaws = record {
  new_price = λ p. refl;
  new_total = λ p. refl;
  new_count = λ p. refl;
  append_price = λ q x l. refl;
  append_total = λ q x l. refl;
  append_count = λ q x l. refl;
  remove_price = λ q x l. refl;
  remove_total = λ q x l. refl;
  remove_count = λ q x l. refl;
  reduce_price = λ n l. refl;
  reduce_total = λ n l. refl;
  reduce_count = λ n l. refl;
  empty = λ l. refl;
}

others-LevelLaws : LevelLaws others new_other
others-LevelLaws = record {
  new_price = λ p. refl;
  new_total = λ p. refl;
  new_count = λ p. refl;
  append_price = λ q x l. refl;
  append_total = λ q x l. refl;
  append_count = λ q x l. refl;
  remove_price = λ q x l. refl;
  remove_total = λ q x l. refl;
  remove_count = λ q x l. refl;
  reduce_price = λ n l. refl;
  reduce_total = λ n l. refl;
  reduce_count = λ n l. refl;
  empty = λ l. refl;
}

endless-taken :
    (n r : ℕ) (u : Bool)
    → (ltb r (n + 1) && (if r == n then true else ltb r n && u))
      ≡ (if r == n then true else ltb r n && u)
endless-taken n r true = ground arith
endless-taken n r false = ground arith

endless-given :
    (q r : ℕ) (below u : Bool)
    → (below && (if r == q then false else u)) ≡ (if r == q then false else below && u)
endless-given q r true u = refl
endless-given q r false u = ground arith

fresh_place :
    (p p' : ℕ × (ℕ → Bool)) (q : ℕ)
    → ◌≡◌ {A = ℕ × (ℕ × (ℕ → Bool))}
        (p.0, (p.0 + 1, λ r. if r == p.0 then true else ltb r p.0 && p.1 r))
        (q, p')
    → in_use p q ≡ false
fresh_place p p' q h =
    subst (λ z. in_use p z ≡ false) (ap (λ z. z.0) h)
      (let e : ltb p.0 p.0 ≡ false = ground arith in rw e refl)

taken_place :
    (p p' : ℕ × (ℕ → Bool)) (q r : ℕ)
    → ◌≡◌ {A = ℕ × (ℕ × (ℕ → Bool))}
        (p.0, (p.0 + 1, λ r. if r == p.0 then true else ltb r p.0 && p.1 r))
        (q, p')
    → in_use p' r ≡ (if r == q then true else in_use p r)
taken_place p p' q r h =
    subst (λ z. in_use z.1 r ≡ (if r == z.0 then true else in_use p r)) h
      (endless-taken p.0 r (p.1 r))

endless_room : (p : ℕ × (ℕ → Bool)) → HasRoom endless p
endless_room p = (p.0, (p.0 + 1, λ r. if r == p.0 then true else ltb r p.0 && p.1 r), refl)

endless-PoolLaws : PoolLaws endless in_use
endless-PoolLaws = record {
  fresh = λ p p' q h. fresh_place p p' q (some-injective h);
  taken = λ p p' q r h. taken_place p p' q r (some-injective h);
  given = λ p q r. endless-given q r (ltb r p.0) (p.1 r);
  given_room = λ p q h. endless_room (endless.deallocate q p);
  made = λ ref side price shares ts locate. refl;
}

abbrev pub IsSampleSide : {L : Type 0} → Side → Sides L → Type 0
IsSampleSide side = IsSorted (is_bid side)

module _ {L : Type 0} (o : LevelOps L) (new : ℕ → L) (laws : LevelLaws o new) where
  sides-SideLaws : (s : Side) → SideLaws (ops_of (parts_of o new) s) new (is_bid s) (IsSampleSide s)
  sides-SideLaws Side.buy = vector_side-SideLaws true new
  sides-SideLaws Side.sell = vector_side-SideLaws false new

  parts_of-OpsLaws : OpsLaws (parts_of o new) new in_use IsSampleSide
  parts_of-OpsLaws = record { levels = laws; pools = endless-PoolLaws; sides = sides-SideLaws }

  parts_of-AllRoom :
      (cs : List HandlerCall) (b : BookBuilder (Sides L) (ℕ × (ℕ → Bool)))
      → AllRoom (parts_of o new) cs b
  unfolding AllRoom
  parts_of-AllRoom [] b = tt
  parts_of-AllRoom (c ∷ cs) b =
      (endless_room b.pool, parts_of-AllRoom cs (handle (parts_of o new) c b))

  start_levels : LevelsAgree (parts_of o new) (sides_of (parts_of o new) (start_of L)) []
  unfolding Side.find sum
  start_levels Side.buy locate price = refl
  start_levels Side.sell locate price = refl

  start_sides :
      (s : Side) (locate : ℕ) → IsSampleSide s (side_at (parts_of o new) s locate (start_of L))
  unfolding IsSorted
  start_sides Side.buy locate = tt
  start_sides Side.sell locate = tt

  start-IsTable : IsTable split_mix_64 (start_of L).orders
  start-IsTable = (blank-IsSound _ (empty 0 8) 3 refl refl (λ i. refl) refl, omega arith)

  nothing_rests : (y : ℕ) → resting (start_of L).orders y ≡ none
  nothing_rests y = get_blank split_mix_64 (start_of L).orders start-IsTable (λ i. refl) y

  -- At the start no order rests.
  start_of-Agrees : Agrees (parts_of o new) new in_use IsSampleSide parts_of-OpsLaws (start_of L) []
  unfolding order_of IsDistinct
  start_of-Agrees = record {
    pointers = record {
      table = start-IsTable;
      orders = nothing_rests;
      apart = λ y z o e f. absurd (none-ne-some _ (nothing_rests y) e);
      distinct = tt;
    };
    side = start_sides;
    levels = start_levels;
  }

pub parts-OpsLaws : OpsLaws parts new_level in_use IsSampleSide
parts-OpsLaws = parts_of-OpsLaws counts new_level counts-LevelLaws

pub parts-AllRoom : AllRoom parts feed start
parts-AllRoom = parts_of-AllRoom counts new_level counts-LevelLaws feed start

pub start-Agrees : Agrees parts new_level in_use IsSampleSide parts-OpsLaws start []
start-Agrees = start_of-Agrees counts new_level counts-LevelLaws

pub other_parts-OpsLaws : OpsLaws other_parts new_other in_use IsSampleSide
other_parts-OpsLaws = parts_of-OpsLaws others new_other others-LevelLaws

pub other_parts-AllRoom : AllRoom other_parts feed other_start
other_parts-AllRoom = parts_of-AllRoom others new_other others-LevelLaws feed other_start

pub other_start-Agrees :
    Agrees other_parts new_other in_use IsSampleSide other_parts-OpsLaws other_start []
other_start-Agrees = start_of-Agrees others new_other others-LevelLaws
