-- ===== src/Book/Digest.antt =====
-- `digest` of include/tick/book_builder.hpp depends on the orders that rest only, not on the book side,
-- the levels, the pool or the table that hold them.
use tickerplant.Prelude.{
  ℕ, zero, suc, ◌<◌, ◌≡◌, refl, sym, ap, ◌∙◌, subst, Bool, ◌&&◌, Bool-cases, inl, inr, Option, none,
  some, List, [], ◌∷◌, arith, ◌==◌, if◌then◌else◌,
}
use tickerplant.Itch.Event.{HandlerCall}
use tickerplant.Book.State.{Side, Ops, LevelOps, BookBuilder}
use tickerplant.Book.Side.{before, find, locate, for_each}
use tickerplant.Book.Sorted.{AllWorse, IsSorted, find_step}
use tickerplant.Book.Unique.{IsSorted-unique}
use tickerplant.Book.Builder.{ops_of, side_at}
use tickerplant.Book.Handlers.{handle_all}
use tickerplant.Book.Feed.{AllFresh}
use tickerplant.Book.Laws.{OpsLaws, is_bid}
use tickerplant.Book.Ledger.{Ledger, sum, shares_at, orders_at}
use tickerplant.Book.Reference.{meaning_all}
use tickerplant.Book.Places.{LevelAgrees}
use tickerplant.Book.Agrees.{Agrees}
use tickerplant.Book.Refines.{handle_all-Agrees}
use tickerplant.Book.Room.{AllRoom}
use tickerplant.Book.Queries.{
  mix, is_bare, entries_at, visit_digest, digest_book, digest_upto, digest, book_count,
}

-- A level's shares and orders.
abbrev pub Totals : Type 0
Totals = ℕ × ℕ

abbrev totals_of : {L : Type 0} → LevelOps L → L → Totals
totals_of o l = (o.total_quantity l, o.order_count l)

unfoldable totals_all : {L : Type 0} → LevelOps L → List (ℕ × L) → List (ℕ × Totals)
totals_all o [] = []
totals_all o (e ∷ es) = (e.0, totals_of o e.1) ∷ totals_all o es

abbrev map_totals : {L : Type 0} → LevelOps L → Option L → Option Totals
map_totals o none = none
map_totals o (some l) = some (totals_of o l)

-- What is found shows the sums, or there are none.
abbrev Shows : Option Totals → ℕ → ℕ → Type 0
Shows none shares orders = orders ≡ 0
Shows (some t) shares orders = (t.0 ≡ shares) × (t.1 ≡ orders) × (0 < orders)

find_nothing :
    {L : Type 0} (o : LevelOps L) (b : Bool) (q : ℕ)
    → find {L = Totals} b q [] ≡ map_totals o (find b q [])
unfolding find locate
find_nothing o b q = refl

module _ {L : Type 0} (o : LevelOps L) where
  totals_all-AllWorse :
      (b : Bool) (p : ℕ) (s : List (ℕ × L)) → AllWorse b p s → AllWorse b p (totals_all o s)
  unfolding totals_all AllWorse
  totals_all-AllWorse b p [] h = tt
  totals_all-AllWorse b p (e ∷ es) h = (h.0, totals_all-AllWorse b p es h.1)

  totals_all-IsSorted : (b : Bool) (s : List (ℕ × L)) → IsSorted b s → IsSorted b (totals_all o s)
  unfolding totals_all IsSorted
  totals_all-IsSorted b [] h = tt
  totals_all-IsSorted b (e ∷ es) h =
      (totals_all-AllWorse b e.0 es h.0, totals_all-IsSorted b es h.1)

  find-totals_all :
      (b : Bool) (q : ℕ) (s : List (ℕ × L)) → find b q (totals_all o s) ≡ map_totals o (find b q s)
  unfolding totals_all
  find-totals_all b q [] = find_nothing o b q
  find-totals_all b q (e ∷ es) =
      find_step b q (e.0, totals_of o e.1) (totals_all o es) ∙ elim (Bool-cases (before b e.0 q)) [
        | inl k ↦
            let f : find b q (e ∷ es) ≡ find b q es = find_step b q e es ∙ (rw k refl) in
            rw k (find-totals_all b q es ∙ ap (map_totals o) (sym f))
        | inr k ↦ elim (Bool-cases (e.0 == q)) [
          | inl m ↦
              let f : find b q (e ∷ es) ≡ some e.1 = find_step b q e es ∙ (rw (k, m) refl) in
              rw (k, m) (ap (map_totals o) (sym f))
          | inr m ↦
              let f : find b q (e ∷ es) ≡ none = find_step b q e es ∙ (rw (k, m) refl) in
              rw (k, m) (ap (map_totals o) (sym f))
        ]
      ]

  LevelAgrees-Shows :
      (m : Option L) (p shares orders : ℕ)
      → LevelAgrees o m p shares orders
      → Shows (map_totals o m) shares orders
  LevelAgrees-Shows none p shares orders h = h
  LevelAgrees-Shows (some l) p shares orders h = (h.1, h.2, h.3)

Shows-same :
    (m n : Option Totals) (shares orders : ℕ)
    → Shows m shares orders
    → Shows n shares orders
    → m ≡ n
Shows-same none none shares orders h g = refl
Shows-same none (some t) shares orders h g = absurd (omega (arith, h, g.2))
Shows-same (some s) none shares orders h g = absurd (omega (arith, g, h.2))
Shows-same (some s) (some t) shares orders h g =
    let x : s.0 ≡ t.0 = h.0 ∙ sym g.0 in let y : s.1 ≡ t.1 = h.1 ∙ sym g.1 in cc (x, y)

-- The walk of `digest` over what is shown.
unfoldable mix_totals : List (ℕ × Totals) → ℕ → ℕ
mix_totals [] h = h
mix_totals (e ∷ es) h = mix_totals es (mix e.1.1 (mix e.1.0 (mix e.0 h)))

abbrev digest_totals : ℕ → List (ℕ × Totals) → List (ℕ × Totals) → ℕ → ℕ
digest_totals locate bids asks h =
    if is_bare bids && is_bare asks
    then h
    else mix_totals asks (mix 2652 (mix_totals bids (mix 2845 (mix locate h))))

module _ {L S P : Type 0} (k : Ops L S P) where
  for_each-mix_totals :
      (s : List (ℕ × L)) (h : ℕ)
      → for_each (visit_digest k) s h ≡ mix_totals (totals_all k.levels s) h
  unfolding for_each mix_totals totals_all
  for_each-mix_totals [] h = refl
  for_each-mix_totals (e ∷ es) h = for_each-mix_totals es _

  is_bare-totals_all : (s : List (ℕ × L)) → is_bare s ≡ is_bare (totals_all k.levels s)
  unfolding totals_all
  is_bare-totals_all [] = refl
  is_bare-totals_all (e ∷ es) = refl

  digest_book-totals :
      (locate : ℕ) (bids asks : List (ℕ × L)) (h : ℕ)
      → digest_book k locate bids asks h
        ≡ digest_totals locate (totals_all k.levels bids) (totals_all k.levels asks) h
  digest_book-totals locate bids asks h =
      rw
        (
          is_bare-totals_all bids,
          is_bare-totals_all asks,
          for_each-mix_totals bids (mix 2845 (mix locate h)),
          for_each-mix_totals asks
              (mix 2652 (mix_totals (totals_all k.levels bids) (mix 2845 (mix locate h)))),
        )
        refl

-- What a builder shows of a side.
abbrev shown_at : {L S P : Type 0} → Ops L S P → Side → ℕ → BookBuilder S P → List (ℕ × Totals)
shown_at k side locate b = totals_all k.levels (entries_at k side locate b)

module _ {L S P : Type 0} (k : Ops L S P) (new : ℕ → L) (in_use : P → ℕ → Bool)
    (IsSide : Side → S → Type 0) (w : OpsLaws k new in_use IsSide) (b : BookBuilder S P)
    (a : Ledger) (h : Agrees k new in_use IsSide w b a) where
  shown_at-IsSorted : (side : Side) (locate : ℕ) → IsSorted (is_bid side) (shown_at k side locate b)
  shown_at-IsSorted side locate =
      totals_all-IsSorted k.levels (is_bid side) (entries_at k side locate b)
        ((w.sides side).sorted (side_at k side locate b) (h.side side locate))

  shown_at-Shows :
      (side : Side) (locate q : ℕ)
      → Shows
          (find (is_bid side) q (shown_at k side locate b))
          (sum (shares_at side locate q) a)
          (sum (orders_at side locate q) a)
  shown_at-Shows side locate q =
      let seen : find (is_bid side) q (shown_at k side locate b)
          ≡ map_totals k.levels ((ops_of k side).find q (side_at k side locate b)) =
        find-totals_all k.levels (is_bid side) q (entries_at k side locate b)
        ∙ ap (map_totals k.levels)
            ((w.sides side).entries_find q (side_at k side locate b) (h.side side locate)) in
      subst (λ m. Shows m (sum (shares_at side locate q) a) (sum (orders_at side locate q) a))
        (sym seen)
        (LevelAgrees-Shows k.levels ((ops_of k side).find q (side_at k side locate b)) q _ _
          (h.levels side locate q))

module _ {L S P L' S' P' : Type 0} (k : Ops L S P) (new : ℕ → L) (in_use : P → ℕ → Bool)
    (IsSide : Side → S → Type 0) (w : OpsLaws k new in_use IsSide) (k' : Ops L' S' P')
    (new' : ℕ → L') (in_use' : P' → ℕ → Bool) (IsSide' : Side → S' → Type 0)
    (w' : OpsLaws k' new' in_use' IsSide') where
  shown_at-same :
      (b : BookBuilder S P) (b' : BookBuilder S' P') (a : Ledger)
      → Agrees k new in_use IsSide w b a
      → Agrees k' new' in_use' IsSide' w' b' a
      → (side : Side) (locate : ℕ) → shown_at k side locate b ≡ shown_at k' side locate b'
  shown_at-same b b' a h h' side locate =
      IsSorted-unique (is_bid side) (shown_at k side locate b) (shown_at k' side locate b')
        (shown_at-IsSorted k new in_use IsSide w b a h side locate)
        (shown_at-IsSorted k' new' in_use' IsSide' w' b' a h' side locate)
        (λ q.
          Shows-same _ _ _ _ (shown_at-Shows k new in_use IsSide w b a h side locate q)
            (shown_at-Shows k' new' in_use' IsSide' w' b' a h' side locate q))

  digest_upto-same :
      (n : ℕ) (b : BookBuilder S P) (b' : BookBuilder S' P') (a : Ledger)
      → Agrees k new in_use IsSide w b a
      → Agrees k' new' in_use' IsSide' w' b' a
      → digest_upto k n b ≡ digest_upto k' n b'
  unfolding digest_upto
  digest_upto-same zero b b' a h h' = refl
  digest_upto-same (suc n) b b' a h h' =
      let bids = shown_at-same b b' a h h' Side.buy n in
      let asks = shown_at-same b b' a h h' Side.sell n in
      let rest = digest_upto-same n b b' a h h' in
      digest_book-totals k n (entries_at k Side.buy n b) (entries_at k Side.sell n b)
        (digest_upto k n b)
      ∙ ap (λ x. digest_totals n x (shown_at k Side.sell n b) (digest_upto k n b)) bids
      ∙ ap (λ x. digest_totals n (shown_at k' Side.buy n b') x (digest_upto k n b)) asks
      ∙ ap (λ x. digest_totals n (shown_at k' Side.buy n b') (shown_at k' Side.sell n b') x) rest
      ∙ sym (
          digest_book-totals k' n (entries_at k' Side.buy n b') (entries_at k' Side.sell n b')
            (digest_upto k' n b'))

  -- Two builders over any levels, pools and sides that keep their laws, which agree with the
  -- same resting orders, have the same `digest` after the same feed as in `handle_all-Agrees`.
  pub digest-same :
      (cs : List HandlerCall) (b : BookBuilder S P) (b' : BookBuilder S' P') (a : Ledger)
      → AllFresh k cs b
      → AllFresh k' cs b'
      → AllRoom k cs b
      → AllRoom k' cs b'
      → Agrees k new in_use IsSide w b a
      → Agrees k' new' in_use' IsSide' w' b' a
      → digest k (handle_all k cs b) ≡ digest k' (handle_all k' cs b')
  unfolding digest
  digest-same cs b b' a fresh fresh' room room' h h' =
      digest_upto-same book_count (handle_all k cs b) (handle_all k' cs b') (meaning_all cs a)
        (handle_all-Agrees k new in_use IsSide w cs b a fresh room h)
        (handle_all-Agrees k' new' in_use' IsSide' w' cs b' a fresh' room' h')
