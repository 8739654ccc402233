-- ===== src/Recovery/Client.antt =====
-- include/tick/recovery.hpp, RecoveryClient: the ranges asked for, when to ask again, when to stop.
use tickerplant.Prelude.{
  ℕ, zero, suc, ◌+◌, ◌-◌, ◌/◌, Bool, true, false, ◌||◌, not, Option, none, some, List, [], ◌∷◌,
  ◌++◌, ltb, leb, ◌==◌, length, if◌then◌else◌, add64, sub64, mul64, inc64,
}
use tickerplant.Recovery.Request.{RetransmitRequest}

pub record RecoveryConfig : Type 0 where
  pub initial_timeout_ns : ℕ
  pub max_timeout_ns : ℕ
  pub max_attempts : ℕ
  pub max_outstanding : ℕ

pub record RecoveryStats : Type 0 where
  pub ranges_requested : ℕ
  pub requests_sent : ℕ
  pub retries : ℕ
  pub responses : ℕ
  pub sequences_filled : ℕ
  pub ranges_abandoned : ℕ
  pub ranges_refused : ℕ

pub record Entry : Type 0 where
  pub first : ℕ
  pub count : ℕ
  pub sent_ns : ℕ
  pub timeout_ns : ℕ
  pub attempts : ℕ
  pub in_flight : Bool

pub record RecoveryClient : Type 0 where
  pub cfg : RecoveryConfig
  pub entries : List Entry
  pub stats : RecoveryStats

abbrev pub max_count : ℕ
max_count = 65535

abbrev positive : ℕ → ℕ
positive n = if n == 0 then 1 else n

-- The constructor mends a configuration that could never ask.
unfoldable pub make : RecoveryConfig → RecoveryClient
make c = record {
  cfg = record {
    initial_timeout_ns = positive c.initial_timeout_ns;
    max_timeout_ns =
        if ltb c.max_timeout_ns (positive c.initial_timeout_ns)
        then positive c.initial_timeout_ns
        else c.max_timeout_ns;
    max_attempts = positive c.max_attempts;
    max_outstanding = positive c.max_outstanding;
  };
  entries = [];
  stats = record {
    ranges_requested = 0;
    requests_sent = 0;
    retries = 0;
    responses = 0;
    sequences_filled = 0;
    ranges_abandoned = 0;
    ranges_refused = 0;
  };
}

abbrev pub fresh_entry : ℕ → ℕ → Entry
fresh_entry seq n = record {
  first = seq;
  count = n;
  sent_ns = 0;
  timeout_ns = 0;
  attempts = 0;
  in_flight = false;
}

abbrev pub chunk : ℕ → ℕ
chunk left = if ltb max_count left then max_count else left

unfoldable pub push_chunk : ℕ → ℕ → RecoveryClient → RecoveryClient
push_chunk seq left s = record s {
  entries = s.entries ++ fresh_entry seq (chunk left) ∷ [];
  stats = record (s.stats) { ranges_requested = inc64 s.stats.ranges_requested };
}

unfoldable pub refuse : RecoveryClient → RecoveryClient
refuse s = record s { stats = record (s.stats) { ranges_refused = inc64 s.stats.ranges_refused } }

-- `while (left > 0)`, with the chunks made so far.
unfoldable pub need_loop : ℕ → ℕ → ℕ → ℕ → RecoveryClient → RecoveryClient × ℕ
unfolding push_chunk refuse
need_loop zero seq left chunks s = (s, chunks)
need_loop (suc f) seq left chunks s =
    let more =
      need_loop f (add64 seq (chunk left)) (left - chunk left) (chunks + 1)
        (push_chunk seq left s) in
    if left == 0
    then (s, chunks)
    else (if leb s.cfg.max_outstanding (length s.entries) then (refuse s, chunks) else more)

-- A round adds an entry or is the last, so there are at most `max_outstanding` and one more.
unfoldable pub need : ℕ → ℕ → RecoveryClient → RecoveryClient × ℕ
unfolding need_loop
need first count s =
    if count == 0 then (s, 0) else need_loop (s.cfg.max_outstanding + 2) first count 0 s

-- `e.timeout_ns > max_timeout_ns / 2 ? max_timeout_ns : e.timeout_ns * 2`
abbrev pub doubled : RecoveryConfig → ℕ → ℕ
doubled c t = if ltb (c.max_timeout_ns / 2) t then c.max_timeout_ns else mul64 t 2

abbrev pub request_of : Entry → RetransmitRequest
request_of e = record { first_sequence = e.first; count = e.count }

-- What a walk over the entries leaves: the entries, the counters, and the request if there is one.
abbrev pub Walk : Type 0
Walk = List Entry × RecoveryStats × Option RetransmitRequest

abbrev pub keep : Entry → Walk → Walk
keep e (es, t, r) = (e ∷ es, t, r)

abbrev pub retried : ℕ → RecoveryConfig → Entry → Entry
retried now c e = record e {
  timeout_ns = doubled c e.timeout_ns;
  sent_ns = now;
  attempts = e.attempts + 1;
}

-- The first loop of `next_request`: abandon what is out of attempts, retry the first that is due.
unfoldable pub walk_expired : ℕ → RecoveryConfig → List Entry → RecoveryStats → Walk
walk_expired now c [] t = ([], t, none)
walk_expired now c (e ∷ es) t =
    let later = walk_expired now c es t in
    let gone = walk_expired now c es (record t { ranges_abandoned = inc64 t.ranges_abandoned }) in
    if not e.in_flight || ltb now (add64 e.sent_ns e.timeout_ns)
    then keep e later
    else (if leb c.max_attempts e.attempts then gone else (
      retried now c e ∷ es,
      record t { requests_sent = inc64 t.requests_sent; retries = inc64 t.retries },
      some (request_of e),
    ))

-- The second loop: send the first entry that has not been sent.
unfoldable pub walk_fresh : ℕ → RecoveryConfig → List Entry → RecoveryStats → Walk
walk_fresh now c [] t = ([], t, none)
walk_fresh now c (e ∷ es) t =
    let later = walk_fresh now c es t in
    if e.in_flight then keep e later else (
      record e { in_flight = true; sent_ns = now; timeout_ns = c.initial_timeout_ns; attempts = 1 }
          ∷ es,
      record t { requests_sent = inc64 t.requests_sent },
      some (request_of e),
    )

abbrev pub walk_both : ℕ → RecoveryConfig → Walk → Walk
walk_both now c (es, t, some r) = (es, t, some r)
walk_both now c (es, t, none) = walk_fresh now c es t

unfoldable pub next_request : ℕ → RecoveryClient → RecoveryClient × Option RetransmitRequest
unfolding walk_expired walk_fresh
next_request now s =
    let (es, t, r) = walk_both now s.cfg (walk_expired now s.cfg s.entries s.stats) in
    (record s { entries = es; stats = t }, r)

abbrev pub fill : ℕ → RecoveryStats → RecoveryStats
fill n t = record t { sequences_filled = add64 t.sequences_filled n }

-- The loop of `on_response`; the last part says whether anything matched.
unfoldable pub walk_response :
    ℕ → ℕ → List Entry → RecoveryStats → List Entry × RecoveryStats × Bool
walk_response first last [] t = ([], t, false)
walk_response first last (e ∷ es) t =
    let end = add64 e.first e.count in
    let apart = walk_response first last es t in
    let whole =
      walk_response first last es
        (fill (sub64 end (if ltb e.first first then first else e.first)) t) in
    let front = walk_response first last es (fill (sub64 last e.first) t) in
    if leb last e.first || leb end first
    then (e ∷ apart.0, apart.1, apart.2)
    else (if leb end last
        then (whole.0, whole.1, true)
        else (if leb first e.first
            then (record e { count = sub64 end last; first = last } ∷ front.0, front.1, true)
            else (e ∷ apart.0, apart.1, true)))

unfoldable pub on_response : ℕ → ℕ → ℕ → RecoveryClient → RecoveryClient
unfolding walk_response
on_response first count now s =
    let (es, t, matched) = walk_response first (add64 first count) s.entries s.stats in
    let t' = if matched then record t { responses = inc64 t.responses } else t in
    if count == 0 then s else record s { entries = es; stats = t' }

unfoldable pub clear : RecoveryClient → RecoveryClient
clear s = record s { entries = [] }
