-- ===== src/Limits.antt =====
-- The caps of core/ratelimit.py: `RunCallCap`, `DailyCallCap` and `SourceLimiter.acquire`, for any
-- number of requests at once. A turn of a request is one command to Redis and what the process does
-- with its answer, so the turns of different requests come in any order. Keys do not expire here:
-- theirs is two days, longer than a run or a day. The token bucket answers as it likes.
pub mod Counted
pub mod Abstract
pub mod Daily
pub mod Settled
mod Tests
use lead_discovery_rader.Prelude.{
  ℕ, zero, suc, ◌+◌, Option, none, some, List, [], ◌∷◌, Bool, true, false, ltb, ◌==◌, if◌then◌else◌,
}

-- The value of a counter is `added - removed`, which may be below zero.
pub record Counter : Type 0 where
  pub added : ℕ
  pub removed : ℕ

pub record Redis : Type 0 where
  pub runs : ℕ → Counter
  pub days : ℕ → Counter

pub record Caps : Type 0 where
  pub run_cap : ℕ
  pub daily_cap : ℕ

pub data Refusal : Type 0 where
  run_call_cap_exceeded quota_exceeded rate_limited : Refusal

-- Where a request is in `acquire`, or that it went out.
pub data Stage : Type 0 where
  idle run_refused at_daily at_bucket giving_back sent : Stage
  daily_refused : ℕ → Stage
  run_release : Refusal → Stage
  failed : Refusal → Stage

-- A request, with the run whose cap it counts against, if any.
pub record Call : Type 0 where
  pub run : Option ℕ
  pub stage : Stage

pub data Bucket : Type 0 where
  token waits gives_up : Bucket

abbrev pub incr : Counter → Counter
incr c = record c { added = c.added + 1 }

abbrev pub decr : Counter → Counter
decr c = record c { removed = c.removed + 1 }

abbrev pub is_over : ℕ → Counter → Bool
is_over cap c = ltb (cap + c.removed) c.added

abbrev pub change : ℕ → (Counter → Counter) → (ℕ → Counter) → ℕ → Counter
change key next counters other = if other == key then next (counters other) else counters other

abbrev pub change_run : Option ℕ → (Counter → Counter) → Redis → Redis
change_run none next redis = redis
change_run (some run) next redis = record redis { runs = change run next redis.runs }

abbrev pub change_day : ℕ → (Counter → Counter) → Redis → Redis
change_day day next redis = record redis { days = change day next redis.days }

-- `RunCallCap.reserve`, from the answer to its `INCR`.
abbrev pub reserve_run : ℕ → Option ℕ → Redis → Stage
reserve_run cap none redis = at_daily
reserve_run cap (some run) redis = if is_over cap (redis.runs run) then run_refused else at_daily

-- `DailyCallCap.reserve`, from the answer to its `INCR`.
abbrev pub reserve_day : ℕ → ℕ → Redis → Stage
reserve_day cap day redis = if is_over cap (redis.days day) then daily_refused day else at_bucket

abbrev pub ask_bucket : Bucket → Stage
ask_bucket token = sent
ask_bucket waits = at_bucket
ask_bucket gives_up = giving_back

-- One turn of `SourceLimiter.acquire`. A release of the daily cap asks the date again.
unfoldable pub acquire : Caps → ℕ → Bucket → Option ℕ → Stage → Redis → Stage × Redis
acquire caps today bucket run idle redis =
    let counted = change_run run incr redis in (reserve_run caps.run_cap run counted, counted)
acquire caps today bucket run run_refused redis =
    (failed run_call_cap_exceeded, change_run run decr redis)
acquire caps today bucket run at_daily redis =
    let counted = change_day today incr redis in (reserve_day caps.daily_cap today counted, counted)
acquire caps today bucket run (daily_refused day) redis =
    (run_release quota_exceeded, change_day day decr redis)
acquire caps today bucket run at_bucket redis = (ask_bucket bucket, redis)
acquire caps today bucket run giving_back redis =
    (run_release rate_limited, change_day today decr redis)
acquire caps today bucket run (run_release why) redis = (failed why, change_run run decr redis)
acquire caps today bucket run sent redis = (sent, redis)
acquire caps today bucket run (failed why) redis = (failed why, redis)

-- A request starts, or the one at a place of the list takes its turn.
pub data Event : Type 0 where
  arrives : Option ℕ → Event
  turn : ℕ → ℕ → Bucket → Event

pub record State : Type 0 where
  pub redis : Redis
  pub calls : List Call

abbrev resumed : List Call → Call → Stage × Redis → State
resumed rest call (stage, redis) = record {
  redis = redis;
  calls = record call { stage = stage } ∷ rest;
}

abbrev behind : Call → State → State
behind call s = record s { calls = call ∷ s.calls }

-- The turn of the request at a place.
unfoldable pub take_turn : Caps → ℕ → Bucket → ℕ → List Call → Redis → State
unfolding acquire
take_turn caps today bucket place [] redis = record { redis = redis; calls = [] }
take_turn caps today bucket zero (call ∷ rest) redis =
    resumed rest call (acquire caps today bucket call.run call.stage redis)
take_turn caps today bucket (suc place) (call ∷ rest) redis =
    behind call (take_turn caps today bucket place rest redis)

unfoldable pub step : Caps → Event → State → State
unfolding take_turn
step caps (arrives run) s = record s { calls = record { run = run; stage = idle } ∷ s.calls }
step caps (turn place today bucket) s = take_turn caps today bucket place s.calls s.redis

unfoldable pub play : Caps → List Event → State → State
unfolding step
play caps [] s = s
play caps (event ∷ rest) s = play caps rest (step caps event s)

-- No request yet, and no key in Redis.
abbrev pub initial : State
initial = record {
  redis = record {
    runs = λ run. record { added = 0; removed = 0 };
    days = λ day. record { added = 0; removed = 0 };
  };
  calls = [];
}
