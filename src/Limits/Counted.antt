-- ===== src/Limits/Counted.antt =====
-- What the counter of a run counts.
use lead_discovery_rader.Prelude.{
  ℕ, zero, suc, ◌+◌, ◌≡◌, refl, Option, none, some, List, [], ◌∷◌, Bool, true, false, ◌==◌, arith,
  if◌then◌else◌,
}
use lead_discovery_rader.Limits.{
  Counter, Redis, Caps, Stage, idle, run_refused, at_daily, at_bucket, giving_back, sent,
  daily_refused, run_release, failed, Call, Bucket, token, waits, gives_up, incr, decr, change_run,
  change_day, reserve_run, reserve_day, ask_bucket, acquire, Event, arrives, turn, State, take_turn,
  step,
}

abbrev pub is_of : ℕ → Option ℕ → Bool
is_of run none = false
is_of run (some other) = run == other

-- Whether a request has added to its run's counter, and not taken it back.
abbrev pub has_counted : Stage → Bool
has_counted idle = false
has_counted (failed why) = false
has_counted _ = true

-- Whether it may go on, or has gone out: it holds one of the run's calls.
abbrev pub is_admitted : Stage → Bool
is_admitted idle = false
is_admitted (failed why) = false
is_admitted run_refused = false
is_admitted _ = true

abbrev pub one_if : Bool → ℕ
one_if true = 1
one_if false = 0

-- How many requests of a run are at a stage of a kind.
abbrev pub number : (Stage → Bool) → ℕ → List Call → ℕ
number p run [] = 0
number p run (call ∷ rest) =
    (if is_of run call.run then one_if (p call.stage) else 0) + number p run rest

abbrev pub counted : ℕ → State → ℕ
counted run s = number has_counted run s.calls

abbrev pub admitted : ℕ → State → ℕ
admitted run s = number is_admitted run s.calls

-- The run's counter is the number of its requests that have counted, and not taken it back.
abbrev pub IsCounted : ℕ → State → Type 0
IsCounted run s = (s.redis.runs run).added ≡ (s.redis.runs run).removed + counted run s

-- A counter changes as the number of those who have counted.
abbrev pub IsBalanced : Counter → ℕ → Counter → ℕ → Type 0
IsBalanced c before c' after = c'.added + c.removed + before ≡ c.added + c'.removed + after

abbrev pub weight : ℕ → Option ℕ → Bool → ℕ
weight run own b = if is_of run own then one_if b else 0

reserve_run-counts :
    (cap : ℕ) (own : Option ℕ) (redis : Redis) → has_counted (reserve_run cap own redis) ≡ true
reserve_run-counts cap none redis = refl
reserve_run-counts cap (some run) redis = ground arith

reserve_day-counts : (cap day : ℕ) (redis : Redis) → has_counted (reserve_day cap day redis) ≡ true
reserve_day-counts cap day redis = ground arith

ask_bucket-counts : (bucket : Bucket) → has_counted (ask_bucket bucket) ≡ true
ask_bucket-counts token = refl
ask_bucket-counts waits = refl
ask_bucket-counts gives_up = refl

change_run-incr :
    (run : ℕ) (own : Option ℕ) (redis : Redis)
    → IsBalanced
        (redis.runs run)
        (weight run own false)
        ((change_run own incr redis).runs run)
        (weight run own true)
change_run-incr run none redis = ground arith
change_run-incr run (some x) redis = ground arith

change_run-decr :
    (run : ℕ) (own : Option ℕ) (redis : Redis)
    → IsBalanced
        (redis.runs run)
        (weight run own true)
        ((change_run own decr redis).runs run)
        (weight run own false)
change_run-decr run none redis = ground arith
change_run-decr run (some x) redis = ground arith

-- What one turn does to the counter of a run.
acquire-IsBalanced :
    (caps : Caps) (today : ℕ) (bucket : Bucket) (run : ℕ) (own : Option ℕ) (stage : Stage)
    (redis : Redis)
    → IsBalanced
        (redis.runs run)
        (weight run own (has_counted stage))
        ((acquire caps today bucket own stage redis).1.runs run)
        (weight run own (has_counted (acquire caps today bucket own stage redis).0))
unfolding acquire
acquire-IsBalanced caps today bucket run own idle redis =
    rw (reserve_run-counts caps.run_cap own (change_run own incr redis))
      (change_run-incr run own redis)
acquire-IsBalanced caps today bucket run own run_refused redis = change_run-decr run own redis
acquire-IsBalanced caps today bucket run own at_daily redis =
    rw (reserve_day-counts caps.daily_cap today (change_day today incr redis)) refl
acquire-IsBalanced caps today bucket run own (daily_refused day) redis = refl
acquire-IsBalanced caps today bucket run own at_bucket redis = rw (ask_bucket-counts bucket) refl
acquire-IsBalanced caps today bucket run own giving_back redis = refl
acquire-IsBalanced caps today bucket run own (run_release why) redis = change_run-decr run own redis
acquire-IsBalanced caps today bucket run own sent redis = refl
acquire-IsBalanced caps today bucket run own (failed why) redis = refl

pub take_turn-IsBalanced :
    (caps : Caps) (today : ℕ) (bucket : Bucket) (run place : ℕ) (calls : List Call) (redis : Redis)
    → (after : State) → take_turn caps today bucket place calls redis ≡ after
    → IsBalanced
        (redis.runs run)
        (number has_counted run calls)
        (after.redis.runs run)
        (counted run after)
unfolding take_turn
take_turn-IsBalanced caps today bucket run place [] redis after e = rw (← e) refl
take_turn-IsBalanced caps today bucket run zero (call ∷ rest) redis after e =
    let one = acquire-IsBalanced caps today bucket run call.run call.stage redis in
    rw (← e) (ground arith)
take_turn-IsBalanced caps today bucket run (suc place) (call ∷ rest) redis after e =
    let others =
      take_turn-IsBalanced caps today bucket run place rest redis
        (take_turn caps today bucket place rest redis) refl in
    rw (← e) (ground arith)

pub step-IsCounted :
    (caps : Caps) (run : ℕ) (event : Event) (s : State)
    → IsCounted run s
    → IsCounted run (step caps event s)
unfolding step
step-IsCounted caps run (arrives own) s h = ground arith
step-IsCounted caps run (turn place today bucket) s h =
    let turned =
      take_turn-IsBalanced caps today bucket run place s.calls s.redis
        (take_turn caps today bucket place s.calls s.redis) refl in
    ground arith
