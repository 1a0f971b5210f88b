-- ===== src/Limits/Abstract.antt =====
-- What `RunCallCap` promises, as a machine of one number, and that the turns of the requests follow
-- it in any order.
use lead_discovery_rader.Prelude.{
  ℕ, zero, suc, ◌+◌, ◌≡◌, ◌≢◌, ◌≤◌, ◌<◌, refl, Option, none, some, List, [], ◌∷◌, true, false, ◌==◌,
  arith, Bool-cases, ◌⊎◌, inl, inr,
}
use lead_discovery_rader.Limits.{
  Counter, Redis, Caps, Stage, idle, run_refused, at_daily, at_bucket, giving_back, sent,
  daily_refused, run_release, failed, Call, Bucket, token, waits, gives_up, incr, decr, change_run,
  change_day, reserve_run, reserve_day, ask_bucket, acquire, Event, arrives, turn, State, take_turn,
  step, play,
}
use lead_discovery_rader.Limits.Counted.{
  has_counted, is_admitted, one_if, number, counted, admitted, IsCounted, weight, step-IsCounted,
}

-- The calls that are admitted: one more where the cap allows it, or one handed back, or no change.
pub data Allowed (cap : ℕ) : ℕ → ℕ → Type 0 where
  keeps : (n : ℕ) → Allowed cap n n
  admits : (n : ℕ) → n < cap → Allowed cap n (suc n)
  hands_back : (n : ℕ) → Allowed cap (suc n) n

pub data AllowedRun (cap : ℕ) : ℕ → ℕ → Type 0 where
  done : (n : ℕ) → AllowedRun cap n n
  and_then : {n m k : ℕ} → Allowed cap n m → AllowedRun cap m k → AllowedRun cap n k

-- How one turn changes a number of admitted calls: only under a counter within the cap does it grow.
abbrev IsAdmission : ℕ → Counter → ℕ → ℕ → Type 0
IsAdmission cap c before after =
    (before ≡ after) ⊎ (before ≡ suc after) ⊎ ((after ≡ suc before) × (c.added ≤ cap + c.removed))

reserve_run-IsAdmission :
    (cap run : ℕ) (own : Option ℕ) (redis : Redis)
    → own ≢ none
    → IsAdmission cap
        (redis.runs run)
        (weight run own false)
        (weight run own (is_admitted (reserve_run cap own redis)))
reserve_run-IsAdmission cap run none redis some_run = absurd (some_run refl)
reserve_run-IsAdmission cap run (some x) redis some_run = elim (Bool-cases (run == x)) [
  | inr other ↦ inl (ground arith)
  | inl own ↦ let same : run ≡ x = ground arith in ground arith
]

released_IsAdmission :
    (cap run : ℕ) (own : Option ℕ) (c : Counter)
    → IsAdmission cap c (weight run own true) (weight run own false)
released_IsAdmission cap run own c = ground arith

ask_bucket-admits : (bucket : Bucket) → is_admitted (ask_bucket bucket) ≡ true
ask_bucket-admits token = refl
ask_bucket-admits waits = refl
ask_bucket-admits gives_up = refl

reserve_day-admits : (cap day : ℕ) (redis : Redis) → is_admitted (reserve_day cap day redis) ≡ true
reserve_day-admits cap day redis = ground arith

acquire-IsAdmission :
    (caps : Caps) (today : ℕ) (bucket : Bucket) (run : ℕ) (own : Option ℕ) (stage : Stage)
    (redis : Redis)
    → IsAdmission caps.run_cap
        ((acquire caps today bucket own stage redis).1.runs run)
        (weight run own (is_admitted stage))
        (weight run own (is_admitted (acquire caps today bucket own stage redis).0))
unfolding acquire
acquire-IsAdmission caps today bucket run none idle redis = inl refl
acquire-IsAdmission caps today bucket run (some x) idle redis =
    reserve_run-IsAdmission caps.run_cap run (some x) (change_run (some x) incr redis)
      (ground arith)
acquire-IsAdmission caps today bucket run own run_refused redis = inl refl
acquire-IsAdmission caps today bucket run own at_daily redis =
    inl (rw (reserve_day-admits caps.daily_cap today (change_day today incr redis)) refl)
acquire-IsAdmission caps today bucket run own (daily_refused day) redis = inl refl
acquire-IsAdmission caps today bucket run own at_bucket redis =
    inl (rw (ask_bucket-admits bucket) refl)
acquire-IsAdmission caps today bucket run own giving_back redis = inl refl
acquire-IsAdmission caps today bucket run own (run_release why) redis =
    released_IsAdmission caps.run_cap run own ((change_run own decr redis).runs run)
acquire-IsAdmission caps today bucket run own sent redis = inl refl
acquire-IsAdmission caps today bucket run own (failed why) redis = inl refl

take_turn-IsAdmission :
    (caps : Caps) (today : ℕ) (bucket : Bucket) (run place : ℕ) (calls : List Call) (redis : Redis)
    (after : State)
    → take_turn caps today bucket place calls redis ≡ after
    → IsAdmission caps.run_cap
        (after.redis.runs run)
        (number is_admitted run calls)
        (admitted run after)
unfolding take_turn
take_turn-IsAdmission caps today bucket run place [] redis after e = rw (← e) (inl refl)
take_turn-IsAdmission caps today bucket run zero (call ∷ rest) redis after e =
    let one = acquire-IsAdmission caps today bucket run call.run call.stage redis in
    rw (← e) (ground arith)
take_turn-IsAdmission caps today bucket run (suc place) (call ∷ rest) redis after e =
    let others =
      take_turn-IsAdmission caps today bucket run place rest redis
        (take_turn caps today bucket place rest redis) refl in
    rw (← e) (ground arith)

admitted_one : (stage : Stage) → one_if (is_admitted stage) ≤ one_if (has_counted stage)
admitted_one idle = ground arith
admitted_one run_refused = ground arith
admitted_one at_daily = ground arith
admitted_one at_bucket = ground arith
admitted_one giving_back = ground arith
admitted_one sent = ground arith
admitted_one (daily_refused day) = ground arith
admitted_one (run_release why) = ground arith
admitted_one (failed why) = ground arith

admitted_counted :
    (run : ℕ) (calls : List Call) → number is_admitted run calls ≤ number has_counted run calls
admitted_counted run [] = ground arith
admitted_counted run (call ∷ rest) =
    let others = admitted_counted run rest in let one = admitted_one call.stage in ground arith

IsAdmission-Allowed :
    (cap before after : ℕ) (c : Counter) (n : ℕ)
    → IsAdmission cap c before after
    → c.added ≡ c.removed + n
    → after ≤ n
    → Allowed cap before after
IsAdmission-Allowed cap before after c n (inl same) h few = rw same (keeps after)
IsAdmission-Allowed cap before after c n (inr (inl less)) h few = rw less (hands_back after)
IsAdmission-Allowed cap before after c n (inr (inr (more, within))) h few =
    rw more (admits before (ground arith))

step-Allowed :
    (caps : Caps) (run : ℕ) (event : Event) (s : State)
    → IsCounted run s
    → Allowed caps.run_cap (admitted run s) (admitted run (step caps event s))
unfolding step
step-Allowed caps run (arrives own) s h =
    let same : admitted run s ≡ admitted run (step caps (arrives own) s) = ground arith in
    rw (← same) (keeps (admitted run s))
step-Allowed caps run (turn place today bucket) s h =
    let after = take_turn caps today bucket place s.calls s.redis in
    IsAdmission-Allowed caps.run_cap (admitted run s) (admitted run after) (after.redis.runs run)
      (counted run after)
      (take_turn-IsAdmission caps today bucket run place s.calls s.redis after refl)
      (step-IsCounted caps run (turn place today bucket) s h) (admitted_counted run after.calls)

-- Whatever the order in which requests arrive and take their turns, the calls that a run has
-- admitted change only as its cap allows: by one more while there are fewer than the cap, or by
-- one handed back, where its counter counts the requests that have claimed a call.
pub play-AllowedRun :
    (caps : Caps) (run : ℕ) (events : List Event) (s : State)
    → IsCounted run s
    → AllowedRun caps.run_cap (admitted run s) (admitted run (play caps events s))
unfolding play
play-AllowedRun caps run [] s h = done (admitted run s)
play-AllowedRun caps run (event ∷ rest) s h =
    and_then (step-Allowed caps run event s h)
      (play-AllowedRun caps run rest (step caps event s) (step-IsCounted caps run event s h))
