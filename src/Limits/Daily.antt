-- ===== src/Limits/Daily.antt =====
-- The daily cap while the date stays the same, and what the counters say of the calls that went out.
use lead_discovery_rader.Prelude.{
  ℕ, zero, suc, ◌+◌, ◌≡◌, ◌≤◌, refl, Option, none, some, List, [], ◌∷◌, Bool, true, false, ◌==◌,
  arith, All, Bool-cases, ◌⊎◌, inl, inr,
}
use lead_discovery_rader.Limits.{
  Counter, Redis, Caps, Stage, idle, run_refused, at_daily, at_bucket, giving_back, sent,
  daily_refused, run_release, failed, Call, Bucket, token, waits, gives_up, incr, decr, is_over,
  change_run, change_day, reserve_run, reserve_day, ask_bucket, acquire, Event, arrives, turn,
  State, take_turn, step, play,
}
use lead_discovery_rader.Limits.Counted.{one_if, IsBalanced}

abbrev pub IsOn : ℕ → Event → Type 0
IsOn day (arrives run) = Unit {0}
IsOn day (turn place today bucket) = today ≡ day

-- Whether a request has added to the counter of a day, and not taken it back, where it is that day.
abbrev pub has_claimed : ℕ → Stage → Bool
has_claimed day at_bucket = true
has_claimed day giving_back = true
has_claimed day sent = true
has_claimed day (daily_refused claimed) = claimed == day
has_claimed day _ = false

-- Whether it is within the cap, or has gone out.
abbrev pub is_within : Stage → Bool
is_within at_bucket = true
is_within giving_back = true
is_within sent = true
is_within _ = false

abbrev pub number_of : (Stage → Bool) → List Call → ℕ
number_of p [] = 0
number_of p (call ∷ rest) = one_if (p call.stage) + number_of p rest

-- The day's counter is the number of those who have added to it, and so many calls hold a place.
pub record IsKept (caps : Caps) (day : ℕ) (s : State) : Type 0 where
  pub counts :
      (s.redis.days day).added ≡ (s.redis.days day).removed + number_of (has_claimed day) s.calls
  pub within : number_of is_within s.calls ≤ caps.daily_cap

within_one : (day : ℕ) (stage : Stage) → one_if (is_within stage) ≤ one_if (has_claimed day stage)
within_one day idle = ground arith
within_one day run_refused = ground arith
within_one day at_daily = ground arith
within_one day at_bucket = ground arith
within_one day giving_back = ground arith
within_one day sent = ground arith
within_one day (daily_refused claimed) = ground arith
within_one day (run_release why) = ground arith
within_one day (failed why) = ground arith

within_claimed :
    (day : ℕ) (calls : List Call) → number_of is_within calls ≤ number_of (has_claimed day) calls
within_claimed day [] = ground arith
within_claimed day (call ∷ rest) =
    let others = within_claimed day rest in let one = within_one day call.stage in ground arith

-- How one turn changes the number of calls within the cap.
abbrev IsGrowth : ℕ → Counter → ℕ → ℕ → Type 0
IsGrowth cap c before after = (after ≤ before) ⊎ (c.added ≤ cap + c.removed)

change_run-days :
    (own : Option ℕ) (next : Counter → Counter) (redis : Redis) (day : ℕ)
    → (change_run own next redis).days day ≡ redis.days day
change_run-days none next redis day = refl
change_run-days (some x) next redis day = refl

reserve_run-day :
    (cap : ℕ) (own : Option ℕ) (redis : Redis) (day : ℕ)
    → (has_claimed day (reserve_run cap own redis) ≡ false)
      × (is_within (reserve_run cap own redis) ≡ false)
reserve_run-day cap none redis day = (refl, refl)
reserve_run-day cap (some x) redis day = (ground arith, ground arith)

reserve_day-day :
    (cap day : ℕ) (redis : Redis)
    → (has_claimed day (reserve_day cap day redis) ≡ true)
      × (one_if (is_within (reserve_day cap day redis)) ≤ 0
          ⊎ (redis.days day).added ≤ cap + (redis.days day).removed)
reserve_day-day cap day redis = elim (Bool-cases (is_over cap (redis.days day))) [
  | inl over ↦ rw over (ground arith, inl (ground arith))
  | inr within ↦ rw within (refl, inr (ground arith))
]

ask_bucket-day :
    (bucket : Bucket) (day : ℕ)
    → (has_claimed day (ask_bucket bucket) ≡ true) × (is_within (ask_bucket bucket) ≡ true)
ask_bucket-day token day = (refl, refl)
ask_bucket-day waits day = (refl, refl)
ask_bucket-day gives_up day = (refl, refl)

acquire-day :
    (caps : Caps) (day : ℕ) (bucket : Bucket) (own : Option ℕ) (stage : Stage) (redis : Redis)
    → IsBalanced
        (redis.days day)
        (one_if (has_claimed day stage))
        ((acquire caps day bucket own stage redis).1.days day)
        (one_if (has_claimed day (acquire caps day bucket own stage redis).0))
      × IsGrowth caps.daily_cap
          ((acquire caps day bucket own stage redis).1.days day)
          (one_if (is_within stage))
          (one_if (is_within (acquire caps day bucket own stage redis).0))
unfolding acquire
acquire-day caps day bucket own idle redis =
    let counted = change_run own incr redis in
    let (claims, grows) = reserve_run-day caps.run_cap own counted day in
    let days = change_run-days own incr redis day in
    rw (claims, grows, days) (ground arith, inl (ground arith))
acquire-day caps day bucket own run_refused redis =
    rw (change_run-days own decr redis day) (ground arith, inl (ground arith))
acquire-day caps day bucket own at_daily redis =
    let (claims, grows) = reserve_day-day caps.daily_cap day (change_day day incr redis) in
    rw claims (ground arith, ground arith)
acquire-day caps day bucket own (daily_refused claimed) redis = (ground arith, inl (ground arith))
acquire-day caps day bucket own at_bucket redis =
    let (claims, grows) = ask_bucket-day bucket day in
    rw (claims, grows) (ground arith, inl (ground arith))
acquire-day caps day bucket own giving_back redis = (ground arith, inl (ground arith))
acquire-day caps day bucket own (run_release why) redis =
    rw (change_run-days own decr redis day) (ground arith, inl (ground arith))
acquire-day caps day bucket own sent redis = (refl, inl (ground arith))
acquire-day caps day bucket own (failed why) redis = (refl, inl (ground arith))

take_turn-day :
    (caps : Caps) (day : ℕ) (bucket : Bucket) (place : ℕ) (calls : List Call) (redis : Redis)
    (after : State)
    → take_turn caps day bucket place calls redis ≡ after
    → IsBalanced
        (redis.days day)
        (number_of (has_claimed day) calls)
        (after.redis.days day)
        (number_of (has_claimed day) after.calls)
      × IsGrowth caps.daily_cap
          (after.redis.days day)
          (number_of is_within calls)
          (number_of is_within after.calls)
unfolding take_turn
take_turn-day caps day bucket place [] redis after e = rw (← e) (refl, inl (ground arith))
take_turn-day caps day bucket zero (call ∷ rest) redis after e =
    let (balance, growth) = acquire-day caps day bucket call.run call.stage redis in
    rw (← e) (ground arith, ground arith)
take_turn-day caps day bucket (suc place) (call ∷ rest) redis after e =
    let (balance, growth) =
      take_turn-day caps day bucket place rest redis (take_turn caps day bucket place rest redis)
        refl in
    rw (← e) (ground arith, ground arith)

step-IsKept :
    (caps : Caps) (day : ℕ) (event : Event) (s : State)
    → IsOn day event
    → IsKept caps day s
    → IsKept caps day (step caps event s)
unfolding step
step-IsKept caps day (arrives own) s on h =
    let counts = h.counts in
    let within = h.within in record { counts = ground arith; within = ground arith }
step-IsKept caps day (turn place today bucket) s on h =
    let after = take_turn caps day bucket place s.calls s.redis in
    let (balance, growth) = take_turn-day caps day bucket place s.calls s.redis after refl in
    let counts = h.counts in
    let within = h.within in
    let bound = within_claimed day after.calls in
    rw on (record { counts = ground arith; within = ground arith })

-- While the date is the same, and if it was so before, the counter of the day is the number of the
-- requests that have claimed a call of it and not handed it back, and no more of them than the
-- daily cap are past the cap or have gone out, whatever the order of their turns.
pub play-IsKept :
    (caps : Caps) (day : ℕ) (events : List Event) (s : State)
    → All (IsOn day) events
    → IsKept caps day s
    → IsKept caps day (play caps events s)
unfolding play
play-IsKept caps day [] s on h = h
play-IsKept caps day (event ∷ rest) s (now, later) h =
    play-IsKept caps day rest (step caps event s) later (step-IsKept caps day event s now h)
