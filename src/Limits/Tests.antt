-- ===== src/Limits/Tests.antt =====
-- The caps on three requests of one run.
use lead_discovery_rader.Prelude.{
  ◌+◌, ◌≡◌, refl, none, some, List, [], ◌∷◌, All, map, inl, inr, arith,
}
use lead_discovery_rader.Limits.{
  Caps, rate_limited, run_call_cap_exceeded, sent, failed, token, gives_up, Event, arrives, turn,
  play, initial,
}
use lead_discovery_rader.Limits.Counted.{admitted, number}
use lead_discovery_rader.Limits.Abstract.{AllowedRun, play-AllowedRun}
use lead_discovery_rader.Limits.Daily.{IsOn, IsKept, play-IsKept}
use lead_discovery_rader.Limits.Settled.{IsEnded, is_sent, play-sent}

abbrev caps : Caps
caps = record { run_cap = 1; daily_cap = 5 }

-- Two requests of run 7 and one of no run. The first claims the run's only call before the second
-- asks, and the bucket gives up on the one of no run.
abbrev events : List Event
events =
    arrives (some 7)
    ∷ arrives (some 7)
    ∷ arrives none
    ∷ turn 1 20 token
    ∷ turn 2 20 token
    ∷ turn 0 20 token
    ∷ turn 2 20 token
    ∷ turn 1 20 token
    ∷ turn 0 20 token
    ∷ turn 1 20 token
    ∷ turn 0 20 gives_up
    ∷ turn 0 20 token
    ∷ turn 0 20 token
    ∷ []

settled :
    map (λ call. call.stage) (play caps events initial).calls
    ≡ failed rate_limited ∷ sent ∷ failed run_call_cap_exceeded ∷ []
unfolding play
settled = refl

play-AllowedRun_example : AllowedRun 1 (admitted 7 initial) (admitted 7 (play caps events initial))
play-AllowedRun_example = play-AllowedRun caps 7 events initial refl

same_day : All (IsOn 20) events
same_day = (
  tt,
  (tt, (tt, (refl, (refl, (refl, (refl, (refl, (refl, (refl, (refl, (refl, (refl, tt)))))))))))),
)

IsKept-first : IsKept caps 20 initial
IsKept-first = record { counts = refl; within = omega arith }

play-IsKept_example : IsKept caps 20 (play caps events initial)
play-IsKept_example = play-IsKept caps 20 events initial same_day IsKept-first

All-IsEnded : All IsEnded (play caps events initial).calls
unfolding play
All-IsEnded = (inr (rate_limited, refl), (inl refl, (inr (run_call_cap_exceeded, refl), tt)))

play-sent_example :
    ((play caps events initial).redis.runs 7).added
    ≡ ((play caps events initial).redis.runs 7).removed
      + number is_sent 7 (play caps events initial).calls
play-sent_example = play-sent caps 7 events All-IsEnded
