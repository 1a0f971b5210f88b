-- ===== src/Limits/Settled.antt =====
-- What a run's counter says once no request is under way.
use lead_discovery_rader.Prelude.{
  ℕ, ◌+◌, ◌≡◌, refl, List, [], ◌∷◌, Bool, true, false, All, ◌⊎◌, inl, inr,
}
use lead_discovery_rader.Limits.{
  Caps, Refusal, Stage, sent, failed, Call, Event, State, step, play, initial,
}
use lead_discovery_rader.Limits.Counted.{has_counted, number, IsCounted, step-IsCounted}

abbrev pub IsEnded : Call → Type 0
IsEnded call = (call.stage ≡ sent) ⊎ ((why : Refusal) × (call.stage ≡ failed why))

abbrev pub is_sent : Stage → Bool
is_sent sent = true
is_sent _ = false

play-IsCounted :
    (caps : Caps) (run : ℕ) (events : List Event) (s : State)
    → IsCounted run s
    → IsCounted run (play caps events s)
unfolding play
play-IsCounted caps run [] s h = h
play-IsCounted caps run (event ∷ rest) s h =
    play-IsCounted caps run rest (step caps event s) (step-IsCounted caps run event s h)

number-ended :
    (run : ℕ) (calls : List Call)
    → All IsEnded calls
    → number has_counted run calls ≡ number is_sent run calls
number-ended run [] h = refl
number-ended run (call ∷ rest) (inl e, h) =
    let others = number-ended run rest h in rw (e, others) refl
number-ended run (call ∷ rest) (inr (why, e), h) =
    let others = number-ended run rest h in rw (e, others) refl

-- A request that was never sent does not count against its run: from an empty Redis, and in any
-- order of turns, once every request has been sent or refused the run's counter is the number of
-- its requests that were sent, whichever guard refused the others.
pub play-sent :
    (caps : Caps) (run : ℕ) (events : List Event)
    → All IsEnded (play caps events initial).calls
    → ((play caps events initial).redis.runs run).added
      ≡ ((play caps events initial).redis.runs run).removed
        + number is_sent run (play caps events initial).calls
play-sent caps run events h =
    rw (← number-ended run (play caps events initial).calls h)
      (play-IsCounted caps run events initial refl)
