-- ===== src/Jobs/Worker/Loop.antt =====
-- The loop of `execute_job_run`: every exit, and its end.
use lead_discovery_rader.Prelude.{
  ℕ, zero, suc, ◌+◌, ◌≤◌, ◌<◌, ◌≡◌, ◌≢◌, ◌⊎◌, inl, inr, String, Option, none, some, Bool, true,
  arith, Option-cases,
}
use lead_discovery_rader.Jobs.Model.{JobRunStatus, running, is_terminal_status, JobRun, Exc}
use lead_discovery_rader.Jobs.Session.{
  Env, Db, Session, session_scope, Result, ok, err, Result-cases,
}
use lead_discovery_rader.Jobs.Worker.{one_attempt, claim, round, execute_job_run}
use lead_discovery_rader.Jobs.Worker.Attempt.{run_status, HandlersKeepClaim, Ends}
use lead_discovery_rader.Jobs.Worker.Rounds.{round-Ends}
use lead_discovery_rader.Jobs.Frames.{OnlyFaults}

-- What other processes do while this one sleeps: the row stays, and its attempts never go back.
abbrev pub SleepsSafely : (ℕ → Session → Session) → Type 0
SleepsSafely sleeper =
    (delay : ℕ) (s : Session) (run : JobRun)
    → s.disk.run ≡ some run
    → (run' : JobRun) × ((sleeper delay s).disk.run ≡ some run') × (run.attempts ≤ run'.attempts)

-- The status returned is the one on disk, and it is terminal or `running`.
abbrev pub IsExit : Option (Result JobRunStatus) → Session → Type 0
IsExit (some (ok status)) s =
    (run_status s.disk ≡ some status) × ((is_terminal_status status ≡ true) ⊎ (status ≡ running))
IsExit _ s = Unit

module _ (env : Env) (run_id : String) (faults : OnlyFaults env) (keeps : HandlersKeepClaim env)
    (dispatch : Bool) (sleeper : ℕ → Session → Session) (safe : SleepsSafely sleeper) where
  -- After a retry was decided and slept for, the row is there, with the attempt counted.
  after_sleep :
      (n delay : ℕ) (before : Db) (s : Session)
      → Ends env n before (ok (none, delay)) s.disk
      → (run : JobRun) × ((sleeper delay s).disk.run ≡ some run)
        × (n ≤ run.attempts)
        × (n < env.max_attempts)
  after_sleep n delay before s ends = elim (Option-cases s.disk.run) [
    | inl gone ↦ absurd (ground arith)
    | inr (run, e) ↦ let (run', e', le) = safe delay s run e in (run', e', ground arith, ends.2)
  ]

  -- For a run that is there, whichever statements fail, by an error other than a broken unique key
  -- or by the time limit: a status that the loop returns is the one that is on disk, and it is
  -- terminal or `running`. The handlers keep the claim, and other processes keep the row while this
  -- one sleeps.
  pub execute_job_run-IsExit :
      (fuel : ℕ) (s : Session) (run : JobRun)
      → s.disk.run ≡ some run
      → IsExit
          (execute_job_run env run_id dispatch sleeper fuel s).0
          (execute_job_run env run_id dispatch sleeper fuel s).1
  unfolding execute_job_run
  execute_job_run-IsExit zero s run e = tt
  execute_job_run-IsExit (suc fuel) s run e = elim (Result-cases (round env run_id dispatch s).0) [
    | inl ((some status, delay), r) ↦
        ground (arith, round-Ends env run_id faults keeps dispatch s run (some status, delay) e r)
    | inl ((none, delay), r) ↦
        let (run', e', le, lt) =
          after_sleep (run.attempts + 1) delay s.disk (round env run_id dispatch s).1
            (round-Ends env run_id faults keeps dispatch s run (none, delay) e r) in
        rw (r, execute_job_run)
          (execute_job_run-IsExit fuel (sleeper delay (round env run_id dispatch s).1) run' e')
    | inr (x, r) ↦ ground arith
  ]

  -- Under the same conditions the loop ends: fuel for the attempts that are left, and for one round
  -- at least, is enough.
  pub execute_job_run-total :
      (fuel : ℕ) (s : Session) (run : JobRun)
      → s.disk.run ≡ some run
      → 0 < fuel
      → env.max_attempts ≤ fuel + run.attempts
      → (execute_job_run env run_id dispatch sleeper fuel s).0 ≢ none
  unfolding execute_job_run
  execute_job_run-total zero s run e pos enough = elim pos [ ]
  execute_job_run-total (suc fuel) s run e pos enough =
      elim (Result-cases (round env run_id dispatch s).0) [
        | inl ((some status, delay), r) ↦ ground arith
        | inl ((none, delay), r) ↦
            let (run', e', le, lt) =
              after_sleep (run.attempts + 1) delay s.disk (round env run_id dispatch s).1
                (round-Ends env run_id faults keeps dispatch s run (none, delay) e r) in
            rw (r, execute_job_run)
              (execute_job_run-total fuel (sleeper delay (round env run_id dispatch s).1) run' e'
                (omega arith) (omega arith))
        | inr (x, r) ↦ ground arith
      ]

-- A run that is already `running` is left to the executor that claimed it: the attempt changes
-- nothing on disk or in the queue, and reports that the run is running, unless its commit fails,
-- when it ends with that error.
pub one_attempt_second_executor :
    (env : Env) (run_id : String) (dispatch : Bool) (s : Session) (run : JobRun)
    → s.disk.run ≡ some run
    → run.status ≡ running
    → ((one_attempt env run_id dispatch s).1.disk ≡ s.disk)
      × ((one_attempt env run_id dispatch s).1.rq ≡ s.rq)
      × (((one_attempt env run_id dispatch s).0 ≡ ok (some running, 0))
          ⊎ ((e : Exc) × (env.fault s.tick ≡ some e)
              × ((one_attempt env run_id dispatch s).0 ≡ err e)))
unfolding one_attempt session_scope claim
one_attempt_second_executor env run_id dispatch s run e r = elim (Option-cases (env.fault s.tick)) [
  | inl f ↦ (ground arith, ground arith, inl (ground arith))
  | inr (x, f) ↦ (ground arith, ground arith, inr (x, f, ground arith))
]
