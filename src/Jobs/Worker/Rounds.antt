-- ===== src/Jobs/Worker/Rounds.antt =====
-- How a round of the loop of `execute_job_run` ends on disk, and the loop itself.
use lead_discovery_rader.Prelude.{
  ℕ, ◌+◌, ◌≡◌, refl, inl, inr, String, some, Bool, arith, Option-cases,
}
use lead_discovery_rader.Jobs.Model.{is_terminal, JobRun, Exc, handler_failed, run_timed_out}
use lead_discovery_rader.Jobs.Session.{Env, Db, Session, ok, err, Sql, session_scope, Result-cases}
use lead_discovery_rader.Jobs.Worker.{
  Decision, decide, finally_failed, on_record_error, on_attempt_error, one_attempt, record_failure,
  fail_run, round,
}
use lead_discovery_rader.Jobs.Worker.Attempt.{
  HandlersKeepClaim, Ends, Pending, fail_run-Ends, decide-view, claim-Pending,
}
use lead_discovery_rader.Jobs.Frames.{OnlyFaults}

module _ (env : Env) (run_id : String) (faults : OnlyFaults env) where
  session_scope-Ends :
      (n : ℕ) (before : Db) (m : Sql Decision) (s : Session)
      → Pending env n before (m (record s { view = s.disk })).0 (m (record s { view = s.disk })).1
      → Ends env n before (session_scope env m s).0 (session_scope env m s).1.disk
  unfolding session_scope
  session_scope-Ends n before m s h = elim (Result-cases (m (record s { view = s.disk })).0) [
    | inl (d, e) ↦ ground (arith, faults (m (record s { view = s.disk })).1.tick)
    | inr (x, e) ↦ ground arith
  ]

  record_failure-Ends :
      (cause : Exc) (k : ℕ) (before : Db) (s : Session) (run : JobRun)
      → s.disk.run ≡ some run
      → run.attempts ≡ k
      → {d : Decision} → (record_failure env run_id cause k s).0 ≡ ok d
      → Ends env k before (ok d) (record_failure env run_id cause k s).1.disk
  unfolding record_failure session_scope is_terminal
  record_failure-Ends cause k before s run e a {d} h =
      elim (Result-cases (decide env run cause k (record s { view = s.disk })).0) [
        | inl (x, r) ↦
            ground (arith, decide-view env run_id run cause k (record s { view = s.disk }) r)
        | inr (x, r) ↦ ground arith
      ]

  module _ (keeps : HandlersKeepClaim env) where
    pub one_attempt-Ends :
        (dispatch : Bool) (s : Session) (run : JobRun)
        → s.disk.run ≡ some run
        → Ends env
            (run.attempts + 1)
            s.disk
            (one_attempt env run_id dispatch s).0
            (one_attempt env run_id dispatch s).1.disk
    unfolding one_attempt
    one_attempt-Ends dispatch s run e = session_scope-Ends (run.attempts + 1) s.disk _ s (
        ground (
          arith,
          claim-Pending env run_id faults keeps dispatch run (record s { view = s.disk }) refl e,
        ))

    finally_failed-Ends :
        (n : ℕ) (before : Db) (exc : Exc) (s : Session) (d : Decision)
        → (finally_failed env run_id exc s).0 ≡ ok d
        → Ends env n before (ok d) (finally_failed env run_id exc s).1.disk
    finally_failed-Ends n before exc s d h = elim (Result-cases (fail_run env run_id exc s).0) [
      | inl (status, e) ↦ ground (arith, fail_run-Ends env run_id exc s e)
      | inr (x, e) ↦ ground arith
    ]

    on_record_error-Ends :
        (n : ℕ) (before : Db) (exc : Exc) (s : Session) (d : Decision)
        → (on_record_error env run_id exc s).0 ≡ ok d
        → Ends env n before (ok d) (on_record_error env run_id exc s).1.disk
    unfolding on_record_error
    on_record_error-Ends n before exc s d h = ground (arith, finally_failed-Ends n before exc s d)

    on_attempt_error-Ends :
        (n : ℕ) (before : Db) (exc : Exc) (s : Session) (d : Decision)
        → Ends env (n + 1) before (err exc) s.disk
        → (on_attempt_error env run_id exc s).0 ≡ ok d
        → Ends env (n + 1) before (ok d) (on_attempt_error env run_id exc s).1.disk
    unfolding on_attempt_error
    on_attempt_error-Ends n before (run_timed_out k) s d u h = ground arith
    on_attempt_error-Ends n before (handler_failed cause k) s d (same, a) h =
        elim (Option-cases s.disk.run) [
          | inl gone ↦ ground arith
          | inr (run, e) ↦ elim (Result-cases (record_failure env run_id cause k s).0) [
            | inl (x, r) ↦
                ground (arith, record_failure-Ends cause k before s run e (ground arith) r)
            | inr (x, r) ↦ ground (
              arith,
              on_record_error-Ends (n + 1) before x (record_failure env run_id cause k s).1 d,
            )
          ]
        ]
    on_attempt_error-Ends n before exc s d u h = finally_failed-Ends (n + 1) before exc s d h

    -- A round that returns has put its decision on disk, whatever failed on the way.
    pub round-Ends :
        (dispatch : Bool) (s : Session) (run : JobRun) (d : Decision)
        → s.disk.run ≡ some run
        → (round env run_id dispatch s).0 ≡ ok d
        → Ends env (run.attempts + 1) s.disk (ok d) (round env run_id dispatch s).1.disk
    unfolding round
    round-Ends dispatch s run d e h = elim (Result-cases (one_attempt env run_id dispatch s).0) [
      | inl (x, r) ↦ ground (arith, one_attempt-Ends dispatch s run e)
      | inr (x, r) ↦ ground (
        arith,
        on_attempt_error-Ends run.attempts s.disk x (one_attempt env run_id dispatch s).1 d
            (rw r at (one_attempt-Ends dispatch s run e)),
      )
    ]
