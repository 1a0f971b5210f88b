-- ===== src/Jobs/Worker/Attempt.antt =====
-- How one attempt at a run, and one round of the worker's loop, can end.
use lead_discovery_rader.Prelude.{
  ℕ, ◌+◌, ◌<◌, ◌≡◌, refl, ◌⊎◌, String, Option, none, some, Bool, true, arith, Option-cases, inl,
  inr,
}
use lead_discovery_rader.Jobs.Model.{
  JobRunStatus, queued, running, done, failed, is_terminal_status, is_terminal, JobRun, Exc,
  handler_failed, job_cancelled, run_timed_out,
}
use lead_discovery_rader.Jobs.Session.{Env, Db, Session, Result, ok, err, Sql, Result-cases, ◌>>=◌}
use lead_discovery_rader.Jobs.State.{transition, backoff_seconds}
use lead_discovery_rader.Jobs.Worker.{
  Decision, decide, decide_in_session, on_handler_error, get_handler, finish, after_handler,
  run_handler, work, begin, claim, fail_run,
}
use lead_discovery_rader.Jobs.Frames.{
  transition-disk, transition-ok, OnlyFaults, follow_up-KeepsRun, follow_up-NotWrapped,
  transition-NotWrapped, moved-status, moved-running,
}

abbrev pub run_status : Db → Option JobRunStatus
run_status db = elim db.run [ none ↦ none | some run ↦ some run.status ]

abbrev pub run_attempts : Db → ℕ
run_attempts db = elim db.run [ none ↦ 0 | some run ↦ run.attempts ]

-- The row is claimed: `running`, at its `n`-th attempt.
abbrev pub IsClaimed : ℕ → Db → Type 0
IsClaimed n db = (run_status db ≡ some running) × (run_attempts db ≡ n)

-- Handlers write their own tables and the run's progress, never its status or attempts; what they
-- commit is what they see.
abbrev pub HandlersKeepClaim : Env → Type 0
HandlersKeepClaim env =
    (kind : String) (handler : Sql Unit)
    → env.handlers kind ≡ some handler
    → (n : ℕ) (s : Session) → IsClaimed n s.view
    → IsClaimed n s.disk
    → IsClaimed n (handler s).1.view × IsClaimed n (handler s).1.disk

-- The ends of the `n`-th attempt, which started with `before` on disk.
abbrev pub Ends : Env → ℕ → Db → Result Decision → Db → Type 0
Ends env n before (ok (some status, _)) after =
    (run_status after ≡ some status)
    × ((is_terminal_status status ≡ true) ⊎ ((status ≡ running) × (after.run ≡ before.run)))
Ends env n before (ok (none, delay)) after =
    (run_status after ≡ some queued)
    × (run_attempts after ≡ n)
    × (n < env.max_attempts)
    × (delay ≡ backoff_seconds n env.backoff_base)
-- An attempt that could not record a failure leaves the claim to be settled.
Ends env n before (err (handler_failed cause k)) after = (k ≡ n) × (run_attempts after ≡ n)
Ends env n before (err e) after = Unit

-- The same inside a session, where a result is still to be committed.
abbrev pub Pending : Env → ℕ → Db → Result Decision → Session → Type 0
Pending env n before (ok d) s = Ends env n before (ok d) s.view
Pending env n before (err e) s = Ends env n before (err e) s.disk

-- A handler that returned leaves the claim as it was; otherwise there is a decision.
abbrev PendingSome : Env → ℕ → Db → Result (Option Decision) → Session → Type 0
PendingSome env n before (ok none) s = IsClaimed n s.view × IsClaimed n s.disk
PendingSome env n before (ok (some d)) s = Ends env n before (ok d) s.view
PendingSome env n before (err e) s = Ends env n before (err e) s.disk

done_is_terminal : is_terminal_status done ≡ true
unfolding is_terminal_status
done_is_terminal = refl

module _ (env : Env) (run_id : String) where
  pub fail_run-Ends :
      (exc : Exc) (s : Session) {status : JobRunStatus}
      → (fail_run env run_id exc s).0 ≡ ok status
      → (run_status (fail_run env run_id exc s).1.disk ≡ some status)
        × (is_terminal_status status ≡ true)
  unfolding fail_run is_terminal transition
  fail_run-Ends exc s h = ground arith

  -- The row that `decide` leaves in the transaction.
  pub decide-view :
      (run : JobRun) (cause : Exc) (attempt : ℕ) (s : Session)
      → {d : Decision} → (decide env run cause attempt s).0 ≡ ok d
      → ((d ≡ (some failed, 0))
          × (run_status (decide env run cause attempt s).1.view ≡ some failed))
        ⊎ ((d ≡ (none, backoff_seconds attempt env.backoff_base))
            × (attempt < env.max_attempts)
            × (run_status (decide env run cause attempt s).1.view ≡ some queued)
            × (run_attempts (decide env run cause attempt s).1.view ≡ run.attempts))
  unfolding decide transition
  decide-view run cause attempt s h = ground arith

  pub decide-disk :
      (run : JobRun) (cause : Exc) (attempt : ℕ) (s : Session)
      → (decide env run cause attempt s).1.disk ≡ s.disk
  unfolding decide
  decide-disk run cause attempt s = grind (arith, transition-disk)

  -- What `decide` decides is an end of the `n`-th attempt, once committed.
  pub decide-Ends :
      (run : JobRun) (cause : Exc) (before : Db) (s : Session) (d : Decision)
      → (decide env run cause run.attempts s).0 ≡ ok d
      → Ends env run.attempts before (ok d) (decide env run cause run.attempts s).1.view
  unfolding is_terminal_status
  decide-Ends run cause before s d h = ground (arith, decide-view run cause run.attempts s h)

  module _ (faults : OnlyFaults env) where
    -- A failure is decided in the attempt's session, or carried out of it with its attempt.
    decide_in_session-Pending :
        (before : Db) (cause : Exc) (s : Session) (run : JobRun)
        → s.view.run ≡ some run
        → run_attempts s.disk ≡ run.attempts
        → PendingSome env run.attempts before
            (decide_in_session env run_id run.attempts cause s).0
            (decide_in_session env run_id run.attempts cause s).1
    unfolding decide_in_session is_terminal_status
    decide_in_session-Pending before cause s run v d =
        elim (Result-cases (decide env run cause run.attempts s).0) [
          | inl (x, e) ↦ ground (arith, decide-view run cause run.attempts s e)
          | inr (x, e) ↦ ground (arith, decide-disk run cause run.attempts s)
        ]

    on_handler_error-Pending :
        (before : Db) (cause : Exc) (s : Session) (run : JobRun)
        → s.view.run ≡ some run
        → run_attempts s.disk ≡ run.attempts
        → PendingSome env run.attempts before
            (on_handler_error env run_id run.attempts cause s).0
            (on_handler_error env run_id run.attempts cause s).1
    unfolding on_handler_error is_terminal_status transition
    on_handler_error-Pending before (job_cancelled id n) s run v d =
        ground (arith, faults s.tick, faults (s.tick + 1))
    on_handler_error-Pending before (run_timed_out n) s run v d = tt
    on_handler_error-Pending before cause s run v d =
        decide_in_session-Pending before cause s run v d

    -- After a handler that returned, the run is done unless a statement raises.
    finish-Pending :
        (n : ℕ) (before : Db) (dispatch : Bool) (s : Session)
        → IsClaimed n s.view
        → IsClaimed n s.disk
        → Pending env n before (finish env run_id dispatch s).0 (finish env run_id dispatch s).1
    unfolding finish
    finish-Pending n before dispatch s v d = elim (Option-cases s.view.run) [
      | inl gone ↦ ground arith
      | inr (run, e) ↦ elim (Result-cases (transition env run done none none s).0) [
        | inl (run', t) ↦ ground (
          arith,
          done_is_terminal,
          transition-ok env run done none none s t,
          moved-status run done none (env.clock s.tick),
          follow_up-KeepsRun env faults run' dispatch (transition env run done none none s).1,
          follow_up-NotWrapped env faults run' dispatch (transition env run done none none s).1,
        )
        | inr (x, t) ↦ ground (arith, transition-NotWrapped env faults run done none none s)
      ]
    ]

    module _ (keeps : HandlersKeepClaim env) where
      get_handler-keeps :
          (kind : String) (n : ℕ) (s : Session)
          → IsClaimed n s.view
          → IsClaimed n s.disk
          → IsClaimed n (get_handler env kind s).1.view
            × IsClaimed n (get_handler env kind s).1.disk
      unfolding get_handler
      get_handler-keeps kind n s v d = elim (Option-cases (env.handlers kind)) [
        | inl unknown ↦ ground arith
        | inr (handler, e) ↦ ground (arith, keeps kind handler e n s v d)
      ]

      run_handler-Pending :
          (before : Db) (run : JobRun) (s : Session)
          → IsClaimed run.attempts s.view
          → IsClaimed run.attempts s.disk
          → PendingSome env run.attempts before
              (run_handler env run_id run s).0
              (run_handler env run_id run s).1
      unfolding run_handler
      run_handler-Pending before run s v d =
          let (v', d') = get_handler-keeps run.kind run.attempts s v d in
          elim (Result-cases (get_handler env run.kind s).0) [
            | inl (u, e) ↦ ground arith
            | inr (x, e) ↦ elim (Option-cases (get_handler env run.kind s).1.view.run) [
              | inl gone ↦ ground arith
              | inr (run', r) ↦
                  ground
                    (arith, on_handler_error-Pending before x (get_handler env run.kind s).1 run' r)
            ]
          ]

      after_handler-Pending :
          (n : ℕ) (before : Db) (dispatch : Bool) (o : Option Decision) (s : Session)
          → PendingSome env n before (ok o) s
          → Pending env n before
              (after_handler env run_id dispatch o s).0
              (after_handler env run_id dispatch o s).1
      unfolding after_handler
      after_handler-Pending n before dispatch none s (v, d) = finish-Pending n before dispatch s v d
      after_handler-Pending n before dispatch (some x) s h = h

      work-Pending :
          (before : Db) (dispatch : Bool) (run : JobRun) (s : Session)
          → IsClaimed run.attempts s.view
          → IsClaimed run.attempts s.disk
          → Pending env run.attempts before
              (work env run_id dispatch run s).0
              (work env run_id dispatch run s).1
      unfolding work
      work-Pending before dispatch run s v d =
          elim (Result-cases (run_handler env run_id run s).0) [
            | inl (o, e) ↦
                rw (e, ◌>>=◌)
                  (after_handler-Pending run.attempts before dispatch o
                    (run_handler env run_id run s).1
                    (rw e at (run_handler-Pending before run s v d)))
            | inr (x, e) ↦ ground (arith, run_handler-Pending before run s v d)
          ]

      -- From a row that may start, the attempt is the one after those already counted.
      begin-Pending :
          (before : Db) (dispatch : Bool) (run : JobRun) (s : Session)
          → Pending env
              (run.attempts + 1)
              before
              (begin env run_id dispatch run s).0
              (begin env run_id dispatch run s).1
      unfolding begin
      begin-Pending before dispatch run s =
          elim (Result-cases (transition env run running none none s).0) [
            | inl (run', t) ↦ ground (
              arith,
              faults (transition env run running none none s).1.tick,
              transition-ok env run running none none s t,
              moved-running run (env.clock s.tick),
              work-Pending before dispatch run' (record (transition env run running none none s).1 {
                disk = (transition env run running none none s).1.view;
                tick = (transition env run running none none s).1.tick + 1;
              }),
            )
            | inr (x, t) ↦ ground (arith, transition-NotWrapped env faults run running none none s)
          ]

      -- From the start of a transaction, `claim` ends the attempt after those already counted.
      pub claim-Pending :
          (dispatch : Bool) (run : JobRun) (s : Session)
          → s.view ≡ s.disk
          → s.disk.run ≡ some run
          → Pending env
              (run.attempts + 1)
              s.disk
              (claim env run_id dispatch run s).0
              (claim env run_id dispatch run s).1
      unfolding claim is_terminal_status transition
      claim-Pending dispatch run s same e =
          ground (arith, begin-Pending s.disk dispatch run s, faults s.tick, faults (s.tick + 1))
