-- ===== src/Jobs/Inline.antt =====
-- `run_inline` of backend/app/modules/jobs/service.py: a job run that is executed in this process.
use lead_discovery_rader.Prelude.{
  ◌≡◌, ◌⊎◌, inl, inr, String, Option, none, some, false, List, arith, if◌then◌else◌, Option-cases,
}
use lead_discovery_rader.Jobs.Model.{
  queued, running, done, failed, JobRun, Exc, is_exception, type_and_text, enqueued,
}
use lead_discovery_rader.Jobs.Session.{
  Env, Session, Sql, ok, Result-cases, ◌>>=◌, ◌>>◌, pure, raise, catch, flush, commit, get_job_run,
  write, record_audit,
}
use lead_discovery_rader.Jobs.State.{transition}
use lead_discovery_rader.Jobs.Frames.{transition-ok, moved-status}

-- `JobRun(kind=kind, status=JobRunStatus.queued, params=params)`, with the column defaults.
inline_run : Env → String → List (String × String) → Sql JobRun
inline_run env kind params s =
    let run : JobRun = record {
      id = env.new_id s.tick;
      search_job_id = none;
      kind = kind;
      status = queued;
      progress_total = 0;
      progress_done = 0;
      attempts = 0;
      error = none;
      idempotency_key = none;
      params = params;
      result_summary = none;
      cancel_requested = false;
      started_at = none;
      finished_at = none;
      created_at = env.clock s.tick;
      updated_at = env.clock s.tick;
    } in
    (write run >> pure run) s

module _ (env : Env) (actor_id : Option String)
    (job : JobRun → Sql (Option (List (String × String)))) where
  -- `except Exception`: the failure is the result.
  inline_error : String → Exc → Sql JobRun
  unfolding is_exception get_job_run
  inline_error run_id e =
      if is_exception e
      then (do
        run ← get_job_run run_id
        transition env run failed actor_id (some (type_and_text e)))
      else raise e

  -- `run.result_summary = work(session, run)`
  inline_work : JobRun → Sql (Option Exc)
  unfolding get_job_run
  inline_work run =
      catch
        (do
          summary ← job run
          current ← get_job_run run.id
          write (record current { result_summary = summary })
          pure none)
        (λ e. pure (some e))

  inline_end : String → Option Exc → Sql JobRun
  unfolding inline_error get_job_run
  inline_end run_id none = do run ← get_job_run run_id; transition env run done actor_id none
  inline_end run_id (some e) = inline_error run_id e

  -- The new run, up to the commit before the work.
  inline_begin : String → List (String × String) → Sql JobRun
  unfolding inline_run
  inline_begin kind params = do
    run ← inline_run env kind params
    flush env
    record_audit (enqueued run.id actor_id kind)
    flush env
    started ← transition env run running actor_id none
    commit env
    pure started

  unfoldable pub run_inline : String → List (String × String) → Sql JobRun
  unfolding inline_begin inline_work inline_end
  run_inline kind params = do
    started ← inline_begin kind params
    outcome ← inline_work started
    ended ← inline_end started.id outcome
    commit env
    pure ended

  inline_end-ok :
      (run_id : String) (outcome : Option Exc) (s : Session) (run : JobRun)
      → (inline_end run_id outcome s).0 ≡ ok run
      → ((inline_end run_id outcome s).1.view.run ≡ some run)
        × ((run.status ≡ done) ⊎ (run.status ≡ failed))
  unfolding inline_end inline_error get_job_run
  inline_end-ok run_id none s run h = elim (Option-cases s.view.run) [
    | inl gone ↦ ground arith
    | inr (row, there) ↦ ground (
      arith,
      transition-ok env row done actor_id none s {run' = run},
      moved-status row done none (env.clock s.tick),
    )
  ]
  inline_end-ok run_id (some e) s run h = elim (Option-cases s.view.run) [
    | inl gone ↦ ground arith
    | inr (row, there) ↦ ground (
      arith,
      transition-ok env row failed actor_id (some (type_and_text e)) s {run' = run},
      moved-status row failed (some (type_and_text e)) (env.clock s.tick),
    )
  ]

  inline_end-commit :
      (run_id : String) (outcome : Option Exc) (s : Session) (run : JobRun)
      → ((inline_end run_id outcome >>= λ ended. commit env >> pure ended) s).0 ≡ ok run
      → (((inline_end run_id outcome >>= λ ended. commit env >> pure ended) s).1.disk.run
          ≡ some run)
        × ((run.status ≡ done) ⊎ (run.status ≡ failed))
  inline_end-commit run_id outcome s run h = elim (Result-cases (inline_end run_id outcome s).0) [
    | inl (r, e) ↦ ground (arith, inline_end-ok run_id outcome s r e)
    | inr (x, e) ↦ ground arith
  ]

  -- Whatever the work does, and whichever statement fails: a run that `run_inline` returns is on
  -- disk as it is returned, and it is done or failed.
  pub run_inline-ends :
      (kind : String) (params : List (String × String)) (s : Session) (run : JobRun)
      → (run_inline kind params s).0 ≡ ok run
      → ((run_inline kind params s).1.disk.run ≡ some run)
        × ((run.status ≡ done) ⊎ (run.status ≡ failed))
  unfolding run_inline
  run_inline-ends kind params s run h = elim (Result-cases (inline_begin kind params s).0) [
    | inr (x, e) ↦ ground arith
    | inl (started, e) ↦
        elim (Result-cases (inline_work started (inline_begin kind params s).1).0) [
          | inr (x, f) ↦ ground arith
          | inl (outcome, f) ↦
              let after : Session = (inline_work started (inline_begin kind params s).1).1 in
              ground (arith, inline_end-commit started.id outcome after run)
        ]
  ]
