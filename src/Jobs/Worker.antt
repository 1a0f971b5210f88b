-- ===== src/Jobs/Worker.antt =====
-- backend/app/workers/tasks.py: one attempt at a job run, and the loop that retries it.
pub mod Attempt
pub mod Rounds
pub mod Loop
pub mod Demo
pub mod Race
use lead_discovery_rader.Prelude.{
  ℕ, zero, suc, ◌+◌, String, Option, none, some, Bool, true, not, ◌&&◌, ◌||◌, leb, ◌==◌,
  if◌then◌else◌,
}
use lead_discovery_rader.Jobs.Model.{
  JobRunStatus, queued, running, done, failed, cancelled, same_status, JobRun, is_terminal, Exc,
  job_cancelled, run_timed_out, handler_failed, lookup_error, raised, is_exception, text_of,
  type_and_text,
}
use lead_discovery_rader.Jobs.Session.{
  Env, Session, Result, ok, err, Sql, ◌>>=◌, ◌>>◌, pure, raise, catch, utc_now, flush, commit,
  get_job_run, write, session_scope,
}
use lead_discovery_rader.Jobs.State.{transition, backoff_seconds}
use lead_discovery_rader.Jobs.Enqueue.{follow_up}

-- The terminal status, or `none` and the seconds until a retry.
abbrev pub Decision : Type 0
Decision = Option JobRunStatus × ℕ

-- `getattr(exc, "retryable", True)`
unfoldable pub is_retryable : Exc → Bool
is_retryable (raised _ _ (some b)) = b
is_retryable _ = true

get_handler : Env → String → Sql (Unit {0})
get_handler env kind s =
    (elim (env.handlers kind) as (λ _. Sql Unit) [
      | none ↦ raise (lookup_error kind)
      | some handler ↦ handler
    ])
      s

abbrev pub or_done : Option ℕ → ℕ → ℕ
or_done none n = n
or_done (some d) n = d

-- Persist progress, and raise if a cancellation was requested.
unfoldable pub checkpoint : Env → String → Option ℕ → Sql (Unit {0})
unfolding get_job_run
checkpoint env run_id n = do
  run ← get_job_run run_id
  now ← utc_now env
  write (record run { progress_done = or_done n run.progress_done; updated_at = now })
  flush env
  commit env
  run' ← get_job_run run_id
  if run'.cancel_requested then raise (job_cancelled run'.id run'.progress_done) else pure tt

abbrev pub demo_default_steps : ℕ
demo_default_steps = 5

-- `for step in range(first, first + count): checkpoint(session, run, done=step)`
demo_steps : Env → String → ℕ → ℕ → Sql (Unit {0})
demo_steps env run_id first zero = pure tt
demo_steps env run_id first (suc count) = do
  checkpoint env run_id (some first)
  demo_steps env run_id (first + 1) count

unfoldable pub demo_handler : Env → String → Sql (Unit {0})
unfolding demo_steps
demo_handler env run_id = do
  run ← get_job_run run_id
  let steps = if run.progress_total == 0 then demo_default_steps else run.progress_total
  write (record run { progress_total = steps; progress_done = 0 })
  checkpoint env run_id (some 0)
  demo_steps env run_id 1 steps

-- `_decide`: fail the run, or queue a retry.
unfoldable pub decide : Env → JobRun → Exc → ℕ → Sql Decision
unfolding is_retryable
decide env run cause attempt =
    if leb env.max_attempts attempt || not (is_retryable cause)
    then (do transition env run failed none (some (type_and_text cause)); pure (some failed, 0))
    else (do
      transition env run queued none (some (type_and_text cause))
      pure (none, backoff_seconds attempt env.backoff_base))

-- The `except` clauses round the handler: `none` is a handler that returned.
on_decide_error : Exc → ℕ → Exc → Sql (Option Decision)
unfolding is_exception
on_decide_error cause attempt e =
    if is_exception e then raise (handler_failed cause attempt) else raise e

decide_in_session : Env → String → ℕ → Exc → Sql (Option Decision)
unfolding on_decide_error get_job_run
decide_in_session env run_id attempt cause =
    catch
      (do run ← get_job_run run_id; decision ← decide env run cause attempt; pure (some decision))
      (on_decide_error cause attempt)

on_handler_error : Env → String → ℕ → Exc → Sql (Option Decision)
unfolding decide_in_session get_job_run
on_handler_error env run_id attempt (job_cancelled id n) = do
  run ← get_job_run run_id
  transition env run cancelled none (some (text_of (job_cancelled id n)))
  pure (some (some cancelled, 0))
on_handler_error env run_id attempt (run_timed_out n) = raise (run_timed_out n)
on_handler_error env run_id attempt cause = decide_in_session env run_id attempt cause

pub finish : Env → String → Bool → Sql Decision
unfolding get_job_run
finish env run_id dispatch = do
  run ← get_job_run run_id
  run' ← transition env run done none none
  follow_up env run' dispatch
  pure (some done, 0)

after_handler : Env → String → Bool → Option Decision → Sql Decision
after_handler env run_id dispatch none = finish env run_id dispatch
after_handler env run_id dispatch (some decision) = pure decision

run_handler : Env → String → JobRun → Sql (Option Decision)
run_handler env run_id run =
    catch (do get_handler env run.kind; pure none) (on_handler_error env run_id run.attempts)

work : Env → String → Bool → JobRun → Sql Decision
work env run_id dispatch run = do
  outcome ← run_handler env run_id run
  after_handler env run_id dispatch outcome

-- Committed before any work starts, so that a dead attempt leaves the row `running`.
begin : Env → String → Bool → JobRun → Sql Decision
begin env run_id dispatch run = do
  run' ← transition env run running none none
  commit env
  work env run_id dispatch run'

pub claim : Env → String → Bool → JobRun → Sql Decision
unfolding is_terminal same_status
claim env run_id dispatch run =
    if is_terminal run
    then pure (some run.status, 0)
    else if same_status run.status running
    then pure (some run.status, 0)
    else if run.cancel_requested && same_status run.status queued
    then (do transition env run cancelled none none; pure (some cancelled, 0))
    else begin env run_id dispatch run

-- `_one_attempt`
unfoldable pub one_attempt : Env → String → Bool → Sql Decision
unfolding get_job_run
one_attempt env run_id dispatch =
    session_scope env (do run ← get_job_run run_id; claim env run_id dispatch run)

-- `_record_failure`
unfoldable pub record_failure : Env → String → Exc → ℕ → Sql Decision
unfolding session_scope decide get_job_run
record_failure env run_id cause attempt = session_scope env (do
  run ← get_job_run run_id
  if is_terminal run then pure (some run.status, 0) else decide env run cause attempt)

on_fail_error : Exc → Exc → Sql JobRunStatus
unfolding is_exception
on_fail_error exc e = if is_exception e then raise exc else raise e

-- `_fail_run`
unfoldable pub fail_run : Env → String → Exc → Sql JobRunStatus
unfolding session_scope on_fail_error get_job_run
fail_run env run_id exc =
    catch
      (session_scope env (do
        run ← get_job_run run_id
        (if is_terminal run
            then pure run.status
            else (do transition env run failed none (some (type_and_text exc)); pure failed))))
      (on_fail_error exc)

abbrev finally_failed : Env → String → Exc → Sql Decision
finally_failed env run_id exc = do status ← fail_run env run_id exc; pure (some status, 0)

on_record_error : Env → String → Exc → Sql Decision
unfolding is_exception
on_record_error env run_id e = if is_exception e then finally_failed env run_id e else raise e

-- The `except` clauses of the loop.
on_attempt_error : Env → String → Exc → Sql Decision
unfolding on_record_error
on_attempt_error env run_id (run_timed_out n) = do
  fail_run env run_id (run_timed_out n)
  raise (run_timed_out n)
on_attempt_error env run_id (handler_failed cause attempt) =
    catch (record_failure env run_id cause attempt) (on_record_error env run_id)
on_attempt_error env run_id e = finally_failed env run_id e

-- One round of the loop of `execute_job_run`.
unfoldable pub round : Env → String → Bool → Sql Decision
unfolding on_attempt_error
round env run_id dispatch = catch (one_attempt env run_id dispatch) (on_attempt_error env run_id)

-- The loop on fuel: `none` means that the fuel ran out. `sleeper` is what happens to the database
-- while this call sleeps.
unfoldable pub execute_job_run :
    Env
    → String
    → Bool
    → (ℕ → Session → Session)
    → ℕ
    → Session
    → Option (Result JobRunStatus) × Session
execute_job_run env run_id dispatch sleeper zero s = (none, s)
execute_job_run env run_id dispatch sleeper (suc fuel) s =
    let (r, s') = round env run_id dispatch s in
    elim r [
      | err e ↦ (some (err e), s')
      | ok (some status, delay) ↦ (some (ok status), s')
      | ok (none, delay) ↦ execute_job_run env run_id dispatch sleeper fuel (sleeper delay s')
    ]
