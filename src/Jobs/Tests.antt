-- ===== src/Jobs/Tests.antt =====
-- Concrete runs of the worker, and the theorems of this folder at inputs that meet their hypotheses.
use lead_discovery_rader.Prelude.{
  ℕ, String, List, ◌⊎◌, ◌+◌, ◌≡◌, refl, ap, ◌≢◌, inl, Option, none, some, [], true, false, ◌==◌,
  if◌then◌else◌, arith, Bool-cases, inr,
}
use mathlib.Core.Path.{subst}
use native.Mathlib.Nat.{le_refl}
use lead_discovery_rader.Jobs.Model.{
  queued, running, done, failed, cancelled, JobRun, is_terminal, Exc, raised, integrity_error,
}
use lead_discovery_rader.Jobs.Session.{Env, Db, Session, Sql, ok, err, commit}
use lead_discovery_rader.Jobs.State.{can_transition, moved, transition}
use lead_discovery_rader.Jobs.Enqueue.{find_key}
use lead_discovery_rader.Jobs.Frames.{OnlyFaults}
use lead_discovery_rader.Jobs.Transitions.{IsConsistent, moved-IsConsistent}
use lead_discovery_rader.Jobs.Inline.{run_inline, run_inline-ends}
use lead_discovery_rader.Jobs.Requests.{request_cancel, IsCancelled, IsRequested, request_cancel-ok}
use lead_discovery_rader.Jobs.Worker.{demo_handler, one_attempt, finish, execute_job_run}
use lead_discovery_rader.Jobs.Worker.Attempt.{IsClaimed, HandlersKeepClaim}
use lead_discovery_rader.Jobs.Worker.Loop.{
  SleepsSafely, IsExit, execute_job_run-IsExit, execute_job_run-total, one_attempt_second_executor,
}
use lead_discovery_rader.Jobs.Worker.Demo.{demo_handler-keeps}
use lead_discovery_rader.Jobs.Worker.Race.{status_in, finish-race}

-- The connection drops at one statement.
abbrev outage : ℕ → Option Exc
outage n =
    if n == 4 then some (raised "OperationalError" "server closed the connection" none) else none

abbrev bare : Env
bare = record {
  clock = λ n. 1000 + n;
  fault = outage;
  handlers = λ _. none;
  max_attempts = 3;
  backoff_base = 2;
  new_id = λ _. "run-2";
  concurrent = λ _. none;
}

abbrev env : Env
env = record bare { handlers = λ _. some (demo_handler bare "run-1") }

outage-OnlyFaults : OnlyFaults env
outage-OnlyFaults n = elim (Bool-cases (n == 4)) [ inl e ↦ rw e tt | inr e ↦ rw e tt ]

some_injective : {f g : Sql (Unit {0})} → some f ≡ some g → f ≡ g
some_injective {f} p = ap (λ (o : Option (Sql (Unit {0}))). elim o [ none ↦ f | some h ↦ h ]) p

env-HandlersKeepClaim : HandlersKeepClaim env
env-HandlersKeepClaim kind handler e n s v d =
    subst (λ (h : Sql (Unit {0})). IsClaimed n (h s).1.view × IsClaimed n (h s).1.disk)
      (some_injective e) (demo_handler-keeps bare "run-1" n s v d)

abbrev fresh : JobRun
fresh = record {
  id = "run-1";
  search_job_id = none;
  kind = "demo";
  status = queued;
  progress_total = 2;
  progress_done = 0;
  attempts = 0;
  error = none;
  idempotency_key = none;
  params = [];
  result_summary = none;
  cancel_requested = false;
  started_at = none;
  finished_at = none;
  created_at = 1;
  updated_at = 1;
}

abbrev disk : Db
disk = record { run = some fresh; audit = []; created = [] }

abbrev start : Session
start = record { disk = disk; view = disk; rq = []; tick = 0 }

abbrev sleep : ℕ → Session → Session
sleep delay s = s

sleep-SleepsSafely : SleepsSafely sleep
sleep-SleepsSafely delay s run e = (run, e, le_refl run.attempts)

abbrev claimed_run : JobRun
claimed_run = record fresh {
  status = running;
  attempts = 1;
  started_at = some 5;
  kind = "discovery";
}

abbrev claimed_disk : Db
claimed_disk = record disk { run = some claimed_run }

abbrev claimed : Session
claimed = record start { disk = claimed_disk; view = claimed_disk }

execute_job_run-IsExit_example :
    IsExit
      (execute_job_run env "run-1" true sleep 3 start).0
      (execute_job_run env "run-1" true sleep 3 start).1
execute_job_run-IsExit_example =
    execute_job_run-IsExit env "run-1" outage-OnlyFaults env-HandlersKeepClaim true sleep
      sleep-SleepsSafely 3 start fresh refl

execute_job_run-total_example : (execute_job_run env "run-1" true sleep 3 start).0 ≢ none
execute_job_run-total_example =
    execute_job_run-total env "run-1" outage-OnlyFaults env-HandlersKeepClaim true sleep
      sleep-SleepsSafely 3 start fresh refl (omega arith) (omega arith)

one_attempt_second_executor_example :
    ((one_attempt env "run-1" true claimed).1.disk ≡ claimed.disk)
    × ((one_attempt env "run-1" true claimed).1.rq ≡ claimed.rq)
    × (((one_attempt env "run-1" true claimed).0 ≡ ok (some running, 0))
        ⊎ ((e : Exc) × (env.fault claimed.tick ≡ some e)
            × ((one_attempt env "run-1" true claimed).0 ≡ err e)))
one_attempt_second_executor_example =
    one_attempt_second_executor env "run-1" true claimed claimed_run refl refl

abbrev racing : Env
racing = record bare {
  fault = λ n. if n == 2 then some integrity_error else none;
  concurrent = λ _. some fresh;
}

finish-race_example :
    (status_in (transition racing claimed_run done none none claimed).1.view ≡ some done)
    × ((finish racing "run-1" true claimed).0 ≡ ok (some done, 0))
    × (status_in (commit racing (finish racing "run-1" true claimed).1).1.disk ≡ some running)
finish-race_example =
    finish-race racing "run-1" true claimed claimed_run fresh refl refl refl refl
      (unfold find_key in refl) refl refl refl refl

moved-IsConsistent_example : IsConsistent (moved claimed_run failed none 9)
unfolding can_transition
moved-IsConsistent_example =
    moved-IsConsistent claimed_run failed none 9 (unfold is_terminal in ground arith) refl

abbrev cancelled_run : JobRun
cancelled_run = record fresh {
  cancel_requested = true;
  status = cancelled;
  finished_at = some 1002;
}

request_cancel-ok_example :
    (is_terminal fresh ≡ true
      → ((request_cancel bare none "run-1" start).1 ≡ start) × (cancelled_run ≡ fresh))
    × (fresh.status ≡ queued
        → IsCancelled bare none fresh cancelled_run start
            (request_cancel bare none "run-1" start).1)
    × (fresh.status ≡ running
        → IsRequested bare none fresh cancelled_run start
            (request_cancel bare none "run-1" start).1)
unfolding request_cancel transition
request_cancel-ok_example = request_cancel-ok bare none "run-1" start fresh cancelled_run refl refl

abbrev quiet : Env
quiet = record bare { fault = λ _. none }

abbrev no_summary : JobRun → Sql (Option (List (String × String)))
no_summary run s = (ok none, s)

abbrev backed_up : JobRun
backed_up = record fresh {
  id = "run-2";
  kind = "backup";
  status = done;
  progress_total = 0;
  attempts = 1;
  started_at = some 1002;
  finished_at = some 1005;
  created_at = 1000;
  updated_at = 1000;
}

run_inline-ends_example :
    ((run_inline quiet none no_summary "backup" [] start).1.disk.run ≡ some backed_up)
    × ((backed_up.status ≡ done) ⊎ (backed_up.status ≡ failed))
unfolding run_inline transition
run_inline-ends_example = run_inline-ends quiet none no_summary "backup" [] start backed_up refl
