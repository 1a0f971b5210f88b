-- ===== src/Jobs/State.antt =====
-- backend/app/modules/jobs/state.py: the job-run state machine.
use lead_discovery_rader.Prelude.{
  ℕ, ◌+◌, ◌^◌, max, String, Option, none, some, List, [], ◌∷◌, Bool, any, if◌then◌else◌,
}
use lead_discovery_rader.Jobs.Model.{
  JobRunStatus, queued, running, done, failed, cancelled, same_status, is_terminal_status, JobRun,
  Message, invalid_transition, status_changed,
}
use lead_discovery_rader.Jobs.Session.{
  Env, Sql, ◌>>=◌, ◌>>◌, pure, raise, utc_now, flush, write, record_audit,
}

abbrev pub allowed_transitions : JobRunStatus → List JobRunStatus
allowed_transitions queued = running ∷ cancelled ∷ failed ∷ []
allowed_transitions running = done ∷ failed ∷ cancelled ∷ queued ∷ []
allowed_transitions done = []
allowed_transitions failed = []
allowed_transitions cancelled = []

unfoldable pub can_transition : JobRunStatus → JobRunStatus → Bool
unfolding same_status
can_transition current target = any (same_status target) (allowed_transitions current)

abbrev or_now : Option ℕ → ℕ → Option ℕ
or_now none now = some now
or_now (some t) now = some t

abbrev or_error : Option Message → Option Message → Option Message
or_error none old = old
or_error (some m) old = some m

-- What `transition` assigns, in its order.
entering : JobRunStatus → ℕ → JobRun → JobRun
entering running now run = record run {
  status = running;
  attempts = run.attempts + 1;
  error = none;
  started_at = or_now run.started_at now;
}
entering target now run = record run { status = target }

abbrev finishing : JobRunStatus → ℕ → JobRun → JobRun
finishing target now run =
    if is_terminal_status target then record run { finished_at = some now } else run

unfoldable pub moved : JobRun → JobRunStatus → Option Message → ℕ → JobRun
unfolding entering is_terminal_status
moved run target error now =
    let run' = finishing target now (entering target now run) in
    record run' { error = or_error error run'.error }

unfoldable pub transition :
    Env → JobRun → JobRunStatus → Option String → Option Message → Sql JobRun
unfolding moved can_transition
transition env run target actor_id error =
    if can_transition run.status target
    then (do
      now ← utc_now env
      let run' = moved run target error now
      write run'
      flush env
      record_audit (status_changed run'.id actor_id run.status target run'.attempts run'.error)
      flush env
      pure run')
    else raise (invalid_transition run.status target run.id)

-- `base ** max(attempt, 1)`
unfoldable pub backoff_seconds : ℕ → ℕ → ℕ
backoff_seconds attempt base = base ^ max attempt 1
