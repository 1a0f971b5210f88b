-- ===== src/Jobs/Model.antt =====
-- backend/app/modules/jobs/models.py, the audit rows that the job code writes, and the exceptions
-- that it raises or meets. A UUID is its text, a time is a number of seconds.
use lead_discovery_rader.Prelude.{ℕ, Bool, true, false, Option, String, List, [], ◌∷◌, any, ◌==◌}

pub data JobRunStatus : Type 0 where
  queued running done failed cancelled : JobRunStatus

status_index : JobRunStatus → ℕ
status_index queued = 0
status_index running = 1
status_index done = 2
status_index failed = 3
status_index cancelled = 4

-- `==` of two members of the enumeration
unfoldable pub same_status : JobRunStatus → JobRunStatus → Bool
unfolding status_index
same_status a b = status_index a == status_index b

abbrev pub terminal_run_statuses : List JobRunStatus
terminal_run_statuses = done ∷ failed ∷ cancelled ∷ []

unfoldable pub is_terminal_status : JobRunStatus → Bool
unfolding same_status
is_terminal_status s = any (same_status s) terminal_run_statuses

-- What an `except` clause tells apart: the job state machine's refusal, a missing row, a handler
-- that noticed a cancellation, the time limit (a `BaseException`), a failure that the attempt's
-- session could not record, a unique-key violation, and every other exception, with its type's
-- name, its text and its `retryable` attribute where it has one.
pub data Exc : Type 0 where
  invalid_transition : JobRunStatus → JobRunStatus → String → Exc
  not_found : String → Exc
  validation_failed : String → String → Exc
  job_cancelled : String → ℕ → Exc
  run_timed_out : ℕ → Exc
  handler_failed : Exc → ℕ → Exc
  integrity_error : Exc
  conflict : Exc
  lookup_error : String → Exc
  raised : String → String → Option Bool → Exc

-- `except Exception` lets `RunTimedOut` through.
unfoldable pub is_exception : Exc → Bool
is_exception (run_timed_out _) = false
is_exception _ = true

-- A stored error: `str(exc)`, or `f"{type(exc).__name__}: {exc}"`.
pub data Message : Type 0 where
  text_of : Exc → Message
  type_and_text : Exc → Message

pub record JobRun : Type 0 where
  pub id : String
  pub search_job_id : Option String
  pub kind : String
  pub status : JobRunStatus
  pub progress_total : ℕ
  pub progress_done : ℕ
  pub attempts : ℕ
  pub error : Option Message
  pub idempotency_key : Option String
  pub params : List (String × String)
  pub result_summary : Option (List (String × String))
  pub cancel_requested : Bool
  pub started_at : Option ℕ
  pub finished_at : Option ℕ
  pub created_at : ℕ
  pub updated_at : ℕ

unfoldable pub is_terminal : JobRun → Bool
unfolding is_terminal_status
is_terminal run = is_terminal_status run.status

-- The audit rows of the job framework, with the fields that each records.
pub data AuditRow : Type 0 where
  status_changed :
      (run_id : String) (actor_id : Option String) (before after : JobRunStatus) (attempts : ℕ)
      (error : Option Message)
      → AuditRow
  enqueued : (run_id : String) (actor_id : Option String) (kind : String) → AuditRow
  cancel_requested_row :
      (run_id : String) (actor_id : Option String) (status : JobRunStatus) → AuditRow
