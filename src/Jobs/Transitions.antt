-- ===== src/Jobs/Transitions.antt =====
-- The state machine of modules/jobs/state.py: what an accepted transition does, and what none can.
use native.Mathlib.Nat.{pow-succ'}
use lead_discovery_rader.Prelude.{ℕ, suc, ◌*◌, ◌<◌, max, ◌≡◌, ◌≢◌, Option, none, true, false, arith}
use lead_discovery_rader.Jobs.Model.{
  JobRunStatus, running, failed, cancelled, is_terminal_status, is_terminal, JobRun, Message,
}
use lead_discovery_rader.Jobs.State.{can_transition, moved, backoff_seconds}

-- The timestamps and counters agree with the status: a finish time exactly on the terminal rows,
-- and an attempt and a start time on every row that has ever run.
pub record IsConsistent (run : JobRun) : Type 0 where
  pub finished : is_terminal run ≡ true → run.finished_at ≢ none
  pub unfinished : is_terminal run ≡ false → run.finished_at ≡ none
  pub started : run.started_at ≢ none → 0 < run.attempts
  pub ran : 0 < run.attempts → run.started_at ≢ none
  pub running_started : run.status ≡ running → 0 < run.attempts

-- Every accepted transition keeps the timestamps, the attempts and the status in agreement.
pub moved-IsConsistent :
    (run : JobRun) (target : JobRunStatus) (error : Option Message) (now : ℕ)
    → IsConsistent run
    → can_transition run.status target ≡ true
    → IsConsistent (moved run target error now)
unfolding moved can_transition is_terminal
moved-IsConsistent run target error now h can = record {
  finished = ground (arith, h.finished);
  unfinished = ground (arith, h.unfinished);
  started = ground (arith, h.started, h.ran, h.running_started);
  ran = ground (arith, h.started, h.ran, h.running_started);
  running_started = ground (arith, h.running_started);
}

-- No target is reachable from a terminal status, and from any other the run can be failed or
-- cancelled: every run can be finished from wherever it stands.
pub can_transition-terminal :
    (s t : JobRunStatus)
    → (is_terminal_status s ≡ true → can_transition s t ≡ false)
      × (is_terminal_status s ≡ false
          → (can_transition s failed ≡ true) × (can_transition s cancelled ≡ true))
unfolding can_transition is_terminal_status
can_transition-terminal s t = ground arith

-- The delay before the next attempt is `base` times the delay before, from the first attempt on.
pub backoff_seconds-suc :
    (attempt base : ℕ)
    → 0 < attempt
    → backoff_seconds (suc attempt) base ≡ base * backoff_seconds attempt base
unfolding backoff_seconds
backoff_seconds-suc attempt base h =
    let p : max (suc attempt) 1 ≡ suc attempt = omega arith in
    let q : max attempt 1 ≡ attempt = omega arith in rw (p, q) (pow-succ' base attempt)
