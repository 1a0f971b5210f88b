-- ===== src/Jobs/Frames.antt =====
-- What `transition` and the queueing of follow-up runs do to a session, as lemmas that the proofs
-- about the worker use with those functions shut.
use lead_discovery_rader.Prelude.{
  ℕ, ◌+◌, ◌≡◌, ◌⊎◌, String, Option, none, some, List, ◌∷◌, Bool, true, false, arith,
}
use lead_discovery_rader.Jobs.Model.{
  JobRunStatus, running, JobRun, Message, Exc, raised, run_timed_out, handler_failed,
  status_changed, invalid_transition,
}
use lead_discovery_rader.Jobs.Session.{Env, Session, Result, ok, err}
use lead_discovery_rader.Jobs.State.{can_transition, moved, transition}
use lead_discovery_rader.Jobs.Enqueue.{insert_run, enqueue_run, enqueue_child, follow_up}

module _ (env : Env) (run : JobRun) (target : JobRunStatus) (actor : Option String)
    (error : Option Message) (s : Session) where
  pub transition-disk : (transition env run target actor error s).1.disk ≡ s.disk
  unfolding transition
  transition-disk = ground arith

  -- An accepted transition stores the moved row and one audit row, and commits nothing.
  pub transition-ok :
      {run' : JobRun}
      → (transition env run target actor error s).0 ≡ ok run'
      → (run' ≡ moved run target error (env.clock s.tick))
        × ((transition env run target actor error s).1.view.run ≡ some run')
        × (can_transition run.status target ≡ true)
        × ((transition env run target actor error s).1.view.audit
            ≡ status_changed run'.id actor run.status target run'.attempts run'.error
              ∷ s.view.audit)
        × ((transition env run target actor error s).1.disk ≡ s.disk)
  unfolding transition
  transition-ok h = ground arith

  pub transition-refused :
      can_transition run.status target ≡ false
      → transition env run target actor error s
        ≡ (err (invalid_transition run.status target run.id), s)
  unfolding transition
  transition-refused h = ground arith

  -- Without a fault, an allowed transition writes the moved row and its audit row.
  pub transition-fault_free :
      can_transition run.status target ≡ true
      → env.fault s.tick ≡ none
      → env.fault (s.tick + 1) ≡ none
      → let run' = moved run target error (env.clock s.tick) in
        transition env run target actor error s ≡ (
          ok run',
          record s {
            view = record s.view {
              run = some run';
              audit =
                  status_changed run'.id actor run.status target run'.attempts run'.error
                  ∷ s.view.audit;
            };
            tick = s.tick + 1 + 1;
          },
        )
  unfolding transition
  transition-fault_free can f0 f1 = ground arith

pub moved_kept :
    (run : JobRun) (target : JobRunStatus) (error : Option Message) (now : ℕ)
    → ((moved run target error now).id ≡ run.id) × ((moved run target error now).kind ≡ run.kind)
unfolding moved
moved_kept run target error now = ground arith

pub moved-status :
    (run : JobRun) (target : JobRunStatus) (error : Option Message) (now : ℕ)
    → (moved run target error now).status ≡ target
unfolding moved
moved-status run target error now = ground arith

pub moved-running :
    (run : JobRun) (now : ℕ)
    → ((moved run running none now).status ≡ running)
      × ((moved run running none now).attempts ≡ run.attempts + 1)
unfolding moved
moved-running run now = ground arith

-- A statement fails with an error of the database or of Redis, or with the time limit. No
-- unique-key violation is met: no other process stores a run under the same idempotency key.
abbrev pub IsFault : Option Exc → Type 0
IsFault none = Unit
IsFault (some (raised _ _ _)) = Unit
IsFault (some (run_timed_out _)) = Unit
IsFault (some _) = ⊥

abbrev pub OnlyFaults : Env → Type 0
OnlyFaults env = (n : ℕ) → IsFault (env.fault n)

-- Not the exception by which an attempt reports a failure that it could not record.
abbrev pub NotWrapped : {A : Type 0} → Result A → Type 0
NotWrapped (err (handler_failed _ _)) = ⊥
NotWrapped _ = Unit

-- The job run's row is kept, and what was committed of it is the session's view.
abbrev pub KeepsRun : Session → Session → Type 0
KeepsRun s s' =
    (s'.view.run ≡ s.view.run) × ((s'.disk.run ≡ s.disk.run) ⊎ (s'.disk.run ≡ s.view.run))

module _ (env : Env) (faults : OnlyFaults env) where
  insert_run-KeepsRun :
      (search_job_id : Option String) (kind : String) (actor key : Option String) (n : ℕ)
      (params : List (String × String)) (dispatch : Bool) (s : Session)
      → KeepsRun s (insert_run env search_job_id kind actor key n params dispatch s).1
  unfolding insert_run
  insert_run-KeepsRun search_job_id kind actor key n params dispatch s =
      ground (arith, faults s.tick)

  insert_run-NotWrapped :
      (search_job_id : Option String) (kind : String) (actor key : Option String) (n : ℕ)
      (params : List (String × String)) (dispatch : Bool) (s : Session)
      → NotWrapped (insert_run env search_job_id kind actor key n params dispatch s).0
  unfolding insert_run
  insert_run-NotWrapped search_job_id kind actor key n params dispatch s = ground (
    arith,
    faults s.tick,
    faults (s.tick + 1),
    faults (s.tick + 1 + 1),
    faults (s.tick + 1 + 1 + 1),
  )

  enqueue_run-KeepsRun :
      (search_job_id : Option String) (kind : String) (actor key : Option String) (n : ℕ)
      (params : List (String × String)) (dispatch : Bool) (s : Session)
      → KeepsRun s (enqueue_run env search_job_id kind actor key n params dispatch s).1
  unfolding enqueue_run
  enqueue_run-KeepsRun search_job_id kind actor key n params dispatch s =
      grind (arith, insert_run-KeepsRun)

  enqueue_child-KeepsRun :
      (parent_kind kind parent_id : String) (key : Option String) (dispatch : Bool) (s : Session)
      → KeepsRun s (enqueue_child env parent_kind kind parent_id key dispatch s).1
  unfolding enqueue_child
  enqueue_child-KeepsRun parent_kind kind parent_id key dispatch s =
      grind (arith, enqueue_run-KeepsRun)

  pub follow_up-KeepsRun :
      (run : JobRun) (dispatch : Bool) (s : Session) → KeepsRun s (follow_up env run dispatch s).1
  unfolding follow_up
  follow_up-KeepsRun run dispatch s = grind (arith, enqueue_child-KeepsRun)

  pub follow_up-NotWrapped :
      (run : JobRun) (dispatch : Bool) (s : Session) → NotWrapped (follow_up env run dispatch s).0
  unfolding follow_up enqueue_child enqueue_run
  follow_up-NotWrapped run dispatch s = grind (arith, insert_run-NotWrapped)

  pub transition-NotWrapped :
      (run : JobRun) (target : JobRunStatus) (actor : Option String) (error : Option Message)
      (s : Session)
      → NotWrapped (transition env run target actor error s).0
  unfolding transition
  transition-NotWrapped run target actor error s =
      ground (arith, faults s.tick, faults (s.tick + 1))
