-- ===== src/Jobs/Worker/Race.antt =====
-- A unique-key violation while the follow-up run is stored: `session.rollback()` in `enqueue_run`
-- also undoes the `done` that `_one_attempt` has flushed and not committed.
use Prim.Native.String.{◌++◌ as ◌++ₛ◌}
use lead_discovery_rader.Prelude.{
  ◌+◌, ◌≡◌, String, Option, none, some, ap, Option-cases, inl, inr, Bool, arith, ◌==ₛ◌, true,
}
use lead_discovery_rader.Jobs.Model.{JobRunStatus, running, done, JobRun, integrity_error}
use lead_discovery_rader.Jobs.Session.{Env, Session, Db, commit, ok}
use lead_discovery_rader.Jobs.State.{can_transition, transition, moved}
use lead_discovery_rader.Jobs.Enqueue.{
  discovery_job_kind, find_key, insert_run, enqueue_run, enqueue_child, enqueue_resolution,
  follow_up,
}
use lead_discovery_rader.Jobs.Frames.{moved_kept, moved-status, transition-fault_free}
use lead_discovery_rader.Jobs.Worker.{finish}

follow_up-race :
    (env : Env) (run parent old : JobRun) (dispatch : Bool) (s : Session)
    → s.view.run ≡ some parent
    → (run.kind ==ₛ discovery_job_kind) ≡ true
    → (parent.kind ==ₛ discovery_job_kind) ≡ true
    → find_key ("resolution:" ++ₛ run.id) s.view.created ≡ none
    → env.fault s.tick ≡ some integrity_error
    → env.concurrent (s.tick + 1) ≡ some old
    → ((follow_up env run dispatch s).0 ≡ ok tt)
      × ((follow_up env run dispatch s).1.view ≡ s.disk)
      × ((follow_up env run dispatch s).1.disk ≡ s.disk)
unfolding follow_up enqueue_resolution enqueue_child enqueue_run insert_run
follow_up-race env run parent old dispatch s v k k' fresh f c = ground arith

can_finish : (run : JobRun) → run.status ≡ running → can_transition run.status done ≡ true
unfolding can_transition
can_finish run r = ground arith

finish-undone :
    (env : Env) (run_id : String) (dispatch : Bool) (s : Session) (run old : JobRun)
    → s.view.run ≡ some run
    → run.status ≡ running
    → (run.kind ==ₛ discovery_job_kind) ≡ true
    → find_key ("resolution:" ++ₛ run.id) s.view.created ≡ none
    → env.fault s.tick ≡ none
    → env.fault (s.tick + 1) ≡ none
    → env.fault (s.tick + 1 + 1) ≡ some integrity_error
    → env.concurrent (s.tick + 1 + 1 + 1) ≡ some old
    → ((finish env run_id dispatch s).0 ≡ ok (some done, 0))
      × ((finish env run_id dispatch s).1.view ≡ s.disk)
      × ((finish env run_id dispatch s).1.disk ≡ s.disk)
unfolding finish
finish-undone env run_id dispatch s run old v r k fresh f0 f1 f2 c =
    let run' : JobRun = moved run done none (env.clock s.tick) in
    let (same_id, same_kind) = moved_kept run done none (env.clock s.tick) in
    let moved_on = transition-fault_free env run done none none s (can_finish run r) f0 f1 in
    let raced = follow_up-race env run' run' old dispatch (transition env run done none none s).1 in
    ground (
      arith,
      moved_on,
      same_id,
      same_kind,
      raced (ground (arith, moved_on)) (rw same_kind k) (rw same_kind k)
          (rw same_id (ground (arith, moved_on))) (ground (arith, moved_on))
          (ground (arith, moved_on)),
    )

commit-undone :
    (env : Env) (s : Session) (db : Db) → s.view ≡ db → s.disk ≡ db → (commit env s).1.disk ≡ db
commit-undone env s db v d = elim (Option-cases (env.fault s.tick)) [
  | inl e ↦ rw e v
  | inr (x, e) ↦ rw e d
]

abbrev pub status_in : Db → Option JobRunStatus
status_in db = elim db.run [ none ↦ none | some run ↦ some run.status ]

-- The run has been claimed, so that it is `running` on disk, and another process stores the key of
-- its follow-up between the check and the insert, while the statements of the transition and the
-- flush before the insert do not fail. Then the transition stores `done` in the transaction and the
-- last step of the attempt returns `done`, but after the commit the run is still `running` on disk,
-- whether or not the commit fails.
pub finish-race :
    (env : Env) (run_id : String) (dispatch : Bool) (s : Session) (run old : JobRun)
    → s.view.run ≡ some run
    → run.status ≡ running
    → status_in s.disk ≡ some running
    → (run.kind ==ₛ discovery_job_kind) ≡ true
    → find_key ("resolution:" ++ₛ run.id) s.view.created ≡ none
    → env.fault s.tick ≡ none
    → env.fault (s.tick + 1) ≡ none
    → env.fault (s.tick + 1 + 1) ≡ some integrity_error
    → env.concurrent (s.tick + 1 + 1 + 1) ≡ some old
    → (status_in (transition env run done none none s).1.view ≡ some done)
      × ((finish env run_id dispatch s).0 ≡ ok (some done, 0))
      × (status_in (commit env (finish env run_id dispatch s).1).1.disk ≡ some running)
finish-race env run_id dispatch s run old v r stored k fresh f0 f1 f2 c =
    let (returned, undone, same) =
      finish-undone env run_id dispatch s run old v r k fresh f0 f1 f2 c in
    let moved_on = transition-fault_free env run done none none s (can_finish run r) f0 f1 in
    let is_done = moved-status run done none (env.clock s.tick) in
    let at_last = commit-undone env (finish env run_id dispatch s).1 s.disk undone same in
    (rw moved_on (ap some is_done), returned, rw at_last stored)
