-- ===== src/Jobs/Enqueue.antt =====
-- backend/app/modules/jobs/service.py, `enqueue_run`, and the follow-up runs of workers/tasks.py
-- with the functions of the resolution, audit and opportunity services that queue them.
use Prim.Native.String.{◌++◌ as ◌++ₛ◌}
use lead_discovery_rader.Prelude.{
  ℕ, String, Option, none, some, List, [], ◌∷◌, Bool, false, ◌==ₛ◌, if◌then◌else◌,
}
use lead_discovery_rader.Jobs.Model.{
  queued, JobRun, Exc, integrity_error, conflict, validation_failed, enqueued,
}
use lead_discovery_rader.Jobs.Session.{
  Env, Sql, ok, ◌>>=◌, ◌>>◌, pure, raise, catch, flush, commit, rollback, get_job_run, record_audit,
}

abbrev pub discovery_job_kind : String
discovery_job_kind = "discovery"

abbrev pub resolution_job_kind : String
resolution_job_kind = "resolution"

abbrev pub audit_job_kind : String
audit_job_kind = "audit"

abbrev pub classification_job_kind : String
classification_job_kind = "classification"

abbrev pub demo_job_kind : String
demo_job_kind = "demo"

infix 50 ◌is◌
abbrev ◌is◌ : Option String → String → Bool
none is key = false
some k is key = k ==ₛ key

-- `select(JobRun).where(JobRun.idempotency_key == key).first()`
unfoldable pub find_key : String → List JobRun → Option JobRun
find_key key [] = none
find_key key (run ∷ runs) = if run.idempotency_key is key then some run else find_key key runs

-- `if idempotency_key:` holds for a key that is neither `None` nor empty.
unfoldable pub existing_run : Option String → Sql (Option JobRun)
unfolding find_key
existing_run none s = (ok none, s)
existing_run (some key) s = (ok (if key ==ₛ "" then none else find_key key s.view.created), s)

new_run : Env → Option String → String → Option String → ℕ → List (String × String) → Sql JobRun
new_run env search_job_id kind key progress_total params s =
    let run : JobRun = record {
      id = env.new_id s.tick;
      search_job_id = search_job_id;
      kind = kind;
      status = queued;
      progress_total = progress_total;
      progress_done = 0;
      attempts = 0;
      error = none;
      idempotency_key = key;
      params = params;
      result_summary = none;
      cancel_requested = false;
      started_at = none;
      finished_at = none;
      created_at = env.clock s.tick;
      updated_at = env.clock s.tick;
    } in
    (ok run, record s { view = record s.view { created = run ∷ s.view.created } })

-- The row that another process stored under the same key meanwhile, if there is one.
or_conflict : Option JobRun → Sql JobRun
or_conflict none = raise conflict
or_conflict (some run) = pure run

duplicate_run : Env → Sql JobRun
unfolding or_conflict
duplicate_run env s = or_conflict (env.concurrent s.tick) s

-- `get_queue().enqueue(...)`: Redis may raise too.
dispatch_run : Env → JobRun → Sql JobRun
dispatch_run env run = do flush env; λ s. (ok run, record s { rq = run.id ∷ s.rq })

store_run : Env → JobRun → Option String → Bool → Sql JobRun
unfolding dispatch_run
store_run env run actor_id dispatch = do
  record_audit (enqueued run.id actor_id run.kind)
  flush env
  commit env
  if dispatch then dispatch_run env run else pure run

-- What `except IntegrityError` does; any other exception goes on.
on_insert_error : Env → Exc → Sql (Option JobRun)
unfolding duplicate_run
on_insert_error env integrity_error = do rollback; run ← duplicate_run env; pure (some run)
on_insert_error env e = raise e

unfoldable pub insert_run :
    Env
    → Option String
    → String
    → Option String
    → Option String
    → ℕ
    → List (String × String)
    → Bool
    → Sql JobRun
unfolding new_run store_run on_insert_error
insert_run env search_job_id kind actor_id key progress_total params dispatch = do
  run ← new_run env search_job_id kind key progress_total params
  duplicate ← catch (do flush env; pure none) (on_insert_error env)
  elim duplicate [ some old ↦ pure old | none ↦ store_run env run actor_id dispatch ]

unfoldable pub enqueue_run :
    Env
    → Option String
    → String
    → Option String
    → Option String
    → ℕ
    → List (String × String)
    → Bool
    → Sql JobRun
unfolding insert_run existing_run
enqueue_run env search_job_id kind actor_id key progress_total params dispatch = do
  existing ← existing_run key
  elim existing [
    | some old ↦ pure old
    | none ↦ insert_run env search_job_id kind actor_id key progress_total params dispatch
  ]

-- `enqueue_resolution`, `enqueue_audits_for_run` and `enqueue_classification_for_run` differ in the
-- kind of parent that they accept and the kind of run that they create.
unfoldable pub enqueue_child : Env → String → String → String → Option String → Bool → Sql JobRun
unfolding enqueue_run get_job_run
enqueue_child env parent_kind kind parent_id key dispatch = do
  parent ← get_job_run parent_id
  (if parent.kind ==ₛ parent_kind
      then enqueue_run env parent.search_job_id kind none key 0 (("parent_run_id", parent.id) ∷ [])
          dispatch
      else raise (validation_failed parent_id parent.kind))

unfoldable pub enqueue_resolution : Env → String → Option String → Bool → Sql JobRun
unfolding enqueue_child
enqueue_resolution env = enqueue_child env discovery_job_kind resolution_job_kind

unfoldable pub enqueue_audits_for_run : Env → String → Option String → Bool → Sql JobRun
unfolding enqueue_child
enqueue_audits_for_run env = enqueue_child env resolution_job_kind audit_job_kind

unfoldable pub enqueue_classification_for_run : Env → String → Option String → Bool → Sql JobRun
unfolding enqueue_child
enqueue_classification_for_run env = enqueue_child env audit_job_kind classification_job_kind

unfoldable pub follow_up : Env → JobRun → Bool → Sql (Unit {0})
unfolding enqueue_resolution enqueue_audits_for_run enqueue_classification_for_run
follow_up env run dispatch =
    if run.kind ==ₛ discovery_job_kind
    then (enqueue_resolution env run.id (some ("resolution:" ++ₛ run.id)) dispatch >>= λ _. pure tt)
    else if run.kind ==ₛ resolution_job_kind
    then (enqueue_audits_for_run env run.id (some ("audit:" ++ₛ run.id)) dispatch >>= λ _. pure tt)
    else if run.kind ==ₛ audit_job_kind
    then (enqueue_classification_for_run env run.id (some ("classification:" ++ₛ run.id)) dispatch
        >>= λ _. pure tt)
    else pure tt
