-- ===== src/Jobs/Requests.antt =====
-- `request_cancel` of backend/app/modules/jobs/service.py.
use lead_discovery_rader.Prelude.{
  ℕ, List, ◌∷◌, ◌≡◌, inl, inr, String, Option, none, some, true, false, arith, ◌⊎◌, refl, ap, ◌∙◌,
  if◌then◌else◌,
}
use lead_discovery_rader.Jobs.Model.{
  queued, running, cancelled, same_status, is_terminal, JobRun, cancel_requested_row,
  status_changed, AuditRow,
}
use lead_discovery_rader.Jobs.Session.{
  Env, Session, Sql, ok, Result-cases, ◌>>=◌, ◌>>◌, pure, flush, get_job_run, write, record_audit,
}
use lead_discovery_rader.Jobs.State.{transition, moved}
use lead_discovery_rader.Jobs.Frames.{transition-ok}

module _ (env : Env) (actor_id : Option String) where
  flag : JobRun → Sql JobRun
  flag run s =
      (if run.cancel_requested then pure run else (do
        write (record run { cancel_requested = true })
        flush env
        record_audit (cancel_requested_row run.id actor_id run.status)
        flush env
        pure (record run { cancel_requested = true })))
        s

  cancel_queued : JobRun → Sql JobRun
  unfolding same_status
  cancel_queued run s =
      (if same_status run.status queued
          then transition env run cancelled actor_id none
          else pure run)
        s

  cancel : JobRun → Sql JobRun
  unfolding flag cancel_queued is_terminal
  cancel run s = (if is_terminal run then pure run else (flag run >>= cancel_queued)) s

  unfoldable pub request_cancel : String → Sql JobRun
  unfolding cancel get_job_run
  request_cancel run_id = get_job_run run_id >>= cancel

  -- The audit rows once the request is recorded, which is done once.
  abbrev pub with_request : JobRun → Session → List AuditRow
  with_request run s =
      if run.cancel_requested
      then s.view.audit
      else cancel_requested_row run.id actor_id run.status ∷ s.view.audit

  flag-ok :
      (run : JobRun) (s : Session) {run' : JobRun}
      → s.view.run ≡ some run
      → (flag run s).0 ≡ ok run'
      → (run' ≡ record run { cancel_requested = true })
        × ((flag run s).1.view.run ≡ some run')
        × ((flag run s).1.view.audit ≡ with_request run s)
        × ((flag run s).1.disk ≡ s.disk)
  unfolding flag
  flag-ok run s v h = ground arith

  -- What `request_cancel` has stored of a run that was queued.
  pub record IsCancelled (run run' : JobRun) (s after : Session) : Type 0 where
    pub status : run'.status ≡ cancelled
    pub requested : run'.cancel_requested ≡ true
    pub stored : after.view.run ≡ some run'
    pub audited :
        after.view.audit
        ≡ status_changed run.id actor_id queued cancelled run'.attempts run'.error
          ∷ with_request run s

  -- What it has stored of one that was running.
  pub record IsRequested (run run' : JobRun) (s after : Session) : Type 0 where
    pub same : run' ≡ record run { cancel_requested = true }
    pub stored : after.view.run ≡ some run'
    pub audited : after.view.audit ≡ with_request run s

  cancel_queued-ok :
      (run : JobRun) (s : Session) {run' : JobRun}
      → (cancel_queued run s).0 ≡ ok run'
      → run.status ≡ queued
      → (run' ≡ moved run cancelled none (env.clock s.tick))
        × ((cancel_queued run s).1.view.run ≡ some run')
        × ((cancel_queued run s).1.view.audit
            ≡ status_changed run'.id actor_id queued cancelled run'.attempts run'.error
              ∷ s.view.audit)
  unfolding cancel_queued
  cancel_queued-ok run s {run'} h q =
      ground (arith, transition-ok env run cancelled actor_id none s {run' = run'})

  cancel_queued-running :
      (run : JobRun) (s : Session) → run.status ≡ running → cancel_queued run s ≡ (ok run, s)
  unfolding cancel_queued
  cancel_queued-running run s r = ground arith

  moved_requested :
      (run : JobRun) (now : ℕ)
      → ((moved run cancelled none now).status ≡ cancelled)
        × ((moved run cancelled none now).cancel_requested ≡ run.cancel_requested)
        × ((moved run cancelled none now).id ≡ run.id)
  unfolding moved
  moved_requested run now = ground arith

  request_cancel-flagged :
      (run_id : String) (s : Session) (run run' : JobRun)
      → s.view.run ≡ some run
      → is_terminal run ≡ false
      → (request_cancel run_id s).0 ≡ ok run'
      → (r : JobRun) × ((flag run s).0 ≡ ok r)
        × (request_cancel run_id s ≡ cancel_queued r (flag run s).1)
  unfolding request_cancel get_job_run cancel
  request_cancel-flagged run_id s run run' e open_run h = elim (Result-cases (flag run s).0) [
    | inl (r, f) ↦ (r, f, ground arith)
    | inr (x, f) ↦ absurd (ground arith)
  ]

  open_status :
      (run : JobRun) → (run.status ≡ queued) ⊎ (run.status ≡ running) → is_terminal run ≡ false
  unfolding is_terminal
  open_status run h = ground arith

  request_cancel-queued :
      (run_id : String) (s : Session) (run run' : JobRun)
      → s.view.run ≡ some run
      → run.status ≡ queued
      → (request_cancel run_id s).0 ≡ ok run'
      → IsCancelled run run' s (request_cancel run_id s).1
  request_cancel-queued run_id s run run' e q h =
      let (r, f, all) = request_cancel-flagged run_id s run run' e (open_status run (inl q)) h in
      let (same, stored, audit, kept) = flag-ok run s e f in
      let flagged = (flag run s).1 in
      let (move, put_back, audited) =
        cancel_queued-ok r flagged {run' = run'} (rw all at h) (rw same q) in
      let (status, requested, id) = moved_requested r (env.clock flagged.tick) in
      let same_id : run'.id ≡ run.id =
        ap (λ (x : JobRun). x.id) move ∙ id ∙ ap (λ (x : JobRun). x.id) same in
      rw all (record {
        status = rw move status;
        requested = rw (move, requested, same) refl;
        stored = put_back;
        audited = rw (audited, audit, same_id) refl;
      })

  request_cancel-running :
      (run_id : String) (s : Session) (run run' : JobRun)
      → s.view.run ≡ some run
      → run.status ≡ running
      → (request_cancel run_id s).0 ≡ ok run'
      → IsRequested run run' s (request_cancel run_id s).1
  request_cancel-running run_id s run run' e q h =
      let (r, f, all) = request_cancel-flagged run_id s run run' e (open_status run (inr q)) h in
      let (same, stored, audit, kept) = flag-ok run s e f in
      let alone = cancel_queued-running r (flag run s).1 (rw same q) in
      let result : r ≡ run' = ground (arith, alone, all, h) in
      rw (all, alone, ← result) (record { same = same; stored = stored; audited = audit })

  -- A request that returns leaves a finished run alone; a queued one is stored as cancelled; a
  -- running one is stored as it was, but with the request, for the worker to read. The request is
  -- audited once, and so is the cancellation. The caller commits.
  pub request_cancel-ok :
      (run_id : String) (s : Session) (run run' : JobRun)
      → s.view.run ≡ some run
      → (request_cancel run_id s).0 ≡ ok run'
      → (is_terminal run ≡ true → ((request_cancel run_id s).1 ≡ s) × (run' ≡ run))
        × (run.status ≡ queued → IsCancelled run run' s (request_cancel run_id s).1)
        × (run.status ≡ running → IsRequested run run' s (request_cancel run_id s).1)
  unfolding request_cancel get_job_run cancel is_terminal
  request_cancel-ok run_id s run run' e h = (
    λ terminal. ground arith,
    λ q. request_cancel-queued run_id s run run' e q h,
    λ r. request_cancel-running run_id s run run' e r h,
  )
