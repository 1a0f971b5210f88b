-- ===== src/Jobs/Worker/Demo.antt =====
-- The reference handler of workers/tasks.py meets what the loop asks of every handler.
use lead_discovery_rader.Prelude.{
  ℕ, zero, suc, ◌+◌, String, Option, some, arith, Option-cases, inl, inr, if◌then◌else◌, ◌==◌,
}
use lead_discovery_rader.Jobs.Session.{Env, Session, get_job_run}
use lead_discovery_rader.Jobs.Worker.{demo_default_steps, checkpoint, demo_steps, demo_handler}
use lead_discovery_rader.Jobs.Worker.Attempt.{IsClaimed}

module _ (env : Env) (run_id : String) where
  checkpoint-keeps :
      (n : ℕ) (step : Option ℕ) (s : Session)
      → IsClaimed n s.view
      → IsClaimed n s.disk
      → IsClaimed n (checkpoint env run_id step s).1.view
        × IsClaimed n (checkpoint env run_id step s).1.disk
  unfolding checkpoint
  checkpoint-keeps n step s v d = ground arith

  demo_steps-keeps :
      (n first count : ℕ) (s : Session)
      → IsClaimed n s.view
      → IsClaimed n s.disk
      → IsClaimed n (demo_steps env run_id first count s).1.view
        × IsClaimed n (demo_steps env run_id first count s).1.disk
  unfolding demo_steps
  demo_steps-keeps n first zero s v d = (v, d)
  demo_steps-keeps n first (suc count) s v d = ground (
    arith,
    checkpoint-keeps n (some first) s,
    demo_steps-keeps n (first + 1) count (checkpoint env run_id (some first) s).1,
  )

  -- On a claimed run, the demo handler leaves the status and the attempts as they are, in the
  -- transaction and on disk, whether it returns, is cancelled or fails.
  pub demo_handler-keeps :
      (n : ℕ) (s : Session)
      → IsClaimed n s.view
      → IsClaimed n s.disk
      → IsClaimed n (demo_handler env run_id s).1.view
        × IsClaimed n (demo_handler env run_id s).1.disk
  unfolding demo_handler get_job_run
  demo_handler-keeps n s v d = elim (Option-cases s.view.run) [
    | inl gone ↦ ground arith
    | inr (run, e) ↦
        let steps : ℕ =
          if run.progress_total == 0 then demo_default_steps else run.progress_total in
        let s' : Session = record s {
          view = record s.view {
            run = some (record run { progress_total = steps; progress_done = 0 });
          };
        } in
        ground (
          arith,
          checkpoint-keeps n (some 0) s',
          demo_steps-keeps n 1 steps (checkpoint env run_id (some 0) s').1,
        )
  ]
