-- ===== src/Jobs.antt =====
-- modules/jobs and workers/tasks.py: the job runs, their state machine and the worker's loop.
pub mod Model
pub mod Session
pub mod State
pub mod Enqueue
pub mod Worker
pub mod Frames
pub mod Transitions
pub mod Requests
pub mod Inline
mod Tests
