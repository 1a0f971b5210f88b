-- ===== src/Lib.antt =====
-- Lead discovery: the job runner, the guarded fetch, entity resolution, classification, sign-in, review
-- and CRM sync of the backend.
--
-- Parts, and how they interact. A search job becomes a job run, which a worker executes in attempts
-- (backend/app/workers/tasks.py over backend/app/modules/jobs); a discovery run that is done queues
-- a resolution run, which compares each record with the known businesses and links it, asks a
-- reviewer or starts a new business (backend/app/modules/resolution). People sign in to the API with
-- an account (backend/app/modules/auth). An audit fetches a business's website
-- (backend/app/core/safe_fetch.py), calls to outside services pass their caps
-- (backend/app/core/ratelimit.py), and what an audit found, with a model's answer that has passed the
-- guardrails, becomes opportunities (backend/app/modules/ai, backend/app/modules/opportunities).
-- Reviewers decide them (backend/app/modules/review); an approval schedules a lead, which is sent to
-- the CRM once its undo window is over (backend/app/modules/crm), unless the business is suppressed
-- (backend/app/modules/compliance).
--
-- Jobs/Model, Jobs/State: `JobRun` and its status machine, modules/jobs/models.py and state.py.
-- Jobs/Session: a SQLAlchemy session as explicit state. `disk` is committed, `view` is what the open
--   transaction sees; every flush and commit may raise, by `Env.fault`, at its own place in the
--   sequence; an exception is a value, `Exc`. `session_scope` is core/db.py's.
-- Jobs/Enqueue: `enqueue_run` of modules/jobs/service.py with the race on its unique key, and the
--   three functions that queue a follow-up run. Jobs/Requests: `request_cancel`.
--   Jobs/Inline: `run_inline`, with the work as a parameter.
-- Jobs/Worker: `execute_job_run` of workers/tasks.py and everything that it calls. Handlers are a
--   parameter of `Env`, apart from the demo handler, which is modelled. The loop runs on fuel, one
--   unit for an attempt; the fuel that is enough is the number of attempts that are left.
-- Resolution/Scoring, Resolution/Resolver, Resolution/Blocking: scoring.py, resolver.py and
--   blocking.py of modules/resolution. The table of businesses is a list of rows.
-- Floats: Python's floats are an abstract type with the program's literals and operations; a theorem
--   that needs their order or that literals differ says so. Resolution/Tests fills it with fixed-point
--   numbers.
-- Auth/Model, Auth/Failures, Auth/Login, Auth/Accounts, Auth/Passwords: modules/auth/service.py and
--   passwords.py, for the one account that a call is about, with its Redis counters by client
--   address. The database does not fail here; times are seconds.
--
-- Leads/Model: the rows that review, compliance and crm share, in one database whose statements do not
--   fail; the caller's transaction is outside the model, so an error is returned with the world as the
--   code has left it.
-- Leads/Gate, Leads/Schedule, Leads/Suppress: `eligibility` and `on_business_changed` of
--   modules/crm/service.py, and modules/compliance/service.py.
-- Leads/Review, Leads/Batch, Leads/Undo: `decide`, `decide_batch` and `undo` of
--   modules/review/service.py.
-- Leads/Sync, Leads/Worker: `sync_lead`, and `sync_due`, `sync_now`, `retry` and `sync_all` of
--   modules/crm/service.py. The destination is a `CrmAdapter`, whose answers depend on the calls that
--   were made; how a record is built and hashed is a `Builder`. The wall clock is the given time.
--
-- Fetch/Address, Fetch/Url, Fetch/Body, Fetch/Fetcher: the guarded fetch of a business's website,
--   core/safe_fetch.py and `_read_capped` of core/fetch_backends.py. Addresses are numbers, with the
--   networks of Python's ipaddress written out. Name servers, servers and the clock answer by what
--   happened before; the fetch slot and the claim on a host are events of a trace. The hops of a
--   fetch are counted down from `audit_max_redirects + 1`, as in the source.
-- Limits: the caps of core/ratelimit.py, where the requests of all processes take turns, one Redis
--   command each, in any order.
-- Classify/Catalogue, Classify/Rules, Classify/Guardrails, Classify/Merge, Classify/Withdraw: the
--   catalogue of findings, modules/opportunities/rules.py, modules/ai/guardrails.py, and `merge` and
--   `withdraw_unsupported` of modules/opportunities/service.py, which turn an audit and a model's
--   answer into opportunities.
--
-- Parameters: rapidfuzz, the trigonometry and geohash cells of modules/normalization/geo.py, argon2
-- behind core/security.py, string methods, regular expressions, the parsing of URLs and of addresses as
-- text, the settings, the clock, and what other processes do.
-- Log lines are left out. Not modelled: the HTTP routers and the frontend, the adapters of
-- third-party services, robots.txt and the throttle of core/safe_fetch.py, the token bucket's
-- arithmetic, the checks of a fetched page, the calls to the classifier and their budget, the scoring
-- and storing of opportunities, the scheduler, the content of a CRM record
-- (modules/crm/payload.py), the pages that only read, monitoring and backups.
mod Prelude
pub mod Floats
pub mod Jobs
pub mod Resolution
pub mod Auth
pub mod Leads
pub mod Fetch
pub mod Limits
pub mod Classify
