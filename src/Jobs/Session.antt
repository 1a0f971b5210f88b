-- ===== src/Jobs/Session.antt =====
-- A SQLAlchemy session as backend/app/core/db.py hands it out: what is on disk, what the open
-- transaction sees, and a call that may raise at every statement. `Env` is what the code does not
-- decide: the clock, the faults of the database and of the time limit, the registered handlers,
-- the settings, new row ids, and rows that another process wrote.
use lead_discovery_rader.Prelude.{
  ℕ, ◌+◌, String, Option, none, some, List, ◌∷◌, ◌≡◌, refl, ◌⊎◌, inl, inr,
}
use lead_discovery_rader.Jobs.Model.{JobRun, AuditRow, Exc, not_found}

-- The rows that one worker call reads and writes: its job run, the audit log, and the runs that it
-- created.
pub record Db : Type 0 where
  pub run : Option JobRun
  pub audit : List AuditRow
  pub created : List JobRun

-- `rq` is the Redis queue, which no transaction rolls back; `tick` counts the statements.
pub record Session : Type 0 where
  pub disk : Db
  pub view : Db
  pub rq : List String
  pub tick : ℕ

pub data Result {ℓ} (A : Type ℓ) : Type ℓ where
  ok : A → Result A
  err : Exc → Result A

abbrev pub Sql : Type 0 → Type 0
Sql A = Session → Result A × Session

infixl 5 ◌>>=◌ ◌>>◌
abbrev pub ◌>>=◌ : {A B : Type 0} → Sql A → (A → Sql B) → Sql B
◌>>=◌ m f s = let (r, s') = m s in elim r [ ok a ↦ f a s' | err e ↦ (err e, s') ]

abbrev pub ◌>>◌ : {A B : Type 0} → Sql A → Sql B → Sql B
m >> k = m >>= λ _. k

abbrev pub pure : {A : Type 0} → A → Sql A
pure a s = (ok a, s)

abbrev pub raise : {A : Type 0} → Exc → Sql A
raise e s = (err e, s)

-- `try: m` with one handler for whatever it raises.
abbrev pub catch : {A : Type 0} → Sql A → (Exc → Sql A) → Sql A
catch m f s = let (r, s') = m s in elim r [ ok a ↦ (ok a, s') | err e ↦ f e s' ]

pub record Env : Type 0 where
  pub clock : ℕ → ℕ
  pub fault : ℕ → Option Exc
  pub handlers : String → Option (Sql (Unit {0}))
  pub max_attempts : ℕ
  pub backoff_base : ℕ
  pub new_id : ℕ → String
  pub concurrent : ℕ → Option JobRun

module _ (env : Env) where
  abbrev pub utc_now : Sql ℕ
  utc_now s = (ok (env.clock s.tick), s)

  abbrev statement_result : Option Exc → Result (Unit {0})
  statement_result none = ok tt
  statement_result (some e) = err e

  -- A statement may raise, and changes nothing else here: the objects were already changed.
  abbrev pub flush : Sql (Unit {0})
  flush s = (statement_result (env.fault s.tick), record s { tick = s.tick + 1 })

  abbrev committed : Option Exc → Session → Result (Unit {0}) × Session
  committed none s = (ok tt, record s { disk = s.view; tick = s.tick + 1 })
  committed (some e) s = (err e, record s { tick = s.tick + 1 })

  abbrev pub commit : Sql (Unit {0})
  commit s = committed (env.fault s.tick) s

abbrev pub rollback : Sql (Unit {0})
rollback s = (ok tt, record s { view = s.disk })

abbrev found : String → Option JobRun → Result JobRun
found id none = err (not_found id)
found id (some run) = ok run

-- `get_job_run`: the row as the transaction sees it, or `NotFoundError`.
unfoldable pub get_job_run : String → Sql JobRun
get_job_run id s = (found id s.view.run, s)

-- Assignments to the run's attributes.
abbrev pub write : JobRun → Sql (Unit {0})
write run s = (ok tt, record s { view = record s.view { run = some run } })

abbrev pub record_audit : AuditRow → Sql (Unit {0})
record_audit row s = (ok tt, record s { view = record s.view { audit = row ∷ s.view.audit } })

abbrev pub ended : {A : Type 0} → Result A → Session → Result A × Session
ended (ok a) s = (ok a, record s { view = s.disk })
ended (err e) s = (err e, record s { view = s.disk })

-- `with session_scope() as session`: a new transaction, committed at the end. An exception rolls it
-- back; closing the session drops what a `BaseException` left open.
unfoldable pub session_scope : {A : Type 0} → Env → Sql A → Sql A
session_scope env m s =
    let (r, s') = (m >>= λ a. commit env >>= λ _. pure a) (record s { view = s.disk }) in ended r s'

pub Result-cases {ℓ} :
    {A : Type ℓ} (r : Result A) → ((a : A) × (r ≡ ok a)) ⊎ ((e : Exc) × (r ≡ err e))
Result-cases (ok a) = inl (a, refl)
Result-cases (err e) = inr (e, refl)
