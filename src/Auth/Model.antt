-- ===== src/Auth/Model.antt =====
-- The account of backend/app/modules/auth/models.py that one call reads and writes, its audit rows
-- (modules/audit/service.py), and the Redis keys of its email: the failure counter of each client
-- address and the set of the addresses that failed. `Text`, `Hashes` and `Settings` are what the
-- module calls: string methods, core/security.py over argon2, and core/config.py.
use lead_discovery_rader.Prelude.{
  ℕ, ◌≡◌, refl, ◌⊎◌, inl, inr, String, Option, none, some, List, ◌∷◌, Bool, ◌==◌,
}

pub data Role : Type 0 where
  admin sales_rep reviewer tech_admin crm_manager : Role

abbrev role_index : Role → ℕ
role_index admin = 0
role_index sales_rep = 1
role_index reviewer = 2
role_index tech_admin = 3
role_index crm_manager = 4

-- `is` on roles.
abbrev pub same_role : Role → Role → Bool
same_role a b = role_index a == role_index b

pub record User : Type 0 where
  pub id : ℕ
  pub email : String
  pub password_hash : String
  pub role : Role
  pub is_active : Bool
  pub token_version : ℕ
  pub must_change_password : Bool
  pub failed_login_count : ℕ
  pub locked_until : Option ℕ
  pub last_login_at : Option ℕ

-- The `reason` of a failed sign-in.
pub data Reason : Type 0 where
  bad_credentials locked inactive : Reason

-- An audit row by its action, with what its `before` and `after` hold.
pub data Event : Type 0 where
  user_created : String → Role → Bool → Bool → Event
  user_updated : Role → Bool → Role → Bool → Bool → Event
  user_ensured : Option (Role × Bool) → Role → String → Event
  account_locked : ℕ → ℕ → String → Event
  login_failed : Reason → String → Option ℕ → Event
  login_rate_limited : String → ℕ → Event
  login_succeeded : Role → String → Event
  password_change_failed : Event
  password_changed : ℕ → Event
  password_reset : String → ℕ → Event
  user_unlocked : Option ℕ → ℕ → Option ℕ → ℕ → Event
  logout : Event
  token_refreshed : Role → Event

pub data Entity : Type 0 where
  by_id : ℕ → Entity
  by_email : String → Entity
  anonymous : Entity

pub record AuditRow : Type 0 where
  pub event : Event
  pub entity : Entity
  pub actor : Option ℕ

pub data Exc : Type 0 where
  invalid_credentials wrong_current_password too_many_requests user_not_found email_taken : Exc
  weak_password unchanged_password short_password : Exc

-- A Redis counter and a Redis set, with the second at which each expires.
pub record Counter : Type 0 where
  pub count : ℕ
  pub expires : ℕ

pub record Members : Type 0 where
  pub addresses : List String
  pub expires : ℕ

pub record Redis : Type 0 where
  pub failures : String → Option Counter
  pub index : Option Members

pub record Db : Type 0 where
  pub account : Option User
  pub audit : List AuditRow

-- `disk` is committed, `view` is what the open transaction sees; `clock` is the time in seconds.
pub record Session : Type 0 where
  pub disk : Db
  pub view : Db
  pub redis : Redis
  pub clock : ℕ

pub record Text : Type 0 where
  pub len : String → ℕ
  pub strip_lower : String → String
  pub local_part : String → String

pub record Hashes : Type 0 where
  pub hash_password : String → String
  pub verify_password : String → String → Bool
  pub needs_rehash : String → Bool

pub record Settings : Type 0 where
  pub login_max_failures : ℕ
  pub login_window_minutes : ℕ
  pub login_lockout_failures : ℕ
  pub login_lockout_minutes : ℕ

pub data Result {ℓ} (A : Type ℓ) : Type ℓ where
  ok : A → Result A
  err : Exc → Result A

abbrev pub Auth : Type 0 → Type 0
Auth A = Session → Result A × Session

infixl 5 ◌>>=◌ ◌>>◌
abbrev pub ◌>>=◌ : {A B : Type 0} → Auth A → (A → Auth B) → Auth B
◌>>=◌ m f s = let (r, s') = m s in elim r [ ok a ↦ f a s' | err e ↦ (err e, s') ]

abbrev pub ◌>>◌ : {A B : Type 0} → Auth A → Auth B → Auth B
m >> k = m >>= λ _. k

abbrev pub pure : {A : Type 0} → A → Auth A
pure a s = (ok a, s)

abbrev pub raise : {A : Type 0} → Exc → Auth A
raise e s = (err e, s)

abbrev pub record_audit : AuditRow → Auth (Unit {0})
record_audit row s = (ok tt, record s { view = record s.view { audit = row ∷ s.view.audit } })

abbrev pub commit : Auth (Unit {0})
commit s = (ok tt, record s { disk = s.view })

-- Assignments to the row's attributes.
abbrev pub write : User → Auth (Unit {0})
write user s = (ok tt, record s { view = record s.view { account = some user } })

abbrev or_not_found : Option User → Result User
or_not_found none = err user_not_found
or_not_found (some user) = ok user

-- `get_user`, and `get_user_by_email`: the account as the transaction sees it.
unfoldable pub get_user : Auth User
get_user s = (or_not_found s.view.account, s)

unfoldable pub get_user_by_email : Auth (Option User)
get_user_by_email s = (ok s.view.account, s)

pub Result-cases {ℓ} :
    {A : Type ℓ} (r : Result A) → ((a : A) × (r ≡ ok a)) ⊎ ((e : Exc) × (r ≡ err e))
Result-cases (ok a) = inl (a, refl)
Result-cases (err e) = inr (e, refl)
