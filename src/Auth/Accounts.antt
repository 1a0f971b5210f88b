-- ===== src/Auth/Accounts.antt =====
-- The operations of backend/app/modules/auth/service.py that create an account or change one, and
-- the rows of a sign-out and of a refreshed token.
pub mod Passwords
pub mod Unlock
use lead_discovery_rader.Prelude.{
  ℕ, ◌+◌, String, Option, none, some, List, [], ◌∷◌, Bool, true, false, not, ltb, ◌==◌, ◌||◌,
  if◌then◌else◌, is_some, length,
}
use lead_discovery_rader.Auth.Model.{
  User, Role, admin, same_role, user_created, user_updated, user_ensured, password_change_failed,
  password_changed, password_reset, user_unlocked, logout, token_refreshed, Entity, by_id,
  anonymous, AuditRow, Session, Text, Hashes, Settings, Auth, Exc, invalid_credentials,
  wrong_current_password, user_not_found, email_taken, weak_password, unchanged_password,
  short_password, ok, err, ◌>>=◌, ◌>>◌, pure, raise, record_audit, commit, write, get_user,
  get_user_by_email,
}
use lead_discovery_rader.Auth.Passwords.{Problem, password_problems, min_password_length}
use lead_discovery_rader.Auth.Failures.{rate_limited_until, clear_rate_limits}

pub record UserCreate : Type 0 where
  pub email : String
  pub password : String
  pub role : Role
  pub is_active : Bool
  pub must_change_password : Bool

pub record UserUpdate : Type 0 where
  pub role : Option Role
  pub is_active : Option Bool
  pub password : Option String

abbrev pub or_raise : List Problem → Auth (Unit {0})
or_raise [] = pure tt
or_raise (problem ∷ rest) = raise weak_password

abbrev or_kept {ℓ} : {A : Type ℓ} → Option A → A → A
or_kept none kept = kept
or_kept (some given) kept = given

module _ (text : Text) where
  unfoldable pub validate_new_password : String → String → Auth (Unit {0})
  validate_new_password password email = or_raise (password_problems text password email)

  module _ (hashes : Hashes) where
    -- `session.add` and `flush`, whose unique email may be taken: the transaction is rolled back.
    insert_user : Option User → User → Auth User
    insert_user none user s = (write user >> pure user) s
    insert_user (some taken) user s = (err email_taken, record s { view = s.disk })

    unfoldable pub create_user : ℕ → UserCreate → Option ℕ → Auth User
    unfolding insert_user validate_new_password
    create_user new_id payload actor_id = do
      validate_new_password payload.password payload.email
      existing ← get_user_by_email
      user ← insert_user existing (record {
        id = new_id;
        email = payload.email;
        password_hash = hashes.hash_password payload.password;
        role = payload.role;
        is_active = payload.is_active;
        token_version = 1;
        must_change_password = payload.must_change_password;
        failed_login_count = 0;
        locked_until = none;
        last_login_at = none;
      })
      record_audit (record {
        event = user_created user.email user.role user.is_active user.must_change_password;
        entity = by_id user.id;
        actor = actor_id;
      })
      pure user

    -- The new hash, which retires every token.
    abbrev pub with_password : String → Bool → User → User
    with_password password must_change user = record user {
      password_hash = hashes.hash_password password;
      must_change_password = must_change;
      token_version = user.token_version + 1;
    }

    -- `if payload.password is not None`
    replace_password : Option String → User → Auth User
    unfolding validate_new_password
    replace_password none user = pure user
    replace_password (some password) user = do
      validate_new_password password user.email
      write (with_password password true user)
      pure (with_password password true user)

    unfoldable pub update_user : UserUpdate → Option ℕ → Auth User
    unfolding replace_password
    update_user payload actor_id = do
      user ← get_user
      let changed = record user {
        role = or_kept payload.role user.role;
        is_active = or_kept payload.is_active user.is_active;
      }
      write changed
      updated ← replace_password payload.password changed
      record_audit (record {
        event =
            user_updated user.role user.is_active updated.role updated.is_active
              (is_some payload.password);
        entity = by_id user.id;
        actor = actor_id;
      })
      pure updated

    refuse_current : User → Auth User
    refuse_current user = do
      record_audit
          (record { event = password_change_failed; entity = by_id user.id; actor = some user.id })
      commit
      raise wrong_current_password

    replace_own : String → User → Auth User
    unfolding validate_new_password
    replace_own new_password user = do
      validate_new_password new_password user.email
      (if hashes.verify_password new_password user.password_hash
          then raise unchanged_password
          else pure tt)
      write (with_password new_password false user)
      record_audit (record {
        event = password_changed (user.token_version + 1);
        entity = by_id user.id;
        actor = some user.id;
      })
      pure (with_password new_password false user)

    unfoldable pub change_password : User → String → String → Auth User
    unfolding refuse_current replace_own
    change_password user current_password new_password =
        if not (hashes.verify_password current_password user.password_hash)
        then refuse_current user
        else replace_own new_password user

    -- What `admin_reset_password` and `reset_password` do to the row they found.
    reset : String → Option ℕ → String → User → Auth User
    unfolding validate_new_password
    reset via actor_id new_password user = do
      validate_new_password new_password user.email
      let updated = record (with_password new_password true user) {
        failed_login_count = 0;
        locked_until = none;
      }
      write updated
      record_audit (record {
        event = password_reset via updated.token_version;
        entity = by_id user.id;
        actor = actor_id;
      })
      pure updated

    unfoldable pub admin_reset_password : String → ℕ → Auth User
    unfolding reset
    admin_reset_password new_password actor_id =
        get_user >>= reset "admin" (some actor_id) new_password

    unfoldable pub reset_password : String → Auth User
    unfolding reset
    reset_password new_password =
        if ltb (text.len new_password) min_password_length
        then raise short_password
        else get_user >>= reset "cli" none new_password

    -- `ensure_user` and `ensure_admin`, up to the row that an update writes.
    ensure : Option User → Role → (User → AuditRow) → Auth User → Auth (User × Bool)
    ensure none role row create = create >>= λ user. pure (user, true)
    ensure (some existing) role row create =
        if not (same_role existing.role role) || not existing.is_active
        then (do
          write (record existing { role = role; is_active = true })
          record_audit (row existing)
          pure (record existing { role = role; is_active = true }, false))
        else pure (existing, false)

    abbrev ensured_row : Option (Role × Bool) → Role → String → User → AuditRow
    ensured_row before role reason existing = record {
      event = user_ensured before role reason;
      entity = by_id existing.id;
      actor = none;
    }

    unfoldable pub ensure_user : ℕ → String → String → Role → Auth (User × Bool)
    unfolding ensure create_user
    ensure_user new_id email password role = do
      existing ← get_user_by_email
      ensure existing role
          (λ user. ensured_row (some (user.role, user.is_active)) role "seed-demo-users" user)
          (create_user new_id
            (record {
              email = email;
              password = password;
              role = role;
              is_active = true;
              must_change_password = false;
            })
            none)

    unfoldable pub ensure_admin : ℕ → String → String → Bool → Auth (User × Bool)
    unfolding ensure create_user
    ensure_admin new_id email password must_change = do
      existing ← get_user_by_email
      ensure existing admin (ensured_row none admin "seed-admin") (
          create_user new_id
            (record {
              email = email;
              password = password;
              role = admin;
              is_active = true;
              must_change_password = must_change;
            })
            none)

unfoldable pub unlock_user : Settings → ℕ → Auth User
unlock_user settings actor_id s =
    (do
      user ← get_user
      let updated = record user { locked_until = none; failed_login_count = 0 }
      write updated
      addresses ← clear_rate_limits
      record_audit (record {
        event =
            user_unlocked user.locked_until user.failed_login_count (rate_limited_until settings s)
              (length addresses);
        entity = by_id user.id;
        actor = some actor_id;
      })
      pure updated)
      s

abbrev of_user : Option ℕ → Entity
of_user none = anonymous
of_user (some id) = by_id id

unfoldable pub record_logout : Option ℕ → Auth (Unit {0})
record_logout user_id =
    record_audit (record { event = logout; entity = of_user user_id; actor = user_id })

unfoldable pub record_refresh : User → Auth (Unit {0})
record_refresh user =
    record_audit
      (record { event = token_refreshed user.role; entity = by_id user.id; actor = some user.id })
