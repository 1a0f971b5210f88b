-- ===== src/Auth/Login.antt =====
-- `is_locked`, `_fail` and `authenticate` of backend/app/modules/auth/service.py. The moment of a
-- call is the clock: no caller passes another one.
pub mod Guards
pub mod Oracle
pub mod Index
pub mod Limit
use lead_discovery_rader.Prelude.{
  ℕ, ◌+◌, ◌*◌, String, Option, none, some, Bool, true, false, ltb, leb, not, if◌then◌else◌,
}
use lead_discovery_rader.Auth.Model.{
  User, Role, Reason, bad_credentials, locked, inactive, account_locked, login_failed,
  login_rate_limited, login_succeeded, by_id, by_email, AuditRow, Session, Hashes, Settings, Auth,
  Exc, invalid_credentials, too_many_requests, ok, err, ◌>>=◌, ◌>>◌, pure, raise, record_audit,
  commit, write, get_user_by_email,
}
use lead_discovery_rader.Auth.Failures.{
  client_of, failures_in_window, count_failure, clear_failures,
}

abbrev pub after_now : Option ℕ → ℕ → Bool
after_now none moment = false
after_now (some until) moment = ltb moment until

unfoldable pub is_locked : User → ℕ → Bool
is_locked user moment = after_now user.locked_until moment

abbrev counts_towards_lock : Reason → Bool
counts_towards_lock bad_credentials = true
counts_towards_lock locked = false
counts_towards_lock inactive = false

module _ (settings : Settings) where
  -- One more failure on the account, and the lock once there are enough.
  count_on_account : String → User → Auth (Unit {0})
  count_on_account client_ip user s =
      let failed = user.failed_login_count + 1 in
      let until = s.clock + settings.login_lockout_minutes * 60 in
      (if leb settings.login_lockout_failures failed
          then write (record user { failed_login_count = 0; locked_until = some until })
            >> record_audit (record {
              event = account_locked until settings.login_lockout_failures (client_of client_ip);
              entity = by_id user.id;
              actor = none;
            })
          else write (record user { failed_login_count = failed }))
        s

  -- `after["failed_login_count"]`
  abbrev counted_failures : User → Reason → Option ℕ
  counted_failures user bad_credentials = some (user.failed_login_count + 1)
  counted_failures user locked = none
  counted_failures user inactive = none

  -- `_fail`, with the `raise` of its callers.
  unfoldable pub fail : {A : Type 0} → String → String → Option User → Reason → Auth A
  unfolding count_on_account
  fail email client_ip none reason = do
    count_failure settings client_ip
    record_audit (record {
      event = login_failed reason (client_of client_ip) none;
      entity = by_email email;
      actor = none;
    })
    commit
    raise invalid_credentials
  fail email client_ip (some user) reason = do
    count_failure settings client_ip
    (if counts_towards_lock reason then count_on_account client_ip user else pure tt)
    record_audit (record {
      event = login_failed reason (client_of client_ip) (counted_failures user reason);
      entity = by_id user.id;
      actor = some user.id;
    })
    commit
    raise invalid_credentials

  pub rate_limited : String → String → Auth User
  rate_limited email client_ip = do
    record_audit (record {
      event = login_rate_limited (client_of client_ip) settings.login_window_minutes;
      entity = by_email email;
      actor = none;
    })
    commit
    raise too_many_requests

  module _ (hashes : Hashes) where
    abbrev rehashed : User → String → String
    rehashed user password =
        if hashes.needs_rehash user.password_hash
        then hashes.hash_password password
        else user.password_hash

    pub succeed : String → String → User → Auth User
    succeed password client_ip user s =
        let updated = record user {
          password_hash = rehashed user password;
          failed_login_count = 0;
          locked_until = none;
          last_login_at = some s.clock;
        } in
        (do
          write updated
          clear_failures client_ip
          record_audit (record {
            event = login_succeeded user.role (client_of client_ip);
            entity = by_id user.id;
            actor = some user.id;
          })
          pure updated)
          s

    -- The checks on the account, in the source's order.
    pub check_account : String → String → String → Option User → Auth User
    unfolding is_locked fail succeed
    check_account email password client_ip none s = fail email client_ip none bad_credentials s
    check_account email password client_ip (some user) s =
        if is_locked user s.clock
        then fail email client_ip (some user) locked s
        else if not (hashes.verify_password password user.password_hash)
        then fail email client_ip (some user) bad_credentials s
        else if not user.is_active
        then fail email client_ip (some user) inactive s
        else succeed password client_ip user s

    unfoldable pub authenticate : String → String → String → Auth User
    unfolding rate_limited check_account
    authenticate email password client_ip s =
        if leb settings.login_max_failures (failures_in_window client_ip s)
        then rate_limited email client_ip s
        else (get_user_by_email >>= check_account email password client_ip) s
