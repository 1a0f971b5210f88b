-- ===== src/Auth/Login/Index.antt =====
-- Every sign-in keeps the set of failed addresses a cover of the counters.
use lead_discovery_rader.Prelude.{
  ◌<◌, ◌≡◌, inl, inr, refl, String, Option, none, some, leb, Bool-cases,
}
use lead_discovery_rader.Auth.Model.{
  User, Session, Hashes, Settings, Reason, bad_credentials, locked, inactive,
}
use lead_discovery_rader.Auth.Failures.{
  window_of, failures_in_window, failure_addresses, count_failure, clear_failures,
}
use lead_discovery_rader.Auth.Login.{
  is_locked, fail, rate_limited, succeed, check_account, authenticate,
}
use lead_discovery_rader.Auth.Login.Guards.{
  fail-counts, check_account-reaches, authenticate-below, authenticate-limited,
}
use lead_discovery_rader.Auth.Accounts.Unlock.{
  IsIndexed, count_failure-IsIndexed, clear_failures-IsIndexed,
}

-- It is a matter of Redis and the clock alone.
IsIndexed-same :
    (settings : Settings) (s after : Session)
    → after.redis ≡ s.redis
    → after.clock ≡ s.clock
    → IsIndexed settings s
    → IsIndexed settings after
unfolding failure_addresses
IsIndexed-same settings s after e f h address c found alive =
    let (member, bound, long) = h address c (rw e at found) (rw f at alive) in
    (rw (e, f) member, rw f bound, rw e long)

module _ (settings : Settings) (hashes : Hashes) (email client_ip : String)
    (opens : 0 < window_of settings) where
  fail-IsIndexed :
      (o : Option User) (reason : Reason) (s : Session)
      → IsIndexed settings s
      → IsIndexed settings (fail settings {A = User} email client_ip o reason s).1
  unfolding count_failure
  fail-IsIndexed o reason s indexed =
      let (disk, clock, redis) = fail-counts settings email client_ip o reason s in
      IsIndexed-same settings (count_failure settings client_ip s).1
        (fail settings {A = User} email client_ip o reason s).1 redis clock
        (count_failure-IsIndexed settings client_ip s opens indexed)

  succeed-IsIndexed :
      (password : String) (account : User) (s : Session)
      → IsIndexed settings s
      → IsIndexed settings (succeed settings hashes password client_ip account s).1
  unfolding succeed clear_failures
  succeed-IsIndexed password account s indexed =
      IsIndexed-same settings (clear_failures client_ip s).1
        (succeed settings hashes password client_ip account s).1 refl refl
        (clear_failures-IsIndexed settings client_ip s indexed)

  check_account-IsIndexed :
      (password : String) (o : Option User) (s : Session)
      → IsIndexed settings s
      → IsIndexed settings (check_account settings hashes email password client_ip o s).1
  unfolding check_account
  check_account-IsIndexed password none s indexed = fail-IsIndexed none bad_credentials s indexed
  check_account-IsIndexed password (some account) s indexed =
      elim (Bool-cases (is_locked account s.clock)) [
        | inl a ↦ rw a (fail-IsIndexed (some account) locked s indexed)
        | inr a ↦ elim (Bool-cases (hashes.verify_password password account.password_hash)) [
          | inr b ↦ rw (a, b) (fail-IsIndexed (some account) bad_credentials s indexed)
          | inl b ↦ elim (Bool-cases account.is_active) [
            | inr c ↦ rw (a, b, c) (fail-IsIndexed (some account) inactive s indexed)
            | inl c ↦
                rw (check_account-reaches settings hashes email password client_ip account s a b c)
                  (succeed-IsIndexed password account s indexed)
          ]
        ]
      ]

  limited-IsIndexed :
      (s : Session)
      → IsIndexed settings s
      → IsIndexed settings (rate_limited settings email client_ip s).1
  unfolding rate_limited
  limited-IsIndexed s indexed =
      IsIndexed-same settings s (rate_limited settings email client_ip s).1 refl refl indexed

  -- If the window is not empty, every sign-in, however it ends, keeps every live counter's address
  -- in the live set, which outlives it: a later unlock finds them all.
  pub authenticate-IsIndexed :
      (password : String) (s : Session)
      → IsIndexed settings s
      → IsIndexed settings (authenticate settings hashes email password client_ip s).1
  authenticate-IsIndexed password s indexed =
      elim (Bool-cases (leb settings.login_max_failures (failures_in_window client_ip s))) [
        | inl e ↦
            rw (authenticate-limited settings hashes email password client_ip s e)
              (limited-IsIndexed s indexed)
        | inr e ↦
            rw (authenticate-below settings hashes email password client_ip s.view.account s e refl)
              (check_account-IsIndexed password s.view.account s indexed)
      ]
