-- ===== src/Auth/Login/Guards.antt =====
-- What a sign-in that succeeds has passed, and what a refused one tells its caller.
use lead_discovery_rader.Prelude.{
  ◌<◌, ◌≡◌, refl, inl, inr, String, Option, none, some, true, false, leb, arith, Bool-cases, ap,
  sym, same_refl, lt_of_not_leb, ◌∙◌,
}
use lead_discovery_rader.Auth.Model.{
  User, Session, Hashes, Settings, Result, ok, err, invalid_credentials, too_many_requests,
  get_user_by_email, Reason, locked, bad_credentials, inactive,
}
use lead_discovery_rader.Auth.Failures.{
  failures_in_window, count_failure, clear_failures, client_of,
}
use lead_discovery_rader.Auth.Login.{
  is_locked, fail, count_on_account, rate_limited, succeed, check_account, authenticate,
}

abbrev or_else : User → Result User → User
or_else user (ok other) = other
or_else user (err e) = user

pub fail-refuses :
    (settings : Settings) (email client_ip : String) (user : Option User) (reason : Reason)
    (s : Session)
    → (fail settings {A = User} email client_ip user reason s).0 ≡ err invalid_credentials
unfolding fail count_failure count_on_account
fail-refuses settings email client_ip none reason s = refl
fail-refuses settings email client_ip (some user) reason s = ground arith

-- A failed sign-in is committed, and counts against the client's address.
pub fail-counts :
    (settings : Settings) (email client_ip : String) (user : Option User) (reason : Reason)
    (s : Session)
    → let after = (fail settings {A = User} email client_ip user reason s).1 in
      (after.disk ≡ after.view)
      × (after.clock ≡ s.clock)
      × (after.redis ≡ (count_failure settings client_ip s).1.redis)
unfolding fail count_failure count_on_account
fail-counts settings email client_ip none reason s = (refl, refl, refl)
fail-counts settings email client_ip (some user) reason s =
    (ground arith, ground arith, ground arith)

module _ (settings : Settings) (hashes : Hashes) where
  pub check_account-reaches :
      (email password client_ip : String) (account : User) (s : Session)
      → is_locked account s.clock ≡ false
      → hashes.verify_password password account.password_hash ≡ true
      → account.is_active ≡ true
      → check_account settings hashes email password client_ip (some account) s
        ≡ succeed settings hashes password client_ip account s
  unfolding check_account
  check_account-reaches email password client_ip account s e f g = rw (e, f, g) refl

  check_account-ok :
      (email password client_ip : String) (account : User) (s : Session) (user : User)
      → (check_account settings hashes email password client_ip (some account) s).0 ≡ ok user
      → (is_locked account s.clock ≡ false)
        × (hashes.verify_password password account.password_hash ≡ true)
        × (account.is_active ≡ true)
        × (check_account settings hashes email password client_ip (some account) s
            ≡ succeed settings hashes password client_ip account s)
  unfolding check_account
  check_account-ok email password client_ip account s user h =
      elim (Bool-cases (is_locked account s.clock)) [
        | inl e ↦ cc (rw e at h, fail-refuses settings email client_ip (some account) locked s)
        | inr e ↦ elim (Bool-cases (hashes.verify_password password account.password_hash)) [
          | inr f ↦ cc (
            rw (e, f) at h,
            fail-refuses settings email client_ip (some account) bad_credentials s,
          )
          | inl f ↦ elim (Bool-cases account.is_active) [
            | inr g ↦
                cc (
                  rw (e, f, g) at h,
                  fail-refuses settings email client_ip (some account) inactive s,
                )
            | inl g ↦ (e, f, g, check_account-reaches email password client_ip account s e f g)
          ]
        ]
      ]

  succeed-ok :
      (password client_ip : String) (account : User) (s : Session) (user : User)
      → (succeed settings hashes password client_ip account s).0 ≡ ok user
      → let after = (succeed settings hashes password client_ip account s).1 in
        (after.view.account ≡ some user)
        × (user.failed_login_count ≡ 0)
        × (user.locked_until ≡ none)
        × (user.last_login_at ≡ some s.clock)
        × (failures_in_window client_ip after ≡ 0)
        × (after.disk ≡ s.disk)
  unfolding succeed clear_failures failures_in_window
  succeed-ok password client_ip account s user h =
      let e = ap (or_else account) h in
      (
        ap some e,
        ap (λ (x : User). x.failed_login_count) (sym e),
        ap (λ (x : User). x.locked_until) (sym e),
        ap (λ (x : User). x.last_login_at) (sym e),
        rw (same_refl (client_of client_ip)) refl,
        refl,
      )

  check-present :
      (email password client_ip : String) (o : Option User) (s : Session) (user : User)
      → (check_account settings hashes email password client_ip o s).0 ≡ ok user
      → (account : User) × (o ≡ some account)
        × ((check_account settings hashes email password client_ip (some account) s).0 ≡ ok user)
  unfolding check_account
  check-present email password client_ip none s user h =
      cc (fail-refuses settings email client_ip none bad_credentials s)
  check-present email password client_ip (some account) s user h = (account, refl, h)

  -- Below the limit, the account decides.
  pub authenticate-below :
      (email password client_ip : String) (o : Option User) (s : Session)
      → leb settings.login_max_failures (failures_in_window client_ip s) ≡ false
      → s.view.account ≡ o
      → authenticate settings hashes email password client_ip s
        ≡ check_account settings hashes email password client_ip o s
  unfolding authenticate get_user_by_email
  authenticate-below email password client_ip o s e found =
      rw e (ap (λ x. check_account settings hashes email password client_ip x s) found)

  -- From the limit on, nothing is looked at.
  pub authenticate-limited :
      (email password client_ip : String) (s : Session)
      → leb settings.login_max_failures (failures_in_window client_ip s) ≡ true
      → authenticate settings hashes email password client_ip s
        ≡ rate_limited settings email client_ip s
  unfolding authenticate
  authenticate-limited email password client_ip s e = rw e refl

  limited-refuses :
      (email client_ip : String) (s : Session)
      → (rate_limited settings email client_ip s).0 ≡ err too_many_requests
  unfolding rate_limited
  limited-refuses email client_ip s = refl

  -- A sign-in that returns was below the address's limit, on an unlocked and active account, with
  -- the account's password; it resets the counters of the account and of the address, stamps the
  -- account, and commits nothing yet.
  pub authenticate-ok :
      (email password client_ip : String) (s : Session) (user : User)
      → (authenticate settings hashes email password client_ip s).0 ≡ ok user
      → let after = (authenticate settings hashes email password client_ip s).1 in
        (account : User) × (s.view.account ≡ some account)
        × (failures_in_window client_ip s < settings.login_max_failures)
        × (is_locked account s.clock ≡ false)
        × (hashes.verify_password password account.password_hash ≡ true)
        × (account.is_active ≡ true)
        × (after.view.account ≡ some user)
        × (user.failed_login_count ≡ 0)
        × (user.locked_until ≡ none)
        × (user.last_login_at ≡ some s.clock)
        × (failures_in_window client_ip after ≡ 0)
        × (after.disk ≡ s.disk)
  authenticate-ok email password client_ip s user h =
      elim (Bool-cases (leb settings.login_max_failures (failures_in_window client_ip s))) [
        | inl e ↦
            cc
              (authenticate-limited email password client_ip s e, limited-refuses email client_ip s)
        | inr e ↦
            let below = authenticate-below email password client_ip s.view.account s e refl in
            let (account, found, h') =
              check-present email password client_ip s.view.account s user (rw below at h) in
            let (a, b, c, d) = check_account-ok email password client_ip account s user h' in
            let reached =
              authenticate-below email password client_ip (some account) s e found ∙ d in
            let (view, failed, unlocked, stamp, cleared, disk) =
              succeed-ok password client_ip account s user (rw d at h') in
            (
              account,
              found,
              lt_of_not_leb _ _ e,
              a,
              b,
              c,
              rw reached view,
              failed,
              unlocked,
              stamp,
              rw reached cleared,
              rw reached disk,
            )
      ]
