-- ===== src/Auth/Login/Limit.antt =====
-- How many passwords one client address may try on one account in one window.
use lead_discovery_rader.Prelude.{
  ℕ, ◌+◌, ◌<◌, ◌≤◌, ◌≡◌, refl, max, String, Option, none, some, List, [], ◌∷◌, leb, arith, ◌⊎◌,
  Option-cases, le_of_leb, lt_of_not_leb, inl, inr, not_leb_of_lt, All, Bool-cases, ap, sym, ◌∙◌,
  same_refl,
}
use lead_discovery_rader.Auth.Model.{
  User, Session, Counter, Hashes, Settings, Result, Result-cases, ok, err, Exc, invalid_credentials,
  too_many_requests, locked, bad_credentials, inactive,
}
use lead_discovery_rader.Auth.Failures.{
  failures_in_window, count_failure, clear_failures, client_of,
}
use lead_discovery_rader.Auth.Login.{is_locked, rate_limited, succeed, check_account, authenticate}
use lead_discovery_rader.Auth.Login.Guards.{
  fail-refuses, check_account-reaches, fail-counts, authenticate-below, authenticate-limited,
}

some-value : (m n : ℕ) → some m ≡ some n → m ≡ n
some-value m n h = cc

module _ (settings : Settings) (hashes : Hashes) (email client_ip : String) where
  succeed-never :
      (password : String) (account : User) (s : Session) (e : Exc)
      → (succeed settings hashes password client_ip account s).0 ≡ err e
      → (e ≡ invalid_credentials)
        × ((succeed settings hashes password client_ip account s).1.redis
            ≡ (count_failure settings client_ip s).1.redis)
  unfolding succeed clear_failures count_failure
  succeed-never password account s e h = cc

  check-refused :
      (password : String) (o : Option User) (s : Session) (e : Exc)
      → (check_account settings hashes email password client_ip o s).0 ≡ err e
      → (e ≡ invalid_credentials)
        × ((check_account settings hashes email password client_ip o s).1.redis
            ≡ (count_failure settings client_ip s).1.redis)
  unfolding check_account
  check-refused password none s e h = (
    cc (fail-refuses settings email client_ip none bad_credentials s),
    (fail-counts settings email client_ip none bad_credentials s).2,
  )
  check-refused password (some account) s e h =
      let why = fail-refuses settings email client_ip (some account) in
      let what = fail-counts settings email client_ip (some account) in
      elim (Bool-cases (is_locked account s.clock)) [
        | inl a ↦ rw a (cc (rw a at h, why locked s), (what locked s).2)
        | inr a ↦ elim (Bool-cases (hashes.verify_password password account.password_hash)) [
          | inr b ↦
              rw (a, b) (cc (rw (a, b) at h, why bad_credentials s), (what bad_credentials s).2)
          | inl b ↦ elim (Bool-cases account.is_active) [
            | inr c ↦ rw (a, b, c) (cc (rw (a, b, c) at h, why inactive s), (what inactive s).2)
            | inl c ↦
                let reach =
                  check_account-reaches settings hashes email password client_ip account s a b c in
                rw reach (succeed-never password account s e (rw reach at h))
          ]
        ]
      ]

  -- Below the limit, every refusal is the same error, whatever its reason, and counts once more
  -- against the address.
  pub authenticate-uniform :
      (password : String) (s : Session) (e : Exc)
      → failures_in_window client_ip s < settings.login_max_failures
      → (authenticate settings hashes email password client_ip s).0 ≡ err e
      → (e ≡ invalid_credentials)
        × ((authenticate settings hashes email password client_ip s).1.redis
            ≡ (count_failure settings client_ip s).1.redis)
  authenticate-uniform password s e low h =
      let below =
        authenticate-below settings hashes email password client_ip s.view.account s
          (not_leb_of_lt _ _ low) refl in
      rw below (check-refused password s.view.account s e (rw below at h))

  -- The attempts of one address at given seconds, with the number of those that were refused for
  -- their credentials; `none` where one of them signed in.
  abbrev answered : Result User → Option ℕ → Option ℕ
  answered r none = none
  answered (ok user) (some n) = none
  answered (err too_many_requests) (some n) = some n
  answered (err _) (some n) = some (n + 1)

  unfoldable pub refused_guesses : List (ℕ × String) → Session → Option ℕ
  refused_guesses [] s = some 0
  refused_guesses ((time, password) ∷ rest) s =
      let (r, s') =
        authenticate settings hashes email password client_ip (record s { clock = time }) in
      answered r (refused_guesses rest s')

  live-at :
      (c : Counter) (s : Session)
      → s.redis.failures (client_of client_ip) ≡ some c
      → s.clock < c.expires
      → failures_in_window client_ip s ≡ c.count
  unfolding failures_in_window
  live-at c s found early = rw found (ground arith)

  count_failure-live :
      (c : Counter) (s : Session)
      → s.redis.failures (client_of client_ip) ≡ some c
      → s.clock < c.expires
      → (count_failure settings client_ip s).1.redis.failures (client_of client_ip)
        ≡ some (record c { count = c.count + 1 })
  unfolding count_failure
  count_failure-live c s found early = rw (found, same_refl (client_of client_ip)) (ground arith)

  limited-redis : (s : Session) → (rate_limited settings email client_ip s).1.redis ≡ s.redis
  unfolding rate_limited
  limited-redis s = refl

  abbrev error_of : Exc → Result User → Exc
  error_of e (ok user) = e
  error_of e (err other) = other

  -- One attempt in the window, refused: at the limit nothing changes, below it the counter grows.
  attempt_step :
      (password : String) (c : Counter) (s : Session) (e : Exc)
      → s.redis.failures (client_of client_ip) ≡ some c
      → s.clock < c.expires
      → (authenticate settings hashes email password client_ip s).0 ≡ err e
      → let after = (authenticate settings hashes email password client_ip s).1 in
        (settings.login_max_failures ≤ c.count)
          × (e ≡ too_many_requests)
          × (after.redis.failures (client_of client_ip) ≡ some c)
        ⊎ (c.count < settings.login_max_failures)
          × (e ≡ invalid_credentials)
          × (after.redis.failures (client_of client_ip) ≡ some (record c { count = c.count + 1 }))
  unfolding rate_limited
  attempt_step password c s e found early h =
      let now = live-at c s found early in
      elim (Bool-cases (leb settings.login_max_failures (failures_in_window client_ip s))) [
        | inl a ↦
            let limited = authenticate-limited settings hashes email password client_ip s a in
            inl (
              le_of_leb _ _ (rw now at a),
              ap (error_of e) (sym h ∙ ap (λ r. r.0) limited) ∙ refl,
              rw (limited, limited-redis s) found,
            )
        | inr a ↦
            let low : failures_in_window client_ip s < settings.login_max_failures =
              lt_of_not_leb _ _ a in
            let (same, redis) = authenticate-uniform password s e low h in
            inr (rw now at low, same, rw redis (count_failure-live c s found early))
      ]

  answered-ok : (user : User) (rest : Option ℕ) {n : ℕ} → answered (ok user) rest ≡ some n → ⊥
  answered-ok user none h = cc
  answered-ok user (some m) h = cc

  -- From a live counter on, and up to its expiry, the attempts of one address that are refused for
  -- their credentials are at most as many as the limit leaves, if none of the attempts signs in:
  -- after that many, no password is looked at.
  pub refused_guesses-from :
      (attempts : List (ℕ × String)) (c : Counter) (s : Session) (n : ℕ)
      → s.redis.failures (client_of client_ip) ≡ some c
      → All (λ a. a.0 < c.expires) attempts
      → refused_guesses attempts s ≡ some n
      → n + c.count ≤ max c.count settings.login_max_failures
  unfolding refused_guesses
  refused_guesses-from [] c s n found early h = ground arith
  refused_guesses-from ((time, password) ∷ rest) c s n found (early, late) h =
      let now : Session = record s { clock = time } in
      let after : Session = (authenticate settings hashes email password client_ip now).1 in
      elim (Result-cases (authenticate settings hashes email password client_ip now).0) [
        | inl (user, r) ↦ elim (answered-ok user (refused_guesses rest after) (rw r at h)) [ ]
        | inr (e, r) ↦ elim (Option-cases (refused_guesses rest after)) [
          | inl g ↦ cc (rw g at h)
          | inr (m, g) ↦
              let h' : answered (err e) (some m) ≡ some n = rw (r, g) at h in
              elim (attempt_step password c now e found early r) [
                | inl (high, a, b) ↦ omega (
                  arith,
                  some-value _ _ (rw a at h'),
                  refused_guesses-from rest c after m b late g,
                )
                | inr (low, a, b) ↦ omega (
                  arith,
                  some-value _ _ (rw a at h'),
                  low,
                  refused_guesses-from rest (record c { count = c.count + 1 }) after m b late g,
                )
              ]
        ]
      ]
