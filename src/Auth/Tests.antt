-- ===== src/Auth/Tests.antt =====
-- An account, a few sign-ins, and the theorems of this folder at them.
use lead_discovery_rader.Prelude.{
  ◌+◌, ◌≤◌, ◌<◌, ◌≡◌, refl, inr, max, String, Option, none, some, [], ◌∷◌, true, false, ◌==ₛ◌,
  arith,
}
use lead_discovery_rader.Auth.Model.{
  User, sales_rep, Session, Counter, Hashes, Settings, invalid_credentials, Text, get_user_by_email,
}
use lead_discovery_rader.Auth.Failures.{
  failures_in_window, count_failure, clear_failures, set_failures,
}
use lead_discovery_rader.Auth.Accounts.{unlock_user}
use lead_discovery_rader.Auth.Accounts.Unlock.{
  IsIndexed, count_failure-IsIndexed, unlock_user-clears,
}
use lead_discovery_rader.Auth.Login.Index.{authenticate-IsIndexed}
use lead_discovery_rader.Auth.Login.{is_locked, authenticate}
use lead_discovery_rader.Auth.Login.Guards.{authenticate-ok}
use lead_discovery_rader.Auth.Login.Oracle.{authenticate-blind}
use lead_discovery_rader.Auth.Login.Limit.{
  authenticate-uniform, refused_guesses, refused_guesses-from,
}

abbrev settings : Settings
settings = record {
  login_max_failures = 5;
  login_window_minutes = 15;
  login_lockout_failures = 10;
  login_lockout_minutes = 15;
}

abbrev hashes : Hashes
hashes = record {
  hash_password = λ p. p;
  verify_password = λ p h. p ==ₛ h;
  needs_rehash = λ _. false;
}

abbrev trusting : Hashes
trusting = record hashes { verify_password = λ _ _. true }

abbrev ann : User
ann = record {
  id = 7;
  email = "ann@example.com";
  password_hash = "a long passphrase";
  role = sales_rep;
  is_active = true;
  token_version = 1;
  must_change_password = false;
  failed_login_count = 2;
  locked_until = none;
  last_login_at = none;
}

abbrev session_of : User → (String → Option Counter) → Session
session_of user failures = record {
  disk = record { account = some user; audit = [] };
  view = record { account = some user; audit = [] };
  redis = record { failures = failures; index = none };
  clock = 1000;
}

abbrev start : Session
start = session_of ann (λ _. none)

-- Every address has failed three times.
abbrev three : Counter
three = record { count = 3; expires = 1500 }

abbrev noisy : Session
noisy = session_of ann (λ _. some three)

abbrev locked_ann : User
locked_ann = record ann { locked_until = some 1800 }

abbrev signed_in : User
signed_in = record ann { failed_login_count = 0; locked_until = none; last_login_at = some 1000 }

authenticate-ok_example :
    let after =
      (authenticate settings hashes "ann@example.com" "a long passphrase" "10.0.0.1" start).1 in
    (account : User) × (start.view.account ≡ some account)
    × (failures_in_window "10.0.0.1" start < settings.login_max_failures)
    × (is_locked account start.clock ≡ false)
    × (hashes.verify_password "a long passphrase" account.password_hash ≡ true)
    × (account.is_active ≡ true)
    × (after.view.account ≡ some signed_in)
    × (signed_in.failed_login_count ≡ 0)
    × (signed_in.locked_until ≡ none)
    × (signed_in.last_login_at ≡ some start.clock)
    × (failures_in_window "10.0.0.1" after ≡ 0)
    × (after.disk ≡ start.disk)
unfolding authenticate failures_in_window get_user_by_email clear_failures
authenticate-ok_example =
    authenticate-ok settings hashes "ann@example.com" "a long passphrase" "10.0.0.1" start signed_in
      refl

authenticate-blind_example :
    authenticate settings hashes "ann@example.com" "a guess" "10.0.0.1"
      (session_of locked_ann (λ _. none))
    ≡ authenticate settings trusting "ann@example.com" "another" "10.0.0.1"
        (session_of locked_ann (λ _. none))
unfolding is_locked
authenticate-blind_example =
    authenticate-blind settings "ann@example.com" "10.0.0.1" (session_of locked_ann (λ _. none))
      hashes trusting "a guess" "another" locked_ann refl (inr refl)

authenticate-uniform_example :
    (invalid_credentials ≡ invalid_credentials)
    × ((authenticate settings hashes "ann@example.com" "a guess" "10.0.0.1" noisy).1.redis
        ≡ (count_failure settings "10.0.0.1" noisy).1.redis)
unfolding authenticate failures_in_window count_failure get_user_by_email
authenticate-uniform_example =
    authenticate-uniform settings hashes "ann@example.com" "10.0.0.1" "a guess" noisy
      invalid_credentials (omega arith) refl

refused_guesses-from_example : 2 + 3 ≤ max 3 settings.login_max_failures
unfolding refused_guesses authenticate failures_in_window count_failure get_user_by_email
refused_guesses-from_example =
    refused_guesses-from settings hashes "ann@example.com" "10.0.0.1"
      ((1001, "one") ∷ (1002, "two") ∷ (1003, "three") ∷ []) three noisy 2 refl
      (omega arith, (omega arith, (omega arith, tt))) refl

-- Every text has twenty characters, and is its own lower case and local part.
abbrev text : Text
text = record { len = λ _. 20; strip_lower = λ s. s; local_part = λ s. s }

abbrev changed : User
changed = record ann { password_hash = "correct horse battery"; token_version = 2 }

start-IsIndexed : IsIndexed settings start
start-IsIndexed address c found alive = cc

authenticate-IsIndexed_example :
    IsIndexed settings (authenticate settings hashes "ann@example.com" "a guess" "10.0.0.1" start).1
authenticate-IsIndexed_example =
    authenticate-IsIndexed settings hashes "ann@example.com" "10.0.0.1" (omega arith) "a guess"
      start start-IsIndexed

abbrev failed_once : Session
failed_once = record start {
  redis = record {
    failures = set_failures "10.0.0.1" (some (record { count = 1; expires = 1900 })) (λ _. none);
    index = some (record { addresses = "10.0.0.1" ∷ []; expires = 1900 });
  };
}

failed_once-IsIndexed : IsIndexed settings failed_once
unfolding count_failure
failed_once-IsIndexed =
    count_failure-IsIndexed settings "10.0.0.1" start (omega arith) start-IsIndexed

unlock_user-clears_example :
    let after = (unlock_user settings 1 failed_once).1 in
    (after.view.account ≡ some (record ann { locked_until = none; failed_login_count = 0 }))
    × ((client_ip : String) → failures_in_window client_ip after ≡ 0)
unlock_user-clears_example =
    unlock_user-clears settings failed_once failed_once-IsIndexed 1 ann refl
