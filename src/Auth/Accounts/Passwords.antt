-- ===== src/Auth/Accounts/Passwords.antt =====
-- What a new password has passed, and what it retires.
use lead_discovery_rader.Prelude.{
  ◌+◌, ◌≡◌, inl, inr, refl, String, some, List, [], ◌∷◌, true, false, arith, Bool-cases,
}
use lead_discovery_rader.Auth.Model.{User, Session, Text, Hashes, Result-cases, ok}
use lead_discovery_rader.Auth.Passwords.{Problem, password_problems}
use lead_discovery_rader.Auth.Accounts.{
  or_raise, validate_new_password, change_password, refuse_current, replace_own, with_password,
}

module _ (text : Text) where
  or_raise-ok :
      (problems : List Problem) (s : Session) → (or_raise problems s).0 ≡ ok tt → problems ≡ []
  or_raise-ok [] s h = refl
  or_raise-ok (problem ∷ rest) s h = ground arith

  -- A password that is let through breaks no rule, and nothing is changed.
  validate-ok :
      (password email : String) (s : Session)
      → (validate_new_password text password email s).0 ≡ ok tt
      → (password_problems text password email ≡ [])
  unfolding validate_new_password
  validate-ok password email s h = or_raise-ok (password_problems text password email) s h

  validate-session :
      (password email : String) (s : Session) → (validate_new_password text password email s).1 ≡ s
  unfolding validate_new_password
  validate-session password email s = ground arith

  module _ (hashes : Hashes) where
    replace_own-ok :
        (new_password : String) (user : User) (s : Session) (user' : User)
        → (replace_own text hashes new_password user s).0 ≡ ok user'
        → (password_problems text new_password user.email ≡ [])
          × (hashes.verify_password new_password user.password_hash ≡ false)
          × (user' ≡ with_password text hashes new_password false user)
          × ((replace_own text hashes new_password user s).1.view.account ≡ some user')
    unfolding replace_own
    replace_own-ok new_password user s user' h =
        elim (Result-cases (validate_new_password text new_password user.email s).0) [
          | inl (t, e) ↦ ground (
            arith,
            validate-ok new_password user.email s e,
            validate-session new_password user.email s,
          )
          | inr (x, e) ↦ ground arith
        ]

    -- A user who changes their password knew the current one, and chose another that breaks no
    -- rule; every token issued before carries an older version.
    pub change_password-ok :
        (user : User) (current_password new_password : String) (s : Session) (user' : User)
        → (change_password text hashes user current_password new_password s).0 ≡ ok user'
        → (hashes.verify_password current_password user.password_hash ≡ true)
          × (hashes.verify_password new_password user.password_hash ≡ false)
          × (password_problems text new_password user.email ≡ [])
          × (user'.token_version ≡ user.token_version + 1)
          × (user'.password_hash ≡ hashes.hash_password new_password)
          × (user'.must_change_password ≡ false)
          × ((change_password text hashes user current_password new_password s).1.view.account
              ≡ some user')
    unfolding change_password refuse_current
    change_password-ok user current_password new_password s user' h =
        elim (Bool-cases (hashes.verify_password current_password user.password_hash)) [
          | inl e ↦ ground (arith, replace_own-ok new_password user s user')
          | inr e ↦ ground arith
        ]
