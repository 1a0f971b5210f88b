-- ===== src/Auth/Login/Oracle.antt =====
-- What a refused sign-in does not tell: which accounts exist, and whether a password is right.
use lead_discovery_rader.Prelude.{
  ◌≡◌, refl, ◌⊎◌, inl, inr, String, some, true, leb, Bool-cases, sym, ◌∙◌,
}
use lead_discovery_rader.Auth.Model.{User, Session, Hashes, Settings, locked}
use lead_discovery_rader.Auth.Failures.{failures_in_window}
use lead_discovery_rader.Auth.Login.{is_locked, fail, check_account, authenticate}
use lead_discovery_rader.Auth.Login.Guards.{authenticate-below, authenticate-limited}

module _ (settings : Settings) (email client_ip : String) (s : Session) where
  check_locked :
      (hashes : Hashes) (password : String) (account : User)
      → is_locked account s.clock ≡ true
      → check_account settings hashes email password client_ip (some account) s
        ≡ fail settings {A = User} email client_ip (some account) locked s
  unfolding check_account
  check_locked hashes password account e = rw e refl

  -- While the address is limited or the account is locked, a sign-in does the same whatever the
  -- password, and whatever hash is stored: it answers no guess.
  pub authenticate-blind :
      (hashes other : Hashes) (password guess : String) (account : User)
      → s.view.account ≡ some account
      → (leb settings.login_max_failures (failures_in_window client_ip s) ≡ true)
        ⊎ (is_locked account s.clock ≡ true)
      → authenticate settings hashes email password client_ip s
        ≡ authenticate settings other email guess client_ip s
  authenticate-blind hashes other password guess account found blocked =
      elim (Bool-cases (leb settings.login_max_failures (failures_in_window client_ip s))) [
        | inl e ↦
            authenticate-limited settings hashes email password client_ip s e
            ∙ sym (authenticate-limited settings other email guess client_ip s e)
        | inr e ↦ elim blocked [
          | inl f ↦ cc
          | inr f ↦
              (authenticate-below settings hashes email password client_ip (some account) s e found
                ∙ check_locked hashes password account f)
              ∙ sym (
                  authenticate-below settings other email guess client_ip (some account) s e found
                  ∙ check_locked other guess account f)
        ]
      ]
