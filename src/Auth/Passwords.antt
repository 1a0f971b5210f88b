-- ===== src/Auth/Passwords.antt =====
-- backend/app/modules/auth/passwords.py: the rules a new password has to keep.
use lead_discovery_rader.Prelude.{
  ℕ, String, List, [], ◌∷◌, ◌++◌, Bool, not, ◌&&◌, ◌||◌, ltb, leb, any, ◌==ₛ◌, if◌then◌else◌,
}
use lead_discovery_rader.Auth.Model.{Text}

abbrev pub min_password_length : ℕ
min_password_length = 12

pub data Problem : Type 0 where
  too_short is_email is_common : Problem

abbrev pub common_passwords : List String
common_passwords =
    "password" ∷ "password1" ∷ "password12" ∷ "password123" ∷ "password1234" ∷ "passwordpassword"
    ∷ "123456" ∷ "12345678" ∷ "123456789" ∷ "1234567890" ∷ "12345678901" ∷ "123456789012"
    ∷ "1234567890123" ∷ "qwerty" ∷ "qwertyuiop" ∷ "qwertyuiop12" ∷ "qwertyuiopasdf" ∷ "qwerty123456"
    ∷ "letmein" ∷ "letmein12345" ∷ "welcome" ∷ "welcome12345" ∷ "welcome123456" ∷ "admin"
    ∷ "admin1234567" ∷ "administrator" ∷ "changeme" ∷ "changeme1234" ∷ "changemenow1" ∷ "iloveyou"
    ∷ "iloveyou1234" ∷ "trustno1" ∷ "abc123456789" ∷ "monkey123456" ∷ "dragon123456"
    ∷ "sunshine1234" ∷ "football1234" ∷ "baseball1234" ∷ "princess1234" ∷ "superman1234"
    ∷ "temporary123" ∷ "temppassword" ∷ "radar1234567" ∷ "leadradar123" ∷ []

-- `[problem]` where the rule is broken.
abbrev when : Bool → Problem → List Problem
when broken problem = if broken then problem ∷ [] else []

module _ (text : Text) where
  -- The password is the address, or a local part of six characters or more. An empty address is
  -- not asked about.
  names_email : String → String → Bool
  names_email lowered email =
      let address = text.strip_lower email in
      not (email ==ₛ "")
      && (lowered ==ₛ address
          || (leb 6 (text.len (text.local_part address)) && lowered ==ₛ text.local_part address))

  unfoldable pub password_problems : String → String → List Problem
  unfolding names_email
  password_problems password email =
      let lowered = text.strip_lower password in
      when (ltb (text.len password) min_password_length) too_short
      ++ (when (names_email lowered email) is_email
          ++ when (any (λ common. lowered ==ₛ common) common_passwords) is_common)
