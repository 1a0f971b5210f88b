-- ===== src/Resolution/Model.antt =====
-- The fields of a normalized record (modules/normalization/schemas.py) and of a business row
-- (modules/businesses/models.py) that entity resolution reads, and the third-party and
-- trigonometric functions that it calls.
use lead_discovery_rader.Prelude.{
  ℕ, String, Option, none, some, List, Bool, true, false, not, ◌==ₛ◌,
}
use lead_discovery_rader.Floats.{Floats}

pub data WebsiteKind : Type 0 where
  own_site builder_subdomain social_profile no_website : WebsiteKind

pub record Address : Type 0 where
  pub street_key : Option String
  pub postal_code : Option String

pub record NormalizedBusiness (fl : Floats) : Type 0 where
  pub normalized_name : Option String
  pub name_key : Option String
  pub address : Address
  pub lat : Option fl.Float
  pub lng : Option fl.Float
  pub phone_e164 : Option String
  pub domain : Option String
  pub website_kind : WebsiteKind

pub record Business (fl : Floats) : Type 0 where
  pub id : ℕ
  pub created_at : ℕ
  pub normalized_name : Option String
  pub name_key : Option String
  pub street_key : Option String
  pub postal_code : Option String
  pub lat : Option fl.Float
  pub lng : Option fl.Float
  pub geohash7 : Option String
  pub phone_e164 : Option String
  pub domain : Option String

-- `fuzz.token_set_ratio` of rapidfuzz, and what `normalization/geo.py` computes with `math`: the
-- distance of two known points, and the cells round a point.
pub record Tools (fl : Floats) : Type 0 where
  pub token_set_ratio : String → String → fl.Float
  pub great_circle_m : fl.Float → fl.Float → fl.Float → fl.Float → fl.Float
  pub neighbours : fl.Float → fl.Float → List String

-- The truth value of a `str | None`.
abbrev pub known : Option String → Bool
known none = false
known (some s) = not (s ==ₛ "")

infix 50 ◌==?◌
-- `==` on `str | None`.
abbrev pub ◌==?◌ : Option String → Option String → Bool
none ==? none = true
some a ==? some b = a ==ₛ b
_ ==? _ = false
