-- ===== src/Leads/Suppress.antt =====
-- Adding and lifting suppressions: modules/compliance/service.py. Parsing a domain or a phone is a
-- parameter, whose `none` is a value that it refuses.
use lead_discovery_rader.Prelude.{
  ℕ, ◌+◌, String, Option, none, some, List, [], ◌∷◌, ◌++◌, Bool, true, false, not, ◌&&◌,
  if◌then◌else◌, keep, length,
}
use lead_discovery_rader.Leads.Model.{
  Business, Suppression, SuppressionSource, suppression_added, suppression_lifted, World, Settings,
  get_business, get_suppression, set_suppression, record_audit,
}
use lead_discovery_rader.Leads.Gate.{is_id, is_none}
use lead_discovery_rader.Leads.Schedule.{on_business_changed}

pub data Exc : Type 0 where
  business_not_found suppression_not_found already_lifted nothing_to_suppress invalid_domain : Exc
  invalid_phone : Exc

pub data Result {ℓ} (A : Type ℓ) : Type ℓ where
  ok : A → Result A
  err : Exc → Result A

pub record Parsers : Type 0 where
  pub strip : String → String
  pub is_blank : String → Bool
  pub domain_of : String → Option String
  pub to_e164 : String → Option String

pub record SuppressionCreate : Type 0 where
  pub business_id : Option ℕ
  pub domain : Option String
  pub phone_e164 : Option String
  pub reason : String

module _ (settings : Settings) (now : ℕ) (actor_id : ℕ) where
  -- `_notify_crm`, through `on_suppression_changed`.
  unfoldable pub on_suppression_changed : Option ℕ → World → World
  on_suppression_changed none w = w
  on_suppression_changed (some business_id) w =
      on_business_changed settings (some actor_id) now false business_id w

  abbrev pub new_suppression :
      Option ℕ → Option String → Option String → String → SuppressionSource → World → Suppression
  new_suppression business_id domain phone reason source w = record {
    id = w.next_id;
    business_id = business_id;
    domain = domain;
    phone_e164 = phone;
    reason = reason;
    source = source;
    created_by = actor_id;
    created_at = now;
    lifted_at = none;
    lifted_by = none;
  }

  -- The new row and its audit row, and what the CRM is told.
  unfoldable pub add_row : Suppression → World → World
  add_row row w = on_suppression_changed row.business_id (
      record_audit (suppression_added row) row.id (some actor_id)
        (record w { suppressions = w.suppressions ++ (row ∷ []); next_id = w.next_id + 1 }))

  unfoldable pub suppress_business : Business → String → SuppressionSource → World → World
  suppress_business business reason source w =
      add_row
        (new_suppression (some business.id) business.domain business.phone_e164 reason source w) w

  abbrev cleaned : (String → Option String) → Parsers → Exc → Option String → Result (Option String)
  cleaned parse parsers refused none = ok none
  cleaned parse parsers refused (some value) =
      if parsers.is_blank value
      then ok none
      else (elim (parse (parsers.strip value)) as (λ _. Result (Option String)) [
        | none ↦ err refused
        | some parsed ↦ ok (some parsed)
      ])

  abbrev or_field : Option String → Option Business → (Business → Option String) → Option String
  or_field (some given) business field = some given
  or_field none none field = none
  or_field none (some business) field = field business

  abbrev id_of : Option Business → Option ℕ
  id_of none = none
  id_of (some business) = some business.id

  add_checked :
      Parsers
      → SuppressionCreate
      → Option Business
      → Option String
      → Option String
      → World
      → Result Suppression × World
  add_checked parsers payload business domain phone w =
      let row =
        new_suppression (id_of business) (or_field domain business (λ b. b.domain))
          (or_field phone business (λ b. b.phone_e164)) (parsers.strip payload.reason)
          SuppressionSource.admin w in
      if is_none business && (is_none domain && is_none phone)
      then (err nothing_to_suppress, w)
      else (ok row, add_row row w)

  add_parsed : Parsers → SuppressionCreate → Option Business → World → Result Suppression × World
  unfolding add_checked
  add_parsed parsers payload business w =
      elim (cleaned parsers.domain_of parsers invalid_domain payload.domain) [
        | err e ↦ (err e, w)
        | ok domain ↦ elim (cleaned parsers.to_e164 parsers invalid_phone payload.phone_e164) [
          | err e ↦ (err e, w)
          | ok phone ↦ add_checked parsers payload business domain phone w
        ]
      ]

  -- The business that the payload names; naming one that is not there is refused.
  abbrev named_business : Option ℕ → World → Result (Option Business)
  named_business none w = ok none
  named_business (some id) w = elim (get_business id w) [
    | none ↦ err business_not_found
    | some business ↦ ok (some business)
  ]

  unfoldable pub add_suppression : Parsers → SuppressionCreate → World → Result Suppression × World
  unfolding add_parsed
  add_suppression parsers payload w = elim (named_business payload.business_id w) [
    | err e ↦ (err e, w)
    | ok business ↦ add_parsed parsers payload business w
  ]

  abbrev pub lifted : Suppression → Suppression
  lifted row = record row { lifted_at = some now; lifted_by = some actor_id }

  -- `_lift`
  unfoldable pub lift : Suppression → World → World
  lift row w = on_suppression_changed row.business_id (
      record_audit (suppression_lifted row (lifted row)) row.id (some actor_id)
        (set_suppression (lifted row) w))

  lift_found : Option Suppression → World → Result Suppression × World
  lift_found none w = (err suppression_not_found, w)
  lift_found (some row) w =
      if not (is_none row.lifted_at) then (err already_lifted, w) else (ok (lifted row), lift row w)

  unfoldable pub lift_suppression : ℕ → World → Result Suppression × World
  unfolding lift_found
  lift_suppression id w = lift_found (get_suppression id w) w

  unfoldable pub lift_all : List Suppression → World → World
  lift_all [] w = w
  lift_all (row ∷ rest) w = lift_all rest (lift row w)

  abbrev is_from_review : SuppressionSource → Bool
  is_from_review SuppressionSource.review = true
  is_from_review SuppressionSource.admin = false

  abbrev pub of_review : ℕ → Suppression → Bool
  of_review business_id s =
      is_id s.business_id business_id && (is_from_review s.source && is_none s.lifted_at)

  unfoldable pub lift_review_suppressions : ℕ → World → ℕ × World
  lift_review_suppressions business_id w =
      let rows = keep (of_review business_id) w.suppressions in (length rows, lift_all rows w)
