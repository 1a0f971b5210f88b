-- ===== src/Classify/Rules.antt =====
-- modules/opportunities/rules.py, and `combine` of modules/opportunities/catalogue.py: the
-- opportunities that an audit's findings point at.
pub mod Different
use Prim.Native.String.{◌++◌ as ◌++ₛ◌}
use lead_discovery_rader.Prelude.{
  String, Option, none, some, List, [], ◌∷◌, ◌++◌, map, Bool, true, false, not, ◌&&◌, ◌||◌, ◌==ₛ◌,
  any, keep, if◌then◌else◌,
}
use lead_discovery_rader.Floats.{Floats}
use lead_discovery_rader.Classify.Catalogue.{
  Service, services, service_value, FindingSpec, spec_of, ads_social,
}
use lead_discovery_rader.Classify.Merge.{Evidence, RuleOpportunity, min_of, max_of}
use lead_discovery_rader.Classify.Withdraw.{
  AuditStatus, done, skipped, robots_blocked, unreachable, bot_challenge, not_readable, failed,
  is_in,
}

-- A stored finding. A key that it does not have, or whose value is null, is none.
pub record StoredFinding : Type 0 where
  pub code : Option String
  pub severity : Option String
  pub message : Option String
  pub evidence_text : Option String
  pub evidence_url : Option String

-- The check `social_links`: whether its value is the empty list, and its evidence.
pub record SocialLinks : Type 0 where
  pub found_none : Bool
  pub evidence_text : Option String
  pub evidence_url : Option String

-- The fields of `WebsiteAudit` that the rules read; `parsed` is whether the check of that name has a
-- value that is true.
pub record WebsiteAudit : Type 0 where
  pub status : AuditStatus
  pub finding_codes : List String
  pub findings : List StoredFinding
  pub parsed : Bool
  pub social_links : Option SocialLinks
  pub final_url : Option String
  pub url_audited : Option String

-- `a or b` on strings that may be missing.
abbrev pub or_text : Option String → Option String → Option String
or_text none other = other
or_text (some text) other = if text ==ₛ "" then other else some text

abbrev pub text_or : Option String → String → String
text_or none other = other
text_or (some text) other = if text ==ₛ "" then other else text

abbrev pub code_of : StoredFinding → String
code_of finding = text_or finding.code ""

abbrev pub domain_service_findings : List String
domain_service_findings = "domain_expired" ∷ "domain_no_a_record" ∷ "domain_expiring_soon" ∷ []

-- `ALLOWED_FINDINGS.get(status)`
abbrev allowed_findings : AuditStatus → Option (List String)
allowed_findings done = none
allowed_findings skipped = none
allowed_findings robots_blocked = none
allowed_findings unreachable =
    some ("unreachable" ∷ "tls_invalid" ∷ "few_reviews" ∷ domain_service_findings)
allowed_findings bot_challenge = some domain_service_findings
allowed_findings not_readable =
    some ("listing_website_http" ∷ "listing_website_host_mismatch" ∷ domain_service_findings)
allowed_findings failed = none

abbrev is_allowed_code : Option (List String) → String → Bool
is_allowed_code none code = true
is_allowed_code (some allowed) code = is_in allowed code

abbrev service_of_spec : Option FindingSpec → Option Service
service_of_spec none = none
service_of_spec (some finding) = finding.service

-- `service_for_finding`
unfoldable pub service_for_finding : String → Option Service
unfolding spec_of
service_for_finding code = service_of_spec (spec_of code)

abbrev same_service : Service → Service → Bool
same_service a b = service_value a ==ₛ service_value b

abbrev pub is_of_service : Service → Option Service → Bool
is_of_service service none = false
is_of_service service (some other) = same_service other service

abbrev pub is_of : Service → StoredFinding → Bool
is_of service finding = is_of_service service (service_for_finding (code_of finding))

-- The findings that may contribute.
abbrev pub contributing : WebsiteAudit → List StoredFinding
contributing audit =
    keep
      (λ finding.
        not (code_of finding ==ₛ "")
        && is_allowed_code (allowed_findings audit.status) (code_of finding))
      audit.findings

abbrev pub yields_nothing : AuditStatus → Bool
yields_nothing robots_blocked = true
yields_nothing failed = true
yields_nothing done = false
yields_nothing skipped = false
yields_nothing unreachable = false
yields_nothing bot_challenge = false
yields_nothing not_readable = false

abbrev pub is_done : AuditStatus → Bool
is_done done = true
is_done skipped = false
is_done robots_blocked = false
is_done unreachable = false
is_done bot_challenge = false
is_done not_readable = false
is_done failed = false

abbrev evidence_of : StoredFinding → Evidence
evidence_of finding = record {
  finding_code = some (code_of finding);
  text = text_or finding.evidence_text (text_or finding.message "");
  url = finding.evidence_url;
}

abbrev ads_social_reason : String
ads_social_reason = "Audit found no social profile links on the homepage."

-- `strip` is `str.strip`.
module _ (fl : Floats) (strip : String → String) where
  -- `" ".join`
  abbrev joined : List String → String
  joined [] = ""
  joined (text ∷ []) = text
  joined (text ∷ other ∷ rest) = text ++ₛ (" " ++ₛ joined (other ∷ rest))

  -- `SEVERITY_CONFIDENCE`, an unknown severity being `info`.
  abbrev severity_confidence : String → fl.Float
  severity_confidence severity =
      if severity ==ₛ "high"
      then fl.decimal 8 1
      else (if severity ==ₛ "medium"
          then fl.decimal 6 1
          else (if severity ==ₛ "low" then fl.decimal 4 1 else fl.decimal 2 1))

  abbrev confidence_of : StoredFinding → fl.Float
  confidence_of finding = severity_confidence (text_or finding.severity "")

  abbrev remaining : fl.Float → List fl.Float → fl.Float
  remaining left [] = left
  remaining left (value ∷ rest) =
      remaining
        (fl.mul left (
          fl.sub (fl.decimal 1 0)
            (max_of fl strip (fl.decimal 0 0) (min_of fl strip (fl.decimal 1 0) value))))
        rest

  -- `combine`
  unfoldable pub combine : List fl.Float → fl.Float
  combine confidences = fl.round_to 3 (
      min_of fl strip (fl.sub (fl.decimal 1 0) (remaining (fl.decimal 1 0) confidences))
        (fl.decimal 95 2))

  abbrev pub from_findings : Service → List StoredFinding → RuleOpportunity fl.Float
  from_findings service items = record {
    service = service_value service;
    confidence = combine (map confidence_of items);
    reason = strip (joined (map (λ item. strip (text_or item.message "")) items));
    evidence = map evidence_of items;
    finding_codes = map code_of items;
  }

  abbrev pub add_rule :
      Service
      → List StoredFinding
      → List (RuleOpportunity fl.Float)
      → List (RuleOpportunity fl.Float)
  add_rule service [] others = others
  add_rule service (item ∷ rest) others = from_findings service (item ∷ rest) ∷ others

  -- The services in catalogue order, those without a finding left out.
  unfoldable pub by_service : List Service → List StoredFinding → List (RuleOpportunity fl.Float)
  unfolding service_for_finding
  by_service [] findings = []
  by_service (service ∷ rest) findings =
      add_rule service (keep (is_of service) findings) (by_service rest findings)

  abbrev pub social_opportunity : WebsiteAudit → SocialLinks → RuleOpportunity fl.Float
  social_opportunity audit social = record {
    service = service_value ads_social;
    confidence = fl.decimal 3 1;
    reason = ads_social_reason;
    evidence =
        record {
          finding_code = none;
          text = text_or social.evidence_text ads_social_reason;
          url = or_text social.evidence_url (or_text audit.final_url audit.url_audited);
        }
        ∷ [];
    finding_codes = [];
  }

  -- `_ads_social`, as the opportunities that it adds.
  unfoldable pub from_social : WebsiteAudit → Option SocialLinks → List (RuleOpportunity fl.Float)
  from_social audit none = []
  from_social audit (some social) =
      if is_done audit.status && audit.parsed && social.found_none
      then social_opportunity audit social ∷ []
      else []

  -- `closed` is whether the business is permanently closed.
  unfoldable pub rule_opportunities : Bool → WebsiteAudit → List (RuleOpportunity fl.Float)
  unfolding by_service from_social
  rule_opportunities closed audit =
      if closed || yields_nothing audit.status || is_in audit.finding_codes "robots_blocked"
      then []
      else by_service services (contributing audit) ++ from_social audit audit.social_links
