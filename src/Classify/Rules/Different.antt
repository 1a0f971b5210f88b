-- ===== src/Classify/Rules/Different.antt =====
-- No service twice, from the findings of an audit to the merged result.
use lead_discovery_rader.Prelude.{
  ◌≡◌, refl, String, Option, none, some, List, [], ◌∷◌, ◌++◌, map, Bool, false, ◌&&◌, ◌||◌, ◌==ₛ◌,
  any, keep, find_first, arith, Bool-cases, Option-cases, inl, inr,
}
use lead_discovery_rader.Floats.{Floats}
use lead_discovery_rader.Classify.Catalogue.{
  Service, services, service_value, FindingSpec, catalogue, spec_of, ads_social, website_design,
  seo_gbp, booking_setup, ai_chat_setup,
}
use lead_discovery_rader.Classify.Guardrails.{AiOutput}
use lead_discovery_rader.Classify.Merge.{RuleOpportunity, merge}
use lead_discovery_rader.Classify.Merge.Services.{
  has, AllDifferent, rule_services, merged_services, proposed_services, IsMerge, merge-IsMerge,
  differ_sym, append-nil_lem,
}
use lead_discovery_rader.Classify.Withdraw.{is_in}
use lead_discovery_rader.Classify.Rules.{
  yields_nothing, is_done, social_opportunity, StoredFinding, SocialLinks, WebsiteAudit,
  service_for_finding, is_of_service, is_of, code_of, contributing, add_rule, by_service,
  from_social, rule_opportunities,
}

find_first-any :
    (p q : FindingSpec → Bool) (xs : List FindingSpec) {a : FindingSpec}
    → any q xs ≡ false
    → find_first p xs ≡ some a
    → q a ≡ false
unfolding find_first
find_first-any p q [] h e = absurd (ground arith)
find_first-any p q (x ∷ rest) {a} h e = elim (Bool-cases (p x)) [
  | inl found ↦ let same : x ≡ a = ground arith in rw (← same) (ground arith)
  | inr later ↦ find_first-any p q rest (ground arith) (ground arith)
]

-- No finding of the catalogue is filed under ads and social media.
unsold : any (λ finding. is_of_service ads_social finding.service) catalogue ≡ false
unfolding catalogue
unsold = refl

finding-unsold : (code : String) → is_of_service ads_social (service_for_finding code) ≡ false
unfolding service_for_finding spec_of
finding-unsold code =
    elim (Option-cases (find_first (λ finding. finding.code ==ₛ code) catalogue)) [
      | inl e ↦ rw e refl
      | inr (finding, e) ↦ rw e (
          find_first-any (λ f. f.code ==ₛ code) (λ f. is_of_service ads_social f.service) catalogue
            unsold e)
    ]

none_social : (findings : List StoredFinding) → keep (is_of ads_social) findings ≡ []
none_social [] = refl
none_social (finding ∷ rest) = rw (finding-unsold (code_of finding), none_social rest) refl

services_differ : AllDifferent (map service_value services)
services_differ = (refl, (refl, (refl, (refl, (refl, tt)))))

module _ (fl : Floats) (strip : String → String) where
  add_rule-has :
      (text : String) (service : Service) (items : List StoredFinding)
      (others : List (RuleOpportunity fl.Float))
      → (service_value service ==ₛ text) ≡ false
      → has text (rule_services fl strip others) ≡ false
      → has text (rule_services fl strip (add_rule fl strip service items others)) ≡ false
  add_rule-has text service [] others other h = h
  add_rule-has text service (item ∷ rest) others other h = ground arith

  by_service-has :
      (text : String) (listed : List Service) (findings : List StoredFinding)
      → has text (map service_value listed) ≡ false
      → has text (rule_services fl strip (by_service fl strip listed findings)) ≡ false
  unfolding by_service
  by_service-has text [] findings h = refl
  by_service-has text (service ∷ rest) findings h =
      add_rule-has text service (keep (is_of service) findings) (by_service fl strip rest findings)
        (ground arith) (by_service-has text rest findings (ground arith))

  add_rule-AllDifferent :
      (service : Service) (items : List StoredFinding) (others : List (RuleOpportunity fl.Float))
      → has (service_value service) (rule_services fl strip others) ≡ false
      → AllDifferent (rule_services fl strip others)
      → AllDifferent (rule_services fl strip (add_rule fl strip service items others))
  add_rule-AllDifferent service [] others fresh h = h
  add_rule-AllDifferent service (item ∷ rest) others fresh h = (fresh, h)

  by_service-AllDifferent :
      (listed : List Service) (findings : List StoredFinding)
      → AllDifferent (map service_value listed)
      → AllDifferent (rule_services fl strip (by_service fl strip listed findings))
  unfolding by_service
  by_service-AllDifferent [] findings h = tt
  by_service-AllDifferent (service ∷ rest) findings (fresh, h) =
      add_rule-AllDifferent service (keep (is_of service) findings)
        (by_service fl strip rest findings)
        (by_service-has (service_value service) rest findings fresh)
        (by_service-AllDifferent rest findings h)

  append-has :
      (text : String) (xs ys : List (RuleOpportunity fl.Float))
      → has text (rule_services fl strip xs) ≡ false
      → has text (rule_services fl strip ys) ≡ false
      → has text (rule_services fl strip (xs ++ ys)) ≡ false
  append-has text [] ys hx hy = hy
  append-has text (x ∷ rest) ys hx hy =
      let later = append-has text rest ys (ground arith) hy in ground arith

  append-AllDifferent :
      (xs : List (RuleOpportunity fl.Float)) (y : RuleOpportunity fl.Float)
      → AllDifferent (rule_services fl strip xs)
      → has y.service (rule_services fl strip xs) ≡ false
      → AllDifferent (rule_services fl strip (xs ++ (y ∷ [])))
  append-AllDifferent [] y h fresh = (refl, tt)
  append-AllDifferent (x ∷ rest) y (first, h) fresh =
      let other : (y.service ==ₛ x.service) ≡ false =
        differ_sym x.service y.service (ground arith) in
      (
        append-has x.service rest (y ∷ []) first (ground arith),
        append-AllDifferent rest y h (ground arith),
      )

  -- The findings never point at ads and social media.
  by_service-unsold :
      (findings : List StoredFinding)
      → has "ads_social" (rule_services fl strip (by_service fl strip services findings)) ≡ false
  unfolding by_service
  by_service-unsold findings = rw (none_social findings) (
      by_service-has "ads_social" (website_design ∷ seo_gbp ∷ booking_setup ∷ ai_chat_setup ∷ [])
        findings refl)

  append_nothing :
      (xs : List (RuleOpportunity fl.Float))
      → AllDifferent (rule_services fl strip xs)
      → AllDifferent (rule_services fl strip (xs ++ []))
  append_nothing xs h = rw (← append-nil_lem xs) h

  with_social-AllDifferent :
      (audit : WebsiteAudit) (social : Option SocialLinks) (findings : List StoredFinding)
      → AllDifferent (
          rule_services fl strip
            (by_service fl strip services findings ++ from_social fl strip audit social))
  unfolding from_social
  with_social-AllDifferent audit none findings =
      append_nothing (by_service fl strip services findings)
        (by_service-AllDifferent services findings services_differ)
  with_social-AllDifferent audit (some social) findings =
      let found = by_service fl strip services findings in
      let different = by_service-AllDifferent services findings services_differ in
      elim (Bool-cases (is_done audit.status && audit.parsed && social.found_none)) [
        | inl e ↦ rw e (
            append-AllDifferent found (social_opportunity fl strip audit social) different
              (by_service-unsold findings))
        | inr e ↦ rw e (append_nothing found different)
      ]

  rule_opportunities-AllDifferent :
      (closed : Bool) (audit : WebsiteAudit)
      → AllDifferent (rule_services fl strip (rule_opportunities fl strip closed audit))
  unfolding rule_opportunities
  rule_opportunities-AllDifferent closed audit =
      elim (Bool-cases
        (closed || yields_nothing audit.status || is_in audit.finding_codes "robots_blocked")) [
          | inl e ↦ rw e tt
          | inr e ↦ rw e (with_social-AllDifferent audit audit.social_links (contributing audit))
        ]

-- From the findings of an audit to the merged result no service comes twice and none is lost,
-- whatever was found and whatever the model proposes, if it answers: the merged result has the
-- services that the rules find, in their order, followed by others that the model proposed, and
-- every service that it proposed is among them.
pub rule_opportunities-IsMerge :
    (fl : Floats) (strip : String → String) (closed : Bool) (audit : WebsiteAudit)
    (output : Option (AiOutput fl.Float))
    → IsMerge fl strip
        (rule_services fl strip (rule_opportunities fl strip closed audit))
        (proposed_services fl strip output)
        (merged_services fl strip
          (merge fl strip (rule_opportunities fl strip closed audit) output))
rule_opportunities-IsMerge fl strip closed audit output =
    merge-IsMerge fl strip (rule_opportunities fl strip closed audit) output
      (rule_opportunities-AllDifferent fl strip closed audit)
