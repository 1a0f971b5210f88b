-- ===== src/Classify/Tests.antt =====
-- An answer with a good and a bad opportunity, a merge, and a withdrawal.
use lead_discovery_rader.Prelude.{
  ℕ, ◌+◌, ◌≡◌, refl, String, none, some, List, [], ◌∷◌, true, false, ◌==ₛ◌, map, inl, ltb, leb,
  ◌==◌, ◌-◌, ◌*◌, find_first, arith,
}
use lead_discovery_rader.Floats.{Floats}
use lead_discovery_rader.Leads.Model.{pending}
use lead_discovery_rader.Classify.Catalogue.{is_service}
use lead_discovery_rader.Classify.Guardrails.{
  Texts, AiEvidence, AiOpportunity, none_detected, AiOutput, GuardrailContext, unknown_service,
  quote_not_in_input, no_valid_evidence, apply, is_unsold,
}
use lead_discovery_rader.Classify.Guardrails.Kept.{IsGroundedOutput, apply-IsGrounded}
use lead_discovery_rader.Classify.Guardrails.Clean.{
  IsCleanEvidence, IsClean, IsCleanOutput, apply-clean,
}
use lead_discovery_rader.Classify.Merge.{merge}
use lead_discovery_rader.Classify.Merge.Services.{
  IsMerge, rule_services, merged_services, proposed_services,
}
use lead_discovery_rader.Classify.Rules.{StoredFinding, WebsiteAudit, rule_opportunities}
use lead_discovery_rader.Classify.Rules.Different.{rule_opportunities-IsMerge}
use lead_discovery_rader.Classify.Withdraw.{
  Audit, bot_challenge, done, Row, rules, withdraw_unsupported,
}
use lead_discovery_rader.Classify.Withdraw.Judged.{IsWithdrawal, withdraw_unsupported-IsWithdrawal}

abbrev texts : Texts
texts = record {
  normalise = λ text. text;
  occurs = λ part whole. part ==ₛ whole;
  sorted = λ urls. urls;
  strip = λ text. text;
  strip_url = λ url. url;
  find_emails = λ text. [];
  find_phones = λ text. [];
  find_urls = λ text. [];
  banned_word = λ text. none;
}

abbrev context : GuardrailContext
context = record {
  corpus = "Book online" ∷ [];
  finding_codes = "no_https" ∷ [];
  urls = "https://a.example/" ∷ [];
  industries = [];
  intent_patterns = [];
  page_url = none;
}

abbrev quoting : String → AiEvidence
quoting quote = record {
  finding_code = some "no_https";
  quote = quote;
  source_url = "https://a.example/";
}

abbrev suggestion : String → String → AiOpportunity ℕ
suggestion service quote = record {
  service = service;
  confidence = 70;
  rationale = "";
  evidence = quoting quote ∷ [];
}

abbrev answer : List (AiOpportunity ℕ) → AiOutput ℕ
answer opportunities = record {
  business_summary = "A salon";
  industry = "unknown";
  industry_matches_listing = true;
  opportunities = opportunities;
  buying_intent = none_detected;
  unknowns = [];
  needs_human_review = false;
}

abbrev mixed : AiOutput ℕ
mixed = answer (
    suggestion "website_design" "Book online"
    ∷ suggestion "magic" "Book online"
    ∷ suggestion "seo_gbp" "Never said"
    ∷ [])

dropped :
    map (λ claim. claim.rule) (apply texts context mixed).rejected_claims
    ≡ unknown_service ∷ quote_not_in_input ∷ no_valid_evidence ∷ []
unfolding apply is_service is_unsold find_first
dropped = refl

apply-IsGrounded_example : IsGroundedOutput texts context (apply texts context mixed).output
apply-IsGrounded_example = apply-IsGrounded texts context mixed

abbrev good : AiOutput ℕ
good = answer (suggestion "website_design" "Book online" ∷ [])

good_evidence : IsCleanEvidence texts context (quoting "Book online")
unfolding is_unsold find_first
good_evidence = record { sold = refl; known = refl; quoted = refl; from_input = refl }

good_suggestion : IsClean texts context (suggestion "website_design" "Book online")
unfolding is_service
good_suggestion = record {
  in_catalogue = refl;
  some_evidence = λ empty. ground arith;
  evidence = (good_evidence, tt);
  private = refl;
  neutral = refl;
}

good_answer : IsCleanOutput texts context good
good_answer = record {
  opportunities = (good_suggestion, tt);
  summary = refl;
  industry = inl refl;
  intent = tt;
}

apply-clean_example :
    apply texts context good
    ≡ record { output = record good { needs_human_review = true }; rejected_claims = [] }
apply-clean_example = apply-clean texts context good good_answer

-- Whole numbers of hundredths in place of floats.
abbrev hundredths : Floats
hundredths = record {
  Float = ℕ;
  decimal = λ m k. m;
  add = λ a b. a + b;
  sub = λ a b. a - b;
  mul = λ a b. a * b;
  div = λ a b. a;
  neg = λ a. a;
  round_to = λ k a. a;
  same = λ a b. a == b;
  leb = λ a b. leb a b;
  lt = λ a b. ltb a b;
}

abbrev finding : String → StoredFinding
finding code = record {
  code = some code;
  severity = some "high";
  message = some "Found.";
  evidence_text = none;
  evidence_url = none;
}

abbrev audited : WebsiteAudit
audited = record {
  status = done;
  finding_codes = "no_https" ∷ "missing_title" ∷ "no_website" ∷ [];
  findings = finding "no_https" ∷ finding "missing_title" ∷ finding "no_website" ∷ [];
  parsed = true;
  social_links = some (record { found_none = true; evidence_text = none; evidence_url = none });
  final_url = none;
  url_audited = none;
}

abbrev repeated : AiOutput ℕ
repeated = answer (
    suggestion "seo_gbp" "Book online"
    ∷ suggestion "website_design" "Book online"
    ∷ suggestion "seo_gbp" "Book online"
    ∷ [])

abbrev no_strip : String → String
no_strip text = text

services_found :
    rule_services hundredths no_strip (rule_opportunities hundredths no_strip false audited)
    ≡ "website_design" ∷ "seo_gbp" ∷ "ads_social" ∷ []
unfolding rule_opportunities find_first
services_found = refl

rule_opportunities-IsMerge_example :
    IsMerge hundredths no_strip
      (rule_services hundredths no_strip (rule_opportunities hundredths no_strip false audited))
      (proposed_services hundredths no_strip (some repeated))
      (merged_services hundredths no_strip (
        merge hundredths no_strip
          (rule_opportunities hundredths no_strip false audited)
          (some repeated)))
rule_opportunities-IsMerge_example =
    rule_opportunities-IsMerge hundredths no_strip false audited (some repeated)

-- A challenge page, but the registry answered.
abbrev challenged : Audit
challenged = record {
  status = bot_challenge;
  finding_codes = [];
  domain_intel = some (record { rdap = true; dns = none });
}

abbrev row_citing : String → Row
row_citing code = record {
  business_id = 4;
  service = "website_design";
  source = rules;
  review_status = pending;
  evidence_codes = some code ∷ [];
  withdrawn_at = none;
  withdrawn_reason = [];
}

-- The row that cites the domain is withdrawn, and the one that cites the page is not.
judged :
    (withdraw_unsupported 4 false challenged [] true 9
      (row_citing "domain_expired" ∷ row_citing "no_https" ∷ [])).1
    ≡ 1
unfolding withdraw_unsupported
judged = refl

withdraw_unsupported-IsWithdrawal_example :
    IsWithdrawal 4 9 false challenged [] true
      (row_citing "domain_expired" ∷ row_citing "no_https" ∷ [])
      (withdraw_unsupported 4 false challenged [] true 9
        (row_citing "domain_expired" ∷ row_citing "no_https" ∷ [])).0
      (withdraw_unsupported 4 false challenged [] true 9
        (row_citing "domain_expired" ∷ row_citing "no_https" ∷ [])).1
withdraw_unsupported-IsWithdrawal_example =
    withdraw_unsupported-IsWithdrawal 4 false challenged [] true 9
      (row_citing "domain_expired" ∷ row_citing "no_https" ∷ [])
