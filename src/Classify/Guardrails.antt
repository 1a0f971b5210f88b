-- ===== src/Classify/Guardrails.antt =====
-- modules/ai/guardrails.py: what is kept of a model's answer. The text functions of the standard
-- library and the regular expressions of modules/ai/pii.py are parameters; floats are kept as they are.
pub mod Clean
pub mod Kept
use lead_discovery_rader.Prelude.{
  String, Option, none, some, List, [], ◌∷◌, ◌++◌, map, Bool, true, false, not, ◌&&◌, ◌||◌, ◌==ₛ◌,
  any, keep, find_first, is_some, if◌then◌else◌,
}
use lead_discovery_rader.Classify.Catalogue.{FindingSpec, Service, spec_of, is_service}

-- `normalise`, `in` on strings, `sorted`, `str.strip`, `_strip_url`, what `pii` finds in a text, and
-- the word that `_banned_word` finds in it.
pub record Texts : Type 0 where
  pub normalise : String → String
  pub occurs : String → String → Bool
  pub sorted : List String → List String
  pub strip : String → String
  pub strip_url : String → String
  pub find_emails : String → List String
  pub find_phones : String → List String
  pub find_urls : String → List String
  pub banned_word : String → Option String

pub record AiEvidence : Type 0 where
  pub finding_code : Option String
  pub quote : String
  pub source_url : String

pub record AiOpportunity (Float : Type 0) : Type 0 where
  pub service : String
  pub confidence : Float
  pub rationale : String
  pub evidence : List AiEvidence

pub data BuyingIntent : Type 0 where
  none_detected explicit : BuyingIntent

pub record AiOutput (Float : Type 0) : Type 0 where
  pub business_summary : String
  pub industry : String
  pub industry_matches_listing : Bool
  pub opportunities : List (AiOpportunity Float)
  pub buying_intent : BuyingIntent
  pub unknowns : List String
  pub needs_human_review : Bool

pub record GuardrailContext : Type 0 where
  pub corpus : List String
  pub finding_codes : List String
  pub urls : List String
  pub industries : List String
  pub intent_patterns : List String
  pub page_url : Option String

pub data Rule : Type 0 where
  unknown_industry intent_without_evidence unknown_service no_valid_evidence : Rule
  wording_in_rationale finding_has_no_service unknown_finding_code quote_not_in_input : Rule
  url_not_in_input pii_in_business_summary pii_in_rationale : Rule

-- A rejected claim, without its `detail`.
pub record Claim : Type 0 where
  pub rule : Rule
  pub service : Option String
  pub text : Option String

pub record GuardrailResult (Float : Type 0) : Type 0 where
  pub output : AiOutput Float
  pub rejected_claims : List Claim

abbrev pub claim : Rule → Option String → Option String → Claim
claim rule service text = record { rule = rule; service = service; text = text }

abbrev pub is_in : List String → String → Bool
is_in known text = any (λ other. text ==ₛ other) known

abbrev pub unknown : String
unknown = "unknown"

abbrev is_explicit : BuyingIntent → Bool
is_explicit none_detected = false
is_explicit explicit = true

abbrev pub is_empty : List String → Bool
is_empty [] = true
is_empty (x ∷ rest) = false

abbrev first_or : String → List String → String
first_or default [] = default
first_or default (x ∷ rest) = x

-- `context.page_url or next(iter(sorted(context.urls)), "")`
abbrev pub page_or_first : Option String → List String → String
page_or_first none urls = first_or "" urls
page_or_first (some page) urls = if page ==ₛ "" then first_or "" urls else page

module _ (texts : Texts) where
  -- `GuardrailContext.build`
  unfoldable pub build :
      List String
      → List String
      → List String
      → List String
      → List String
      → Option String
      → GuardrailContext
  build corpus finding_codes urls industries intent_patterns page_url = record {
    corpus = map texts.normalise (keep (λ text. not (text ==ₛ "")) corpus);
    finding_codes = finding_codes;
    urls = urls;
    industries = industries;
    intent_patterns =
        map texts.normalise (keep (λ pattern. not (texts.strip pattern ==ₛ "")) intent_patterns);
    page_url = page_url;
  }

  module _ (context : GuardrailContext) where
    -- `GuardrailContext.contains`
    abbrev pub contains : String → Bool
    contains quote =
        not (texts.normalise quote ==ₛ "")
        && any (λ text. texts.occurs (texts.normalise quote) text) context.corpus

    -- `spec is not None and spec.service is None`
    abbrev has_no_service : Option FindingSpec → Bool
    has_no_service none = false
    has_no_service (some finding) = not (is_some finding.service)

    unfoldable pub is_unsold : Option String → Bool
    unfolding spec_of
    is_unsold none = false
    is_unsold (some code) = has_no_service (spec_of code)

    abbrev pub is_unknown_code : Option String → Bool
    is_unknown_code none = false
    is_unknown_code (some code) = not (is_in context.finding_codes code)

    abbrev pub with_url : AiEvidence → String → Option AiEvidence × List Claim
    with_url item service = if is_in context.urls item.source_url then (some item, []) else (
      some
          (record item { source_url = page_or_first context.page_url (texts.sorted context.urls) }),
      claim url_not_in_input (some service) none ∷ [],
    )

    -- `_check_evidence`: the evidence that is kept, and the claims that are rejected.
    unfoldable pub check_evidence : AiEvidence → String → Option AiEvidence × List Claim
    unfolding is_unsold
    check_evidence item service =
        if is_unsold item.finding_code
        then (none, claim finding_has_no_service (some service) (some item.quote) ∷ [])
        else (if is_unknown_code item.finding_code
            then (none, claim unknown_finding_code (some service) (some item.quote) ∷ [])
            else (if contains item.quote
                then with_url item service
                else (none, claim quote_not_in_input (some service) (some item.quote) ∷ [])))

    abbrev add_if : {A : Type 0} → Option A → List A → List A
    add_if none kept = kept
    add_if (some item) kept = item ∷ kept

    unfoldable pub check_all : List AiEvidence → String → List AiEvidence × List Claim
    unfolding check_evidence
    check_all [] service = ([], [])
    check_all (item ∷ rest) service =
        let (checked, claims) = check_evidence item service in
        let (kept, others) = check_all rest service in (add_if checked kept, claims ++ others)

    -- The emails, the phones, and the URLs that were not sent.
    abbrev pub problems : String → List String
    problems text =
        texts.find_emails text
        ++ texts.find_phones text
        ++ keep (λ url. not (is_in context.urls (texts.strip_url url))) (texts.find_urls text)

    -- `_scrub_text`
    unfoldable pub scrub_text : String → Rule → Option String → String × List Claim
    scrub_text text rule service =
        if is_empty (problems text) then (text, []) else ("", claim rule service (some text) ∷ [])

    -- `if rationale and _banned_word(rationale) is not None`
    abbrev pub ban_words : String → String → String → String × List Claim
    ban_words service original rationale =
        if not (rationale ==ₛ "") && is_some (texts.banned_word rationale)
        then ("", claim wording_in_rationale (some service) (some original) ∷ [])
        else (rationale, [])

    abbrev pub matches_intent : AiEvidence → Bool
    matches_intent item =
        any (λ pattern. texts.occurs pattern (texts.normalise item.quote)) context.intent_patterns

    unfoldable pub check_industry : String → String × List Claim
    check_industry industry =
        if not (industry ==ₛ unknown) && not (is_in context.industries industry)
        then (unknown, claim unknown_industry none none ∷ [])
        else (industry, [])

    module _ {Float : Type 0} where
      unfoldable pub with_evidence :
          AiOpportunity Float
          → List AiEvidence
          → List Claim
          → Option (AiOpportunity Float) × List Claim
      unfolding scrub_text
      with_evidence opportunity [] claims =
          (none, claims ++ (claim no_valid_evidence (some opportunity.service) none ∷ []))
      with_evidence opportunity (item ∷ rest) claims =
          let (scrubbed, found) =
            scrub_text opportunity.rationale pii_in_rationale (some opportunity.service) in
          let (rationale, banned) = ban_words opportunity.service opportunity.rationale scrubbed in
          (
            some (record opportunity { rationale = rationale; evidence = item ∷ rest }),
            claims ++ (found ++ banned),
          )

      -- `_check_opportunity`
      unfoldable pub check_opportunity :
          AiOpportunity Float → Option (AiOpportunity Float) × List Claim
      unfolding check_all with_evidence is_service
      check_opportunity opportunity =
          let (evidence, claims) = check_all opportunity.evidence opportunity.service in
          if is_service opportunity.service
          then with_evidence opportunity evidence claims
          else (none, claim unknown_service (some opportunity.service) none ∷ [])

      unfoldable pub check_opportunities :
          List (AiOpportunity Float) → List (AiOpportunity Float) × List Claim
      unfolding check_opportunity
      check_opportunities [] = ([], [])
      check_opportunities (opportunity ∷ rest) =
          let (checked, claims) = check_opportunity opportunity in
          let (kept, others) = check_opportunities rest in (add_if checked kept, claims ++ others)

      -- Whether `_intent_quote` finds a quote.
      unfoldable pub has_intent_quote : List (AiOpportunity Float) → Bool
      has_intent_quote opportunities =
          any (λ opportunity. any matches_intent opportunity.evidence) opportunities

      unfoldable pub check_intent :
          BuyingIntent → List (AiOpportunity Float) → BuyingIntent × List Claim
      unfolding has_intent_quote
      check_intent none_detected opportunities = (none_detected, [])
      check_intent explicit opportunities =
          if has_intent_quote opportunities
          then (explicit, [])
          else (none_detected, claim intent_without_evidence none none ∷ [])

      -- `apply`
      unfoldable pub apply : AiOutput Float → GuardrailResult Float
      unfolding check_opportunities scrub_text check_industry check_intent
      apply output =
          let (opportunities, dropped) = check_opportunities output.opportunities in
          let (summary, scrubbed) =
            scrub_text output.business_summary pii_in_business_summary none in
          let (industry, other_industry) = check_industry output.industry in
          let (intent, no_intent) = check_intent output.buying_intent opportunities in
          record {
            output = record {
              business_summary = summary;
              industry = industry;
              industry_matches_listing = output.industry_matches_listing;
              opportunities = opportunities;
              buying_intent = intent;
              unknowns = output.unknowns;
              needs_human_review = true;
            };
            rejected_claims = dropped ++ (scrubbed ++ (other_industry ++ no_intent));
          }
