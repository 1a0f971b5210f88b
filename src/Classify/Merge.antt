-- ===== src/Classify/Merge.antt =====
-- `merge` of modules/opportunities/service.py: what the rules found, and what the model adds.
pub mod Services
use Prim.Native.String.{◌++◌ as ◌++ₛ◌}
use lead_discovery_rader.Prelude.{
  String, Option, none, some, List, [], ◌∷◌, ◌++◌, map, Bool, true, false, not, ◌&&◌, ◌==ₛ◌,
  if◌then◌else◌,
}
use lead_discovery_rader.Floats.{Floats}
use lead_discovery_rader.Classify.Guardrails.{AiEvidence, AiOpportunity, AiOutput}
use lead_discovery_rader.Classify.Withdraw.{OpportunitySource, rules, ai, rules_and_ai}

pub record Evidence : Type 0 where
  pub finding_code : Option String
  pub text : String
  pub url : Option String

pub record RuleOpportunity (Float : Type 0) : Type 0 where
  pub service : String
  pub confidence : Float
  pub reason : String
  pub evidence : List Evidence
  pub finding_codes : List String

-- A piece of evidence, and whether it is the model's.
pub record MergedEvidence : Type 0 where
  pub finding_code : Option String
  pub text : String
  pub url : Option String
  pub source : OpportunitySource

pub record MergedOpportunity (Float : Type 0) : Type 0 where
  pub service : String
  pub source : OpportunitySource
  pub confidence : Float
  pub reason : String
  pub evidence : List MergedEvidence
  pub ai_agrees : Option Bool

abbrev of_rule : Evidence → MergedEvidence
of_rule e = record { finding_code = e.finding_code; text = e.text; url = e.url; source = rules }

-- `_ai_evidence`
abbrev pub ai_evidence : AiEvidence → MergedEvidence
ai_evidence item = record {
  finding_code = item.finding_code;
  text = item.quote;
  url = some item.source_url;
  source = ai;
}

-- `AI_ONLY_DEFAULT_REASON`
abbrev default_reason : String
default_reason = "Suggested from the homepage text; see the quoted evidence."

-- `strip` is `str.strip`.
module _ (fl : Floats) (strip : String → String) where
  -- Python's `min` and `max`, which keep the first of two equals.
  abbrev pub min_of : fl.Float → fl.Float → fl.Float
  min_of a b = if fl.lt b a then b else a

  abbrev pub max_of : fl.Float → fl.Float → fl.Float
  max_of a b = if fl.lt a b then b else a

  -- `{o.service: o for o in …}`: a service that comes twice keeps its place and takes the later value.
  unfoldable pub set_item :
      AiOpportunity fl.Float → List (AiOpportunity fl.Float) → List (AiOpportunity fl.Float)
  set_item o [] = o ∷ []
  set_item o (other ∷ rest) =
      let later = set_item o rest in if other.service ==ₛ o.service then o ∷ rest else other ∷ later

  unfoldable pub set_items :
      List (AiOpportunity fl.Float) → List (AiOpportunity fl.Float) → List (AiOpportunity fl.Float)
  unfolding set_item
  set_items [] by_service = by_service
  set_items (o ∷ rest) by_service = set_items rest (set_item o by_service)

  -- `ai_by_service.pop(service, None)`
  unfoldable pub pop :
      String
      → List (AiOpportunity fl.Float)
      → Option (AiOpportunity fl.Float) × List (AiOpportunity fl.Float)
  pop service [] = (none, [])
  pop service (o ∷ rest) =
      let (found, left) = pop service rest in
      if o.service ==ₛ service then (some o, rest) else (found, o ∷ left)

  abbrev rules_alone : RuleOpportunity fl.Float → Option Bool → MergedOpportunity fl.Float
  rules_alone rule agrees = record {
    service = rule.service;
    source = rules;
    confidence = rule.confidence;
    reason = rule.reason;
    evidence = map of_rule rule.evidence;
    ai_agrees = agrees;
  }

  -- `min(suggestion.confidence, rule.confidence + AI_MAX_RAISE)`, no lower than the rule's.
  abbrev raised_confidence : RuleOpportunity fl.Float → AiOpportunity fl.Float → fl.Float
  raised_confidence rule suggestion = fl.round_to 3 (
      max_of rule.confidence
        (min_of suggestion.confidence (fl.add rule.confidence (fl.decimal 15 2))))

  abbrev pub with_suggestion :
      RuleOpportunity fl.Float → Option (AiOpportunity fl.Float) → MergedOpportunity fl.Float
  with_suggestion rule none = rules_alone rule (some false)
  with_suggestion rule (some suggestion) = record {
    service = rule.service;
    source = rules_and_ai;
    confidence = raised_confidence rule suggestion;
    reason =
        if suggestion.rationale ==ₛ ""
        then rule.reason
        else strip (rule.reason ++ₛ (" " ++ₛ suggestion.rationale));
    evidence = map of_rule rule.evidence ++ map ai_evidence suggestion.evidence;
    ai_agrees = some true;
  }

  abbrev pub ai_alone : AiOpportunity fl.Float → MergedOpportunity fl.Float
  ai_alone suggestion = record {
    service = suggestion.service;
    source = ai;
    confidence = fl.round_to 3 (min_of suggestion.confidence (fl.decimal 6 1));
    reason = if suggestion.rationale ==ₛ "" then default_reason else suggestion.rationale;
    evidence = map ai_evidence suggestion.evidence;
    ai_agrees = some true;
  }

  unfoldable pub merge_rules :
      List (RuleOpportunity fl.Float)
      → List (AiOpportunity fl.Float)
      → List (MergedOpportunity fl.Float)
  unfolding pop
  merge_rules [] by_service = map ai_alone by_service
  merge_rules (rule ∷ rest) by_service =
      let (suggestion, left) = pop rule.service by_service in
      with_suggestion rule suggestion ∷ merge_rules rest left

  unfoldable pub merge :
      List (RuleOpportunity fl.Float)
      → Option (AiOutput fl.Float)
      → List (MergedOpportunity fl.Float)
  unfolding merge_rules set_items
  merge found none = map (λ rule. rules_alone rule none) found
  merge found (some output) = merge_rules found (set_items output.opportunities [])
