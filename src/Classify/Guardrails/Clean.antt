-- ===== src/Classify/Guardrails/Clean.antt =====
-- An answer that breaks no rule.
use lead_discovery_rader.Prelude.{
  ◌≡◌, ◌≢◌, refl, String, Option, none, some, List, [], ◌∷◌, true, false, arith, All, ◌⊎◌, inl, inr,
  eq_iff,
}
use lead_discovery_rader.Classify.Catalogue.{is_service}
use lead_discovery_rader.Classify.Guardrails.{
  Texts, AiEvidence, AiOpportunity, BuyingIntent, none_detected, explicit, AiOutput,
  GuardrailContext, Rule, is_in, unknown, is_empty, contains, is_unsold, is_unknown_code,
  pii_in_rationale, pii_in_business_summary, ban_words, check_evidence, check_all, problems,
  scrub_text, with_evidence, check_opportunity, check_opportunities, check_industry, check_intent,
  apply,
}
use lead_discovery_rader.Classify.Guardrails.Kept.{IsIntent}

pub record IsCleanEvidence (texts : Texts) (context : GuardrailContext) (item : AiEvidence)
    : Type 0 where
  pub sold : is_unsold texts context item.finding_code ≡ false
  pub known : is_unknown_code texts context item.finding_code ≡ false
  pub quoted : contains texts context item.quote ≡ true
  pub from_input : is_in context.urls item.source_url ≡ true

pub record IsClean (texts : Texts) (context : GuardrailContext) {Float : Type 0}
    (o : AiOpportunity Float) : Type 0 where
  pub in_catalogue : is_service o.service ≡ true
  pub some_evidence : o.evidence ≢ []
  pub evidence : All (IsCleanEvidence texts context) o.evidence
  pub private : is_empty (problems texts context o.rationale) ≡ true
  pub neutral : texts.banned_word o.rationale ≡ none

pub record IsCleanOutput (texts : Texts) (context : GuardrailContext) {Float : Type 0}
    (o : AiOutput Float) : Type 0 where
  pub opportunities : All (IsClean texts context) o.opportunities
  pub summary : is_empty (problems texts context o.business_summary) ≡ true
  pub industry : (o.industry ≡ unknown) ⊎ (is_in context.industries o.industry ≡ true)
  pub intent : IsIntent texts context o.buying_intent o.opportunities

module _ (texts : Texts) (context : GuardrailContext) where
  check_evidence-clean :
      (item : AiEvidence) (service : String)
      → IsCleanEvidence texts context item
      → check_evidence texts context item service ≡ (some item, [])
  unfolding check_evidence
  check_evidence-clean item service h = rw (h.sold, h.known, h.quoted, h.from_input) refl

  check_all-clean :
      (items : List AiEvidence) (service : String)
      → All (IsCleanEvidence texts context) items
      → check_all texts context items service ≡ (items, [])
  unfolding check_all
  check_all-clean [] service h = refl
  check_all-clean (item ∷ rest) service (one, others) =
      rw (check_evidence-clean item service one, check_all-clean rest service others) refl

  scrub_text-clean :
      (text : String) (rule : Rule) (service : Option String)
      → is_empty (problems texts context text) ≡ true
      → scrub_text texts context text rule service ≡ (text, [])
  unfolding scrub_text
  scrub_text-clean text rule service h = rw h refl

  ban_words-clean :
      (service original rationale : String)
      → texts.banned_word rationale ≡ none
      → ban_words texts context service original rationale ≡ (rationale, [])
  ban_words-clean service original rationale h = ground arith

  module _ {Float : Type 0} where
    with_evidence-clean :
        (o : AiOpportunity Float) (items : List AiEvidence)
        → items ≢ []
        → is_empty (problems texts context o.rationale) ≡ true
        → texts.banned_word o.rationale ≡ none
        → with_evidence texts context o items [] ≡ (some (record o { evidence = items }), [])
    unfolding with_evidence
    with_evidence-clean o [] full private neutral = absurd (full refl)
    with_evidence-clean o (item ∷ rest) full private neutral =
        rw
          (
            scrub_text-clean o.rationale pii_in_rationale (some o.service) private,
            ban_words-clean o.service o.rationale o.rationale neutral,
          )
          refl

    check_opportunity-clean :
        (o : AiOpportunity Float)
        → IsClean texts context o
        → check_opportunity texts context o ≡ (some o, [])
    unfolding check_opportunity
    check_opportunity-clean o h =
        rw (check_all-clean o.evidence o.service h.evidence, h.in_catalogue)
          (with_evidence-clean o o.evidence h.some_evidence h.private h.neutral)

    check_opportunities-clean :
        (os : List (AiOpportunity Float))
        → All (IsClean texts context) os
        → check_opportunities texts context os ≡ (os, [])
    unfolding check_opportunities
    check_opportunities-clean [] h = refl
    check_opportunities-clean (o ∷ rest) (one, others) =
        rw (check_opportunity-clean o one, check_opportunities-clean rest others) refl

    check_intent-clean :
        (intent : BuyingIntent) (os : List (AiOpportunity Float))
        → IsIntent texts context intent os
        → check_intent texts context intent os ≡ (intent, [])
    unfolding check_intent
    check_intent-clean none_detected os h = refl
    check_intent-clean explicit os h = rw h refl

  check_industry-clean :
      (industry : String)
      → ((industry ≡ unknown) ⊎ (is_in context.industries industry ≡ true))
      → check_industry texts context industry ≡ (industry, [])
  unfolding check_industry
  check_industry-clean industry (inl e) = rw ((eq_iff industry unknown).1 e) refl
  check_industry-clean industry (inr known) = rw known (ground arith)

-- An answer that breaks no rule is kept whole, and nothing is rejected: only that it needs a
-- person's review is set.
pub apply-clean :
    (texts : Texts) (context : GuardrailContext) {Float : Type 0} (output : AiOutput Float)
    → IsCleanOutput texts context output
    → apply texts context output
      ≡ record { output = record output { needs_human_review = true }; rejected_claims = [] }
unfolding apply
apply-clean texts context output h =
    rw
      (
        check_opportunities-clean texts context output.opportunities h.opportunities,
        scrub_text-clean texts context output.business_summary pii_in_business_summary none
            h.summary,
        check_industry-clean texts context output.industry h.industry,
        check_intent-clean texts context output.buying_intent output.opportunities h.intent,
      )
      refl
