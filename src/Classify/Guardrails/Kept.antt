-- ===== src/Classify/Guardrails/Kept.antt =====
-- What the guardrails let through.
use mathlib.Core.Path.{subst}
use lead_discovery_rader.Prelude.{
  ◌≡◌, ◌≢◌, refl, String, Option, none, some, List, [], ◌∷◌, true, false, ◌==ₛ◌, arith, All,
  Bool-cases, Option-cases, ◌⊎◌, inl, inr, eq_iff,
}
use lead_discovery_rader.Classify.Catalogue.{is_service}
use lead_discovery_rader.Classify.Guardrails.{
  Texts, AiEvidence, AiOpportunity, BuyingIntent, none_detected, explicit, AiOutput,
  GuardrailContext, Rule, Claim, is_in, unknown, is_empty, page_or_first, contains, is_unsold,
  is_unknown_code, with_url, pii_in_rationale, pii_in_business_summary, ban_words, check_evidence,
  check_all, problems, scrub_text, with_evidence, check_opportunity, check_opportunities,
  has_intent_quote, check_industry, check_intent, apply,
}

-- Evidence that cites nothing but a finding of this audit that is sold under a service, quotes
-- what was sent, and names a URL that was sent, or the page's.
pub record IsGroundedEvidence (texts : Texts) (context : GuardrailContext) (item : AiEvidence)
    : Type 0 where
  pub sold : is_unsold texts context item.finding_code ≡ false
  pub known : is_unknown_code texts context item.finding_code ≡ false
  pub quoted : contains texts context item.quote ≡ true
  pub from_input :
      (is_in context.urls item.source_url ≡ true)
      ⊎ (item.source_url ≡ page_or_first context.page_url (texts.sorted context.urls))

pub record IsGrounded (texts : Texts) (context : GuardrailContext) {Float : Type 0}
    (o : AiOpportunity Float) : Type 0 where
  pub in_catalogue : is_service o.service ≡ true
  pub some_evidence : o.evidence ≢ []
  pub evidence : All (IsGroundedEvidence texts context) o.evidence
  pub neutral :
      (o.rationale ≡ "")
      ⊎ ((is_empty (problems texts context o.rationale) ≡ true)
          × (texts.banned_word o.rationale ≡ none))

abbrev pub IsIntent :
    Texts → GuardrailContext → {Float : Type 0} → BuyingIntent → List (AiOpportunity Float) → Type 0
IsIntent texts context none_detected opportunities = Unit {0}
IsIntent texts context explicit opportunities = has_intent_quote texts context opportunities ≡ true

pub record IsGroundedOutput (texts : Texts) (context : GuardrailContext) {Float : Type 0}
    (o : AiOutput Float) : Type 0 where
  pub opportunities : All (IsGrounded texts context) o.opportunities
  pub summary :
      (o.business_summary ≡ "") ⊎ (is_empty (problems texts context o.business_summary) ≡ true)
  pub industry : (o.industry ≡ unknown) ⊎ (is_in context.industries o.industry ≡ true)
  pub intent : IsIntent texts context o.buying_intent o.opportunities
  pub reviewed : o.needs_human_review ≡ true

some_injective {ℓ} : {A : Type ℓ} {a b : A} → some a ≡ some b → a ≡ b
some_injective h = cc

module _ (texts : Texts) (context : GuardrailContext) where
  with_url-IsGrounded :
      (item : AiEvidence) (service : String) (kept : AiEvidence)
      → is_unsold texts context item.finding_code ≡ false
      → is_unknown_code texts context item.finding_code ≡ false
      → contains texts context item.quote ≡ true
      → (with_url texts context item service).0 ≡ some kept
      → IsGroundedEvidence texts context kept
  with_url-IsGrounded item service kept sold known quoted h =
      elim (Bool-cases (is_in context.urls item.source_url)) [
        | inl e ↦
            let same : item ≡ kept = ground arith in
            subst (IsGroundedEvidence texts context) same
              (record { sold = sold; known = known; quoted = quoted; from_input = inl e })
        | inr e ↦
            let url = page_or_first context.page_url (texts.sorted context.urls) in
            let same : record item { source_url = url } ≡ kept = ground arith in
            subst (IsGroundedEvidence texts context) same
              (record { sold = sold; known = known; quoted = quoted; from_input = inr refl })
      ]

  check_evidence-IsGrounded :
      (item : AiEvidence) (service : String) (kept : AiEvidence)
      → (check_evidence texts context item service).0 ≡ some kept
      → IsGroundedEvidence texts context kept
  unfolding check_evidence
  check_evidence-IsGrounded item service kept h =
      elim (Bool-cases (is_unsold texts context item.finding_code)) [
        | inl unsold ↦ absurd (ground arith)
        | inr sold ↦ elim (Bool-cases (is_unknown_code texts context item.finding_code)) [
          | inl strange ↦ absurd (ground arith)
          | inr known ↦ elim (Bool-cases (contains texts context item.quote)) [
            | inl quoted ↦
                with_url-IsGrounded item service kept sold known quoted
                  (rw (sold, known, quoted) at h)
            | inr invented ↦ absurd (ground arith)
          ]
        ]
      ]

  check_all-IsGrounded :
      (items : List AiEvidence) (service : String)
      → All (IsGroundedEvidence texts context) (check_all texts context items service).0
  unfolding check_all
  check_all-IsGrounded [] service = tt
  check_all-IsGrounded (item ∷ rest) service =
      elim (Option-cases (check_evidence texts context item service).0) [
        | inl e ↦ rw e (check_all-IsGrounded rest service)
        | inr (kept, e) ↦
            rw e (check_evidence-IsGrounded item service kept e, check_all-IsGrounded rest service)
      ]

  scrub_text-clean :
      (text : String) (rule : Rule) (service : Option String)
      → let scrubbed = (scrub_text texts context text rule service).0 in
        (scrubbed ≡ "") ⊎ (is_empty (problems texts context scrubbed) ≡ true)
  unfolding scrub_text
  scrub_text-clean text rule service = elim (Bool-cases (is_empty (problems texts context text))) [
    | inl e ↦ rw e (inr e)
    | inr e ↦ rw e (inl refl)
  ]

  abbrev IsNeutral : String → Type 0
  IsNeutral rationale =
      (rationale ≡ "")
      ⊎ ((is_empty (problems texts context rationale) ≡ true)
          × (texts.banned_word rationale ≡ none))

  ban_words-IsNeutral :
      (service original rationale : String)
      → ((rationale ≡ "") ⊎ (is_empty (problems texts context rationale) ≡ true))
      → IsNeutral (ban_words texts context service original rationale).0
  ban_words-IsNeutral service original rationale clean = elim (Bool-cases (rationale ==ₛ "")) [
    | inl e ↦ let blank : rationale ≡ "" = (eq_iff rationale "").0 e in rw blank (inl refl)
    | inr e ↦ elim (Option-cases (texts.banned_word rationale)) [
      | inl none_found ↦
          rw (e, none_found)
            (elim clean [ inl blank ↦ inl blank | inr clear ↦ inr (clear, none_found) ])
      | inr (word, found) ↦ rw (e, found) (inl refl)
    ]
  ]

  module _ {Float : Type 0} where
    with_evidence-IsGrounded :
        (o : AiOpportunity Float) (items : List AiEvidence) (claims : List Claim)
        (kept : AiOpportunity Float)
        → is_service o.service ≡ true
        → All (IsGroundedEvidence texts context) items
        → (with_evidence texts context o items claims).0 ≡ some kept
        → IsGrounded texts context kept
    unfolding with_evidence
    with_evidence-IsGrounded o [] claims kept sold h e = absurd (ground arith)
    with_evidence-IsGrounded o (item ∷ rest) claims kept sold h e =
        let scrubbed = (scrub_text texts context o.rationale pii_in_rationale (some o.service)).0 in
        let rationale = (ban_words texts context o.service o.rationale scrubbed).0 in
        let same : record o { rationale = rationale; evidence = item ∷ rest } ≡ kept =
          some_injective e in
        subst (λ out. IsGrounded texts context out) same
          (record {
            in_catalogue = sold;
            some_evidence = λ empty. ground arith;
            evidence = h;
            neutral =
                ban_words-IsNeutral o.service o.rationale scrubbed
                  (scrub_text-clean o.rationale pii_in_rationale (some o.service));
          })

    check_opportunity-IsGrounded :
        (o kept : AiOpportunity Float)
        → (check_opportunity texts context o).0 ≡ some kept
        → IsGrounded texts context kept
    unfolding check_opportunity
    check_opportunity-IsGrounded o kept h = elim (Bool-cases (is_service o.service)) [
      | inl sold ↦
          let checked = check_all texts context o.evidence o.service in
          with_evidence-IsGrounded o checked.0 checked.1 kept sold
            (check_all-IsGrounded o.evidence o.service) (rw sold at h)
      | inr strange ↦ absurd (ground arith)
    ]

    check_opportunities-IsGrounded :
        (os : List (AiOpportunity Float))
        → All (IsGrounded texts context) (check_opportunities texts context os).0
    unfolding check_opportunities
    check_opportunities-IsGrounded [] = tt
    check_opportunities-IsGrounded (o ∷ rest) =
        elim (Option-cases (check_opportunity texts context o).0) [
          | inl e ↦ rw e (check_opportunities-IsGrounded rest)
          | inr (kept, e) ↦
              rw e (check_opportunity-IsGrounded o kept e, check_opportunities-IsGrounded rest)
        ]

    check_intent-IsIntent :
        (intent : BuyingIntent) (os : List (AiOpportunity Float))
        → IsIntent texts context (check_intent texts context intent os).0 os
    unfolding check_intent
    check_intent-IsIntent none_detected os = tt
    check_intent-IsIntent explicit os = elim (Bool-cases (has_intent_quote texts context os)) [
      | inl e ↦ rw e e
      | inr e ↦ rw e tt
    ]

  check_industry-known :
      (industry : String)
      → let kept = (check_industry texts context industry).0 in
        (kept ≡ unknown) ⊎ (is_in context.industries kept ≡ true)
  unfolding check_industry
  check_industry-known industry = elim (Bool-cases (industry ==ₛ unknown)) [
    | inl e ↦ let same : industry ≡ unknown = (eq_iff industry unknown).0 e in rw same (inl refl)
    | inr e ↦ elim (Bool-cases (is_in context.industries industry)) [
      | inl known ↦ rw (e, known) (inr known)
      | inr strange ↦ rw (e, strange) (inl refl)
    ]
  ]

-- Whatever the model answers, what the guardrails keep is grounded: every opportunity is of a
-- service of the catalogue and has evidence, each piece of which quotes the input, cites at most a
-- finding of this audit that is sold under a service, and names a URL of the input or the page's
-- own; no rationale or summary has contact details, a URL that was not sent or (a rationale) a
-- banned word; the industry is known; an explicit intent has a quote that says so; and a person
-- reviews it.
pub apply-IsGrounded :
    (texts : Texts) (context : GuardrailContext) {Float : Type 0} (output : AiOutput Float)
    → IsGroundedOutput texts context (apply texts context output).output
unfolding apply
apply-IsGrounded texts context output = record {
  opportunities = check_opportunities-IsGrounded texts context output.opportunities;
  summary = scrub_text-clean texts context output.business_summary pii_in_business_summary none;
  industry = check_industry-known texts context output.industry;
  intent =
      check_intent-IsIntent texts context output.buying_intent
        (check_opportunities texts context output.opportunities).0;
  reviewed = refl;
}
