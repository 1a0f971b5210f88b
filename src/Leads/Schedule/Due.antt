-- ===== src/Leads/Schedule/Due.antt =====
-- When a new lead is due, and that there is something to send then.
use lead_discovery_rader.Prelude.{
  ℕ, ◌+◌, ◌≤◌, ◌≡◌, refl, Option, none, some, List, [], ◌∷◌, ◌++◌, Bool, true, false, arith, keep,
  max, Option-cases, Bool-cases, inl, inr,
}
use lead_discovery_rader.Leads.Model.{Business, Opportunity, World, Settings, get_business}
use lead_discovery_rader.Leads.Gate.{
  Eligibility, eligibility, is_eligible, is_suppressed, active_suppressions_for,
  approved_opportunities, non_empty, earliest, is_ready, delay_of,
}
use lead_discovery_rader.Leads.Schedule.Frames.{on_business_changed-keeps}
use lead_discovery_rader.Leads.Schedule.{
  get_lead, first_due, new_lead, schedule_new, change_lead, change_business, on_business_changed,
}

-- The earliest approval is ready once its delay is over.
earliest-ready :
    (xs : List Opportunity) (t due delay : ℕ)
    → earliest xs ≡ some t
    → t + delay ≤ due
    → non_empty (keep (is_ready due delay []) xs) ≡ true
unfolding earliest
earliest-ready [] t due delay e h = absurd (ground arith)
earliest-ready (o ∷ rest) t due delay e h = elim (Option-cases (earliest rest)) [
  | inl n ↦ elim (Option-cases o.decided_at) [
    | inl d ↦ absurd (ground arith)
    | inr (d, q) ↦ ground arith
  ]
  | inr (t', n) ↦ elim (Option-cases o.decided_at) [
    | inl d ↦ let later = earliest-ready rest t due delay in ground (arith, e, h, later)
    | inr (d, q) ↦ let later = earliest-ready rest t' due delay n in ground (arith, e, h, later)
  ]
]

first_due-ready :
    (settings : Settings) (business : Business) (now t : ℕ) (w : World)
    → earliest (approved_opportunities business.id w) ≡ some t
    → let due = first_due (eligibility settings business now false [] w) now (delay_of settings) in
      (now ≤ due) × (non_empty (eligibility settings business due false [] w).ready ≡ true)
unfolding first_due eligibility
first_due-ready settings business now t w e =
    let approved = approved_opportunities business.id w in
    let delay = delay_of settings in
    let ready_then = earliest-ready approved t (max (t + delay) now) delay e (omega arith) in
    elim (Bool-cases (non_empty (keep (is_ready now delay []) approved))) [
      | inl r ↦ rw r (omega arith, r)
      | inr r ↦ rw (r, e) (omega arith, ready_then)
    ]

eligibility-tables :
    (settings : Settings) (business : Business) (now : ℕ) (carried : List ℕ) (w w' : World)
    → w'.opportunities ≡ w.opportunities
    → w'.suppressions ≡ w.suppressions
    → eligibility settings business now false carried w'
      ≡ eligibility settings business now false carried w
unfolding eligibility is_suppressed active_suppressions_for approved_opportunities
eligibility-tables settings business now carried w w' o s = rw (o, s) refl

non_empty-earliest : (xs : List Opportunity) (t : ℕ) → earliest xs ≡ some t → non_empty xs ≡ true
unfolding earliest
non_empty-earliest [] t h = absurd (ground arith)
non_empty-earliest (x ∷ xs) t h = refl

module _ (settings : Settings) (actor_id : Option ℕ) (now : ℕ) (is_approval : Bool) where
  schedule_new-leads :
      (state : Eligibility) (business : Business) (w : World)
      → is_eligible state ≡ true
      → (schedule_new settings actor_id now is_approval state business w).crm_leads
        ≡ w.crm_leads
          ++ (new_lead business.id settings.crm_destination
                (first_due state now (delay_of settings))
                w
              ∷ [])
  unfolding schedule_new
  schedule_new-leads state business w h = ground arith

  eligible_lem :
      (at : ℕ) (business : Business) (t : ℕ) (w : World)
      → is_suppressed business w ≡ false
      → earliest (approved_opportunities business.id w) ≡ some t
      → is_eligible (eligibility settings business at false [] w) ≡ true
  unfolding is_eligible eligibility
  eligible_lem at business t w s e =
      rw (s, non_empty-earliest (approved_opportunities business.id w) t e) refl

  business_changed-leads :
      (business : Business) (business_id : ℕ) (w : World)
      → get_business business_id w ≡ some business
      → get_lead business.id settings.crm_destination w ≡ none
      → is_eligible (eligibility settings business now false [] w) ≡ true
      → (on_business_changed settings actor_id now is_approval business_id w).crm_leads
        ≡ w.crm_leads
          ++ (new_lead business.id settings.crm_destination
                (first_due (eligibility settings business now false [] w) now (delay_of settings))
                w
              ∷ [])
  unfolding on_business_changed change_business change_lead
  business_changed-leads business business_id w b l h =
      rw (b, l) (schedule_new-leads (eligibility settings business now false [] w) business w h)

  -- A change to a business that has no lead yet, is not suppressed, and has an approved opportunity whose
  -- time of approval is known, adds one scheduled lead. It is due at once or later, and when it is due
  -- the gate lets it through: the business is not suppressed and an approval is past its delay.
  pub on_business_changed-due :
      (business : Business) (business_id t : ℕ) (w : World)
      → get_business business_id w ≡ some business
      → get_lead business.id settings.crm_destination w ≡ none
      → is_suppressed business w ≡ false
      → earliest (approved_opportunities business.id w) ≡ some t
      → let after = on_business_changed settings actor_id now is_approval business_id w in
        (due : ℕ) × (after.crm_leads
          ≡ w.crm_leads ++ (new_lead business.id settings.crm_destination due w ∷ []))
        × (now ≤ due)
        × (let gate_then = eligibility settings business due false [] after in
            (is_eligible gate_then ≡ true) × (non_empty gate_then.ready ≡ true))
  on_business_changed-due business business_id t w b l s e =
      let state = eligibility settings business now false [] w in
      let after = on_business_changed settings actor_id now is_approval business_id w in
      let due = first_due state now (delay_of settings) in
      let kept = on_business_changed-keeps settings actor_id now is_approval business_id w in
      let same =
        eligibility-tables settings business due [] w after kept.opportunities kept.suppressions in
      let (not_before, ready) = first_due-ready settings business now t w e in
      let open_then = eligible_lem due business t w s e in
      (
        due,
        business_changed-leads business business_id w b l (eligible_lem now business t w s e),
        not_before,
        rw same (open_then, ready),
      )
