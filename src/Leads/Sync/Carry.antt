-- ===== src/Leads/Sync/Carry.antt =====
-- Which approvals a CRM record carries.
use lead_discovery_rader.Prelude.{
  ℕ, ◌≡◌, refl, ◌≢◌, List, [], ◌∷◌, ◌++◌, Bool, false, not, ◌&&◌, ◌||◌, ◌==◌, arith, keep, map,
}
use lead_discovery_rader.Leads.Model.{Opportunity, CrmLead, Carried, World}
use lead_discovery_rader.Leads.Gate.{has_opportunity}
use lead_discovery_rader.Leads.Sync.{carried_of, ids_of, missing, carry}

abbrev carries : ℕ → ℕ → List Carried → Bool
carries lead_id id rows = has_opportunity id (
    map (λ (c : Carried). c.opportunity_id) (keep (λ (c : Carried). c.crm_lead_id == lead_id) rows))

carries-append :
    (lead_id id : ℕ) (xs ys : List Carried)
    → carries lead_id id (xs ++ ys) ≡ carries lead_id id xs || carries lead_id id ys
carries-append lead_id id [] ys = refl
carries-append lead_id id (x ∷ xs) ys = ground (arith, carries-append lead_id id xs ys)

carries-keep :
    (lead_id id : ℕ) (wanted : List ℕ) (xs : List Carried)
    → carries lead_id id
        (keep (λ c. not (c.crm_lead_id == lead_id) || has_opportunity c.opportunity_id wanted) xs)
      ≡ carries lead_id id xs && has_opportunity id wanted
carries-keep lead_id id wanted [] = refl
carries-keep lead_id id wanted (x ∷ xs) = ground (arith, carries-keep lead_id id wanted xs)

carries-missing :
    (lead_id id : ℕ) (current wanted : List ℕ)
    → carries lead_id id (missing lead_id current wanted)
      ≡ has_opportunity id wanted && not (has_opportunity id current)
unfolding missing
carries-missing lead_id id current [] = refl
carries-missing lead_id id current (x ∷ wanted) =
    ground (arith, carries-missing lead_id id current wanted)

carries-keep-other :
    (lead_id other id : ℕ) (wanted : List ℕ) (xs : List Carried)
    → other ≢ lead_id
    → carries other id
        (keep (λ c. not (c.crm_lead_id == lead_id) || has_opportunity c.opportunity_id wanted) xs)
      ≡ carries other id xs
carries-keep-other lead_id other id wanted [] h = refl
carries-keep-other lead_id other id wanted (x ∷ xs) h =
    ground (arith, carries-keep-other lead_id other id wanted xs h)

carries-missing-other :
    (lead_id other id : ℕ) (current wanted : List ℕ)
    → other ≢ lead_id
    → carries other id (missing lead_id current wanted) ≡ false
unfolding missing
carries-missing-other lead_id other id current [] h = refl
carries-missing-other lead_id other id current (x ∷ wanted) h =
    ground (arith, carries-missing-other lead_id other id current wanted h)

pub has_opportunity-carry :
    (lead : CrmLead) (rows : List Opportunity) (w : World) (id : ℕ)
    → has_opportunity id (carried_of lead (carry lead rows w)) ≡ has_opportunity id (ids_of rows)
unfolding carry
has_opportunity-carry lead rows w id =
    let wanted = ids_of rows in
    let current = carried_of lead w in
    let kept =
      keep
        (λ (c : Carried). not (c.crm_lead_id == lead.id) || has_opportunity c.opportunity_id wanted)
        w.carried in
    let a = carries-append lead.id id kept (missing lead.id current wanted) in
    let b = carries-keep lead.id id wanted w.carried in
    let c = carries-missing lead.id id current wanted in ground arith

-- After a sync has recorded what it sent, the lead carries just the opportunities that were sent, and
-- what another lead carries is not changed.
pub carried_of-carry :
    (lead other : CrmLead) (rows : List Opportunity) (w : World) (id : ℕ)
    → other.id ≢ lead.id
    → (has_opportunity id (carried_of lead (carry lead rows w)) ≡ has_opportunity id (ids_of rows))
      × (has_opportunity id (carried_of other (carry lead rows w))
          ≡ has_opportunity id (carried_of other w))
unfolding carry
carried_of-carry lead other rows w id different =
    let wanted = ids_of rows in
    let current = carried_of lead w in
    let kept =
      keep
        (λ (c : Carried). not (c.crm_lead_id == lead.id) || has_opportunity c.opportunity_id wanted)
        w.carried in
    let a = carries-append other.id id kept (missing lead.id current wanted) in
    let b = carries-keep-other lead.id other.id id wanted w.carried different in
    let c = carries-missing-other lead.id other.id id current wanted different in
    (has_opportunity-carry lead rows w id, ground arith)
