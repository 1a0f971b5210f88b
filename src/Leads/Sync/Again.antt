-- ===== src/Leads/Sync/Again.antt =====
-- A sync of what is already in the CRM.
use mathlib.Core.Path.{subst}
use lead_discovery_rader.Prelude.{
  ℕ, ◌≡◌, refl, sym, ap, ◌∙◌, String, Option, none, some, List, [], ◌∷◌, Bool, true, false, not,
  arith, All, All-map, keep,
}
use lead_discovery_rader.Leads.Model.{
  CrmLeadStatus, syncing, synced, Business, Opportunity, CrmLead, World, Settings, get_business,
  set_lead,
}
use lead_discovery_rader.Leads.Gate.{
  Eligibility, eligibility, is_suppressed, active_suppressions_for, approved_opportunities,
  non_empty, has_opportunity, is_ready, delay_of, earliest,
}
use lead_discovery_rader.Leads.Schedule.{with_status}
use lead_discovery_rader.Leads.Sync.{
  CrmCall, CrmAdapter, Builder, Sync, carried_of, ids_of, carry, sync_gated, sync_business,
  sync_lead,
}
use lead_discovery_rader.Leads.Sync.Carry.{has_opportunity-carry}
use lead_discovery_rader.Leads.Sync.InStep.{
  IsInStep, sync_ready-IsInStep, sync_gated-ready, sync_ready-cases, sync_record-again,
}

has_id-here : (xs : List Opportunity) → All (λ o. has_opportunity o.id (ids_of xs) ≡ true) xs
has_id-here [] = tt
has_id-here (x ∷ xs) = (ground arith, All-map xs (λ o h. ground arith) (has_id-here xs))

keep-All :
    (p : Opportunity → Bool) (xs : List Opportunity) → All (λ o. p o ≡ true) xs → keep p xs ≡ xs
keep-All p [] h = refl
keep-All p (x ∷ xs) (px, h) = rw (px, keep-All p xs h) refl

keep-none :
    (p : Opportunity → Bool) (xs : List Opportunity)
    → All (λ o. p o ≡ true) xs
    → keep (λ o. not (p o)) xs ≡ []
keep-none p [] h = refl
keep-none p (x ∷ xs) (px, h) = rw (px, keep-none p xs h) refl

-- Where the record carries every approval, each of them is ready and none is waited for.
eligibility-carried :
    (settings : Settings) (business : Business) (now : ℕ) (ignore_delay : Bool) (carried : List ℕ)
    (w : World)
    → let approved = approved_opportunities business.id w in
      All (λ o. has_opportunity o.id carried ≡ true) approved
      → let state = eligibility settings business now ignore_delay carried w in
        (state.ready ≡ approved) × (state.next_ready_at ≡ none)
unfolding eligibility earliest
eligibility-carried settings business now true carried w h = (refl, refl)
eligibility-carried settings business now false carried w h =
    let approved = approved_opportunities business.id w in
    let ready =
      All-map {Q = λ (o : Opportunity). is_ready now (delay_of settings) carried o ≡ true} approved
        (λ o has. ground arith) h in
    (
      keep-All (is_ready now (delay_of settings) carried) approved ready,
      rw (keep-none (is_ready now (delay_of settings) carried) approved ready) refl,
    )

eligibility-suppressed :
    (settings : Settings) (business : Business) (now : ℕ) (ignore_delay : Bool) (carried : List ℕ)
    (w : World)
    → (eligibility settings business now ignore_delay carried w).suppressed
      ≡ is_suppressed business w
unfolding eligibility
eligibility-suppressed settings business now ignore_delay carried w = refl

eligibility-approved :
    (settings : Settings) (business : Business) (now : ℕ) (ignore_delay : Bool) (carried : List ℕ)
    (w : World)
    → non_empty (approved_opportunities business.id w) ≡ true
    → non_empty (eligibility settings business now ignore_delay carried w).approved ≡ true
unfolding eligibility
eligibility-approved settings business now ignore_delay carried w h = h

same_gate :
    (business : Business) (w w' : World)
    → w'.opportunities ≡ w.opportunities
    → w'.suppressions ≡ w.suppressions
    → (approved_opportunities business.id w' ≡ approved_opportunities business.id w)
      × (is_suppressed business w' ≡ is_suppressed business w)
unfolding approved_opportunities is_suppressed active_suppressions_for
same_gate business w w' o s = (rw o refl, rw s refl)

module _ {CrmRecord : Type 0} (settings : Settings) (builder : Builder CrmRecord)
    (crm : CrmAdapter CrmRecord) (actor_id : Option ℕ) where
  gated-IsInStep :
      (now : ℕ) (state : Eligibility) (business : Business) (lead : CrmLead)
      (calls : List (CrmCall CrmRecord)) (w : World)
      → state.suppressed ≡ false
      → non_empty state.approved ≡ true
      → non_empty state.ready ≡ true
      → let after = sync_gated settings builder crm actor_id now state business lead calls w in
        after.lead.status ≡ synced
        → IsInStep settings builder crm actor_id business state.ready lead w after
  gated-IsInStep now state business lead calls w s a r =
      let goal : Sync CrmRecord → Type 0 = λ x.
        x.lead.status ≡ synced
        → IsInStep settings builder crm actor_id business state.ready lead w x in
      subst goal
        (sym (sync_gated-ready settings builder crm actor_id now state business lead calls w s a r))
        (sync_ready-IsInStep settings builder crm actor_id now state business lead calls w)

  -- What the first sync leaves.
  first_sync-IsInStep :
      (now : ℕ) (ignore_delay : Bool) (business : Business) (lead : CrmLead)
      (calls : List (CrmCall CrmRecord)) (w : World)
      → get_business lead.business_id w ≡ some business
      → is_suppressed business w ≡ false
      → let state = eligibility settings business now ignore_delay (carried_of lead w) w in
        let after = sync_lead settings builder crm actor_id now ignore_delay lead calls w in
        non_empty state.approved ≡ true
        → non_empty state.ready ≡ true
        → after.lead.status ≡ synced
        → IsInStep settings builder crm actor_id business state.ready lead w after
  unfolding sync_lead sync_business eligibility carry
  first_sync-IsInStep now ignore_delay business lead calls w b s = rw b (λ a r h.
      let lead' = with_status CrmLeadStatus.syncing none lead in
      let state = eligibility settings business now ignore_delay (carried_of lead w) w in
      let step = gated-IsInStep now state business lead' calls (set_lead lead' w) s a r h in
      record {
        external_id = step.external_id;
        payload_hash = step.payload_hash;
        unflagged = step.unflagged;
        id = step.id;
        business_id = step.business_id;
        businesses = step.businesses;
        users = step.users;
        opportunities = step.opportunities;
        decisions = step.decisions;
        suppressions = step.suppressions;
        carried = step.carried;
      })

  -- A sync of a lead whose record is in step with every approval.
  gated-again :
      (now : ℕ) (state : Eligibility) (business : Business) (lead : CrmLead)
      (calls : List (CrmCall CrmRecord)) (w : World) (id : String)
      → state.suppressed ≡ false
      → non_empty state.approved ≡ true
      → non_empty state.ready ≡ true
      → state.next_ready_at ≡ none
      → lead.external_id ≡ some id
      → lead.payload_hash
        ≡ some
            (builder.payload_hash (builder.build_record business state.ready w.decisions w.users))
      → lead.do_not_contact_sent ≡ false
      → lead.status ≡ syncing
      → let after = sync_gated settings builder crm actor_id now state business lead calls w in
        (after.calls ≡ calls)
        × (after.lead.external_id ≡ lead.external_id)
        × (after.lead.status ≡ synced)
  gated-again now state business lead calls w id s a r n e p f st =
      let (kept, same_id, same_hash, done) =
        sync_record-again settings builder crm actor_id now state business lead calls w id e p f
          st in
      let goal : Sync CrmRecord → Type 0 = λ x.
        (x.calls ≡ calls) × (x.lead.external_id ≡ lead.external_id) × (x.lead.status ≡ synced) in
      subst goal
        (sym (
          sync_gated-ready settings builder crm actor_id now state business lead calls w s a r
          ∙ (sync_ready-cases settings builder crm actor_id now state business lead calls w).1 id
              e))
        (kept, same_id, done n)

  -- The approvals are all carried after the first sync.
  All-carried :
      (business : Business) (lead : CrmLead) (w : World) (s : Sync CrmRecord)
      → IsInStep settings builder crm actor_id business
          (approved_opportunities business.id w)
          lead
          w
          s
      → All
          (λ o. has_opportunity o.id (carried_of s.lead s.world) ≡ true)
          (approved_opportunities business.id s.world)
  All-carried business lead w s step =
      let rows = approved_opportunities business.id w in
      let same = (same_gate business w s.world step.opportunities step.suppressions).0 in
      let carried : carried_of s.lead s.world ≡ carried_of lead (carry lead rows w) =
        rw (step.id, step.carried) refl in
      rw (same, carried)
        (All-map rows (λ o here. has_opportunity-carry lead rows w o.id ∙ here) (has_id-here rows))

  second_sync :
      (later : ℕ) (ignore_then : Bool) (business : Business) (lead : CrmLead) (w : World)
      (s : Sync CrmRecord)
      → get_business lead.business_id w ≡ some business
      → is_suppressed business w ≡ false
      → non_empty (approved_opportunities business.id w) ≡ true
      → IsInStep settings builder crm actor_id business
          (approved_opportunities business.id w)
          lead
          w
          s
      → let again =
          sync_lead settings builder crm actor_id later ignore_then s.lead s.calls s.world in
        (again.calls ≡ s.calls)
        × (again.lead.external_id ≡ s.lead.external_id)
        × (again.lead.status ≡ synced)
  unfolding sync_lead sync_business
  second_sync later ignore_then business lead w s b unsuppressed a step =
      let (same, quiet) = same_gate business w s.world step.opportunities step.suppressions in
      let b' : get_business s.lead.business_id s.world ≡ some business =
        rw (step.business_id, step.businesses) b in
      let state =
        eligibility settings business later ignore_then (carried_of s.lead s.world) s.world in
      let (ready, none_waits) =
        eligibility-carried settings business later ignore_then (carried_of s.lead s.world) s.world
          (All-carried business lead w s step) in
      let rows : state.ready ≡ approved_opportunities business.id w = ready ∙ same in
      let lead' = with_status CrmLeadStatus.syncing none s.lead in
      rw b' (
        gated-again later state business lead' s.calls (set_lead lead' s.world) step.external_id.0
          (eligibility-suppressed settings business later ignore_then (carried_of s.lead s.world)
              s.world
            ∙ quiet
            ∙ unsuppressed)
          (eligibility-approved settings business later ignore_then (carried_of s.lead s.world)
            s.world (ap non_empty same ∙ a))
          (ap non_empty rows ∙ a) none_waits step.external_id.1
          (step.payload_hash ∙ rw (rows, step.decisions, step.users) refl) step.unflagged refl)

  -- A sync that brings the CRM in step with every approval of a business that is not suppressed, and
  -- that goes through, is not repeated: the next sync, at any time, makes no call, keeps the record's id
  -- and ends as synced.
  pub sync_lead-again :
      (now later : ℕ) (ignore_delay ignore_then : Bool) (business : Business) (lead : CrmLead)
      (calls : List (CrmCall CrmRecord)) (w : World)
      → get_business lead.business_id w ≡ some business
      → is_suppressed business w ≡ false
      → let state = eligibility settings business now ignore_delay (carried_of lead w) w in
        let first = sync_lead settings builder crm actor_id now ignore_delay lead calls w in
        let again =
          sync_lead settings builder crm actor_id later ignore_then first.lead first.calls
            first.world in
        non_empty (approved_opportunities business.id w) ≡ true
        → state.ready ≡ approved_opportunities business.id w
        → first.lead.status ≡ synced
        → (again.calls ≡ first.calls)
          × (again.lead.external_id ≡ first.lead.external_id)
          × (again.lead.status ≡ synced)
  sync_lead-again now later ignore_delay ignore_then business lead calls w b s a r h =
      let first = sync_lead settings builder crm actor_id now ignore_delay lead calls w in
      let some_ready = ap non_empty r ∙ a in
      let step =
        first_sync-IsInStep now ignore_delay business lead calls w b s
          (eligibility-approved settings business now ignore_delay (carried_of lead w) w a)
          some_ready h in
      second_sync later ignore_then business lead w first b s a
        (subst (λ rows. IsInStep settings builder crm actor_id business rows lead w first) r step)
