-- ===== src/Leads/Sync/Outage.antt =====
-- A destination that refuses every call: how a lead ends up held.
use lead_discovery_rader.Prelude.{
  ℕ, ◌+◌, ◌≤◌, ◌≡◌, refl, String, Option, none, some, List, [], ◌∷◌, Bool, true, false, arith, All,
  All-map, length,
}
use lead_discovery_rader.Leads.Model.{
  CrmLeadStatus, held, Business, CrmLead, World, Settings, get_business, set_lead,
}
use lead_discovery_rader.Leads.Gate.{
  Eligibility, eligibility, is_suppressed, active_suppressions_for, approved_opportunities,
  non_empty,
}
use lead_discovery_rader.Leads.Schedule.{with_status}
use lead_discovery_rader.Leads.Sync.{
  Failure, raised, CrmCall, CrmAdapter, Builder, Sync, carried_of, after_failure, fail,
  link_existing, sync_ready, sync_gated, sync_business, sync_lead,
}

-- The search for an existing record always fails.
abbrev pub IsDown : {CrmRecord : Type 0} → CrmAdapter CrmRecord → Failure → Type 0
IsDown {CrmRecord} crm failure =
    (calls : List (CrmCall CrmRecord)) (id : ℕ) (domain phone : Option String)
    → crm.find_by_keys calls id domain phone ≡ raised failure

-- The tables that the gate reads are as they were.
pub record IsSameGate (w w' : World) : Type 0 where
  pub businesses : w'.businesses ≡ w.businesses
  pub opportunities : w'.opportunities ≡ w.opportunities
  pub suppressions : w'.suppressions ≡ w.suppressions
  pub carried : w'.carried ≡ w.carried

eligibility-same :
    (settings : Settings) (business : Business) (now : ℕ) (ignore_delay : Bool) (carried : List ℕ)
    (w w' : World)
    → IsSameGate w w'
    → eligibility settings business now ignore_delay carried w'
      ≡ eligibility settings business now ignore_delay carried w
unfolding eligibility is_suppressed active_suppressions_for approved_opportunities
eligibility-same settings business now ignore_delay carried w w' same =
    rw (same.opportunities, same.suppressions) refl

module _ {CrmRecord : Type 0} (settings : Settings) (builder : Builder CrmRecord)
    (crm : CrmAdapter CrmRecord) (actor_id : Option ℕ) where
  -- One failed sync of a lead that the CRM has never seen.
  record HasFailed (lead : CrmLead) (w : World) (after : Sync CrmRecord) : Type 0 where
    attempts : after.lead.attempts ≡ lead.attempts + 1
    external_id : after.lead.external_id ≡ none
    id : after.lead.id ≡ lead.id
    business_id : after.lead.business_id ≡ lead.business_id
    held_at_last : settings.crm_sync_max_attempts ≤ lead.attempts + 1 → after.lead.status ≡ held
    same : IsSameGate w after.world

  sync_ready-HasFailed :
      (now : ℕ) (failure : Failure) (state : Eligibility) (business : Business) (lead : CrmLead)
      (calls : List (CrmCall CrmRecord)) (w : World)
      → IsDown crm failure
      → lead.external_id ≡ none
      → HasFailed lead w (sync_ready settings builder crm actor_id now state business lead calls w)
  unfolding sync_ready link_existing fail after_failure
  sync_ready-HasFailed now failure state business lead calls w down e =
      let d = down calls business.id business.domain (builder.format_phone business.phone_e164) in
      record {
        attempts = ground arith;
        external_id = ground arith;
        id = ground arith;
        business_id = ground arith;
        held_at_last = λ h. ground arith;
        same = record {
          businesses = ground arith;
          opportunities = ground arith;
          suppressions = ground arith;
          carried = ground arith;
        };
      }

  -- The gate lets the lead through at that time.
  pub record IsSendable (now : ℕ) (business : Business) (lead : CrmLead) (w : World) : Type 0 where
    pub not_suppressed : is_suppressed business w ≡ false
    pub some_approved :
        non_empty (eligibility settings business now false (carried_of lead w) w).approved ≡ true
    pub some_ready :
        non_empty (eligibility settings business now false (carried_of lead w) w).ready ≡ true

  sync_gated-HasFailed :
      (now : ℕ) (failure : Failure) (state : Eligibility) (business : Business) (lead : CrmLead)
      (calls : List (CrmCall CrmRecord)) (w : World)
      → IsDown crm failure
      → lead.external_id ≡ none
      → state.suppressed ≡ false
      → non_empty state.approved ≡ true
      → non_empty state.ready ≡ true
      → HasFailed lead w (sync_gated settings builder crm actor_id now state business lead calls w)
  unfolding sync_gated
  sync_gated-HasFailed now failure state business lead calls w down e s a r =
      let h = sync_ready-HasFailed now failure state business lead calls w down e in
      record {
        attempts = ground (arith, h.attempts);
        external_id = ground (arith, h.external_id);
        id = ground (arith, h.id);
        business_id = ground (arith, h.business_id);
        held_at_last = λ m. ground (arith, h.held_at_last m);
        same = record {
          businesses = ground (arith, h.same.businesses);
          opportunities = ground (arith, h.same.opportunities);
          suppressions = ground (arith, h.same.suppressions);
          carried = ground (arith, h.same.carried);
        };
      }

  sync_lead-HasFailed :
      (now : ℕ) (failure : Failure) (business : Business) (lead : CrmLead)
      (calls : List (CrmCall CrmRecord)) (w : World)
      → IsDown crm failure
      → lead.external_id ≡ none
      → get_business lead.business_id w ≡ some business
      → IsSendable now business lead w
      → HasFailed lead w (sync_lead settings builder crm actor_id now false lead calls w)
  unfolding sync_lead sync_business eligibility
  sync_lead-HasFailed now failure business lead calls w down e b sendable =
      let lead' = with_status CrmLeadStatus.syncing none lead in
      let state = eligibility settings business now false (carried_of lead w) w in
      let h =
        sync_gated-HasFailed now failure state business lead' calls (set_lead lead' w) down e
          sendable.not_suppressed sendable.some_approved sendable.some_ready in
      rw b (record {
        attempts = h.attempts;
        external_id = h.external_id;
        id = h.id;
        business_id = h.business_id;
        held_at_last = h.held_at_last;
        same = record {
          businesses = h.same.businesses;
          opportunities = h.same.opportunities;
          suppressions = h.same.suppressions;
          carried = h.same.carried;
        };
      })

  -- The syncs of one lead, one at each of the times.
  abbrev pub tries : List ℕ → CrmLead → List (CrmCall CrmRecord) → World → Sync CrmRecord
  tries [] lead calls w = record { lead = lead; world = w; calls = calls }
  tries (now ∷ times) lead calls w =
      let after = sync_lead settings builder crm actor_id now false lead calls w in
      tries times after.lead after.calls after.world

  IsSendable-still :
      (now : ℕ) (business : Business) (lead lead' : CrmLead) (w w' : World)
      → lead'.id ≡ lead.id
      → IsSameGate w w'
      → IsSendable now business lead w
      → IsSendable now business lead' w'
  unfolding is_suppressed active_suppressions_for
  IsSendable-still now business lead lead' w w' i same sendable =
      let ids : carried_of lead' w' ≡ carried_of lead w = rw (i, same.carried) refl in
      let gate = eligibility-same settings business now false (carried_of lead w) w w' same in
      record {
        not_suppressed = rw (same.suppressions) sendable.not_suppressed;
        some_approved = rw (ids, gate) sendable.some_approved;
        some_ready = rw (ids, gate) sendable.some_ready;
      }

  IsSendable-each :
      (times : List ℕ) (business : Business) (lead lead' : CrmLead) (w w' : World)
      → lead'.id ≡ lead.id
      → IsSameGate w w'
      → All (λ now. IsSendable now business lead w) times
      → All (λ now. IsSendable now business lead' w') times
  IsSendable-each times business lead lead' w w' i same sendable =
      All-map times (λ now. IsSendable-still now business lead lead' w w' i same) sendable

  -- While the destination refuses every search, a lead that was never in the CRM, of a business that the
  -- gate lets through at each of the times, is held once it has been tried as often as the settings
  -- allow, the failures before counted, and each try is counted.
  pub tries-held :
      (failure : Failure) (business : Business) (now : ℕ) (times : List ℕ) (lead : CrmLead)
      (calls : List (CrmCall CrmRecord)) (w : World)
      → IsDown crm failure
      → lead.external_id ≡ none
      → get_business lead.business_id w ≡ some business
      → All (λ at. IsSendable at business lead w) (now ∷ times)
      → settings.crm_sync_max_attempts ≤ lead.attempts + length (now ∷ times)
      → let after = tries (now ∷ times) lead calls w in
        (after.lead.status ≡ held) × (after.lead.attempts ≡ lead.attempts + length (now ∷ times))
  tries-held failure business now [] lead calls w down e b (sendable, rest) enough =
      let h = sync_lead-HasFailed now failure business lead calls w down e b sendable in
      (h.held_at_last enough, h.attempts)
  tries-held failure business now (next ∷ times) lead calls w down e b (sendable, rest) enough =
      let h = sync_lead-HasFailed now failure business lead calls w down e b sendable in
      let after = sync_lead settings builder crm actor_id now false lead calls w in
      let b' : get_business after.lead.business_id after.world ≡ some business =
        rw (h.business_id, h.same.businesses) b in
      let more =
        tries-held failure business next times after.lead after.calls after.world down h.external_id
          b'
          (IsSendable-each (next ∷ times) business lead after.lead w after.world h.id h.same rest)
          (ground (arith, h.attempts, enough)) in
      (more.0, ground (arith, more.1, h.attempts))
