-- ===== src/Leads/Tests/Crm.antt =====
-- One approved opportunity on its way to a destination, and the theorems on the CRM record at inputs
-- that meet their hypotheses.
use lead_discovery_rader.Prelude.{
  ℕ, ◌+◌, ◌≤◌, ◌≡◌, refl, ◌≢◌, none, some, List, [], ◌∷◌, ◌++◌, Bool, true, false, arith, ◌⊎◌,
  by_id, find_first, All, length, if◌then◌else◌,
}
use lead_discovery_rader.Leads.Model
use lead_discovery_rader.Leads.Model.{
  ReviewStatus, same_review_status, CrmLeadStatus, Business, Opportunity, CrmLead, Suppression,
  World, Settings, get_business,
}
use lead_discovery_rader.Leads.Gate.{
  eligibility, is_eligible, is_suppressed, approved_opportunities, by_strength, non_empty, earliest,
  has_opportunity,
}
use lead_discovery_rader.Leads.Schedule.{get_lead, new_lead, on_business_changed}
use lead_discovery_rader.Leads.Schedule.Due.{on_business_changed-due}
use lead_discovery_rader.Leads.Sync.{
  Failure, Outcome, returned, raised, CrmResult, CrmAdapter, Builder, Sync, carried_of, ids_of,
  sync_lead,
}
use lead_discovery_rader.Leads.Sync.Gate.{upserts, IsSent, IsReady, sync_lead-IsSent}
use lead_discovery_rader.Leads.Sync.Again.{sync_lead-again}
use lead_discovery_rader.Leads.Sync.Outage.{IsSendable, tries, tries-held}
use lead_discovery_rader.Leads.Sync.Suppressed.{IsFlagged, sync_lead-IsFlagged}
use lead_discovery_rader.Leads.Worker.{sync_due}
use lead_discovery_rader.Leads.Worker.Sent.{sync_due-at_most}
use lead_discovery_rader.Leads.Tests.{settings, bakery, redesign, booking, radar}

abbrev approved_redesign : Opportunity
approved_redesign = record redesign {
  review_status = ReviewStatus.approved;
  decided_at = some 1000;
  decided_by = some 1;
  lock_version = 2;
}

abbrev approved_radar : World
approved_radar = record radar { opportunities = approved_redesign ∷ booking ∷ [] }

-- A record that holds the ids of the opportunities.
abbrev builder : Builder (List ℕ)
builder = record {
  build_record = λ business rows decisions users. ids_of rows;
  payload_hash = λ built. if has_opportunity 3 built then "redesign" else "empty";
  format_phone = λ phone. phone;
}

abbrev accepted : Outcome CrmResult
accepted = returned (record { external_id = "rec1"; external_url = none })

abbrev open_crm : CrmAdapter (List ℕ)
open_crm = record {
  upsert = λ calls built id. accepted;
  find_by_keys = λ calls id domain phone. returned none;
  mark_do_not_contact = λ calls id flag. accepted;
  withdraw = λ calls id. accepted;
}

abbrev timeout : Failure
timeout = record {
  message = "CrmTransientError: timeout";
  retryable = true;
  http_status = none;
  retry_after_seconds = none;
}

abbrev closed_crm : CrmAdapter (List ℕ)
closed_crm = record open_crm { find_by_keys = λ calls id domain phone. raised timeout }

abbrev lead : CrmLead
lead = new_lead 2 "fake" 1600 approved_radar

abbrev scheduled_radar : World
scheduled_radar = record approved_radar { crm_leads = lead ∷ []; next_id = 6 }

bakery_found : get_business 2 scheduled_radar ≡ some bakery
unfolding by_id find_first
bakery_found = refl

bakery_open : is_suppressed bakery scheduled_radar ≡ false
unfolding is_suppressed
bakery_open = refl

on_business_changed-due_example :
    let after = on_business_changed settings none 1010 true 2 approved_radar in
    (due : ℕ) × (after.crm_leads ≡ [] ++ (new_lead 2 "fake" due approved_radar ∷ []))
    × (1010 ≤ due)
    × (let gate_then = eligibility settings bakery due false [] after in
        (is_eligible gate_then ≡ true) × (non_empty gate_then.ready ≡ true))
unfolding by_id find_first get_lead is_suppressed earliest approved_opportunities by_strength
    same_review_status
on_business_changed-due_example =
    on_business_changed-due settings none 1010 true bakery 2 1000 approved_radar refl refl refl refl

sync_lead-IsSent_example :
    let after =
      (sync_lead settings builder open_crm none 1600 false lead [] scheduled_radar).calls in
    (upserts after ≡ [])
    ⊎ ((business : Business) × (get_business 2 scheduled_radar ≡ some business)
        × (let state =
              eligibility settings business 1600 false
                (carried_of lead scheduled_radar)
                scheduled_radar in
            IsSent settings builder open_crm none 1600 business state (ids_of state.ready) [] after
            × All
                (IsReady settings 1600 false (carried_of lead scheduled_radar) business)
                state.ready))
sync_lead-IsSent_example =
    sync_lead-IsSent settings builder open_crm none 1600 false lead [] scheduled_radar

abbrev unwanted : Suppression
unwanted = record {
  id = 7;
  business_id = none;
  domain = some "bakery.example";
  phone_e164 = none;
  reason = "asked by mail";
  source = Model.SuppressionSource.admin;
  created_by = 1;
  created_at = 1500;
  lifted_at = none;
  lifted_by = none;
}

abbrev suppressed_radar : World
suppressed_radar = record scheduled_radar { suppressions = unwanted ∷ [] }

abbrev sent_lead : CrmLead
sent_lead = record lead { external_id = some "crm-1" }

sync_lead-IsFlagged_example :
    IsFlagged settings.crm_sync_max_attempts open_crm sent_lead []
      (sync_lead settings builder open_crm none 1600 false sent_lead [] suppressed_radar)
unfolding by_id find_first is_suppressed
sync_lead-IsFlagged_example =
    sync_lead-IsFlagged settings builder open_crm none 1600 false sent_lead [] suppressed_radar
      bakery refl refl

abbrev first : Sync (List ℕ)
first = sync_lead settings builder open_crm none 1600 false lead [] scheduled_radar

first_synced : first.lead.status ≡ CrmLeadStatus.synced
unfolding sync_lead by_id find_first eligibility is_suppressed approved_opportunities by_strength
    same_review_status
first_synced = refl

sync_lead-again_example :
    let again =
      sync_lead settings builder open_crm none 9000 true first.lead first.calls first.world in
    (again.calls ≡ first.calls)
    × (again.lead.external_id ≡ first.lead.external_id)
    × (again.lead.status ≡ CrmLeadStatus.synced)
unfolding approved_opportunities eligibility by_strength same_review_status
sync_lead-again_example =
    sync_lead-again settings builder open_crm none 1600 9000 false true bakery lead []
      scheduled_radar bakery_found bakery_open refl refl first_synced

IsSendable-at_1600 : IsSendable settings builder closed_crm none 1600 bakery lead scheduled_radar
unfolding eligibility approved_opportunities by_strength same_review_status
IsSendable-at_1600 = record {
  not_suppressed = bakery_open;
  some_approved = refl;
  some_ready = refl;
}

IsSendable-at_1660 : IsSendable settings builder closed_crm none 1660 bakery lead scheduled_radar
unfolding eligibility approved_opportunities by_strength same_review_status
IsSendable-at_1660 = record {
  not_suppressed = bakery_open;
  some_approved = refl;
  some_ready = refl;
}

IsSendable-at_1780 : IsSendable settings builder closed_crm none 1780 bakery lead scheduled_radar
unfolding eligibility approved_opportunities by_strength same_review_status
IsSendable-at_1780 = record {
  not_suppressed = bakery_open;
  some_approved = refl;
  some_ready = refl;
}

tries-held_example :
    let after =
      tries settings builder closed_crm none (1600 ∷ 1660 ∷ 1780 ∷ []) lead [] scheduled_radar in
    (after.lead.status ≡ CrmLeadStatus.held) × (after.lead.attempts ≡ 3)
tries-held_example =
    tries-held settings builder closed_crm none timeout bakery 1600 (1660 ∷ 1780 ∷ []) lead []
      scheduled_radar (λ calls id domain phone. refl) refl bakery_found
      (IsSendable-at_1600, (IsSendable-at_1660, (IsSendable-at_1780, tt))) (omega arith)

six_is_not_five : ◌≢◌ {A = ℕ} 6 5
six_is_not_five = omega arith

sync_due-at_most_example :
    let after = sync_due settings builder open_crm 1600 100 [] scheduled_radar in
    (after.0 ≤ 100)
    × (length (upserts after.2) ≤ 0 + after.0)
    × ((◌≡◌ {A = Bool} true true) ⊎ (after ≡ (0, scheduled_radar, [])))
sync_due-at_most_example = sync_due-at_most settings builder open_crm 1600 100 [] scheduled_radar
