-- ===== src/Leads/Schedule.antt =====
-- `on_business_changed` of modules/crm/service.py and what it calls: what a change to a business
-- schedules for its CRM record.
pub mod Frames
pub mod Due
use lead_discovery_rader.Prelude.{
  ℕ, ◌+◌, String, Option, none, some, List, [], ◌∷◌, ◌++◌, Bool, true, false, not, ◌&&◌, ◌==◌,
  ◌==ₛ◌, min, max, if◌then◌else◌, find_first,
}
use lead_discovery_rader.Leads.Model
use lead_discovery_rader.Leads.Model.{
  CrmLeadStatus, scheduled, cancelled, same_lead_status, Business, CrmLead, Reason, approval,
  change, suppressed, no_approved_opportunity, Event, crm_scheduled, crm_cancelled, World, Settings,
  get_business, set_lead, record_audit,
}
use lead_discovery_rader.Leads.Gate.{
  Eligibility, is_eligible, eligibility, earliest, non_empty, delay_of,
}

unfoldable pub get_lead : ℕ → String → World → Option CrmLead
get_lead business_id destination w =
    find_first (λ lead. (lead.business_id == business_id) && (lead.destination ==ₛ destination))
      w.crm_leads

abbrev or_else : Option ℕ → ℕ → ℕ
or_else none now = now
or_else (some at) now = at

unfoldable pub first_due : Eligibility → ℕ → ℕ → ℕ
unfolding earliest
first_due state now delay =
    if non_empty state.ready then now else max (or_else (earliest state.approved) now + delay) now

abbrev pub with_status : CrmLeadStatus → Option ℕ → CrmLead → CrmLead
with_status status due_at lead = record lead { status = status; due_at = due_at }

unfoldable pub reschedule : CrmLead → ℕ → Option ℕ → Reason → World → World
reschedule lead due actor_id reason w =
    record_audit (crm_scheduled reason (some lead.status) (some due)) lead.id actor_id (
      set_lead (record (with_status scheduled (some due) lead) { attempts = 0; last_error = none })
        w)

-- A new row with the next id.
abbrev pub new_lead : ℕ → String → ℕ → World → CrmLead
new_lead business_id destination due w = record {
  id = w.next_id;
  business_id = business_id;
  destination = destination;
  external_id = none;
  external_url = none;
  status = scheduled;
  due_at = some due;
  attempts = 0;
  last_error = none;
  payload_hash = none;
  last_synced_at = none;
  export_batch_id = none;
  do_not_contact_sent = false;
}

abbrev pub add_lead : CrmLead → World → World
add_lead lead w = record w { crm_leads = w.crm_leads ++ (lead ∷ []); next_id = w.next_id + 1 }

-- `min(lead.due_at, due)` where the lead is already scheduled.
abbrev sooner : CrmLead → ℕ → ℕ
sooner lead due =
    if same_lead_status lead.status scheduled
    then (elim lead.due_at [ none ↦ due | some at ↦ min at due ])
    else due

abbrev why : Bool → Reason
why is_approval = if is_approval then approval else change

module _ (settings : Settings) (actor_id : Option ℕ) (now : ℕ) (is_approval : Bool) where
  -- No lead yet.
  schedule_new : Eligibility → Business → World → World
  unfolding is_eligible first_due
  schedule_new state business w =
      let lead =
        new_lead business.id settings.crm_destination (first_due state now (delay_of settings)) w in
      if not (is_eligible state)
      then w
      else record_audit (crm_scheduled approval none none) lead.id actor_id (add_lead lead w)

  cancel_unsent : Eligibility → CrmLead → World → World
  unfolding same_lead_status
  cancel_unsent state lead w =
      if same_lead_status lead.status cancelled
      then w
      else record_audit
          (crm_cancelled (if state.suppressed then suppressed else no_approved_opportunity)) lead.id
          actor_id (set_lead (with_status cancelled none lead) w)

  -- A lead that the CRM has never seen.
  change_unsent : Eligibility → CrmLead → World → World
  unfolding is_eligible first_due same_lead_status cancel_unsent reschedule
  change_unsent state lead w =
      if not (is_eligible state)
      then cancel_unsent state lead w
      else reschedule lead (sooner lead (first_due state now (delay_of settings))) actor_id
          (why is_approval) w

  -- A lead that is already in the CRM.
  change_sent : Eligibility → CrmLead → World → World
  unfolding first_due same_lead_status reschedule
  change_sent state lead w =
      let due =
        if is_approval && not (non_empty state.ready)
        then first_due state now (delay_of settings)
        else now in
      reschedule lead (sooner lead due) actor_id (why is_approval) w

  change_lead : Option CrmLead → Eligibility → Business → World → World
  unfolding schedule_new change_unsent change_sent
  change_lead none state business w = schedule_new state business w
  change_lead (some lead) state business w = elim lead.external_id [
    | none ↦ change_unsent state lead w
    | some external_id ↦ change_sent state lead w
  ]

  change_business : Option Business → World → World
  unfolding change_lead get_lead
  change_business none w = w
  change_business (some business) w =
      change_lead (get_lead business.id settings.crm_destination w)
        (eligibility settings business now false [] w) business w

  unfoldable pub on_business_changed : ℕ → World → World
  unfolding change_business
  on_business_changed business_id w = change_business (get_business business_id w) w
