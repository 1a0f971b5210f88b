-- ===== src/Leads/Worker.antt =====
-- What the worker and the buttons call of modules/crm/service.py: `sync_due`, `sync_now`, `retry` and
-- `sync_all`. A lead that a loop has read is the row as it is now, so the loops go over its id.
pub mod Sent
use lead_discovery_rader.Prelude.{
  ℕ, ◌+◌, String, Option, none, some, List, [], ◌∷◌, ◌++◌, Bool, true, false, not, ◌&&◌, ◌||◌, ltb,
  leb, ◌==◌, ◌==ₛ◌, any, keep, map, by_id, take, length, if◌then◌else◌,
}
use lead_discovery_rader.Leads.Model.{
  CrmLeadStatus, scheduled, same_lead_status, Business, CrmLead, send_now, crm_scheduled, World,
  Settings, get_business, record_audit,
}
use lead_discovery_rader.Leads.Gate.{eligibility, is_eligible, is_none, is_suppressed, approved_for}
use lead_discovery_rader.Leads.Schedule.{get_lead, new_lead, add_lead}
use lead_discovery_rader.Leads.Sync.{CrmCall, CrmAdapter, Builder, Sync, sync_lead}

pub data Exc : Type 0 where
  business_not_found not_eligible crm_lead_not_found not_held : Exc

pub data Result {ℓ} (A : Type ℓ) : Type ℓ where
  ok : A → Result A
  err : Exc → Result A

abbrev pub lead_by_id : ℕ → World → Option CrmLead
lead_by_id id w = by_id (λ (lead : CrmLead). lead.id) id w.crm_leads

abbrev at_destination : String → CrmLead → Bool
at_destination destination lead = lead.destination ==ₛ destination

abbrev pub is_due : ℕ → CrmLead → Bool
is_due now lead =
    same_lead_status lead.status scheduled
    && elim lead.due_at [ none ↦ false | some at ↦ leb at now ]

-- `order_by(due_at.asc(), id.asc())`, where nulls come last.
abbrev due_first : Option ℕ → Option ℕ → ℕ → ℕ → Bool
due_first none none i j = leb i j
due_first none (some t) i j = false
due_first (some s) none i j = true
due_first (some s) (some t) i j = if s == t then leb i j else ltb s t

-- `order_by(due_at.asc().nulls_last(), id.asc())`
abbrev due_before : CrmLead → CrmLead → Bool
due_before a b = due_first a.due_at b.due_at a.id b.id

insert_due : CrmLead → List CrmLead → List CrmLead
insert_due x [] = x ∷ []
insert_due x (y ∷ ys) = if due_before x y then x ∷ y ∷ ys else y ∷ insert_due x ys

unfoldable pub by_due : List CrmLead → List CrmLead
unfolding insert_due
by_due [] = []
by_due (x ∷ xs) = insert_due x (by_due xs)

unfoldable pub due_leads : ℕ → String → ℕ → World → List CrmLead
unfolding by_due
due_leads now destination limit w = take limit (
    by_due (
      keep (λ (lead : CrmLead). (lead.destination ==ₛ destination) && is_due now lead) w.crm_leads))

-- What `sync_all` counts.
pub record SyncAllResult : Type 0 where
  pub considered : ℕ
  pub synced : ℕ
  pub held : ℕ
  pub scheduled : ℕ
  pub cancelled : ℕ

abbrev pub tally : CrmLeadStatus → SyncAllResult → SyncAllResult
tally CrmLeadStatus.synced r = record r { synced = r.synced + 1 }
tally CrmLeadStatus.withdrawn r = record r { synced = r.synced + 1 }
tally CrmLeadStatus.held r = record r { held = r.held + 1 }
tally CrmLeadStatus.scheduled r = record r { scheduled = r.scheduled + 1 }
tally CrmLeadStatus.syncing r = record r { cancelled = r.cancelled + 1 }
tally CrmLeadStatus.cancelled r = record r { cancelled = r.cancelled + 1 }

-- `order_by(created_at.asc(), id.asc())`
abbrev created_before : Business → Business → Bool
created_before a b =
    if a.created_at == b.created_at then leb a.id b.id else ltb a.created_at b.created_at

insert_business : Business → List Business → List Business
insert_business x [] = x ∷ []
insert_business x (y ∷ ys) = if created_before x y then x ∷ y ∷ ys else y ∷ insert_business x ys

by_creation : List Business → List Business
unfolding insert_business
by_creation [] = []
by_creation (x ∷ xs) = insert_business x (by_creation xs)

-- A business with an approved opportunity and no lead at the destination, which is not suppressed.
abbrev pub is_unscheduled : String → World → Business → Bool
is_unscheduled destination w business =
    any (approved_for business.id) w.opportunities
    && (is_none (get_lead business.id destination w) && not (is_suppressed business w))

add_leads : String → ℕ → List Business → World → List ℕ × World
add_leads destination now [] w = ([], w)
add_leads destination now (business ∷ rest) w =
    let (ids, w') =
      add_leads destination now rest (add_lead (new_lead business.id destination now w) w) in
    (w.next_id ∷ ids, w')

-- `_unscheduled_eligible`: the ids of the leads that it adds.
unfoldable pub unscheduled_eligible : String → ℕ → World → List ℕ × World
unfolding by_creation add_leads
unscheduled_eligible destination now w =
    add_leads destination now (by_creation (keep (is_unscheduled destination w) w.businesses)) w

module _ {CrmRecord : Type 0} (settings : Settings) (builder : Builder CrmRecord)
    (crm : CrmAdapter CrmRecord) (now : ℕ) where
  abbrev pub sync_found :
      Option ℕ
      → Bool
      → Option CrmLead
      → List (CrmCall CrmRecord)
      → World
      → World × List (CrmCall CrmRecord)
  sync_found actor_id ignore_delay none calls w = (w, calls)
  sync_found actor_id ignore_delay (some lead) calls w =
      let after = sync_lead settings builder crm actor_id now ignore_delay lead calls w in
      (after.world, after.calls)

  sync_each : List CrmLead → List (CrmCall CrmRecord) → World → World × List (CrmCall CrmRecord)
  sync_each [] calls w = (w, calls)
  sync_each (lead ∷ rest) calls w =
      let (w', calls') = sync_found none false (lead_by_id lead.id w) calls w in
      sync_each rest calls' w'

  unfoldable pub sync_due :
      ℕ → List (CrmCall CrmRecord) → World → ℕ × World × List (CrmCall CrmRecord)
  unfolding due_leads sync_each
  sync_due limit calls w =
      let rows = due_leads now settings.crm_destination limit w in
      if not settings.crm_auto_sync
      then (0, w, calls)
      else (let (w', calls') = sync_each rows calls w in (length rows, w', calls'))

  sync_scheduled : ℕ → Business → Option CrmLead → List (CrmCall CrmRecord) → World → Sync CrmRecord
  sync_scheduled actor_id business (some lead) calls w =
      sync_lead settings builder crm (some actor_id) now true lead calls w
  sync_scheduled actor_id business none calls w =
      let lead = new_lead business.id settings.crm_destination now w in
      sync_lead settings builder crm (some actor_id) now true lead calls
        (record_audit (crm_scheduled send_now none none) lead.id (some actor_id) (add_lead lead w))

  abbrev is_in_crm : Option CrmLead → Bool
  is_in_crm none = false
  is_in_crm (some lead) = not (is_none lead.external_id)

  sync_business_now :
      ℕ
      → Option Business
      → List (CrmCall CrmRecord)
      → World
      → Result CrmLead × World × List (CrmCall CrmRecord)
  unfolding is_eligible sync_scheduled
  sync_business_now actor_id none calls w = (err business_not_found, w, calls)
  sync_business_now actor_id (some business) calls w =
      let state = eligibility settings business now true [] w in
      let lead = get_lead business.id settings.crm_destination w in
      let after = sync_scheduled actor_id business lead calls w in
      if not (is_eligible state) && not (is_in_crm lead)
      then (err not_eligible, w, calls)
      else (ok after.lead, after.world, after.calls)

  -- Send now.
  unfoldable pub sync_now :
      ℕ → ℕ → List (CrmCall CrmRecord) → World → Result CrmLead × World × List (CrmCall CrmRecord)
  unfolding sync_business_now
  sync_now actor_id business_id calls w =
      sync_business_now actor_id (get_business business_id w) calls w

  abbrev first_again : CrmLead → CrmLead
  first_again lead = record lead { attempts = 0 }

  retry_lead :
      ℕ
      → Option CrmLead
      → List (CrmCall CrmRecord)
      → World
      → Result CrmLead × World × List (CrmCall CrmRecord)
  retry_lead actor_id none calls w = (err crm_lead_not_found, w, calls)
  retry_lead actor_id (some lead) calls w =
      let after =
        sync_lead settings builder crm (some actor_id) now false (first_again lead) calls w in
      if not (same_lead_status lead.status CrmLeadStatus.held)
      then (err not_held, w, calls)
      else (ok after.lead, after.world, after.calls)

  unfoldable pub retry :
      ℕ → ℕ → List (CrmCall CrmRecord) → World → Result CrmLead × World × List (CrmCall CrmRecord)
  unfolding retry_lead
  retry actor_id crm_lead_id calls w = retry_lead actor_id (lead_by_id crm_lead_id w) calls w

  abbrev retry_found :
      ℕ
      → Option CrmLead
      → SyncAllResult
      → List (CrmCall CrmRecord)
      → World
      → SyncAllResult × World × List (CrmCall CrmRecord)
  retry_found actor_id none result calls w = (result, w, calls)
  retry_found actor_id (some lead) result calls w =
      let after =
        sync_lead settings builder crm (some actor_id) now false (first_again lead) calls w in
      (tally after.lead.status result, after.world, after.calls)

  retry_each :
      ℕ
      → List ℕ
      → SyncAllResult
      → List (CrmCall CrmRecord)
      → World
      → SyncAllResult × World × List (CrmCall CrmRecord)
  retry_each actor_id [] result calls w = (result, w, calls)
  retry_each actor_id (id ∷ rest) result calls w =
      let (result', w', calls') = retry_found actor_id (lead_by_id id w) result calls w in
      retry_each actor_id rest result' calls' w'

  abbrev is_due_or_held : CrmLead → Bool
  is_due_or_held lead =
      (lead.destination ==ₛ settings.crm_destination)
      && (is_due now lead || same_lead_status lead.status CrmLeadStatus.held)

  unfoldable pub sync_all :
      ℕ → List (CrmCall CrmRecord) → World → SyncAllResult × World × List (CrmCall CrmRecord)
  unfolding by_due retry_each unscheduled_eligible
  sync_all actor_id calls w =
      let due = map (λ (lead : CrmLead). lead.id) (by_due (keep is_due_or_held w.crm_leads)) in
      let (added, w') = unscheduled_eligible settings.crm_destination now w in
      let ids = due ++ added in
      let none_yet : SyncAllResult = record {
        considered = length ids;
        synced = 0;
        held = 0;
        scheduled = 0;
        cancelled = 0;
      } in
      retry_each actor_id ids none_yet calls w'
