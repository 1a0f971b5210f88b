-- ===== src/Leads/Model.antt =====
-- The rows that the review, the suppressions and the CRM sync share: modules/opportunities/models.py,
-- modules/review/models.py, modules/compliance/models.py and modules/crm/models.py, in one database
-- whose statements do not fail. The transaction is the caller's. Times are seconds, ids are numbers,
-- and a decimal with three places is its number of thousandths.
use lead_discovery_rader.Prelude.{ℕ, String, Option, List, ◌∷◌, Bool, ◌==◌, put, by_id}

pub data ReviewStatus : Type 0 where
  pending approved rejected needs_enrichment duplicate not_a_fit do_not_contact : ReviewStatus

abbrev status_index : ReviewStatus → ℕ
status_index pending = 0
status_index approved = 1
status_index rejected = 2
status_index needs_enrichment = 3
status_index duplicate = 4
status_index not_a_fit = 5
status_index do_not_contact = 6

-- `is` on review statuses.
unfoldable pub same_review_status : ReviewStatus → ReviewStatus → Bool
same_review_status a b = status_index a == status_index b

pub data Verdict : Type 0 where
  approve reject needs_enrichment duplicate not_a_fit do_not_contact : Verdict

pub data SuppressionSource : Type 0 where
  review admin : SuppressionSource

pub data CrmLeadStatus : Type 0 where
  scheduled syncing synced held cancelled withdrawn : CrmLeadStatus

abbrev lead_status_index : CrmLeadStatus → ℕ
lead_status_index scheduled = 0
lead_status_index syncing = 1
lead_status_index synced = 2
lead_status_index held = 3
lead_status_index cancelled = 4
lead_status_index withdrawn = 5

unfoldable pub same_lead_status : CrmLeadStatus → CrmLeadStatus → Bool
same_lead_status a b = lead_status_index a == lead_status_index b

pub data CrmSyncAction : Type 0 where
  create update link unchanged mark_dnc withdraw : CrmSyncAction

pub data Role : Type 0 where
  admin sales_rep reviewer tech_admin crm_manager : Role

pub record User : Type 0 where
  pub id : ℕ
  pub role : Role
  pub is_active : Bool

pub record Business : Type 0 where
  pub id : ℕ
  pub created_at : ℕ
  pub domain : Option String
  pub phone_e164 : Option String

pub record Opportunity : Type 0 where
  pub id : ℕ
  pub business_id : ℕ
  pub service : String
  pub score : ℕ
  pub review_status : ReviewStatus
  pub assigned_to : Option ℕ
  pub decided_at : Option ℕ
  pub decided_by : Option ℕ
  pub lock_version : ℕ
  pub withdrawn_at : Option ℕ
  pub created_at : ℕ

pub record ReviewDecision : Type 0 where
  pub id : ℕ
  pub opportunity_id : ℕ
  pub decision : Verdict
  pub from_status : ReviewStatus
  pub to_status : ReviewStatus
  pub reason_code : Option String
  pub note : Option String
  pub duplicate_of : Option ℕ
  pub assigned_to : Option ℕ
  pub decided_by : ℕ
  pub decided_at : ℕ
  pub undone_at : Option ℕ
  pub undone_by : Option ℕ

pub record Suppression : Type 0 where
  pub id : ℕ
  pub business_id : Option ℕ
  pub domain : Option String
  pub phone_e164 : Option String
  pub reason : String
  pub source : SuppressionSource
  pub created_by : ℕ
  pub created_at : ℕ
  pub lifted_at : Option ℕ
  pub lifted_by : Option ℕ

pub record CrmLead : Type 0 where
  pub id : ℕ
  pub business_id : ℕ
  pub destination : String
  pub external_id : Option String
  pub external_url : Option String
  pub status : CrmLeadStatus
  pub due_at : Option ℕ
  pub attempts : ℕ
  pub last_error : Option String
  pub payload_hash : Option String
  pub last_synced_at : Option ℕ
  pub export_batch_id : Option String
  pub do_not_contact_sent : Bool

-- One row of `CrmLeadOpportunity`: an approval that the CRM record carries.
pub record Carried : Type 0 where
  pub crm_lead_id : ℕ
  pub opportunity_id : ℕ

-- One row of `CrmSyncAttempt`, without how long the call took.
pub record CrmSyncAttempt : Type 0 where
  pub crm_lead_id : ℕ
  pub action : CrmSyncAction
  pub is_ok : Bool
  pub http_status : Option ℕ
  pub error : Option String

-- `_snapshot` of an opportunity.
pub record Snapshot : Type 0 where
  pub review_status : ReviewStatus
  pub lock_version : ℕ
  pub assigned_to : Option ℕ
  pub decided_by : Option ℕ
  pub decided_at : Option ℕ

pub data Reason : Type 0 where
  approval change send_now suppressed no_approved_opportunity : Reason

-- An audit row: its action, with what it records before and after, and the row that it is about.
pub data Event : Type 0 where
  reviewed : Snapshot → Snapshot → ReviewDecision → Event
  review_undone : Snapshot → Snapshot → ReviewDecision → Event
  suppression_added : Suppression → Event
  suppression_lifted : Suppression → Suppression → Event
  crm_scheduled : Reason → Option CrmLeadStatus → Option ℕ → Event
  crm_cancelled : Reason → Event
  crm_attempted : CrmSyncAttempt → CrmLeadStatus → Event

pub record AuditRow : Type 0 where
  pub event : Event
  pub entity_id : ℕ
  pub actor_id : Option ℕ

pub record World : Type 0 where
  pub businesses : List Business
  pub users : List User
  pub opportunities : List Opportunity
  pub decisions : List ReviewDecision
  pub suppressions : List Suppression
  pub crm_leads : List CrmLead
  pub carried : List Carried
  pub sync_attempts : List CrmSyncAttempt
  pub audit : List AuditRow
  pub next_id : ℕ

pub record Settings : Type 0 where
  pub crm_destination : String
  pub crm_sync_delay_minutes : Option ℕ
  pub crm_auto_sync : Bool
  pub crm_sync_max_attempts : ℕ
  pub crm_sync_backoff_seconds : ℕ
  pub review_undo_window_minutes : ℕ

-- `session.get` on each table.
abbrev pub get_opportunity : ℕ → World → Option Opportunity
get_opportunity id w = by_id (λ (o : Opportunity). o.id) id w.opportunities

abbrev pub get_business : ℕ → World → Option Business
get_business id w = by_id (λ (b : Business). b.id) id w.businesses

abbrev pub get_user : ℕ → World → Option User
get_user id w = by_id (λ (u : User). u.id) id w.users

abbrev pub get_decision : ℕ → World → Option ReviewDecision
get_decision id w = by_id (λ (d : ReviewDecision). d.id) id w.decisions

abbrev pub get_suppression : ℕ → World → Option Suppression
get_suppression id w = by_id (λ (s : Suppression). s.id) id w.suppressions

-- Assignments to a row's attributes.
abbrev pub set_opportunity : Opportunity → World → World
set_opportunity o w = record w { opportunities = put (λ (x : Opportunity). x.id) o w.opportunities }

abbrev pub set_decision : ReviewDecision → World → World
set_decision d w = record w { decisions = put (λ (x : ReviewDecision). x.id) d w.decisions }

abbrev pub set_suppression : Suppression → World → World
set_suppression s w = record w { suppressions = put (λ (x : Suppression). x.id) s w.suppressions }

abbrev pub set_lead : CrmLead → World → World
set_lead lead w = record w { crm_leads = put (λ (x : CrmLead). x.id) lead w.crm_leads }

abbrev pub record_audit : Event → ℕ → Option ℕ → World → World
record_audit event entity_id actor_id w = record w {
  audit = record { event = event; entity_id = entity_id; actor_id = actor_id } ∷ w.audit;
}
