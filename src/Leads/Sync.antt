-- ===== src/Leads/Sync.antt =====
-- `sync_lead` of modules/crm/service.py and what it calls: one lead's CRM record is brought in line
-- with the database. The destination's adapter and the building of the record are parameters.
pub mod Gate
pub mod Carry
pub mod Outage
pub mod InStep
pub mod Again
pub mod Suppressed
use lead_discovery_rader.Prelude.{
  ℕ, ◌+◌, ◌-◌, ◌*◌, ◌^◌, String, Option, none, some, List, [], ◌∷◌, ◌++◌, Bool, true, false, not,
  ◌&&◌, ◌||◌, ltb, ◌==◌, ◌==ₛ◌, keep, map, if◌then◌else◌,
}
use lead_discovery_rader.Leads.Model.{
  CrmLeadStatus, scheduled, syncing, synced, held, cancelled, withdrawn, same_lead_status, Business,
  Opportunity, ReviewDecision, User, CrmLead, Carried, CrmSyncAction, CrmSyncAttempt, Reason,
  suppressed, no_approved_opportunity, crm_cancelled, crm_attempted, World, Settings, get_business,
  set_lead, record_audit,
}
use lead_discovery_rader.Leads.Gate.{Eligibility, eligibility, is_none, non_empty, has_opportunity}
use lead_discovery_rader.Leads.Schedule.{with_status}

-- What `_fail` reads of an exception: `CrmError.retryable` (false for any other), and its message as
-- it is stored, scrubbed and cut.
pub record Failure : Type 0 where
  pub message : String
  pub retryable : Bool
  pub http_status : Option ℕ
  pub retry_after_seconds : Option ℕ

pub data Outcome {ℓ} (A : Type ℓ) : Type ℓ where
  returned : A → Outcome A
  raised : Failure → Outcome A

pub record CrmResult : Type 0 where
  pub external_id : String
  pub external_url : Option String

-- A call of the adapter.
pub data CrmCall (CrmRecord : Type 0) : Type 0 where
  upsert : CrmRecord → Option String → CrmCall CrmRecord
  find_by_keys : ℕ → Option String → Option String → CrmCall CrmRecord
  mark_do_not_contact : String → Bool → CrmCall CrmRecord
  withdraw : String → CrmCall CrmRecord

-- What the destination answers, after the calls so far (the latest first).
pub record CrmAdapter (CrmRecord : Type 0) : Type 0 where
  pub upsert : List (CrmCall CrmRecord) → CrmRecord → Option String → Outcome CrmResult
  pub find_by_keys :
      List (CrmCall CrmRecord) → ℕ → Option String → Option String → Outcome (Option String)
  pub mark_do_not_contact : List (CrmCall CrmRecord) → String → Bool → Outcome CrmResult
  pub withdraw : List (CrmCall CrmRecord) → String → Outcome CrmResult

-- The record that is built from a business, its approvals that are ready, the history and the users,
-- its hash, and the format of a phone number.
pub record Builder (CrmRecord : Type 0) : Type 0 where
  pub build_record : Business → List Opportunity → List ReviewDecision → List User → CrmRecord
  pub payload_hash : CrmRecord → String
  pub format_phone : Option String → Option String

abbrev pub or_empty : Option String → String
or_empty none = ""
or_empty (some id) = id

-- `_carried`
abbrev pub carried_of : CrmLead → World → List ℕ
carried_of lead w =
    map (λ (c : Carried). c.opportunity_id)
      (keep (λ (c : Carried). c.crm_lead_id == lead.id) w.carried)

abbrev pub ids_of : List Opportunity → List ℕ
ids_of rows = map (λ (o : Opportunity). o.id) rows

unfoldable pub missing : ℕ → List ℕ → List ℕ → List Carried
missing lead_id current [] = []
missing lead_id current (id ∷ wanted) =
    let rest = missing lead_id current wanted in
    if has_opportunity id current
    then rest
    else record { crm_lead_id = lead_id; opportunity_id = id } ∷ rest

-- `_carry`: the rows of what is not wanted go, and those that are missing come.
unfoldable pub carry : CrmLead → List Opportunity → World → World
unfolding missing
carry lead rows w =
    let wanted = ids_of rows in
    record w {
      carried =
          keep (λ c. not (c.crm_lead_id == lead.id) || has_opportunity c.opportunity_id wanted)
            w.carried
          ++ missing lead.id (carried_of lead w) wanted;
    }

abbrev uncarry : CrmLead → World → World
uncarry lead w = record w { carried = keep (λ c. not (c.crm_lead_id == lead.id)) w.carried }

-- `2 ** max(attempt - 1, 0)` times the base.
unfoldable pub backoff : ℕ → Settings → ℕ
backoff attempt settings = settings.crm_sync_backoff_seconds * (2 ^ (attempt - 1))

abbrev pub wait_of : Option ℕ → ℕ → ℕ
wait_of none backoff_seconds = backoff_seconds
wait_of (some seconds) backoff_seconds = seconds

abbrev next_ready : Option Eligibility → Option ℕ
next_ready none = none
next_ready (some state) = state.next_ready_at

abbrev pub is_hash : Option String → String → Bool
is_hash none digest = false
is_hash (some other) digest = other ==ₛ digest

-- The lead, the world, and the calls so far.
pub record Sync (CrmRecord : Type 0) : Type 0 where
  pub lead : CrmLead
  pub world : World
  pub calls : List (CrmCall CrmRecord)

module _ {CrmRecord : Type 0} (settings : Settings) (builder : Builder CrmRecord)
    (crm : CrmAdapter CrmRecord) (actor_id : Option ℕ) (now : ℕ) where
  abbrev pub record_attempt : CrmLead → CrmSyncAttempt → World → World
  record_attempt lead row w =
      record_audit (crm_attempted row lead.status) lead.id actor_id
        (record (set_lead lead w) { sync_attempts = w.sync_attempts ++ (row ∷ []) })

  abbrev pub succeeded : CrmLead → CrmSyncAction → CrmSyncAttempt
  succeeded lead action = record {
    crm_lead_id = lead.id;
    action = action;
    is_ok = true;
    http_status = none;
    error = none;
  }

  -- `_cancel`
  unfoldable pub cancel : CrmLead → Reason → List (CrmCall CrmRecord) → World → Sync CrmRecord
  cancel lead reason calls w =
      let lead' = with_status cancelled none lead in
      record {
        lead = lead';
        world = record_audit (crm_cancelled reason) lead.id actor_id (set_lead lead' w);
        calls = calls;
      }

  abbrev finished_status : CrmLeadStatus → Option ℕ → CrmLead → CrmLead
  finished_status final_status none lead = with_status final_status none lead
  finished_status final_status (some at) lead = with_status scheduled (some at) lead

  -- `_finish`
  unfoldable pub finish :
      CrmLead
      → CrmSyncAction
      → CrmLeadStatus
      → Option Eligibility
      → List (CrmCall CrmRecord)
      → World
      → Sync CrmRecord
  finish lead action final_status state calls w =
      let lead' =
        finished_status final_status (next_ready state)
          (record lead { attempts = 0; last_error = none; last_synced_at = some now }) in
      record {
        lead = lead';
        world = record_attempt lead' (succeeded lead' action) w;
        calls = calls;
      }

  -- The status of a lead after a failure that is counted.
  unfoldable pub after_failure : CrmLead → Failure → CrmLead
  unfolding backoff
  after_failure lead failure =
      let attempts = lead.attempts + 1 in
      let lead' = record lead { attempts = attempts; last_error = some failure.message } in
      if failure.retryable && ltb attempts settings.crm_sync_max_attempts
      then with_status scheduled
          (some (now + wait_of failure.retry_after_seconds (backoff attempts settings))) lead'
      else with_status held none lead'

  -- `_fail`
  unfoldable pub fail :
      CrmLead → CrmSyncAction → Failure → List (CrmCall CrmRecord) → World → Sync CrmRecord
  unfolding after_failure
  fail lead action failure calls w =
      let lead' = after_failure lead failure in
      let row : CrmSyncAttempt = record {
        crm_lead_id = lead.id;
        action = action;
        is_ok = false;
        http_status = failure.http_status;
        error = some failure.message;
      } in
      record { lead = lead'; world = record_attempt lead' row w; calls = calls }

  -- `_attempt`, where the call was made: `after` is what a result does to the lead and the world.
  unfoldable pub attempt :
      CrmLead
      → CrmSyncAction
      → Outcome CrmResult
      → (CrmResult → CrmLead × World)
      → CrmLeadStatus
      → Option Eligibility
      → List (CrmCall CrmRecord)
      → World
      → Sync CrmRecord
  unfolding fail finish
  attempt lead action (raised failure) after final_status state calls w =
      fail lead action failure calls w
  attempt lead action (returned result) after final_status state calls w =
      let (lead', w') = after result in finish lead' action final_status state calls w'

  abbrev flagged : CrmLead → Bool → CrmLead
  flagged lead flag = record lead { do_not_contact_sent = flag; export_batch_id = none }

  -- A suppressed business.
  unfoldable pub sync_suppressed : CrmLead → List (CrmCall CrmRecord) → World → Sync CrmRecord
  unfolding cancel finish attempt
  sync_suppressed lead calls w = elim lead.external_id [
    | none ↦ cancel lead suppressed calls w
    | some external_id ↦
        if lead.do_not_contact_sent
        then finish lead CrmSyncAction.unchanged synced none calls w
        else attempt lead CrmSyncAction.mark_dnc (crm.mark_do_not_contact calls external_id true)
            (λ result. (flagged lead true, w)) synced none
            (mark_do_not_contact external_id true ∷ calls) w
  ]

  after_withdraw :
      CrmLead
      → String
      → Outcome CrmResult
      → List (CrmCall CrmRecord)
      → Outcome CrmResult × List (CrmCall CrmRecord)
  after_withdraw lead external_id (raised failure) calls = (raised failure, calls)
  after_withdraw lead external_id (returned result) calls =
      if lead.do_not_contact_sent
      then (
        elim (crm.mark_do_not_contact calls external_id false) [
          | raised failure ↦ raised failure
          | returned other ↦ returned result
        ],
        mark_do_not_contact external_id false ∷ calls,
      )
      else (returned result, calls)

  -- `_withdraw`
  withdraw_record :
      CrmLead → String → List (CrmCall CrmRecord) → Outcome CrmResult × List (CrmCall CrmRecord)
  unfolding after_withdraw
  withdraw_record lead external_id calls =
      after_withdraw lead external_id (crm.withdraw calls external_id)
        (withdraw external_id ∷ calls)

  -- No opportunity is approved.
  unfoldable pub sync_unapproved : CrmLead → List (CrmCall CrmRecord) → World → Sync CrmRecord
  unfolding cancel finish attempt withdraw_record
  sync_unapproved lead calls w = elim lead.external_id [
    | none ↦ cancel lead no_approved_opportunity calls w
    | some external_id ↦
        if same_lead_status lead.status withdrawn
          || (is_none lead.payload_hash && not lead.do_not_contact_sent)
        then finish lead CrmSyncAction.unchanged synced none calls w
        else (let (outcome, calls') = withdraw_record lead external_id calls in
            attempt lead CrmSyncAction.withdraw outcome
              (λ result. (flagged lead false, uncarry lead w)) withdrawn none calls' w)
  ]

  -- Nothing that an update would send has changed.
  abbrev pub is_unchanged : CrmLead → String → Bool
  is_unchanged lead digest =
      not (is_none lead.external_id)
      && (is_hash lead.payload_hash digest
          && (not lead.do_not_contact_sent && not (same_lead_status lead.status withdrawn)))

  abbrev upserted : CrmLead → String → CrmResult → CrmLead
  upserted lead digest result = record lead {
    external_id = some result.external_id;
    external_url = result.external_url;
    payload_hash = some digest;
    do_not_contact_sent = false;
    export_batch_id = none;
  }

  -- The record is created, updated, or already as it should be.
  unfoldable pub sync_record :
      Eligibility → CrmRecord → CrmLead → List (CrmCall CrmRecord) → World → Sync CrmRecord
  unfolding carry finish attempt
  sync_record state built lead calls w =
      let digest = builder.payload_hash built in
      if is_unchanged lead digest
      then finish lead CrmSyncAction.unchanged synced (some state) calls (carry lead state.ready w)
      else attempt lead
          (if is_none lead.external_id then CrmSyncAction.create else CrmSyncAction.update)
          (crm.upsert calls built lead.external_id)
          (λ result. (upserted lead digest result, carry lead state.ready w)) synced (some state)
          (upsert built lead.external_id ∷ calls) w

  abbrev pub linked : CrmLead → String → CrmLead
  linked lead found = record lead { external_id = some found; payload_hash = none }

  abbrev pub record_link : CrmLead → World → World
  record_link lead w = record_attempt lead (succeeded lead CrmSyncAction.link) w

  -- `_link_existing`, with what follows it.
  unfoldable pub link_existing :
      Eligibility
      → CrmRecord
      → CrmLead
      → Outcome (Option String)
      → List (CrmCall CrmRecord)
      → World
      → Sync CrmRecord
  unfolding fail sync_record
  link_existing state built lead (raised failure) calls w =
      fail lead CrmSyncAction.link failure calls w
  link_existing state built lead (returned none) calls w = sync_record state built lead calls w
  link_existing state built lead (returned (some found)) calls w =
      sync_record state built (linked lead found) calls (record_link (linked lead found) w)

  -- A business with an approval that is ready.
  unfoldable pub sync_ready :
      Eligibility → Business → CrmLead → List (CrmCall CrmRecord) → World → Sync CrmRecord
  unfolding link_existing sync_record
  sync_ready state business lead calls w =
      let built = builder.build_record business state.ready w.decisions w.users in
      let phone = builder.format_phone business.phone_e164 in
      elim lead.external_id [
        | none ↦
            link_existing state built lead
              (crm.find_by_keys calls business.id business.domain phone)
              (find_by_keys business.id business.domain phone ∷ calls) w
        | some external_id ↦ sync_record state built lead calls w
      ]

  abbrev or_now : Option ℕ → ℕ
  or_now none = now
  or_now (some at) = at

  -- What the gate allows, for a lead that is being synced.
  unfoldable pub sync_gated :
      Eligibility → Business → CrmLead → List (CrmCall CrmRecord) → World → Sync CrmRecord
  unfolding sync_suppressed sync_unapproved sync_ready
  sync_gated state business lead calls w =
      let waiting = with_status scheduled (some (or_now state.next_ready_at)) lead in
      if state.suppressed
      then sync_suppressed lead calls w
      else (if not (non_empty state.approved)
          then sync_unapproved lead calls w
          else (if not (non_empty state.ready)
              then record { lead = waiting; world = set_lead waiting w; calls = calls }
              else sync_ready state business lead calls w))

  sync_business :
      Option Business → Bool → CrmLead → List (CrmCall CrmRecord) → World → Sync CrmRecord
  unfolding sync_gated
  sync_business none ignore_delay lead calls w =
      let lead' = with_status cancelled none lead in
      record { lead = lead'; world = set_lead lead' w; calls = calls }
  sync_business (some business) ignore_delay lead calls w =
      let lead' = with_status syncing none lead in
      sync_gated (eligibility settings business now ignore_delay (carried_of lead w) w) business
        lead' calls (set_lead lead' w)

  unfoldable pub sync_lead : Bool → CrmLead → List (CrmCall CrmRecord) → World → Sync CrmRecord
  unfolding sync_business
  sync_lead ignore_delay lead calls w =
      sync_business (get_business lead.business_id w) ignore_delay lead calls w
