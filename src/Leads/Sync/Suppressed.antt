-- ===== src/Leads/Sync/Suppressed.antt =====
-- A lead whose business is suppressed.
use lead_discovery_rader.Prelude.{
  ℕ, ◌+◌, ◌<◌, ◌⊎◌, refl, ◌∙◌, ◌≡◌, String, Option, none, some, List, ◌∷◌, Bool, true, false, arith,
  Option-cases, Bool-cases, inl, inr,
}
use lead_discovery_rader.Leads.Model.{
  CrmLeadStatus, Business, CrmLead, World, Settings, get_business, set_lead,
}
use lead_discovery_rader.Leads.Schedule.{with_status}
use lead_discovery_rader.Leads.Gate.{eligibility, is_suppressed}
use lead_discovery_rader.Leads.Sync.{
  Failure, Outcome, raised, returned, CrmResult, CrmCall, mark_do_not_contact, CrmAdapter, Builder,
  Sync, cancel, finish, fail, attempt, sync_suppressed, sync_gated, sync_business, sync_lead,
  after_failure,
}

-- What a sync does to a lead whose business is suppressed.
pub data IsFlagged {CrmRecord : Type 0} (max_attempts : ℕ) (crm : CrmAdapter CrmRecord)
    (lead : CrmLead) (calls : List (CrmCall CrmRecord)) (after : Sync CrmRecord) : Type 0 where
  never_sent :
      lead.external_id ≡ none
      → after.lead.status ≡ CrmLeadStatus.cancelled
      → after.calls ≡ calls
      → IsFlagged max_attempts crm lead calls after
  flagged_before :
      (id : String)
      → lead.external_id ≡ some id
      → lead.do_not_contact_sent ≡ true
      → after.lead.external_id ≡ some id
      → after.lead.status ≡ CrmLeadStatus.synced
      → after.calls ≡ calls
      → IsFlagged max_attempts crm lead calls after
  flagged_now :
      (id : String) (result : CrmResult)
      → lead.external_id ≡ some id
      → lead.do_not_contact_sent ≡ false
      → crm.mark_do_not_contact calls id true ≡ returned result
      → after.lead.external_id ≡ some id
      → after.lead.do_not_contact_sent ≡ true
      → after.lead.status ≡ CrmLeadStatus.synced
      → after.lead.attempts ≡ 0
      → after.calls ≡ mark_do_not_contact id true ∷ calls
      → IsFlagged max_attempts crm lead calls after
  failed_now :
      (id : String) (failure : Failure)
      → lead.external_id ≡ some id
      → lead.do_not_contact_sent ≡ false
      → crm.mark_do_not_contact calls id true ≡ raised failure
      → after.lead.external_id ≡ some id
      → after.lead.do_not_contact_sent ≡ false
      → after.lead.attempts ≡ lead.attempts + 1
      → (after.lead.status ≡ CrmLeadStatus.held)
        ⊎ ((after.lead.status ≡ CrmLeadStatus.scheduled)
            × (failure.retryable ≡ true)
            × (after.lead.attempts < max_attempts))
      → after.calls ≡ mark_do_not_contact id true ∷ calls
      → IsFlagged max_attempts crm lead calls after

Outcome-cases {ℓ} :
    {A : Type ℓ} (o : Outcome A)
    → ((failure : Failure) × (o ≡ raised failure)) ⊎ ((a : A) × (o ≡ returned a))
Outcome-cases (raised failure) = inl (failure, refl)
Outcome-cases (returned a) = inr (a, refl)

module _ {CrmRecord : Type 0} (settings : Settings) (builder : Builder CrmRecord)
    (crm : CrmAdapter CrmRecord) (actor_id : Option ℕ) (now : ℕ) where
  after_failure-status :
      (lead : CrmLead) (failure : Failure)
      → let failed = after_failure settings builder crm actor_id now lead failure in
        (failed.status ≡ CrmLeadStatus.held)
        ⊎ ((failed.status ≡ CrmLeadStatus.scheduled)
            × (failure.retryable ≡ true)
            × (failed.attempts < settings.crm_sync_max_attempts))
  unfolding after_failure
  after_failure-status lead failure = ground arith

  after_failure-kept :
      (lead : CrmLead) (failure : Failure)
      → let failed = after_failure settings builder crm actor_id now lead failure in
        (failed.external_id ≡ lead.external_id)
        × (failed.do_not_contact_sent ≡ lead.do_not_contact_sent)
        × (failed.attempts ≡ lead.attempts + 1)
  unfolding after_failure
  after_failure-kept lead failure = (ground arith, ground arith, ground arith)

  sync_suppressed-failed :
      (lead : CrmLead) (id : String) (failure : Failure) (calls : List (CrmCall CrmRecord))
      (w : World)
      → lead.external_id ≡ some id
      → lead.do_not_contact_sent ≡ false
      → crm.mark_do_not_contact calls id true ≡ raised failure
      → (sync_suppressed settings builder crm actor_id now lead calls w).lead
        ≡ after_failure settings builder crm actor_id now lead failure
  unfolding sync_suppressed attempt fail
  sync_suppressed-failed lead id failure calls w e f a = ground arith

  sync_suppressed-IsFlagged :
      (lead : CrmLead) (calls : List (CrmCall CrmRecord)) (w : World)
      → IsFlagged settings.crm_sync_max_attempts crm lead calls
          (sync_suppressed settings builder crm actor_id now lead calls w)
  unfolding sync_suppressed cancel finish attempt fail
  sync_suppressed-IsFlagged lead calls w = elim (Option-cases lead.external_id) [
    | inl e ↦ never_sent e (ground arith) (ground arith)
    | inr (id, e) ↦ elim (Bool-cases lead.do_not_contact_sent) [
      | inl f ↦ flagged_before id e f (ground arith) (ground arith) (ground arith)
      | inr f ↦ elim (Outcome-cases (crm.mark_do_not_contact calls id true)) [
        | inl (failure, a) ↦
            let (kept, sent, n) = after_failure-kept lead failure in
            let down = sync_suppressed-failed lead id failure calls w e f a in
            failed_now id failure e f a (rw down (kept ∙ e)) (rw down (sent ∙ f)) (rw down n)
              (rw down (after_failure-status lead failure)) (ground arith)
        | inr (result, a) ↦
            flagged_now id result e f a (ground arith) (ground arith) (ground arith) (ground arith)
              (ground arith)
      ]
    ]
  ]

  -- Syncing a lead whose business is suppressed never sends the record. A lead that was never in the CRM
  -- is cancelled without a call, and one that is flagged there stays so without a call. Any other is
  -- flagged by exactly one call: where the CRM answers, the flag is recorded and the lead is synced with
  -- no failures; where the call fails, the flag stays unrecorded, the failure is counted, and the lead is
  -- held, or scheduled again after a failure that can be retried and below the limit of attempts.
  pub sync_lead-IsFlagged :
      (ignore_delay : Bool) (lead : CrmLead) (calls : List (CrmCall CrmRecord)) (w : World)
      (business : Business)
      → get_business lead.business_id w ≡ some business
      → is_suppressed business w ≡ true
      → IsFlagged settings.crm_sync_max_attempts crm lead calls
          (sync_lead settings builder crm actor_id now ignore_delay lead calls w)
  unfolding sync_lead sync_business sync_gated eligibility
  sync_lead-IsFlagged ignore_delay lead calls w business e s =
      let lead' = with_status CrmLeadStatus.syncing none lead in
      rw (e, s)
        (elim (sync_suppressed-IsFlagged lead' calls (set_lead lead' w)) [
          | never_sent x status same ↦ never_sent x status same
          | flagged_before id x f kept status same ↦ flagged_before id x f kept status same
          | flagged_now id result x f a kept sent status n one ↦
              flagged_now id result x f a kept sent status n one
          | failed_now id failure x f a kept sent n status one ↦
              failed_now id failure x f a kept sent n status one
        ])
