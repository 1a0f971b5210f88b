-- ===== src/Leads/Worker/Sent.antt =====
-- What a tick of the worker and the Send now button send.
use lead_discovery_rader.Prelude.{
  ℕ, ◌+◌, ◌≤◌, ◌≡◌, Option, none, some, List, [], ◌∷◌, Bool, true, false, ◌&&◌, ◌==ₛ◌, arith, keep,
  length, take, length-take-le, Bool-cases, ◌⊎◌, inl, inr,
}
use lead_discovery_rader.Leads.Model.{CrmLead, World, Settings}
use lead_discovery_rader.Leads.Sync.{CrmCall, CrmAdapter, Builder, sync_lead}
use lead_discovery_rader.Leads.Sync.Gate.{upserts, sync_lead-IsSent}
use lead_discovery_rader.Leads.Worker.{
  lead_by_id, is_due, by_due, due_leads, sync_found, sync_each, sync_due,
}

module _ {CrmRecord : Type 0} (settings : Settings) (builder : Builder CrmRecord)
    (crm : CrmAdapter CrmRecord) (now : ℕ) where
  sync_lead-at_most_one :
      (actor_id : Option ℕ) (ignore_delay : Bool) (lead : CrmLead)
      (calls : List (CrmCall CrmRecord)) (w : World)
      → length
          (upserts (sync_lead settings builder crm actor_id now ignore_delay lead calls w).calls)
        ≤ length (upserts calls) + 1
  sync_lead-at_most_one actor_id ignore_delay lead calls w =
      elim (sync_lead-IsSent settings builder crm actor_id now ignore_delay lead calls w) [
        | inl same ↦ rw same (omega arith)
        | inr (business, found, (sent, ready)) ↦ rw sent.sent (omega arith)
      ]

  sync_found-at_most_one :
      (actor_id : Option ℕ) (ignore_delay : Bool) (found : Option CrmLead)
      (calls : List (CrmCall CrmRecord)) (w : World)
      → length (upserts (sync_found settings builder crm now actor_id ignore_delay found calls w).1)
        ≤ length (upserts calls) + 1
  sync_found-at_most_one actor_id ignore_delay none calls w = omega arith
  sync_found-at_most_one actor_id ignore_delay (some lead) calls w =
      sync_lead-at_most_one actor_id ignore_delay lead calls w

  sync_each-at_most :
      (rows : List CrmLead) (calls : List (CrmCall CrmRecord)) (w : World)
      → length (upserts (sync_each settings builder crm now rows calls w).1)
        ≤ length (upserts calls) + length rows
  unfolding sync_each
  sync_each-at_most [] calls w = omega arith
  sync_each-at_most (lead ∷ rest) calls w =
      let found = lead_by_id lead.id w in
      let one = sync_found-at_most_one none false found calls w in
      let after = sync_found settings builder crm now none false found calls w in
      let more = sync_each-at_most rest after.1 after.0 in omega (arith, one, more)

  -- A tick of the worker processes at most as many leads as its limit, and sends at most one record for
  -- each lead that it processes; where automatic sync is off it does nothing.
  pub sync_due-at_most :
      (limit : ℕ) (calls : List (CrmCall CrmRecord)) (w : World)
      → let after = sync_due settings builder crm now limit calls w in
        (after.0 ≤ limit)
        × (length (upserts after.2) ≤ length (upserts calls) + after.0)
        × ((settings.crm_auto_sync ≡ true) ⊎ (after ≡ (0, w, calls)))
  unfolding sync_due due_leads
  sync_due-at_most limit calls w =
      let due = by_due (
        keep
          (λ (lead : CrmLead). (lead.destination ==ₛ settings.crm_destination) && is_due now lead)
          w.crm_leads) in
      let few = length-take-le limit due in
      let sent = sync_each-at_most (take limit due) calls w in
      elim (Bool-cases settings.crm_auto_sync) [
        | inl e ↦ (ground (arith, few), ground (arith, sent), inl e)
        | inr e ↦ (ground arith, ground arith, inr (ground arith))
      ]
