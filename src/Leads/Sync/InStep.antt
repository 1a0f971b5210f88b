-- ===== src/Leads/Sync/InStep.antt =====
-- What a lead records of a sync that went through.
use mathlib.Core.Path.{subst}
use lead_discovery_rader.Prelude.{
  ℕ, ◌≡◌, refl, sym, ap, String, Option, none, some, List, ◌∷◌, true, false, arith, Option-cases,
  inl, inr, eq_iff,
}
use lead_discovery_rader.Leads.Model.{
  same_lead_status, syncing, synced, Business, Opportunity, CrmLead, World, Settings,
}
use lead_discovery_rader.Leads.Gate.{Eligibility, non_empty}
use lead_discovery_rader.Leads.Sync.{
  Outcome, returned, raised, CrmCall, find_by_keys, CrmAdapter, Builder, Sync, is_hash, carry,
  after_failure, fail, finish, attempt, linked, record_link, sync_record, link_existing, sync_ready,
  sync_gated,
}

is_hash_lem :
    (hash : Option String) (digest : String) → is_hash hash digest ≡ true → hash ≡ some digest
is_hash_lem none digest h = absurd (ground arith)
is_hash_lem (some other) digest h = ap some ((eq_iff other digest).0 h)

module _ {CrmRecord : Type 0} (settings : Settings) (builder : Builder CrmRecord)
    (crm : CrmAdapter CrmRecord) (actor_id : Option ℕ) where
  -- The CRM has the record that is built of these opportunities, and the lead says so.
  pub record IsInStep (business : Business) (rows : List Opportunity) (lead : CrmLead) (w : World)
      (after : Sync CrmRecord) : Type 0 where
    pub external_id : (id : String) × (after.lead.external_id ≡ some id)
    pub payload_hash :
        after.lead.payload_hash
        ≡ some (builder.payload_hash (builder.build_record business rows w.decisions w.users))
    pub unflagged : after.lead.do_not_contact_sent ≡ false
    pub id : after.lead.id ≡ lead.id
    pub business_id : after.lead.business_id ≡ lead.business_id
    pub businesses : after.world.businesses ≡ w.businesses
    pub users : after.world.users ≡ w.users
    pub opportunities : after.world.opportunities ≡ w.opportunities
    pub decisions : after.world.decisions ≡ w.decisions
    pub suppressions : after.world.suppressions ≡ w.suppressions
    pub carried : after.world.carried ≡ (carry lead rows w).carried

  sync_record-IsInStep :
      (now : ℕ) (state : Eligibility) (business : Business) (lead : CrmLead)
      (calls : List (CrmCall CrmRecord)) (w : World)
      → let built = builder.build_record business state.ready w.decisions w.users in
        let after = sync_record settings builder crm actor_id now state built lead calls w in
        after.lead.status ≡ synced → IsInStep business state.ready lead w after
  unfolding sync_record attempt fail finish after_failure
  sync_record-IsInStep now state business lead calls w h = record {
    external_id =
        elim (Option-cases
          (sync_record settings builder crm actor_id now state
            (builder.build_record business state.ready w.decisions w.users) lead calls
            w).lead.external_id) [ inl none_yet ↦ absurd (ground arith) | inr found ↦ found ];
    payload_hash = ground (
      arith,
      is_hash_lem lead.payload_hash
          (builder.payload_hash (builder.build_record business state.ready w.decisions w.users)),
    );
    unflagged = ground arith;
    id = ground arith;
    business_id = ground arith;
    businesses = ground arith;
    users = ground arith;
    opportunities = ground arith;
    decisions = ground arith;
    suppressions = ground arith;
    carried = ground arith;
  }

  link_existing-IsInStep :
      (now : ℕ) (state : Eligibility) (business : Business) (lead : CrmLead)
      (outcome : Outcome (Option String)) (calls : List (CrmCall CrmRecord)) (w : World)
      → let built = builder.build_record business state.ready w.decisions w.users in
        let after =
          link_existing settings builder crm actor_id now state built lead outcome calls w in
        after.lead.status ≡ synced → IsInStep business state.ready lead w after
  unfolding link_existing fail after_failure
  link_existing-IsInStep now state business lead (raised failure) calls w h = absurd (ground arith)
  link_existing-IsInStep now state business lead (returned none) calls w h =
      sync_record-IsInStep now state business lead calls w h
  link_existing-IsInStep now state business lead (returned (some found)) calls w h =
      let lead' = linked settings builder crm actor_id now lead found in
      let step =
        sync_record-IsInStep now state business lead' calls
          (record_link settings builder crm actor_id now lead' w) h in
      record {
        external_id = step.external_id;
        payload_hash = step.payload_hash;
        unflagged = step.unflagged;
        id = step.id;
        business_id = step.business_id;
        businesses = step.businesses;
        users = step.users;
        opportunities = step.opportunities;
        decisions = step.decisions;
        suppressions = step.suppressions;
        carried = step.carried;
      }

  pub sync_ready-cases :
      (now : ℕ) (state : Eligibility) (business : Business) (lead : CrmLead)
      (calls : List (CrmCall CrmRecord)) (w : World)
      → let built = builder.build_record business state.ready w.decisions w.users in
        let phone = builder.format_phone business.phone_e164 in
        let after = sync_ready settings builder crm actor_id now state business lead calls w in
        (lead.external_id ≡ none
          → after
            ≡ link_existing settings builder crm actor_id now state built lead
                (crm.find_by_keys calls business.id business.domain phone)
                (find_by_keys business.id business.domain phone ∷ calls)
                w)
        × ((id : String)
            → lead.external_id ≡ some id
            → after ≡ sync_record settings builder crm actor_id now state built lead calls w)
  unfolding sync_ready
  sync_ready-cases now state business lead calls w = (λ e. ground arith, λ id e. ground arith)

  pub sync_ready-IsInStep :
      (now : ℕ) (state : Eligibility) (business : Business) (lead : CrmLead)
      (calls : List (CrmCall CrmRecord)) (w : World)
      → let after = sync_ready settings builder crm actor_id now state business lead calls w in
        after.lead.status ≡ synced → IsInStep business state.ready lead w after
  sync_ready-IsInStep now state business lead calls w =
      let (unsent, sent) = sync_ready-cases now state business lead calls w in
      let phone = builder.format_phone business.phone_e164 in
      let goal : Sync CrmRecord → Type 0 =
        λ s. s.lead.status ≡ synced → IsInStep business state.ready lead w s in
      elim (Option-cases lead.external_id) [
        | inl e ↦ subst goal (sym (unsent e)) (
            link_existing-IsInStep now state business lead
              (crm.find_by_keys calls business.id business.domain phone)
              (find_by_keys business.id business.domain phone ∷ calls) w)
        | inr (id, e) ↦
            subst goal (sym (sent id e)) (sync_record-IsInStep now state business lead calls w)
      ]

  -- What the gate lets through is what `sync_ready` does.
  pub sync_gated-ready :
      (now : ℕ) (state : Eligibility) (business : Business) (lead : CrmLead)
      (calls : List (CrmCall CrmRecord)) (w : World)
      → state.suppressed ≡ false
      → non_empty state.approved ≡ true
      → non_empty state.ready ≡ true
      → sync_gated settings builder crm actor_id now state business lead calls w
        ≡ sync_ready settings builder crm actor_id now state business lead calls w
  unfolding sync_gated
  sync_gated-ready now state business lead calls w s a r = ground arith

  -- A record that is in step is left alone.
  pub sync_record-again :
      (now : ℕ) (state : Eligibility) (business : Business) (lead : CrmLead)
      (calls : List (CrmCall CrmRecord)) (w : World) (id : String)
      → lead.external_id ≡ some id
      → lead.payload_hash
        ≡ some
            (builder.payload_hash (builder.build_record business state.ready w.decisions w.users))
      → lead.do_not_contact_sent ≡ false
      → lead.status ≡ syncing
      → let built = builder.build_record business state.ready w.decisions w.users in
        let after = sync_record settings builder crm actor_id now state built lead calls w in
        (after.calls ≡ calls)
        × (after.lead.external_id ≡ lead.external_id)
        × (after.lead.payload_hash ≡ lead.payload_hash)
        × (state.next_ready_at ≡ none → after.lead.status ≡ synced)
  unfolding sync_record finish same_lead_status
  sync_record-again now state business lead calls w id e p f st =
      let digest =
        builder.payload_hash (builder.build_record business state.ready w.decisions w.users) in
      let same : is_hash lead.payload_hash digest ≡ true = rw p ((eq_iff digest digest).1 refl) in
      (ground arith, ground arith, ground arith, λ n. ground arith)
