-- ===== src/Leads/Sync/Gate.antt =====
-- What a sync may send: the gate in front of every call of the adapter.
use lead_discovery_rader.Prelude.{
  ℕ, ◌≡◌, refl, String, Option, none, some, List, [], ◌∷◌, Bool, true, false, arith, All, keep,
  All-map, All-keep, Option-cases, Bool-cases, ◌⊎◌, inl, inr,
}
use lead_discovery_rader.Leads.Model.{
  CrmLeadStatus, Business, Opportunity, CrmLead, CrmSyncAction, World, Settings, get_business,
  set_lead,
}
use lead_discovery_rader.Leads.Gate.{
  Eligibility, eligibility, approved_opportunities, approved_for, is_ready, delay_of, by_strength,
  insert_stronger, stronger, non_empty, has_waited, has_opportunity,
}
use lead_discovery_rader.Leads.Schedule.{with_status}
use lead_discovery_rader.Leads.Sync.{
  Outcome, returned, raised, CrmResult, CrmCall, upsert, find_by_keys, mark_do_not_contact,
  withdraw, CrmAdapter, Builder, carried_of, cancel, finish, fail, attempt, sync_suppressed,
  sync_unapproved, sync_record, link_existing, sync_ready, sync_gated, sync_business, sync_lead,
  withdraw_record, after_withdraw, linked, record_link,
}

-- What the gate calls ready: approved, not withdrawn, of this business, and either already in the
-- record, past the delay, or sent at once.
pub record IsReady (settings : Settings) (now : ℕ) (ignore_delay : Bool) (carried : List ℕ)
    (business : Business) (o : Opportunity) : Type 0 where
  pub approved : approved_for business.id o ≡ true
  pub waited :
      (ignore_delay ≡ true)
      ⊎ ((has_opportunity o.id carried ≡ true)
          ⊎ (has_waited now (delay_of settings) o.decided_at ≡ true))

module _ (P : Opportunity → Type 0) where
  insert_stronger-All :
      (x : Opportunity) (xs : List Opportunity) → P x → All P xs → All P (insert_stronger x xs)
  unfolding insert_stronger
  insert_stronger-All x [] px h = (px, tt)
  insert_stronger-All x (y ∷ ys) px (py, h) =
      let rest = insert_stronger-All x ys px h in
      elim (Bool-cases (stronger x y)) [ inl e ↦ rw e (px, (py, h)) | inr e ↦ rw e (py, rest) ]

  by_strength-All : (xs : List Opportunity) → All P xs → All P (by_strength xs)
  unfolding by_strength
  by_strength-All [] h = tt
  by_strength-All (x ∷ xs) (px, h) =
      insert_stronger-All x (by_strength xs) px (by_strength-All xs h)

abbrev Anything : Opportunity → Type 0
Anything o = Unit {0}

every : (xs : List Opportunity) → All Anything xs
every [] = tt
every (x ∷ xs) = (tt, every xs)

approved_opportunities-All :
    (business_id : ℕ) (w : World)
    → All (λ o. approved_for business_id o ≡ true) (approved_opportunities business_id w)
unfolding approved_opportunities
approved_opportunities-All business_id w =
    by_strength-All (λ o. approved_for business_id o ≡ true)
      (keep (approved_for business_id) w.opportunities)
      (All-map (keep (approved_for business_id) w.opportunities) (λ o h. h.1)
        (All-keep Anything (approved_for business_id) w.opportunities (every w.opportunities)))

pub eligibility-IsReady :
    (settings : Settings) (business : Business) (now : ℕ) (ignore_delay : Bool) (carried : List ℕ)
    (w : World)
    → All
        (IsReady settings now ignore_delay carried business)
        (eligibility settings business now ignore_delay carried w).ready
unfolding eligibility
eligibility-IsReady settings business now true carried w =
    All-map (approved_opportunities business.id w)
      (λ o h. record { approved = h; waited = inl refl }) (approved_opportunities-All business.id w)
eligibility-IsReady settings business now false carried w =
    let approved = approved_opportunities business.id w in
    All-map (keep (is_ready now (delay_of settings) carried) approved)
      (λ o h. record { approved = h.0; waited = inr (ground arith) })
      (All-keep (λ o. approved_for business.id o ≡ true) (is_ready now (delay_of settings) carried)
        approved (approved_opportunities-All business.id w))

-- The records that were sent.
abbrev pub upserts : {CrmRecord : Type 0} → List (CrmCall CrmRecord) → List CrmRecord
upserts [] = []
upserts (upsert built id ∷ rest) = built ∷ upserts rest
upserts (find_by_keys id domain phone ∷ rest) = upserts rest
upserts (mark_do_not_contact id flag ∷ rest) = upserts rest
upserts (withdraw id ∷ rest) = upserts rest

module _ {CrmRecord : Type 0} (settings : Settings) (builder : Builder CrmRecord)
    (crm : CrmAdapter CrmRecord) (actor_id : Option ℕ) (now : ℕ) where
  attempt-calls :
      (lead : CrmLead) (action : CrmSyncAction) (outcome : Outcome CrmResult)
      (after : CrmResult → CrmLead × World) (final_status : CrmLeadStatus)
      (state : Option Eligibility) (calls : List (CrmCall CrmRecord)) (w : World)
      → (attempt settings builder crm actor_id now lead action outcome after final_status state
          calls w).calls
        ≡ calls
  unfolding attempt fail finish
  attempt-calls lead action (raised failure) after final_status state calls w = refl
  attempt-calls lead action (returned result) after final_status state calls w = refl

  sync_suppressed-upserts :
      (lead : CrmLead) (calls : List (CrmCall CrmRecord)) (w : World)
      → upserts (sync_suppressed settings builder crm actor_id now lead calls w).calls
        ≡ upserts calls
  unfolding sync_suppressed attempt fail finish cancel
  sync_suppressed-upserts lead calls w = ground arith

  withdraw_record-upserts :
      (lead : CrmLead) (id : String) (calls : List (CrmCall CrmRecord))
      → upserts (withdraw_record settings builder crm actor_id now lead id calls).1 ≡ upserts calls
  unfolding withdraw_record after_withdraw
  withdraw_record-upserts lead id calls = ground arith

  sync_unapproved-upserts :
      (lead : CrmLead) (calls : List (CrmCall CrmRecord)) (w : World)
      → upserts (sync_unapproved settings builder crm actor_id now lead calls w).calls
        ≡ upserts calls
  unfolding sync_unapproved finish cancel
  sync_unapproved-upserts lead calls w = grind (arith, attempt-calls, withdraw_record-upserts)

  -- What one sync did to the records that were sent: at most the one that was built.
  abbrev SentAtMost : CrmRecord → List (CrmCall CrmRecord) → List (CrmCall CrmRecord) → Type 0
  SentAtMost built before after =
      (upserts after ≡ upserts before) ⊎ (upserts after ≡ built ∷ upserts before)

  sync_record-SentAtMost :
      (state : Eligibility) (built : CrmRecord) (lead : CrmLead) (calls : List (CrmCall CrmRecord))
      (w : World)
      → SentAtMost built calls
          (sync_record settings builder crm actor_id now state built lead calls w).calls
  unfolding sync_record attempt fail finish
  sync_record-SentAtMost state built lead calls w = ground arith

  link_existing-SentAtMost :
      (state : Eligibility) (built : CrmRecord) (lead : CrmLead) (outcome : Outcome (Option String))
      (calls : List (CrmCall CrmRecord)) (w : World)
      → SentAtMost built calls
          (link_existing settings builder crm actor_id now state built lead outcome calls w).calls
  unfolding link_existing fail
  link_existing-SentAtMost state built lead (raised failure) calls w = inl refl
  link_existing-SentAtMost state built lead (returned none) calls w =
      sync_record-SentAtMost state built lead calls w
  link_existing-SentAtMost state built lead (returned (some found)) calls w =
      let lead' = linked settings builder crm actor_id now lead found in
      sync_record-SentAtMost state built lead' calls
        (record_link settings builder crm actor_id now lead' w)

  sent_after_lookup :
      (state : Eligibility) (business : Business) (lead : CrmLead)
      (calls : List (CrmCall CrmRecord)) (w : World)
      → let phone = builder.format_phone business.phone_e164 in
        let built = builder.build_record business state.ready w.decisions w.users in
        SentAtMost built calls
          (link_existing settings builder crm actor_id now state built lead
            (crm.find_by_keys calls business.id business.domain phone)
            (find_by_keys business.id business.domain phone ∷ calls)
            w).calls
  sent_after_lookup state business lead calls w =
      let phone = builder.format_phone business.phone_e164 in
      link_existing-SentAtMost state (builder.build_record business state.ready w.decisions w.users)
        lead (crm.find_by_keys calls business.id business.domain phone)
        (find_by_keys business.id business.domain phone ∷ calls) w

  sync_ready-SentAtMost :
      (state : Eligibility) (business : Business) (lead : CrmLead)
      (calls : List (CrmCall CrmRecord)) (w : World)
      → SentAtMost
          (builder.build_record business state.ready w.decisions w.users)
          calls
          (sync_ready settings builder crm actor_id now state business lead calls w).calls
  unfolding sync_ready
  sync_ready-SentAtMost state business lead calls w = elim (Option-cases lead.external_id) [
    | inl e ↦ let h = sent_after_lookup state business lead calls w in ground arith
    | inr (id, e) ↦
        let h =
          sync_record-SentAtMost state
            (builder.build_record business state.ready w.decisions w.users) lead calls w in
        ground arith
  ]

  -- What the gate has seen when a record is sent.
  pub record IsSent (business : Business) (state : Eligibility) (built : CrmRecord)
      (before after : List (CrmCall CrmRecord)) : Type 0 where
    pub not_suppressed : state.suppressed ≡ false
    pub some_ready : non_empty state.ready ≡ true
    pub sent : upserts after ≡ built ∷ upserts before

  sync_gated-IsSent :
      (state : Eligibility) (business : Business) (lead : CrmLead)
      (calls : List (CrmCall CrmRecord)) (w : World)
      → let after =
          (sync_gated settings builder crm actor_id now state business lead calls w).calls in
        (upserts after ≡ upserts calls)
        ⊎ IsSent business state
            (builder.build_record business state.ready w.decisions w.users)
            calls
            after
  unfolding sync_gated
  sync_gated-IsSent state business lead calls w = elim (Bool-cases state.suppressed) [
    | inl s ↦ inl (let h = sync_suppressed-upserts lead calls w in ground arith)
    | inr s ↦ elim (Bool-cases (non_empty state.approved)) [
      | inr a ↦ inl (let h = sync_unapproved-upserts lead calls w in ground arith)
      | inl a ↦ elim (Bool-cases (non_empty state.ready)) [
        | inr r ↦ inl (ground arith)
        | inl r ↦ elim (sync_ready-SentAtMost state business lead calls w) [
          | inl same ↦ inl (ground arith)
          | inr more ↦ inr (record { not_suppressed = s; some_ready = r; sent = ground arith })
        ]
      ]
    ]
  ]

  -- Syncing a lead sends at most one record, whatever the destination answers and whatever the lead's
  -- status was. When it sends one, the lead's business is not suppressed and has at least one ready
  -- opportunity, the record is built from just the ready ones, and each of those is approved, not
  -- withdrawn, and either already in the record, past the delay, or sent at once on request.
  pub sync_lead-IsSent :
      (ignore_delay : Bool) (lead : CrmLead) (calls : List (CrmCall CrmRecord)) (w : World)
      → let after = (sync_lead settings builder crm actor_id now ignore_delay lead calls w).calls in
        (upserts after ≡ upserts calls)
        ⊎ ((business : Business) × (get_business lead.business_id w ≡ some business)
            × (let state = eligibility settings business now ignore_delay (carried_of lead w) w in
                IsSent business state
                  (builder.build_record business state.ready w.decisions w.users)
                  calls
                  after
                × All (IsReady settings now ignore_delay (carried_of lead w) business) state.ready))
  unfolding sync_lead sync_business
  sync_lead-IsSent ignore_delay lead calls w =
      elim (Option-cases (get_business lead.business_id w)) [
        | inl e ↦ inl (rw e refl)
        | inr (business, e) ↦
            let lead' = with_status CrmLeadStatus.syncing none lead in
            let state = eligibility settings business now ignore_delay (carried_of lead w) w in
            elim (sync_gated-IsSent state business lead' calls (set_lead lead' w)) [
              | inl same ↦ inl (rw e same)
              | inr sent ↦ inr (
                business,
                e,
                (
                  rw e sent,
                  eligibility-IsReady settings business now ignore_delay (carried_of lead w) w,
                ),
              )
            ]
      ]
