-- ===== src/Leads/Review/Decide.antt =====
-- What a decision rests on and what it changes.
use mathlib.Core.Path.{subst}
use lead_discovery_rader.Prelude.{
  ℕ, ◌≡◌, refl, ◌≢◌, String, Option, none, some, [], ◌∷◌, ◌++◌, Bool, true, false, arith, put,
  by_id-put, by_id-key, ◌⊎◌, inl, inr, ap, sym, ◌∙◌,
}
use lead_discovery_rader.Leads.Model.{
  ReviewStatus, Verdict, User, Opportunity, ReviewDecision, World, Settings, get_opportunity,
  set_opportunity,
}
use lead_discovery_rader.Leads.Schedule.Frames.{IsSameReview, on_business_changed-keeps}
use lead_discovery_rader.Leads.Review.Justified.{Result-cases, IsJustified, validate-IsJustified}
use lead_discovery_rader.Leads.Review.{
  Exc, Result, ok, err, stale_lock_version, Fields, ReviewRequest, is_decidable, to_status_of,
  is_approve, is_do_not_contact, check_lock, check_decidable, check_not_withdrawn, validate,
  tell_crm, decided, decision_row, add_decision, apply, check, decide_checked, decide,
}

-- The fields that a history row keeps.
abbrev pub fields_of : ReviewDecision → Fields
fields_of row = record {
  reason_code = row.reason_code;
  note = row.note;
  duplicate_of = row.duplicate_of;
  assigned_to = row.assigned_to;
}

module _ (settings : Settings) (actor : User) (now : ℕ) where
  pub tell_crm-keeps :
      (wanted is_approval : Bool) (business_id : ℕ) (w : World)
      → IsSameReview w (tell_crm settings actor now wanted is_approval business_id w)
  tell_crm-keeps true is_approval business_id w =
      on_business_changed-keeps settings (some actor.id) now is_approval business_id w
  tell_crm-keeps false is_approval business_id w = record {
    businesses = refl;
    users = refl;
    opportunities = refl;
    decisions = refl;
    suppressions = refl;
  }

  -- The opportunity is replaced and the history row is added.
  pub apply-tables :
      (decision : Verdict) (to_status : ReviewStatus) (fields : Fields) (o : Opportunity)
      (w : World)
      → let row = decision_row settings actor now decision to_status fields o w in
        let after = apply settings actor now decision to_status fields o w in
        (after.0 ≡ row)
        × (after.1.opportunities
            ≡ put
                (λ (x : Opportunity). x.id)
                (decided settings actor now decision to_status fields.assigned_to o)
                w.opportunities)
        × (after.1.decisions ≡ w.decisions ++ (row ∷ []))
        × (after.1.suppressions ≡ w.suppressions)
        × (after.1.businesses ≡ w.businesses)
  unfolding apply
  apply-tables decision to_status fields o w =
      let row = decision_row settings actor now decision to_status fields o w in
      let o' = decided settings actor now decision to_status fields.assigned_to o in
      let kept =
        tell_crm-keeps (is_approve decision) true o.business_id
          (set_opportunity o' (add_decision settings actor now row w)) in
      (refl, kept.opportunities, kept.decisions, kept.suppressions, kept.businesses)

  -- What the checks have seen.
  pub record IsChecked (o : Opportunity) (payload : ReviewRequest) : Type 0 where
    pub lock : o.lock_version ≡ payload.lock_version
    pub open_row : is_decidable o.review_status ≡ true
    pub supported : (is_approve payload.decision ≡ false) ⊎ (o.withdrawn_at ≡ none)

  pub check-ok :
      (strip : String → String) (found : Option Opportunity) (payload : ReviewRequest) (w : World)
      (o : Opportunity) (fields : Fields)
      → check settings actor now strip found payload w ≡ ok (o, fields)
      → (found ≡ some o) × IsChecked o payload
  unfolding check check_lock check_decidable check_not_withdrawn
  check-ok strip none payload w o fields h = absurd (ground arith)
  check-ok strip (some x) payload w o fields h = elim (Result-cases (validate strip x payload w)) [
    | inr (e, v) ↦ absurd (ground arith)
    | inl (f, v) ↦ (
      ground arith,
      record { lock = ground arith; open_row = ground arith; supported = ground arith },
    )
  ]

  check-validated :
      (strip : String → String) (found : Option Opportunity) (payload : ReviewRequest) (w : World)
      (o : Opportunity) (fields : Fields)
      → check settings actor now strip found payload w ≡ ok (o, fields)
      → validate strip o payload w ≡ ok fields
  unfolding check check_lock check_decidable check_not_withdrawn
  check-validated strip none payload w o fields h = absurd (ground arith)
  check-validated strip (some x) payload w o fields h =
      elim (Result-cases (validate strip x payload w)) [
        | inr (e, v) ↦ absurd (ground arith)
        | inl (f, v) ↦
            let seen : x ≡ o = ground arith in
            let same : f ≡ fields = ground arith in
            ap (λ (y : Opportunity). validate strip y payload w) (sym seen) ∙ v ∙ ap ok same
      ]

  apply-IsJustified :
      (strip : String → String) (o : Opportunity) (payload : ReviewRequest) (fields : Fields)
      (w : World)
      → IsJustified strip o payload fields w
      → let after =
          apply settings actor now payload.decision (to_status_of payload.decision) fields o w in
        IsJustified strip o payload (fields_of after.0) w
  apply-IsJustified strip o payload fields w justified =
      let verdict = payload.decision in
      let (r, t, d, s, b) = apply-tables verdict (to_status_of verdict) fields o w in
      subst (λ (x : Fields). IsJustified strip o payload x w) (ap fields_of (sym r)) justified

  -- What a decision that is not do-not-contact leaves behind.
  pub record IsDecided (o : Opportunity) (payload : ReviewRequest) (row : ReviewDecision)
      (w after : World) : Type 0 where
    pub checked : IsChecked o payload
    pub row_id : row.id ≡ w.next_id
    pub row_of : row.opportunity_id ≡ o.id
    pub row_decision : row.decision ≡ payload.decision
    pub row_from : row.from_status ≡ o.review_status
    pub row_to : row.to_status ≡ to_status_of payload.decision
    pub row_by : row.decided_by ≡ actor.id
    pub row_at : row.decided_at ≡ now
    pub row_in_force : row.undone_at ≡ none
    pub opportunities :
        after.opportunities
        ≡ put
            (λ (x : Opportunity). x.id)
            (decided settings actor now payload.decision
              (to_status_of payload.decision)
              row.assigned_to
              o)
            w.opportunities
    pub decisions : after.decisions ≡ w.decisions ++ (row ∷ [])
    pub suppressions : after.suppressions ≡ w.suppressions

  apply-IsDecided :
      (o : Opportunity) (payload : ReviewRequest) (fields : Fields) (w : World)
      → IsChecked o payload
      → let after =
          apply settings actor now payload.decision (to_status_of payload.decision) fields o w in
        IsDecided o payload after.0 w after.1
  apply-IsDecided o payload fields w checked =
      let verdict = payload.decision in
      let (r, t, d, s, b) = apply-tables verdict (to_status_of verdict) fields o w in
      record {
        checked = checked;
        row_id = ap (λ (x : ReviewDecision). x.id) r;
        row_of = ap (λ (x : ReviewDecision). x.opportunity_id) r;
        row_decision = ap (λ (x : ReviewDecision). x.decision) r;
        row_from = ap (λ (x : ReviewDecision). x.from_status) r;
        row_to = ap (λ (x : ReviewDecision). x.to_status) r;
        row_by = ap (λ (x : ReviewDecision). x.decided_by) r;
        row_at = ap (λ (x : ReviewDecision). x.decided_at) r;
        row_in_force = ap (λ (x : ReviewDecision). x.undone_at) r;
        opportunities = rw (ap (λ (x : ReviewDecision). x.assigned_to) r) t;
        decisions = rw r d;
        suppressions = s;
      }

  decide-apply :
      (strip : String → String) (id : ℕ) (payload : ReviewRequest) (w : World) (o : Opportunity)
      (fields : Fields)
      → is_do_not_contact payload.decision ≡ false
      → check settings actor now strip (get_opportunity id w) payload w ≡ ok (o, fields)
      → let after =
          apply settings actor now payload.decision (to_status_of payload.decision) fields o w in
        decide settings actor now strip id payload w ≡ (ok after.0, after.1)
  unfolding decide decide_checked
  decide-apply strip id payload w o fields plain c = ground arith

  abbrev value_of {ℓ} : {A : Type ℓ} → A → Result A → A
  value_of a (ok b) = b
  value_of a (err e) = a

  pub decide-stops :
      (strip : String → String) (id : ℕ) (payload : ReviewRequest) (w : World) (e : Exc)
      → check settings actor now strip (get_opportunity id w) payload w ≡ err e
      → {row : ReviewDecision} → (decide settings actor now strip id payload w).0 ≡ ok row
      → ⊥
  unfolding decide
  decide-stops strip id payload w e c h = ground arith

  -- A decision other than do-not-contact that returns was made on an open opportunity, at the lock
  -- version that it names, and an approval on one that is not withdrawn. It is justified: a rejection
  -- and a not-a-fit have one of their reason codes, with a note where the code is "other"; a request
  -- for enrichment has a note; a duplicate names another opportunity that exists, for the same service;
  -- an approval names no assignee, or an active sales representative. The history row keeps these
  -- values. Of the opportunities only the decided one is replaced, one history row is added, and the
  -- suppressions stay.
  pub decide-IsDecided :
      (strip : String → String) (id : ℕ) (payload : ReviewRequest) (w : World)
      (row : ReviewDecision)
      → is_do_not_contact payload.decision ≡ false
      → (decide settings actor now strip id payload w).0 ≡ ok row
      → (o : Opportunity) × (get_opportunity id w ≡ some o)
        × IsDecided o payload row w (decide settings actor now strip id payload w).1
        × IsJustified strip o payload (fields_of row) w
  decide-IsDecided strip id payload w row plain h =
      elim (Result-cases (check settings actor now strip (get_opportunity id w) payload w)) [
        | inr (e, c) ↦ absurd (decide-stops strip id payload w e c h)
        | inl ((o, fields), c) ↦
            let (found, checked) = check-ok strip (get_opportunity id w) payload w o fields c in
            let done = decide-apply strip id payload w o fields plain c in
            let same =
              sym (ap (λ (r : Result ReviewDecision × World). value_of row r.0) done)
              ∙ ap (value_of row) h in
            let seen =
              validate-IsJustified strip o payload w fields
                (check-validated strip (get_opportunity id w) payload w o fields c) in
            (
              o,
              found,
              rw done (
                  subst
                    (λ (x : ReviewDecision).
                      IsDecided o payload x w
                        (apply settings actor now payload.decision (to_status_of payload.decision)
                          fields o w).1)
                    same (apply-IsDecided o payload fields w checked)),
              subst (λ (x : ReviewDecision). IsJustified strip o payload (fields_of x) w) same
                  (apply-IsJustified strip o payload fields w seen),
            )
      ]

  -- A decision other than do-not-contact that is refused changes nothing.
  pub decide-refused :
      (strip : String → String) (id : ℕ) (payload : ReviewRequest) (w : World) (e : Exc)
      → is_do_not_contact payload.decision ≡ false
      → (decide settings actor now strip id payload w).0 ≡ err e
      → (decide settings actor now strip id payload w).1 ≡ w
  unfolding decide decide_checked
  decide-refused strip id payload w e plain h = ground arith

  -- After the decision, the opportunity reads as decided, and every other reads as before.
  pub decided-lookup :
      (id : ℕ) (payload : ReviewRequest) (w after : World) (row : ReviewDecision) (o : Opportunity)
      → get_opportunity id w ≡ some o
      → IsDecided o payload row w after
      → (get_opportunity id after
          ≡ some (
              decided settings actor now payload.decision
                (to_status_of payload.decision)
                row.assigned_to
                o))
        × ((k : ℕ) → k ≢ id → get_opportunity k after ≡ get_opportunity k w)
  unfolding decided
  decided-lookup id payload w after row o found h =
      let o' =
        decided settings actor now payload.decision (to_status_of payload.decision) row.assigned_to
          o in
      let key = by_id-key (λ (x : Opportunity). x.id) id w.opportunities found in
      (
        rw h.opportunities (
            ground
              (arith, by_id-put (λ (x : Opportunity). x.id) o' id w.opportunities, key, found)),
        λ k other. rw h.opportunities (
            ground (arith, by_id-put (λ (x : Opportunity). x.id) o' k w.opportunities, key, other)),
      )

  check-stale :
      (strip : String → String) (o : Opportunity) (payload : ReviewRequest) (w : World)
      → o.lock_version ≢ payload.lock_version
      → check settings actor now strip (some o) payload w ≡ err stale_lock_version
  unfolding check check_lock
  check-stale strip o payload w h = ground arith

  decide-stale_check :
      (strip : String → String) (id : ℕ) (payload : ReviewRequest) (w : World) (o : Opportunity)
      → get_opportunity id w ≡ some o
      → o.lock_version ≢ payload.lock_version
      → decide settings actor now strip id payload w ≡ (err stale_lock_version, w)
  unfolding decide
  decide-stale_check strip id payload w o found h =
      ground (arith, found, check-stale strip o payload w h)

-- Two requests that name one lock version: once the first has decided, the second is told that it is
-- stale, whoever sends it, whatever it decides, and changes nothing. The first is no do-not-contact.
pub decide-twice :
    (settings : Settings) (first second : User) (now later : ℕ) (strip : String → String) (id : ℕ)
    (payload again : ReviewRequest) (w : World) (row : ReviewDecision)
    → is_do_not_contact payload.decision ≡ false
    → again.lock_version ≡ payload.lock_version
    → (decide settings first now strip id payload w).0 ≡ ok row
    → let after = (decide settings first now strip id payload w).1 in
      decide settings second later strip id again after ≡ (err stale_lock_version, after)
unfolding decided
decide-twice settings first second now later strip id payload again w row plain same h =
    let after : World = (decide settings first now strip id payload w).1 in
    let (o, found, is_decided, justified) =
      decide-IsDecided settings first now strip id payload w row plain h in
    let (found', others) =
      decided-lookup settings first now id payload w after row o found is_decided in
    decide-stale_check settings second later strip id again after
      (decided settings first now payload.decision (to_status_of payload.decision) row.assigned_to
        o)
      found' (ground (arith, is_decided.checked.lock, same))
