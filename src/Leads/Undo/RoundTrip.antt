-- ===== src/Leads/Undo/RoundTrip.antt =====
-- Undoing a decision that has just been made.
use lead_discovery_rader.Prelude.{
  ℕ, ◌+◌, ◌*◌, ◌≤◌, ◌≡◌, refl, ◌≢◌, String, Option, none, some, [], ◌∷◌, true, false, arith, put,
  by_id-put, by_id-snoc, by_id-key, ap, sym, ◌∙◌, if◌then◌else◌,
}
use lead_discovery_rader.Leads.Model.{
  ReviewStatus, same_review_status, User, Opportunity, ReviewDecision, World, Settings,
  get_opportunity, get_decision, set_opportunity, set_decision,
}
use lead_discovery_rader.Leads.Review.{
  Result, ok, ReviewRequest, is_decidable, to_status_of, is_approve, is_do_not_contact, decided,
  decide,
}
use lead_discovery_rader.Leads.Review.Decide.{
  tell_crm-keeps, IsDecided, decide-IsDecided, decided-lookup,
}
use lead_discovery_rader.Leads.Undo.{
  undo_deadline, previous_decision, restored, undone, restore, restore_found, restore_all,
  check_undo, undo_checked, undo,
}

same_review_status_refl : (s : ReviewStatus) → same_review_status s s ≡ true
unfolding same_review_status
same_review_status_refl s = ground arith

module _ (settings : Settings) (actor : User) (now : ℕ) where
  restore-tables :
      (o : Opportunity) (row : ReviewDecision) (w : World)
      → let after = restore settings actor now o row w in
        (after.opportunities
          ≡ put
              (λ (x : Opportunity). x.id)
              (restored settings actor now row (previous_decision row w) o)
              w.opportunities)
        × (after.decisions
            ≡ put (λ (x : ReviewDecision). x.id) (undone settings actor now row) w.decisions)
        × (after.suppressions ≡ w.suppressions)
  unfolding restore
  restore-tables o row w =
      let o' = restored settings actor now row (previous_decision row w) o in
      let kept =
        tell_crm-keeps settings actor now (is_approve row.decision) false o.business_id
          (set_decision (undone settings actor now row) (set_opportunity o' w)) in
      (kept.opportunities, kept.decisions, kept.suppressions)

  -- An open opportunity gets its status back and loses the stamp.
  restored-open :
      (row : ReviewDecision) (previous : Option ReviewDecision) (o : Opportunity)
      → is_decidable row.from_status ≡ true
      → restored settings actor now row previous o ≡ record o {
        review_status = row.from_status;
        lock_version = o.lock_version + 1;
        decided_at = none;
        decided_by = none;
        assigned_to = if is_approve row.decision then none else o.assigned_to;
      }
  unfolding restored
  restored-open row none o h = ground arith
  restored-open row (some previous) o h = ground arith

  check_undo-passes :
      (row : ReviewDecision) (w : World)
      → row.undone_at ≡ none
      → row.decided_by ≡ actor.id
      → now ≤ undo_deadline row settings
      → is_do_not_contact row.decision ≡ false
      → check_undo settings actor now (some row) w ≡ ok (row, row ∷ [])
  unfolding check_undo
  check_undo-passes row w fresh mine early plain = ground arith

  restore_all-one :
      (o : Opportunity) (row : ReviewDecision) (w : World)
      → get_opportunity row.opportunity_id w ≡ some o
      → o.review_status ≡ row.to_status
      → restore_all settings actor now (row ∷ []) w ≡ (ok tt, restore settings actor now o row w)
  unfolding restore_all restore_found
  restore_all-one o row w found same = ground (arith, found, same_review_status_refl row.to_status)

  undo-one :
      (row : ReviewDecision) (o : Opportunity) (w : World)
      → get_decision row.id w ≡ some row
      → row.undone_at ≡ none
      → row.decided_by ≡ actor.id
      → now ≤ undo_deadline row settings
      → is_do_not_contact row.decision ≡ false
      → get_opportunity row.opportunity_id w ≡ some o
      → o.review_status ≡ row.to_status
      → undo settings actor now row.id w ≡ (ok 0, restore settings actor now o row w)
  unfolding undo undo_checked
  undo-one row o w listed fresh mine early plain found same =
      ground (arith, check_undo-passes row w, restore_all-one o row w)

  restore-lookup :
      (id : ℕ) (o : Opportunity) (row : ReviewDecision) (w : World)
      → get_opportunity id w ≡ some o
      → get_decision row.id w ≡ some row
      → let after = restore settings actor now o row w in
        (get_opportunity id after
          ≡ some (restored settings actor now row (previous_decision row w) o))
        × ((k : ℕ) → k ≢ id → get_opportunity k after ≡ get_opportunity k w)
        × (get_decision row.id after ≡ some (undone settings actor now row))
        × (after.suppressions ≡ w.suppressions)
  unfolding restored
  restore-lookup id o row w found listed =
      let (opps, decs, sups) = restore-tables o row w in
      let key = by_id-key (λ (x : Opportunity). x.id) id w.opportunities found in
      let o' = restored settings actor now row (previous_decision row w) o in
      let same : o'.id ≡ o.id = restored-id (previous_decision row w) in
      (
        rw opps (
            ground (
              arith,
              by_id-put (λ (x : Opportunity). x.id) o' id w.opportunities,
              key,
              found,
              same,
            )),
        λ k other. rw opps (
            ground (
              arith,
              by_id-put (λ (x : Opportunity). x.id) o' k w.opportunities,
              key,
              other,
              same,
            )),
        rw decs (
            ground (
              arith,
              by_id-put (λ (x : ReviewDecision). x.id) (undone settings actor now row) row.id
                  w.decisions,
              listed,
            )),
        sups,
      )
    where
      restored-id :
          (previous : Option ReviewDecision)
          → (restored settings actor now row previous o).id ≡ o.id
      restored-id none = refl
      restored-id (some previous) = ground arith

-- What the undo makes of what the decision made.
restored-decided :
    (settings : Settings) (actor : User) (now later : ℕ) (payload : ReviewRequest) (w after : World)
    (row : ReviewDecision) (o : Opportunity) (previous : Option ReviewDecision)
    → IsDecided settings actor now o payload row w after
    → restored settings actor later row previous (
        decided settings actor now payload.decision
          (to_status_of payload.decision)
          row.assigned_to
          o)
      ≡ record o {
        lock_version = o.lock_version + 1 + 1;
        decided_at = none;
        decided_by = none;
        assigned_to = if is_approve payload.decision then none else o.assigned_to;
      }
unfolding decided
restored-decided settings actor now later payload w after row o previous d =
    let o' =
      decided settings actor now payload.decision (to_status_of payload.decision) row.assigned_to
        o in
    restored-open settings actor later row previous o' (rw d.row_from d.checked.open_row)
    ∙ ground (arith, d.row_from, d.row_decision)

-- A decision other than do-not-contact, undone by its reviewer within the window: the undo succeeds,
-- and the opportunity is as it was before the decision, but for a lock version two higher, no
-- decision stamp, and no assignee where the decision was an approval. No other opportunity and no
-- suppression has changed, and the history row is marked as undone. The id of the new row is fresh.
pub undo-decide :
    (settings : Settings) (actor : User) (now later : ℕ) (strip : String → String) (id : ℕ)
    (payload : ReviewRequest) (w : World) (row : ReviewDecision) (k : ℕ)
    → k ≢ id
    → is_do_not_contact payload.decision ≡ false
    → get_decision w.next_id w ≡ none
    → later ≤ now + settings.review_undo_window_minutes * 60
    → (decide settings actor now strip id payload w).0 ≡ ok row
    → let after =
        undo settings actor later row.id (decide settings actor now strip id payload w).1 in
      (o : Opportunity) × (get_opportunity id w ≡ some o)
      × (after.0 ≡ ok 0)
      × (get_opportunity id after.1
          ≡ some (record o {
            lock_version = o.lock_version + 1 + 1;
            decided_at = none;
            decided_by = none;
            assigned_to = if is_approve payload.decision then none else o.assigned_to;
          }))
      × (get_opportunity k after.1 ≡ get_opportunity k w)
      × (get_decision row.id after.1 ≡ some (undone settings actor later row))
      × (after.1.suppressions ≡ w.suppressions)
unfolding decided undo_deadline
undo-decide settings actor now later strip id payload w row k other plain fresh early h =
    let middle : World = (decide settings actor now strip id payload w).1 in
    let (o, found, d, justified) =
      decide-IsDecided settings actor now strip id payload w row plain h in
    let (found', others) = decided-lookup settings actor now id payload w middle row o found d in
    let o' =
      decided settings actor now payload.decision (to_status_of payload.decision) row.assigned_to
        o in
    let key : o.id ≡ id = by_id-key (λ (x : Opportunity). x.id) id w.opportunities found in
    let listed : get_decision row.id middle ≡ some row = rw d.decisions (
      ground (
        arith,
        by_id-snoc (λ (x : ReviewDecision). x.id) row row.id w.decisions,
        fresh,
        d.row_id,
      )) in
    let of_row : get_opportunity row.opportunity_id middle ≡ some o' = rw (d.row_of ∙ key) found' in
    let back =
      undo-one settings actor later row o' middle listed d.row_in_force d.row_by
        (ground (arith, d.row_at)) (rw d.row_decision plain) of_row (sym d.row_to) in
    let (now_there, still, marked, sups) =
      restore-lookup settings actor later id o' row middle found' listed in
    (
      o,
      found,
      ap (λ (r : Result ℕ × World). r.0) back,
      rw back (
          now_there
          ∙ ap some (
              restored-decided settings actor now later payload w middle row o
                (previous_decision row middle) d)),
      rw back (still k other ∙ others k other),
      rw back marked,
      rw back (sups ∙ d.suppressions),
    )
