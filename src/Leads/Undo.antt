-- ===== src/Leads/Undo.antt =====
-- `undo` of modules/review/service.py: within its window, a decision is taken back.
pub mod RoundTrip
use lead_discovery_rader.Prelude.{
  ℕ, ◌+◌, ◌*◌, String, Option, none, some, List, [], ◌∷◌, ◌++◌, Bool, true, false, not, ◌&&◌, ◌||◌,
  leb, ltb, ◌==◌, keep, if◌then◌else◌,
}
use lead_discovery_rader.Leads.Model
use lead_discovery_rader.Leads.Model.{
  ReviewStatus, same_review_status, Verdict, Role, User, Opportunity, ReviewDecision, Event,
  review_undone, World, Settings, get_opportunity, get_decision, set_opportunity, set_decision,
  record_audit,
}
use lead_discovery_rader.Leads.Gate.{is_none}
use lead_discovery_rader.Leads.Suppress.{lift_review_suppressions}
use lead_discovery_rader.Leads.Review.{
  Exc, Result, ok, err, guard, ◌>>=◌, ◌>>◌, is_decidable, is_approve, is_do_not_contact, snapshot,
  tell_crm, decision_not_found, already_undone, not_permitted, undo_window_closed, undo_conflict,
  opportunity_not_found,
}

unfoldable pub undo_deadline : ReviewDecision → Settings → ℕ
undo_deadline row settings = row.decided_at + settings.review_undo_window_minutes * 60

-- Another decision on the opportunity, in force, and not made after the row.
abbrev pub precedes : ReviewDecision → ReviewDecision → Bool
precedes row other =
    (other.opportunity_id == row.opportunity_id)
    && (is_none other.undone_at
        && (not (other.id == row.id) && leb other.decided_at row.decided_at))

-- The last by `decided_at`, then by id.
abbrev newer : ReviewDecision → Option ReviewDecision → Option ReviewDecision
newer row none = some row
newer row (some other) =
    if (if row.decided_at == other.decided_at
      then ltb other.id row.id
      else ltb other.decided_at row.decided_at)
    then some row
    else some other

pub newest : List ReviewDecision → Option ReviewDecision
newest [] = none
newest (row ∷ rest) = newer row (newest rest)

unfoldable pub previous_decision : ReviewDecision → World → Option ReviewDecision
unfolding newest
previous_decision row w = newest (keep (precedes row) w.decisions)

abbrev is_admin : Role → Bool
is_admin Role.admin = true
is_admin _ = false

module _ (settings : Settings) (actor : User) (now : ℕ) where
  -- The stamp of the decision that was in force before, where the row was not open before.
  abbrev stamp : ReviewDecision → Option ReviewDecision → Opportunity → Opportunity
  stamp row none o = record o { decided_at = none; decided_by = none }
  stamp row (some previous) o =
      if is_decidable row.from_status
      then record o { decided_at = none; decided_by = none }
      else record o { decided_at = some previous.decided_at; decided_by = some previous.decided_by }

  -- What `_restore` does to the opportunity.
  unfoldable pub restored : ReviewDecision → Option ReviewDecision → Opportunity → Opportunity
  unfolding is_decidable
  restored row previous o =
      let o' =
        stamp row previous
          (record o { review_status = row.from_status; lock_version = o.lock_version + 1 }) in
      record o' { assigned_to = if is_approve row.decision then none else o'.assigned_to }

  abbrev pub undone : ReviewDecision → ReviewDecision
  undone row = record row { undone_at = some now; undone_by = some actor.id }

  -- `_restore`
  unfoldable pub restore : Opportunity → ReviewDecision → World → World
  unfolding restored
  restore o row w =
      let o' = restored row (previous_decision row w) o in
      let told =
        tell_crm settings actor now (is_approve row.decision) false o.business_id
          (set_decision (undone row) (set_opportunity o' w)) in
      record_audit (review_undone (snapshot o) (snapshot o') row) o.id (some actor.id) told

  -- One decision of those that are taken back together.
  restore_found : Option Opportunity → ReviewDecision → World → Result (Unit {0}) × World
  unfolding restore same_review_status
  restore_found none row w = (err opportunity_not_found, w)
  restore_found (some o) row w =
      if not (same_review_status o.review_status row.to_status)
      then (err undo_conflict, w)
      else (ok tt, restore o row w)

  unfoldable pub restore_all : List ReviewDecision → World → Result (Unit {0}) × World
  unfolding restore_found
  restore_all [] w = (ok tt, w)
  restore_all (row ∷ rest) w =
      let (r, w') = restore_found (get_opportunity row.opportunity_id w) row w in
      elim r [ err e ↦ (err e, w') | ok _ ↦ restore_all rest w' ]

  abbrev business_of : Option Opportunity → ℕ → Bool
  business_of none id = false
  business_of (some o) id = o.business_id == id

  abbrev sibling : World → ℕ → ReviewDecision → ReviewDecision → Bool
  sibling w business_id row other =
      business_of (get_opportunity other.opportunity_id w) business_id
      && (is_do_not_contact other.decision
          && ((other.decided_by == row.decided_by)
              && ((other.decided_at == row.decided_at) && is_none other.undone_at)))

  insert_by_id : ReviewDecision → List ReviewDecision → List ReviewDecision
  insert_by_id x [] = x ∷ []
  insert_by_id x (y ∷ ys) = if leb x.id y.id then x ∷ y ∷ ys else y ∷ insert_by_id x ys

  order_by_id : List ReviewDecision → List ReviewDecision
  unfolding insert_by_id
  order_by_id [] = []
  order_by_id (x ∷ xs) = insert_by_id x (order_by_id xs)

  -- `_do_not_contact_siblings`
  unfoldable pub siblings : Opportunity → ReviewDecision → World → List ReviewDecision
  unfolding order_by_id
  siblings target row w = order_by_id (keep (sibling w target.business_id row) w.decisions)

  abbrev rows_of : ReviewDecision → Option Opportunity → World → Result (List ReviewDecision)
  rows_of row target w =
      if is_do_not_contact row.decision
      then (elim target as (λ _. Result (List ReviewDecision)) [
        | none ↦ err opportunity_not_found
        | some o ↦ ok (siblings o row w)
      ])
      else ok (row ∷ [])

  -- The checks of `undo`.
  unfoldable pub check_undo :
      Option ReviewDecision → World → Result (ReviewDecision × List ReviewDecision)
  unfolding undo_deadline siblings
  check_undo none w = err decision_not_found
  check_undo (some row) w = do
    guard (is_none row.undone_at) already_undone
    guard (is_admin actor.role || (row.decided_by == actor.id)) not_permitted
    guard (leb now (undo_deadline row settings)) undo_window_closed
    rows ← rows_of row (get_opportunity row.opportunity_id w) w
    ok (row, rows)

  abbrev lift_after : Option Opportunity → ReviewDecision → World → ℕ × World
  lift_after none row w = (0, w)
  lift_after (some o) row w =
      if is_do_not_contact row.decision
      then lift_review_suppressions settings now actor.id o.business_id w
      else (0, w)

  undo_checked : ReviewDecision × List ReviewDecision → World → Result ℕ × World
  unfolding restore_all
  undo_checked (row, rows) w =
      let (r, w') = restore_all rows w in
      elim r [
        | err e ↦ (err e, w')
        | ok _ ↦
            let (lifted, w'') = lift_after (get_opportunity row.opportunity_id w') row w' in
            (ok lifted, w'')
      ]

  unfoldable pub undo : ℕ → World → Result ℕ × World
  unfolding check_undo undo_checked
  undo id w = elim (check_undo (get_decision id w) w) [
    | err e ↦ (err e, w)
    | ok found ↦ undo_checked found w
  ]
