-- ===== src/Leads/Review.antt =====
-- Deciding opportunities: `decide` and `decide_batch` of modules/review/service.py, up to the row
-- that the read models are built from.
pub mod Justified
pub mod Decide
pub mod DoNotContact
use lead_discovery_rader.Prelude.{
  ℕ, ◌+◌, String, Option, none, some, List, [], ◌∷◌, ◌++◌, Bool, true, false, not, ◌&&◌, ◌||◌, leb,
  ◌==◌, ◌==ₛ◌, any, keep, if◌then◌else◌,
}
use lead_discovery_rader.Leads.Model
use lead_discovery_rader.Leads.Model.{
  ReviewStatus, same_review_status, Verdict, Role, User, Business, Opportunity, ReviewDecision,
  Snapshot, Event, reviewed, World, Settings, get_opportunity, get_business, get_user,
  set_opportunity, record_audit,
}
use lead_discovery_rader.Leads.Gate.{is_none}
use lead_discovery_rader.Leads.Schedule.{on_business_changed}
use lead_discovery_rader.Leads.Suppress.{suppress_business}

pub data Exc : Type 0 where
  opportunity_not_found stale_lock_version not_decidable withdrawn_opportunity : Exc
  reason_code_needed note_needed duplicate_of_needed duplicate_of_itself unknown_duplicate_of : Exc
  other_service invalid_assignee decision_not_found already_undone not_permitted : Exc
  undo_window_closed undo_conflict business_not_found not_the_target : Exc

pub data Result {ℓ} (A : Type ℓ) : Type ℓ where
  err : Exc → Result A
  ok : A → Result A

-- A check of the request: it raises the error where the test fails.
abbrev pub guard : Bool → Exc → Result (Unit {0})
guard false problem = err problem
guard true problem = ok tt

infixl 5 ◌>>◌ ◌>>=◌
abbrev pub ◌>>◌ {ℓ} : {A : Type ℓ} → Result (Unit {0}) → Result A → Result A
err problem >> next = err problem
ok done >> next = next

abbrev pub ◌>>=◌ {κ ℓ} : {A : Type κ} {B : Type ℓ} → Result A → (A → Result B) → Result B
err problem >>= next = err problem
ok value >>= next = next value

-- `DECIDABLE`
unfoldable pub is_decidable : ReviewStatus → Bool
is_decidable ReviewStatus.pending = true
is_decidable ReviewStatus.needs_enrichment = true
is_decidable ReviewStatus.approved = false
is_decidable ReviewStatus.rejected = false
is_decidable ReviewStatus.duplicate = false
is_decidable ReviewStatus.not_a_fit = false
is_decidable ReviewStatus.do_not_contact = false

-- `TO_STATUS`
unfoldable pub to_status_of : Verdict → ReviewStatus
to_status_of Verdict.approve = ReviewStatus.approved
to_status_of Verdict.reject = ReviewStatus.rejected
to_status_of Verdict.needs_enrichment = ReviewStatus.needs_enrichment
to_status_of Verdict.duplicate = ReviewStatus.duplicate
to_status_of Verdict.not_a_fit = ReviewStatus.not_a_fit
to_status_of Verdict.do_not_contact = ReviewStatus.do_not_contact

-- `REASON_CODES`
abbrev pub reason_codes : Verdict → List String
reason_codes Verdict.reject =
    "evidence_wrong" ∷ "business_closed" ∷ "wrong_industry" ∷ "ai_mistake" ∷ "other" ∷ []
reason_codes Verdict.not_a_fit =
    "too_small" ∷ "too_large" ∷ "outside_area" ∷ "already_client" ∷ "other" ∷ []
reason_codes _ = []

abbrev pub is_approve : Verdict → Bool
is_approve Verdict.approve = true
is_approve _ = false

abbrev pub is_do_not_contact : Verdict → Bool
is_do_not_contact Verdict.do_not_contact = true
is_do_not_contact _ = false

pub record ReviewRequest : Type 0 where
  pub decision : Verdict
  pub lock_version : ℕ
  pub reason_code : Option String
  pub note : Option String
  pub duplicate_of : Option ℕ
  pub assigned_to : Option ℕ

-- What `_validate` returns.
pub record Fields : Type 0 where
  pub reason_code : Option String
  pub note : Option String
  pub duplicate_of : Option ℕ
  pub assigned_to : Option ℕ

-- `(value or "").strip() or None`, with the strip of the language as a parameter.
abbrev pub stripped : (String → String) → Option String → Option String
stripped strip none = none
stripped strip (some value) = if strip value ==ₛ "" then none else some (strip value)

unfoldable pub check_lock : Opportunity → ℕ → Result (Unit {0})
check_lock opportunity lock_version =
    guard (opportunity.lock_version == lock_version) stale_lock_version

unfoldable pub check_decidable : Opportunity → Result (Unit {0})
unfolding is_decidable
check_decidable opportunity = guard (is_decidable opportunity.review_status) not_decidable

unfoldable pub check_not_withdrawn : Opportunity → Verdict → Result (Unit {0})
check_not_withdrawn opportunity decision =
    guard (not (is_approve decision) || is_none opportunity.withdrawn_at) withdrawn_opportunity

abbrev pub one_of : Option String → List String → Bool
one_of none codes = false
one_of (some code) codes = any (λ other. code ==ₛ other) codes

abbrev pub is_other : Option String → Bool
is_other none = false
is_other (some code) = code ==ₛ "other"

-- The reason code and the note that a decision needs.
unfoldable pub check_reason : Verdict → Option String → Option String → Result (Option String)
check_reason decision reason_code note = do
  guard (one_of reason_code (reason_codes decision)) reason_code_needed
  guard (not (is_other reason_code) || not (is_none note)) note_needed
  ok reason_code

unfoldable pub validate_text : Verdict → Option String → Option String → Result (Option String)
unfolding check_reason
validate_text Verdict.reject reason_code remark = check_reason Verdict.reject reason_code remark
validate_text Verdict.not_a_fit reason_code remark =
    check_reason Verdict.not_a_fit reason_code remark
validate_text Verdict.needs_enrichment reason_code remark = do
  guard (not (is_none remark)) note_needed
  ok none
validate_text Verdict.do_not_contact reason_code remark = do
  guard (not (is_none remark)) note_needed
  ok none
validate_text Verdict.approve reason_code remark = ok none
validate_text Verdict.duplicate reason_code remark = ok none

unfoldable pub same_service : Opportunity → Option Opportunity → Result (Option ℕ)
same_service opportunity none = err unknown_duplicate_of
same_service opportunity (some other) =
    if other.service ==ₛ opportunity.service then ok (some other.id) else err other_service

unfoldable pub validate_duplicate_of : Opportunity → Option ℕ → World → Result (Option ℕ)
unfolding same_service
validate_duplicate_of opportunity none w = err duplicate_of_needed
validate_duplicate_of opportunity (some id) w =
    if id == opportunity.id
    then err duplicate_of_itself
    else same_service opportunity (get_opportunity id w)

abbrev pub is_sales_rep : Role → Bool
is_sales_rep Role.sales_rep = true
is_sales_rep _ = false

abbrev pub assignable : Option User → Result (Option ℕ)
assignable none = err invalid_assignee
assignable (some user) =
    if user.is_active && is_sales_rep user.role then ok (some user.id) else err invalid_assignee

unfoldable pub validate_assignee : Option ℕ → World → Result (Option ℕ)
validate_assignee none w = ok none
validate_assignee (some id) w = assignable (get_user id w)

abbrev pub duplicate_field : Verdict → Opportunity → Option ℕ → World → Result (Option ℕ)
duplicate_field Verdict.duplicate opportunity id w = validate_duplicate_of opportunity id w
duplicate_field _ opportunity id w = ok none

abbrev pub assignee_field : Verdict → Option ℕ → World → Result (Option ℕ)
assignee_field Verdict.approve id w = validate_assignee id w
assignee_field _ id w = ok none

unfoldable pub validate : (String → String) → Opportunity → ReviewRequest → World → Result Fields
unfolding validate_text
validate strip opportunity payload w = do
  let note = stripped strip payload.note
  reason_code ← validate_text payload.decision (stripped strip payload.reason_code) note
  duplicate_of ← duplicate_field payload.decision opportunity payload.duplicate_of w
  assigned_to ← assignee_field payload.decision payload.assigned_to w
  ok (record {
    reason_code = reason_code;
    note = note;
    duplicate_of = duplicate_of;
    assigned_to = assigned_to;
  })

abbrev pub snapshot : Opportunity → Snapshot
snapshot o = record {
  review_status = o.review_status;
  lock_version = o.lock_version;
  assigned_to = o.assigned_to;
  decided_by = o.decided_by;
  decided_at = o.decided_at;
}

module _ (settings : Settings) (actor : User) (now : ℕ) where
  -- What a decision does to its opportunity.
  unfoldable pub decided : Verdict → ReviewStatus → Option ℕ → Opportunity → Opportunity
  decided decision to_status assigned_to o = record o {
    review_status = to_status;
    decided_at = some now;
    decided_by = some actor.id;
    lock_version = o.lock_version + 1;
    assigned_to = if is_approve decision then assigned_to else o.assigned_to;
  }

  abbrev pub decision_row : Verdict → ReviewStatus → Fields → Opportunity → World → ReviewDecision
  decision_row decision to_status fields o w = record {
    id = w.next_id;
    opportunity_id = o.id;
    decision = decision;
    from_status = o.review_status;
    to_status = to_status;
    reason_code = fields.reason_code;
    note = fields.note;
    duplicate_of = fields.duplicate_of;
    assigned_to = fields.assigned_to;
    decided_by = actor.id;
    decided_at = now;
    undone_at = none;
    undone_by = none;
  }

  abbrev pub add_decision : ReviewDecision → World → World
  add_decision row w = record w { decisions = w.decisions ++ (row ∷ []); next_id = w.next_id + 1 }

  abbrev pub tell_crm : Bool → Bool → ℕ → World → World
  tell_crm wanted is_approval business_id w =
      if wanted
      then on_business_changed settings (some actor.id) now is_approval business_id w
      else w

  -- `_apply`
  unfoldable pub apply :
      Verdict → ReviewStatus → Fields → Opportunity → World → ReviewDecision × World
  unfolding decided
  apply decision to_status fields o w =
      let row = decision_row decision to_status fields o w in
      let o' = decided decision to_status fields.assigned_to o in
      let told =
        tell_crm (is_approve decision) true o.business_id
          (set_opportunity o' (add_decision row w)) in
      (row, record_audit (reviewed (snapshot o) (snapshot o') row) o.id (some actor.id) told)

  abbrev note_only : Option String → Fields
  note_only note = record {
    reason_code = none;
    note = note;
    duplicate_of = none;
    assigned_to = none;
  }

  abbrev pub still_open_for : ℕ → Opportunity → Bool
  still_open_for business_id o =
      (o.business_id == business_id)
      && not (same_review_status o.review_status ReviewStatus.do_not_contact)

  -- `order_by(created_at.asc(), id.asc())`
  abbrev older : Opportunity → Opportunity → Bool
  older a b = if a.created_at == b.created_at then leb a.id b.id else leb a.created_at b.created_at

  insert_older : Opportunity → List Opportunity → List Opportunity
  insert_older x [] = x ∷ []
  insert_older x (y ∷ ys) = if older x y then x ∷ y ∷ ys else y ∷ insert_older x ys

  unfoldable pub by_age : List Opportunity → List Opportunity
  unfolding insert_older
  by_age [] = []
  by_age (x ∷ xs) = insert_older x (by_age xs)

  abbrev of_target :
      ℕ → Opportunity → ReviewDecision → Option ReviewDecision → Option ReviewDecision
  of_target target o row written = if o.id == target then some row else written

  -- One decision for each opportunity of the business; the target's is remembered.
  unfoldable pub close_all :
      ℕ
      → Option String
      → List Opportunity
      → Option ReviewDecision
      → World
      → Option ReviewDecision × World
  unfolding apply
  close_all target remark [] written w = (written, w)
  close_all target remark (o ∷ rest) written w =
      let (row, w') =
        apply Verdict.do_not_contact ReviewStatus.do_not_contact (note_only remark) o w in
      close_all target remark rest (of_target target o row written) w'

  abbrev or_default : Option String → String
  or_default none = "do not contact"
  or_default (some remark) = remark

  suppress_after :
      Business → Option String → Option ReviewDecision × World → Result ReviewDecision × World
  suppress_after business remark (none, w) = (err not_the_target, w)
  suppress_after business remark (some row, w) = (
    ok row,
    suppress_business settings now actor.id business (or_default remark)
        Model.SuppressionSource.review w,
  )

  close_business :
      Opportunity → Option String → Option Business → World → Result ReviewDecision × World
  unfolding by_age close_all suppress_after
  close_business target remark none w = (err business_not_found, w)
  close_business target remark (some business) w = suppress_after business remark (
      close_all target.id remark (by_age (keep (still_open_for business.id) w.opportunities)) none
        w)

  -- `_do_not_contact`
  unfoldable pub close_contact : Opportunity → Option String → World → Result ReviewDecision × World
  unfolding close_business
  close_contact target remark w = close_business target remark (get_business target.business_id w) w

  -- The checks of `decide`, in the source's order; they write nothing.
  unfoldable pub check :
      (String → String) → Option Opportunity → ReviewRequest → World → Result (Opportunity × Fields)
  unfolding check_lock check_decidable check_not_withdrawn validate
  check strip none payload w = err opportunity_not_found
  check strip (some o) payload w = do
    check_lock o payload.lock_version
    check_decidable o
    check_not_withdrawn o payload.decision
    fields ← validate strip o payload w
    ok (o, fields)

  decide_checked : Verdict → Opportunity → Fields → World → Result ReviewDecision × World
  unfolding close_contact apply
  decide_checked decision o fields w =
      if is_do_not_contact decision
      then close_contact o fields.note w
      else (let (row, w') = apply decision (to_status_of decision) fields o w in (ok row, w'))

  unfoldable pub decide :
      (String → String) → ℕ → ReviewRequest → World → Result ReviewDecision × World
  unfolding check decide_checked
  decide strip id payload w = elim (check strip (get_opportunity id w) payload w) [
    | err e ↦ (err e, w)
    | ok (o, fields) ↦ decide_checked payload.decision o fields w
  ]
