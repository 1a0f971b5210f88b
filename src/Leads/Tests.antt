-- ===== src/Leads/Tests.antt =====
-- A small radar with two opportunities of one business, and the review's theorems at inputs that meet
-- their hypotheses.
mod Crm
use lead_discovery_rader.Prelude.{
  ℕ, ◌+◌, ◌*◌, ◌≤◌, ◌≡◌, refl, ◌≢◌, String, Option, none, some, List, [], ◌∷◌, Bool, true, false,
  arith, inl, by_id, find_first, put,
}
use lead_discovery_rader.Leads.Model
use lead_discovery_rader.Leads.Model.{
  ReviewStatus, same_review_status, Verdict, User, Business, Opportunity, ReviewDecision, World,
  Settings, get_opportunity, get_business, get_decision,
}
use lead_discovery_rader.Leads.Review.{
  ReviewRequest, Result, ok, err, stale_lock_version, note_needed, decide, validate_assignee,
  to_status_of, is_decidable, apply,
}
use lead_discovery_rader.Leads.Review.Justified.{IsJustified}
use lead_discovery_rader.Leads.Review.Decide.{
  fields_of, IsDecided, IsChecked, decide-IsDecided, decide-refused, decide-twice,
}
use lead_discovery_rader.Leads.Review.DoNotContact.{IsClosed, decide-IsClosed}
use lead_discovery_rader.Leads.Undo.{undo, undone}
use lead_discovery_rader.Leads.Undo.RoundTrip.{undo-decide}
use lead_discovery_rader.Leads.Batch.{
  ItemResult, is_ok, conflict, not_allowed, BatchItem, BatchVerdict, BatchReviewRequest,
  decide_batch,
}
use lead_discovery_rader.Leads.Batch.Verdicts.{
  has_id, ids_of, AreDistinct, ok_count, decide_batch-AreDistinct, decide_batch-keeps,
}

abbrev pub settings : Settings
settings = record {
  crm_destination = "fake";
  crm_sync_delay_minutes = none;
  crm_auto_sync = true;
  crm_sync_max_attempts = 3;
  crm_sync_backoff_seconds = 60;
  review_undo_window_minutes = 10;
}

abbrev pub reviewer : User
reviewer = record { id = 1; role = Model.Role.reviewer; is_active = true }

abbrev pub bakery : Business
bakery = record { id = 2; created_at = 0; domain = some "bakery.example"; phone_e164 = none }

abbrev pub redesign : Opportunity
redesign = record {
  id = 3;
  business_id = 2;
  service = "website_design";
  score = 800;
  review_status = ReviewStatus.pending;
  assigned_to = none;
  decided_at = none;
  decided_by = none;
  lock_version = 1;
  withdrawn_at = none;
  created_at = 10;
}

abbrev pub booking : Opportunity
booking = record redesign {
  id = 4;
  service = "booking_setup";
  review_status = ReviewStatus.rejected;
  created_at = 11;
}

abbrev pub radar : World
radar = record {
  businesses = bakery ∷ [];
  users = reviewer ∷ [];
  opportunities = redesign ∷ booking ∷ [];
  decisions = [];
  suppressions = [];
  crm_leads = [];
  carried = [];
  sync_attempts = [];
  audit = [];
  next_id = 5;
}

abbrev strip : String → String
strip value = value

abbrev request : Verdict → Option String → ReviewRequest
request verdict remark = record {
  decision = verdict;
  lock_version = 1;
  reason_code = none;
  note = remark;
  duplicate_of = none;
  assigned_to = none;
}

abbrev approval_row : ReviewDecision
approval_row = record {
  id = 5;
  opportunity_id = 3;
  decision = Verdict.approve;
  from_status = ReviewStatus.pending;
  to_status = ReviewStatus.approved;
  reason_code = none;
  note = none;
  duplicate_of = none;
  assigned_to = none;
  decided_by = 1;
  decided_at = 100;
  undone_at = none;
  undone_by = none;
}

abbrev approval : ReviewRequest
approval = request Verdict.approve none

abbrev outcome : ReviewRequest → Result ReviewDecision × World
outcome payload = decide settings reviewer 100 strip 3 payload radar

approves : (outcome approval).0 ≡ ok approval_row
unfolding decide by_id find_first validate_assignee to_status_of
approves = refl

approval_row_unused : get_decision 5 radar ≡ none
unfolding by_id find_first
approval_row_unused = refl

abbrev rejection : ReviewRequest
rejection = record (request Verdict.reject (some "the shop is new")) { reason_code = some "other" }

abbrev rejection_row : ReviewDecision
rejection_row = record approval_row {
  decision = Verdict.reject;
  to_status = ReviewStatus.rejected;
  reason_code = some "other";
  note = some "the shop is new";
}

rejects : (outcome rejection).0 ≡ ok rejection_row
unfolding decide to_status_of by_id find_first
rejects = refl

decide-IsDecided_example :
    (o : Opportunity) × (get_opportunity 3 radar ≡ some o)
    × IsDecided settings reviewer 100 o rejection rejection_row radar (outcome rejection).1
    × IsJustified strip o rejection (fields_of rejection_row) radar
decide-IsDecided_example =
    decide-IsDecided settings reviewer 100 strip 3 rejection radar rejection_row refl rejects

four_is_not_three : ◌≢◌ {A = ℕ} 4 3
four_is_not_three = omega arith

undo-decide_example :
    let after = undo settings reviewer 400 5 (outcome approval).1 in
    (o : Opportunity) × (get_opportunity 3 radar ≡ some o)
    × (after.0 ≡ ok 0)
    × (get_opportunity 3 after.1
        ≡ some (record o {
          lock_version = o.lock_version + 1 + 1;
          decided_at = none;
          decided_by = none;
          assigned_to = none;
        }))
    × (get_opportunity 4 after.1 ≡ get_opportunity 4 radar)
    × (get_decision 5 after.1 ≡ some (undone settings reviewer 400 approval_row))
    × (after.1.suppressions ≡ [])
undo-decide_example =
    undo-decide settings reviewer 100 400 strip 3 approval radar approval_row 4 four_is_not_three
      refl approval_row_unused (omega arith) approves

abbrev rival : User
rival = record reviewer { id = 6 }

decide-twice_example :
    decide settings rival 101 strip 3 (request Verdict.duplicate none) (outcome approval).1
    ≡ (err stale_lock_version, (outcome approval).1)
decide-twice_example =
    decide-twice settings reviewer rival 100 101 strip 3 approval (request Verdict.duplicate none)
      radar approval_row refl refl approves

abbrev closing : ReviewRequest
closing = request Verdict.do_not_contact (some "asked by phone")

abbrev closing_row : ReviewDecision
closing_row = record approval_row {
  decision = Verdict.do_not_contact;
  to_status = ReviewStatus.do_not_contact;
  note = some "asked by phone";
}

closes : (outcome closing).0 ≡ ok closing_row
unfolding decide by_id find_first to_status_of same_review_status
closes = refl

decide-IsClosed_example :
    (o : Opportunity) × (business : Business) × (get_opportunity 3 radar ≡ some o)
    × (get_business o.business_id radar ≡ some business)
    × IsChecked settings reviewer 100 o closing
    × IsClosed settings reviewer 100 business (outcome closing).1
decide-IsClosed_example =
    decide-IsClosed settings reviewer 100 strip 3 closing radar closing_row refl closes

abbrev batch : BatchReviewRequest
batch = record {
  ids = 3 ∷ 9 ∷ 3 ∷ 4 ∷ [];
  decision = BatchVerdict.reject;
  reason_code = "other";
  note = some "closed down";
}

abbrev verdicts : List BatchItem
verdicts =
    record {
      id = 3;
      result = is_ok;
      review_status = some ReviewStatus.rejected;
      lock_version = some 2;
    }
    ∷ record { id = 9; result = not_allowed; review_status = none; lock_version = none }
    ∷ record {
      id = 4;
      result = conflict;
      review_status = some ReviewStatus.rejected;
      lock_version = some 1;
    }
    ∷ []

abbrev batch_outcome : Result (ℕ × List BatchItem) × World
batch_outcome = decide_batch settings reviewer 100 strip batch radar

batch_decides : batch_outcome ≡ (ok (1, verdicts), batch_outcome.1)
unfolding decide_batch by_id find_first to_status_of apply put
batch_decides = refl

decide_batch-AreDistinct_example :
    ((k : ℕ) → has_id k (ids_of verdicts) ≡ has_id k (3 ∷ 9 ∷ 3 ∷ 4 ∷ []))
    × AreDistinct (ids_of verdicts)
    × (1 ≡ ok_count verdicts)
decide_batch-AreDistinct_example =
    decide_batch-AreDistinct settings reviewer 100 strip batch radar batch_outcome.1 1 verdicts
      batch_decides

decide_batch-keeps_example : get_opportunity 4 batch_outcome.1 ≡ some booking
unfolding by_id find_first is_decidable
decide_batch-keeps_example =
    decide_batch-keeps settings reviewer 100 strip batch radar 4 booking refl (inl refl)
