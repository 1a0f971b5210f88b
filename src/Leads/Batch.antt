-- ===== src/Leads/Batch.antt =====
-- `decide_batch` of modules/review/service.py: one of two decisions, on each id once.
pub mod Verdicts
use lead_discovery_rader.Prelude.{
  ℕ, ◌+◌, String, Option, none, some, List, [], ◌∷◌, ◌++◌, Bool, true, false, not, ◌==◌, any,
  if◌then◌else◌,
}
use lead_discovery_rader.Leads.Model.{
  ReviewStatus, Verdict, User, Opportunity, World, Settings, get_opportunity,
}
use lead_discovery_rader.Leads.Review.{
  Result, ok, err, Exc, is_decidable, to_status_of, validate_text, stripped, Fields, apply, decided,
}

-- `Literal["reject", "not_a_fit"]`
pub data BatchVerdict : Type 0 where
  reject not_a_fit : BatchVerdict

abbrev pub verdict_of : BatchVerdict → Verdict
verdict_of reject = Verdict.reject
verdict_of not_a_fit = Verdict.not_a_fit

pub data ItemResult : Type 0 where
  is_ok conflict not_allowed : ItemResult

pub record BatchItem : Type 0 where
  pub id : ℕ
  pub result : ItemResult
  pub review_status : Option ReviewStatus
  pub lock_version : Option ℕ

pub record BatchReviewRequest : Type 0 where
  pub ids : List ℕ
  pub decision : BatchVerdict
  pub reason_code : String
  pub note : Option String

module _ (settings : Settings) (actor : User) (now : ℕ) where
  abbrev item_of : ItemResult → Opportunity → BatchItem
  item_of result o = record {
    id = o.id;
    result = result;
    review_status = some o.review_status;
    lock_version = some o.lock_version;
  }

  -- One id of the batch.
  decide_item : BatchVerdict → Fields → ℕ → Option Opportunity → World → BatchItem × World
  unfolding is_decidable decided
  decide_item decision fields id none w =
      (record { id = id; result = not_allowed; review_status = none; lock_version = none }, w)
  decide_item decision fields id (some o) w =
      let verdict = verdict_of decision in
      if not (is_decidable o.review_status) then (item_of conflict o, w) else (
        item_of is_ok
            (decided settings actor now verdict (to_status_of verdict) fields.assigned_to o),
        (apply settings actor now verdict (to_status_of verdict) fields o w).1,
      )

  abbrev counted : ItemResult → ℕ → ℕ
  counted is_ok n = n + 1
  counted conflict n = n
  counted not_allowed n = n

  -- The loop over the ids, where `seen` are those that came before.
  pub decide_items : BatchVerdict → Fields → List ℕ → List ℕ → World → (ℕ × List BatchItem) × World
  unfolding decide_item
  decide_items decision fields seen [] w = ((0, []), w)
  decide_items decision fields seen (id ∷ rest) w = elim (any (λ other. other == id) seen) [
    | true ↦ decide_items decision fields seen rest w
    | false ↦
        let (item, w') = decide_item decision fields id (get_opportunity id w) w in
        let ((decided_rest, items), w'') = decide_items decision fields (id ∷ seen) rest w' in
        ((counted item.result decided_rest, item ∷ items), w'')
  ]

  batch_fields : (String → String) → BatchReviewRequest → Result Fields
  unfolding validate_text
  batch_fields strip payload =
      elim (validate_text (verdict_of payload.decision) (some (strip payload.reason_code))
        (stripped strip payload.note)) [
          | err e ↦ err e
          | ok reason_code ↦ ok (record {
            reason_code = reason_code;
            note = stripped strip payload.note;
            duplicate_of = none;
            assigned_to = none;
          })
        ]

  unfoldable pub decide_batch :
      (String → String) → BatchReviewRequest → World → Result (ℕ × List BatchItem) × World
  unfolding batch_fields decide_items
  decide_batch strip payload w = elim (batch_fields strip payload) [
    | err e ↦ (err e, w)
    | ok fields ↦ let (r, w') = decide_items payload.decision fields [] payload.ids w in (ok r, w')
  ]
