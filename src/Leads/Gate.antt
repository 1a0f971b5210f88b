-- ===== src/Leads/Gate.antt =====
-- The gate in front of the CRM: `is_suppressed` of modules/compliance/service.py,
-- `approved_opportunities` of modules/crm/payload.py and `eligibility` of modules/crm/service.py.
use lead_discovery_rader.Prelude.{
  ℕ, ◌+◌, ◌*◌, String, Option, none, some, List, [], ◌∷◌, Bool, true, false, not, ◌&&◌, ◌||◌, ltb,
  leb, ◌==◌, ◌==ₛ◌, any, keep, min, if◌then◌else◌,
}
use lead_discovery_rader.Leads.Model.{
  ReviewStatus, same_review_status, Business, Opportunity, Suppression, Carried, CrmLead, World,
  Settings,
}
use lead_discovery_rader.Leads.Model

-- `column == value` where the value is there and not empty; an empty column never is.
abbrev pub matches : Option String → Option String → Bool
matches (some a) (some b) = not (b ==ₛ "") && (a ==ₛ b)
matches _ _ = false

abbrev pub is_id : Option ℕ → ℕ → Bool
is_id none id = false
is_id (some other) id = other == id

abbrev pub is_none {ℓ} : {A : Type ℓ} → Option A → Bool
is_none none = true
is_none (some a) = false

-- An active suppression that covers the business by its id, its domain or its phone.
abbrev pub covers : Business → Suppression → Bool
covers business s =
    is_none s.lifted_at
    && (is_id s.business_id business.id
        || (matches s.domain business.domain || matches s.phone_e164 business.phone_e164))

unfoldable pub active_suppressions_for : Business → World → List Suppression
active_suppressions_for business w = keep (covers business) w.suppressions

abbrev pub non_empty {ℓ} : {A : Type ℓ} → List A → Bool
non_empty [] = false
non_empty (x ∷ xs) = true

unfoldable pub is_suppressed : Business → World → Bool
unfolding active_suppressions_for
is_suppressed business w = non_empty (active_suppressions_for business w)

abbrev pub approved_for : ℕ → Opportunity → Bool
approved_for business_id o =
    (o.business_id == business_id)
    && (same_review_status o.review_status Model.ReviewStatus.approved && is_none o.withdrawn_at)

-- `decided_at.asc()`, where nulls come last.
abbrev decided_before : Option ℕ → Option ℕ → Bool
decided_before (some a) (some b) = ltb a b
decided_before (some a) none = true
decided_before none b = false

-- `order_by(score.desc(), decided_at.asc(), id.asc())`
abbrev pub stronger : Opportunity → Opportunity → Bool
stronger a b =
    ltb b.score a.score
    || ((a.score == b.score)
        && (decided_before a.decided_at b.decided_at
            || (not (decided_before b.decided_at a.decided_at) && leb a.id b.id)))

unfoldable pub insert_stronger : Opportunity → List Opportunity → List Opportunity
insert_stronger x [] = x ∷ []
insert_stronger x (y ∷ ys) = if stronger x y then x ∷ y ∷ ys else y ∷ insert_stronger x ys

unfoldable pub by_strength : List Opportunity → List Opportunity
unfolding insert_stronger
by_strength [] = []
by_strength (x ∷ xs) = insert_stronger x (by_strength xs)

unfoldable pub approved_opportunities : ℕ → World → List Opportunity
approved_opportunities business_id w = by_strength (keep (approved_for business_id) w.opportunities)

pub record Eligibility : Type 0 where
  pub approved : List Opportunity
  pub ready : List Opportunity
  pub suppressed : Bool
  pub next_ready_at : Option ℕ

unfoldable pub is_eligible : Eligibility → Bool
is_eligible state = non_empty state.approved && not state.suppressed

-- The approval was made at least the delay ago.
abbrev pub has_waited : ℕ → ℕ → Option ℕ → Bool
has_waited now delay none = false
has_waited now delay (some decided_at) = leb (decided_at + delay) now

abbrev pub has_opportunity : ℕ → List ℕ → Bool
has_opportunity id ids = any (λ other. other == id) ids

abbrev pub is_ready : ℕ → ℕ → List ℕ → Opportunity → Bool
is_ready now delay carried o = has_opportunity o.id carried || has_waited now delay o.decided_at

abbrev earlier : Option ℕ → Option ℕ → Option ℕ
earlier none b = b
earlier (some a) none = some a
earlier (some a) (some b) = some (min a b)

-- `min((o.decided_at for o in rows if o.decided_at is not None), default=None)`
unfoldable pub earliest : List Opportunity → Option ℕ
earliest [] = none
earliest (o ∷ rest) = earlier o.decided_at (earliest rest)

abbrev later_by : ℕ → Option ℕ → Option ℕ
later_by delay none = none
later_by delay (some at) = some (at + delay)

-- How long a fresh approval waits: by default, the undo window.
abbrev pub resolved_crm_sync_delay_minutes : Settings → ℕ
resolved_crm_sync_delay_minutes settings = elim settings.crm_sync_delay_minutes [
  | none ↦ settings.review_undo_window_minutes
  | some minutes ↦ minutes
]

abbrev pub delay_of : Settings → ℕ
delay_of settings = resolved_crm_sync_delay_minutes settings * 60

unfoldable pub eligibility : Settings → Business → ℕ → Bool → List ℕ → World → Eligibility
unfolding earliest
eligibility settings business now ignore_delay carried w =
    let approved = approved_opportunities business.id w in
    let delay = delay_of settings in
    record {
      approved = approved;
      ready = if ignore_delay then approved else keep (is_ready now delay carried) approved;
      suppressed = is_suppressed business w;
      next_ready_at =
          if ignore_delay
          then none
          else later_by delay (earliest (keep (λ o. not (is_ready now delay carried o)) approved));
    }
