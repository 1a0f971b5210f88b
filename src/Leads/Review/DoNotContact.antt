-- ===== src/Leads/Review/DoNotContact.antt =====
-- A do-not-contact decision closes every opportunity of the business, and suppresses it.
use lead_discovery_rader.Prelude.{
  ℕ, ◌≡◌, ◌≢◌, refl, String, Option, none, some, List, [], ◌∷◌, ◌++◌, Bool, true, false, arith,
  ◌==◌, by_id, find_first, by_id-put, Option-cases, Bool-cases, ◌⊎◌, inl, inr, ap, sym, ◌∙◌, any,
  keep, ◌||◌,
}
use lead_discovery_rader.Leads.Model
use lead_discovery_rader.Leads.Model.{
  ReviewStatus, same_review_status, Verdict, User, Business, Opportunity, ReviewDecision,
  Suppression, World, Settings, get_opportunity, get_business, set_opportunity,
}
use lead_discovery_rader.Leads.Gate.{is_suppressed, covers, non_empty}
use lead_discovery_rader.Leads.Schedule.Frames.{on_business_changed-keeps}
use lead_discovery_rader.Leads.Suppress.{
  on_suppression_changed, new_suppression, add_row, suppress_business,
}
use lead_discovery_rader.Leads.Review.{
  Result, ok, Fields, ReviewRequest, note_only, decided, still_open_for, insert_older, by_age,
  close_all, suppress_after, close_business, close_contact, check, decide_checked, decide,
  or_default,
}
use lead_discovery_rader.Leads.Review.Justified.{Result-cases}
use lead_discovery_rader.Leads.Review.Decide.{apply-tables, IsChecked, check-ok, decide-stops}

-- Whether a list has a row with the identity.
abbrev has_row : ℕ → List Opportunity → Bool
has_row k rows = any (λ (o : Opportunity). o.id == k) rows

has_row-keep :
    (k : ℕ) (p : Opportunity → Bool) (rows : List Opportunity) (x : Opportunity)
    → by_id (λ (o : Opportunity). o.id) k rows ≡ some x
    → p x ≡ true
    → has_row k (keep p rows) ≡ true
unfolding by_id find_first
has_row-keep k p [] x found h = cc
has_row-keep k p (o ∷ rows) x found h = elim (Bool-cases (o.id == k)) [
  | inl e ↦ let same = some_injective (rw e at found) in rw (same, h) (rw (sym same) (rw e refl))
  | inr e ↦ elim (Bool-cases (p o)) [
    | inl q ↦ rw (q, e) (has_row-keep k p rows x (rw e at found) h)
    | inr q ↦ rw q (has_row-keep k p rows x (rw e at found) h)
  ]
]
  where
    some_injective : {a b : Opportunity} → some a ≡ some b → a ≡ b
    some_injective h = cc

module _ (settings : Settings) (actor : User) (now : ℕ) where
  has_row-insert_older :
      (k : ℕ) (x : Opportunity) (rows : List Opportunity)
      → has_row k (insert_older settings actor now x rows) ≡ (x.id == k) || has_row k rows
  unfolding insert_older
  has_row-insert_older k x [] = refl
  has_row-insert_older k x (y ∷ rows) = ground (arith, has_row-insert_older k x rows)

  has_row-by_age :
      (k : ℕ) (rows : List Opportunity)
      → has_row k (by_age settings actor now rows) ≡ has_row k rows
  unfolding by_age
  has_row-by_age k [] = refl
  has_row-by_age k (x ∷ rows) =
      has_row-insert_older k x (by_age settings actor now rows)
      ∙ ap (λ b. (x.id == k) || b) (has_row-by_age k rows)

  -- What the loop does to each row.
  close_all-lookup :
      (target : ℕ) (remark : Option String) (rows : List Opportunity)
      (written : Option ReviewDecision) (w : World) (k : ℕ) (x : Opportunity)
      → get_opportunity k (close_all settings actor now target remark rows written w).1 ≡ some x
      → (x.review_status ≡ ReviewStatus.do_not_contact)
        ⊎ (has_row k rows ≡ false) × (get_opportunity k w ≡ some x)
  unfolding close_all decided
  close_all-lookup target remark [] written w k x h = inr (refl, h)
  close_all-lookup target remark (o ∷ rest) written w k x h =
      let fields = note_only settings actor now remark in
      let (row, opps, d, s, b) =
        apply-tables settings actor now Verdict.do_not_contact ReviewStatus.do_not_contact fields o
          w in
      let o' =
        decided settings actor now Verdict.do_not_contact ReviewStatus.do_not_contact none o in
      elim (close_all-lookup target remark rest _ _ k x h) [
        | inl e ↦ inl e
        | inr (absent, found) ↦ ground (
          arith,
          by_id-put (λ (z : Opportunity). z.id) o' k w.opportunities,
          ap (by_id (λ (z : Opportunity). z.id) k) opps,
        )
      ]

  non_empty-keep :
      (p : Suppression → Bool) (rows : List Suppression) (row : Suppression)
      → p row ≡ true
      → non_empty (keep p (rows ++ (row ∷ []))) ≡ true
  non_empty-keep p [] row h = rw h refl
  non_empty-keep p (x ∷ rows) row h = elim (Bool-cases (p x)) [
    | inl e ↦ rw e refl
    | inr e ↦ rw e (non_empty-keep p rows row h)
  ]

  suppress_business-keeps :
      (business : Business) (reason : String) (source : Model.SuppressionSource) (w : World)
      → let after = suppress_business settings now actor.id business reason source w in
        (after.opportunities ≡ w.opportunities) × (is_suppressed business after ≡ true)
  unfolding suppress_business add_row on_suppression_changed is_suppressed
  suppress_business-keeps business reason source w =
      let row =
        new_suppression settings now actor.id (some business.id) business.domain business.phone_e164
          reason source w in
      let kept = on_business_changed-keeps settings (some actor.id) now false business.id _ in
      (
        kept.opportunities,
        rw kept.suppressions (non_empty-keep (covers business) w.suppressions row (ground arith)),
      )

  -- A row that is closed, or of another business.
  abbrev pub IsClosedRow : Business → Option Opportunity → Type 0
  IsClosedRow business none = Unit {0}
  IsClosedRow business (some x) =
      (x.review_status ≡ ReviewStatus.do_not_contact) ⊎ (x.business_id ≢ business.id)

  -- What do-not-contact leaves behind, for a business.
  pub record IsClosed (business : Business) (after : World) : Type 0 where
    pub suppressed : is_suppressed business after ≡ true
    pub closed : (k : ℕ) → IsClosedRow business (get_opportunity k after)

  closed_row :
      (business : Business) (found : Option Opportunity)
      → ((x : Opportunity)
          → found ≡ some x
          → x.business_id ≡ business.id
          → x.review_status ≡ ReviewStatus.do_not_contact)
      → IsClosedRow business found
  closed_row business none h = tt
  closed_row business (some x) h = elim (Bool-cases (x.business_id == business.id)) [
    | inl e ↦ inl (h x refl (ground arith))
    | inr e ↦ inr (λ same. absurd (ground arith))
  ]

  still_open-closed :
      (x : Opportunity) (id : ℕ)
      → x.business_id ≡ id
      → still_open_for settings actor now id x ≡ false
      → x.review_status ≡ ReviewStatus.do_not_contact
  unfolding same_review_status
  still_open-closed x id same h = ground arith

  suppress_after-IsClosed :
      (business : Business) (remark : Option String) (written : Option ReviewDecision) (w : World)
      (row : ReviewDecision)
      → ((k : ℕ) (x : Opportunity)
          → get_opportunity k w ≡ some x
          → x.business_id ≡ business.id
          → x.review_status ≡ ReviewStatus.do_not_contact)
      → (suppress_after settings actor now business remark (written, w)).0 ≡ ok row
      → IsClosed business (suppress_after settings actor now business remark (written, w)).1
  unfolding suppress_after
  suppress_after-IsClosed business remark none w row closed h = cc
  suppress_after-IsClosed business remark (some row') w row closed h =
      let (opps, suppressed) =
        suppress_business-keeps business (or_default settings actor now remark)
          Model.SuppressionSource.review w in
      record {
        suppressed = suppressed;
        closed = λ k.
            closed_row business
              (get_opportunity k (
                suppress_business settings now actor.id business
                  (or_default settings actor now remark) Model.SuppressionSource.review w))
              (λ x found same.
                closed k x (ap (by_id (λ (o : Opportunity). o.id) k) (sym opps) ∙ found) same);
      }

  close_business-IsClosed :
      (target : Opportunity) (remark : Option String) (business : Business) (w : World)
      (row : ReviewDecision)
      → (close_business settings actor now target remark (some business) w).0 ≡ ok row
      → IsClosed business (close_business settings actor now target remark (some business) w).1
  unfolding close_business
  close_business-IsClosed target remark business w row h =
      let p = still_open_for settings actor now business.id in
      let rows = by_age settings actor now (keep p w.opportunities) in
      let c = close_all settings actor now target.id remark rows none w in
      suppress_after-IsClosed business remark c.0 c.1 row
        (λ k x found same. elim (close_all-lookup target.id remark rows none w k x found) [
          | inl e ↦ e
          | inr (absent, before) ↦ elim (Bool-cases (p x)) [
            | inl q ↦ absurd (
                ground (
                  arith,
                  has_row-by_age k (keep p w.opportunities),
                  has_row-keep k p w.opportunities x before q,
                ))
            | inr q ↦ still_open-closed x business.id same q
          ]
        ])
        h

  decide-closes :
      (strip : String → String) (id : ℕ) (payload : ReviewRequest) (w : World) (o : Opportunity)
      (fields : Fields)
      → payload.decision ≡ Verdict.do_not_contact
      → check settings actor now strip (get_opportunity id w) payload w ≡ ok (o, fields)
      → decide settings actor now strip id payload w
        ≡ close_contact settings actor now o fields.note w
  unfolding decide decide_checked
  decide-closes strip id payload w o fields is_dnc c = ground arith

  close_contact-gone :
      (o : Opportunity) (remark : Option String) (w : World)
      → get_business o.business_id w ≡ none
      → {row : ReviewDecision} → (close_contact settings actor now o remark w).0 ≡ ok row
      → ⊥
  unfolding close_contact close_business
  close_contact-gone o remark w gone h = ground arith

  close_contact-found :
      (o : Opportunity) (remark : Option String) (w : World) (business : Business)
      → get_business o.business_id w ≡ some business
      → close_contact settings actor now o remark w
        ≡ close_business settings actor now o remark (some business) w
  unfolding close_contact
  close_contact-found o remark w business there =
      ap (λ b. close_business settings actor now o remark b w) there

  -- A do-not-contact decision that returns was made on an open opportunity at the lock version that
  -- it names; afterwards its business is suppressed, and every opportunity of the business is closed.
  pub decide-IsClosed :
      (strip : String → String) (id : ℕ) (payload : ReviewRequest) (w : World)
      (row : ReviewDecision)
      → payload.decision ≡ Verdict.do_not_contact
      → (decide settings actor now strip id payload w).0 ≡ ok row
      → (o : Opportunity) × (business : Business) × (get_opportunity id w ≡ some o)
        × (get_business o.business_id w ≡ some business)
        × IsChecked settings actor now o payload
        × IsClosed business (decide settings actor now strip id payload w).1
  decide-IsClosed strip id payload w row is_dnc h =
      elim (Result-cases (check settings actor now strip (get_opportunity id w) payload w)) [
        | inr (e, c) ↦ absurd (decide-stops settings actor now strip id payload w e c h)
        | inl ((o, fields), c) ↦
            let (found, checked) =
              check-ok settings actor now strip (get_opportunity id w) payload w o fields c in
            let done = decide-closes strip id payload w o fields is_dnc c in
            elim (Option-cases (get_business o.business_id w)) [
              | inl gone ↦ absurd (
                  close_contact-gone o fields.note w gone
                    (ap (λ (r : Result ReviewDecision × World). r.0) (sym done) ∙ h))
              | inr (business, there) ↦
                  let reach = close_contact-found o fields.note w business there in
                  (
                    o,
                    business,
                    found,
                    there,
                    checked,
                    rw (done ∙ reach) (
                        close_business-IsClosed o fields.note business w row (
                          ap (λ (r : Result ReviewDecision × World). r.0) (sym (done ∙ reach))
                          ∙ h)),
                  )
            ]
      ]
