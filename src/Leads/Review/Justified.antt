-- ===== src/Leads/Review/Justified.antt =====
-- What a decision must be backed by: `_validate` of modules/review/service.py.
use lead_discovery_rader.Prelude.{
  ℕ, ◌≡◌, refl, ◌≢◌, String, Option, none, some, List, [], ◌∷◌, true, false, ◌==ₛ◌, any, arith,
  Option-cases, by_id-key, ◌⊎◌, inl, inr, ap, sym, ◌∙◌, eq_iff,
}
use lead_discovery_rader.Leads.Model.{
  Verdict, Role, User, Opportunity, World, get_opportunity, get_user,
}
use lead_discovery_rader.Leads.Review.{
  Exc, Result, ok, err, Fields, ReviewRequest, stripped, is_sales_rep, reason_codes, check_reason,
  validate_text, same_service, validate_duplicate_of, validate_assignee, duplicate_field,
  assignee_field, validate,
}

-- A reason that is one of the codes, with a note where the code is "other", and is kept.
pub record IsReason (codes : List String) (reason_code note kept : Option String) : Type 0 where
  pub code : String
  pub given : reason_code ≡ some code
  pub stored : kept ≡ some code
  pub listed : any (λ other. code ==ₛ other) codes ≡ true
  pub explained : (code ==ₛ "other" ≡ false) ⊎ ((remark : String) × (note ≡ some remark))

-- The reason and the note that a verdict needs.
pub IsExplained : Verdict → Option String → Option String → Option String → Type 0
IsExplained Verdict.approve code remark kept = Unit
IsExplained Verdict.duplicate code remark kept = Unit
IsExplained Verdict.needs_enrichment code remark kept = (text : String) × (remark ≡ some text)
IsExplained Verdict.do_not_contact code remark kept = (text : String) × (remark ≡ some text)
IsExplained Verdict.reject code remark kept =
    IsReason ("evidence_wrong" ∷ "business_closed" ∷ "wrong_industry" ∷ "ai_mistake" ∷ "other" ∷ [])
      code remark kept
IsExplained Verdict.not_a_fit code remark kept =
    IsReason ("too_small" ∷ "too_large" ∷ "outside_area" ∷ "already_client" ∷ "other" ∷ []) code
      remark kept

-- Another opportunity for the same service, which exists.
pub record IsOriginal (o : Opportunity) (duplicate_of kept : Option ℕ) (w : World) : Type 0 where
  pub other : Opportunity
  pub named : duplicate_of ≡ some other.id
  pub stored : kept ≡ some other.id
  pub found : get_opportunity other.id w ≡ some other
  pub apart : other.id ≢ o.id
  pub service : other.service ≡ o.service

-- An active sales representative.
pub record IsAssignable (assigned_to kept : Option ℕ) (w : World) : Type 0 where
  pub user : User
  pub named : assigned_to ≡ some user.id
  pub stored : kept ≡ some user.id
  pub found : get_user user.id w ≡ some user
  pub active : user.is_active ≡ true
  pub role : user.role ≡ Role.sales_rep

pub IsPointed : Verdict → Opportunity → Option ℕ → Option ℕ → World → Type 0
IsPointed Verdict.duplicate o duplicate_of kept w = IsOriginal o duplicate_of kept w
IsPointed _ o duplicate_of kept w = Unit

pub IsAssigned : Verdict → Option ℕ → Option ℕ → World → Type 0
IsAssigned Verdict.approve assigned_to kept w =
    ((assigned_to ≡ none) × (kept ≡ none)) ⊎ IsAssignable assigned_to kept w
IsAssigned _ assigned_to kept w = Unit

-- What `_validate` has seen where it returns.
pub record IsJustified (strip : String → String) (o : Opportunity) (payload : ReviewRequest)
    (fields : Fields) (w : World) : Type 0 where
  pub note : fields.note ≡ stripped strip payload.note
  pub explained :
      IsExplained payload.decision
        (stripped strip payload.reason_code)
        fields.note
        fields.reason_code
  pub pointed : IsPointed payload.decision o payload.duplicate_of fields.duplicate_of w
  pub assigned : IsAssigned payload.decision payload.assigned_to fields.assigned_to w

check_reason-IsReason :
    (decision : Verdict) (code remark : Option String) {kept : Option String}
    → check_reason decision code remark ≡ ok kept
    → IsReason (reason_codes decision) code remark kept
unfolding check_reason
check_reason-IsReason decision none remark h = absurd (ground arith)
check_reason-IsReason decision (some code) none h = record {
  code = code;
  given = refl;
  stored = ground arith;
  listed = ground arith;
  explained = inl (ground arith);
}
check_reason-IsReason decision (some code) (some text) h = record {
  code = code;
  given = refl;
  stored = ground arith;
  listed = ground arith;
  explained = inr (text, refl);
}

given-remark :
    (remark : Option String) {kept : Option String}
    → validate_text Verdict.needs_enrichment none remark ≡ ok kept
    → (text : String) × (remark ≡ some text)
unfolding validate_text
given-remark none h = absurd (ground arith)
given-remark (some text) h = (text, refl)

validate_text-IsExplained :
    (decision : Verdict) (code remark : Option String) {kept : Option String}
    → validate_text decision code remark ≡ ok kept
    → IsExplained decision code remark kept
unfolding validate_text IsExplained
validate_text-IsExplained Verdict.reject code remark h =
    check_reason-IsReason Verdict.reject code remark h
validate_text-IsExplained Verdict.not_a_fit code remark h =
    check_reason-IsReason Verdict.not_a_fit code remark h
validate_text-IsExplained Verdict.needs_enrichment code remark h = given-remark remark h
validate_text-IsExplained Verdict.do_not_contact code remark h = given-remark remark h
validate_text-IsExplained Verdict.approve code remark h = tt
validate_text-IsExplained Verdict.duplicate code remark h = tt

validate_duplicate_of-IsOriginal :
    (o : Opportunity) (id : Option ℕ) (w : World) {kept : Option ℕ}
    → validate_duplicate_of o id w ≡ ok kept
    → IsOriginal o id kept w
unfolding validate_duplicate_of same_service
validate_duplicate_of-IsOriginal o none w h = absurd (ground arith)
validate_duplicate_of-IsOriginal o (some id) w h = elim (Option-cases (get_opportunity id w)) [
  | inl missing ↦ absurd (ground arith)
  | inr (other, found) ↦
      let key : other.id ≡ id = by_id-key (λ (x : Opportunity). x.id) id w.opportunities found in
      record {
        other = other;
        named = ap some (sym key);
        stored = ground arith;
        found = ap (λ (k : ℕ). get_opportunity k w) key ∙ found;
        apart = ground arith;
        service = (eq_iff other.service o.service).0 (ground arith);
      }
]

is_sales_rep-role : (role : Role) → is_sales_rep role ≡ true → role ≡ Role.sales_rep
is_sales_rep-role role h = ground arith

validate_assignee-IsAssigned :
    (id : Option ℕ) (w : World) {kept : Option ℕ}
    → validate_assignee id w ≡ ok kept
    → IsAssigned Verdict.approve id kept w
unfolding validate_assignee IsAssigned
validate_assignee-IsAssigned none w h = inl (refl, ground arith)
validate_assignee-IsAssigned (some id) w h = elim (Option-cases (get_user id w)) [
  | inl missing ↦ absurd (ground arith)
  | inr (user, found) ↦
      let key : user.id ≡ id = by_id-key (λ (x : User). x.id) id w.users found in
      inr (record {
        user = user;
        named = ap some (sym key);
        stored = ground arith;
        found = ap (λ (k : ℕ). get_user k w) key ∙ found;
        active = ground arith;
        role = is_sales_rep-role user.role (ground arith);
      })
]

pub Result-cases {ℓ} :
    {A : Type ℓ} (r : Result A) → ((a : A) × (r ≡ ok a)) ⊎ ((e : Exc) × (r ≡ err e))
Result-cases (ok a) = inl (a, refl)
Result-cases (err e) = inr (e, refl)

duplicate_field-IsPointed :
    (decision : Verdict) (o : Opportunity) (id : Option ℕ) (w : World) {kept : Option ℕ}
    → duplicate_field decision o id w ≡ ok kept
    → IsPointed decision o id kept w
unfolding IsPointed
duplicate_field-IsPointed Verdict.duplicate o id w h = validate_duplicate_of-IsOriginal o id w h
duplicate_field-IsPointed Verdict.approve o id w h = tt
duplicate_field-IsPointed Verdict.reject o id w h = tt
duplicate_field-IsPointed Verdict.needs_enrichment o id w h = tt
duplicate_field-IsPointed Verdict.not_a_fit o id w h = tt
duplicate_field-IsPointed Verdict.do_not_contact o id w h = tt

assignee_field-IsAssigned :
    (decision : Verdict) (id : Option ℕ) (w : World) {kept : Option ℕ}
    → assignee_field decision id w ≡ ok kept
    → IsAssigned decision id kept w
unfolding IsAssigned
assignee_field-IsAssigned Verdict.approve id w h = validate_assignee-IsAssigned id w h
assignee_field-IsAssigned Verdict.duplicate id w h = tt
assignee_field-IsAssigned Verdict.reject id w h = tt
assignee_field-IsAssigned Verdict.needs_enrichment id w h = tt
assignee_field-IsAssigned Verdict.not_a_fit id w h = tt
assignee_field-IsAssigned Verdict.do_not_contact id w h = tt

pub validate-IsJustified :
    (strip : String → String) (o : Opportunity) (payload : ReviewRequest) (w : World)
    (fields : Fields)
    → validate strip o payload w ≡ ok fields
    → IsJustified strip o payload fields w
unfolding validate
validate-IsJustified strip o payload w fields h =
    let remark = stripped strip payload.note in
    let code = stripped strip payload.reason_code in
    elim (Result-cases (validate_text payload.decision code remark)) [
      | inr (e, t) ↦ absurd (ground arith)
      | inl (reason_code, t) ↦
          elim (Result-cases (duplicate_field payload.decision o payload.duplicate_of w)) [
            | inr (e, d) ↦ absurd (ground arith)
            | inl (duplicate_of, d) ↦
                elim (Result-cases (assignee_field payload.decision payload.assigned_to w)) [
                  | inr (e, a) ↦ absurd (ground arith)
                  | inl (assigned_to, a) ↦
                      let made : fields ≡ record {
                        reason_code = reason_code;
                        note = remark;
                        duplicate_of = duplicate_of;
                        assigned_to = assigned_to;
                      } =
                        ground arith in
                      rw made (record {
                        note = refl;
                        explained = validate_text-IsExplained payload.decision code remark t;
                        pointed =
                            duplicate_field-IsPointed payload.decision o payload.duplicate_of w d;
                        assigned =
                            assignee_field-IsAssigned payload.decision payload.assigned_to w a;
                      })
                ]
          ]
    ]
