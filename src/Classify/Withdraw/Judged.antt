-- ===== src/Classify/Withdraw/Judged.antt =====
-- What it takes to withdraw an opportunity.
use lead_discovery_rader.Prelude.{
  ℕ, suc, ◌+◌, ◌≡◌, ◌≢◌, refl, String, Option, none, some, List, [], ◌∷◌, Bool, true, false, not,
  ◌&&◌, ◌||◌, any, keep, is_some, arith, All, if◌then◌else◌, Bool-cases, ◌⊎◌, inl, inr,
}
use lead_discovery_rader.Leads.Model.{ReviewStatus, pending}
use lead_discovery_rader.Classify.Withdraw.{
  Audit, Reason, Row, is_in, all_of, findings_reason, withdrawn_if, is_selected, is_domain,
  lookup_worked, can_withdraw_on, cited_findings, rests_on_page, can_judge, withdrawal_reasons,
  OpportunitySource, rules, is_rules, is_pending, withdraw_row, withdraw_unsupported,
}

-- Every cited finding is of the domain, was looked up in this audit, and is not among its findings.
abbrev pub IsDisproved : Audit → String → Type 0
IsDisproved audit code =
    (is_domain code ≡ true)
    × (lookup_worked audit.domain_intel code ≡ true)
    × (is_in audit.finding_codes code ≡ false)

-- A finding of the domain that is cited was looked up in this audit.
abbrev pub IsAnswered : Audit → String → Type 0
IsAnswered audit code = (is_domain code ≡ false) ⊎ (lookup_worked audit.domain_intel code ≡ true)

abbrev pub IsAbsent : Audit → String → Type 0
IsAbsent audit code = is_in audit.finding_codes code ≡ false

-- The audit's result has no such service, and that says enough: the result is complete, or the row
-- rests on the rules alone, or none of the findings that it cites is left.
abbrev pub IsGone : Audit → List String → Bool → Row → Type 0
IsGone audit services merged_complete row =
    (is_in services row.service ≡ false)
    × ((merged_complete ≡ true)
        ⊎ (row.source ≡ rules)
        ⊎ ((cited_findings row ≢ []) × All (IsAbsent audit) (cited_findings row)))

-- Why a row of an open business may be withdrawn: the audit read the page and looked up what the row
-- cites of the domain, and its result has no such service any more, or it did not read the page and
-- all that the row cites is disproved.
abbrev pub IsUnsupported : Audit → List String → Bool → Row → Type 0
IsUnsupported audit services merged_complete row =
    ((can_withdraw_on audit ≡ true)
      × All (IsAnswered audit) (cited_findings row)
      × IsGone audit services merged_complete row)
    ⊎ ((can_withdraw_on audit ≡ false)
        × (cited_findings row ≢ [])
        × All (IsDisproved audit) (cited_findings row))

-- A row that is withdrawn: a live, pending one of the business.
pub record IsWithdrawn (business_id moment : ℕ) (closed : Bool) (audit : Audit)
    (services : List String) (merged_complete : Bool) (row after : Row) : Type 0 where
  pub own : row.business_id ≡ business_id
  pub undecided : row.review_status ≡ pending
  pub live : row.withdrawn_at ≡ none
  pub unsupported :
      ((closed ≡ true) × IsGone audit services merged_complete row)
      ⊎ ((closed ≡ false) × IsUnsupported audit services merged_complete row)
  pub reasons : after.withdrawn_reason ≢ []
  pub changed :
      after ≡ record row { withdrawn_at = some moment; withdrawn_reason = after.withdrawn_reason }

All-domain :
    (audit : Audit) (codes : List String)
    → any (λ code. not (is_domain code)) codes ≡ false
    → all_of (λ code. lookup_worked audit.domain_intel code) (keep is_domain codes) ≡ true
    → any (λ code. is_in audit.finding_codes code) codes ≡ false
    → All (IsDisproved audit) codes
All-domain audit [] domain worked absent = tt
All-domain audit (code ∷ rest) domain worked absent =
    let others = All-domain audit rest (ground arith) (ground arith) (ground arith) in
    ((ground arith, ground arith, ground arith), others)

findings_reason-absent :
    (cited : List String) (audit : Audit)
    → findings_reason cited audit ≢ []
    → (cited ≢ []) × (any (λ code. is_in audit.finding_codes code) cited ≡ false)
findings_reason-absent [] audit some_reason = absurd (some_reason refl)
findings_reason-absent (code ∷ rest) audit some_reason =
    elim (Bool-cases (any (λ code'. is_in audit.finding_codes code') (code ∷ rest))) [
      | inl found ↦ absurd (some_reason (rw found refl))
      | inr absent ↦ ((λ empty. ground arith), absent)
    ]

-- A row that was judged on an audit that did not read the page.
judged_unread :
    (row : Row) (audit : Audit)
    → can_judge row audit ≡ true
    → can_withdraw_on audit ≡ false
    → (any (λ code. not (is_domain code)) (cited_findings row) ≡ false)
      × (all_of
            (λ code. lookup_worked audit.domain_intel code)
            (keep is_domain (cited_findings row))
          ≡ true)
unfolding can_judge
judged_unread row audit h unread = elim (Bool-cases (rests_on_page (cited_findings row))) [
  | inl on_page ↦ absurd (ground arith)
  | inr e ↦ (ground arith, ground arith)
]

row_unread :
    (row : Row) (audit : Audit) (merged_complete : Bool) (services : List String)
    → can_judge row audit ≡ true
    → can_withdraw_on audit ≡ false
    → withdrawal_reasons row audit none merged_complete ≢ []
    → IsUnsupported audit services merged_complete row
unfolding withdrawal_reasons
row_unread row audit merged_complete services judged unread some_reason =
    let (domain, worked) = judged_unread row audit judged unread in
    let (cited, absent) = findings_reason-absent (cited_findings row) audit some_reason in
    inr (unread, cited, All-domain audit (cited_findings row) domain worked absent)

All-IsAnswered :
    (audit : Audit) (codes : List String)
    → all_of (λ code. lookup_worked audit.domain_intel code) (keep is_domain codes) ≡ true
    → All (IsAnswered audit) codes
All-IsAnswered audit [] worked = tt
All-IsAnswered audit (code ∷ rest) worked = elim (Bool-cases (is_domain code)) [
  | inl domain ↦
      let all : all_of (λ c. lookup_worked audit.domain_intel c) (code ∷ keep is_domain rest)
          ≡ true =
        rw domain at worked in
      (inr (ground arith), All-IsAnswered audit rest (ground arith))
  | inr page ↦ (inl page, All-IsAnswered audit rest (rw page at worked))
]

judged-IsAnswered :
    (row : Row) (audit : Audit)
    → can_judge row audit ≡ true
    → All (IsAnswered audit) (cited_findings row)
unfolding can_judge
judged-IsAnswered row audit h = All-IsAnswered audit (cited_findings row) (ground arith)

All-IsAbsent :
    (audit : Audit) (codes : List String)
    → any (λ code. is_in audit.finding_codes code) codes ≡ false
    → All (IsAbsent audit) codes
All-IsAbsent audit [] absent = tt
All-IsAbsent audit (code ∷ rest) absent = (ground arith, All-IsAbsent audit rest (ground arith))

is_rules_lem : (source : OpportunitySource) → is_rules source ≡ true → source ≡ rules
is_rules_lem source h = ground arith

row_read :
    (row : Row) (audit : Audit) (merged_complete : Bool) (services : List String)
    → withdrawal_reasons row audit (some services) merged_complete ≢ []
    → IsGone audit services merged_complete row
unfolding withdrawal_reasons
row_read row audit true services some_reason = elim (Bool-cases (is_in services row.service)) [
  | inl still ↦ absurd (some_reason (rw still refl))
  | inr gone ↦ (gone, inl refl)
]
row_read row audit false services some_reason = elim (Bool-cases (is_in services row.service)) [
  | inl still ↦ absurd (some_reason (rw still refl))
  | inr gone ↦ elim (Bool-cases (is_rules row.source)) [
    | inl by_rules ↦ (gone, inr (inl (is_rules_lem row.source by_rules)))
    | inr by_model ↦
        let (cited, absent) =
          findings_reason-absent (cited_findings row) audit (rw (gone, by_model) at some_reason) in
        (gone, inr (inr (cited, All-IsAbsent audit (cited_findings row) absent)))
  ]
]

-- What the selection and the judgement leave, where a reason is found.
row-IsUnsupported :
    (closed : Bool) (audit : Audit) (services : List String) (merged_complete : Bool) (row : Row)
    → (closed || can_judge row audit) ≡ true
    → withdrawal_reasons row audit
        (if can_withdraw_on audit || closed then some services else none)
        merged_complete
      ≢ []
    → ((closed ≡ true) × IsGone audit services merged_complete row)
      ⊎ ((closed ≡ false) × IsUnsupported audit services merged_complete row)
row-IsUnsupported true audit services merged_complete row judged some_reason =
    elim (Bool-cases (can_withdraw_on audit)) [
      | inl read ↦ inl (refl, row_read row audit merged_complete services (rw read at some_reason))
      | inr unread ↦
          inl (refl, row_read row audit merged_complete services (rw unread at some_reason))
    ]
row-IsUnsupported false audit services merged_complete row judged some_reason =
    elim (Bool-cases (can_withdraw_on audit)) [
      | inl read ↦ inr (
        refl,
        inl (
          read,
          judged-IsAnswered row audit judged,
          row_read row audit merged_complete services (rw read at some_reason),
        ),
      )
      | inr unread ↦ inr (
        refl,
        row_unread row audit merged_complete services judged unread (rw unread at some_reason),
      )
    ]

is_pending_lem : (status : ReviewStatus) → is_pending status ≡ true → status ≡ pending
is_pending_lem status h = ground arith

not_given : (withdrawn_at : Option ℕ) → is_some withdrawn_at ≡ false → withdrawn_at ≡ none
not_given none h = refl
not_given (some moment) h = absurd (ground arith)

is_selected-own :
    (business_id : ℕ) (row : Row)
    → is_selected business_id row ≡ true
    → (row.business_id ≡ business_id) × (row.withdrawn_at ≡ none)
is_selected-own business_id row h =
    let live : is_some row.withdrawn_at ≡ false = ground arith in
    (ground arith, not_given row.withdrawn_at live)

-- The rows after a withdrawal, and how many of them were withdrawn.
pub data IsWithdrawal (business_id moment : ℕ) (closed : Bool) (audit : Audit)
    (services : List String) (merged_complete : Bool) : List Row → List Row → ℕ → Type 0 where
  nothing : IsWithdrawal business_id moment closed audit services merged_complete [] [] 0
  left_alone :
      {before after : List Row} {n : ℕ} (row : Row)
      → IsWithdrawal business_id moment closed audit services merged_complete before after n
      → IsWithdrawal business_id moment closed audit services merged_complete
          (row ∷ before)
          (row ∷ after)
          n
  withdraws :
      {before after : List Row} {n : ℕ} (row row' : Row)
      → IsWithdrawn business_id moment closed audit services merged_complete row row'
      → IsWithdrawal business_id moment closed audit services merged_complete before after n
      → IsWithdrawal business_id moment closed audit services merged_complete
          (row ∷ before)
          (row' ∷ after)
          (suc n)

module _ (business_id : ℕ) (closed : Bool) (audit : Audit) (services : List String)
    (merged_complete : Bool) (moment : ℕ) where
  abbrev IsJudged : Row → Row × ℕ → Type 0
  IsJudged row after =
      (after ≡ (row, 0))
      ⊎ ((after.1 ≡ 1)
          × IsWithdrawn business_id moment closed audit services merged_complete row after.0)

  withdrawn_if-IsJudged :
      (row : Row) (reasons : List Reason)
      → is_selected business_id row ≡ true
      → (reasons ≢ []
          → ((closed ≡ true) × IsGone audit services merged_complete row)
            ⊎ ((closed ≡ false) × IsUnsupported audit services merged_complete row))
      → IsJudged row (withdrawn_if (is_pending row.review_status) reasons moment row)
  withdrawn_if-IsJudged row [] selected why = inl refl
  withdrawn_if-IsJudged row (reason ∷ rest) selected why =
      elim (Bool-cases (is_pending row.review_status)) [
        | inr decided ↦ rw decided (inl refl)
        | inl undecided ↦ rw undecided (
            inr (
              refl,
              record {
                own = (is_selected-own business_id row selected).0;
                undecided = is_pending_lem row.review_status undecided;
                live = (is_selected-own business_id row selected).1;
                unsupported = why (λ empty. ground arith);
                reasons = λ empty. ground arith;
                changed = refl;
              },
            ))
      ]

  withdraw_row-IsJudged :
      (row : Row)
      → IsJudged row (withdraw_row business_id closed audit services merged_complete moment row)
  unfolding withdraw_row
  withdraw_row-IsJudged row =
      elim (Bool-cases (is_selected business_id row && (closed || can_judge row audit))) [
        | inr e ↦ rw e (inl refl)
        | inl e ↦
            let selected : is_selected business_id row ≡ true = ground arith in
            let judged : (closed || can_judge row audit) ≡ true = ground arith in
            let merged = if can_withdraw_on audit || closed then some services else none in
            rw e (
              withdrawn_if-IsJudged row (withdrawal_reasons row audit merged merged_complete)
                selected (row-IsUnsupported closed audit services merged_complete row judged))
      ]

-- A withdrawal changes only live, pending rows of the business, and counts them. For a business that
-- is still open, such a row is judged by an audit that has looked up every finding of the domain
-- that it cites; where the audit read the page, its result no longer has the service, and it is
-- complete, or the row rests on the rules alone, or none of the findings that it cites is left;
-- where it did not, the row cites findings, all of the domain and none of them left. For a business
-- that is closed for good, only the result is asked, whatever the audit looked at.
pub withdraw_unsupported-IsWithdrawal :
    (business_id : ℕ) (closed : Bool) (audit : Audit) (services : List String)
    (merged_complete : Bool) (moment : ℕ) (rows : List Row)
    → IsWithdrawal business_id moment closed audit services merged_complete rows
        (withdraw_unsupported business_id closed audit services merged_complete moment rows).0
        (withdraw_unsupported business_id closed audit services merged_complete moment rows).1
unfolding withdraw_unsupported
withdraw_unsupported-IsWithdrawal business_id closed audit services merged_complete moment [] =
    nothing
withdraw_unsupported-IsWithdrawal business_id closed audit services merged_complete moment
      (row ∷ rest) =
    let more =
      (withdraw_unsupported business_id closed audit services merged_complete moment rest).1 in
    let others =
      withdraw_unsupported-IsWithdrawal business_id closed audit services merged_complete moment
        rest in
    let same_number : 0 + more ≡ more = omega arith in
    let one_more : 1 + more ≡ suc more = omega arith in
    elim (withdraw_row-IsJudged business_id closed audit services merged_complete moment row) [
      | inl same ↦ rw (same, same_number) (left_alone row others)
      | inr (one, withdrawn) ↦
          rw (one, one_more)
            (withdraws row
              (withdraw_row business_id closed audit services merged_complete moment row).0
              withdrawn others)
    ]
