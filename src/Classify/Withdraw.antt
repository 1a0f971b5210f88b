-- ===== src/Classify/Withdraw.antt =====
-- Withdrawing what an audit no longer supports: `withdraw_unsupported` of
-- modules/opportunities/service.py, and `lookup_worked` of modules/domain_intel/evidence.py.
pub mod Judged
use Prim.Native.String.{◌++◌ as ◌++ₛ◌}
use lead_discovery_rader.Prelude.{
  ℕ, zero, suc, ◌+◌, String, Option, none, some, List, [], ◌∷◌, ◌++◌, map, Bool, true, false, not,
  ◌&&◌, ◌||◌, ◌==◌, ◌==ₛ◌, any, keep, find_first, is_some, if◌then◌else◌,
}
use lead_discovery_rader.Leads.Model.{
  ReviewStatus, pending, approved, rejected, needs_enrichment, duplicate, not_a_fit, do_not_contact,
}

pub data AuditStatus : Type 0 where
  done skipped robots_blocked unreachable bot_challenge not_readable failed : AuditStatus

pub data OpportunitySource : Type 0 where
  rules ai rules_and_ai : OpportunitySource

pub record DnsEntry : Type 0 where
  pub name : String
  pub rdtype : String
  pub is_unknown : Bool

-- What an audit stored of the DNS lookups.
pub record DnsSnapshot : Type 0 where
  pub apex : String
  pub site_host : String
  pub entries : List DnsEntry

-- The value of the check `domain_intel`: whether the registry answered, and the DNS snapshot.
pub record DomainIntel : Type 0 where
  pub rdap : Bool
  pub dns : Option DnsSnapshot

pub record Audit : Type 0 where
  pub status : AuditStatus
  pub finding_codes : List String
  pub domain_intel : Option DomainIntel

-- The two reasons, without their texts.
pub data Reason : Type 0 where
  service_absent findings_absent : Reason

-- The fields of an opportunity that matter here. `evidence_codes` are the finding codes of its
-- evidence, none where a piece of evidence has no such key.
pub record Row : Type 0 where
  pub business_id : ℕ
  pub service : String
  pub source : OpportunitySource
  pub review_status : ReviewStatus
  pub evidence_codes : List (Option String)
  pub withdrawn_at : Option ℕ
  pub withdrawn_reason : List Reason

abbrev pub is_in : List String → String → Bool
is_in known text = any (λ other. text ==ₛ other) known

abbrev pub all_of : (String → Bool) → List String → Bool
all_of p [] = true
all_of p (x ∷ rest) = p x && all_of p rest

abbrev pub is_empty : {A : Type 0} → List A → Bool
is_empty [] = true
is_empty (x ∷ rest) = false

-- `RDAP_FINDINGS`, `DNS_FINDINGS` and their union
abbrev pub rdap_findings : List String
rdap_findings = "domain_expired" ∷ "domain_expiring_soon" ∷ []

abbrev pub dns_findings : List String
dns_findings =
    "domain_no_a_record" ∷ "multiple_spf_records" ∷ "spf_allows_all" ∷ "no_spf" ∷ "no_dmarc"
    ∷ "dmarc_policy_none" ∷ "no_domain_mx" ∷ []

abbrev pub is_domain : String → Bool
is_domain code = is_in rdap_findings code || is_in dns_findings code

-- `_questions`
abbrev pub questions : DnsSnapshot → String → List (String × String)
questions snapshot code =
    if code ==ₛ "domain_no_a_record"
    then (snapshot.site_host, "A")
      ∷ (snapshot.site_host, "AAAA")
      ∷ (snapshot.site_host, "CNAME")
      ∷ []
    else (if is_in ("no_dmarc" ∷ "dmarc_policy_none" ∷ []) code
        then ("_dmarc." ++ₛ snapshot.apex, "TXT") ∷ []
        else (if code ==ₛ "no_domain_mx"
            then (snapshot.apex, "MX") ∷ []
            else (snapshot.apex, "TXT") ∷ []))

abbrev unknown_in : Option DnsEntry → Bool
unknown_in none = true
unknown_in (some entry) = entry.is_unknown

-- Whether `dns_lookup.state` of a question is not unknown.
abbrev is_answered : DnsSnapshot → String × String → Bool
is_answered snapshot (name, rdtype) = not (
    unknown_in
      (find_first (λ entry. (entry.name ==ₛ name) && (entry.rdtype ==ₛ rdtype)) snapshot.entries))

abbrev all_answered : DnsSnapshot → List (String × String) → Bool
all_answered snapshot [] = true
all_answered snapshot (question ∷ rest) =
    is_answered snapshot question && all_answered snapshot rest

abbrev dns_worked : Option DnsSnapshot → String → Bool
dns_worked none code = false
dns_worked (some snapshot) code =
    is_in dns_findings code && all_answered snapshot (questions snapshot code)

unfoldable pub lookup_worked : Option DomainIntel → String → Bool
unfolding find_first
lookup_worked none code = false
lookup_worked (some value) code =
    if is_in rdap_findings code then value.rdap else dns_worked value.dns code

-- `can_withdraw_on`
abbrev pub can_withdraw_on : Audit → Bool
can_withdraw_on audit = elim audit.status [
  | done ↦ true
  | skipped ↦ true
  | robots_blocked ↦ false
  | unreachable ↦ false
  | bot_challenge ↦ false
  | not_readable ↦ false
  | failed ↦ false
]

abbrev given : List (Option String) → List String
given [] = []
given (none ∷ rest) = given rest
given (some code ∷ rest) = if code ==ₛ "" then given rest else code ∷ given rest

-- `cited_findings`, which may have a code twice here.
abbrev pub cited_findings : Row → List String
cited_findings row = given row.evidence_codes

-- Whether a page finding is cited, or no finding at all.
abbrev pub rests_on_page : List String → Bool
rests_on_page cited = is_empty cited || any (λ code. not (is_domain code)) cited

unfoldable pub can_judge : Row → Audit → Bool
unfolding lookup_worked
can_judge row audit =
    let cited = cited_findings row in
    if rests_on_page cited && not (can_withdraw_on audit)
    then false
    else all_of (λ code. lookup_worked audit.domain_intel code) (keep is_domain cited)

abbrev pub is_rules : OpportunitySource → Bool
is_rules rules = true
is_rules ai = false
is_rules rules_and_ai = false

abbrev pub findings_reason : List String → Audit → List Reason
findings_reason cited audit =
    if not (is_empty cited) && not (any (λ code. is_in audit.finding_codes code) cited)
    then findings_absent ∷ []
    else []

-- `withdrawal_reasons`
unfoldable pub withdrawal_reasons : Row → Audit → Option (List String) → Bool → List Reason
withdrawal_reasons row audit none merged_complete = findings_reason (cited_findings row) audit
withdrawal_reasons row audit (some services) merged_complete =
    let by_findings = findings_reason (cited_findings row) audit in
    if is_in services row.service
    then []
    else (if merged_complete || is_rules row.source
        then service_absent ∷ by_findings
        else by_findings)

abbrev pub is_pending : ReviewStatus → Bool
is_pending pending = true
is_pending approved = false
is_pending rejected = false
is_pending needs_enrichment = false
is_pending duplicate = false
is_pending not_a_fit = false
is_pending do_not_contact = false

-- The statuses of the rows that are looked at.
abbrev pub is_considered : ReviewStatus → Bool
is_considered pending = true
is_considered needs_enrichment = true
is_considered approved = true
is_considered rejected = false
is_considered duplicate = false
is_considered not_a_fit = false
is_considered do_not_contact = false

-- The rows that the query selects.
abbrev pub is_selected : ℕ → Row → Bool
is_selected business_id row =
    (row.business_id == business_id)
    && is_considered row.review_status
    && not (is_some row.withdrawn_at)

abbrev pub withdrawn_if : Bool → List Reason → ℕ → Row → Row × ℕ
withdrawn_if live [] moment row = (row, 0)
withdrawn_if true (reason ∷ rest) moment row =
    (record row { withdrawn_at = some moment; withdrawn_reason = reason ∷ rest }, 1)
withdrawn_if false (reason ∷ rest) moment row = (row, 0)

-- One row of `withdraw_unsupported`, and whether it counts as withdrawn.
unfoldable pub withdraw_row : ℕ → Bool → Audit → List String → Bool → ℕ → Row → Row × ℕ
unfolding can_judge withdrawal_reasons
withdraw_row business_id closed audit services merged_complete moment row =
    let merged = if can_withdraw_on audit || closed then some services else none in
    if is_selected business_id row && (closed || can_judge row audit)
    then withdrawn_if (is_pending row.review_status)
        (withdrawal_reasons row audit merged merged_complete) moment row
    else (row, 0)

unfoldable pub withdraw_unsupported :
    ℕ → Bool → Audit → List String → Bool → ℕ → List Row → List Row × ℕ
unfolding withdraw_row
withdraw_unsupported business_id closed audit services merged_complete moment [] = ([], 0)
withdraw_unsupported business_id closed audit services merged_complete moment (row ∷ rest) =
    let (after, one) = withdraw_row business_id closed audit services merged_complete moment row in
    let (others, more) =
      withdraw_unsupported business_id closed audit services merged_complete moment rest in
    (after ∷ others, one + more)
