-- ===== src/Fetch/Url/Safe.antt =====
-- The URLs that the guard lets through.
use mathlib.Core.Path.{subst}
use lead_discovery_rader.Prelude.{
  ◌≡◌, refl, String, Option, none, some, true, false, ◌||◌, arith, Bool-cases, Option-cases, ◌⊎◌,
  inl, inr,
}
use lead_discovery_rader.Fetch.Address.{IpAddress, blocked_reason}
use lead_discovery_rader.Fetch.Url.{
  SplitResult, Port, no_port, invalid_port, port, UrlLibrary, Exc, Result, raised, value,
  normalize_url, split_safe_url, check_parts, check_host, check_port, check_credentials,
  check_literal, check_reason, is_allowed_scheme, is_given,
}

abbrev pub IsAllowedPort : Port → Type 0
IsAllowedPort no_port = Unit {0}
IsAllowedPort invalid_port = ⊥
IsAllowedPort (port n) = (n ≡ 80) ⊎ (n ≡ 443)

-- A host that is a name, or a literal that may be connected to.
abbrev pub IsPublicLiteral : Option IpAddress → Type 0
IsPublicLiteral none = Unit {0}
IsPublicLiteral (some a) = blocked_reason a ≡ none

pub record IsSafeUrl (urls : UrlLibrary) (parts : SplitResult) : Type 0 where
  pub scheme : is_allowed_scheme (urls.lower parts.scheme) ≡ true
  pub host : String
  pub hostname : parts.hostname ≡ some host
  pub no_other_port : IsAllowedPort parts.port
  pub no_user : is_given parts.username ≡ false
  pub no_password : is_given parts.password ≡ false
  pub literal : IsPublicLiteral (urls.parse_ip host)

value_injective {ℓ} : {A : Type ℓ} {a b : A} → value a ≡ value b → a ≡ b
value_injective h = cc

check_literal-ok :
    (urls : UrlLibrary) (found : Option IpAddress) (parts parts' : SplitResult)
    → check_literal urls found parts ≡ value parts'
    → (parts ≡ parts') × IsPublicLiteral found
unfolding check_literal check_reason
check_literal-ok urls none parts parts' h = (value_injective h, tt)
check_literal-ok urls (some address) parts parts' h = elim (Option-cases (blocked_reason address)) [
  | inl e ↦ (ground arith, e)
  | inr (reason, e) ↦ absurd (ground arith)
]

check_credentials-ok :
    (urls : UrlLibrary) (host : String) (parts parts' : SplitResult)
    → check_credentials urls host parts ≡ value parts'
    → (parts ≡ parts')
      × (is_given parts.username ≡ false)
      × (is_given parts.password ≡ false)
      × IsPublicLiteral (urls.parse_ip host)
unfolding check_credentials
check_credentials-ok urls host parts parts' h =
    elim (Bool-cases (is_given parts.username || is_given parts.password)) [
      | inl e ↦ absurd (ground arith)
      | inr e ↦
          let (same, literal) =
            check_literal-ok urls (urls.parse_ip host) parts parts' (ground arith) in
          (same, ground arith, ground arith, literal)
    ]

check_port-ok :
    (urls : UrlLibrary) (host : String) (parts parts' : SplitResult) (p : Port)
    → check_port urls host parts p ≡ value parts'
    → IsAllowedPort p × (check_credentials urls host parts ≡ value parts')
unfolding check_port
check_port-ok urls host parts parts' no_port h = (tt, h)
check_port-ok urls host parts parts' invalid_port h = absurd (ground arith)
check_port-ok urls host parts parts' (port n) h = ground arith

check_host-ok :
    (urls : UrlLibrary) (parts parts' : SplitResult) (found : Option String)
    → is_allowed_scheme (urls.lower parts.scheme) ≡ true
    → parts.hostname ≡ found
    → check_host urls parts found ≡ value parts'
    → IsSafeUrl urls parts'
unfolding check_host
check_host-ok urls parts parts' none ok e h = absurd (ground arith)
check_host-ok urls parts parts' (some host) ok e h =
    let h' : check_port urls host parts parts.port ≡ value parts' = ground arith in
    let (allowed, rest) = check_port-ok urls host parts parts' parts.port h' in
    let (same, no_user, no_password, literal) = check_credentials-ok urls host parts parts' rest in
    subst (IsSafeUrl urls) same (record {
      scheme = ok;
      host = host;
      hostname = e;
      no_other_port = allowed;
      no_user = no_user;
      no_password = no_password;
      literal = literal;
    })

check_parts-ok :
    (urls : UrlLibrary) (found : Option SplitResult) (parts' : SplitResult)
    → check_parts urls found ≡ value parts'
    → IsSafeUrl urls parts'
unfolding check_parts
check_parts-ok urls none parts' h = absurd (ground arith)
check_parts-ok urls (some parts) parts' h =
    elim (Bool-cases (is_allowed_scheme (urls.lower parts.scheme))) [
      | inl e ↦ check_host-ok urls parts parts' parts.hostname e refl (ground arith)
      | inr e ↦ absurd (ground arith)
    ]

pub Result-cases {ℓ} :
    {A : Type ℓ} (r : Result A) → ((e : Exc) × (r ≡ raised e)) ⊎ ((a : A) × (r ≡ value a))
Result-cases (raised e) = inl (e, refl)
Result-cases (value a) = inr (a, refl)

pub split_safe_url-IsSafeUrl :
    (urls : UrlLibrary) (raw : String) (parts : SplitResult)
    → split_safe_url urls raw ≡ value parts
    → IsSafeUrl urls parts
unfolding split_safe_url
split_safe_url-IsSafeUrl urls raw parts h = elim (Result-cases (normalize_url urls raw)) [
  | inl (e, q) ↦ absurd (ground arith)
  | inr (url, q) ↦ check_parts-ok urls (urls.urlsplit url) parts (ground arith)
]
