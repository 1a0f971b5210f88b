-- ===== src/Fetch/Url.antt =====
-- The guard on a URL, as far as core/safe_fetch.py can tell without the network: `normalize_url`,
-- `split_safe_url` and `port_of`. Strings and the parsing of URLs are the standard library's.
pub mod Safe
use lead_discovery_rader.Prelude.{
  ℕ, String, Option, none, some, List, [], ◌∷◌, Bool, true, false, not, ◌&&◌, ◌||◌, ◌==◌, ◌==ₛ◌,
  any, if◌then◌else◌,
}
use lead_discovery_rader.Fetch.Address.{IpAddress, Reason, blocked_reason}

-- `SplitResult.port`, whose reading fails where it is not a number.
pub data Port : Type 0 where
  no_port invalid_port : Port
  port : ℕ → Port

pub record SplitResult : Type 0 where
  pub scheme : String
  pub netloc : String
  pub path : String
  pub hostname : Option String
  pub port : Port
  pub username : Option String
  pub password : Option String

-- The functions of the standard library on URLs; `none` is a `ValueError`. `has_slashes` is
-- `"//" in value.split("?", 1)[0]`, and `parse_ip` is `_as_ip`. `decode` fails
-- where there is no such encoding; `media_type` and `charset_of` take a content type apart.
pub record UrlLibrary : Type 0 where
  pub strip : String → String
  pub has_slashes : String → Bool
  pub with_https : String → String
  pub urlsplit : String → Option SplitResult
  pub urlunsplit : String → String → String → String
  pub urljoin : String → String → Option String
  pub lower : String → String
  pub parse_ip : String → Option IpAddress
  pub decode : String → List ℕ → Option String
  pub media_type : String → String
  pub charset_of : String → String

pub data Refusal : Type 0 where
  empty_url no_host bad_port port_not_allowed credentials no_backend dns_not_an_ip : Refusal
  scheme_not_allowed : String → Refusal
  blocked_address : Reason → Refusal

-- What a fetch raises: `UnsafeUrlError`, or the `ValueError` of a URL that does not parse, or what a
-- backend raises that is no `FetchError`.
pub data Exc : Type 0 where
  unsafe_url : Refusal → Exc
  value_error : Exc
  other_error : String → Exc

pub data Result {ℓ} (A : Type ℓ) : Type ℓ where
  raised : Exc → Result A
  value : A → Result A

abbrev pub and_then {ℓ κ} : {A : Type ℓ} {B : Type κ} → Result A → (A → Result B) → Result B
and_then (raised e) next = raised e
and_then (value a) next = next a

abbrev pub refuse_if {ℓ} : {A : Type ℓ} → Bool → Refusal → Result A → Result A
refuse_if refused why next = if refused then raised (unsafe_url why) else next

abbrev pub allowed_schemes : List String
allowed_schemes = "http" ∷ "https" ∷ []

abbrev pub is_allowed_scheme : String → Bool
is_allowed_scheme scheme = any (λ other. scheme ==ₛ other) allowed_schemes

-- `ALLOWED_PORTS`
abbrev pub is_allowed_port : ℕ → Bool
is_allowed_port n = (n == 80) || (n == 443)

-- `bool(parts.username or parts.password)`
abbrev pub is_given : Option String → Bool
is_given none = false
is_given (some text) = not (text ==ₛ "")

module _ (urls : UrlLibrary) where
  normalized : String → Result String
  normalized stripped =
      refuse_if (stripped ==ₛ "") empty_url
        (value (if urls.has_slashes stripped then stripped else urls.with_https stripped))

  unfoldable pub normalize_url : String → Result String
  unfolding normalized
  normalize_url raw = normalized (urls.strip raw)

  check_reason : Option Reason → SplitResult → Result SplitResult
  check_reason none parts = value parts
  check_reason (some reason) parts = raised (unsafe_url (blocked_address reason))

  -- An IP literal is validated here; a name is validated once it is resolved.
  check_literal : Option IpAddress → SplitResult → Result SplitResult
  unfolding check_reason
  check_literal none parts = value parts
  check_literal (some address) parts = check_reason (blocked_reason address) parts

  check_credentials : String → SplitResult → Result SplitResult
  unfolding check_literal
  check_credentials host parts =
      refuse_if (is_given parts.username || is_given parts.password) credentials
        (check_literal (urls.parse_ip host) parts)

  check_port : String → SplitResult → Port → Result SplitResult
  unfolding check_credentials
  check_port host parts invalid_port = raised (unsafe_url bad_port)
  check_port host parts no_port = check_credentials host parts
  check_port host parts (port n) =
      refuse_if (not (is_allowed_port n)) port_not_allowed (check_credentials host parts)

  check_host : SplitResult → Option String → Result SplitResult
  unfolding check_port
  check_host parts none = raised (unsafe_url no_host)
  check_host parts (some host) = refuse_if (host ==ₛ "") no_host (check_port host parts parts.port)

  check_parts : Option SplitResult → Result SplitResult
  unfolding check_host
  check_parts none = raised value_error
  check_parts (some parts) =
      refuse_if (not (is_allowed_scheme (urls.lower parts.scheme)))
        (scheme_not_allowed (urls.lower parts.scheme)) (check_host parts parts.hostname)

  unfoldable pub split_safe_url : String → Result SplitResult
  unfolding normalize_url check_parts
  split_safe_url raw = and_then (normalize_url raw) (λ url. check_parts (urls.urlsplit url))

-- `port_of`
abbrev default_port : Bool → ℕ
default_port is_http = if is_http then 80 else 443

abbrev given_port : Port → ℕ → ℕ
given_port no_port default = default
given_port invalid_port default = default
given_port (port n) default = if n == 0 then default else n

unfoldable pub port_of : UrlLibrary → SplitResult → ℕ
port_of urls parts = given_port parts.port (default_port (urls.lower parts.scheme ==ₛ "http"))
