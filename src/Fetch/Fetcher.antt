-- ===== src/Fetch/Fetcher.antt =====
-- What `SafeFetcher` of core/safe_fetch.py and the backends of core/fetch_backends.py exchange. The
-- clock, the name server and the backends answer by what happened before; the fetch slot and the
-- claim on a host are events here.
pub mod Follow
pub mod Guarded
pub mod Kept
pub mod Orderly
pub mod Request
use lead_discovery_rader.Prelude.{
  ℕ, zero, suc, ◌+◌, ◌-◌, ◌*◌, String, Option, none, some, List, [], ◌∷◌, ◌++◌, Bool, true, false,
  not, ◌&&◌, ◌||◌, leb, ◌==◌, ◌==ₛ◌, any, min, find_first, if◌then◌else◌,
}
use lead_discovery_rader.Fetch.Address.{IpAddress, v4, v6, Reason, blocked_reason}
use lead_discovery_rader.Fetch.Url.{
  SplitResult, UrlLibrary, Refusal, blocked_address, dns_not_an_ip, no_backend, Exc, unsafe_url,
  value_error, other_error, Result, raised, value, and_then, normalize_url, split_safe_url, port_of,
}

pub record BackendResponse : Type 0 where
  pub status_code : ℕ
  pub headers : List (String × String)
  pub body : List ℕ
  pub truncated : Bool

-- A request, without its constant headers. Times are milliseconds.
pub record FetchRequest : Type 0 where
  pub url : String
  pub parts : SplitResult
  pub connect_timeout : ℕ
  pub read_timeout : ℕ
  pub max_bytes : ℕ
  pub pinned_ip : Option IpAddress

pub data ErrorKind : Type 0 where
  connect timeout tls network : ErrorKind

-- What a request ends with: an answer, a `FetchError` with its kind, or another exception.
pub data Reply : Type 0 where
  answered : BackendResponse → Reply
  failed : ErrorKind → String → Reply
  stopped : Exc → Reply

-- What a request is pinned to, or why it is not made.
pub data Pin : Type 0 where
  pinned : Option IpAddress → Pin
  not_pinned : Reply → Pin

pub data Event : Type 0 where
  slot_taken slot_released : Event
  host_claimed : String → Event
  resolved : String → ℕ → Event
  sent : Bool → FetchRequest → Event

pub record Backend : Type 0 where
  pub handles : String → Bool
  pub resolves_dns : Bool
  pub get : List Event → FetchRequest → Reply

pub record Settings : Type 0 where
  pub audit_total_timeout : ℕ
  pub audit_connect_timeout : ℕ
  pub audit_read_timeout : ℕ
  pub audit_max_bytes : ℕ
  pub audit_max_redirects : ℕ

pub record Env : Type 0 where
  pub clock : ℕ → ℕ
  pub resolver : List Event → String → ℕ → Option (List String)
  pub backends : List Backend

-- What has happened, the latest first, and how often the clock was read.
pub record Net : Type 0 where
  pub trace : List Event
  pub requested : List String
  pub readings : ℕ

pub record FetchOutcome : Type 0 where
  pub url : String
  pub final_url : String
  pub status_code : Option ℕ
  pub redirect_chain : List String
  pub content_type : Option String
  pub body : List ℕ
  pub text : Option String
  pub truncated : Bool
  pub tls_valid : Bool
  pub error : Option String
  pub error_kind : Option ErrorKind

abbrev pub log : Event → Net → Net
log event net = record net { trace = event ∷ net.trace }

abbrev pub name_of : Option String → String
name_of none = ""
name_of (some host) = host

-- `_is_redirect`
abbrev pub is_redirect : ℕ → Bool
is_redirect status = any (λ n. status == n) (301 ∷ 302 ∷ 303 ∷ 307 ∷ 308 ∷ [])

abbrev pub is_v4 : IpAddress → Bool
is_v4 (v4 a) = true
is_v4 (v6 a) = false

abbrev pub first_or : IpAddress → Option IpAddress → IpAddress
first_or first none = first
first_or first (some a) = a

-- The first IPv4 address, or else the first.
abbrev pub preferred : IpAddress → List IpAddress → IpAddress
preferred first rest = first_or first (find_first is_v4 (first ∷ rest))
