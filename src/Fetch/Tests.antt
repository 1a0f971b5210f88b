-- ===== src/Fetch/Tests.antt =====
-- A page behind a redirect, and a redirect to an address that is refused.
use lead_discovery_rader.Prelude.{
  ℕ, ◌+◌, ◌*◌, ◌^◌, ◌≡◌, refl, String, Option, none, some, [], ◌∷◌, true, false, ◌==ₛ◌,
  if◌then◌else◌, arith, find_first, take, ◌⊎◌,
}
use lead_discovery_rader.Fetch.Address.{IpAddress, v4, v6, blocked_reason, is_member, private_use}
use lead_discovery_rader.Fetch.Address.Public.{
  public_ranges, is_allowed, in_sixtofour, blocked_reason-public,
}
use lead_discovery_rader.Fetch.Body.{read_capped}
use lead_discovery_rader.Fetch.Body.Capped.{read_capped-take}
use lead_discovery_rader.Fetch.Url.{
  SplitResult, UrlLibrary, no_port, Result, raised, value, unsafe_url, blocked_address,
}
use lead_discovery_rader.Fetch.Fetcher.{
  BackendResponse, answered, Backend, Settings, Env, Net, FetchOutcome,
}
use lead_discovery_rader.Fetch.Fetcher.Follow.{fetch}
use lead_discovery_rader.Fetch.Fetcher.Guarded.{AllGuarded}
use lead_discovery_rader.Fetch.Fetcher.Guarded.Sent.{fetch-AllGuarded}

abbrev parts_of : String → SplitResult
parts_of host = record {
  scheme = "https";
  netloc = host;
  path = "/";
  hostname = some host;
  port = no_port;
  username = none;
  password = none;
}

abbrev split : String → Option SplitResult
split url =
    if url ==ₛ "https://10.0.0.1/" then some (parts_of "10.0.0.1") else some (parts_of "a.example")

abbrev ip_of : String → Option IpAddress
ip_of text =
    if text ==ₛ "8.8.8.8"
    then some (v4 134744072)
    else (if text ==ₛ "10.0.0.1" then some (v4 167772161) else none)

abbrev urls : UrlLibrary
urls = record {
  strip = λ text. text;
  has_slashes = λ text. true;
  with_https = λ text. text;
  urlsplit = split;
  urlunsplit = λ scheme netloc path. netloc;
  urljoin = λ base location. some location;
  lower = λ text. text;
  parse_ip = ip_of;
  decode = λ charset body. some "";
  media_type = λ text. text;
  charset_of = λ text. "utf-8";
}

abbrev settings : Settings
settings = record {
  audit_total_timeout = 30000;
  audit_connect_timeout = 5000;
  audit_read_timeout = 10000;
  audit_max_bytes = 1000;
  audit_max_redirects = 3;
}

abbrev moved_to : String → BackendResponse
moved_to location = record {
  status_code = 302;
  headers = ("location", location) ∷ [];
  body = [];
  truncated = false;
}

abbrev page : BackendResponse
page = record { status_code = 200; headers = []; body = 104 ∷ 105 ∷ []; truncated = false }

-- The start is moved to the given URL, and any other URL is a page.
abbrev site : String → Backend
site location = record {
  handles = λ host. true;
  resolves_dns = true;
  get = λ seen request.
      if request.url ==ₛ "https://a.example/" then answered (moved_to location) else answered page;
}

abbrev env : String → Env
env location = record {
  clock = λ reading. reading;
  resolver = λ seen host port. some ("8.8.8.8" ∷ []);
  backends = site location ∷ [];
}

abbrev start : Net
start = record { trace = []; requested = []; readings = 0 }

abbrev status_of : Result FetchOutcome → Result (Option ℕ)
status_of (raised e) = raised e
status_of (value outcome) = value outcome.status_code

followed :
    status_of (fetch urls settings (env "https://a.example/home") "https://a.example/" true start).0
    ≡ value (some 200)
unfolding fetch find_first blocked_reason
followed = refl

stays_out :
    status_of (fetch urls settings (env "https://10.0.0.1/") "https://a.example/" true start).0
    ≡ raised (unsafe_url (blocked_address private_use))
unfolding fetch find_first blocked_reason
stays_out = refl

fetch-AllGuarded_example :
    AllGuarded urls settings
      (env "https://10.0.0.1/")
      (fetch urls settings (env "https://10.0.0.1/") "https://a.example/" true start).1
fetch-AllGuarded_example =
    fetch-AllGuarded urls settings (env "https://10.0.0.1/") "https://a.example/" true start tt

-- 192.168.0.1, as a 6to4 address.
abbrev sixtofour_address : IpAddress
sixtofour_address = v6 (0x2002 * 2 ^ 112 + 3232235521 * 2 ^ 80 + 7)

blocked_reason-public_example :
    is_allowed (blocked_reason sixtofour_address) ≡ is_member public_ranges 3232235521
blocked_reason-public_example =
    blocked_reason-public sixtofour_address 3232235521
      (in_sixtofour 3232235521 7 (omega arith) (omega arith))

read_capped-take_example :
    let r = read_capped 3 0 ((1 ∷ 2 ∷ []) ∷ (3 ∷ 4 ∷ []) ∷ []) in
    (r.0 ≡ take 3 (1 ∷ 2 ∷ 3 ∷ 4 ∷ [])) × ((r.1 ≡ true) ⊎ (r.0 ≡ 1 ∷ 2 ∷ 3 ∷ 4 ∷ []))
read_capped-take_example = read_capped-take 3 0 ((1 ∷ 2 ∷ []) ∷ (3 ∷ 4 ∷ []) ∷ [])
