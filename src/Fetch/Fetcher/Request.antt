-- ===== src/Fetch/Fetcher/Request.antt =====
-- `SafeFetcher._request` and `_validate_dns`: one request, from the check of its URL to its slot.
use lead_discovery_rader.Prelude.{
  ℕ, String, Option, none, some, List, [], ◌∷◌, ◌++◌, Bool, true, false, ◌==ₛ◌, min, find_first,
  if◌then◌else◌,
}
use lead_discovery_rader.Fetch.Address.{IpAddress, blocked_reason}
use lead_discovery_rader.Fetch.Url.{
  SplitResult, UrlLibrary, blocked_address, dns_not_an_ip, no_backend, unsafe_url, Result, raised,
  value, and_then, split_safe_url, port_of,
}
use lead_discovery_rader.Fetch.Fetcher.{
  FetchRequest, connect, Reply, failed, stopped, Pin, pinned, not_pinned, slot_taken, slot_released,
  host_claimed, resolved, sent, Backend, Settings, Env, Net, log, name_of, preferred,
}

module _ (urls : UrlLibrary) (settings : Settings) (env : Env) where
  -- `BackendResponse.header`
  unfoldable pub header : String → List (String × String) → Option String
  header name [] = none
  header name ((key, text) ∷ rest) =
      if urls.lower key ==ₛ urls.lower name then some text else header name rest

  unfoldable pub check_answer : Option IpAddress → Result IpAddress
  check_answer none = raised (unsafe_url dns_not_an_ip)
  check_answer (some address) = elim (blocked_reason address) [
    | none ↦ value address
    | some reason ↦ raised (unsafe_url (blocked_address reason))
  ]

  -- Every answer is an address that may be connected to.
  unfoldable pub check_answers : List String → Result (List IpAddress)
  unfolding check_answer
  check_answers [] = value []
  check_answers (text ∷ rest) =
      and_then (check_answer (urls.parse_ip text))
        (λ address. and_then (check_answers rest) (λ others. value (address ∷ others)))

  -- `validated[0]` and the like, for answers of which there is at least one.
  unfoldable pub choose : List IpAddress → Option IpAddress
  choose [] = none
  choose (first ∷ rest) = some (preferred first rest)

  unfoldable pub pin_of : Result (List IpAddress) → Pin
  unfolding choose
  pin_of (raised e) = not_pinned (stopped e)
  pin_of (value addresses) = pinned (choose addresses)

  unfoldable pub pin_answers : Option (List String) → Pin
  unfolding pin_of check_answers
  pin_answers none = not_pinned (failed connect "DNS lookup failed")
  pin_answers (some []) = not_pinned (failed connect "resolved to no addresses")
  pin_answers (some (text ∷ rest)) = pin_of (check_answers (text ∷ rest))

  unfoldable pub pin_host : Option IpAddress → String → ℕ → Net → Pin × Net
  unfolding pin_answers
  pin_host (some literal) host port net = (pinned none, net)
  pin_host none host port net =
      (pin_answers (env.resolver net.trace host port), log (resolved host port) net)

  -- `_validate_dns`: an IP literal was validated with the URL, and needs no pin.
  unfoldable pub validate_dns : String → ℕ → Net → Pin × Net
  unfolding pin_host
  validate_dns host port net = pin_host (urls.parse_ip host) host port net

  -- A fixture is not looked up.
  unfoldable pub pin_for : Bool → String → ℕ → Net → Pin × Net
  unfolding validate_dns
  pin_for true host port net = validate_dns host port net
  pin_for false host port net = (pinned none, net)

  abbrev pub request_of : String → SplitResult → ℕ → Option IpAddress → FetchRequest
  request_of url parts read_timeout pin = record {
    url = url;
    parts = parts;
    connect_timeout = settings.audit_connect_timeout;
    read_timeout = min settings.audit_read_timeout read_timeout;
    max_bytes = settings.audit_max_bytes;
    pinned_ip = pin;
  }

  -- Politeness is owed to a real server only.
  abbrev pub claim_host : Bool → String → Net → Net
  claim_host true host net = log (host_claimed host) net
  claim_host false host net = net

  abbrev pub note : Bool → String → Net → Net
  note true url net = record net { requested = net.requested ++ (url ∷ []) }
  note false url net = net

  -- The slot, the claim on the host, the request, and the slot again, however it ended.
  unfoldable pub send : Backend → Bool → String → FetchRequest → Net → Reply × Net
  send backend recorded host request net =
      let noted =
        note recorded request.url (claim_host backend.resolves_dns host (log slot_taken net)) in
      (
        backend.get noted.trace request,
        log slot_released (log (sent backend.resolves_dns request) noted),
      )

  unfoldable pub send_pinned : Backend → Bool → String → SplitResult → ℕ → Pin × Net → Reply × Net
  unfolding send
  send_pinned backend recorded url parts read_timeout (not_pinned reply, net) = (reply, net)
  send_pinned backend recorded url parts read_timeout (pinned pin, net) =
      send backend recorded (name_of parts.hostname) (request_of url parts read_timeout pin) net

  unfoldable pub request_from : Option Backend → Bool → String → SplitResult → ℕ → Net → Reply × Net
  unfolding send_pinned pin_for
  request_from none recorded url parts read_timeout net = (stopped (unsafe_url no_backend), net)
  request_from (some backend) recorded url parts read_timeout net =
      send_pinned backend recorded url parts read_timeout
        (pin_for backend.resolves_dns (name_of parts.hostname) (port_of urls parts) net)

  unfoldable pub request_parts : Result SplitResult → Bool → String → ℕ → Net → Reply × Net
  unfolding request_from
  request_parts (raised e) recorded url read_timeout net = (stopped e, net)
  request_parts (value parts) recorded url read_timeout net =
      request_from (find_first (λ backend. backend.handles (name_of parts.hostname)) env.backends)
        recorded url parts read_timeout net

  -- `_request`
  unfoldable pub request : String → ℕ → Bool → Net → Reply × Net
  unfolding request_parts split_safe_url
  request url read_timeout recorded net =
      request_parts (split_safe_url urls url) recorded url read_timeout net
