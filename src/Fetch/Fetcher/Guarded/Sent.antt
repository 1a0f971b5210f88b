-- ===== src/Fetch/Fetcher/Guarded/Sent.antt =====
-- What every request of `SafeFetcher.fetch` has passed.
use lead_discovery_rader.Prelude.{
  ℕ, ◌≡◌, String, Option, none, some, Bool, true, false, find_first, inl, inr,
}
use lead_discovery_rader.Fetch.Address.{IpAddress}
use lead_discovery_rader.Fetch.Url.{SplitResult, UrlLibrary, value, split_safe_url, port_of}
use lead_discovery_rader.Fetch.Url.Safe.{
  IsSafeUrl, IsPublicLiteral, split_safe_url-IsSafeUrl, Result-cases,
}
use lead_discovery_rader.Fetch.Fetcher.Request.{
  pin_host, validate_dns, pin_for, claim_host, note, send, send_pinned, request_from, request_parts,
  request, request_of,
}
use lead_discovery_rader.Fetch.Fetcher.Follow.{fetch}
use lead_discovery_rader.Fetch.Fetcher.{
  FetchRequest, slot_taken, Backend, Settings, Env, Net, Pin, pinned, not_pinned, log, name_of,
}
use lead_discovery_rader.Fetch.Fetcher.Kept.{fetch-Kept}
use lead_discovery_rader.Fetch.Fetcher.Guarded.{
  IsPublicTarget, IsGuardedRequest, AllGuarded, IsPinned, pin_host-IsPinned, pin_host-AllGuarded,
}

module _ (urls : UrlLibrary) (settings : Settings) (env : Env) where
  claim_host-AllGuarded :
      (network : Bool) (host : String) (net : Net)
      → AllGuarded urls settings env net
      → AllGuarded urls settings env (claim_host urls settings env network host net)
  claim_host-AllGuarded true host net h = (tt, h)
  claim_host-AllGuarded false host net h = h

  note-AllGuarded :
      (recorded : Bool) (url : String) (net : Net)
      → AllGuarded urls settings env net
      → AllGuarded urls settings env (note urls settings env recorded url net)
  note-AllGuarded true url net h = h
  note-AllGuarded false url net h = h

  send-AllGuarded :
      (backend : Backend) (recorded : Bool) (host : String) (r : FetchRequest) (net : Net)
      → IsGuardedRequest urls backend.resolves_dns r
      → AllGuarded urls settings env net
      → AllGuarded urls settings env (send urls settings env backend recorded host r net).1
  unfolding send
  send-AllGuarded backend recorded host r net guarded h =
      let taken = log slot_taken net in
      let claimed = claim_host-AllGuarded backend.resolves_dns host taken (tt, h) in
      let noted =
        note-AllGuarded recorded r.url
          (claim_host urls settings env backend.resolves_dns host taken) claimed in
      (tt, (guarded, noted))

  pin_for-AllGuarded :
      (network : Bool) (host : String) (port : ℕ) (net : Net)
      → AllGuarded urls settings env net
      → AllGuarded urls settings env (pin_for urls settings env network host port net).1
  unfolding pin_for validate_dns
  pin_for-AllGuarded true host port net h =
      pin_host-AllGuarded urls settings env (urls.parse_ip host) host port net h
  pin_for-AllGuarded false host port net h = h

  -- What the pin of a request is good for, or nothing where there is none.
  abbrev IsTarget : Bool → Option IpAddress → Pin → Type 0
  IsTarget network literal (pinned pin) = IsPublicTarget network literal pin
  IsTarget network literal (not_pinned reply) = Unit {0}

  pinned-IsTarget :
      (literal : Option IpAddress) (pin : Pin)
      → IsPinned urls settings env literal pin
      → IsTarget true literal pin
  pinned-IsTarget literal (pinned pin) h = h
  pinned-IsTarget literal (not_pinned reply) h = tt

  pin_for-IsTarget :
      (network : Bool) (host : String) (port : ℕ) (net : Net)
      → IsPublicLiteral (urls.parse_ip host)
      → IsTarget network (urls.parse_ip host) (pin_for urls settings env network host port net).0
  unfolding pin_for validate_dns
  pin_for-IsTarget true host port net h =
      pinned-IsTarget (urls.parse_ip host)
        (pin_host urls settings env (urls.parse_ip host) host port net).0
        (pin_host-IsPinned urls settings env (urls.parse_ip host) host port net h)
  pin_for-IsTarget false host port net h = tt

  send_pinned-AllGuarded :
      (backend : Backend) (recorded : Bool) (url : String) (parts : SplitResult) (read_timeout : ℕ)
      (pin : Pin) (net : Net)
      → split_safe_url urls url ≡ value parts
      → IsTarget backend.resolves_dns (urls.parse_ip (name_of parts.hostname)) pin
      → AllGuarded urls settings env net
      → AllGuarded urls settings env
          (send_pinned urls settings env backend recorded url parts read_timeout (pin, net)).1
  unfolding send_pinned
  send_pinned-AllGuarded backend recorded url parts read_timeout (not_pinned reply) net e target h =
      h
  send_pinned-AllGuarded backend recorded url parts read_timeout (pinned pin) net e target h =
      send-AllGuarded backend recorded (name_of parts.hostname)
        (request_of urls settings env url parts read_timeout pin) net
        (record { of_url = e; safe = split_safe_url-IsSafeUrl urls url parts e; target = target }) h

  IsSafeUrl-literal :
      (parts : SplitResult)
      → IsSafeUrl urls parts
      → IsPublicLiteral (urls.parse_ip (name_of parts.hostname))
  IsSafeUrl-literal parts safe = rw (safe.hostname) safe.literal

  request_from-AllGuarded :
      (found : Option Backend) (recorded : Bool) (url : String) (parts : SplitResult)
      (read_timeout : ℕ) (net : Net)
      → split_safe_url urls url ≡ value parts
      → AllGuarded urls settings env net
      → AllGuarded urls settings env
          (request_from urls settings env found recorded url parts read_timeout net).1
  unfolding request_from
  request_from-AllGuarded none recorded url parts read_timeout net e h = h
  request_from-AllGuarded (some backend) recorded url parts read_timeout net e h =
      let host = name_of parts.hostname in
      let tried = pin_for urls settings env backend.resolves_dns host (port_of urls parts) net in
      send_pinned-AllGuarded backend recorded url parts read_timeout tried.0 tried.1 e
        (pin_for-IsTarget backend.resolves_dns host (port_of urls parts) net
          (IsSafeUrl-literal parts (split_safe_url-IsSafeUrl urls url parts e)))
        (pin_for-AllGuarded backend.resolves_dns host (port_of urls parts) net h)

  request-AllGuarded :
      (url : String) (read_timeout : ℕ) (recorded : Bool) (net : Net)
      → AllGuarded urls settings env net
      → AllGuarded urls settings env (request urls settings env url read_timeout recorded net).1
  unfolding request request_parts
  request-AllGuarded url read_timeout recorded net h =
      elim (Result-cases (split_safe_url urls url)) [
        | inl (e, q) ↦ rw q h
        | inr (parts, q) ↦ rw q (
            request_from-AllGuarded
              (find_first (λ backend. backend.handles (name_of parts.hostname)) env.backends)
              recorded url parts read_timeout net q h)
      ]

-- Whatever the name server, the servers and the clock answer, and if it was so before, a fetch, its
-- redirects included, sends only requests whose URL passes the guard: split into the parts that the
-- request carries, it has an allowed scheme and port, no credentials and no IP literal that is
-- blocked. A request over the network is pinned to an address that is not blocked, or names such
-- an address itself.
pub fetch-AllGuarded :
    (urls : UrlLibrary) (settings : Settings) (env : Env) (url : String) (recorded : Bool)
    (net : Net)
    → AllGuarded urls settings env net
    → AllGuarded urls settings env (fetch urls settings env url recorded net).1
fetch-AllGuarded urls settings env url recorded net h =
    fetch-Kept urls settings env (λ left later. AllGuarded urls settings env later)
      (λ left target read_timeout noted later.
        request-AllGuarded urls settings env target read_timeout noted later)
      (λ left later kept. kept) (λ left readings later kept. kept) url recorded net h
