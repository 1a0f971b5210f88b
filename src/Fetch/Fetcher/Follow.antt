-- ===== src/Fetch/Fetcher/Follow.antt =====
-- `SafeFetcher.fetch`: a page, and the redirects that lead to it.
use lead_discovery_rader.Prelude.{
  ℕ, zero, suc, ◌+◌, ◌-◌, String, Option, none, some, List, [], ◌∷◌, ◌++◌, Bool, true, false, not,
  ◌&&◌, leb, ◌==ₛ◌, any, if◌then◌else◌,
}
use lead_discovery_rader.Fetch.Url.{
  UrlLibrary, value_error, other_error, Result, raised, value, and_then, normalize_url,
  split_safe_url,
}
use lead_discovery_rader.Fetch.Fetcher.{
  BackendResponse, ErrorKind, timeout, tls, Reply, answered, failed, stopped, Settings, Env, Net,
  FetchOutcome, name_of, is_redirect,
}
use lead_discovery_rader.Fetch.Fetcher.Request.{header, request}

module _ (urls : UrlLibrary) (settings : Settings) (env : Env) where
  abbrev failure : String → String → List String → Bool → String → Option ErrorKind → FetchOutcome
  failure start current chain tls_valid detail kind = record {
    url = start;
    final_url = current;
    status_code = none;
    redirect_chain = chain;
    content_type = none;
    body = [];
    text = none;
    truncated = false;
    tls_valid = tls_valid;
    error = some detail;
    error_kind = kind;
  }

  abbrev is_tls : ErrorKind → Bool
  is_tls tls = true
  is_tls _ = false

  -- `_is_parseable`
  abbrev is_parseable : Option String → Bool
  is_parseable none = false
  is_parseable (some text) =
      not (text ==ₛ "")
      && any (λ other. urls.media_type text ==ₛ other) ("text/html" ∷ "application/xhtml+xml" ∷ [])

  unfoldable pub decoded : Bool → Option String → List ℕ → Result (Option String)
  decoded false content_type body = value none
  decoded true content_type body =
      elim (urls.decode (urls.charset_of (name_of content_type)) body) [
        | none ↦ raised (other_error "LookupError")
        | some text ↦ value (some text)
      ]

  -- `_outcome`
  unfoldable pub outcome : String → String → List String → BackendResponse → Result FetchOutcome
  unfolding header decoded
  outcome start current chain response =
      let content_type = header urls settings env "content-type" response.headers in
      and_then (decoded (is_parseable content_type) content_type response.body) (λ text.
        value (record {
          url = start;
          final_url = current;
          status_code = some response.status_code;
          redirect_chain = chain;
          content_type = content_type;
          body = response.body;
          text = text;
          truncated = response.truncated;
          tls_valid = true;
          error = none;
          error_kind = none;
        }))

  unfoldable pub location_of : BackendResponse → Option String
  unfolding header
  location_of response =
      if is_redirect response.status_code
      then header urls settings env "location" response.headers
      else none

  unfoldable pub check_hop : Option String → Result String
  unfolding split_safe_url
  check_hop none = raised value_error
  check_hop (some target) = and_then (split_safe_url urls target) (λ parts. value target)

  -- `_absolute`, and the check of the hop that it leads to.
  unfoldable pub next_hop : String → String → Result String
  unfolding check_hop
  next_hop current location = check_hop (urls.urljoin current (urls.strip location))

  unfoldable pub after_hop :
      (String → Net → Result FetchOutcome × Net) → Result String → Net → Result FetchOutcome × Net
  after_hop next (raised e) net = (raised e, net)
  after_hop next (value target) net = next target net

  -- A redirect is followed while hops are left.
  unfoldable pub follow :
      (String → Net → Result FetchOutcome × Net)
      → ℕ
      → String
      → String
      → List String
      → BackendResponse
      → Option String
      → Net
      → Result FetchOutcome × Net
  unfolding outcome next_hop after_hop
  follow next left start current chain response none net =
      (outcome start current chain response, net)
  follow next zero start current chain response (some location) net =
      (outcome start current chain response, net)
  follow next (suc left) start current chain response (some location) net =
      after_hop next (next_hop current location) net

  unfoldable pub after_reply :
      (String → Net → Result FetchOutcome × Net)
      → ℕ
      → String
      → String
      → List String
      → Reply × Net
      → Result FetchOutcome × Net
  unfolding location_of follow
  after_reply next left start current chain (stopped e, net) = (raised e, net)
  after_reply next left start current chain (failed kind detail, net) =
      (value (failure start current chain (not (is_tls kind)) detail (some kind)), net)
  after_reply next left start current chain (answered response, net) =
      follow next left start current chain response (location_of response) net

  -- One hop, where `late` says that the time for the whole fetch has run out.
  unfoldable pub hop :
      (String → Net → Result FetchOutcome × Net)
      → Bool
      → ℕ
      → Bool
      → String
      → String
      → List String
      → ℕ
      → Net
      → Result FetchOutcome × Net
  unfolding after_reply request
  hop next true left recorded start current chain remaining net = (
    value (
        failure start current chain true "the total time budget for this fetch ran out"
          (some timeout)),
    net,
  )
  hop next false left recorded start current chain remaining net =
      after_reply next left start current chain
        (request urls settings env current remaining recorded net)

  -- The hops that are left, the current one included.
  unfoldable pub fetch_from :
      ℕ → Bool → String → String → List String → ℕ → Net → Result FetchOutcome × Net
  unfolding hop
  fetch_from zero recorded start current chain deadline net =
      (value (failure start current chain true "too many redirects" none), net)
  fetch_from (suc left) recorded start current chain deadline net =
      let now = env.clock net.readings in
      hop
        (λ target later.
          fetch_from left recorded start target (chain ++ (current ∷ [])) deadline later)
        (leb deadline now) left recorded start current chain (deadline - now)
        (record net { readings = net.readings + 1 })

  unfoldable pub fetch_url : Result String → Bool → Net → Result FetchOutcome × Net
  unfolding fetch_from
  fetch_url (raised e) recorded net = (raised e, net)
  fetch_url (value start) recorded net =
      fetch_from (suc settings.audit_max_redirects) recorded start start []
        (env.clock net.readings + settings.audit_total_timeout)
        (record net { readings = net.readings + 1 })

  unfoldable pub fetch : String → Bool → Net → Result FetchOutcome × Net
  unfolding fetch_url normalize_url
  fetch url recorded net = fetch_url (normalize_url urls url) recorded net
