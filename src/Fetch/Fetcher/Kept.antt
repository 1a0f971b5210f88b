-- ===== src/Fetch/Fetcher/Kept.antt =====
-- What every request keeps, a whole fetch keeps.
use lead_discovery_rader.Prelude.{
  ℕ, zero, suc, ◌+◌, ◌-◌, String, Option, none, some, List, [], ◌∷◌, ◌++◌, Bool, true, false, leb,
  inl, inr,
}
use lead_discovery_rader.Fetch.Url.{UrlLibrary, Result, raised, value, normalize_url}
use lead_discovery_rader.Fetch.Url.Safe.{Result-cases}
use lead_discovery_rader.Fetch.Fetcher.{
  BackendResponse, Settings, Env, Net, Reply, answered, failed, stopped, FetchOutcome,
}
use lead_discovery_rader.Fetch.Fetcher.Request.{request}
use lead_discovery_rader.Fetch.Fetcher.Follow.{
  location_of, next_hop, follow, after_hop, after_reply, hop, fetch_from, fetch_url, fetch,
}

-- A predicate that knows how many requests may still be made.
module _ (urls : UrlLibrary) (settings : Settings) (env : Env) (Kept : ℕ → Net → Type 0)
    (request-Kept : (left : ℕ) (url : String) (read_timeout : ℕ) (recorded : Bool) (net : Net)
      → Kept (suc left) net
      → Kept left (request urls settings env url read_timeout recorded net).1)
    (fewer : (left : ℕ) (net : Net) → Kept (suc left) net → Kept left net)
    (reading : (left readings : ℕ) (net : Net)
      → Kept left net
      → Kept left (record net { readings = readings })) where
  none_left : (left : ℕ) (net : Net) → Kept left net → Kept 0 net
  none_left zero net h = h
  none_left (suc left) net h = none_left left net (fewer left net h)

  abbrev Continues : ℕ → (String → Net → Result FetchOutcome × Net) → Type 0
  Continues left next = (target : String) (net : Net) → Kept left net → Kept 0 (next target net).1

  follow-Kept :
      (next : String → Net → Result FetchOutcome × Net) (left : ℕ) (start current : String)
      (chain : List String) (response : BackendResponse) (location : Option String) (net : Net)
      → Continues left next
      → Kept left net
      → Kept 0 (follow urls settings env next left start current chain response location net).1
  unfolding follow after_hop
  follow-Kept next left start current chain response none net keeps h = none_left left net h
  follow-Kept next zero start current chain response (some location) net keeps h = h
  follow-Kept next (suc left) start current chain response (some location) net keeps h =
      elim (Result-cases (next_hop urls settings env current location)) [
        | inl (e, q) ↦ rw q (none_left (suc left) net h)
        | inr (target, q) ↦ rw q (keeps target net h)
      ]

  after_reply-Kept :
      (next : String → Net → Result FetchOutcome × Net) (left : ℕ) (start current : String)
      (chain : List String) (reply : Reply) (net : Net)
      → Continues left next
      → Kept left net
      → Kept 0 (after_reply urls settings env next left start current chain (reply, net)).1
  unfolding after_reply
  after_reply-Kept next left start current chain (stopped e) net keeps h = none_left left net h
  after_reply-Kept next left start current chain (failed kind detail) net keeps h =
      none_left left net h
  after_reply-Kept next left start current chain (answered response) net keeps h =
      follow-Kept next left start current chain response (location_of urls settings env response)
        net keeps h

  hop-Kept :
      (next : String → Net → Result FetchOutcome × Net) (late : Bool) (left : ℕ) (recorded : Bool)
      (start current : String) (chain : List String) (remaining : ℕ) (net : Net)
      → Continues left next
      → Kept (suc left) net
      → Kept 0 (hop urls settings env next late left recorded start current chain remaining net).1
  unfolding hop
  hop-Kept next true left recorded start current chain remaining net keeps h =
      none_left (suc left) net h
  hop-Kept next false left recorded start current chain remaining net keeps h =
      let asked = request urls settings env current remaining recorded net in
      after_reply-Kept next left start current chain asked.0 asked.1 keeps
        (request-Kept left current remaining recorded net h)

  fetch_from-Kept :
      (left : ℕ) (recorded : Bool) (start current : String) (chain : List String) (deadline : ℕ)
      (net : Net)
      → Kept left net
      → Kept 0 (fetch_from urls settings env left recorded start current chain deadline net).1
  unfolding fetch_from
  fetch_from-Kept zero recorded start current chain deadline net h = h
  fetch_from-Kept (suc left) recorded start current chain deadline net h =
      hop-Kept
        (λ target later.
          fetch_from urls settings env left recorded start target (chain ++ (current ∷ [])) deadline
            later)
        (leb deadline (env.clock net.readings)) left recorded start current chain
        (deadline - env.clock net.readings) (record net { readings = net.readings + 1 })
        (λ target later kept.
          fetch_from-Kept left recorded start target (chain ++ (current ∷ [])) deadline later kept)
        (reading (suc left) (net.readings + 1) net h)

  fetch_url-Kept :
      (normal : Result String) (recorded : Bool) (net : Net)
      → Kept (suc settings.audit_max_redirects) net
      → Kept 0 (fetch_url urls settings env normal recorded net).1
  unfolding fetch_url
  fetch_url-Kept (raised e) recorded net h = none_left (suc settings.audit_max_redirects) net h
  fetch_url-Kept (value start) recorded net h =
      fetch_from-Kept (suc settings.audit_max_redirects) recorded start start []
        (env.clock net.readings + settings.audit_total_timeout)
        (record net { readings = net.readings + 1 })
        (reading (suc settings.audit_max_redirects) (net.readings + 1) net h)

  pub fetch-Kept :
      (url : String) (recorded : Bool) (net : Net)
      → Kept (suc settings.audit_max_redirects) net
      → Kept 0 (fetch urls settings env url recorded net).1
  unfolding fetch
  fetch-Kept url recorded net h = fetch_url-Kept (normalize_url urls url) recorded net h
