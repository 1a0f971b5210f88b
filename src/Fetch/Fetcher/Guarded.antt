-- ===== src/Fetch/Fetcher/Guarded.antt =====
-- What a request of `SafeFetcher` is pinned to.
pub mod Sent
use mathlib.Core.Path.{subst}
use lead_discovery_rader.Prelude.{
  ℕ, zero, suc, ◌+◌, ◌-◌, ◌≡◌, ◌≢◌, refl, String, Option, none, some, List, [], ◌∷◌, ◌++◌, Bool,
  true, false, leb, ◌==◌, arith, All, find_first, if◌then◌else◌, Bool-cases, Option-cases, ◌⊎◌, inl,
  inr, ◌∙◌, ap, sym,
}
use lead_discovery_rader.Fetch.Address.{IpAddress, blocked_reason}
use lead_discovery_rader.Fetch.Url.{
  SplitResult, UrlLibrary, Exc, Result, raised, value, and_then, normalize_url, split_safe_url,
  port_of,
}
use lead_discovery_rader.Fetch.Url.Safe.{
  IsSafeUrl, IsPublicLiteral, split_safe_url-IsSafeUrl, Result-cases,
}
use lead_discovery_rader.Fetch.Fetcher.Request.{
  check_answer, check_answers, choose, pin_of, pin_answers, pin_host, validate_dns, pin_for,
  claim_host, note, send, send_pinned, request_from, request_parts, request, request_of,
}
use lead_discovery_rader.Fetch.Fetcher.Follow.{fetch}
use lead_discovery_rader.Fetch.Fetcher.{
  FetchRequest, Event, sent, slot_taken, slot_released, host_claimed, resolved, Backend, Settings,
  Env, Net, Pin, pinned, not_pinned, log, name_of, preferred, is_v4,
}

abbrev IsPublic : IpAddress → Type 0
IsPublic a = blocked_reason a ≡ none

-- Where a request goes: nowhere on the network, to a public literal, or to the public address that
-- it is pinned to.
abbrev pub IsPublicTarget : Bool → Option IpAddress → Option IpAddress → Type 0
IsPublicTarget false literal pin = Unit {0}
IsPublicTarget true (some a) pin = (blocked_reason a ≡ none) × (pin ≡ none)
IsPublicTarget true none (some a) = blocked_reason a ≡ none
IsPublicTarget true none none = ⊥

-- A request whose URL passes the guard, as the parts that it carries.
pub record IsGuardedRequest (urls : UrlLibrary) (network : Bool) (r : FetchRequest) : Type 0 where
  pub of_url : split_safe_url urls r.url ≡ value r.parts
  pub safe : IsSafeUrl urls r.parts
  pub target : IsPublicTarget network (urls.parse_ip (name_of r.parts.hostname)) r.pinned_ip

abbrev pub IsGuarded : UrlLibrary → Event → Type 0
IsGuarded urls (sent network r) = IsGuardedRequest urls network r
IsGuarded urls slot_taken = Unit {0}
IsGuarded urls slot_released = Unit {0}
IsGuarded urls (host_claimed host) = Unit {0}
IsGuarded urls (resolved host port) = Unit {0}

find_first-All {ℓ κ} :
    {A : Type ℓ} (P : A → Type κ) (p : A → Bool) (xs : List A) {a : A}
    → All P xs
    → find_first p xs ≡ some a
    → P a
unfolding find_first
find_first-All P p [] h e = absurd (ground arith)
find_first-All P p (x ∷ xs) {a} (px, h) e = elim (Bool-cases (p x)) [
  | inl q ↦ let same : x ≡ a = ground arith in subst P same px
  | inr q ↦ find_first-All P p xs h (ground arith)
]

preferred-IsPublic :
    (first : IpAddress) (rest : List IpAddress)
    → All IsPublic (first ∷ rest)
    → IsPublic (preferred first rest)
preferred-IsPublic first rest h = elim (Option-cases (find_first is_v4 (first ∷ rest))) [
  | inl e ↦ rw (e, preferred) h.0
  | inr (a, e) ↦ rw (e, preferred) (find_first-All IsPublic is_v4 (first ∷ rest) h e)
]

module _ (urls : UrlLibrary) (settings : Settings) (env : Env) where
  check_answer-IsPublic :
      (found : Option IpAddress) (a : IpAddress)
      → check_answer urls settings env found ≡ value a
      → IsPublic a
  unfolding check_answer
  check_answer-IsPublic none a h = absurd (ground arith)
  check_answer-IsPublic (some x) a h = elim (Option-cases (blocked_reason x)) [
    | inl e ↦ let same : x ≡ a = ground arith in rw (← same) e
    | inr (reason, e) ↦ absurd (ground arith)
  ]

  check_answers-IsPublic :
      (answers : List String) (addresses : List IpAddress)
      → check_answers urls settings env answers ≡ value addresses
      → All IsPublic addresses
  unfolding check_answers
  check_answers-IsPublic [] addresses h = let same : [] ≡ addresses = ground arith in rw (← same) tt
  check_answers-IsPublic (text ∷ rest) addresses h =
      elim (Result-cases (check_answer urls settings env (urls.parse_ip text))) [
        | inl (e, q) ↦ absurd (ground arith)
        | inr (a, q) ↦ elim (Result-cases (check_answers urls settings env rest)) [
          | inl (e, q') ↦ absurd (ground arith)
          | inr (others, q') ↦
              let same : a ∷ others ≡ addresses = ground arith in
              rw (← same) (
                check_answer-IsPublic (urls.parse_ip text) a q,
                check_answers-IsPublic rest others q',
              )
        ]
      ]

  choose-IsPublic :
      (addresses : List IpAddress)
      → All IsPublic addresses
      → addresses ≢ []
      → IsPublicTarget true none (choose urls settings env addresses)
  unfolding choose
  choose-IsPublic [] h full = absurd (full refl)
  choose-IsPublic (first ∷ rest) h full = preferred-IsPublic first rest h

  -- The target of a request that is pinned.
  abbrev pub IsPinned : Option IpAddress → Pin → Type 0
  IsPinned literal (pinned pin) = IsPublicTarget true literal pin
  IsPinned literal (not_pinned reply) = Unit {0}

  check_answers-nonempty :
      (text : String) (rest : List String) (addresses : List IpAddress)
      → check_answers urls settings env (text ∷ rest) ≡ value addresses
      → addresses ≢ []
  unfolding check_answers
  check_answers-nonempty text rest addresses h same = ground arith

  pin_answers-IsPinned :
      (found : Option (List String)) → IsPinned none (pin_answers urls settings env found)
  unfolding pin_answers pin_of
  pin_answers-IsPinned none = tt
  pin_answers-IsPinned (some []) = tt
  pin_answers-IsPinned (some (text ∷ rest)) =
      elim (Result-cases (check_answers urls settings env (text ∷ rest))) [
        | inl (e, q) ↦ rw q tt
        | inr (addresses, q) ↦ rw q (
            choose-IsPublic addresses (check_answers-IsPublic (text ∷ rest) addresses q)
              (check_answers-nonempty text rest addresses q))
      ]

  -- Nothing but requests that are guarded.
  abbrev pub AllGuarded : Net → Type 0
  AllGuarded net = All (IsGuarded urls) net.trace

  pub pin_host-IsPinned :
      (literal : Option IpAddress) (host : String) (port : ℕ) (net : Net)
      → IsPublicLiteral literal
      → IsPinned literal (pin_host urls settings env literal host port net).0
  unfolding pin_host
  pin_host-IsPinned none host port net lit = pin_answers-IsPinned (env.resolver net.trace host port)
  pin_host-IsPinned (some x) host port net lit = (lit, refl)

  pub pin_host-AllGuarded :
      (literal : Option IpAddress) (host : String) (port : ℕ) (net : Net)
      → AllGuarded net
      → AllGuarded (pin_host urls settings env literal host port net).1
  unfolding pin_host
  pin_host-AllGuarded none host port net h = (tt, h)
  pin_host-AllGuarded (some x) host port net h = h
