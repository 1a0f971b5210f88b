-- ===== src/Auth/Failures.antt =====
-- The failure counters of backend/app/modules/auth/service.py, by client address, for one email:
-- the keys are `login:failures:<address>:<email>` and `login:failure-addresses:<email>`.
use lead_discovery_rader.Prelude.{
  ℕ, ◌+◌, ◌-◌, ◌*◌, String, Option, none, some, List, [], ◌∷◌, ltb, ◌==ₛ◌, if◌then◌else◌, any, not,
  keep,
}
use lead_discovery_rader.Auth.Model.{Counter, Members, Session, Settings, Auth, ok}

-- What Redis still holds at a given second.
abbrev pub live : ℕ → Option Counter → Option Counter
live now none = none
live now (some c) = if ltb now c.expires then some c else none

abbrev pub live_members : ℕ → Option Members → Option Members
live_members now none = none
live_members now (some m) = if ltb now m.expires then some m else none

-- `client_ip or UNKNOWN_CLIENT`
abbrev pub client_of : String → String
client_of client_ip = if client_ip ==ₛ "" then "unknown" else client_ip

abbrev pub count_of : Option Counter → ℕ
count_of none = 0
count_of (some c) = c.count

unfoldable pub failures_in_window : String → Session → ℕ
failures_in_window client_ip s = count_of (live s.clock (s.redis.failures (client_of client_ip)))

abbrev pub set_failures :
    String → Option Counter → (String → Option Counter) → String → Option Counter
set_failures address c failures other = if other ==ₛ address then c else failures other

-- `incr`, which keeps the time to live, and `expire` where the counter is new.
abbrev pub incremented : ℕ → ℕ → Option Counter → Counter
incremented now window none = record { count = 1; expires = now + window }
incremented now window (some c) = record c { count = c.count + 1 }

abbrev pub members_of : Option Members → List String
members_of none = []
members_of (some m) = m.addresses

-- `sadd`, on a set that is kept as a list.
abbrev pub with_address : String → List String → List String
with_address address xs = if any (λ x. address ==ₛ x) xs then xs else address ∷ xs

abbrev pub window_of : Settings → ℕ
window_of settings = settings.login_window_minutes * 60

unfoldable pub count_failure : Settings → String → Auth (Unit {0})
count_failure settings client_ip s =
    let address = client_of client_ip in
    let c = incremented s.clock (window_of settings) (live s.clock (s.redis.failures address)) in
    let members = with_address address (members_of (live_members s.clock s.redis.index)) in
    (
      ok tt,
      record s {
        redis = record {
          failures = set_failures address (some c) s.redis.failures;
          index = some (record { addresses = members; expires = s.clock + window_of settings });
        };
      },
    )

-- `srem`; Redis drops a set that has no member left.
abbrev pub removed : String → Option Members → Option Members
removed address none = none
removed address (some m) =
    some (record m { addresses = keep (λ x. not (x ==ₛ address)) m.addresses })

unfoldable pub clear_failures : String → Auth (Unit {0})
clear_failures client_ip s =
    let address = client_of client_ip in
    (
      ok tt,
      record s {
        redis = record {
          failures = set_failures address none s.redis.failures;
          index = removed address (live_members s.clock s.redis.index);
        };
      },
    )

unfoldable pub failure_addresses : Session → List String
failure_addresses s = members_of (live_members s.clock s.redis.index)

abbrev later : Option ℕ → ℕ → Option ℕ
later none candidate = some candidate
later (some until) candidate = if ltb until candidate then some candidate else some until

-- One address of the loop in `rate_limited_until`: a counter below the limit, or one that has no
-- time to live, is passed over.
abbrev counted : Settings → ℕ → Option ℕ → Option Counter → Option ℕ
counted settings now until none = until
counted settings now until (some c) =
    if ltb c.count settings.login_max_failures then until else later until (now + (c.expires - now))

windows : Settings → Session → Option ℕ → List String → Option ℕ
windows settings s until [] = until
windows settings s until (address ∷ rest) =
    windows settings s (counted settings s.clock until (live s.clock (s.redis.failures address)))
      rest

unfoldable pub rate_limited_until : Settings → Session → Option ℕ
unfolding windows failure_addresses
rate_limited_until settings s = windows settings s none (failure_addresses s)

unfoldable pub without : List String → (String → Option Counter) → String → Option Counter
without [] failures = failures
without (address ∷ rest) failures = without rest (set_failures address none failures)

unfoldable pub clear_rate_limits : Auth (List String)
unfolding without failure_addresses
clear_rate_limits s =
    let addresses = failure_addresses s in
    (
      ok addresses,
      record s { redis = record { failures = without addresses s.redis.failures; index = none } },
    )
