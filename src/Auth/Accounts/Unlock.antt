-- ===== src/Auth/Accounts/Unlock.antt =====
-- That the set of failed addresses covers every counter, and so that an unlocked account can be
-- signed in to from everywhere.
use text.Mathlib.TextEquality.{eq_iff}
use lead_discovery_rader.Prelude.{
  ℕ, ◌+◌, ◌<◌, ◌≤◌, ◌≡◌, ◌⊎◌, inl, inr, refl, String, Option, none, some, List, [], ◌∷◌, true,
  false, ltb, any, arith, ◌==ₛ◌, Bool-cases, Option-cases, same_refl, ap, not, keep,
}
use lead_discovery_rader.Auth.Model.{User, Session, Counter, Members, Settings, get_user}
use lead_discovery_rader.Auth.Failures.{
  client_of, live, set_failures, with_address, window_of, incremented, count_of, failures_in_window,
  failure_addresses, count_failure, clear_failures, without, clear_rate_limits,
}
use lead_discovery_rader.Auth.Accounts.{unlock_user}

abbrev pub index_expires : Option Members → ℕ
index_expires none = 0
index_expires (some m) = m.expires

-- Every live counter belongs to an address of the live set, which outlives it, and no counter
-- outlives a window that starts now.
abbrev pub IsIndexed : Settings → Session → Type 0
IsIndexed settings s =
    (address : String) (c : Counter)
    → s.redis.failures address ≡ some c
    → s.clock < c.expires
    → (any (λ x. address ==ₛ x) (failure_addresses s) ≡ true)
      × (c.expires ≤ s.clock + window_of settings)
      × (c.expires ≤ index_expires s.redis.index)

-- Clearing a list of addresses clears each of them, and no other.
without-member :
    (addresses : List String) (failures : String → Option Counter) (address : String)
    → (without addresses failures address ≡ none)
      ⊎ (any (λ x. address ==ₛ x) addresses ≡ false)
        × (without addresses failures address ≡ failures address)
unfolding without
without-member [] failures address = inr (refl, refl)
without-member (x ∷ rest) failures address =
    elim (without-member rest (set_failures x none failures) address) [
      | inl e ↦ inl e
      | inr (absent, e) ↦ elim (Bool-cases (address ==ₛ x)) [
        | inl f ↦ inl (ground (arith))
        | inr f ↦ inr (ground (arith), ground (arith))
      ]
    ]

ltb-lt : (a b : ℕ) → ltb a b ≡ true → a < b
ltb-lt a b h = ground arith

module _ (settings : Settings) (s : Session) (indexed : IsIndexed settings s) where
  cleared :
      (address : String)
      → count_of (live s.clock (without (failure_addresses s) s.redis.failures address)) ≡ 0
  cleared address = elim (without-member (failure_addresses s) s.redis.failures address) [
    | inl e ↦ rw e refl
    | inr (absent, e) ↦ elim (Option-cases (s.redis.failures address)) [
      | inl gone ↦ rw (e, gone) refl
      | inr (c, there) ↦ elim (Bool-cases (ltb s.clock c.expires)) [
        | inr dead ↦ rw (e, there, dead) refl
        | inl alive ↦
            let member = (indexed address c there (ltb-lt _ _ alive)).0 in cc (member, absent)
      ]
    ]
  ]

  -- Where the set of addresses covers the live counters, unlocking an account lifts its lock and
  -- forgets its failures, on the account and from every address.
  pub unlock_user-clears :
      (actor_id : ℕ) (user : User)
      → s.view.account ≡ some user
      → let after = (unlock_user settings actor_id s).1 in
        (after.view.account ≡ some (record user { locked_until = none; failed_login_count = 0 }))
        × ((client_ip : String) → failures_in_window client_ip after ≡ 0)
  unfolding unlock_user get_user clear_rate_limits failures_in_window
  unlock_user-clears actor_id user found =
      rw found (refl, λ client_ip. cleared (client_of client_ip))

-- Adding an address to the set, and what was there.
with_address-added :
    (address : String) (xs : List String)
    → any (λ x. address ==ₛ x) (with_address address xs) ≡ true
with_address-added address xs = elim (Bool-cases (any (λ x. address ==ₛ x) xs)) [
  | inl e ↦ rw e e
  | inr e ↦ rw e (ground (arith, same_refl address))
]

with_address-kept :
    (address other : String) (xs : List String)
    → any (λ x. other ==ₛ x) xs ≡ true
    → any (λ x. other ==ₛ x) (with_address address xs) ≡ true
with_address-kept address other xs h = elim (Bool-cases (any (λ x. address ==ₛ x) xs)) [
  | inl e ↦ rw e h
  | inr e ↦ rw e (ground arith)
]

abbrev expires_of : Option Counter → ℕ
expires_of none = 0
expires_of (some c) = c.expires

module _ (settings : Settings) (client_ip : String) (s : Session) (opens : 0 < window_of settings)
    (indexed : IsIndexed settings s) where
  -- A failure starts the set's time to live again.
  addresses_after :
      failure_addresses (count_failure settings client_ip s).1
      ≡ with_address (client_of client_ip) (failure_addresses s)
  unfolding count_failure failure_addresses
  addresses_after = ground arith

  incremented-bound :
      (address : String)
      → (incremented s.clock (window_of settings) (live s.clock (s.redis.failures address))).expires
        ≤ s.clock + window_of settings
  incremented-bound address = elim (Option-cases (s.redis.failures address)) [
    | inl gone ↦ rw gone (omega arith)
    | inr (c, there) ↦ elim (Bool-cases (ltb s.clock c.expires)) [
      | inr dead ↦ rw (there, dead) (omega arith)
      | inl alive ↦ rw (there, alive) ((indexed address c there (ltb-lt _ _ alive)).1)
    ]
  ]

  -- A failed sign-in keeps the set of addresses a cover of the counters.
  pub count_failure-IsIndexed : IsIndexed settings (count_failure settings client_ip s).1
  unfolding count_failure
  count_failure-IsIndexed address c found alive =
      elim (Bool-cases (address ==ₛ client_of client_ip)) [
        | inl e ↦
            let same : address ≡ client_of client_ip = (eq_iff address (client_of client_ip)).0 e in
            let stored = rw e at found in
            (
              rw (addresses_after, same)
                  (with_address-added (client_of client_ip) (failure_addresses s)),
              omega (arith, ap expires_of stored, incremented-bound (client_of client_ip)),
              omega (arith, ap expires_of stored, incremented-bound (client_of client_ip)),
            )
        | inr e ↦
            let (member, bound, long) = indexed address c (rw e at found) alive in
            (
              rw addresses_after
                  (with_address-kept (client_of client_ip) address (failure_addresses s) member),
              bound,
              bound,
            )
      ]

any-keep :
    (address other : String) (xs : List String)
    → (other ==ₛ address) ≡ false
    → any (λ x. other ==ₛ x) xs ≡ true
    → any (λ x. other ==ₛ x) (keep (λ x. not (x ==ₛ address)) xs) ≡ true
any-keep address other [] apart h = h
any-keep address other (x ∷ xs) apart h = elim (Bool-cases (x ==ₛ address)) [
  | inl e ↦
      let same = (eq_iff x address).0 e in
      let there : any (λ x. other ==ₛ x) xs ≡ true = rw (same, apart) at h in
      rw e (any-keep address other xs apart there)
  | inr e ↦ rw e (elim (Bool-cases (other ==ₛ x)) [
    | inl f ↦ rw f refl
    | inr f ↦ rw f (any-keep address other xs apart (rw f at h))
  ])
]

module _ (settings : Settings) (client_ip : String) (s : Session)
    (indexed : IsIndexed settings s) where
  addresses_left :
      (other : String)
      → (other ==ₛ client_of client_ip) ≡ false
      → any (λ x. other ==ₛ x) (failure_addresses s) ≡ true
      → any (λ x. other ==ₛ x) (failure_addresses (clear_failures client_ip s).1) ≡ true
  unfolding clear_failures failure_addresses
  addresses_left other apart h = elim (Option-cases s.redis.index) [
    | inl gone ↦ cc (rw gone at h)
    | inr (m, there) ↦ elim (Bool-cases (ltb s.clock m.expires)) [
      | inr dead ↦ cc (rw (there, dead) at h)
      | inl alive ↦
          rw (there, alive, alive)
            (any-keep (client_of client_ip) other m.addresses apart (rw (there, alive) at h))
    ]
  ]

  index_left :
      (c : Counter)
      → s.clock < c.expires
      → c.expires ≤ index_expires s.redis.index
      → c.expires ≤ index_expires (clear_failures client_ip s).1.redis.index
  unfolding clear_failures
  index_left c alive long = elim (Option-cases s.redis.index) [
    | inl gone ↦ rw gone (rw gone at long)
    | inr (m, there) ↦ elim (Bool-cases (ltb s.clock m.expires)) [
      | inl e ↦ rw (there, e) (rw there at long)
      | inr dead ↦ absurd (ground (arith, rw there at long))
    ]
  ]

  -- A sign-in that succeeds, too.
  pub clear_failures-IsIndexed : IsIndexed settings (clear_failures client_ip s).1
  unfolding clear_failures
  clear_failures-IsIndexed address c found alive =
      elim (Bool-cases (address ==ₛ client_of client_ip)) [
        | inl e ↦ cc (rw e at found)
        | inr e ↦
            let (member, bound, long) = indexed address c (rw e at found) alive in
            (addresses_left address e member, bound, index_left c alive long)
      ]

-- Time only takes away.
pub IsIndexed-later :
    (settings : Settings) (s : Session) (time : ℕ)
    → s.clock ≤ time
    → IsIndexed settings s
    → IsIndexed settings (record s { clock = time })
unfolding failure_addresses
IsIndexed-later settings s time le h address c found alive =
    let early : s.clock < c.expires = omega arith in
    let (member, bound, long) = h address c found early in
    elim (Option-cases s.redis.index) [
      | inl gone ↦ absurd (ground (arith, rw gone at long))
      | inr (m, there) ↦
          let lasts = rw there at long in
          let now : ltb s.clock m.expires ≡ true = ground arith in
          let then_ : ltb time m.expires ≡ true = ground arith in
          (rw (there, then_) (rw (there, now) at member), omega arith, long)
    ]
