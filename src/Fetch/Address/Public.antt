-- ===== src/Fetch/Address/Public.antt =====
-- The addresses that the guard lets through, as ranges.
use lead_discovery_rader.Prelude.{
  ℕ, ◌*◌, ◌-◌, ◌+◌, ◌%◌, ◌/◌, ◌^◌, ◌<◌, ◌≤◌, ◌≡◌, ◌≢◌, refl, Option, none, some, List, [], ◌∷◌,
  Bool, true, false, leb, ◌==◌, arith, Bool-cases, inl, inr, ◌⊎◌, ◌∙◌, ap,
}
use lead_discovery_rader.Fetch.Address.{
  IpAddress, v4, v6, Network, network, is_member, blocked_v4, blocked_form, blocked_reason,
  embedded, form_of, Reason,
}

-- The public addresses of IPv4.
abbrev pub public_ranges : List Network
public_ranges =
    network 0x01000000 0x09ffffff
    ∷ network 0x0b000000 0x643fffff
    ∷ network 0x64800000 0x7effffff
    ∷ network 0x80000000 0xa9fdffff
    ∷ network 0xa9ff0000 0xac0fffff
    ∷ network 0xac200000 0xbfffffff
    ∷ network 0xc0000009 0xc000000a
    ∷ network 0xc0000100 0xc00001ff
    ∷ network 0xc0000300 0xc0a7ffff
    ∷ network 0xc0a90000 0xc611ffff
    ∷ network 0xc6140000 0xc63363ff
    ∷ network 0xc6336500 0xcb0070ff
    ∷ network 0xcb007200 0xdfffffff
    ∷ []

abbrev pub is_allowed {ℓ} : {A : Type ℓ} → Option A → Bool
is_allowed none = true
is_allowed (some reason) = false

abbrev Agrees : ℕ → Type 0
Agrees a = is_allowed (blocked_v4 a) ≡ is_member public_ranges a

Agrees-0 : (a : ℕ) → 0x0 ≤ a → a ≤ 0xaffffff → Agrees a
unfolding blocked_v4
Agrees-0 a low high = ground arith

Agrees-1 : (a : ℕ) → 0xb000000 ≤ a → a ≤ 0x647fffff → Agrees a
unfolding blocked_v4
Agrees-1 a low high = ground arith

Agrees-2 : (a : ℕ) → 0x64800000 ≤ a → a ≤ 0x7fffffff → Agrees a
unfolding blocked_v4
Agrees-2 a low high = ground arith

Agrees-3 : (a : ℕ) → 0x80000000 ≤ a → a ≤ 0xa9feffff → Agrees a
unfolding blocked_v4
Agrees-3 a low high = ground arith

Agrees-4 : (a : ℕ) → 0xa9ff0000 ≤ a → a ≤ 0xac1fffff → Agrees a
unfolding blocked_v4
Agrees-4 a low high = ground arith

Agrees-5 : (a : ℕ) → 0xac200000 ≤ a → a ≤ 0xc0000008 → Agrees a
unfolding blocked_v4
Agrees-5 a low high = ground arith

Agrees-at_9 : Agrees 0xc0000009
unfolding blocked_v4
Agrees-at_9 = refl

Agrees-at_10 : Agrees 0xc000000a
unfolding blocked_v4
Agrees-at_10 = refl

Agrees-6 : (a : ℕ) → 0xc0000009 ≤ a → a ≤ 0xc000000a → Agrees a
Agrees-6 a low high = elim (Bool-cases (a == 0xc0000009)) [
  | inl e ↦ let same : a ≡ 0xc0000009 = ground arith in rw same Agrees-at_9
  | inr e ↦ let same : a ≡ 0xc000000a = ground arith in rw same Agrees-at_10
]

Agrees-7 : (a : ℕ) → 0xc000000b ≤ a → a ≤ 0xc00002ff → Agrees a
unfolding blocked_v4
Agrees-7 a low high = ground arith

Agrees-8 : (a : ℕ) → 0xc0000300 ≤ a → a ≤ 0xc0a8ffff → Agrees a
unfolding blocked_v4
Agrees-8 a low high = ground arith

Agrees-9 : (a : ℕ) → 0xc0a90000 ≤ a → a ≤ 0xc613ffff → Agrees a
unfolding blocked_v4
Agrees-9 a low high = ground arith

Agrees-10 : (a : ℕ) → 0xc6140000 ≤ a → a ≤ 0xc63364ff → Agrees a
unfolding blocked_v4
Agrees-10 a low high = ground arith

Agrees-11 : (a : ℕ) → 0xc6336500 ≤ a → a ≤ 0xcb0071ff → Agrees a
unfolding blocked_v4
Agrees-11 a low high = ground arith

Agrees-12 : (a : ℕ) → 0xcb007200 ≤ a → a ≤ 0xffffffff → Agrees a
unfolding blocked_v4
Agrees-12 a low high = ground arith

le_or_lt : (c a : ℕ) → (a ≤ c) ⊎ (c + 1 ≤ a)
le_or_lt c a = elim (Bool-cases (leb a c)) [
  | inl e ↦ inl (ground arith)
  | inr e ↦ inr (ground arith)
]

blocked_v4-public : (a : ℕ) → a < 2 ^ 32 → is_allowed (blocked_v4 a) ≡ is_member public_ranges a
blocked_v4-public a h = (elim (le_or_lt 0xc000000a a) [
  | inl below_6 ↦ (elim (le_or_lt 0xa9feffff a) [
    | inl below_3 ↦ (elim (le_or_lt 0x647fffff a) [
      | inl below_1 ↦ (elim (le_or_lt 0xaffffff a) [
        | inl below_0 ↦ Agrees-0 a (omega arith) below_0
        | inr above_0 ↦ Agrees-1 a above_0 below_1
      ])
      | inr above_1 ↦ (elim (le_or_lt 0x7fffffff a) [
        | inl below_2 ↦ Agrees-2 a above_1 below_2
        | inr above_2 ↦ Agrees-3 a above_2 below_3
      ])
    ])
    | inr above_3 ↦ (elim (le_or_lt 0xc0000008 a) [
      | inl below_5 ↦ (elim (le_or_lt 0xac1fffff a) [
        | inl below_4 ↦ Agrees-4 a above_3 below_4
        | inr above_4 ↦ Agrees-5 a above_4 below_5
      ])
      | inr above_5 ↦ Agrees-6 a above_5 below_6
    ])
  ])
  | inr above_6 ↦ (elim (le_or_lt 0xc613ffff a) [
    | inl below_9 ↦ (elim (le_or_lt 0xc0a8ffff a) [
      | inl below_8 ↦ (elim (le_or_lt 0xc00002ff a) [
        | inl below_7 ↦ Agrees-7 a above_6 below_7
        | inr above_7 ↦ Agrees-8 a above_7 below_8
      ])
      | inr above_8 ↦ Agrees-9 a above_8 below_9
    ])
    | inr above_9 ↦ (elim (le_or_lt 0xcb0071ff a) [
      | inl below_11 ↦ (elim (le_or_lt 0xc63364ff a) [
        | inl below_10 ↦ Agrees-10 a above_9 below_10
        | inr above_10 ↦ Agrees-11 a above_10 below_11
      ])
      | inr above_11 ↦ Agrees-12 a above_11 (omega arith)
    ])
  ])
])

-- The addresses that stand for an IPv4 address, by their layout: itself; `::ffff:x`; a 6to4 address,
-- `2002:x::/48`; and a Teredo address, `2001:0:server:...`, whose last word is the complement of x.
pub data IsFormOf : IpAddress → ℕ → Type 0 where
  itself : (x : ℕ) → x < 2 ^ 32 → IsFormOf (v4 x) x
  in_mapped : (x : ℕ) → x < 2 ^ 32 → IsFormOf (v6 (0xffff * 2 ^ 32 + x)) x
  in_sixtofour :
      (x rest : ℕ)
      → x < 2 ^ 32
      → rest < 2 ^ 80
      → IsFormOf (v6 (0x2002 * 2 ^ 112 + x * 2 ^ 80 + rest)) x
  in_teredo :
      (x inverted middle : ℕ)
      → x + inverted ≡ 2 ^ 32 - 1
      → middle < 2 ^ 64
      → IsFormOf (v6 (0x20010000 * 2 ^ 96 + middle * 2 ^ 32 + inverted)) x

form_of-allowed :
    (x : ℕ) (reason : Option Reason) → is_allowed (form_of x reason) ≡ is_allowed reason
form_of-allowed x none = refl
form_of-allowed x (some reason) = refl

embedded-mapped : (x : ℕ) → x < 2 ^ 32 → embedded (0xffff * 2 ^ 32 + x) ≡ some x
embedded-mapped x h =
    let front : (0xffff * 2 ^ 32 + x) / 2 ^ 32 ≡ 0xffff = omega arith in
    let last : (0xffff * 2 ^ 32 + x) % 2 ^ 32 ≡ x = omega arith in rw (front, last) refl

differs_lem : (a b : ℕ) → a ≢ b → (a == b) ≡ false
differs_lem a b h = ground arith

sixtofour-embedded :
    (a x : ℕ)
    → a / 2 ^ 32 ≢ 0xffff
    → a / 2 ^ 112 ≡ 0x2002
    → a / 2 ^ 80 % 2 ^ 32 ≡ x
    → embedded a ≡ some x
sixtofour-embedded a x not_mapped front after =
    rw (differs_lem (a / 2 ^ 32) 0xffff not_mapped, front, after) refl

teredo-embedded :
    (a x : ℕ)
    → a / 2 ^ 32 ≢ 0xffff
    → a / 2 ^ 112 ≢ 0x2002
    → a / 2 ^ 96 ≡ 0x20010000
    → 2 ^ 32 - 1 - a % 2 ^ 32 ≡ x
    → embedded a ≡ some x
teredo-embedded a x not_mapped not_sixtofour front last =
    rw
      (
        differs_lem (a / 2 ^ 32) 0xffff not_mapped,
        differs_lem (a / 2 ^ 112) 0x2002 not_sixtofour,
        front,
        last,
      )
      refl

embedded-sixtofour :
    (x rest : ℕ)
    → x < 2 ^ 32
    → rest < 2 ^ 80
    → embedded (0x2002 * 2 ^ 112 + x * 2 ^ 80 + rest) ≡ some x
embedded-sixtofour x rest h r =
    let a = 0x2002 * 2 ^ 112 + x * 2 ^ 80 + rest in
    let not_mapped : a / 2 ^ 32 ≢ 0xffff = λ same. omega arith in
    let front : a / 2 ^ 112 ≡ 0x2002 = omega arith in
    let after : a / 2 ^ 80 % 2 ^ 32 ≡ x = omega arith in
    sixtofour-embedded a x not_mapped front after

embedded-teredo :
    (x inverted middle : ℕ)
    → x + inverted ≡ 2 ^ 32 - 1
    → middle < 2 ^ 64
    → embedded (0x20010000 * 2 ^ 96 + middle * 2 ^ 32 + inverted) ≡ some x
embedded-teredo x inverted middle h m =
    let a = 0x20010000 * 2 ^ 96 + middle * 2 ^ 32 + inverted in
    let not_mapped : a / 2 ^ 32 ≢ 0xffff = λ same. omega arith in
    let not_sixtofour : a / 2 ^ 112 ≢ 0x2002 = λ same. omega arith in
    let front : a / 2 ^ 96 ≡ 0x20010000 = omega arith in
    let last : 2 ^ 32 - 1 - a % 2 ^ 32 ≡ x = omega arith in
    teredo-embedded a x not_mapped not_sixtofour front last

-- An IPv6 form of an IPv4 address is refused as that is.
blocked_reason-form :
    (a x : ℕ)
    → embedded a ≡ some x
    → x < 2 ^ 32
    → is_allowed (blocked_reason (v6 a)) ≡ is_member public_ranges x
unfolding blocked_reason blocked_form
blocked_reason-form a x stands_for word =
    ap (λ inner. is_allowed (blocked_form inner a)) stands_for
    ∙ form_of-allowed x (blocked_v4 x)
    ∙ blocked_v4-public x word

-- An IPv4 address, or an IPv6 address that stands for one (mapped, 6to4 or Teredo, by their
-- layouts), may be connected to exactly when the IPv4 address lies in one of the public ranges.
pub blocked_reason-public :
    (address : IpAddress) (x : ℕ)
    → IsFormOf address x
    → is_allowed (blocked_reason address) ≡ is_member public_ranges x
unfolding blocked_reason
blocked_reason-public address y (itself x word) = blocked_v4-public x word
blocked_reason-public address y (in_mapped x word) =
    blocked_reason-form (0xffff * 2 ^ 32 + x) x (embedded-mapped x word) word
blocked_reason-public address y (in_sixtofour x rest word r) =
    blocked_reason-form (0x2002 * 2 ^ 112 + x * 2 ^ 80 + rest) x (embedded-sixtofour x rest word r)
      word
blocked_reason-public address y (in_teredo x inverted middle h m) =
    blocked_reason-form (0x20010000 * 2 ^ 96 + middle * 2 ^ 32 + inverted) x
      (embedded-teredo x inverted middle h m) (omega arith)
