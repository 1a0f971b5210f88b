-- ===== src/Fetch/Address.antt =====
-- `blocked_reason` of core/safe_fetch.py: which addresses may not be connected to. An address is its
-- value, of 32 or of 128 bits, and the tests on it are those of the standard library's `ipaddress`.
pub mod Public
use lead_discovery_rader.Prelude.{
  ℕ, ◌+◌, ◌-◌, ◌/◌, ◌%◌, ◌^◌, ◌≡◌, Option, none, some, List, [], ◌∷◌, Bool, true, false, not, ◌&&◌,
  ◌||◌, ltb, leb, ◌==◌, any, if◌then◌else◌,
}

pub data IpAddress : Type 0 where
  v4 v6 : ℕ → IpAddress

-- A network, by the first and the last of its addresses.
pub record Network : Type 0 where
  pub first : ℕ
  pub last : ℕ

abbrev pub is_in : Network → ℕ → Bool
is_in network a = leb network.first a && leb a network.last

abbrev pub network : ℕ → ℕ → Network
network first last = record { first = first; last = last }

-- `_private_networks` of the library's IPv4 constants, less two that lie inside another of them.
abbrev pub private_networks : List Network
private_networks =
    network 0x00000000 0x00ffffff
    ∷ network 0x0a000000 0x0affffff
    ∷ network 0x7f000000 0x7fffffff
    ∷ network 0xa9fe0000 0xa9feffff
    ∷ network 0xac100000 0xac1fffff
    ∷ network 0xc0000000 0xc00000ff
    ∷ network 0xc0000200 0xc00002ff
    ∷ network 0xc0a80000 0xc0a8ffff
    ∷ network 0xc6120000 0xc613ffff
    ∷ network 0xc6336400 0xc63364ff
    ∷ network 0xcb007100 0xcb0071ff
    ∷ network 0xf0000000 0xffffffff
    ∷ []

-- `_private_networks_exceptions`
abbrev pub private_exceptions : List Network
private_exceptions = network 0xc0000009 0xc0000009 ∷ network 0xc000000a 0xc000000a ∷ []

abbrev pub is_member : List Network → ℕ → Bool
is_member networks a = any (λ n. is_in n a) networks

pub data Reason : Type 0 where
  unspecified loopback link_local multicast cgnat reserved private_use : Reason
  ipv6_form_of : ℕ → Reason → Reason

-- The seven tests for an IPv4 address, in the source's order.
unfoldable pub blocked_v4 : ℕ → Option Reason
blocked_v4 a =
    if a == 0
    then some unspecified
    else (if is_in (network 0x7f000000 0x7fffffff) a
        then some loopback
        else (if is_in (network 0xa9fe0000 0xa9feffff) a
            then some link_local
            else (if is_in (network 0xe0000000 0xefffffff) a
                then some multicast
                else (if is_in (network 0x64400000 0x647fffff) a
                    then some cgnat
                    else (if is_in (network 0xf0000000 0xffffffff) a
                        then some reserved
                        else (if is_member private_networks a
                              && not (is_member private_exceptions a)
                            then some private_use
                            else none))))))

-- The leading bits of an IPv6 address.
abbrev pub top : ℕ → ℕ → ℕ
top bits a = a / 2 ^ (128 - bits)

-- `ipv4_mapped`
abbrev pub ipv4_mapped : ℕ → Option ℕ
ipv4_mapped a = if top 96 a == 0xffff then some (a % 2 ^ 32) else none

-- `_sixtofour`
abbrev pub sixtofour : ℕ → Option ℕ
sixtofour a = if top 16 a == 0x2002 then some (top 48 a % 2 ^ 32) else none

-- `_teredo`: the client's address, which is stored inverted.
abbrev pub teredo : ℕ → Option ℕ
teredo a = if top 32 a == 0x20010000 then some (2 ^ 32 - 1 - a % 2 ^ 32) else none

abbrev pub or_else {ℓ} : {A : Type ℓ} → Option A → Option A → Option A
or_else none b = b
or_else (some a) b = some a

abbrev pub embedded : ℕ → Option ℕ
embedded a = or_else (ipv4_mapped a) (or_else (sixtofour a) (teredo a))

-- A prefix of an IPv6 address, as its length and its bits.
pub record Prefix : Type 0 where
  pub bits : ℕ
  pub value : ℕ

abbrev pub has_prefix : Prefix → ℕ → Bool
has_prefix p a = top p.bits a == p.value

abbrev pub prefix : ℕ → ℕ → Prefix
prefix bits value = record { bits = bits; value = value }

-- `_reserved_networks` of the library's IPv6 constants.
abbrev pub reserved_prefixes : List Prefix
reserved_prefixes =
    prefix 8 0x00
    ∷ prefix 8 0x01
    ∷ prefix 7 0x01
    ∷ prefix 6 0x01
    ∷ prefix 5 0x01
    ∷ prefix 4 0x1
    ∷ prefix 3 2
    ∷ prefix 3 3
    ∷ prefix 3 4
    ∷ prefix 3 5
    ∷ prefix 3 6
    ∷ prefix 4 0xe
    ∷ prefix 5 0x1e
    ∷ prefix 6 0x3e
    ∷ prefix 9 0x1fc
    ∷ []

-- `_private_networks` of the library's IPv6 constants.
abbrev pub private_prefixes : List Prefix
private_prefixes =
    prefix 128 1
    ∷ prefix 128 0
    ∷ prefix 96 0xffff
    ∷ prefix 48 0x0064ff9b0001
    ∷ prefix 64 0x0100000000000000
    ∷ prefix 23 0x100080
    ∷ prefix 32 0x20010db8
    ∷ prefix 16 0x2002
    ∷ prefix 7 0x7e
    ∷ prefix 10 0x3fa
    ∷ []

-- `_private_networks_exceptions`
abbrev pub private_prefix_exceptions : List Prefix
private_prefix_exceptions =
    prefix 128 0x20010001000000000000000000000001
    ∷ prefix 128 0x20010001000000000000000000000002
    ∷ prefix 32 0x20010003
    ∷ prefix 48 0x200100040112
    ∷ prefix 28 0x2001002
    ∷ prefix 28 0x2001003
    ∷ []

abbrev pub has_any : List Prefix → ℕ → Bool
has_any prefixes a = any (λ p. has_prefix p a) prefixes

-- The same tests for an IPv6 address that stands for no IPv4 one; there is no CGNAT network.
unfoldable pub blocked_v6 : ℕ → Option Reason
blocked_v6 a =
    if a == 0
    then some unspecified
    else (if a == 1
        then some loopback
        else (if has_prefix (prefix 10 0x3fa) a
            then some link_local
            else (if has_prefix (prefix 8 0xff) a
                then some multicast
                else (if has_any reserved_prefixes a
                    then some reserved
                    else (if has_any private_prefixes a && not (has_any private_prefix_exceptions a)
                        then some private_use
                        else none)))))

abbrev pub form_of : ℕ → Option Reason → Option Reason
form_of a none = none
form_of a (some reason) = some (ipv6_form_of a reason)

-- An IPv6 address, by the IPv4 address that it stands for.
blocked_form : Option ℕ → ℕ → Option Reason
unfolding blocked_v4 blocked_v6
blocked_form none a = blocked_v6 a
blocked_form (some inner) a = form_of inner (blocked_v4 inner)

unfoldable pub blocked_reason : IpAddress → Option Reason
unfolding blocked_v4 blocked_form
blocked_reason (v4 a) = blocked_v4 a
blocked_reason (v6 a) = blocked_form (embedded a) a
