-- ===== src/Network/Address.antt =====
-- The addresses of `ipaddress` as numbers, and `classify_address` and `_deduplicate_addresses` of
-- backend/app/network_safety/destination.py.
pub mod Ranges
pub mod Sorting
use ai_api_security_platform.Prelude.{
  ℕ, ◌+◌, ◌*◌, ◌/◌, ◌%◌, ◌^◌, ◌==◌, ltb, ◌≡◌, Bool, true, false, ◌&&◌, ◌||◌, Option, none, some,
  List, [], ◌∷◌, any, if◌then◌else◌,
}

-- IPv4Address and IPv6Address by their integers; scope identifiers are not represented.
pub data Address : Type 0 where
  v4 : ℕ → Address
  v6 : ℕ → Address

pub data AddressCategory : Type 0 where
  loopback private link_local unspecified multicast special public : AddressCategory

-- dotted quad
abbrev pub quad : ℕ → ℕ → ℕ → ℕ → ℕ
quad a b c d = a * 16777216 + b * 65536 + c * 256 + d

abbrev pub same_address : Address → Address → Bool
same_address (v4 a) (v4 b) = a == b
same_address (v6 a) (v6 b) = a == b
same_address _ _ = false

-- The networks behind the properties of `ipaddress`, each by its leading bits.
abbrev pub is_loopback : Address → Bool
is_loopback (v4 n) = n / 2 ^ 24 == 127
is_loopback (v6 n) = n == 1

abbrev pub is_link_local : Address → Bool
is_link_local (v4 n) = n / 2 ^ 16 == 43518
is_link_local (v6 n) = n / 2 ^ 118 == 0x3fa

abbrev pub is_unspecified : Address → Bool
is_unspecified (v4 n) = n == 0
is_unspecified (v6 n) = n == 0

abbrev pub is_multicast : Address → Bool
is_multicast (v4 n) = n / 2 ^ 28 == 14
is_multicast (v6 n) = n / 2 ^ 120 == 0xff

abbrev pub is_reserved : Address → Bool
is_reserved (v4 n) = n / 2 ^ 28 == 15
is_reserved (v6 n) =
    n / 2 ^ 120 == 0
    || n / 2 ^ 120 == 1
    || n / 2 ^ 121 == 1
    || n / 2 ^ 122 == 1
    || n / 2 ^ 123 == 1
    || n / 2 ^ 124 == 1
    || any (λ k. n / 2 ^ 125 == k) (2 ∷ 3 ∷ 4 ∷ 5 ∷ 6 ∷ [])
    || n / 2 ^ 124 == 14
    || n / 2 ^ 123 == 30
    || n / 2 ^ 122 == 62
    || n / 2 ^ 119 == 0x1fc

-- 10.0.0.0/8, 172.16.0.0/12, 192.168.0.0/16; fc00::/7
abbrev pub is_private_network : Address → Bool
is_private_network (v4 n) = n / 2 ^ 24 == 10 || n / 2 ^ 20 == 2753 || n / 2 ^ 16 == 49320
is_private_network (v6 n) = n / 2 ^ 121 == 0x7e

-- `address.ipv4_mapped` where it is not None, as in `_normalized_ip` of gateway.py
abbrev pub normalized_ip : Address → Address
normalized_ip (v4 n) = v4 n
normalized_ip (v6 n) = if n / 2 ^ 32 == 0xffff then v4 (n % 2 ^ 32) else v6 n

-- `is_global` reads registry tables that differ between versions of CPython: a parameter.
module _ (is_global : Address → Bool) where
  unfoldable pub classify_normalized : Address → AddressCategory
  classify_normalized a =
      if same_address a (v4 (quad 169 254 169 254))
      then link_local
      else if is_loopback a
      then loopback
      else if is_link_local a
      then link_local
      else if is_unspecified a
      then unspecified
      else if is_multicast a
      then multicast
      else if is_private_network a
      then private
      else if is_reserved a
      then special
      else if is_global a
      then public
      else special

  unfoldable pub classify_address : Address → AddressCategory
  unfolding classify_normalized
  classify_address a = classify_normalized (normalized_ip a)

-- The sort key `(address.version, int(address))`.
abbrev pub precedes : Address → Address → Bool
precedes (v4 a) (v4 b) = ltb a b
precedes (v4 a) (v6 b) = true
precedes (v6 a) (v4 b) = false
precedes (v6 a) (v6 b) = ltb a b

-- `sorted(set(addresses), key=...)`
unfoldable pub insert_address : Address → List Address → List Address
insert_address a [] = a ∷ []
insert_address a (b ∷ bs) =
    let rest = insert_address a bs in
    if same_address a b then b ∷ bs else if precedes a b then a ∷ b ∷ bs else b ∷ rest

unfoldable pub deduplicate_addresses : List Address → List Address
unfolding insert_address
deduplicate_addresses [] = []
deduplicate_addresses (a ∷ as') = insert_address a (deduplicate_addresses as')
