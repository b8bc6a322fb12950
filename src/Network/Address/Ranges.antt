-- ===== src/Network/Address/Ranges.antt =====
-- The categories of IPv4 addresses as ranges of the dotted quads.
use ai_api_security_platform.Prelude.{ℕ, ◌-◌, ◌*◌, ◌^◌, ◌≤◌, ◌≡◌, ◌↔◌, ◌⊎◌, Bool, arith}
use ai_api_security_platform.Network.Address.{
  Address, v4, v6, loopback, private, public, quad, normalized_ip, classify_address,
  classify_normalized,
}

abbrev pub Between : ℕ → ℕ → ℕ → Type 0
Between lo n hi = (lo ≤ n) × (n ≤ hi)

module _ (is_global : Address → Bool) (n : ℕ) where
  -- An IPv4 address is loopback exactly from 127.0.0.0 to 127.255.255.255.
  pub loopback_range :
      (classify_address is_global (v4 n) ≡ loopback)
      ↔ Between (quad 127 0 0 0) n (quad 127 255 255 255)
  unfolding classify_address
  loopback_range = (λ h. ground arith, λ h. ground arith)

  -- An IPv4 address is private exactly in the three ranges of RFC 1918.
  pub private_range : (classify_address is_global (v4 n) ≡ private) ↔ (
      Between (quad 10 0 0 0) n (quad 10 255 255 255)
      ⊎ (Between (quad 172 16 0 0) n (quad 172 31 255 255)
          ⊎ Between (quad 192 168 0 0) n (quad 192 168 255 255)))
  unfolding classify_address
  private_range = (λ h. ground arith, λ h. ground arith)

-- Addresses inside a host or its networks: this host, loopback, link-local (the metadata service at
-- 169.254.169.254 among them), RFC 1918 and unique local addresses.
abbrev pub IsInternal : Address → Type 0
IsInternal (v4 n) =
    (n ≡ 0)
    ⊎ (Between (quad 127 0 0 0) n (quad 127 255 255 255)
        ⊎ (Between (quad 169 254 0 0) n (quad 169 254 255 255)
            ⊎ (Between (quad 10 0 0 0) n (quad 10 255 255 255)
                ⊎ (Between (quad 172 16 0 0) n (quad 172 31 255 255)
                    ⊎ Between (quad 192 168 0 0) n (quad 192 168 255 255)))))
IsInternal (v6 n) =
    (n ≤ 1)
    ⊎ (Between (0xfe80 * 2 ^ 112) n (0xfec0 * 2 ^ 112 - 1)
        ⊎ Between (0xfc00 * 2 ^ 112) n (0xfe00 * 2 ^ 112 - 1))

module _ (is_global : Address → Bool) where
  normalized_external : (a : Address) → classify_normalized is_global a ≡ public → ¬ IsInternal a
  unfolding classify_normalized
  normalized_external (v4 n) h i = ground arith
  normalized_external (v6 n) h i = ground arith

  -- Whatever the registry tables of `is_global` say, an address that is classified as public is not
  -- internal, and neither is the IPv4 address that it may be mapped from.
  pub public_external :
      (a : Address) → classify_address is_global a ≡ public → ¬ IsInternal (normalized_ip a)
  unfolding classify_address
  public_external a h = normalized_external (normalized_ip a) h
