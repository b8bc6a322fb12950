-- ===== src/Network/Gateway/Headers.antt =====
-- The headers that are sent: none can be split into two, and the host is the approved destination.
use ai_api_security_platform.Prelude.{
  ℕ, ◌≡◌, ◌≢◌, sym, inl, inr, true, false, List, [], ◌∷◌, ◌++◌, any, In, All, Text, text, ok, arith,
  Bool-cases, >>=-eq-ok, ok-injective, subst,
}
use ai_api_security_platform.Network.Destination.{CanonicalDestination}
use ai_api_security_platform.Network.Gateway.{
  Header, is_host, is_valid_header, host_value, copy_headers, build_headers, is_bad_value_character,
}

-- A copied header is valid and is no Host header.
abbrev pub IsCopied : Header → Type 0
IsCopied h = (is_valid_header h ≡ true) × (is_host h.0 ≡ false)

copy_headers-IsCopied :
    (headers copied : List Header) → copy_headers headers ≡ ok copied → All IsCopied copied
unfolding copy_headers
copy_headers-IsCopied [] copied h = subst (All IsCopied) (ok-injective h) tt
copy_headers-IsCopied ((name, value) ∷ headers) copied h =
    elim (Bool-cases (is_valid_header (name, value))) [
      | inr bad ↦ absurd (ground arith)
      | inl good ↦ elim (Bool-cases (is_host name)) [
        | inl host ↦ copy_headers-IsCopied headers copied (ground arith)
        | inr other ↦
            let (rest, e, k) = >>=-eq-ok (copy_headers headers) _ (rw (good, other) at h) in
            subst (All IsCopied) (ok-injective k)
              ((good, other), copy_headers-IsCopied headers rest e)
      ]
    ]

-- No character of a value ends a line.
no_line_break :
    (value : Text) (c : ℕ)
    → any is_bad_value_character value ≡ false
    → In c value
    → (c ≢ 13) × (c ≢ 10)
no_line_break [] c h m = elim m [ ]
no_line_break (d ∷ value) c h (inl e) = (λ q. ground arith, λ q. ground arith)
no_line_break (d ∷ value) c h (inr m) = no_line_break value c (ground arith) m

-- The headers that are built are valid headers of the caller other than Host, with no line break in a
-- value, followed by one Host header with the approved destination.
pub build_headers-IsCopied :
    (decimal : ℕ → Text) (headers built : List Header) (d : CanonicalDestination)
    → build_headers decimal headers d ≡ ok built
    → (copied : List Header) × (built ≡ copied ++ ((text "Host", host_value decimal d) ∷ []))
      × All (λ h. (is_host h.0 ≡ false) × ((c : ℕ) → In c h.1 → (c ≢ 13) × (c ≢ 10))) copied
unfolding build_headers
build_headers-IsCopied decimal headers built d h =
    let (copied, e, k) = >>=-eq-ok (copy_headers headers) _ h in
    (copied, sym (ok-injective k), go copied (copy_headers-IsCopied headers copied e))
  where
    go :
        (copied : List Header)
        → All IsCopied copied
        → All (λ h. (is_host h.0 ≡ false) × ((c : ℕ) → In c h.1 → (c ≢ 13) × (c ≢ 10))) copied
    go [] k = tt
    go (h ∷ hs) k = ((k.0.1, λ c m. no_line_break h.1 c (ground arith) m), go hs k.1)
