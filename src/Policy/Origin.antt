-- ===== src/Policy/Origin.antt =====
-- `normalize_hostname` and `parse_origin` of backend/app/policies/scope_policy.py.
use ai_api_security_platform.Prelude.{
  ℕ, ◌==◌, Bool, true, false, ◌&&◌, ◌||◌, Option, none, some, [], ◌∷◌, Text, text, ◌=ₜ◌, strip,
  rstrip, is_space, Result, ok, err, ◌>>=◌, ◌>>◌, guard, if◌then◌else◌,
}
use ai_api_security_platform.Policy.Python.{
  Python, SplitUrl, PortField, no_port, invalid_port_field, port_number,
}

-- The messages of PolicyValidationError.
pub data Violation : Type 0 where
  empty_hostname invalid_url unsupported_scheme userinfo_present missing_hostname invalid_port :
      Violation
  ambiguous_encoding null_byte backslash double_slash dot_segment relative_path : Violation
  relative_pattern many_wildcards misplaced_wildcard : Violation

pub record Origin : Type 0 where
  pub scheme : Text
  pub hostname : Text
  pub port : ℕ

-- the dataclass equality of Origin
abbrev pub same_origin : Origin → Origin → Bool
same_origin a b = a.scheme =ₜ b.scheme && a.hostname =ₜ b.hostname && a.port == b.port

abbrev is_none {ℓ} : {A : Type ℓ} → Option A → Bool
is_none none = true
is_none (some _) = false

module _ (py : Python) where
  unfoldable pub normalize_hostname : Text → Result Violation Text
  normalize_hostname hostname =
      let value = rstrip (λ c. c == b'.') (py.lower (strip is_space hostname)) in
      if value =ₜ []
      then err empty_hostname
      else ok (elim (py.compressed_address value) [ none ↦ value | some c ↦ c ])

  effective_port : Text → PortField → Result Violation ℕ
  effective_port scheme (port_number p) = ok p
  effective_port scheme no_port = ok (if scheme =ₜ text "http" then 80 else 443)
  effective_port scheme invalid_port_field = err invalid_port

  abbrev present_hostname : Option Text → Result Violation Text
  present_hostname none = err missing_hostname
  present_hostname (some []) = err missing_hostname
  present_hostname (some (c ∷ s)) = ok (c ∷ s)

  origin_of : SplitUrl → Result Violation Origin
  unfolding normalize_hostname effective_port
  origin_of parsed = do
    guard (parsed.scheme =ₜ text "http" || parsed.scheme =ₜ text "https") unsupported_scheme
    guard (is_none parsed.username && is_none parsed.password) userinfo_present
    raw ← present_hostname parsed.hostname
    port ← effective_port parsed.scheme parsed.port
    hostname ← normalize_hostname raw
    ok (record { scheme = parsed.scheme; hostname = hostname; port = port })

  unfoldable pub parse_origin : Text → Result Violation Origin
  unfolding origin_of
  parse_origin url = elim (py.urlsplit url) [
    | none ↦ err invalid_url
    | some parsed ↦ origin_of parsed
  ]
