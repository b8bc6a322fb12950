-- ===== src/PlanExecution/Headers.antt =====
-- backend/app/auth/context.py, and the part of `_execute` that calls it: the headers of the request.
use ai_api_security_platform.Prelude.{
  ℕ, Bool, true, false, not, ◌||◌, ◌==◌, Option, none, some, List, [], ◌∷◌, ◌++◌, any, Text, text,
  ◌=ₜ◌, strip, is_space, starts_with, Result, ok, err, ◌>>=◌, ◌>>◌, guard, if◌then◌else◌,
}
use ai_api_security_platform.Bola.Ownership.{TestIdentity}
use ai_api_security_platform.Network.Gateway.{Header}

-- AuthenticationContextError and BearerCredentialError, which `_execute` handles alike.
pub data HeaderError : Type 0 where
  inactive_identity no_token empty_token token_line_break token_not_raw : HeaderError
  unsupported_type authorization_present credential_unavailable anonymous_credential : HeaderError

abbrev is_bearer : TestIdentity → Bool
is_bearer identity = identity.auth_type =ₜ text "bearer"

abbrev bearer_headers : (Text → Text) → Option Text → Result HeaderError (List Header)
bearer_headers lower none = err no_token
bearer_headers lower (some token) = do
  guard (not (strip is_space token =ₜ [])) empty_token
  guard (not (any (λ c. c == 13 || c == 10) token)) token_line_break
  guard (not (starts_with (lower token) (text "bearer "))) token_not_raw
  ok ((text "Authorization", text "Bearer " ++ token) ∷ [])

module _ (lower : Text → Text) where
  -- the headers of the context
  unfoldable pub build_authentication_context :
      TestIdentity → Option Text → Result HeaderError (List Header)
  build_authentication_context identity token =
      if not identity.is_active
      then err inactive_identity
      else if identity.auth_type =ₜ text "none" || identity.auth_type =ₜ text "anonymous"
      then ok []
      else if is_bearer identity
      then bearer_headers lower token
      else err unsupported_type

  -- `headers.update` of a dictionary without the key `Authorization`
  unfoldable pub apply_authentication_context :
      List Header → List Header → Result HeaderError (List Header)
  apply_authentication_context headers context = do
    guard (not (any (λ h. lower (strip is_space h.0) =ₜ text "authorization") headers))
        authorization_present
    ok (headers ++ context)

  abbrev token_of : Option Text → Result HeaderError (Option Text)
  token_of none = err credential_unavailable
  token_of (some token) = ok (some token)

  -- the token of the plan's credential
  abbrev resolve_token : Bool → Option ℕ → Option Text → Result HeaderError (Option Text)
  resolve_token true none token = err credential_unavailable
  resolve_token true (some binding) token = token_of token
  resolve_token false none token = ok none
  resolve_token false (some binding) token = err anonymous_credential

  unfoldable pub request_headers :
      TestIdentity → Option ℕ → Option Text → Result HeaderError (List Header)
  unfolding build_authentication_context apply_authentication_context
  request_headers actor binding token = do
    bearer_token ← resolve_token (is_bearer actor) binding token
    context ← build_authentication_context actor bearer_token
    apply_authentication_context ((text "Accept", text "application/json") ∷ []) context
