-- ===== src/Plans/Secrets.antt =====
-- The search for secrets in the context and the URLs of a plan: `_is_secret_bearing_key`,
-- `_reject_secret_context` and `_reject_secret_url` of execution_plan.py.
pub mod Keys
use ai_api_security_platform.Prelude.{
  ℕ, zero, suc, ◌==◌, leb, Bool, true, false, not, ◌&&◌, ◌||◌, Option, none, some, List, [], ◌∷◌,
  any, filter, length, Text, text, ◌=ₜ◌, starts_with, drop_while, is_space, lower_ascii, map,
  if◌then◌else◌,
}
use ai_api_security_platform.Bola.Json.{
  Value, null, boolean, number, string, array, object, Fields, no_fields, field, Items, no_items,
  and_item,
}

-- `_SECRET_KEY_BASES`
abbrev pub secret_key_bases : List Text
secret_key_bases =
    text "authorization"
    ∷ text "cookie"
    ∷ text "setcookie"
    ∷ text "apikey"
    ∷ text "xapikey"
    ∷ text "bearer"
    ∷ text "bearertoken"
    ∷ text "accesstoken"
    ∷ text "refreshtoken"
    ∷ text "clientsecret"
    ∷ text "password"
    ∷ text "passwd"
    ∷ text "session"
    ∷ text "sessionid"
    ∷ text "sessiontoken"
    ∷ []

-- `_SECRET_KEY_QUALIFIERS`
abbrev pub secret_key_qualifiers : List Text
secret_key_qualifiers =
    text "material" ∷ text "header" ∷ text "secret" ∷ text "token" ∷ text "value" ∷ []

-- `[a-z0-9]`
abbrev pub is_kept : ℕ → Bool
is_kept c = leb b'a' c && leb c b'z' || leb b'0' c && leb c b'9'

abbrev pub drop : ℕ → Text → Text
drop zero s = s
drop (suc n) [] = []
drop (suc n) (c ∷ s) = drop n s

-- The first of the qualifiers that the text starts with.
abbrev pub first_prefix : List Text → Text → Option Text
first_prefix [] s = none
first_prefix (q ∷ qs) s = if starts_with s q then some q else first_prefix qs s

-- The `while` loop; the fuel is the length of the text, of which each round removes a qualifier.
unfoldable pub strip_qualifiers : ℕ → Text → Text
strip_qualifiers zero s = s
strip_qualifiers (suc n) [] = []
strip_qualifiers (suc n) (c ∷ s) = elim (first_prefix secret_key_qualifiers (c ∷ s)) [
  | none ↦ c ∷ s
  | some q ↦ strip_qualifiers n (drop (length q) (c ∷ s))
]

abbrev pub is_empty : Text → Bool
is_empty [] = true
is_empty (c ∷ s) = false

-- one round of the loop over the bases
unfoldable pub matches_base : Text → Text → Bool
unfolding strip_qualifiers
matches_base normalized base =
    starts_with normalized base
    && (let remainder = drop (length base) normalized in
        is_empty (strip_qualifiers (length remainder) remainder))

module _ (lower : Text → Text) where
  unfoldable pub is_secret_bearing_key : Text → Bool
  unfolding matches_base
  is_secret_bearing_key key = any (matches_base (filter is_kept (lower key))) secret_key_bases

-- what follows `bearer` in `^\s*bearer\s+\S`
abbrev pub names_credential : Text → Bool
names_credential [] = false
names_credential (c ∷ s) = is_space c && not (is_empty (drop_while is_space s))

-- `re.match(r"^\s*bearer\s+\S", value, re.I)`
unfoldable pub is_bearer_value : Text → Bool
is_bearer_value value =
    let s = drop_while is_space value in
    starts_with (map lower_ascii s) (text "bearer") && names_credential (drop 6 s)

module _ (lower : Text → Text) where
  -- `_reject_secret_context`: whether it raises
  unfoldable mutual
    unfolding is_secret_bearing_key is_bearer_value

    pub has_secret : Value → Bool
    has_secret null = false
    has_secret (boolean b) = false
    has_secret (number s) = false
    has_secret (string s) = is_bearer_value s
    has_secret (array items) = items_have_secret items
    has_secret (object fields) = fields_have_secret fields

    pub items_have_secret : Items → Bool
    items_have_secret no_items = false
    items_have_secret (and_item v items) = has_secret v || items_have_secret items

    pub fields_have_secret : Fields → Bool
    fields_have_secret no_fields = false
    fields_have_secret (field key v fields) =
        is_secret_bearing_key lower key || has_secret v || fields_have_secret fields

  -- the test of one parameter of the query
  unfoldable pub is_secret_parameter : Text × Text → Bool
  unfolding is_secret_bearing_key is_bearer_value
  is_secret_parameter (key, value) = is_secret_bearing_key lower key || is_bearer_value value
