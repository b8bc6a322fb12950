-- ===== src/Bola/Json.antt =====
-- JSON values, and the search of backend/app/analyzers/bola.py for a resource identifier in them.
pub mod Search
use ai_api_security_platform.Prelude.{
  ℕ, Bool, true, false, ◌&&◌, ◌||◌, Option, none, some, Text, text, ◌=ₜ◌, ◌++◌, if◌then◌else◌,
}
use ai_api_security_platform.Bola.Ownership.{Resource}

-- What `json.loads` returns; a number is given by its `str`.
mutual
  pub data Value : Type 0 where
    null : Value
    boolean : Bool → Value
    number : Text → Value
    string : Text → Value
    array : Items → Value
    object : Fields → Value

  pub data Fields : Type 0 where
    no_fields : Fields
    field : Text → Value → Fields → Fields

  pub data Items : Type 0 where
    no_items : Items
    and_item : Value → Items → Items

unfoldable pub normalize_scalar : Value → Option Text
normalize_scalar (number s) = some s
normalize_scalar (string s) = some s
normalize_scalar _ = none

abbrev is_text : Option Text → Text → Bool
is_text none t = false
is_text (some s) t = s =ₜ t

-- The two tests on a key and its child.
unfoldable pub is_identifier : (Text → Text) → Resource → Text → Value → Bool
unfolding normalize_scalar
is_identifier lower r key child =
    (lower key =ₜ text "id" || lower key =ₜ (r.resource_type ++ text "_id"))
    && is_text (normalize_scalar child) r.external_id

abbrev pub first_of_two : Option Text → Option Text → Option Text
first_of_two none b = b
first_of_two (some k) b = some k

-- The depth-first search of `json_matching_resource_id_key`, over any test on a key and its child.
unfoldable mutual
  pub find : (Text → Value → Bool) → Value → Option Text
  find hit null = none
  find hit (boolean b) = none
  find hit (number s) = none
  find hit (string s) = none
  find hit (array items) = find_items hit items
  find hit (object fields) = find_fields hit fields

  pub find_items : (Text → Value → Bool) → Items → Option Text
  find_items hit no_items = none
  find_items hit (and_item v items) = first_of_two (find hit v) (find_items hit items)

  pub find_fields : (Text → Value → Bool) → Fields → Option Text
  find_fields hit no_fields = none
  find_fields hit (field k v fields) =
      if hit k v then some k else first_of_two (find hit v) (find_fields hit fields)

unfoldable pub json_matching_resource_id_key : (Text → Text) → Resource → Value → Option Text
unfolding find is_identifier
json_matching_resource_id_key lower r value = find (is_identifier lower r) value
