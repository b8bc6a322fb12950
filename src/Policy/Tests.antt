-- ===== src/Policy/Tests.antt =====
-- A request to a target's item, on concrete functions in place of CPython's.
use ai_api_security_platform.Prelude.{
  ◌≡◌, ◌↔◌, refl, true, false, Option, none, some, List, [], ◌∷◌, Text, text, ◌=ₜ◌, ok, map,
  lower_ascii, if◌then◌else◌,
}
use ai_api_security_platform.Policy.Python.{Python, SplitUrl, port_number}
use ai_api_security_platform.Policy.Origin.{parse_origin, normalize_hostname}
use ai_api_security_platform.Policy.Paths.{
  normalize_request_path, matches_pattern, path_matches_scope, normalize_scope_path_pattern,
  checked_path,
}
use ai_api_security_platform.Policy.Paths.Segments.{IsAbove, matches_wildcard_iff}
use ai_api_security_platform.Policy.Paths.Clean.{IsClean, normalize_request_path-IsClean}
use ai_api_security_platform.Policy.Engine.{
  Target, AuthorizationRevision, Scope, PolicyDecision, aware, Request, allowed_by_scope,
  allowed_decision, evaluate, permitted, check_authorization, check_request, matching_scope,
  scope_allows, normalize_method, method_allowed,
}
use ai_api_security_platform.Policy.Engine.Safety.{IsPermitted}
use ai_api_security_platform.Policy.Engine.Decisions.{
  evaluate_sound, evaluate_complete, evaluate_decides,
}

abbrev base_url : Text
base_url = text "http://app.local:8000"

abbrev pub item_url : Text
item_url = text "http://app.local:8000/items/1"

abbrev split_of : Text → SplitUrl
split_of path = record {
  scheme = text "http";
  username = none;
  password = none;
  hostname = some (text "app.local");
  port = port_number 8000;
  path = path;
}

-- The two URLs of the run are split; every other text is refused.
abbrev urlsplit_run : Text → Option SplitUrl
urlsplit_run u =
    if u =ₜ base_url
    then some (split_of [])
    else if u =ₜ item_url
    then some (split_of (text "/items/1"))
    else none

abbrev upper_run : Text → Text
upper_run s = if s =ₜ text "get" then text "GET" else s

abbrev pub py : Python
py = record {
  urlsplit = urlsplit_run;
  unquote = λ s. s;
  compressed_address = λ _. none;
  lower = map lower_ascii;
  upper = upper_run;
}

abbrev pub target : Target
target = record {
  is_enabled = true;
  base_url = base_url;
  authorization_revision_id = some 5;
  authorization_profile_id = some 2;
}

abbrev pub revision : AuthorizationRevision
revision = record {
  id = 5;
  authorization_profile_id = 2;
  lifecycle_state = text "active";
  valid_from = some 100;
  valid_until = some 200;
  automation_allowed = true;
  allow_get = true;
  allow_post = false;
  allow_patch = false;
  allow_delete = false;
}

abbrev pub scope : Scope
scope = record {
  id = 9;
  is_active = true;
  hostname = text "app.local";
  allowed_methods = text "GET" ∷ [];
  path_pattern = text "/items/*";
}

abbrev request : Request
request = record { url = item_url; method = text "get" }

abbrev pub hosts : List Text
hosts = text "app.local" ∷ []

allowed :
    evaluate py hosts target (some revision) (scope ∷ []) request (aware 150)
    ≡ some (allowed_decision (some revision) 150 scope)
unfolding evaluate permitted check_authorization check_request matching_scope scope_allows
    normalize_method method_allowed parse_origin normalize_hostname normalize_request_path
    checked_path path_matches_scope matches_pattern normalize_scope_path_pattern
allowed = refl

evaluate_sound_example :
    (s : Scope) × IsPermitted py hosts target (some revision) (scope ∷ []) request 150 s
    × ((allowed_decision (some revision) 150 scope).matched_scope_id ≡ some s.id)
    × ((allowed_decision (some revision) 150 scope).authorization_revision_id ≡ some 5)
evaluate_sound_example =
    evaluate_sound py hosts target (some revision) (scope ∷ []) request 150
      (allowed_decision (some revision) 150 scope) allowed refl

permitted_item :
    (s : Scope) × IsPermitted py hosts target (some revision) (scope ∷ []) request 150 s
permitted_item = let (s, p, _, _) = evaluate_sound_example in (s, p)

evaluate_complete_example :
    (d : PolicyDecision) × (evaluate py hosts target
        (some revision)
        (scope ∷ [])
        request
        (aware 150)
      ≡ some d)
    × (d.allowed ≡ true)
    × (d.code ≡ allowed_by_scope)
    × (d.matched_scope_id ≡ some permitted_item.0.id)
evaluate_complete_example =
    evaluate_complete py hosts target (some revision) (scope ∷ []) request 150 permitted_item.0
      permitted_item.1

evaluate_decides_example :
    (d : PolicyDecision) × (evaluate py hosts target none (scope ∷ []) request (aware 150) ≡ some d)
    × (d.evaluated_at ≡ 150)
evaluate_decides_example = evaluate_decides py hosts target none (scope ∷ []) request 150

matches_wildcard_iff_example :
    (matches_pattern (text "/items/1") (text "/items/*") ≡ true)
    ↔ IsAbove (text "/items") (text "/items/1")
matches_wildcard_iff_example = matches_wildcard_iff (text "/items/1") (text "/items") refl

item_path : normalize_request_path py item_url ≡ ok (text "/items/1")
unfolding normalize_request_path checked_path
item_path = refl

normalize_request_path-IsClean_example : IsClean (text "/items/1")
normalize_request_path-IsClean_example =
    normalize_request_path-IsClean py item_url (text "/items/1") item_path
