-- ===== src/Bola/Tests.antt =====
-- Two users and an item that the first one owns: the generated cases, the plan and the analysis.
use ai_api_security_platform.Prelude.{
  ℕ, ◌≡◌, ◌↔◌, refl, Bool, true, none, some, List, [], ◌∷◌, ◌++◌, Text, text, ◌=ₜ◌, ok, arith, map,
  lower_ascii, if◌then◌else◌, In,
}
use ai_api_security_platform.Bola.Ownership.{TestIdentity, Resource}
use ai_api_security_platform.Bola.Generator.{
  Endpoint, GeneratedTestCase, generate_bola_test_cases, bola_cross_owner,
}
use ai_api_security_platform.Bola.Generator.Cases.{IsGenerated, generate_exact}
use ai_api_security_platform.Bola.Matrix.{
  AccessFact, resolved, owner, allowed, fact, plan_bola_matrix, plan_from, candidates_of, max_facts,
}
use ai_api_security_platform.Bola.Matrix.Plan.{
  none_left, one_more, all_candidates, IsPlanned, plan_sound, plan_complete,
}
use ai_api_security_platform.Bola.Json.{
  Value, number, array, object, no_items, and_item, no_fields, field, find, is_identifier,
  normalize_scalar, json_matching_resource_id_key,
}
use ai_api_security_platform.Bola.Json.Search.{Occurs, find_exact}
use ai_api_security_platform.Bola.Analyzer.{
  potential_bola, TestRun, Library, FingerprintEvidence, parse_json_body, classify_bola_run,
  analyze_bola_run,
}
use ai_api_security_platform.Bola.Analyzer.Outcomes.{IsDisclosed, potential_iff}

abbrev alice : TestIdentity
alice = record { id = 1; target_id = 4; auth_type = text "bearer"; is_active = true }

abbrev bob : TestIdentity
bob = record { id = 2; target_id = 4; auth_type = text "bearer"; is_active = true }

abbrev item : Resource
item = record {
  id = 8;
  target_id = 4;
  resource_type = text "item";
  external_id = text "17";
  owner_identity_id = some 1;
}

abbrev get_item : Endpoint
get_item = record { id = 6; target_id = 4; method = text "GET"; path = text "/items/{item_id}" }

generate_exact_example :
    (cs : List GeneratedTestCase) × (generate_bola_test_cases
        (get_item ∷ [])
        (alice ∷ bob ∷ [])
        (item ∷ [])
      ≡ ok cs)
    × ((c : GeneratedTestCase)
        → In c cs ↔ IsGenerated (get_item ∷ []) (alice ∷ bob ∷ []) (item ∷ []) c)
generate_exact_example = generate_exact (alice ∷ bob ∷ []) (item ∷ []) (get_item ∷ [])

abbrev owned : AccessFact
owned = record {
  endpoint_id = 6;
  resource_id = 8;
  test_identity_id = 1;
  identity_auth_type = text "bearer";
  resolution_state = resolved;
  relationship = owner;
  expected_access = allowed;
  supporting_assertion_ids = 3 ∷ [];
}

planned : plan_bola_matrix (fact owned ∷ []) ≡ ok (candidates_of owned ++ [])
unfolding plan_bola_matrix plan_from candidates_of
planned = refl

plan_sound_example : IsPlanned [] (fact owned ∷ []) (candidates_of owned ++ []) max_facts
plan_sound_example = plan_sound (fact owned ∷ []) (candidates_of owned ++ []) planned

plan_complete_example : plan_bola_matrix (fact owned ∷ []) ≡ ok (all_candidates (owned ∷ []))
plan_complete_example =
    plan_complete (fact owned ∷ []) (owned ∷ []) (one_more owned refl none_left) (omega arith)

-- [{"id": 17}]
abbrev document : Value
document = array (and_item (object (field (text "id") (number (text "17")) no_fields)) no_items)

abbrev hit : Text → Value → Bool
hit k v = k =ₜ text "id"

find_exact_example :
    ((k : Text) → find hit document ≡ some k → Occurs hit k document)
    × (find hit document ≡ none → (k : Text) → ¬ Occurs hit k document)
find_exact_example = find_exact hit document

abbrev lib : Library
lib = record {
  loads = λ s. if s =ₜ text "[{\"id\": 17}]" then some document else none;
  same_json = λ u v. true;
  lower = map lower_ascii;
  utf8 = λ s. s;
  sha256 = λ s. text "digest";
}

abbrev baseline : TestRun
baseline = record {
  id = 30;
  error_message = none;
  response_status = some 200;
  response_body = some (text "[{\"id\": 17}]");
}

abbrev cross : TestRun
cross = record baseline { id = 31 }

abbrev cross_refused : ℕ
cross_refused = 403

abbrev rejected_run : TestRun
rejected_run = record cross { response_status = some 403; response_body = none }

potential_iff_example :
    ((analyze_bola_run lib bola_cross_owner cross (some baseline) item).outcome ≡ potential_bola)
    ↔ ((b : TestRun) × (some baseline ≡ some b) × IsDisclosed lib bola_cross_owner cross item b)
potential_iff_example = potential_iff lib bola_cross_owner cross item (some baseline)

disclosed :
    (analyze_bola_run lib bola_cross_owner cross (some baseline) item).outcome ≡ potential_bola
unfolding analyze_bola_run classify_bola_run json_matching_resource_id_key is_identifier
    normalize_scalar find parse_json_body
disclosed = refl

abbrev sizes : FingerprintEvidence
sizes = record {
  baseline_digest = text "a";
  probe_digest = text "b";
  baseline_body_bytes = 300;
  probe_body_bytes = 400;
}
